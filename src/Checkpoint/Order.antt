-- ===== src/Checkpoint/Order.antt =====
-- Which checkpoints are the latest (`max_by_key` and `sort_by_key` in
-- crates/workflow/src/checkpoint/manager.rs).
use mathlib.Core.List.{Perm}
use mathlib.Core.List.Perm
use rust_agent_framework.Common.{
  true, false, some, List, [], ◌∷◌, All, Elem, here, there, ◌≡◌, refl, arith, Bool-cases, inl, inr,
}
use rust_agent_framework.Engine.Prepare.{ge_i32}
use rust_agent_framework.Checkpoint.{CheckpointInfo, latest, place, sort_infos}

-- Not earlier, in the order of signed 32-bit numbers.
abbrev pub IsLater : CheckpointInfo → CheckpointInfo → Type 0
IsLater a b = ge_i32 a.step_number b.step_number ≡ true

IsLater-trans : (a b c : CheckpointInfo) → IsLater a b → IsLater b c → IsLater a c
IsLater-trans a b c p q = ground arith

IsLater-total : (a b : CheckpointInfo) → ge_i32 a.step_number b.step_number ≡ false → IsLater b a
IsLater-total a b h = ground arith

IsLater-refl : (a : CheckpointInfo) → IsLater a a
IsLater-refl a = ground arith

All-IsLater :
    (a b : CheckpointInfo) (infos : List CheckpointInfo)
    → IsLater a b
    → All (IsLater b) infos
    → All (IsLater a) infos
All-IsLater a b [] p h = tt
All-IsLater a b (c ∷ infos) p h = (IsLater-trans a b c p h.0, All-IsLater a b infos p h.1)

-- The latest pointer of a list that is not empty is in it, and no other is later.
pub latest_lem :
    (info : CheckpointInfo) (infos : List CheckpointInfo)
    → (best : CheckpointInfo) × (latest (info ∷ infos) ≡ some best)
      × Elem best (info ∷ infos)
      × All (IsLater best) (info ∷ infos)
unfolding latest
latest_lem info [] = (info, refl, here refl, (IsLater-refl info, tt))
latest_lem info (next ∷ infos) =
    let (best, found, m, later) = latest_lem next infos in
    elim (Bool-cases (ge_i32 best.step_number info.step_number)) [
      | inl newer ↦ (best, rw (latest, found, newer) refl, there m, (newer, later))
      | inr older ↦
          let p = IsLater-total best info older in
          (
            info,
            rw (latest, found, older) refl,
            here refl,
            (IsLater-refl info, All-IsLater info best (next ∷ infos) p later),
          )
    ]

abbrev pub Descending : List CheckpointInfo → Type 0
Descending [] = Unit
Descending (a ∷ infos) = All (IsLater a) infos × Descending infos

place-All :
    (P : CheckpointInfo → Type 0) (info : CheckpointInfo) (infos : List CheckpointInfo)
    → P info
    → All P infos
    → All P (place info infos)
unfolding place
place-All P info [] p h = (p, tt)
place-All P info (other ∷ others) p h =
    elim (Bool-cases (ge_i32 info.step_number other.step_number)) [
      | inl first ↦ rw first (p, h)
      | inr after ↦ rw after (h.0, place-All P info others p h.1)
    ]

place-Descending :
    (info : CheckpointInfo) (infos : List CheckpointInfo)
    → Descending infos
    → Descending (place info infos)
unfolding place
place-Descending info [] d = (tt, tt)
place-Descending info (other ∷ others) d =
    elim (Bool-cases (ge_i32 info.step_number other.step_number)) [
      | inl first ↦ rw first ((first, All-IsLater info other others first d.0), d)
      | inr after ↦ rw after (
        place-All (IsLater other) info others (IsLater-total info other after) d.0,
        place-Descending info others d.1,
      )
    ]

place-perm :
    (info : CheckpointInfo) (infos : List CheckpointInfo) → Perm (place info infos) (info ∷ infos)
unfolding place
place-perm info [] = Perm.refl (info ∷ [])
place-perm info (other ∷ others) = elim (Bool-cases (ge_i32 info.step_number other.step_number)) [
  | inl first ↦ rw first (Perm.refl (info ∷ other ∷ others))
  | inr after ↦
      rw after (Perm.trans (Perm.cons other (place-perm info others)) (Perm.swap info other others))
]

-- Sorting for the clean-up keeps every pointer, and puts no earlier step before a later one: what
-- is dropped behind the first `max_checkpoints` is not later than what is kept.
pub sort_infos-Descending :
    (infos : List CheckpointInfo) → Descending (sort_infos infos) × Perm (sort_infos infos) infos
unfolding sort_infos
sort_infos-Descending [] = (tt, Perm.refl [])
sort_infos-Descending (info ∷ infos) =
    let (d, p) = sort_infos-Descending infos in
    (
      place-Descending info (sort_infos infos) d,
      Perm.trans (place-perm info (sort_infos infos)) (Perm.cons info p),
    )
