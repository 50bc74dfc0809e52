-- ===== src/Checkpoint/Chain.antt =====
-- What a session's state is after a restart (`load_full_state` of
-- crates/workflow/src/checkpoint/manager.rs): the newest value along the chain of parents.
use rust_agent_framework.Common.{
  ℕ, zero, suc, ◌+◌, ◌≤◌, String, true, false, Option, none, some, List, [], ◌∷◌, length, ◌==◌,
  eq_iff, Map, get, insert, contains_key, get-insert, ◌≡◌, refl, sym, ap, ◌∙◌, arith, Bool-cases,
  Option-cases, inl, inr, AgentError, ok, err,
}
use rust_agent_framework.Checkpoint.{Checkpoint, CheckpointStore}
use rust_agent_framework.Checkpoint.Load.{merge_parent, climb, merged_state}

module _ {V : Type 0} where
  abbrev pub or_else : Option V → Option V → Option V
  or_else none b = b
  or_else (some v) b = some v

  or_else_assoc : (a b c : Option V) → or_else (or_else a b) c ≡ or_else a (or_else b c)
  or_else_assoc none b c = refl
  or_else_assoc (some v) b c = refl

  or_else-none : (a : Option V) → or_else a none ≡ a
  or_else-none none = refl
  or_else-none (some v) = refl

  -- The value of a key in the first of the states that has one.
  abbrev pub newest : List (Map V) → String → Option V
  newest [] k = none
  newest (state ∷ states) k = or_else (get state k) (newest states k)

  get-merge_parent :
      (parent merged : Map V) (k : String)
      → get (merge_parent parent merged) k ≡ or_else (get merged k) (get parent k)
  unfolding merge_parent get contains_key
  get-merge_parent [] merged k = elim (Option-cases (get merged k)) [
    | inl no_value ↦ rw no_value
    | inr (v, value) ↦ rw value
  ]
  get-merge_parent ((j, v) ∷ parent) merged k = elim (Option-cases (get merged j)) [
    | inl fresh ↦
        rw (fresh, get-merge_parent parent (insert j v merged) k, get-insert j k v merged)
          (elim (Bool-cases (j == k)) [
            | inl same ↦
                let e : get merged k ≡ none = rw (← (eq_iff j k).0 same) fresh in rw (same, e)
            | inr differ ↦ rw differ
          ])
    | inr (w, taken) ↦
        rw (taken, get-merge_parent parent merged k)
          (elim (Bool-cases (j == k)) [
            | inl same ↦
                let e : get merged k ≡ some w = rw (← (eq_iff j k).0 same) taken in rw (same, e)
            | inr differ ↦ rw differ
          ])
  ]

module _ {S V : Type 0} (store : CheckpointStore S V) (s : S) where
  -- The states of the parents, nearest first: up to a full snapshot, a checkpoint without a parent,
  -- or one that is not in the store any more.
  pub data IsChain : Option String → List (Map V) → Type 0 where
    no_parent : IsChain none []
    cleaned_up : {id : String} {e : AgentError} → store.load id s ≡ err e → IsChain (some id) []
    snapshot :
        {id : String} {c : Checkpoint V}
        → store.load id s ≡ ok c
        → c.is_full_snapshot ≡ true
        → IsChain (some id) (c.state_data ∷ [])
    increment :
        {id : String} {c : Checkpoint V} {states : List (Map V)}
        → store.load id s ≡ ok c
        → c.is_full_snapshot ≡ false
        → IsChain c.parent_checkpoint_id states
        → IsChain (some id) (c.state_data ∷ states)

  -- The climb along a chain, with fuel for each of its states.
  pub climb-newest :
      (fuel : ℕ) (current : Option String) (merged : Map V) {states : List (Map V)}
      → IsChain current states
      → length states + 1 ≤ fuel
      → (all : Map V) × (climb store fuel current merged s ≡ some all)
        × ((k : String) → get all k ≡ newest (merged ∷ states) k)
  unfolding climb
  climb-newest zero current merged chain room = absurd (omega arith)
  climb-newest (suc fuel) none merged no_parent room =
      (merged, refl, λ k. sym (or_else-none (get merged k)))
  climb-newest (suc fuel) (some id) merged (cleaned_up gone) room =
      (merged, rw (climb, gone) refl, λ k. sym (or_else-none (get merged k)))
  climb-newest (suc fuel) (some id) merged (snapshot {c = c} found full) room = (
    merge_parent c.state_data merged,
    rw (climb, found, full) refl,
    λ k.
        get-merge_parent c.state_data merged k
        ∙ ap (or_else (get merged k)) (sym (or_else-none (get c.state_data k))),
  )
  climb-newest (suc fuel) (some id) merged (increment {c = c} {states = states} found part chain)
        room =
      let (all, climbed, newest_of) =
        climb-newest fuel c.parent_checkpoint_id (merge_parent c.state_data merged) chain
          (omega arith) in
      (
        all,
        rw (climb, found, part) climbed,
        λ k.
            newest_of k
            ∙ ap (λ o. or_else o (newest states k)) (get-merge_parent c.state_data merged k)
            ∙ or_else_assoc (get merged k) (get c.state_data k) (newest states k),
      )

  -- The state that a session is restored with from an incremental checkpoint: every key has the
  -- value of the nearest checkpoint of the chain that has the key at all. So a key that the
  -- checkpoint no longer has, because it was cleared, comes back with its older value.
  pub merged_state-newest :
      (fuel : ℕ) (c : Checkpoint V) {states : List (Map V)}
      → c.is_full_snapshot ≡ false
      → IsChain c.parent_checkpoint_id states
      → length states + 1 ≤ fuel
      → (all : Map V) × (merged_state store fuel c s ≡ some all)
        × ((k : String) → get all k ≡ newest (c.state_data ∷ states) k)
  unfolding merged_state
  merged_state-newest fuel c part chain room =
      let (all, climbed, newest_of) =
        climb-newest fuel c.parent_checkpoint_id c.state_data chain room in
      (all, rw (merged_state, part) climbed, newest_of)
