-- ===== src/Checkpoint/Load.antt =====
-- Reading a session back, and cleaning it up (`load_full_state`, `get_latest_info` and `cleanup` of
-- crates/workflow/src/checkpoint/manager.rs, `from_key_string` of checkpoint.rs there).
use text.Mathlib.Text.{starts_with}
use mathlib.Core.Option
use rust_agent_framework.Common.{
  ℕ, zero, suc, String, Option, none, some, List, [], ◌∷◌, map, drop, length, leb, if◌then◌else◌,
  Map, contains_key, insert, Result, ok, err,
}
use rust_agent_framework.Checkpoint.{
  Checkpoint, CheckpointInfo, ScopeKey, private_key, shared_key, CheckpointConfig, CheckpointStore,
  latest, sort_infos,
}

abbrev pub tail : String → String
tail String.[] = ""
tail (String.◌∷◌ c s) = s

-- `key.find("::")` with the two slices beside what it finds.
unfoldable pub split_key : String → Option (String × String)
split_key String.[] = none
split_key (String.◌∷◌ c s) =
    let rest = Option.map (λ (p : String × String). (String.◌∷◌ c p.0, p.1)) (split_key s) in
    if starts_with (String.◌∷◌ c s) "::" then some ("", tail s) else rest

unfoldable pub from_key_string : String → ScopeKey
unfolding split_key
from_key_string key = elim (split_key key) [
  | none ↦ private_key key
  | some (node, scope) ↦ shared_key node scope
]

module _ {V : Type 0} where
  -- `merged_state.entry(key).or_insert_with(..)` for every key of the parent
  unfoldable pub merge_parent : Map V → Map V → Map V
  unfolding contains_key insert
  merge_parent [] merged = merged
  merge_parent ((k, v) ∷ parent) merged =
      merge_parent parent (if contains_key merged k then merged else insert k v merged)

module _ {S V : Type 0} (store : CheckpointStore S V) where
  -- The `while let Some(parent_id) = current_id` loop; `none`: out of fuel.
  unfoldable pub climb : ℕ → Option String → Map V → S → Option (Map V)
  unfolding merge_parent
  climb fuel none merged s = some merged
  climb zero (some id) merged s = none
  climb (suc fuel) (some id) merged s = elim (store.load id s) [
    | err e ↦ some merged
    | ok parent ↦
        let merged' = merge_parent parent.state_data merged in
        let rest = climb fuel parent.parent_checkpoint_id merged' s in
        if parent.is_full_snapshot then some merged' else rest
  ]

  -- The merged state of a loaded checkpoint, with the keys as texts.
  unfoldable pub merged_state : ℕ → Checkpoint V → S → Option (Map V)
  unfolding climb
  merged_state fuel c s =
      if c.is_full_snapshot
      then some c.state_data
      else climb fuel c.parent_checkpoint_id c.state_data s

  abbrev pub scoped : Map V → List (ScopeKey × V)
  scoped m = map (λ (p : String × V). (from_key_string p.0, p.1)) m

  abbrev pub load_latest :
      ℕ → Option CheckpointInfo → S → Option (Result (Option (Checkpoint V × List (ScopeKey × V))))
  load_latest fuel none s = some (ok none)
  load_latest fuel (some info) s = elim (store.load info.checkpoint_id s) [
    | err e ↦ some (err e)
    | ok c ↦ Option.map (λ m. ok (some (c, scoped m))) (merged_state fuel c s)
  ]

  unfoldable pub load_full_state :
      ℕ → String → S → Option (Result (Option (Checkpoint V × List (ScopeKey × V))))
  unfolding merged_state from_key_string latest
  load_full_state fuel session s = elim (store.list session s) [
    | err e ↦ some (err e)
    | ok infos ↦ load_latest fuel (latest infos) s
  ]

  unfoldable pub get_latest_info : String → S → Result (Option CheckpointInfo)
  unfolding latest
  get_latest_info session s = elim (store.list session s) [
    | err e ↦ err e
    | ok infos ↦ ok (latest infos)
  ]

  -- The first error of `delete` ends the clean-up.
  abbrev pub delete_all : List CheckpointInfo → S → Result (Unit {0}) × S
  delete_all [] s = (ok tt, s)
  delete_all (info ∷ infos) s =
      let (r, s') = store.delete info.checkpoint_id s in
      elim r [ err e ↦ (err e, s') | ok u ↦ delete_all infos s' ]

  unfoldable pub cleanup : CheckpointConfig → String → S → Result (Unit {0}) × S
  unfolding sort_infos
  cleanup config session s = elim (store.list session s) [
    | err e ↦ (err e, s)
    | ok infos ↦
        if leb (length infos) config.max_checkpoints
        then (ok tt, s)
        else delete_all (drop config.max_checkpoints (sort_infos infos)) s
  ]
