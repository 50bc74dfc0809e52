-- ===== src/Checkpoint.antt =====
-- crates/workflow/src/checkpoint/checkpoint.rs and manager.rs: what a checkpoint is, and the
-- manager that writes them. The step numbers are `i32` by their bit patterns, so that -1, which
-- marks the initial checkpoint, is 2^32 - 1. The store is the interface `CheckpointStore`.
pub mod Store
pub mod Load
pub mod Chain
pub mod Scope
pub mod Order
pub mod Commit
mod Samples
use Prim.Native.String.{◌++◌ as text_append}
use rust_agent_framework.Common.{
  ℕ, zero, suc, ◌+◌, ◌-◌, ◌%◌, ◌^◌, String, Bool, true, false, ◌&&◌, Option, none, some, List, [],
  ◌∷◌, ◌++◌, map, drop, length, ltb, leb, nat_eq, if◌then◌else◌, Map, get, insert, or_default,
  AgentError, workflow_error, Result, ok, err, ◌>>=◌,
}
use rust_agent_framework.Envelope.{Envelope}
use rust_agent_framework.Engine.Prepare.{ge_i32}

pub record Checkpoint (V : Type 0) : Type 0 where
  pub step_number : ℕ
  pub graph_fingerprint : String
  pub state_data : Map V
  pub edge_state_data : Map V
  pub pending_messages : List (Envelope V V)
  pub parent_checkpoint_id : Option String
  pub is_full_snapshot : Bool
  pub created_at : ℕ

pub record CheckpointInfo : Type 0 where
  pub checkpoint_id : String
  pub session_id : String
  pub step_number : ℕ
  pub parent_checkpoint_id : Option String
  pub is_full_snapshot : Bool
  pub byte_size : ℕ
  pub created_at : ℕ

pub record ScopeKey : Type 0 where
  pub node_id : String
  pub scope_name : Option String

abbrev pub private_key : String → ScopeKey
private_key id = record { node_id = id; scope_name = none }

abbrev pub shared_key : String → String → ScopeKey
shared_key id scope = record { node_id = id; scope_name = some scope }

unfoldable pub to_key_string : ScopeKey → String
to_key_string key = elim key.scope_name [
  | none ↦ key.node_id
  | some scope ↦ text_append (text_append key.node_id "::") scope
]

pub record CheckpointConfig : Type 0 where
  pub full_snapshot_interval : ℕ
  pub max_checkpoints : ℕ
  pub enabled : Bool

abbrev pub default_config : CheckpointConfig
default_config = record { full_snapshot_interval = 50; max_checkpoints = 100; enabled = true }

abbrev pub disabled : CheckpointConfig
disabled = record default_config { enabled = false }

-- `ICheckpointStore`, over the state of a store.
pub record CheckpointStore (S V : Type 0) : Type 0 where
  pub save : String → Checkpoint V → S → Result CheckpointInfo × S
  pub load : String → S → Result (Checkpoint V)
  pub list : String → S → Result (List CheckpointInfo)
  pub delete : String → S → Result (Unit {0}) × S

-- `max_by_key(|info| info.step_number)`: of several greatest ones, the last.
unfoldable pub latest : List CheckpointInfo → Option CheckpointInfo
latest [] = none
latest (info ∷ infos) = elim (latest infos) [
  | none ↦ some info
  | some best ↦ if ge_i32 best.step_number info.step_number then some best else some info
]

-- `sort_by_key(Reverse(step_number))`: the later steps first, and equal ones as they stood.
unfoldable pub place : CheckpointInfo → List CheckpointInfo → List CheckpointInfo
place info [] = info ∷ []
place info (other ∷ others) =
    if ge_i32 info.step_number other.step_number
    then info ∷ other ∷ others
    else other ∷ place info others

unfoldable pub sort_infos : List CheckpointInfo → List CheckpointInfo
unfolding place
sort_infos [] = []
sort_infos (info ∷ infos) = place info (sort_infos infos)

abbrev pub manager_disabled : AgentError
manager_disabled = workflow_error "检查点管理器已禁用"

-- `CheckpointManager`: the counters of the sessions (u32) and the state of the store.
pub record Manager (S : Type 0) : Type 0 where
  pub counter : Map ℕ
  pub store : S

module _ {S V : Type 0} (store : CheckpointStore S V) (config : CheckpointConfig) where
  unfoldable pub create_initial :
      ℕ → String → String → Manager S → Result CheckpointInfo × Manager S
  create_initial now session fingerprint m =
      let (result, s) =
        store.save session
          (record {
            step_number = 2 ^ 32 - 1;
            graph_fingerprint = fingerprint;
            state_data = [];
            edge_state_data = [];
            pending_messages = [];
            parent_checkpoint_id = none;
            is_full_snapshot = true;
            created_at = now;
          })
          m.store in
      (result, record m { store = s })

  abbrev pub count_of : String → Manager S → ℕ
  count_of session m = or_default 0 (get m.counter session)

  -- `*count > 0 && *count % interval == 0`
  abbrev pub is_full : ℕ → Bool
  is_full count = ltb 0 count && nat_eq (count % config.full_snapshot_interval) 0

  -- The state as it was handed to the store, with its keys as texts; of two keys with one text the
  -- later one wins.
  abbrev pub string_keys : List (ScopeKey × V) → Map V → Map V
  string_keys [] m = m
  string_keys ((key, v) ∷ state) m = string_keys state (insert (to_key_string key) v m)

  abbrev pub parent_of : String → Bool → S → Result (Option String)
  parent_of session true s = ok none
  parent_of session false s = elim (store.list session s) [
    | err e ↦ err e
    | ok infos ↦ elim (latest infos) [ none ↦ ok none | some info ↦ ok (some info.checkpoint_id) ]
  ]

  -- The counter's entry is made before anything can fail, and raised only after a save.
  abbrev pub counted :
      String → ℕ → Result CheckpointInfo × S → Manager S → Result CheckpointInfo × Manager S
  counted session count (ok info, s) m =
      (ok info, record { counter = insert session ((count + 1) % 2 ^ 32) m.counter; store = s })
  counted session count (err e, s) m =
      (err e, record { counter = insert session count m.counter; store = s })

  abbrev pub committed :
      ℕ
      → String
      → String
      → List (ScopeKey × V)
      → Map V
      → List (Envelope V V)
      → ℕ
      → Manager S
      → Result (Option String)
      → Result CheckpointInfo × Manager S
  committed now session fingerprint state edges pending step m (err e) =
      counted session (count_of session m) (err e, m.store) m
  committed now session fingerprint state edges pending step m (ok parent) =
      counted session (count_of session m)
        (store.save session
          (record {
            step_number = step;
            graph_fingerprint = fingerprint;
            state_data = string_keys state [];
            edge_state_data = edges;
            pending_messages = pending;
            parent_checkpoint_id = parent;
            is_full_snapshot = is_full (count_of session m);
            created_at = now;
          })
          m.store)
        m

  -- `commit`, where the interval is not 0: the remainder by 0 panics.
  unfoldable pub commit :
      ℕ
      → String
      → String
      → List (ScopeKey × V)
      → Map V
      → List (Envelope V V)
      → ℕ
      → Manager S
      → Result CheckpointInfo × Manager S
  unfolding latest get insert to_key_string
  commit now session fingerprint state edges pending step m =
      if config.enabled
      then committed now session fingerprint state edges pending step m
          (parent_of session (is_full (count_of session m)) m.store)
      else (err manager_disabled, m)
