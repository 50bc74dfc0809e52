-- ===== src/Checkpoint/Samples.antt =====
-- A session in the in-memory store, and small inputs for what is proved of checkpoints.
use Prim.Native.Char.{Char, code}
use rust_agent_framework.Common.{
  ℕ, String, Bool, true, false, Option, none, some, List, [], ◌∷◌, Map, get, nat_eq, ◌≡◌, ◌≢◌, refl,
  ap, arith, ok,
}
use rust_agent_framework.Engine.Route.Keys.{colon}
use rust_agent_framework.Checkpoint.{
  Checkpoint, CheckpointInfo, CheckpointStore, Manager, private_key, shared_key, to_key_string,
  default_config, commit,
}
use rust_agent_framework.Checkpoint.Store.{
  MemoryStore, info_of, save, load, list, memory_store, save_lem,
}
use rust_agent_framework.Checkpoint.Load.{from_key_string, merged_state}
use rust_agent_framework.Checkpoint.Chain.{newest, snapshot, merged_state-newest}
use rust_agent_framework.Checkpoint.Scope.{from_key_string-to_key_string}
use rust_agent_framework.Checkpoint.Commit.{IsCounted, commit-IsCounted}

abbrev with_state : ℕ → Option String → Bool → Map ℕ → Checkpoint ℕ
with_state step parent full state = record {
  step_number = step;
  graph_fingerprint = "graph";
  state_data = state;
  edge_state_data = [];
  pending_messages = [];
  parent_checkpoint_id = parent;
  is_full_snapshot = full;
  created_at = 0;
}

-- The key "draft" was cleared in the second step.
abbrev base : Checkpoint ℕ
base = with_state 1 none true (("draft", 1) ∷ ("votes", 2) ∷ [])

abbrev later : Checkpoint ℕ
later = with_state 2 (some "c1") false (("votes", 3) ∷ [])

abbrev session : MemoryStore ℕ
session = record {
  checkpoints = ("c1", base) ∷ ("c2", later) ∷ [];
  infos = ("s", info_of "c1" 10 0 "s" base ∷ info_of "c2" 10 0 "s" later ∷ []) ∷ [];
}

abbrev at : CheckpointStore (MemoryStore ℕ) ℕ
at = memory_store (λ s. "c3") (λ c. some 10) 0

-- It is back after a restart.
cleared_key_returns : merged_state at 5 later session ≡ some (("votes", 3) ∷ ("draft", 1) ∷ [])
unfolding merged_state load
cleared_key_returns = refl

merged_state-newest_example :
    (all : Map ℕ) × (merged_state at 2 later session ≡ some all)
    × ((k : String) → get all k ≡ newest (later.state_data ∷ base.state_data ∷ []) k)
unfolding load
merged_state-newest_example =
    merged_state-newest at session 2 later refl (snapshot {c = base} refl refl) (omega arith)

save_lem_example :
    let after = (save "c3" (some 10) 0 "s" later session).1 in
    (load "c3" after ≡ ok later) × (list "c3" after ≡ [])
unfolding list
save_lem_example = save_lem "c3" 10 0 "s" later session "c3"

from_key_string-to_key_string_example :
    from_key_string (to_key_string (shared_key "a" "x::y")) ≡ shared_key "a" "x::y"
from_key_string-to_key_string_example =
    from_key_string-to_key_string (shared_key "a" "x::y") (ne_colon "a" refl, tt)
  where
    ne_colon : (c : Char) → nat_eq (code c) 58 ≡ false → c ≢ colon
    ne_colon c h e = ground (arith, ap code e)

abbrev pointers : List CheckpointInfo
pointers = info_of "c2" 10 0 "s" later ∷ info_of "c1" 10 0 "s" base ∷ []

abbrev manager : Manager (MemoryStore ℕ)
manager = record { counter = ("s", 2) ∷ []; store = session }

commit-IsCounted_example :
    IsCounted at default_config "s" manager "s"
      (commit at default_config 0 "s" "graph" ((private_key "votes", 4) ∷ []) [] [] 3 manager)
commit-IsCounted_example =
    commit-IsCounted at default_config 0 "s" "graph" ((private_key "votes", 4) ∷ []) [] [] 3 manager
      "s"
