-- ===== src/Checkpoint/Store.antt =====
-- `InMemoryCheckpointStore` of crates/workflow/src/checkpoint/store.rs. The uuid, the size of the
-- serialized checkpoint and the clock are arguments.
use Prim.Native.String.{◌++◌ as text_append}
use rust_agent_framework.Common.{
  ℕ, String, not, Option, none, some, List, [], ◌∷◌, ◌++◌, keep, if◌then◌else◌, ◌==◌, Map, get,
  insert, remove, update_entry, get-insert, get-remove, get-update_entry, or_default, ◌≡◌, refl,
  arith, AgentError, workflow_error, Result, ok, err,
}
use rust_agent_framework.Checkpoint.{Checkpoint, CheckpointInfo, CheckpointStore}

pub record MemoryStore (V : Type 0) : Type 0 where
  pub checkpoints : Map (Checkpoint V)
  pub infos : Map (List CheckpointInfo)

abbrev pub not_there : String → AgentError
not_there id = workflow_error (text_append (text_append "检查点 '" id) "' 不存在")

-- `infos.retain(|info| info.checkpoint_id != checkpoint_id)`, in each session
abbrev pub others : String → List CheckpointInfo → List CheckpointInfo
others id infos = keep (λ info. not (info.checkpoint_id == id)) infos

abbrev pub retain : String → Map (List CheckpointInfo) → Map (List CheckpointInfo)
retain id [] = []
retain id ((session, infos) ∷ m) = (session, others id infos) ∷ retain id m

get-retain :
    (id session : String) (m : Map (List CheckpointInfo))
    → or_default [] (get (retain id m) session) ≡ others id (or_default [] (get m session))
unfolding get
get-retain id session [] = refl
get-retain id session ((k, infos) ∷ m) = ground (arith, get-retain id session m)

module _ {V : Type 0} where
  abbrev pub empty_store : MemoryStore V
  empty_store = record { checkpoints = []; infos = [] }

  abbrev pub info_of : String → ℕ → ℕ → String → Checkpoint V → CheckpointInfo
  info_of id size now session c = record {
    checkpoint_id = id;
    session_id = session;
    step_number = c.step_number;
    parent_checkpoint_id = c.parent_checkpoint_id;
    is_full_snapshot = c.is_full_snapshot;
    byte_size = size;
    created_at = now;
  }

  unfoldable pub save :
      String
      → Option ℕ
      → ℕ
      → String
      → Checkpoint V
      → MemoryStore V
      → Result CheckpointInfo × MemoryStore V
  unfolding insert update_entry
  save id none now session c s = (err (AgentError.serialize "序列化检查点失败"), s)
  save id (some size) now session c s =
      let info = info_of id size now session c in
      (
        ok info,
        record {
          checkpoints = insert id c s.checkpoints;
          infos = update_entry session [] (λ infos. infos ++ info ∷ []) s.infos;
        },
      )

  unfoldable pub load : String → MemoryStore V → Result (Checkpoint V)
  unfolding get
  load id s = elim (get s.checkpoints id) [ none ↦ err (not_there id) | some c ↦ ok c ]

  unfoldable pub list : String → MemoryStore V → List CheckpointInfo
  unfolding get
  list session s = or_default [] (get s.infos session)

  unfoldable pub delete : String → MemoryStore V → MemoryStore V
  unfolding remove
  delete id s = record { checkpoints = remove id s.checkpoints; infos = retain id s.infos }

  -- The store as an instance of the interface, for one choice of the next uuid, size and time.
  abbrev pub memory_store :
      (MemoryStore V → String) → (Checkpoint V → Option ℕ) → ℕ → CheckpointStore (MemoryStore V) V
  memory_store fresh size now = record {
    save = λ session c s. save (fresh s) (size c) now session c s;
    load = load;
    list = λ session s. ok (list session s);
    delete = λ id s. (ok tt, delete id s);
  }

  -- A saved checkpoint is found under its id, and no other id loses or gains one; its pointer
  -- goes last in the list of its session, and no other session's list changes.
  pub save_lem :
      (id : String) (size now : ℕ) (session : String) (c : Checkpoint V) (s : MemoryStore V)
      (other : String)
      → let after = (save id (some size) now session c s).1 in
        (load other after ≡ (if id == other then ok c else load other s))
        × (list other after ≡ (
            if session == other
            then list session s ++ info_of id size now session c ∷ []
            else list other s))
  unfolding save load list
  save_lem id size now session c s other = ground (
    arith,
    get-insert id other c s.checkpoints,
    get-update_entry session other [] (λ infos. infos ++ info_of id size now session c ∷ [])
        s.infos,
  )

  -- A deleted checkpoint is not found any more and is in no list, and everything else is as it was.
  pub delete_lem :
      (id : String) (s : MemoryStore V) (other : String)
      → (load other (delete id s) ≡ (if id == other then err (not_there other) else load other s))
        × (list other (delete id s) ≡ others id (list other s))
  unfolding delete load list
  delete_lem id s other =
      (ground (arith, get-remove id other s.checkpoints), get-retain id other s.infos)
