-- ===== src/Process.antt =====
-- crates/workflow-pro/src/process/instance.rs: the life of a process. The definition is taken as
-- its id and its variables; the time is an argument.
pub mod Lifecycle
pub mod Definition
mod Samples
use Prim.Native.String.{◌++◌ as text_append}
use rust_agent_framework.Common.{
  ℕ, String, Bool, true, false, Option, none, some, List, [], ◌∷◌, if◌then◌else◌, Map, get, insert,
  AgentError, workflow_error, Result, ok, err,
}

pub data ProcessState : Type 0 where
  created running suspended completed terminated failed : ProcessState

-- `{:?}`
abbrev pub debug_state : ProcessState → String
debug_state created = "Created"
debug_state running = "Running"
debug_state suspended = "Suspended"
debug_state completed = "Completed"
debug_state terminated = "Terminated"
debug_state failed = "Failed"

-- `VariableDef` of process/definition.rs
pub record VariableDef (V : Type 0) : Type 0 where
  pub name : String
  pub default_value : Option V
  pub required : Bool

pub record ProcessInstance (V : Type 0) : Type 0 where
  pub id : String
  pub definition_id : String
  pub state : ProcessState
  pub variables : Map V
  pub created_at : ℕ
  pub updated_at : ℕ

pub record ProcessSnapshot (V : Type 0) : Type 0 where
  pub process_id : String
  pub definition_id : String
  pub state : ProcessState
  pub current_node_id : Option String
  pub variables : Map V
  pub started_at : ℕ
  pub updated_at : ℕ

abbrev pub Outcome : Type 0 → Type 0
Outcome V = Result (Unit {0}) × ProcessInstance V

module _ {V : Type 0} where
  -- What the loop of `new` does with one variable.
  abbrev pub declare_variable : V → VariableDef V → Map V → Map V
  declare_variable null v vars = elim v.default_value [
    | some value ↦ insert v.name value vars
    | none ↦ if v.required then insert v.name null vars else vars
  ]

  abbrev pub declare_variables : V → List (VariableDef V) → Map V → Map V
  declare_variables null [] vars = vars
  declare_variables null (v ∷ vs) vars = declare_variables null vs (declare_variable null v vars)

  unfoldable pub new_instance :
      V → String → String → List (VariableDef V) → ℕ → ℕ → ProcessInstance V
  unfolding insert
  new_instance null id definition_id variables created_at updated_at = record {
    id = id;
    definition_id = definition_id;
    state = created;
    variables = declare_variables null variables [];
    created_at = created_at;
    updated_at = updated_at;
  }

  abbrev pub moved : ProcessState → ℕ → ProcessInstance V → Outcome V
  moved state now p = (ok tt, record p { state = state; updated_at = now })

  abbrev pub refused : String → ProcessInstance V → Outcome V
  refused what p = (
    err (
        workflow_error
          (text_append (text_append (text_append "cannot " what) " from ") (debug_state p.state))),
    p,
  )

  unfoldable pub start : ℕ → ProcessInstance V → Outcome V
  start now p = elim p.state [
    | created ↦ moved running now p
    | suspended ↦ moved running now p
    | _ ↦ refused "start" p
  ]

  unfoldable pub suspend : ℕ → ProcessInstance V → Outcome V
  suspend now p = elim p.state [ running ↦ moved suspended now p | _ ↦ refused "suspend" p ]

  unfoldable pub resume : ℕ → ProcessInstance V → Outcome V
  resume now p = elim p.state [ suspended ↦ moved running now p | _ ↦ refused "resume" p ]

  unfoldable pub complete : ℕ → ProcessInstance V → Outcome V
  complete now p = elim p.state [ running ↦ moved completed now p | _ ↦ refused "complete" p ]

  -- The reason is only logged, here and in `fail`.
  unfoldable pub terminate : ℕ → ProcessInstance V → Outcome V
  terminate now p = elim p.state [
    | completed ↦ refused "terminate" p
    | terminated ↦ refused "terminate" p
    | failed ↦ refused "terminate" p
    | _ ↦ moved terminated now p
  ]

  unfoldable pub fail : ℕ → ProcessInstance V → Outcome V
  fail now p = elim p.state [
    | completed ↦ refused "fail" p
    | terminated ↦ refused "fail" p
    | failed ↦ refused "fail" p
    | _ ↦ moved failed now p
  ]

  abbrev pub snapshot : ProcessInstance V → ProcessSnapshot V
  snapshot p = record {
    process_id = p.id;
    definition_id = p.definition_id;
    state = p.state;
    current_node_id = none;
    variables = p.variables;
    started_at = p.created_at;
    updated_at = p.updated_at;
  }

  abbrev pub get_variable : String → ProcessInstance V → Option V
  get_variable name p = get p.variables name

  abbrev pub set_variable : String → V → ProcessInstance V → ProcessInstance V
  set_variable name value p = record p { variables = insert name value p.variables }
