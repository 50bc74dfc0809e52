-- ===== src/Condition/Correlation.antt =====
-- crates/workflow/src/engine/correlation.rs: matching a message with a waiting process by the
-- texts in its metadata. Instants and durations are numbers of nanoseconds.
use rust_agent_framework.Common.{
  ℕ, ◌-◌, String, Bool, true, false, ◌&&◌, ◌==◌, leb, Option, none, some, [], Map, get, insert, all,
  Result, ok,
}
use rust_agent_framework.Envelope.{Envelope}
use rust_agent_framework.Condition.{JsonView}

pub record CorrelationKey : Type 0 where
  pub business_key : Option String
  pub process_id : Option String
  pub custom_keys : Map String

abbrev pub by_business_key : String → CorrelationKey
by_business_key key = record { business_key = some key; process_id = none; custom_keys = [] }

abbrev pub by_process_id : String → CorrelationKey
by_process_id id = record { business_key = none; process_id = some id; custom_keys = [] }

unfoldable pub with_custom_key : String → String → CorrelationKey → CorrelationKey
unfolding insert
with_custom_key key value c = record c { custom_keys = insert key value c.custom_keys }

abbrev pub is_text : String → Option String → Bool
is_text wanted none = false
is_text wanted (some s) = s == wanted

module _ {V : Type 0} (view : JsonView V) where
  -- `meta.get(key).and_then(|v| v.as_str()) == Some(wanted)`
  unfoldable pub metadata_is : Map V → String → String → Bool
  unfolding get
  metadata_is meta key wanted =
      is_text wanted (elim (get meta key) [ none ↦ none | some v ↦ view.as_str v ])

  abbrev pub matches_option : Map V → String → Option String → Bool
  matches_option meta key none = true
  matches_option meta key (some wanted) = metadata_is meta key wanted

  unfoldable pub matches : {C : Type 0} → CorrelationKey → Envelope C V → Bool
  unfolding metadata_is
  matches key env =
      matches_option env.metadata "business_key" key.business_key
      && (matches_option env.metadata "process_id" key.process_id
          && all (λ (k, v). metadata_is env.metadata k v) key.custom_keys)

-- `started_at` is shared between clones; here it is a field of the state that is passed on.
pub record MessageCorrelation : Type 0 where
  pub key : CorrelationKey
  pub timeout : Option ℕ
  pub started_at : Option ℕ

abbrev pub new_correlation : CorrelationKey → MessageCorrelation
new_correlation key = record { key = key; timeout = none; started_at = none }

abbrev pub with_timeout : ℕ → MessageCorrelation → MessageCorrelation
with_timeout timeout c = record c { timeout = some timeout }

unfoldable pub start : ℕ → MessageCorrelation → MessageCorrelation
start now c = elim c.started_at [ none ↦ record c { started_at = some now } | some t ↦ c ]

unfoldable pub reset : MessageCorrelation → MessageCorrelation
reset c = record c { started_at = none }

unfoldable pub is_timed_out : ℕ → MessageCorrelation → Bool
is_timed_out now c = elim c.timeout [
  | none ↦ false
  | some timeout ↦ elim c.started_at [ none ↦ false | some started ↦ leb timeout (now - started) ]
]

unfoldable pub evaluate_correlation :
    {C V : Type 0} → JsonView V → MessageCorrelation → Envelope C V → Result Bool
unfolding matches
evaluate_correlation view c env = ok (matches view c.key env)
