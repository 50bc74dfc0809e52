-- ===== src/Common/Fault.antt =====
-- `AgentError` and `Result` of crates/core/src/error.rs. The text of a workflow error is carried
-- as the error's own parameters; `other` is an error that a handler outside the crate made.
use Prim.Native.String.{String, ◌++◌ as text_append}
use mathlib.Core.Path.{◌≡◌, refl, ap}
use mathlib.Core.Logic.{◌↔◌, ◌⊎◌, inl, inr}
use mathlib.Core.Bool.{Bool, true, false, false≢true}
use rust_agent_framework.Common.Tests.{if◌then◌else◌}

pub data AgentError : Type 0 where
  chat_client_error tool_error workflow_error config_error : String → AgentError
  agent_not_found stream_error serialize other : String → AgentError

-- The texts of `#[error(..)]`; `other` is transparent.
abbrev pub display : AgentError → String
display (chat_client_error s) = text_append "Chat client error: " s
display (tool_error s) = text_append "Tool execution error: " s
display (workflow_error s) = text_append "Workflow error: " s
display (config_error s) = text_append "Configuration error: " s
display (agent_not_found s) = text_append "Agent not found: " s
display (stream_error s) = text_append "Stream error: " s
display (serialize s) = text_append "Serialization error: " s
display (other s) = s

pub data Result {ℓ} (A : Type ℓ) : Type ℓ where
  ok : A → Result A
  err : AgentError → Result A

-- `?` after a call, and a call whose value is not needed.
module _ {ℓ κ} {A : Type ℓ} {B : Type κ} where
  infixl 5 ◌>>=◌
  abbrev pub ◌>>=◌ : Result A → (A → Result B) → Result B
  err e >>= next = err e
  ok a >>= next = next a

  -- A chain that succeeds has a first call that does.
  pub >>=-eq-ok :
      (first : Result A) (next : A → Result B) {b : B}
      → (first >>= next) ≡ ok b
      → (a : A) × (first ≡ ok a) × (next a ≡ ok b)
  >>=-eq-ok (err e) next done = cc
  >>=-eq-ok (ok a) next done = (a, refl, done)

module _ {ℓ} {B : Type ℓ} where
  infixl 5 ◌>>◌
  abbrev pub ◌>>◌ : Result (Unit {0}) → Result B → Result B
  check >> rest = check >>= λ done. rest

abbrev is_ok {ℓ} : {A : Type ℓ} → Result A → Bool
is_ok (ok a) = true
is_ok (err e) = false

pub err≢ok {ℓ} : {A : Type ℓ} {e : AgentError} {a : A} → ◌≡◌ {A = Result A} (err e) (ok a) → ⊥
err≢ok e = false≢true (ap is_ok e)

-- A guard, and one check after another, succeed where both parts do.
pub guard_iff {ℓ} :
    {A : Type ℓ} (b : Bool) (r : Result A) (e : AgentError) (a : A)
    → ((if b then r else err e) ≡ ok a) ↔ ((b ≡ true) × (r ≡ ok a))
guard_iff true r e a = (λ h. (refl, h), λ h. h.1)
guard_iff false r e a = (λ h. absurd (err≢ok h), λ h. absurd (false≢true h.0))

pub >>_iff {ℓ} :
    {B : Type ℓ} (m : Result (Unit {0})) (k : Result B) (b : B)
    → ((m >> k) ≡ ok b) ↔ ((m ≡ ok tt) × (k ≡ ok b))
>>_iff (ok u) k b = (λ h. (refl, h), λ h. h.1)
>>_iff (err e) k b = (λ h. absurd (err≢ok h), λ h. absurd (err≢ok h.0))

pub Result-cases {ℓ} :
    {A : Type ℓ} (r : Result A) → ((a : A) × (r ≡ ok a)) ⊎ ((e : AgentError) × (r ≡ err e))
Result-cases (ok a) = inl (a, refl)
Result-cases (err e) = inr (e, refl)
