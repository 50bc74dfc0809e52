-- ===== src/Condition/Matching.antt =====
-- What a correlation key asks of a message (crates/workflow/src/engine/correlation.rs).
use rust_agent_framework.Common.{
  String, Bool, true, ◌&&◌, Option, none, some, [], ◌∷◌, ◌++◌, all, All, ◌≡◌, ◌↔◌, refl, arith, Map,
  get, eq_iff, and_iff, all-append,
}
use rust_agent_framework.Envelope.{Envelope}
use rust_agent_framework.Condition.{JsonView}
use rust_agent_framework.Condition.Correlation.{
  CorrelationKey, is_text, metadata_is, matches_option, matches,
}

-- The pairs that must be in the metadata.
abbrev wanted_option : String → Option String → Map String
wanted_option key none = []
wanted_option key (some v) = (key, v) ∷ []

abbrev pub wanted : CorrelationKey → Map String
wanted key =
    wanted_option "business_key" key.business_key
    ++ (wanted_option "process_id" key.process_id ++ key.custom_keys)

module _ {V : Type 0} (view : JsonView V) where
  abbrev pub text_at : Map V → String → Option String
  text_at meta key = elim (get meta key) [ none ↦ none | some v ↦ view.as_str v ]

  abbrev pub Holds : Map V → String × String → Type 0
  Holds meta (k, v) = text_at meta k ≡ some v

  is_text_iff : (v : String) (o : Option String) → (is_text v o ≡ true) ↔ (o ≡ some v)
  is_text_iff v none = (λ h. cc, λ h. cc)
  is_text_iff v (some s) = (λ h. ground (arith, eq_iff s v), λ h. ground (arith, eq_iff s v))

  abbrev test : Map V → String × String → Bool
  test meta (k, v) = metadata_is view meta k v

  all-Holds :
      (meta : Map V) (pairs : Map String) → (all (test meta) pairs ≡ true) ↔ All (Holds meta) pairs
  unfolding metadata_is
  all-Holds meta [] = (λ h. tt, λ h. refl)
  all-Holds meta ((k, v) ∷ pairs) =
      let here = is_text_iff v (text_at meta k) in
      let rest = all-Holds meta pairs in
      let both = and_iff (metadata_is view meta k v) (all (test meta) pairs) in
      (λ h. (here.0 (both.0 h).0, rest.0 (both.0 h).1), λ h. both.1 (here.1 h.0, rest.1 h.1))

  matches_option-all :
      (meta : Map V) (key : String) (o : Option String) (rest : Bool)
      → (matches_option view meta key o && rest) ≡ (all (test meta) (wanted_option key o) && rest)
  matches_option-all meta key none rest = refl
  matches_option-all meta key (some v) rest = ground arith

  matches-all :
      {C : Type 0} (key : CorrelationKey) (env : Envelope C V)
      → matches view key env ≡ all (test env.metadata) (wanted key)
  unfolding matches
  matches-all key env =
      rw
        (
          matches_option-all env.metadata "business_key" key.business_key,
          matches_option-all env.metadata "process_id" key.process_id,
          all-append (test env.metadata) (wanted_option "business_key" key.business_key),
          all-append (test env.metadata) (wanted_option "process_id" key.process_id),
        )
        refl

  -- A message is correlated exactly where its metadata holds, as a text, every value that the key
  -- names: the business key, the process and each custom key, as far as they are set.
  pub matches_iff :
      {C : Type 0} (key : CorrelationKey) (env : Envelope C V)
      → (matches view key env ≡ true) ↔ All (Holds env.metadata) (wanted key)
  matches_iff key env = rw (matches-all key env) (all-Holds env.metadata (wanted key))
