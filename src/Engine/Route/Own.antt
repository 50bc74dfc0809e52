-- ===== src/Engine/Route/Own.antt =====
-- Barriers that have heard from their own source only, and the runners without those of fan-in
-- edges (crates/workflow/src/engine/engine.rs).
use text.Mathlib.Text.{starts_with}
use rust_agent_framework.Common.{
  String, Bool, true, false, not, List, [], ◌∷◌, all, keep, All, Elem, here, there, ◌==◌, eq_iff,
  Bool-cases, Map, contains_key, ◌≡◌, ◌≢◌, refl, sym, ap, ◌∙◌, inl, inr, arith,
}
use rust_agent_framework.Envelope.{Envelope}
use rust_agent_framework.Runner.{
  MessageDelivery, EdgeRunner, direct_runner, fan_out_runner, fan_in_runner, chase_fan_in, chase,
}
use rust_agent_framework.Runner.Barrier.{contains_key-record, chase_fan_in_waits, chase_fan_in_held}
use rust_agent_framework.Engine.Route.{runner_key, key_prefix, chase_matching, ok_or_nothing}
use rust_agent_framework.Engine.Route.Keys.{NoColon, key_prefix-runner_key_iff}

-- A fan-in edge that names two different sources.
abbrev pub two_sources : List String → Bool
two_sources [] = false
two_sources (s ∷ ss) = not (all (λ x. x == s) ss)

-- one of two different sources is not the given one
different :
    (s : String) (ss : List String)
    → all (λ x. x == s) ss ≡ false
    → (x : String) × Elem x ss × (x ≢ s)
different s [] h = cc
different s (x ∷ xs) h = elim (Bool-cases (x == s)) [
  | inr ne ↦ (x, here refl, λ e. ground (arith, eq_iff x s))
  | inl e ↦ let (y, m, ne) = different s xs (ground arith) in (y, there m, ne)
]

another_source :
    (source : String) (ss : List String)
    → two_sources ss ≡ true
    → (x : String) × Elem x ss × (x ≢ source)
another_source source [] h = cc
another_source source (s ∷ ss) h = elim (Bool-cases (s == source)) [
  | inr ne ↦ (s, here refl, λ e. ground (arith, eq_iff s source))
  | inl e ↦
      let (x, m, ne) = different s ss (ground arith) in
      (x, there m, λ same. ne (same ∙ sym ((eq_iff s source).0 e)))
]

module _ {C V : Type 0} where
  -- A runner under the key of a source whose barrier has heard from no other source.
  abbrev pub IsOwn : String × EdgeRunner C V → Type 0
  IsOwn (key, direct_runner d) = Unit
  IsOwn (key, fan_out_runner d) = Unit
  IsOwn (key, fan_in_runner d received) =
      (source : String) × NoColon source
      × (key ≡ runner_key source d.edge_id)
      × ((other : String) → other ≢ source → contains_key received other ≡ false)

  abbrev pub is_join : EdgeRunner C V → Bool
  is_join (direct_runner d) = false
  is_join (fan_out_runner d) = false
  is_join (fan_in_runner d received) = two_sources d.source_ids

  abbrev pub no_join : String × EdgeRunner C V → Bool
  no_join (key, runner) = not (is_join runner)

pub contains_key-nil {ℓ} : (A : Type ℓ) (k : String) → contains_key {V = A} [] k ≡ false
unfolding contains_key
contains_key-nil A k = refl

module _ {X C V : Type 0} (nodes : Map X) (source : String) (no_colon : NoColon source)
    (env : Envelope C V) (from_source : env.source_node_id ≡ source) where
  -- A message of the source, shown to a runner of the source, leaves the runner own.
  chase-IsOwn :
      (key : String) (runner : EdgeRunner C V)
      → IsOwn (key, runner)
      → starts_with key (key_prefix source) ≡ true
      → IsOwn (key, (chase nodes runner env).1)
  unfolding chase
  chase-IsOwn key (direct_runner d) own h = tt
  chase-IsOwn key (fan_out_runner d) own h = tt
  chase-IsOwn key (fan_in_runner d received) (s, p, e, quiet) h =
      (s, p, e, λ other ne. still_quiet other ne)
    where
      still_quiet :
          (other : String)
          → other ≢ s
          → contains_key (chase_fan_in nodes d received env).1 other ≡ false
      still_quiet other ne =
          let same : s ≡ source =
            (key_prefix-runner_key_iff source s d.edge_id no_colon p).0 (rw (← e) h) in
          elim (chase_fan_in_held nodes d received env) [
            | inl none_held ↦ rw none_held (contains_key-nil (List (Envelope C V)) other)
            | inr held ↦
                rw (held, contains_key-record nodes d received env other)
                  (ground (arith, eq_iff env.source_node_id other, quiet other ne))
          ]

  -- A join keeps the message and delivers nothing.
  chase-join :
      (key : String) (runner : EdgeRunner C V)
      → IsOwn (key, runner)
      → starts_with key (key_prefix source) ≡ true
      → is_join runner ≡ true
      → ok_or_nothing (chase nodes runner env).0 ≡ []
  unfolding chase
  chase-join key (direct_runner d) own h j = cc
  chase-join key (fan_out_runner d) own h j = cc
  chase-join key (fan_in_runner d received) (s, p, e, quiet) h j =
      let same : s ≡ source =
        (key_prefix-runner_key_iff source s d.edge_id no_colon p).0 (rw (← e) h) in
      let (other, m, ne) = another_source source d.source_ids j in
      ap (λ (r : List (MessageDelivery C V) × Map (List (Envelope C V))). r.0)
        (chase_fan_in_waits nodes d received env other m (quiet other (rw same ne))
          (λ q. ne (sym q ∙ from_source)))

  pub AllOwn-chase_matching :
      (runners : Map (EdgeRunner C V))
      → All IsOwn runners
      → All IsOwn (chase_matching nodes (key_prefix source) env runners).0
  unfolding chase_matching
  AllOwn-chase_matching [] own = tt
  AllOwn-chase_matching ((key, runner) ∷ runners) own =
      elim (Bool-cases (starts_with key (key_prefix source))) [
        | inl yes_it ↦
            rw yes_it (chase-IsOwn key runner own.0 yes_it, AllOwn-chase_matching runners own.1)
        | inr no_it ↦ rw no_it (own.0, AllOwn-chase_matching runners own.1)
      ]

  -- What is sent is what would be sent if the joins were not there.
  pub chase_matching-no_join :
      (runners : Map (EdgeRunner C V))
      → All IsOwn runners
      → (chase_matching nodes (key_prefix source) env runners).1
        ≡ (chase_matching nodes (key_prefix source) env (keep no_join runners)).1
  unfolding chase_matching
  chase_matching-no_join [] own = refl
  chase_matching-no_join ((key, runner) ∷ runners) own =
      let ih = chase_matching-no_join runners own.1 in
      elim (Bool-cases (is_join runner)) [
        | inr plain ↦ rw plain (ground (arith, ih))
        | inl join ↦ elim (Bool-cases (starts_with key (key_prefix source))) [
          | inr no_it ↦ rw (join, no_it) ih
          | inl yes_it ↦ rw (join, yes_it, chase-join key runner own.0 yes_it join) ih
        ]
      ]

  is_join-chase : (runner : EdgeRunner C V) → is_join (chase nodes runner env).1 ≡ is_join runner
  unfolding chase
  is_join-chase (direct_runner d) = refl
  is_join-chase (fan_out_runner d) = refl
  is_join-chase (fan_in_runner d received) = refl

  pub keep-chase_matching :
      (runners : Map (EdgeRunner C V))
      → keep no_join (chase_matching nodes (key_prefix source) env runners).0
        ≡ (chase_matching nodes (key_prefix source) env (keep no_join runners)).0
  unfolding chase_matching
  keep-chase_matching [] = refl
  keep-chase_matching ((key, runner) ∷ runners) =
      ground (arith, keep-chase_matching runners, is_join-chase runner)
