-- ===== src/Compression/Folding.antt =====
-- What the folding of tool results makes of a history (`evict_tool_results` of token_budget.rs).
use rust_agent_framework.Common.{
  ℕ, zero, suc, true, List, [], ◌∷◌, ◌++◌, length, All, Bool-cases, ◌≤◌, ◌≡◌, refl, ap, arith, ◌⊎◌,
  inl, inr,
}
use rust_agent_framework.Compression.{
  ChatMessage, is_tool, call_count, skip_results, summary, evict_loop, evict_tool_results,
}

Count-cases : (n : ℕ) → (n ≡ 0) ⊎ ((k : ℕ) × (n ≡ suc k))
Count-cases zero = inl refl
Count-cases (suc k) = inr (k, refl)

module _ {T S : Type 0} where
  abbrev pub StartsWithResult : List (ChatMessage T S) → Type 0
  StartsWithResult [] = ⊥
  StartsWithResult (m ∷ messages) = is_tool m.role ≡ true

  -- The results of `n` calls are the tool messages that follow at once, `n` at most.
  pub record IsAnswered (n : ℕ) (messages rest : List (ChatMessage T S)) : Type 0 where
    pub results : List (ChatMessage T S)
    pub parts : messages ≡ results ++ rest
    pub are_results : All (λ m. is_tool m.role ≡ true) results
    pub at_most : length results ≤ n
    pub all_taken : (length results ≡ n) ⊎ (StartsWithResult rest → ⊥)

  -- A message that calls no tool is kept; one that does becomes a summary, with its results.
  pub data IsFolded : List (ChatMessage T S) → List (ChatMessage T S) → Type 0 where
    done : IsFolded [] []
    plain :
        (m : ChatMessage T S) {messages folded : List (ChatMessage T S)}
        → call_count m ≡ 0
        → IsFolded messages folded
        → IsFolded (m ∷ messages) (m ∷ folded)
    calls :
        (m : ChatMessage T S) {messages rest folded : List (ChatMessage T S)} (n : ℕ)
        → call_count m ≡ suc n
        → IsAnswered (suc n) messages rest
        → IsFolded rest folded
        → IsFolded (m ∷ messages) (summary (suc n) ∷ folded)

  skip_results-IsAnswered :
      (n : ℕ) (messages : List (ChatMessage T S)) → IsAnswered n messages (skip_results n messages)
  unfolding skip_results
  skip_results-IsAnswered zero messages = record {
    results = [];
    parts = refl;
    are_results = tt;
    at_most = omega arith;
    all_taken = inl refl;
  }
  skip_results-IsAnswered (suc n) [] = record {
    results = [];
    parts = refl;
    are_results = tt;
    at_most = omega arith;
    all_taken = inr (λ h. h);
  }
  skip_results-IsAnswered (suc n) (m ∷ messages) = elim (Bool-cases (is_tool m.role)) [
    | inl h ↦ rw h (
        let a = skip_results-IsAnswered n messages in
        record {
          results = m ∷ a.results;
          parts = ap (λ (l : List (ChatMessage T S)). m ∷ l) a.parts;
          are_results = (h, a.are_results);
          at_most = omega (arith, a.at_most);
          all_taken = elim a.all_taken [ inl e ↦ inl (ap suc e) | inr e ↦ inr e ];
        })
    | inr h ↦ rw h record {
      results = [];
      parts = refl;
      are_results = tt;
      at_most = omega arith;
      all_taken = inr (λ k. cc);
    }
  ]

  length-skip_results :
      (n : ℕ) (messages : List (ChatMessage T S))
      → length (skip_results n messages) ≤ length messages
  unfolding skip_results
  length-skip_results zero messages = omega arith
  length-skip_results (suc n) [] = omega arith
  length-skip_results (suc n) (m ∷ messages) = ground (arith, length-skip_results n messages)

  evict_loop-IsFolded :
      (fuel : ℕ) (messages : List (ChatMessage T S))
      → length messages ≤ fuel
      → IsFolded messages (evict_loop fuel messages)
  unfolding evict_loop
  evict_loop-IsFolded zero [] h = done
  evict_loop-IsFolded zero (m ∷ messages) h = absurd (omega arith)
  evict_loop-IsFolded (suc fuel) [] h = done
  evict_loop-IsFolded (suc fuel) (m ∷ messages) h = elim (Count-cases (call_count m)) [
    | inl e ↦ rw (e, evict_loop) (plain m e (evict_loop-IsFolded fuel messages (omega arith)))
    | inr (n, e) ↦
        rw (e, evict_loop)
          (calls m n e (skip_results-IsAnswered (suc n) messages) (
            evict_loop-IsFolded fuel (skip_results (suc n) messages)
              (omega (arith, length-skip_results (suc n) messages))))
  ]

  -- The loop ends: it makes of every history the one in which each message that calls tools is
  -- replaced, with the results that follow it, by a summary of the number of calls.
  pub evict_tool_results-IsFolded :
      (messages : List (ChatMessage T S)) → IsFolded messages (evict_tool_results messages)
  unfolding evict_tool_results
  evict_tool_results-IsFolded messages =
      evict_loop-IsFolded (length messages) messages (omega arith)
