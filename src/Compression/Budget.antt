-- ===== src/Compression/Budget.antt =====
-- What the token budget strategy makes of a history, from its two phases (token_budget.rs).
use rust_agent_framework.Common.{
  ℕ, List, keep, ltb, Bool-cases, lt→leb_false, le→leb, ◌≤◌, ◌<◌, ◌≡◌, refl, arith, inl, inr,
}
use rust_agent_framework.Compression.{ChatMessage, fit, evict_tool_results}
use rust_agent_framework.Compression.Folding.{IsFolded, evict_tool_results-IsFolded}
use rust_agent_framework.Compression.Truncation.{
  is_other, systems, separate_lem, IsTruncation, truncate-IsTruncation,
}

module _ {T S : Type 0} (count_tokens : List (ChatMessage T S) → ℕ) where
  -- How a history that exceeds the budget is fitted: the other messages are folded where it exceeds
  -- the share too, and then cut from the old end.
  pub record IsFitted (share : ℕ → ℕ) (budget : ℕ) (messages result : List (ChatMessage T S))
      : Type 0 where
    pub folded : List (ChatMessage T S)
    pub is_folded : share budget < count_tokens messages → IsFolded (keep is_other messages) folded
    pub is_whole : count_tokens messages ≤ share budget → folded ≡ keep is_other messages
    pub is_cut : IsTruncation count_tokens budget (systems messages) folded result

  -- The token budget strategy returns a history within the budget as it is. Of another one it keeps
  -- the system messages, folds each tool call with its results into a summary where the history
  -- exceeds the eviction share, and then drops the oldest of the other messages: no more than it
  -- must, and never the newest.
  pub fit-IsFitted :
      (share : ℕ → ℕ) (budget : ℕ) (messages : List (ChatMessage T S))
      → (count_tokens messages ≤ budget → fit count_tokens share budget messages ≡ messages)
        × (budget < count_tokens messages
            → IsFitted share budget messages (fit count_tokens share budget messages))
  unfolding fit
  fit-IsFitted share budget messages =
      let over = ltb (share budget) (count_tokens messages) in
      let others = keep is_other messages in
      rw (separate_lem messages) (
        λ within. rw (le→leb (count_tokens messages) budget within) refl,
        λ exceeds.
            rw (lt→leb_false budget (count_tokens messages) exceeds) (elim (Bool-cases over) [
              | inl h ↦ rw h record {
                folded = evict_tool_results others;
                is_folded = λ k. evict_tool_results-IsFolded others;
                is_whole = λ k. absurd (ground arith);
                is_cut =
                    truncate-IsTruncation count_tokens budget (systems messages)
                      (evict_tool_results others);
              }
              | inr h ↦ rw h record {
                folded = others;
                is_folded = λ k. absurd (ground arith);
                is_whole = λ k. refl;
                is_cut = truncate-IsTruncation count_tokens budget (systems messages) others;
              }
            ]),
      )
