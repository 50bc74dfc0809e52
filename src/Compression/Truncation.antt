-- ===== src/Compression/Truncation.antt =====
-- What the token budget leaves of a history (token_budget.rs).
use rust_agent_framework.Common.{
  ℕ, Bool, ◌&&◌, not, List, [], ◌∷◌, ◌++◌, ltb, length, keep, Bool-cases, ltb→lt, ◌≤◌, ◌<◌, ◌≡◌,
  refl, ap, ◌∙◌, subst, arith, ◌⊎◌, inl, inr, append-nil, append_assoc, and_iff,
}
use rust_agent_framework.Compression.{ChatMessage, is_system, separate, truncate}

module _ {T S : Type 0} where
  abbrev pub is_other : ChatMessage T S → Bool
  is_other m = not (is_system m.role)

  abbrev pub systems : List (ChatMessage T S) → List (ChatMessage T S)
  systems messages = keep (λ m. is_system m.role) messages

  separate_loop_lem :
      (system_msgs other_msgs messages : List (ChatMessage T S))
      → separate system_msgs other_msgs messages
        ≡ (system_msgs ++ systems messages, other_msgs ++ keep is_other messages)
  unfolding separate
  separate_loop_lem s o [] = rw (append-nil s, append-nil o) refl
  separate_loop_lem s o (m ∷ messages) = elim (Bool-cases (is_system m.role)) [
    | inl h ↦
        rw
          (
            h,
            separate_loop_lem (s ++ m ∷ []) o messages,
            append_assoc s (m ∷ []) (systems messages),
          )
          refl
    | inr h ↦
        rw
          (
            h,
            separate_loop_lem s (o ++ m ∷ []) messages,
            append_assoc o (m ∷ []) (keep is_other messages),
          )
          refl
  ]

  pub separate_lem :
      (messages : List (ChatMessage T S))
      → separate [] [] messages ≡ (systems messages, keep is_other messages)
  separate_lem messages = separate_loop_lem [] [] messages

module _ {T S : Type 0} (count_tokens : List (ChatMessage T S) → ℕ) (budget : ℕ) where
  -- `result` is the system messages and the newest of the others: as many as the budget holds, but
  -- one at least.
  pub record IsTruncation (system_msgs other_msgs result : List (ChatMessage T S)) : Type 0 where
    pub dropped : List (ChatMessage T S)
    pub kept : List (ChatMessage T S)
    pub parts : other_msgs ≡ dropped ++ kept
    pub is_result : result ≡ system_msgs ++ kept
    pub fits : (count_tokens result ≤ budget) ⊎ (length kept ≤ 1)
    pub no_more :
        (older newer : List (ChatMessage T S)) (m : ChatMessage T S)
        → dropped ≡ older ++ m ∷ newer
        → budget < count_tokens (system_msgs ++ m ∷ (newer ++ kept))
    pub last_kept : 1 ≤ length other_msgs → 1 ≤ length kept

  keep_all :
      (system_msgs other_msgs : List (ChatMessage T S))
      → (count_tokens (system_msgs ++ other_msgs) ≤ budget) ⊎ (length other_msgs ≤ 1)
      → IsTruncation system_msgs other_msgs (system_msgs ++ other_msgs)
  keep_all s others h = record {
    dropped = [];
    kept = others;
    parts = refl;
    is_result = refl;
    fits = h;
    no_more = λ older newer m e. absurd (nothing_before older newer m e);
    last_kept = λ k. k;
  }
    where
      nothing_before :
          (older newer : List (ChatMessage T S)) (m : ChatMessage T S) → [] ≡ older ++ m ∷ newer → ⊥
      nothing_before [] newer m e = cc
      nothing_before (x ∷ older) newer m e = cc

  drop_one :
      (system_msgs other_msgs : List (ChatMessage T S)) (m : ChatMessage T S)
      {result : List (ChatMessage T S)}
      → budget < count_tokens (system_msgs ++ m ∷ other_msgs)
      → 1 < length (m ∷ other_msgs)
      → IsTruncation system_msgs other_msgs result
      → IsTruncation system_msgs (m ∷ other_msgs) result
  drop_one s others m over more t = record {
    dropped = m ∷ t.dropped;
    kept = t.kept;
    parts = ap (λ (l : List (ChatMessage T S)). m ∷ l) t.parts;
    is_result = t.is_result;
    fits = t.fits;
    no_more = longer;
    last_kept = λ k. t.last_kept (omega arith);
  }
    where
      longer :
          (older newer : List (ChatMessage T S)) (x : ChatMessage T S)
          → m ∷ t.dropped ≡ older ++ x ∷ newer
          → budget < count_tokens (s ++ x ∷ (newer ++ t.kept))
      longer [] newer x e =
          let whole =
            ap (λ (l : List (ChatMessage T S)). m ∷ l) t.parts
            ∙ ap (λ (l : List (ChatMessage T S)). l ++ t.kept) e in
          subst (λ (l : List (ChatMessage T S)). budget < count_tokens (s ++ l)) whole over
      longer (y ∷ older) newer x e = t.no_more older newer x (cc)

  pub truncate-IsTruncation :
      (system_msgs other_msgs : List (ChatMessage T S))
      → IsTruncation system_msgs other_msgs (truncate count_tokens budget system_msgs other_msgs)
  unfolding truncate
  truncate-IsTruncation s [] =
      subst (IsTruncation s []) (append-nil s) (keep_all s [] (inr (omega arith)))
  truncate-IsTruncation s (m ∷ others) =
      let over = ltb budget (count_tokens (s ++ m ∷ others)) in
      let more = ltb 1 (length (m ∷ others)) in
      elim (Bool-cases (over && more)) [
        | inl h ↦ rw h (
            drop_one s others m (ltb→lt _ _ ((and_iff over more).0 h).0)
              (ltb→lt _ _ ((and_iff over more).0 h).1) (truncate-IsTruncation s others))
        | inr h ↦ rw h (keep_all s (m ∷ others) (ground arith))
      ]
