-- ===== src/Compression/System.antt =====
-- What every compression leaves alone: the system messages (sliding_window.rs, token_budget.rs,
-- pipeline.rs).
use rust_agent_framework.Common.{
  ℕ, suc, true, false, List, [], ◌∷◌, ◌++◌, if◌then◌else◌, ltb, leb, length, drop, keep, All,
  Bool-cases, ◌≤◌, ◌+◌, ◌-◌, ◌≡◌, refl, sym, ap, ◌∙◌, arith, inl, inr, append-nil, keep-append,
  length-append, length-drop, take, take-append-drop, ok,
}
use rust_agent_framework.Compression.{
  ChatMessage, MessageRole, system, user, assistant, tool, is_tool, is_assistant, is_system, slide,
  evict_tool_results, truncate, fit, Strategy, sliding_window, token_budget, pipeline,
}
use rust_agent_framework.Compression.Folding.{
  IsFolded, done, plain, calls, evict_tool_results-IsFolded,
}
use rust_agent_framework.Compression.Truncation.{
  is_other, systems, separate_lem, truncate-IsTruncation,
}

tool-not_system : (r : MessageRole) → is_tool r ≡ true → is_system r ≡ false
tool-not_system system h = cc
tool-not_system user h = refl
tool-not_system assistant h = refl
tool-not_system tool h = refl

caller-not_system :
    (r : MessageRole) (c n : ℕ) → (if is_assistant r then c else 0) ≡ suc n → is_system r ≡ false
caller-not_system system c n h = ground (arith, h)
caller-not_system user c n h = refl
caller-not_system assistant c n h = refl
caller-not_system tool c n h = refl

module _ {T S : Type 0} where
  -- The system messages are the same, in the same order, and there are no more messages.
  pub record IsShortened (messages result : List (ChatMessage T S)) : Type 0 where
    pub same_systems : systems result ≡ systems messages
    pub no_longer : length result ≤ length messages

  systems-systems :
      (messages : List (ChatMessage T S)) → systems (systems messages) ≡ systems messages
  systems-systems [] = refl
  systems-systems (m ∷ messages) = ground (arith, systems-systems messages)

  systems-other : (messages : List (ChatMessage T S)) → systems (keep is_other messages) ≡ []
  systems-other [] = refl
  systems-other (m ∷ messages) = ground (arith, systems-other messages)

  length-parts :
      (messages : List (ChatMessage T S))
      → length (systems messages) + length (keep is_other messages) ≡ length messages
  length-parts [] = omega arith
  length-parts (m ∷ messages) = ground (arith, length-parts messages)

  systems-suffix :
      (dropped kept : List (ChatMessage T S)) → systems (dropped ++ kept) ≡ [] → systems kept ≡ []
  systems-suffix [] kept e = e
  systems-suffix (m ∷ dropped) kept e = elim (Bool-cases (is_system m.role)) [
    | inl h ↦ ground (arith, e, h)
    | inr h ↦ systems-suffix dropped kept (rw h at e)
  ]

  systems-results :
      (results : List (ChatMessage T S))
      → All (λ m. is_tool m.role ≡ true) results
      → systems results ≡ []
  systems-results [] h = refl
  systems-results (m ∷ results) h =
      ground (arith, tool-not_system m.role h.0, systems-results results h.1)

  fold-IsShortened :
      {messages folded : List (ChatMessage T S)}
      → IsFolded messages folded
      → IsShortened messages folded
  fold-IsShortened done = record { same_systems = refl; no_longer = omega arith }
  fold-IsShortened (plain m e f) =
      let s = fold-IsShortened f in
      record {
        same_systems = ground (arith, s.same_systems);
        no_longer = omega (arith, s.no_longer);
      }
  fold-IsShortened (calls m {messages = messages} {rest = rest} n e a f) =
      let s = fold-IsShortened f in
      let skipped = keep-append (λ m. is_system m.role) a.results rest in
      record {
        same_systems =
            rw
              (
                caller-not_system m.role _ n e,
                a.parts,
                skipped,
                systems-results a.results a.are_results,
              )
              s.same_systems;
        no_longer = omega (arith, s.no_longer, ap length a.parts, length-append a.results rest);
      }

  suffix-IsShortened :
      (messages kept : List (ChatMessage T S))
      → systems kept ≡ []
      → length kept ≤ length (keep is_other messages)
      → IsShortened messages (systems messages ++ kept)
  suffix-IsShortened messages kept none' fewer = record {
    same_systems =
        rw
          (
            keep-append (λ m. is_system m.role) (systems messages) kept,
            systems-systems messages,
            none',
          )
          (append-nil (systems messages));
    no_longer = omega (arith, fewer, length-append (systems messages) kept, length-parts messages);
  }

  slide-IsShortened :
      (max_messages : ℕ) (messages : List (ChatMessage T S))
      → IsShortened messages (slide max_messages messages)
  unfolding slide
  slide-IsShortened n messages =
      let others = keep is_other messages in
      let from = length others - n in
      rw (separate_lem messages) (elim (Bool-cases (leb (length others) n)) [
        | inl h ↦ rw h (suffix-IsShortened messages others (systems-other messages) (omega arith))
        | inr h ↦ rw h (
            suffix-IsShortened messages (drop from others)
              (systems-suffix (take from others) (drop from others)
                (rw (take-append-drop from others) (systems-other messages)))
              (omega (arith, length-drop from others)))
      ])

module _ {T S : Type 0} (count_tokens : List (ChatMessage T S) → ℕ) where
  cut-IsShortened :
      (budget : ℕ) (messages folded : List (ChatMessage T S))
      → IsShortened (keep is_other messages) folded
      → IsShortened messages (truncate count_tokens budget (systems messages) folded)
  cut-IsShortened budget messages folded f =
      let t = truncate-IsTruncation count_tokens budget (systems messages) folded in
      let no_systems = f.same_systems ∙ systems-other messages in
      rw t.is_result (
        suffix-IsShortened messages t.kept
          (systems-suffix t.dropped t.kept (ap systems (sym t.parts) ∙ no_systems))
          (omega (arith, f.no_longer, ap length t.parts, length-append t.dropped t.kept)))

  all-IsShortened : (messages : List (ChatMessage T S)) → IsShortened messages messages
  all-IsShortened messages = record { same_systems = refl; no_longer = omega arith }

  fit-IsShortened :
      (share : ℕ → ℕ) (budget : ℕ) (messages : List (ChatMessage T S))
      → IsShortened messages (fit count_tokens share budget messages)
  unfolding fit
  fit-IsShortened share budget messages =
      let others = keep is_other messages in
      rw (separate_lem messages) (elim (Bool-cases (leb (count_tokens messages) budget)) [
        | inl h ↦ rw h (all-IsShortened messages)
        | inr h ↦ rw h (elim (Bool-cases (ltb (share budget) (count_tokens messages))) [
          | inl k ↦ rw k (
              cut-IsShortened budget messages (evict_tool_results others)
                (fold-IsShortened (evict_tool_results-IsFolded others)))
          | inr k ↦ rw k (cut-IsShortened budget messages others (all-IsShortened others))
        ])
      ])

  shortened :
      {messages middle result : List (ChatMessage T S)}
      → IsShortened messages middle
      → IsShortened middle result
      → IsShortened messages result
  shortened first rest = record {
    same_systems = rest.same_systems ∙ first.same_systems;
    no_longer = omega (arith, first.no_longer, rest.no_longer);
  }

  -- The strategies of the crate, and pipelines of them, also of pipelines.
  pub data IsBuiltIn : Strategy count_tokens → Type 0 where
    window : (max_messages : ℕ) → IsBuiltIn (sliding_window count_tokens max_messages)
    tokens : (share : ℕ → ℕ) → IsBuiltIn (token_budget count_tokens share)
    no_strategy : IsBuiltIn (pipeline count_tokens [])
    chain :
        (strategy : Strategy count_tokens) (strategies : List (Strategy count_tokens))
        → IsBuiltIn strategy
        → IsBuiltIn (pipeline count_tokens strategies)
        → IsBuiltIn (pipeline count_tokens (strategy ∷ strategies))

  -- A compression by the crate's strategies, alone or in a pipeline, never fails; it keeps every
  -- system message, in order, and never makes a history longer.
  pub built_in-IsShortened :
      {strategy : Strategy count_tokens}
      → IsBuiltIn strategy
      → (budget : ℕ) (messages : List (ChatMessage T S))
      → (result : List (ChatMessage T S)) × (strategy budget messages ≡ ok result)
        × IsShortened messages result
  unfolding pipeline
  built_in-IsShortened (window n) budget messages =
      (slide n messages, refl, slide-IsShortened n messages)
  built_in-IsShortened (tokens share) budget messages =
      (fit count_tokens share budget messages, refl, fit-IsShortened share budget messages)
  built_in-IsShortened no_strategy budget messages = (messages, refl, all-IsShortened messages)
  built_in-IsShortened (chain strategy strategies first rest) budget messages =
      elim (Bool-cases (leb (count_tokens messages) budget)) [
        | inl h ↦ (messages, rw h refl, all-IsShortened messages)
        | inr h ↦
            let (middle, e, s) = built_in-IsShortened first budget messages in
            let (result, e', s') = built_in-IsShortened rest budget middle in
            (result, rw (h, e) e', shortened s s')
      ]
