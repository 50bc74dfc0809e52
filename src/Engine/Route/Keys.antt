-- ===== src/Engine/Route/Keys.antt =====
-- Which runners the prefix of a key selects (`starts_with(&prefix)` in `execute_loop` of
-- crates/workflow/src/engine/engine.rs).
use Prim.Native.Char.{Char}
use Prim.Native.String.{◌++◌ as text_append}
use text.Mathlib.Text.{starts_with}
use text.Mathlib.TextEquality.{starts_with_iff}
use text.Mathlib.TextLemmas.{
  append_assoc as text_append_assoc, cons-append, nil-append, cons-eq-cons,
}
use text.Mathlib.TextPositions.{starts_with-append, starts_with_of_prefix}
use rust_agent_framework.Common.{String, ◌≡◌, ◌≢◌, ◌↔◌, sym, ap, ◌∙◌, refl, true}
use rust_agent_framework.Engine.Route.{runner_key, key_prefix}

abbrev pub colon : Char
colon = ":"

-- An id without the character that ends it in a key.
abbrev pub NoColon : String → Type 0
NoColon String.[] = Unit
NoColon (String.◌∷◌ c s) = (c ≢ colon) × NoColon s

pub append-colon : (u : String) → text_append ":" u ≡ String.◌∷◌ colon u
append-colon u = cons-append colon String.[] u ∙ ap (String.◌∷◌ colon) (nil-append u)

split_at_colon :
    (s t u v : String)
    → NoColon s
    → NoColon t
    → text_append s (text_append ":" u) ≡ text_append t (text_append ":" v)
    → s ≡ t
split_at_colon String.[] String.[] u v p q e = refl
split_at_colon String.[] (String.◌∷◌ c t) u v p q e = absurd (
    q.0 (
      sym
        (cons-eq-cons.0
          (sym (append-colon u) ∙ sym (nil-append _) ∙ e ∙ cons-append c t (text_append ":" v))).0))
split_at_colon (String.◌∷◌ c s) String.[] u v p q e = absurd (
    p.0
      (cons-eq-cons.0
        (sym (cons-append c s (text_append ":" u)) ∙ e ∙ nil-append _ ∙ append-colon v)).0)
split_at_colon (String.◌∷◌ c s) (String.◌∷◌ d t) u v p q e =
    let both =
      cons-eq-cons.0
        (sym (cons-append c s (text_append ":" u)) ∙ e ∙ cons-append d t (text_append ":" v)) in
    cc (both.0, split_at_colon s t u v p.1 q.1 both.1)

-- Between ids without a colon, the prefix of a source selects the runners of that source and no
-- other's.
pub key_prefix-runner_key_iff :
    (source other id : String)
    → NoColon source
    → NoColon other
    → (starts_with (runner_key other id) (key_prefix source) ≡ true) ↔ (other ≡ source)
key_prefix-runner_key_iff source other id p q = (
  λ h.
      let (rest, e) = (starts_with_iff (runner_key other id) (key_prefix source)).0 h in
      split_at_colon other source id rest q p
        (sym (text_append_assoc other ":" id) ∙ sym e ∙ text_append_assoc source ":" rest),
  λ e. rw e (starts_with-append (key_prefix source) id),
)

-- Where one id is another followed by a colon and more, the prefix of the shorter one selects the
-- runners of the longer one too: messages leave along the edges of a node that did not send them.
pub key_prefix_leaks :
    (source rest id : String)
    → starts_with (runner_key (text_append (key_prefix source) rest) id) (key_prefix source) ≡ true
key_prefix_leaks source rest id = starts_with_of_prefix (key_prefix source) _ (
  text_append rest (text_append ":" id),
  sym (text_append_assoc (key_prefix source) rest (text_append ":" id))
      ∙ sym (text_append_assoc (text_append (key_prefix source) rest) ":" id),
)
