-- ===== src/Checkpoint/Scope.antt =====
-- Scope keys as texts (`to_key_string` and `from_key_string` of
-- crates/workflow/src/checkpoint/checkpoint.rs).
use Prim.Native.Char.{Char}
use Prim.Native.String.{◌++◌ as text_append}
use text.Mathlib.Text.{starts_with}
use text.Mathlib.TextEquality.{starts_with_iff}
use text.Mathlib.TextLemmas.{
  append_assoc as text_append_assoc, cons-append, nil-append, cons-eq-cons,
}
use text.Mathlib.TextPositions.{starts_with-append}
use rust_agent_framework.Common.{
  String, true, false, Option, none, some, ◌≡◌, ◌≢◌, refl, sym, ap, ◌∙◌, Bool-cases, inl, inr,
}
use rust_agent_framework.Engine.Route.Keys.{colon, NoColon, append-colon}
use rust_agent_framework.Checkpoint.{ScopeKey, to_key_string}
use rust_agent_framework.Checkpoint.Load.{split_key, from_key_string}

-- "::" in front of a text, character by character.
marker-append : (s : String) → text_append "::" s ≡ String.◌∷◌ colon (String.◌∷◌ colon s)
marker-append s = cons-append colon ":" s ∙ ap (String.◌∷◌ colon) (append-colon s)

not_marker : (c : Char) (s : String) → c ≢ colon → starts_with (String.◌∷◌ c s) "::" ≡ false
not_marker c s ne = elim (Bool-cases (starts_with (String.◌∷◌ c s) "::")) [
  | inr no_it ↦ no_it
  | inl yes_it ↦
      let (rest, e) = (starts_with_iff (String.◌∷◌ c s) "::").0 yes_it in
      absurd (ne (sym (cons-eq-cons.0 (sym (marker-append rest) ∙ e)).0))
]

split_key-marker : (s : String) → split_key (text_append "::" s) ≡ some ("", s)
unfolding split_key
split_key-marker s =
    let begins : starts_with (String.◌∷◌ colon (String.◌∷◌ colon s)) "::" ≡ true =
      rw (← marker-append s) (starts_with-append "::" s) in
    rw (marker-append s, split_key, begins) refl

split_key-append :
    (node s : String)
    → NoColon node
    → split_key (text_append node (text_append "::" s)) ≡ some (node, s)
unfolding split_key
split_key-append String.[] s plain = rw (nil-append) (split_key-marker s)
split_key-append (String.◌∷◌ c node) s plain =
    rw
      (
        cons-append c node (text_append "::" s),
        split_key,
        not_marker c (text_append node (text_append "::" s)) plain.0,
        split_key-append node s plain.1,
      )
      refl

split_key-plain : (node : String) → NoColon node → split_key node ≡ none
unfolding split_key
split_key-plain String.[] plain = refl
split_key-plain (String.◌∷◌ c node) plain =
    rw (split_key, not_marker c node plain.0, split_key-plain node plain.1) refl

round_trip :
    (node : String) (scope : Option String)
    → NoColon node
    → from_key_string (to_key_string (record { node_id = node; scope_name = scope }))
      ≡ record { node_id = node; scope_name = scope }
unfolding from_key_string to_key_string
round_trip node none plain = rw (from_key_string, split_key-plain node plain) refl
round_trip node (some scope) plain =
    rw (from_key_string, text_append_assoc node "::" scope, split_key-append node scope plain) refl

-- A scope key comes back from its text where the id of its node has no colon; the name of the scope
-- may be anything.
pub from_key_string-to_key_string :
    (key : ScopeKey) → NoColon key.node_id → from_key_string (to_key_string key) ≡ key
from_key_string-to_key_string key plain = round_trip key.node_id key.scope_name plain
