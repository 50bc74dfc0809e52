-- ===== src/Args/Bounds.antt =====
-- What one round of the parser's loop moves (crates/core/src/incremental_json.rs).
use rust_agent_framework.Common.{
  Option-cases, ℕ, zero, suc, ◌+◌, ◌-◌, ◌≤◌, ◌<◌, ◌≡◌, refl, ◌∙◌, ap, String, none, some, List, [],
  ◌∷◌, ◌++◌, length, get_elem?, arith, inl, inr,
}
use rust_agent_framework.Args.{
  Json, State, expect_key, in_key, expect_colon, expect_value, in_string, in_number, in_literal,
  in_object, in_array, expect_comma, Parser, transition_after, ArgsEvent,
}
use rust_agent_framework.Args.Scan.{scan_state, scan_byte, poll_loop, poll}

pub record Moves (p q : Parser) : Type 0 where
  pub same : q.buffer ≡ p.buffer
  pub next : q.scan_pos ≡ p.scan_pos + 1

-- Where the byte that is read next is in the buffer, no slice of the next round panics.
pub record IsWithin (p : Parser) : Type 0 where
  pub read : p.scan_pos ≤ length p.buffer
  pub start : p.value_start ≤ p.scan_pos

module _ (json : Json) (id : String) where
  pub scan_state-Moves : (s : State) (ch : ℕ) (p : Parser) → Moves p (scan_state json id s ch p).0
  unfolding scan_state transition_after
  scan_state-Moves expect_key ch p = ground arith
  scan_state-Moves in_key ch p = ground arith
  scan_state-Moves expect_colon ch p = ground arith
  scan_state-Moves expect_value ch p = ground arith
  scan_state-Moves in_string ch p = ground arith
  scan_state-Moves in_number ch p = ground arith
  scan_state-Moves in_literal ch p = ground arith
  scan_state-Moves in_object ch p = ground arith
  scan_state-Moves in_array ch p = ground arith
  scan_state-Moves expect_comma ch p = ground arith

  pub scan_byte-Moves : (ch : ℕ) (p : Parser) → Moves p (scan_byte json id ch p).0
  unfolding scan_byte
  scan_byte-Moves ch p = ground (arith, scan_state-Moves p.state ch p)

  scan_state-start :
      (s : State) (ch : ℕ) (p : Parser)
      → p.value_start ≤ p.scan_pos
      → (scan_state json id s ch p).0.value_start ≤ p.scan_pos + 1
  unfolding scan_state transition_after
  scan_state-start expect_key ch p h = ground arith
  scan_state-start in_key ch p h = ground arith
  scan_state-start expect_colon ch p h = ground arith
  scan_state-start expect_value ch p h = ground arith
  scan_state-start in_string ch p h = ground arith
  scan_state-start in_number ch p h = ground arith
  scan_state-start in_literal ch p h = ground arith
  scan_state-start in_object ch p h = ground arith
  scan_state-start in_array ch p h = ground arith
  scan_state-start expect_comma ch p h = ground arith

  pub scan_byte-IsWithin :
      (ch : ℕ) (p : Parser)
      → IsWithin p
      → p.scan_pos < length p.buffer
      → IsWithin (scan_byte json id ch p).0
  unfolding scan_byte
  scan_byte-IsWithin ch p h lt =
      ground (arith, scan_state-Moves p.state ch p, scan_state-start p.state ch p)

pub get_elem?-none {ℓ} : {A : Type ℓ} (xs : List A) (i : ℕ) → get_elem? xs i ≡ none → length xs ≤ i
get_elem?-none [] i h = omega arith
get_elem?-none (x ∷ xs) zero h = cc
get_elem?-none (x ∷ xs) (suc i) h = omega (arith, get_elem?-none xs i h)

pub get_elem?-some {ℓ} :
    {A : Type ℓ} (xs : List A) (i : ℕ) {a : A} → get_elem? xs i ≡ some a → i < length xs
get_elem?-some [] i h = cc
get_elem?-some (x ∷ xs) zero h = omega arith
get_elem?-some (x ∷ xs) (suc i) h = omega (arith, get_elem?-some xs i h)

module _ (json : Json) (id : String) where
  -- What a call of `poll` leaves.
  pub record IsRead (p q : Parser) : Type 0 where
    pub same : q.buffer ≡ p.buffer
    pub whole : q.scan_pos ≡ length p.buffer
    pub within : IsWithin q

  pub poll_loop-IsRead :
      (fuel : ℕ) (p : Parser) (events : List (ArgsEvent json.Value))
      → IsWithin p
      → length p.buffer ≤ p.scan_pos + fuel
      → IsRead p (poll_loop json id fuel p events).0
  unfolding poll_loop
  poll_loop-IsRead zero p events w h = record { same = refl; whole = omega arith; within = w }
  poll_loop-IsRead (suc fuel) p events w h = elim (Option-cases (get_elem? p.buffer p.scan_pos)) [
    | inl e ↦
        rw (e, poll_loop)
          (record {
            same = refl;
            whole = omega (arith, get_elem?-none p.buffer p.scan_pos e);
            within = w;
          })
    | inr (ch, e) ↦
        let m = scan_byte-Moves json id ch p in
        let r =
          poll_loop-IsRead fuel (scan_byte json id ch p).0 (events ++ (scan_byte json id ch p).1)
            (scan_byte-IsWithin json id ch p w (get_elem?-some p.buffer p.scan_pos e))
            (rw m.same (omega arith)) in
        rw (e, poll_loop)
          (record { same = r.same ∙ m.same; whole = r.whole ∙ ap length m.same; within = r.within })
  ]

  -- A call of `poll` on a parser that stands within its buffer reads the buffer to its end, and
  -- stands within it again.
  pub poll-IsRead : (p : Parser) → IsWithin p → IsRead p (poll json id p).0
  unfolding poll
  poll-IsRead p w = poll_loop-IsRead (length p.buffer - p.scan_pos) p [] w (omega (arith, w.read))
