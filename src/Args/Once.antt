-- ===== src/Args/Once.antt =====
-- How often the parser speaks of a key (crates/core/src/incremental_json.rs).
use mathlib.Core.List.{flatten}
use rust_agent_framework.Common.{
  ℕ, zero, suc, ◌+◌, ◌-◌, ◌≡◌, refl, sym, String, false, Bool-cases, Option-cases, Option, none,
  some, List, [], ◌∷◌, ◌++◌, get_elem?, arith, inl, inr, mem, leb,
}
use rust_agent_framework.Args.{
  Json, State, expect_key, in_key, expect_colon, expect_value, in_string, in_number, in_literal,
  in_object, in_array, expect_comma, Parser, transition_after, new_parser, push_bytes, ArgsEvent,
  parsed, progress, slice,
}
use rust_agent_framework.Args.Scan.{
  emit_value, emit_nested_parsed, emit_progress, emit_parsed_str, emit_parsed_literal, scan_state,
  scan_byte, poll_loop, poll,
}
use rust_agent_framework.Args.Pieces.{feed, feed-poll}

module _ {V : Type 0} where
  -- The keys that are done after some events.
  abbrev pub done : List String → List (ArgsEvent V) → List String
  done before [] = before
  done before (parsed id k v ∷ events) = done (k ∷ before) events
  done before (progress id k n v ∷ events) = done before events

  -- No event speaks of a key that is done.
  abbrev pub IsFresh : List String → List (ArgsEvent V) → Type 0
  IsFresh before [] = Unit
  IsFresh before (parsed id k v ∷ events) = (mem k before ≡ false) × IsFresh (k ∷ before) events
  IsFresh before (progress id k n v ∷ events) = (mem k before ≡ false) × IsFresh before events

  abbrev IsTold : List String → List String → List (ArgsEvent V) → Type 0
  IsTold before after events = IsFresh before events × (after ≡ done before events)

  IsTold-append :
      (before mid after : List String) (xs ys : List (ArgsEvent V))
      → IsTold before mid xs
      → IsTold mid after ys
      → IsTold before after (xs ++ ys)
  IsTold-append before mid after [] ys h k = rw (sym h.1) k
  IsTold-append before mid after (parsed id j v ∷ xs) ys h k =
      let (fresh, ends) = IsTold-append (j ∷ before) mid after xs ys (h.0.1, h.1) k in
      ((h.0.0, fresh), ends)
  IsTold-append before mid after (progress id j n v ∷ xs) ys h k =
      let (fresh, ends) = IsTold-append before mid after xs ys (h.0.1, h.1) k in
      ((h.0.0, fresh), ends)

module _ (json : Json) (id : String) where
  emit_value-IsTold :
      (key : Option String) (emitted : List String) (v : json.Value)
      → IsTold emitted (emit_value json id key emitted v).0 (emit_value json id key emitted v).1
  unfolding emit_value
  emit_value-IsTold none emitted v = (tt, refl)
  emit_value-IsTold (some k) emitted v = elim (Bool-cases (mem k emitted)) [
    | inl old ↦ rw old (tt, refl)
    | inr new ↦ rw new ((new, tt), refl)
  ]

  emit_parsed_str-IsTold :
      (key : Option String) (emitted : List String) (bytes : List ℕ)
      → IsTold emitted
          (emit_parsed_str json id key emitted bytes).0
          (emit_parsed_str json id key emitted bytes).1
  unfolding emit_parsed_str
  emit_parsed_str-IsTold key emitted bytes = emit_value-IsTold key emitted _

  emit_parsed_literal-IsTold :
      (key : Option String) (emitted : List String) (raw : List ℕ)
      → IsTold emitted
          (emit_parsed_literal json id key emitted raw).0
          (emit_parsed_literal json id key emitted raw).1
  unfolding emit_parsed_literal
  emit_parsed_literal-IsTold key emitted raw = emit_value-IsTold key emitted _

  emit_nested_parsed-IsTold :
      (buffer : List ℕ) (key : Option String) (emitted : List String) (start end : ℕ)
      → IsTold emitted
          (emit_nested_parsed json id buffer key emitted start end).0
          (emit_nested_parsed json id buffer key emitted start end).1
  unfolding emit_nested_parsed
  emit_nested_parsed-IsTold buffer key emitted start end = emit_value-IsTold key emitted _

  emit_progress-IsTold :
      (buffer : List ℕ) (key : Option String) (emitted : List String) (start pos last : ℕ)
      → IsTold emitted emitted (emit_progress json id buffer key emitted start pos last).1
  unfolding emit_progress
  emit_progress-IsTold buffer none emitted start pos last = (tt, refl)
  emit_progress-IsTold buffer (some k) emitted start pos last = elim (Bool-cases (mem k emitted)) [
    | inl old ↦ rw old (tt, refl)
    | inr new ↦ elim (Bool-cases (leb (pos - start) last)) [
      | inl stale ↦ rw (new, stale) (tt, refl)
      | inr fresh ↦ rw (new, fresh) ((new, tt), refl)
    ]
  ]

  scan_state-IsTold :
      (s : State) (ch : ℕ) (p : Parser)
      → IsTold p.emitted_keys
          (scan_state json id s ch p).0.emitted_keys
          (scan_state json id s ch p).1
  unfolding scan_state transition_after
  scan_state-IsTold expect_key ch p = ground arith
  scan_state-IsTold in_key ch p = ground arith
  scan_state-IsTold expect_colon ch p = ground arith
  scan_state-IsTold expect_value ch p = ground arith
  scan_state-IsTold in_string ch p = ground (
    arith,
    emit_parsed_str-IsTold p.current_key p.emitted_keys (slice p.value_start p.scan_pos p.buffer),
    emit_progress-IsTold p.buffer p.current_key p.emitted_keys p.value_start (p.scan_pos + 1)
        p.last_progress_received,
  )
  scan_state-IsTold in_number ch p = ground (
    arith,
    emit_parsed_literal-IsTold p.current_key p.emitted_keys
        (slice p.value_start p.scan_pos p.buffer),
  )
  scan_state-IsTold in_literal ch p = ground (
    arith,
    emit_parsed_literal-IsTold p.current_key p.emitted_keys
        (slice p.value_start p.scan_pos p.buffer),
  )
  scan_state-IsTold in_object ch p = ground (
    arith,
    emit_nested_parsed-IsTold p.buffer p.current_key p.emitted_keys p.value_start p.scan_pos,
  )
  scan_state-IsTold in_array ch p = ground (
    arith,
    emit_nested_parsed-IsTold p.buffer p.current_key p.emitted_keys p.value_start p.scan_pos,
  )
  scan_state-IsTold expect_comma ch p = ground arith

  scan_byte-IsTold :
      (ch : ℕ) (p : Parser)
      → IsTold p.emitted_keys (scan_byte json id ch p).0.emitted_keys (scan_byte json id ch p).1
  unfolding scan_byte
  scan_byte-IsTold ch p = ground (arith, scan_state-IsTold p.state ch p)

  poll_loop-IsTold :
      (fuel : ℕ) (p : Parser) (before : List String) (events : List (ArgsEvent json.Value))
      → IsTold before p.emitted_keys events
      → IsTold before
          (poll_loop json id fuel p events).0.emitted_keys
          (poll_loop json id fuel p events).1
  unfolding poll_loop
  poll_loop-IsTold zero p before events h = h
  poll_loop-IsTold (suc fuel) p before events h =
      elim (Option-cases (get_elem? p.buffer p.scan_pos)) [
        | inl e ↦ rw (e, poll_loop) h
        | inr (ch, e) ↦
            let q = scan_byte json id ch p in
            rw (e, poll_loop)
              (poll_loop-IsTold fuel q.0 before (events ++ q.1) (
                IsTold-append before p.emitted_keys q.0.emitted_keys events q.1 h
                  (scan_byte-IsTold ch p)))
      ]

  -- Over a whole stream, however it is cut, a key whose value is complete is reported once, no
  -- event names it after that, and the keys that the parser remembers are just those.
  pub feed-IsFresh :
      (pieces : List (List ℕ))
      → IsFresh [] (feed json id new_parser pieces).1
        × ((feed json id new_parser pieces).0.emitted_keys
            ≡ done [] (feed json id new_parser pieces).1)
  unfolding poll push_bytes
  feed-IsFresh pieces =
      rw (feed-poll json id pieces)
        (poll_loop-IsTold _ (push_bytes (flatten pieces) new_parser) [] [] (tt, refl))
