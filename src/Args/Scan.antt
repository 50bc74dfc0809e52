-- ===== src/Args/Scan.antt =====
-- The loop of `poll` (crates/core/src/incremental_json.rs): what each state does with a byte.
use rust_agent_framework.Common.{
  ℕ, zero, suc, ◌+◌, ◌-◌, String, Bool, false, not, ◌&&◌, ◌||◌, Option, none, some, List, [], ◌∷◌,
  ◌++◌, if◌then◌else◌, leb, nat_eq, mem, or_default, length, get_elem?,
}
use rust_agent_framework.Args.{
  Json, State, expect_key, in_key, expect_colon, expect_value, in_string, in_number, in_literal,
  in_object, in_array, expect_comma, ArgsEvent, parsed, progress, Parser, is_ascii_whitespace,
  slice, advance, transition_after, is_in_string,
}

module _ (json : Json) (id : String) where
  open json use {Value, from_slice, text, from_utf8_lossy}

  -- What the three `emit_*parsed*` functions share: a key is emitted once.
  unfoldable pub emit_value :
      Option String → List String → Value → List String × List (ArgsEvent Value)
  emit_value none emitted v = (emitted, [])
  emit_value (some k) emitted v =
      if mem k emitted then (emitted, []) else (k ∷ emitted, parsed id k v ∷ [])

  abbrev pub value_of : List ℕ → List ℕ → Value
  value_of full raw = or_default (text (from_utf8_lossy raw)) (from_slice full)

  unfoldable pub emit_parsed_str :
      Option String → List String → List ℕ → List String × List (ArgsEvent Value)
  unfolding emit_value
  emit_parsed_str key emitted bytes =
      emit_value key emitted (value_of (b'"' ∷ (bytes ++ b'"' ∷ [])) bytes)

  unfoldable pub emit_parsed_literal :
      Option String → List String → List ℕ → List String × List (ArgsEvent Value)
  unfolding emit_value
  emit_parsed_literal key emitted raw = emit_value key emitted (value_of raw raw)

  unfoldable pub emit_nested_parsed :
      List ℕ → Option String → List String → ℕ → ℕ → List String × List (ArgsEvent Value)
  unfolding emit_value slice
  emit_nested_parsed buffer key emitted start end =
      let raw = slice start (end + 1) buffer in emit_value key emitted (value_of raw raw)

  -- The count and the event, if there is news.
  unfoldable pub emit_progress :
      List ℕ → Option String → List String → ℕ → ℕ → ℕ → ℕ × List (ArgsEvent Value)
  unfolding slice
  emit_progress buffer none emitted start pos last = (last, [])
  emit_progress buffer (some k) emitted start pos last =
      if mem k emitted then (last, []) else if leb (pos - start) last then (last, []) else (
        pos - start,
        progress id k (pos - start) (text (from_utf8_lossy (slice start pos buffer))) ∷ [],
      )

  abbrev pub Scanned : Type 0
  Scanned = Parser × List (ArgsEvent Value)

  unfoldable pub scan_expect_key : ℕ → Parser → Scanned
  scan_expect_key ch p =
      if nat_eq ch b'{'
      then (advance (record p { brace_depth = p.brace_depth + 1 }), [])
      else if nat_eq ch b'}'
      then (advance (record p { brace_depth = p.brace_depth - 1; state = expect_comma }), [])
      else if nat_eq ch b'"'
      then (advance (record p { value_start = p.scan_pos + 1; state = in_key }), [])
      else (advance p, [])

  unfoldable pub scan_in_key : ℕ → Parser → Scanned
  unfolding slice
  scan_in_key ch p =
      if nat_eq ch b'\\'
      then (advance (record p { escape = not p.escape }), [])
      else if nat_eq ch b'"' && not p.escape
      then (
        advance (record p {
          current_key = some (from_utf8_lossy (slice p.value_start p.scan_pos p.buffer));
          state = expect_colon;
        }),
        [],
      )
      else (advance (record p { escape = false }), [])

  unfoldable pub scan_expect_colon : ℕ → Parser → Scanned
  scan_expect_colon ch p =
      if nat_eq ch b':' then (advance (record p { state = expect_value }), []) else (advance p, [])

  abbrev pub starts_number : ℕ → Bool
  starts_number ch = nat_eq ch b'-' || (leb b'0' ch && leb ch b'9')

  abbrev pub starts_literal : ℕ → Bool
  starts_literal ch = nat_eq ch b't' || nat_eq ch b'f' || nat_eq ch b'n'

  unfoldable pub scan_expect_value : ℕ → Parser → Scanned
  scan_expect_value ch p =
      if nat_eq ch b'"'
      then (
        advance (record p {
          value_start = p.scan_pos + 1;
          last_progress_received = 0;
          escape = false;
          state = in_string;
        }),
        [],
      )
      else if nat_eq ch b'{'
      then (
        advance (record p {
          value_start = p.scan_pos;
          entry_depth = p.brace_depth;
          brace_depth = p.brace_depth + 1;
          state = in_object;
        }),
        [],
      )
      else if nat_eq ch b'['
      then (
        advance (record p {
          value_start = p.scan_pos;
          entry_depth = p.brace_depth;
          bracket_depth = 1;
          state = in_array;
        }),
        [],
      )
      else if starts_number ch
      then (advance (record p { value_start = p.scan_pos; state = in_number }), [])
      else if starts_literal ch
      then (advance (record p { value_start = p.scan_pos; state = in_literal }), [])
      else (advance p, [])

  unfoldable pub scan_in_string : ℕ → Parser → Scanned
  unfolding emit_parsed_str emit_progress slice
  scan_in_string ch p =
      if nat_eq ch b'\\'
      then (advance (record p { escape = not p.escape }), [])
      else if nat_eq ch b'"' && not p.escape
      then (let (emitted, events) =
            emit_parsed_str p.current_key p.emitted_keys
              (slice p.value_start p.scan_pos p.buffer) in
          (
            advance (record p {
              emitted_keys = emitted;
              last_progress_received = 0;
              state = expect_comma;
            }),
            events,
          ))
      else let (received, events) =
          emit_progress p.buffer p.current_key p.emitted_keys p.value_start (p.scan_pos + 1)
            p.last_progress_received in
        (advance (record p { escape = false; last_progress_received = received }), events)

  -- `InNumber` and `InLiteral` have the same code.
  unfoldable pub scan_in_literal : ℕ → Parser → Scanned
  unfolding emit_parsed_literal transition_after is_ascii_whitespace slice
  scan_in_literal ch p =
      if nat_eq ch b',' || nat_eq ch b'}' || is_ascii_whitespace ch
      then (let (emitted, events) =
            emit_parsed_literal p.current_key p.emitted_keys
              (slice p.value_start p.scan_pos p.buffer) in
          (transition_after ch (record p { emitted_keys = emitted }), events))
      else (advance p, [])

  unfoldable pub scan_in_object : ℕ → Parser → Scanned
  unfolding emit_nested_parsed
  scan_in_object ch p =
      if nat_eq ch b'{'
      then (advance (record p { brace_depth = p.brace_depth + 1 }), [])
      else if nat_eq ch b'}'
      then (if nat_eq (p.brace_depth - 1) p.entry_depth
          then (let (emitted, events) =
                emit_nested_parsed p.buffer p.current_key p.emitted_keys p.value_start p.scan_pos in
              (
                advance (record p {
                  brace_depth = p.brace_depth - 1;
                  emitted_keys = emitted;
                  state = expect_comma;
                }),
                events,
              ))
          else (advance (record p { brace_depth = p.brace_depth - 1 }), []))
      else (advance p, [])

  unfoldable pub scan_in_array : ℕ → Parser → Scanned
  unfolding emit_nested_parsed
  scan_in_array ch p =
      if nat_eq ch b'['
      then (advance (record p { bracket_depth = p.bracket_depth + 1 }), [])
      else if nat_eq ch b']'
      then (if nat_eq (p.bracket_depth - 1) 0
          then (let (emitted, events) =
                emit_nested_parsed p.buffer p.current_key p.emitted_keys p.value_start p.scan_pos in
              (
                advance (record p {
                  bracket_depth = p.bracket_depth - 1;
                  emitted_keys = emitted;
                  state = expect_comma;
                }),
                events,
              ))
          else (advance (record p { bracket_depth = p.bracket_depth - 1 }), []))
      else (advance p, [])

  unfoldable pub scan_expect_comma : ℕ → Parser → Scanned
  scan_expect_comma ch p =
      if nat_eq ch b','
      then (advance (record p { current_key = none; state = expect_key }), [])
      else (advance p, [])

  unfoldable pub scan_state : State → ℕ → Parser → Scanned
  unfolding scan_expect_key scan_in_key scan_expect_colon scan_expect_value scan_in_string
      scan_in_literal scan_in_object scan_in_array scan_expect_comma
  scan_state expect_key ch p = scan_expect_key ch p
  scan_state in_key ch p = scan_in_key ch p
  scan_state expect_colon ch p = scan_expect_colon ch p
  scan_state expect_value ch p = scan_expect_value ch p
  scan_state in_string ch p = scan_in_string ch p
  scan_state in_number ch p = scan_in_literal ch p
  scan_state in_literal ch p = scan_in_literal ch p
  scan_state in_object ch p = scan_in_object ch p
  scan_state in_array ch p = scan_in_array ch p
  scan_state expect_comma ch p = scan_expect_comma ch p

  -- One round of the loop, white space first.
  unfoldable pub scan_byte : ℕ → Parser → Scanned
  unfolding is_ascii_whitespace scan_state
  scan_byte ch p =
      if not (is_in_string p.state) && is_ascii_whitespace ch
      then (advance p, [])
      else scan_state p.state ch p

  -- `while self.scan_pos < self.buffer.len()`, on fuel.
  unfoldable pub poll_loop : ℕ → Parser → List (ArgsEvent Value) → Scanned
  unfolding scan_byte
  poll_loop zero p events = (p, events)
  poll_loop (suc fuel) p events = elim (get_elem? p.buffer p.scan_pos) [
    | none ↦ (p, events)
    | some ch ↦ poll_loop fuel (scan_byte ch p).0 (events ++ (scan_byte ch p).1)
  ]

  -- The fuel is the number of bytes that are left.
  unfoldable pub poll : Parser → Scanned
  unfolding poll_loop
  poll p = poll_loop (length p.buffer - p.scan_pos) p []
