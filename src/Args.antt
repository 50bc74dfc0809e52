-- ===== src/Args.antt =====
-- crates/core/src/incremental_json.rs: the parser that reads the arguments of a tool call while
-- they arrive. A byte is a number. serde_json, and how bytes become a text, are the parameter
-- `Json`: what is proved holds for every such reading.
pub mod Scan
pub mod Bounds
pub mod Pieces
pub mod Once
pub mod Progress
mod Samples
use rust_agent_framework.Common.{
  ℕ, zero, suc, ◌+◌, ◌-◌, ◌≤◌, String, Bool, true, false, not, ◌&&◌, ◌||◌, Option, none, some, List,
  [], ◌∷◌, ◌++◌, if◌then◌else◌, leb, nat_eq, mem, or_default, length, take, drop,
}

pub record Json : Type 1 where
  pub Value : Type 0
  pub from_slice : List ℕ → Option Value
  pub text : String → Value  -- `Value::String`
  pub from_utf8_lossy : List ℕ → String

pub data State : Type 0 where
  expect_key in_key expect_colon expect_value in_string in_number in_literal in_object in_array
        expect_comma :
      State

pub data ArgsEvent (V : Type 0) : Type 0 where
  parsed : String → String → V → ArgsEvent V
  progress : String → String → ℕ → V → ArgsEvent V

-- `StreamingArgsParser`; its set of keys is a list.
pub record Parser : Type 0 where
  pub buffer : List ℕ
  pub scan_pos : ℕ
  pub state : State
  pub current_key : Option String
  pub value_start : ℕ
  pub entry_depth : ℕ
  pub brace_depth : ℕ
  pub bracket_depth : ℕ
  pub escape : Bool
  pub emitted_keys : List String
  pub last_progress_received : ℕ

abbrev pub new_parser : Parser
new_parser = record {
  buffer = [];
  scan_pos = 0;
  state = expect_key;
  current_key = none;
  value_start = 0;
  entry_depth = 0;
  brace_depth = 0;
  bracket_depth = 0;
  escape = false;
  emitted_keys = [];
  last_progress_received = 0;
}

unfoldable pub push_bytes : List ℕ → Parser → Parser
push_bytes bytes p = record p { buffer = p.buffer ++ bytes }

-- `u8::is_ascii_whitespace`
unfoldable pub is_ascii_whitespace : ℕ → Bool
is_ascii_whitespace ch = nat_eq ch 32 || nat_eq ch 9 || nat_eq ch 10 || nat_eq ch 12 || nat_eq ch 13

-- `&buffer[start..end]`. Where `start` is past `end`, or `end` past the buffer, the source panics.
unfoldable pub slice : ℕ → ℕ → List ℕ → List ℕ
slice start end buffer = drop start (take end buffer)

abbrev pub advance : Parser → Parser
advance p = record p { scan_pos = p.scan_pos + 1 }

-- `transition_after`; a saturating subtraction is that of ℕ.
unfoldable pub transition_after : ℕ → Parser → Parser
transition_after ch p =
    if nat_eq ch b'}'
    then advance (record p { brace_depth = p.brace_depth - 1; state = expect_comma })
    else if nat_eq ch b','
    then advance (record p { state = expect_key })
    else advance (record p { state = expect_comma })

abbrev pub is_in_string : State → Bool
is_in_string in_string = true
is_in_string _ = false
