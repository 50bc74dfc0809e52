-- ===== src/Args/Samples.antt =====
-- Arguments of a tool call that arrive in pieces. A value is the bytes that it is read from, and a
-- key the length of its text.
use Prim.Native.Char.{code}
use Prim.Native.String.{◌++◌ as text_append}
use mathlib.Core.List.{flatten}
use rust_agent_framework.Common.{ℕ, ◌*◌, ◌+◌, String, some, List, [], ◌∷◌, ◌++◌, ◌≡◌, refl, arith}
use rust_agent_framework.Args.{Json, in_string, Parser, new_parser, push_bytes, parsed, progress}
use rust_agent_framework.Args.Scan.{poll}
use rust_agent_framework.Args.Bounds.{IsRead, poll-IsRead}
use rust_agent_framework.Args.Pieces.{feed, feed-poll}
use rust_agent_framework.Args.Once.{IsFresh, done, feed-IsFresh}
use rust_agent_framework.Args.Progress.{reports, held, poll-held}

abbrev bytes_of : String → List ℕ
bytes_of String.[] = []
bytes_of (String.◌∷◌ c s) = code c ∷ bytes_of s

abbrev strokes : List ℕ → String
strokes [] = ""
strokes (b ∷ bs) = text_append "|" (strokes bs)

abbrev raw : Json
raw = record {
  Value = List ℕ;
  from_slice = λ bytes. some bytes;
  text = λ s. bytes_of s;
  from_utf8_lossy = strokes;
}

abbrev call : List (List ℕ)
call = bytes_of "{\"ab\":4" ∷ bytes_of "2 ,\"c\":\"x" ∷ bytes_of "y\"}" ∷ []

reads_call :
    (feed raw "c1" new_parser call).1
    ≡ parsed "c1" "||" (bytes_of "42 ")
      ∷ progress "c1" "|" 1 (bytes_of "|")
      ∷ progress "c1" "|" 2 (bytes_of "||")
      ∷ parsed "c1" "|" (bytes_of "\"xy\"")
      ∷ []
unfolding poll push_bytes
reads_call = refl

-- A bracket within a text ends an array.
cuts_array :
    (poll raw "c1" (push_bytes (bytes_of "{\"ab\":[\"]\"]}") new_parser)).1
    ≡ parsed "c1" "||" (bytes_of "[\"]") ∷ []
unfolding poll push_bytes
cuts_array = refl

-- A closing brace within a text ends an object.
cuts_object :
    (poll raw "c1" (push_bytes (bytes_of "{\"ab\":{\"c\":\"}\"}}") new_parser)).1
    ≡ parsed "c1" "||" (bytes_of "{\"c\":\"}") ∷ []
unfolding poll push_bytes
cuts_object = refl

feed-poll_example :
    feed raw "c1" new_parser call ≡ poll raw "c1" (push_bytes (flatten call) new_parser)
feed-poll_example = feed-poll raw "c1" call

feed-IsFresh_example :
    IsFresh [] (feed raw "c1" new_parser call).1
    × ((feed raw "c1" new_parser call).0.emitted_keys ≡ done [] (feed raw "c1" new_parser call).1)
feed-IsFresh_example = feed-IsFresh raw "c1" call

abbrev started : Parser
started = record new_parser { buffer = bytes_of "{\"ab\"" }

poll-IsRead_example : IsRead raw "c1" started (poll raw "c1" started).0
poll-IsRead_example =
    poll-IsRead raw "c1" started (record { read = omega arith; start = omega arith })

-- The parser after `{"ab":"`.
abbrev reading : Parser
reading = record new_parser {
  buffer = bytes_of "{\"ab\":\"";
  scan_pos = 7;
  state = in_string;
  current_key = some "||";
  value_start = 7;
  brace_depth = 1;
}

reads_reading : (poll raw "c1" (push_bytes (bytes_of "{\"ab\":\"") new_parser)).0 ≡ reading
unfolding poll push_bytes
reads_reading = refl

poll-held_example :
    ((poll raw "c1" (push_bytes (bytes_of "xyz") reading)).1
      ≡ reports raw "c1" "||" (reading.buffer ++ bytes_of "xyz") 7 7 3)
    × (held raw "c1" (poll raw "c1" (push_bytes (bytes_of "xyz") reading)).1 * 2 ≡ 3 * (3 + 1))
poll-held_example =
    poll-held raw "c1" "||" (bytes_of "xyz") reading
      (record {
        reading = refl;
        key = refl;
        fresh = refl;
        within = record { read = omega arith; start = omega arith };
        reported = omega arith;
      })
      refl refl ((refl, refl), ((refl, refl), ((refl, refl), tt)))
