-- ===== src/Trigger/Text.antt =====
-- What Rust's `str` and `u32` do with the fields of a cron expression.
use Prim.Native.Char.{Char, code}
use rust_agent_framework.Common.{
  ℕ, ◌+◌, ◌-◌, ◌*◌, ◌^◌, String, Bool, ◌&&◌, ◌||◌, List, [], ◌∷◌, if◌then◌else◌, ltb, leb, nat_eq,
  ◌==◌,
}

-- `char::is_whitespace`
abbrev pub is_whitespace : Char → Bool
is_whitespace c =
    (leb 9 (code c) && leb (code c) 13)
    || nat_eq (code c) 32
    || nat_eq (code c) 133
    || nat_eq (code c) 160
    || nat_eq (code c) 5760
    || (leb 8192 (code c) && leb (code c) 8202)
    || nat_eq (code c) 8232
    || nat_eq (code c) 8233
    || nat_eq (code c) 8239
    || nat_eq (code c) 8287
    || nat_eq (code c) 12288

abbrev pub as_text : Char → String
as_text c = String.◌∷◌ c String.[]

-- The first word is what is read of it from the right.
abbrev pub flush : String → List String → List String
flush word rest = if word == "" then rest else word ∷ rest

unfoldable pub words_of : String → String × List String
words_of String.[] = ("", [])
words_of (String.◌∷◌ c s) =
    let (word, rest) = words_of s in
    if is_whitespace c then ("", flush word rest) else (String.◌∷◌ c word, rest)

unfoldable pub split_whitespace : String → List String
unfolding words_of
split_whitespace s = let (word, rest) = words_of s in flush word rest

-- `split(',')`
abbrev pub is_comma : Char → Bool
is_comma c = nat_eq (code c) 44

unfoldable pub pieces_of : String → String × List String
pieces_of String.[] = ("", [])
pieces_of (String.◌∷◌ c s) =
    let (piece, rest) = pieces_of s in
    if is_comma c then ("", piece ∷ rest) else (String.◌∷◌ c piece, rest)

unfoldable pub split_commas : String → List String
unfolding pieces_of
split_commas s = let (piece, rest) = pieces_of s in piece ∷ rest

abbrev pub trim_start : String → String
trim_start String.[] = ""
trim_start (String.◌∷◌ c s) =
    let rest = trim_start s in if is_whitespace c then rest else String.◌∷◌ c s

abbrev pub trim_end : String → String
trim_end String.[] = ""
trim_end (String.◌∷◌ c s) =
    let rest = trim_end s in if is_whitespace c && rest == "" then "" else String.◌∷◌ c rest

abbrev pub trim : String → String
trim s = trim_end (trim_start s)

-- `u32::from_str`, with the texts of `ParseIntError`.
pub data Parsed : Type 0 where
  number : ℕ → Parsed
  failure : String → Parsed

abbrev pub is_digit : Char → Bool
is_digit c = leb 48 (code c) && leb (code c) 57

unfoldable pub digits_from : ℕ → String → Parsed
digits_from n String.[] = number n
digits_from n (String.◌∷◌ c s) =
    let next = n * 10 + (code c - 48) in
    let rest = digits_from next s in
    if is_digit c
    then (if ltb next (2 ^ 32) then rest else failure "number too large to fit in target type")
    else failure "invalid digit found in string"

abbrev pub after_plus : String → Parsed
after_plus String.[] = failure "invalid digit found in string"
after_plus s = digits_from 0 s

unfoldable pub parse_u32 : String → Parsed
unfolding digits_from
parse_u32 String.[] = failure "cannot parse integer from empty string"
parse_u32 (String.◌∷◌ c s) =
    if nat_eq (code c) 43 then after_plus s else digits_from 0 (String.◌∷◌ c s)
