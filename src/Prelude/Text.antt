-- ===== src/Prelude/Text.antt =====
-- What the program uses of the packages strings and strconv.
use Prim.Native.Nat.{ℕ, ◌+◌, ◌-◌, ◌*◌, ◌^◌}
use Prim.Native.Char.{Char, code}
use Prim.Native.String.{String, ◌∷◌, slice, len}
use mathlib.Core.Bool.{Bool, not, ◌&&◌, ◌||◌}
use mathlib.Core.List.{List}
use mathlib.Core.Option
use mathlib.Core.Option.{Option, none, some}
use quorum_log.Prelude.Tests.{if◌then◌else◌, leb, ltb}
use quorum_log.Prelude.Eq.{◌==◌, nat_eq, string_eq}

-- strings.TrimPrefix
unfoldable pub trim_prefix : String → String → String
trim_prefix s prefix = if slice s 0 (len prefix) == prefix then slice s (len prefix) (len s) else s

-- The number that decimal digits behind `n` spell, if all of the text is digits.
abbrev pub read_digits : ℕ → String → Option ℕ
read_digits n String.[] = some n
read_digits n (String.◌∷◌ c s) =
    let rest = read_digits (n * 10 + (code c - 48)) s in
    if leb 48 (code c) && leb (code c) 57 then rest else none

-- strconv.ParseUint with base 10 and 64 bits, which returns a number with its errors as well.
pub data Parsed : Type 0 where
  parsed : ℕ → Parsed
  bad_syntax out_of_range : Parsed

-- The loop of ParseUint: what it meets first, a character that is no digit or a number that is too
-- large, is the error.
unfoldable pub read_uint : ℕ → String → Parsed
read_uint n String.[] = parsed n
read_uint n (String.◌∷◌ c s) =
    let m = n * 10 + (code c - 48) in
    let rest = read_uint m s in
    if not (leb 48 (code c) && leb (code c) 57)
    then bad_syntax
    else if ltb m (2 ^ 64)
    then rest
    else out_of_range

unfoldable pub parse_uint : String → Parsed
unfolding read_uint
parse_uint s = if s == "" then bad_syntax else read_uint 0 s

-- The number, whether there is an error or not.
abbrev pub number_of : Parsed → ℕ
number_of (parsed n) = n
number_of bad_syntax = 0
number_of out_of_range = 2 ^ 64 - 1

-- unicode.IsSpace
abbrev pub is_space : ℕ → Bool
is_space n =
    (leb 9 n && leb n 13)
    || n == 0x20
    || n == 0x85
    || n == 0xa0
    || n == 0x1680
    || (leb 0x2000 n && leb n 0x200a)
    || n == 0x2028
    || n == 0x2029
    || n == 0x202f
    || n == 0x205f
    || n == 0x3000

unfoldable pub trim_left : String → String
trim_left String.[] = ""
trim_left (String.◌∷◌ c s) = let rest = trim_left s in if is_space (code c) then rest else c ∷ s

unfoldable pub trim_right : String → String
trim_right String.[] = ""
trim_right (String.◌∷◌ c s) =
    let rest = trim_right s in if rest == "" && is_space (code c) then "" else c ∷ rest

-- strings.TrimSpace
unfoldable pub trim_space : String → String
unfolding trim_left trim_right
trim_space s = trim_right (trim_left s)

-- The word in front of which the character stands, if it is not a space.
abbrev word_onto : Char → List String → List String
word_onto c List.[] = List.◌∷◌ (c ∷ "") List.[]
word_onto c (List.◌∷◌ w ws) = List.◌∷◌ (c ∷ w) ws

abbrev drop_empty : List String → List String
drop_empty List.[] = List.[]
drop_empty (List.◌∷◌ w ws) = let rest = drop_empty ws in if w == "" then rest else List.◌∷◌ w rest

-- The pieces between the spaces, which may be empty.
unfoldable pub split_spaces : String → List String
split_spaces String.[] = List.◌∷◌ "" List.[]
split_spaces (String.◌∷◌ c s) =
    let rest = split_spaces s in if is_space (code c) then List.◌∷◌ "" rest else word_onto c rest

-- strings.Fields
unfoldable pub fields : String → List String
unfolding split_spaces
fields s = drop_empty (split_spaces s)

-- The text in front of the first place where another one stands; strings.Index with the slice up to it.
unfoldable pub before_first : String → String → Option String
before_first String.[] part = if part == "" then some "" else none
before_first (String.◌∷◌ c s) part =
    let rest = before_first s part in
    if slice (c ∷ s) 0 (len part) == part then some "" else Option.map (λ t. c ∷ t) rest

-- strings.TrimSuffix, for a suffix of one character
unfoldable pub trim_last : String → ℕ → String
trim_last String.[] n = ""
trim_last (String.◌∷◌ c s) n =
    let rest = trim_last s n in if s == "" && code c == n then "" else c ∷ rest
