-- ===== src/Prelude/Text.antt =====
-- The parts of Rust's `str` that the program uses, over the native texts.
use Prim.Native.Nat.{ℕ}
use Prim.Native.Char.{code}
use Prim.Native.String.{String}
use Prim.Native.Nat.{◌+◌}
use mathlib.Core.Option.{Option, none, some}
use text.Mathlib.Text.{◌==◌ as str_eq}
use mathlib.Core.Bool.{Bool, true, false, ◌&&◌, ◌||◌}
use mathlib.Core.List.{List, [], ◌∷◌}
use simple_alert_proxy.Prelude.Tests.{leb, ◌==◌, if◌then◌else◌}

-- The code points of a text. `String` has its own `[]` and `∷`.
abbrev pub codes : String → List ℕ
codes String.[] = []
codes (String.◌∷◌ c s) = code c ∷ codes s

abbrev pub is_empty : String → Bool
is_empty String.[] = true
is_empty (String.◌∷◌ c s) = false

-- `char::is_whitespace`: the code points with the property White_Space
pub is_whitespace : ℕ → Bool
is_whitespace c =
    (leb 9 c && leb c 13)
    || c == 32
    || c == 133
    || c == 160
    || c == 5760
    || (leb 8192 c && leb c 8202)
    || c == 8232
    || c == 8233
    || c == 8239
    || c == 8287
    || c == 12288

pub trim_start : String → String
trim_start String.[] = String.[]
trim_start (String.◌∷◌ c s) =
    let rest = trim_start s in if is_whitespace (code c) then rest else String.◌∷◌ c s

pub trim_end : String → String
trim_end String.[] = String.[]
trim_end (String.◌∷◌ c s) =
    let rest = trim_end s in
    if is_empty rest && is_whitespace (code c) then String.[] else String.◌∷◌ c rest

-- `str::trim`
unfoldable pub trim : String → String
unfolding trim_start trim_end is_whitespace
trim s = trim_end (trim_start s)

-- Concatenation, as `format!` and `push_str` make it.
abbrev pub append : String → String → String
append String.[] t = t
append (String.◌∷◌ c s) t = String.◌∷◌ c (append s t)

-- `strip_prefix`
abbrev pub strip_prefix : String → String → Option String
strip_prefix String.[] t = some t
strip_prefix (String.◌∷◌ c s) String.[] = none
strip_prefix (String.◌∷◌ c s) (String.◌∷◌ d t) = if code c == code d then strip_prefix s t else none

-- `starts_with`
abbrev pub has_prefix : String → String → Bool
has_prefix p s = elim (strip_prefix p s) [ none ↦ false | some rest ↦ true ]

-- `contains` and `ends_with`
abbrev pub contains : String → String → Bool
contains String.[] needle = is_empty needle
contains (String.◌∷◌ c s) needle = has_prefix needle (String.◌∷◌ c s) || contains s needle

abbrev pub ends_with : String → String → Bool
ends_with String.[] needle = is_empty needle
ends_with (String.◌∷◌ c s) needle = str_eq needle (String.◌∷◌ c s) || ends_with s needle

-- `eq_ignore_ascii_case`
abbrev pub ascii_lower : ℕ → ℕ
ascii_lower c = if leb b'A' c && leb c b'Z' then c + 32 else c

abbrev pub eq_ignore_ascii_case : String → String → Bool
eq_ignore_ascii_case String.[] String.[] = true
eq_ignore_ascii_case String.[] (String.◌∷◌ d t) = false
eq_ignore_ascii_case (String.◌∷◌ c s) String.[] = false
eq_ignore_ascii_case (String.◌∷◌ c s) (String.◌∷◌ d t) =
    ascii_lower (code c) == ascii_lower (code d) && eq_ignore_ascii_case s t

-- `matches!(s, "a" | "b" | …)`
abbrev pub is_one_of : List String → String → Bool
is_one_of [] s = false
is_one_of (t ∷ ts) s = str_eq s t || is_one_of ts s

-- `chars().all(p)` over the code points
abbrev pub all_codes : (ℕ → Bool) → String → Bool
all_codes p String.[] = true
all_codes p (String.◌∷◌ c s) = p (code c) && all_codes p s

abbrev pub is_digit : ℕ → Bool
is_digit c = leb b'0' c && leb c b'9'

abbrev pub is_ascii_alphanumeric : ℕ → Bool
is_ascii_alphanumeric c = is_digit c || (leb b'a' c && leb c b'z') || (leb b'A' c && leb c b'Z')

abbrev pub is_ascii_hexdigit : ℕ → Bool
is_ascii_hexdigit c = is_digit c || (leb b'a' c && leb c b'f') || (leb b'A' c && leb c b'F')

-- The bytes of a code point in UTF-8, and `len` of a text.
abbrev pub utf8_len : ℕ → ℕ
utf8_len c = if leb c 127 then 1 else if leb c 2047 then 2 else if leb c 65535 then 3 else 4

abbrev pub byte_len : String → ℕ
byte_len String.[] = 0
byte_len (String.◌∷◌ c s) = utf8_len (code c) + byte_len s

-- `strip_suffix` of one character
abbrev pub strip_last : ℕ → String → Option String
strip_last k String.[] = none
strip_last k (String.◌∷◌ c String.[]) = if code c == k then some String.[] else none
strip_last k (String.◌∷◌ c (String.◌∷◌ d s)) = elim (strip_last k (String.◌∷◌ d s)) [
  | none ↦ none
  | some rest ↦ some (String.◌∷◌ c rest)
]

-- `split_once` at a character
abbrev pub split_once : ℕ → String → Option (String × String)
split_once k String.[] = none
split_once k (String.◌∷◌ c s) =
    if code c == k
    then some (String.[], s)
    else elim (split_once k s) [ none ↦ none | some (a, b) ↦ some (String.◌∷◌ c a, b) ]
