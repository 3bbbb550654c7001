-- ===== src/Prelude/Text.antt =====
-- What the code uses of Python's texts: `str` of a number, `strip`, `rstrip`, `len` and `json.dumps`
-- of texts and numbers.
use Prim.Native.Char.{Char, code}
use Prim.Native.String.{String, ◌++◌ as join}
use Prim.Native.Nat.{ℕ, zero, suc, ◌/◌, ◌%◌}
use mathlib.Core.Bool.{Bool, true, false, ◌||◌, ◌&&◌}
use mathlib.Core.Option.{Option, none, some}
use trustguard_rag.Prelude.Tests.{leb, ltb, ◌==◌, str_eq, if◌then◌else◌}

-- The character of a digit.
abbrev pub digit : ℕ → String
digit n =
    if n == 0
    then "0"
    else if n == 1
    then "1"
    else if n == 2
    then "2"
    else if n == 3
    then "3"
    else if n == 4
    then "4"
    else if n == 5
    then "5"
    else if n == 6
    then "6"
    else if n == 7
    then "7"
    else if n == 8
    then "8"
    else "9"

unfoldable pub digits : ℕ → ℕ → String
digits zero n = ""
digits (suc fuel) n =
    let front = digits fuel (n / 10) in if ltb n 10 then digit n else join front (digit (n % 10))

-- `str` of a number: no number has more digits than one above its value.
unfoldable pub show : ℕ → String
unfolding digits
show n = digits (suc n) n

-- `c.isspace()`.
unfoldable pub is_space : Char → Bool
is_space c =
    let n = code c in
    (leb 9 n && leb n 13)
    || (leb 28 n && leb n 32)
    || (n == 133)
    || (n == 160)
    || (n == 5760)
    || (leb 8192 n && leb n 8202)
    || (n == 8232)
    || (n == 8233)
    || (n == 8239)
    || (n == 8287)
    || (n == 12288)

-- `len(text)`.
unfoldable pub text_length : String → ℕ
text_length String.[] = 0
text_length (String.◌∷◌ c s) = suc (text_length s)

unfoldable pub lstrip : String → String
unfolding is_space
lstrip String.[] = ""
lstrip (String.◌∷◌ c s) = let rest = lstrip s in if is_space c then rest else String.◌∷◌ c s

unfoldable pub rstrip : String → String
unfolding is_space
rstrip String.[] = ""
rstrip (String.◌∷◌ c s) =
    let rest = rstrip s in if str_eq rest "" && is_space c then "" else String.◌∷◌ c rest

unfoldable pub strip : String → String
unfolding lstrip rstrip
strip s = rstrip (lstrip s)

abbrev hex_digit : ℕ → String
hex_digit n =
    if ltb n 10
    then show n
    else if n == 10
    then "a"
    else if n == 11
    then "b"
    else if n == 12
    then "c"
    else if n == 13
    then "d"
    else if n == 14
    then "e"
    else "f"

-- A character of a JSON text, with `ensure_ascii=False`.
unfoldable pub escape : Char → String
escape c =
    let n = code c in
    if n == 34
    then "\\\""
    else if n == 92
    then "\\\\"
    else if n == 10
    then "\\n"
    else if n == 13
    then "\\r"
    else if n == 9
    then "\\t"
    else if n == 12
    then "\\f"
    else if n == 8
    then "\\b"
    else if ltb n 32
    then join "\\u00" (join (hex_digit (n / 16)) (hex_digit (n % 16)))
    else String.◌∷◌ c ""

unfoldable pub escape_all : String → String
escape_all String.[] = ""
escape_all (String.◌∷◌ c s) = join (escape c) (escape_all s)

-- A JSON text, number, Boolean, and the two that may be `null`.
unfoldable pub json_text : String → String
json_text s = join "\"" (join (escape_all s) "\"")

unfoldable pub json_bool : Bool → String
json_bool true = "true"
json_bool false = "false"

unfoldable pub json_optional_text : Option String → String
json_optional_text none = "null"
json_optional_text (some s) = json_text s

unfoldable pub json_optional_int : Option ℕ → String
json_optional_int none = "null"
json_optional_int (some n) = show n
