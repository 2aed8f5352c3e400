-- ===== src/Base/Text.antt =====
-- Text functions of Go's standard library: strings.Split and strings.TrimRight at newlines, and
-- the `%q` verb of fmt (strconv.Quote).
pub mod Lines
pub mod Decimal
pub mod Quoted
pub mod Unquoted
use Prim.Native.Char.{Char, code}
use Prim.Native.String
use Prim.Native.String.{String, [], ◌∷◌}
use mathlib.Core.Path.{◌≡◌, refl}
use mathlib.Core.List.{List}
use text.Mathlib.Text.{◌==◌}
use tsdb_operator.Base.Tests.{if◌then◌else◌, ltb, leb, nat_eq}
use Prim.Native.Nat.{ℕ, zero, suc, ◌/◌, ◌%◌}
use mathlib.Core.Bool.{Bool, true, false, ◌&&◌, ◌||◌, not}

infixr 66 ◌<>◌
abbrev pub ◌<>◌ : String → String → String
s <> t = String.◌++◌ s t

abbrev pub is_newline : Char → Bool
is_newline c = nat_eq (code c) b'\n'

abbrev cons_first : Char → List String → List String
cons_first c List.[] = List.◌∷◌ (c ∷ []) List.[]
cons_first c (List.◌∷◌ l ls) = List.◌∷◌ (c ∷ l) ls

-- `strings.SplitSeq(s, "\n")`
unfoldable pub split_lines : String → List String
split_lines [] = List.◌∷◌ [] List.[]
split_lines (c ∷ s) =
    let rest = split_lines s in if is_newline c then List.◌∷◌ [] rest else cons_first c rest

-- `strings.TrimRight(s, "\n")`
unfoldable pub trim_right_newlines : String → String
trim_right_newlines [] = []
trim_right_newlines (c ∷ s) =
    let rest = trim_right_newlines s in if is_newline c && rest == [] then [] else c ∷ rest

unfoldable pub concat : List String → String
concat List.[] = []
concat (List.◌∷◌ s ss) = s <> concat ss

-- What `Fprintf` writes for a format that ends in a newline.
abbrev pub line : String → String
line s = s <> "\n"

abbrev nth_char : Char → String → ℕ → Char
nth_char default [] n = default
nth_char default (c ∷ s) zero = c
nth_char default (c ∷ s) (suc n) = nth_char default s n

unfoldable hex_digit : ℕ → Char
hex_digit n = nth_char "0" "0123456789abcdef" (n % 16)

-- The last `k` hexadecimal digits of a number.
unfoldable hex_digits : ℕ → ℕ → String
unfolding hex_digit
hex_digits zero n = []
hex_digits (suc k) n = hex_digits k (n / 16) <> hex_digit n ∷ []

-- `strconv.IsPrint`; the table for the code points above 0xFF is a parameter.
abbrev is_print : (ℕ → Bool) → ℕ → Bool
is_print table r =
    if leb r 0xff then leb 0x20 r && ltb r 0x7f || leb 0xa1 r && not (nat_eq r 0xad) else table r

-- The default case of the escapes.
unfoldable hex_escape : ℕ → String
unfolding hex_digits
hex_escape r =
    if ltb r 0x20 || nat_eq r 0x7f
    then "\\x" <> hex_digits 2 r
    else if ltb r 0x10000
    then "\\u" <> hex_digits 4 r
    else "\\U" <> hex_digits 8 r

-- The escapes of `strconv.appendEscapedRune` for a rune that is not printed as it is.
unfoldable escape_control : ℕ → String
unfolding hex_escape
escape_control r =
    if nat_eq r 7
    then "\\a"
    else if nat_eq r 8
    then "\\b"
    else if nat_eq r 12
    then "\\f"
    else if nat_eq r 10
    then "\\n"
    else if nat_eq r 13
    then "\\r"
    else if nat_eq r 9
    then "\\t"
    else if nat_eq r 11
    then "\\v"
    else hex_escape r

module _ (table : ℕ → Bool) where
  -- `strconv.appendEscapedRune` for a double quote.
  unfoldable pub escape_rune : Char → String
  unfolding escape_control
  escape_rune c =
      if nat_eq (code c) b'"' || nat_eq (code c) b'\\'
      then "\\" <> c ∷ []
      else if is_print table (code c)
      then c ∷ []
      else escape_control (code c)

  unfoldable pub escape : String → String
  unfolding escape_rune
  escape [] = []
  escape (c ∷ s) = escape_rune c <> escape s

  -- The `%q` verb on a string.
  unfoldable pub quote : String → String
  unfolding escape
  quote s = "\"" <> escape s <> "\""

quote_test : quote (λ _. true) "a\"b\\c\n\té" ≡ "\"a\\\"b\\\\c\\n\\té\""
unfolding quote
quote_test = refl

quote_hex_test : quote (λ _. false) "\u{7f}" ≡ "\"\\x7f\""
unfolding quote
quote_hex_test = refl

split_test :
    split_lines "a\n\nb\n" ≡ List.◌∷◌ "a" (List.◌∷◌ "" (List.◌∷◌ "b" (List.◌∷◌ "" List.[])))
unfolding split_lines
split_test = refl
