-- ===== src/Base/Text/Quoted.antt =====
-- Reading a quoted text back, by the escapes of a double-quoted scalar of YAML 1.2.
use Prim.Native.Char.{Char, char, code}
use Prim.Native.Nat.{ℕ, zero, suc, ◌+◌, ◌-◌, ◌*◌, ◌%◌, ◌/◌, ◌^◌, ◌<◌}
use Prim.Native.String.{String, [], ◌∷◌}
use mathlib.Core.Path.{◌≡◌, ap, refl, subst, ◌∙◌}
use mathlib.Core.Logic.{inl, inr}
use mathlib.Core.Bool.{◌&&◌, ◌||◌}
use mathlib.Core.Option.{Option, none, some}
use mathlib.Core.List.{List}
use text.Mathlib.TextLemmas.{nil-append, cons-append, append_assoc}
use native.Mathlib.Omega.{arith}
use tsdb_operator.Base.Tests.{if◌then◌else◌, nat_eq, leb, Bool-cases}
use tsdb_operator.Base.Lists.{All}
use tsdb_operator.Base.Text.{◌<>◌, nth_char, hex_digit, hex_digits}

-- Where the reader is in the scalar: after a backslash, or in front of a hexadecimal digit, with the
-- number of digits after it and the number read so far.
pub data Place : Type 0 where
  plain escaped : Place
  hexadecimal : (more number : ℕ) → Place

abbrev pub Reading : Type 0
Reading = Option (List ℕ × String)

abbrev pub read_code : ℕ → Reading → Reading
read_code n none = none
read_code n (some (codes, rest)) = some (List.◌∷◌ n codes, rest)

-- The value of a hexadecimal digit.
unfoldable pub hex_value : ℕ → Option ℕ
hex_value r =
    if leb 48 r && leb r 57
    then some (r - 48)
    else if leb 97 r && leb r 102
    then some (r - 87)
    else none

-- What a character in the scalar is.
pub data Mark : Type 0 where
  closes escapes stands : Mark

unfoldable pub mark : ℕ → Mark
mark r = if nat_eq r 34 then closes else if nat_eq r 92 then escapes else stands

-- What a character after a backslash stands for: a code point, or as many more digits.
pub data Escape : Type 0 where
  point digits : ℕ → Escape
  unknown : Escape

unfoldable pub escape_of : ℕ → Escape
escape_of r =
    if nat_eq r 34 || nat_eq r 92
    then point r
    else if nat_eq r 97
    then point 7
    else if nat_eq r 98
    then point 8
    else if nat_eq r 102
    then point 12
    else if nat_eq r 110
    then point 10
    else if nat_eq r 114
    then point 13
    else if nat_eq r 116
    then point 9
    else if nat_eq r 118
    then point 11
    else if nat_eq r 120
    then digits 1
    else if nat_eq r 117
    then digits 3
    else if nat_eq r 85
    then digits 7
    else unknown

-- The code points of a scalar up to its closing quote, and the text after that.
unfoldable pub read_quoted : Place → String → Reading
unfolding mark escape_of hex_value
read_quoted p [] = none
read_quoted plain (c ∷ s) = elim (mark (code c)) [
  | closes ↦ some (List.[], s)
  | escapes ↦ read_quoted escaped s
  | stands ↦ read_code (code c) (read_quoted plain s)
]
read_quoted escaped (c ∷ s) = elim (escape_of (code c)) [
  | point n ↦ read_code n (read_quoted plain s)
  | digits k ↦ read_quoted (hexadecimal k 0) s
  | unknown ↦ none
]
read_quoted (hexadecimal more n) (c ∷ s) = elim (hex_value (code c)) [
  | none ↦ none
  | some d ↦ elim more [
    | zero ↦ read_code (n * 16 + d) (read_quoted plain s)
    | suc k ↦ read_quoted (hexadecimal k (n * 16 + d)) s
  ]
]

-- After some digits.
abbrev pub resume : ℕ → ℕ → String → Reading
resume zero n s = read_code n (read_quoted plain s)
resume (suc k) n s = read_quoted (hexadecimal k n) s

abbrev below : ℕ → List ℕ
below zero = List.[]
below (suc k) = List.◌∷◌ k (below k)

All-below : (P : ℕ → Type 0) (k m : ℕ) → m < k → All P (below k) → P m
All-below P zero m h all = absurd (omega arith)
All-below P (suc k) m h (last, before) = elim (Bool-cases (nat_eq m k)) [
  | inl e ↦ let same : k ≡ m = ground arith in subst P same last
  | inr e ↦ All-below P k m (ground arith) before
]

abbrev IsValued : ℕ → Type 0
IsValued m = hex_value (code (nth_char "0" "0123456789abcdef" m)) ≡ some m

digit_value : (m : ℕ) → m < 16 → IsValued m
unfolding hex_value
digit_value m h = All-below IsValued 16 m h (
  refl,
  (
    refl,
    (
      refl,
      (
        refl,
        (
          refl,
          (
            refl,
            (refl, (refl, (refl, (refl, (refl, (refl, (refl, (refl, (refl, (refl, tt)))))))))),
          ),
        ),
      ),
    ),
  ),
)

read_digit :
    (k n q : ℕ) (s : String) → resume (suc k) n (hex_digit q ∷ s) ≡ resume k (n * 16 + q % 16) s
unfolding read_quoted hex_digit
read_digit zero n q s = rw (digit_value (q % 16) (omega arith), read_quoted) refl
read_digit (suc k) n q s = rw (digit_value (q % 16) (omega arith), read_quoted) refl

pub single : (c : Char) (s : String) → (c ∷ []) <> s ≡ c ∷ s
single c s = cons-append c [] s ∙ ap (λ u. c ∷ u) (nil-append s)

pub read_digits :
    (k more q : ℕ) (s : String)
    → q < 16 ^ k
    → resume (k + more) 0 (hex_digits k q <> s) ≡ resume more q s
unfolding hex_digits
read_digits zero more q s h =
    let none_left : 0 ≡ q = omega arith in
    let same : 0 + more ≡ more = omega arith in
    ap (resume (0 + more) 0) (nil-append s)
    ∙ ap (λ j. resume j 0 s) same
    ∙ ap (λ n. resume more n s) none_left
read_digits (suc k) more q s h =
    let fewer : q / 16 < 16 ^ k = omega arith in
    let shape : suc k + more ≡ k + suc more = omega arith in
    let number : q / 16 * 16 + q % 16 ≡ q = omega arith in
    ap (resume (suc k + more) 0) (
      append_assoc (hex_digits k (q / 16)) (hex_digit q ∷ []) s
      ∙ ap (λ u. hex_digits k (q / 16) <> u) (single (hex_digit q) s))
    ∙ ap (λ j. resume j 0 (hex_digits k (q / 16) <> hex_digit q ∷ s)) shape
    ∙ read_digits k (suc more) (q / 16) (hex_digit q ∷ s) fewer
    ∙ read_digit more (q / 16) q s
    ∙ ap (λ n. resume more n s) number

pub code_small : (c : Char) → code c < 1114112
code_small (char n p) = ground arith
