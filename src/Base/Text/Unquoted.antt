-- ===== src/Base/Text/Unquoted.antt =====
-- A quoted text is read back as it was.
use Prim.Native.Char.{Char, code}
use Prim.Native.Nat.{ℕ, suc, ◌+◌, ◌^◌, ◌<◌}
use Prim.Native.String.{String, [], ◌∷◌}
use mathlib.Core.Path.{◌≡◌, ap, sym, refl, subst, ◌∙◌}
use mathlib.Core.Bool.{Bool, true, false, ◌||◌}
use mathlib.Core.Option.{some}
use mathlib.Core.List.{List}
use text.Mathlib.TextLemmas.{nil-append, append_assoc}
use native.Mathlib.Omega.{arith}
use tsdb_operator.Base.Tests.{if◌then◌else◌, nat_eq, ltb}
use tsdb_operator.Base.Text.{
  ◌<>◌, hex_digits, hex_escape, escape_control, escape_rune, escape, is_print,
}
use tsdb_operator.Base.Text.Quoted.{
  plain, read_code, stands, mark, point, digits, escape_of, read_quoted, resume, single,
  read_digits, code_small,
}

-- A backslash and a letter in front of a text.
led : (letter : Char) (t : String) → ("\\" <> letter ∷ []) <> t ≡ "\\" ∷ (letter ∷ t)
led letter t =
    append_assoc "\\" (letter ∷ []) t
    ∙ single "\\" ((letter ∷ []) <> t)
    ∙ ap (λ u. "\\" ∷ u) (single letter t)

marked :
    (c : Char)
    → (nat_eq (code c) 34 || nat_eq (code c) 92) ≡ true
    → escape_of (code c) ≡ point (code c)
unfolding escape_of
marked c e = rw e refl

module _ (s : String) where
  -- What is read in front of `s` is the code point `r`.
  abbrev Reads : String → ℕ → Type 0
  Reads t r = read_quoted plain (t <> s) ≡ read_code r (read_quoted plain s)

  point-Reads :
      (letter : Char) (r : ℕ) → escape_of (code letter) ≡ point r → Reads ("\\" <> letter ∷ []) r
  unfolding read_quoted mark
  point-Reads letter r e = ap (read_quoted plain) (led letter s) ∙ rw (e, read_quoted) refl

  hexadecimal-Reads :
      (letter : Char) (k r : ℕ)
      → escape_of (code letter) ≡ digits k
      → r < 16 ^ suc k
      → Reads (("\\" <> letter ∷ []) <> hex_digits (suc k) r) r
  unfolding read_quoted mark
  hexadecimal-Reads letter k r e h =
      let begun : read_quoted plain ("\\" ∷ (letter ∷ (hex_digits (suc k) r <> s)))
          ≡ resume (suc k) 0 (hex_digits (suc k) r <> s) =
        rw (e, read_quoted) refl in
      let all : suc k + 0 ≡ suc k = omega arith in
      ap (read_quoted plain) (
        append_assoc ("\\" <> letter ∷ []) (hex_digits (suc k) r) s
        ∙ led letter (hex_digits (suc k) r <> s))
      ∙ begun
      ∙ sym (ap (λ j. resume j 0 (hex_digits (suc k) r <> s)) all)
      ∙ read_digits (suc k) 0 r s h

  if-Reads :
      (b : Bool) (t u : String) (r : ℕ)
      → (b ≡ true → Reads t r)
      → (b ≡ false → Reads u r)
      → Reads (if b then t else u) r
  if-Reads true t u r h k = h refl
  if-Reads false t u r h k = k refl

  hex_escape-Reads : (r : ℕ) → r < 1114112 → Reads (hex_escape r) r
  unfolding hex_escape escape_of
  hex_escape-Reads r h =
      if-Reads (ltb r 0x20 || nat_eq r 0x7f) ("\\x" <> hex_digits 2 r) _ r
        (λ e. hexadecimal-Reads "x" 1 r refl (ground arith))
        (λ _.
          if-Reads (ltb r 0x10000) ("\\u" <> hex_digits 4 r) _ r
            (λ e. hexadecimal-Reads "u" 3 r refl (ground arith))
            (λ _. hexadecimal-Reads "U" 7 r refl (omega arith)))

  short :
      (r k : ℕ) (letter : Char) (t : String)
      → escape_of (code letter) ≡ point k
      → Reads t r
      → Reads (if nat_eq r k then "\\" <> letter ∷ [] else t) r
  short r k letter t e h =
      if-Reads (nat_eq r k) ("\\" <> letter ∷ []) t r
        (λ q.
          let same : k ≡ r = ground arith in
          subst (Reads ("\\" <> letter ∷ [])) same (point-Reads letter k e))
        (λ _. h)

  escape_control-Reads : (r : ℕ) → r < 1114112 → Reads (escape_control r) r
  unfolding escape_control escape_of
  escape_control-Reads r h = short r 7 "a" _ refl (
      short r 8 "b" _ refl (
        short r 12 "f" _ refl (
          short r 10 "n" _ refl (
            short r 13 "r" _ refl
              (short r 9 "t" _ refl (short r 11 "v" _ refl (hex_escape-Reads r h)))))))

  itself-Reads :
      (c : Char) → (nat_eq (code c) 34 || nat_eq (code c) 92) ≡ false → Reads (c ∷ []) (code c)
  unfolding read_quoted mark
  itself-Reads c e =
      let stands_there : mark (code c) ≡ stands = ground arith in
      ap (read_quoted plain) (single c s) ∙ rw (stands_there, read_quoted) refl

  module _ (table : ℕ → Bool) where
    escape_rune-Reads : (c : Char) → Reads (escape_rune table c) (code c)
    unfolding escape_rune
    escape_rune-Reads c =
        if-Reads (nat_eq (code c) 34 || nat_eq (code c) 92) ("\\" <> c ∷ []) _ (code c)
          (λ e. point-Reads c (code c) (marked c e))
          (λ e.
            if-Reads (is_print table (code c)) (c ∷ []) _ (code c) (λ _. itself-Reads c e)
              (λ _. escape_control-Reads (code c) (code_small c)))

abbrev pub codes : String → List ℕ
codes [] = List.[]
codes (c ∷ s) = List.◌∷◌ (code c) (codes s)

-- A quoted text, read after its opening quote, gives the code points of the text, and what stands
-- after its closing quote is left.
pub read_quoted-quote :
    (table : ℕ → Bool) (s rest : String)
    → read_quoted plain (escape table s <> ("\"" <> rest)) ≡ some (codes s, rest)
unfolding escape read_quoted mark
read_quoted-quote table [] rest =
    ap (read_quoted plain) (nil-append ("\"" <> rest) ∙ single "\"" rest) ∙ refl
read_quoted-quote table (c ∷ s) rest =
    ap (read_quoted plain) (append_assoc (escape_rune table c) (escape table s) ("\"" <> rest))
    ∙ escape_rune-Reads (escape table s <> ("\"" <> rest)) table c
    ∙ ap (read_code (code c)) (read_quoted-quote table s rest)
