-- ===== src/Base/Text/Lines.antt =====
-- Lines of a text: how they split, and that quoted text stays on its line.
use Prim.Native.Char.{Char, code}
use Prim.Native.Nat.{ℕ, zero, suc, ◌%◌, ◌/◌}
use Prim.Native.String.{String, [], ◌∷◌}
use mathlib.Core.Path.{◌≡◌, ap, sym, refl, ◌∙◌}
use mathlib.Core.Logic.{◌≢◌}
use mathlib.Core.Bool.{Bool, true, false}
use mathlib.Core.List.{List, ◌++◌}
use text.Mathlib.TextLemmas.{nil-append, cons-append, append_assoc}
use native.Mathlib.Omega.{arith}
use tsdb_operator.Base.Tests.{if◌then◌else◌, nat_eq}
use tsdb_operator.Base.Lists.{All}
use tsdb_operator.Base.Text.{
  ◌<>◌, line, cons_first, split_lines, nth_char, hex_digits, hex_escape, escape_control,
  escape_rune, escape, quote,
}

abbrev pub NoNewline : String → Type 0
NoNewline [] = Unit
NoNewline (c ∷ s) = (code c ≢ 10) × NoNewline s

pub NoNewline-append : (s t : String) → NoNewline s → NoNewline t → NoNewline (s <> t)
NoNewline-append [] t h k = rw nil-append k
NoNewline-append (c ∷ s) t (p, h) k = rw cons-append (p, NoNewline-append s t h k)

-- A line and its newline come off the front of a text.
pub split_lines-append :
    (l rest : String)
    → NoNewline l
    → split_lines (l <> "\n" <> rest) ≡ List.◌∷◌ l (split_lines rest)
unfolding split_lines
split_lines-append [] rest h =
    rw (nil-append, cons-append) (ap (λ s. List.◌∷◌ [] (split_lines s)) (nil-append rest))
split_lines-append (c ∷ l) rest (p, h) =
    rw (cons-append c l ("\n" <> rest)) (rw (split_lines-append l rest h) (ground arith))

unfoldable pub unlines : List String → String
unlines List.[] = ""
unlines (List.◌∷◌ l ls) = line l <> unlines ls

pub unlines-append : (ls ms : List String) → unlines (ls ++ ms) ≡ unlines ls <> unlines ms
unfolding unlines
unlines-append List.[] ms = sym (nil-append _)
unlines-append (List.◌∷◌ l ls) ms =
    ap (λ s. line l <> s) (unlines-append ls ms) ∙ sym (append_assoc (line l) _ _)

pub unlines-append₃ :
    (ks ls ms : List String) → unlines (ks ++ (ls ++ ms)) ≡ unlines ks <> unlines ls <> unlines ms
unlines-append₃ ks ls ms = unlines-append ks _ ∙ ap (λ s. unlines ks <> s) (unlines-append ls ms)

pub split_lines-unlines :
    (ls : List String) → All NoNewline ls → split_lines (unlines ls) ≡ ls ++ List.◌∷◌ "" List.[]
unfolding unlines split_lines
split_lines-unlines List.[] h = refl
split_lines-unlines (List.◌∷◌ l ls) h =
    rw (append_assoc l "\n" (unlines ls))
      (split_lines-append l (unlines ls) h.0 ∙ ap (List.◌∷◌ l) (split_lines-unlines ls h.1))

cons_first-NoNewline :
    (c : Char) (ls : List String) → code c ≢ 10 → All NoNewline ls → All NoNewline (cons_first c ls)
cons_first-NoNewline c List.[] p h = ((p, tt), tt)
cons_first-NoNewline c (List.◌∷◌ l ls) p h = ((p, h.0), h.1)

pub split_lines-NoNewline : (s : String) → All NoNewline (split_lines s)
unfolding split_lines
split_lines-NoNewline [] = (tt, tt)
split_lines-NoNewline (c ∷ s) =
    ground (arith, split_lines-NoNewline s, cons_first-NoNewline c (split_lines s))

nth_char-ne :
    (d : Char) (s : String) (n : ℕ) → code d ≢ 10 → NoNewline s → code (nth_char d s n) ≢ 10
nth_char-ne d [] n p h = p
nth_char-ne d (c ∷ s) zero p h = h.0
nth_char-ne d (c ∷ s) (suc n) p h = nth_char-ne d s n p h.1

hex_digits-NoNewline : (k n : ℕ) → NoNewline (hex_digits k n)
unfolding hex_digits
hex_digits-NoNewline zero n = tt
hex_digits-NoNewline (suc k) n =
    NoNewline-append (hex_digits k (n / 16)) _ (hex_digits-NoNewline k (n / 16))
      (nth_char-ne "0" "0123456789abcdef" (n % 16) (omega arith) (omega arith), tt)

hex_escape-NoNewline : (r : ℕ) → NoNewline (hex_escape r)
unfolding hex_escape
hex_escape-NoNewline r = ground (
  arith,
  NoNewline-append "\\x" (hex_digits 2 r) (omega arith) (hex_digits-NoNewline 2 r),
  NoNewline-append "\\u" (hex_digits 4 r) (omega arith) (hex_digits-NoNewline 4 r),
  NoNewline-append "\\U" (hex_digits 8 r) (omega arith) (hex_digits-NoNewline 8 r),
)

NoNewline-if :
    (b : Bool) (s t : String) → NoNewline s → NoNewline t → NoNewline (if b then s else t)
NoNewline-if true s t h k = h
NoNewline-if false s t h k = k

escape_control-NoNewline : (r : ℕ) → NoNewline (escape_control r)
unfolding escape_control
escape_control-NoNewline r = short 7 "\\a" _ (omega arith) (
    short 8 "\\b" _ (omega arith) (
      short 12 "\\f" _ (omega arith) (
        short 10 "\\n" _ (omega arith) (
          short 13 "\\r" _ (omega arith) (
            short 9 "\\t" _ (omega arith)
              (short 11 "\\v" _ (omega arith) (hex_escape-NoNewline r)))))))
  where
    short :
        (k : ℕ) (s t : String) → NoNewline s → NoNewline t → NoNewline (if nat_eq r k then s else t)
    short k s t = NoNewline-if (nat_eq r k) s t

module _ (table : ℕ → Bool) where
  escape_rune-NoNewline : (c : Char) → NoNewline (escape_rune table c)
  unfolding escape_rune
  escape_rune-NoNewline c =
      ground
        (arith, NoNewline-append "\\" (c ∷ []) (omega arith), escape_control-NoNewline (code c))

  escape-NoNewline : (s : String) → NoNewline (escape table s)
  unfolding escape
  escape-NoNewline [] = tt
  escape-NoNewline (c ∷ s) =
      NoNewline-append (escape_rune table c) (escape table s) (escape_rune-NoNewline c)
        (escape-NoNewline s)

  -- A quoted text stays on its line, whatever it holds.
  pub quote-NoNewline : (s : String) → NoNewline (quote table s)
  unfolding quote
  quote-NoNewline s =
      NoNewline-append "\"" _ (omega arith)
        (NoNewline-append (escape table s) "\"" (escape-NoNewline s) (omega arith))
