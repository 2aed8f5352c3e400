-- ===== src/Config/Reader.antt =====
-- A reader of prometheus.yml: the remote-write targets, by the lines that tell their URLs and names.
use Prim.Native.Char.{code}
use text.Mathlib.TextLemmas.{nil-append, cons-append}
use tsdb_operator.Base.{
  ℕ, String, Option, none, some, List, [], ◌∷◌, ◌++◌, Bool, true, false, ◌≡◌, refl, if◌then◌else◌,
  arith, ap, ◌∙◌, nat_eq, not, ◌||◌,
}
use tsdb_operator.Base.Text.{◌<>◌, split_lines}
use tsdb_operator.Base.Text.Quoted.{plain, read_quoted}
use tsdb_operator.Base.Text.Unquoted.{codes}
use tsdb_operator.Types.{RemoteWriteSpec}

-- The text after a prefix.
unfoldable pub strip_prefix : (prefix s : String) → Option String
strip_prefix String.[] s = some s
strip_prefix (String.◌∷◌ c p) String.[] = none
strip_prefix (String.◌∷◌ c p) (String.◌∷◌ d s) =
    let rest = strip_prefix p s in if nat_eq (code c) (code d) then rest else none

-- Whether two texts have different characters somewhere in the same place.
unfoldable pub clashes : String → String → Bool
clashes String.[] s = false
clashes (String.◌∷◌ c p) String.[] = false
clashes (String.◌∷◌ c p) (String.◌∷◌ d s) = not (nat_eq (code c) (code d)) || clashes p s

pub strip_prefix-append : (p s : String) → strip_prefix p (p <> s) ≡ some s
unfolding strip_prefix
strip_prefix-append String.[] s = ap some (nil-append s)
strip_prefix-append (String.◌∷◌ c p) s =
    rw (cons-append c p s) (ground (arith, strip_prefix-append p s))

pub strip_prefix-clash : (p q s : String) → clashes p q ≡ true → strip_prefix p (q <> s) ≡ none
unfolding strip_prefix clashes
strip_prefix-clash String.[] q s h = ground arith
strip_prefix-clash (String.◌∷◌ c p) String.[] s h = ground arith
strip_prefix-clash (String.◌∷◌ c p) (String.◌∷◌ d q) s h =
    rw (cons-append d q s) (ground (arith, strip_prefix-clash p q s))

-- The code points of the URL and of the name of a target; no name is an empty one.
abbrev pub Target : Type 0
Target = List ℕ × List ℕ

-- The name that belongs to the next URL, and the targets below it.
abbrev pub Found : Type 0
Found = List ℕ × List Target

abbrev pub with_url : Option (List ℕ × String) → Found → Found
with_url none f = f
with_url (some (url, rest)) (name, targets) = ([], (url, name) ∷ targets)

abbrev pub with_name : Option (List ℕ × String) → Found → Found
with_name none f = f
with_name (some (name, rest)) (other, targets) = (name, targets)

abbrev pub at_name : Option String → Found → Found
at_name none f = f
at_name (some s) f = with_name (read_quoted plain s) f

abbrev pub at_url : Option String → (line : String) → Found → Found
at_url none line f = at_name (strip_prefix "    name: \"" line) f
at_url (some s) line f = with_url (read_quoted plain s) f

unfoldable pub read_line : String → Found → Found
unfolding strip_prefix
read_line line f = at_url (strip_prefix "  - url: \"" line) line f

unfoldable pub read_lines : List String → Found → Found
unfolding read_line
read_lines [] f = f
read_lines (line ∷ lines) f = read_line line (read_lines lines f)

-- The targets of a file, by its lines that begin as those of a URL and of a name.
abbrev pub read_targets : String → List Target
read_targets file = (read_lines (split_lines file) ([], [])).1

abbrev pub target_of : RemoteWriteSpec → Target
target_of r = (codes r.url, codes r.name)

pub read_lines-append :
    (xs ys : List String) (f : Found) → read_lines (xs ++ ys) f ≡ read_lines xs (read_lines ys f)
unfolding read_lines
read_lines-append [] ys f = refl
read_lines-append (x ∷ xs) ys f = ap (read_line x) (read_lines-append xs ys f)

-- A line that begins in another way is passed over.
pub other_line :
    (q s : String) (f : Found)
    → clashes "  - url: \"" q ≡ true
    → clashes "    name: \"" q ≡ true
    → read_line (q <> s) f ≡ f
unfolding read_line
other_line q s f h k =
    ap (λ o. at_url o (q <> s) f) (strip_prefix-clash "  - url: \"" q s h)
    ∙ ap (λ o. at_name o f) (strip_prefix-clash "    name: \"" q s k)
