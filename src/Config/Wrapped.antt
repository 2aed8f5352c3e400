-- ===== src/Config/Wrapped.antt =====
-- The lines of the additional scrape file.
use tsdb_operator.Base.{
  String, List, [], ◌∷◌, ◌++◌, ◌==◌, ◌≡◌, refl, if◌then◌else◌, map, All, arith, ap, ◌∙◌, sym,
  Bool-cases, inl, inr,
}
use text.Mathlib.TextLemmas.{nil-append, append_assoc}
use tsdb_operator.Base.Text.{◌<>◌, split_lines, trim_right_newlines, concat}
use tsdb_operator.Base.Text.Lines.{
  NoNewline, NoNewline-append, split_lines-append, split_lines-NoNewline,
}
use tsdb_operator.Config.{indented_line, wrap_scrape_configs}

-- A line as it stands in the file: indented by two spaces, unless it is empty.
abbrev pub indent : String → String
indent line = if line == "" then "" else "  " <> line

indented_line-eq : (line : String) → indented_line line ≡ indent line <> "\n"
indented_line-eq line = elim (Bool-cases (line == "")) [
  | inl e ↦ rw e (sym (nil-append "\n"))
  | inr e ↦ rw e (sym (append_assoc "  " line "\n"))
]

indent-NoNewline : (l : String) → NoNewline l → NoNewline (indent l)
indent-NoNewline l h = elim (Bool-cases (l == "")) [
  | inl e ↦ rw e tt
  | inr e ↦ rw e (NoNewline-append "  " l (omega arith) h)
]

split_lines-indented :
    (ls : List String)
    → All NoNewline ls
    → split_lines (concat (map indented_line ls)) ≡ map indent ls ++ "" ∷ []
unfolding split_lines concat
split_lines-indented [] h = refl
split_lines-indented (l ∷ ls) h =
    rw (indented_line-eq l, append_assoc (indent l) "\n" (concat (map indented_line ls)))
      (rw (split_lines-append (indent l) (concat (map indented_line ls)) (indent-NoNewline l h.0))
        (ap (λ r. indent l ∷ r) (split_lines-indented ls h.1)))

-- The lines of the wrapped text are the key `scrape_configs:`, then each line of the input without
-- its trailing newlines, indented by two spaces if it is not empty, and nothing more.
pub split_lines-wrap_scrape_configs :
    (s : String)
    → split_lines (wrap_scrape_configs s)
      ≡ "scrape_configs:" ∷ map indent (split_lines (trim_right_newlines s)) ++ "" ∷ []
unfolding wrap_scrape_configs
split_lines-wrap_scrape_configs s =
    ap split_lines (append_assoc "scrape_configs:" "\n" (concat (map indented_line lines)))
    ∙ split_lines-append "scrape_configs:" (concat (map indented_line lines)) (omega arith)
    ∙ ap (λ r. "scrape_configs:" ∷ r)
        (split_lines-indented lines (split_lines-NoNewline (trim_right_newlines s)))
  where
    lines : List String
    lines = split_lines (trim_right_newlines s)
