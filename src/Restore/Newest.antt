-- ===== src/Restore/Newest.antt =====
-- The newest object.
use tsdb_operator.Base.{
  ltb, ℕ, ◌/◌, ◌%◌, ◌+◌, String, List, [], ◌∷◌, Bool, true, false, ◌≡◌, refl, sym, ◌⊎◌, inl, inr,
  All, Any, arith, Bool-cases, if◌then◌else◌,
}
use tsdb_operator.Base.Order.{
  text_less, text_less_asym, text_less_trans, IsSorted, sort-IsSorted, count_if, count_if-sort,
}
use tsdb_operator.Base.Clock.{digit, two, write_date, date, long_stamp}
use tsdb_operator.Base.Text.{◌<>◌}
use text.Mathlib.TextLemmas.{cons-append}
use tsdb_operator.Types.{Time}
use tsdb_operator.Restore.{Object, stamp_of, newer, listed, latest}

-- No object of the list has a later stamp.
abbrev pub IsNewest : List Object → Object → Type 0
IsNewest objects o = All (λ p. text_less (stamp_of o) (stamp_of p) ≡ false) objects

append-after_empty : (s t : String) → text_less "" s ≡ true → text_less "" (s <> t) ≡ true
unfolding text_less
append-after_empty String.[] t h = ground arith
append-after_empty (String.◌∷◌ c s) t h = rw (cons-append c s t) refl

pick :
    (b : Bool) (s t : String)
    → text_less "" s ≡ true
    → text_less "" t ≡ true
    → text_less "" (if b then s else t) ≡ true
pick true s t h k = h
pick false s t h k = k

digit-after_empty : (n : ℕ) → text_less "" (digit n) ≡ true
unfolding text_less
digit-after_empty n = pick (ltb n 1) "0" _ refl (
    pick (ltb n 2) "1" _ refl (
      pick (ltb n 3) "2" _ refl (
        pick (ltb n 4) "3" _ refl (
          pick (ltb n 5) "4" _ refl (
            pick (ltb n 6) "5" _ refl (
              pick (ltb n 7) "6" _ refl
                (pick (ltb n 8) "7" _ refl (pick (ltb n 9) "8" _ refl refl))))))))

two-after_empty : (n : ℕ) → text_less "" (two n) ≡ true
unfolding two
two-after_empty n =
    append-after_empty (digit (n / 10 % 10)) (digit (n % 10)) (digit-after_empty (n / 10 % 10))

write_date-after_empty :
    (separator : String) (year month day : ℕ)
    → text_less "" (write_date separator year month day) ≡ true
unfolding write_date
write_date-after_empty separator year month day =
    append-after_empty (two (year / 100)) _ (two-after_empty (year / 100))

date-after_empty : (separator : String) (z : ℕ) → text_less "" (date separator z) ≡ true
unfolding date
date-after_empty separator z = search write_date-after_empty

long_stamp-after_empty : (t : Time) → text_less "" (long_stamp t) ≡ true
unfolding long_stamp
long_stamp-after_empty t =
    append-after_empty (date "-" (t / 1000000000 / 86400 + 306)) _
      (date-after_empty "-" (t / 1000000000 / 86400 + 306))

irrefl : (s : String) → text_less s s ≡ false
irrefl s = elim (Bool-cases (text_less s s)) [ inl e ↦ text_less_asym s s e | inr e ↦ e ]

-- The loop ends on an object, at least as new as the one it starts from and all of the list.
IsOutcome : Object → List Object → Object → Type 0
IsOutcome best os o =
    (latest (best.key, stamp_of best) os ≡ o.key)
    × (text_less (stamp_of o) (stamp_of best) ≡ false)
    × IsNewest os o
    × ((o ≡ best) ⊎ Any (λ p. p ≡ o) os)

latest-IsOutcome : (best : Object) (os : List Object) → (o : Object) × IsOutcome best os o
unfolding latest IsOutcome
latest-IsOutcome best [] = (best, (refl, irrefl (stamp_of best), tt, inl refl))
latest-IsOutcome best (p ∷ os) = elim (Bool-cases (text_less (stamp_of best) (stamp_of p))) [
  | inl e ↦
      let (o, (same, at, all, found)) = latest-IsOutcome p os in
      (
        o,
        (
          rw e same,
          text_less_trans (stamp_of best) (stamp_of p) (stamp_of o)
              (text_less_asym (stamp_of best) (stamp_of p) e) at,
          (at, all),
          inr (elim found [ inl q ↦ inl (sym q) | inr m ↦ inr m ]),
        ),
      )
  | inr e ↦
      let (o, (same, at, all, found)) = latest-IsOutcome best os in
      (
        o,
        (
          rw e same,
          at,
          (text_less_trans (stamp_of p) (stamp_of best) (stamp_of o) e at, all),
          elim found [ inl q ↦ inl q | inr m ↦ inr (inr m) ],
        ),
      )
]

-- For a list that is not empty, the loop ends on the key of an object of the list, and no object of
-- the list was modified in a later second: every stamp comes after the empty text it starts from.
pub latest-IsNewest :
    (first : Object) (more : List Object)
    → (o : Object) × (latest ("", "") (first ∷ more) ≡ o.key)
      × IsNewest (first ∷ more) o
      × Any (λ p. p ≡ o) (first ∷ more)
unfolding latest IsOutcome
latest-IsNewest first more =
    let (o, (same, at, all, found)) = latest-IsOutcome first more in
    (
      o,
      rw (long_stamp-after_empty first.last_modified) same,
      (at, all),
      elim found [ inl q ↦ inl (sym q) | inr m ↦ inr m ],
    )

-- No object is printed after one with an earlier stamp, and each is printed as often as it is listed.
pub listed-IsSorted :
    (objects : List Object)
    → IsSorted newer (listed objects)
      × ((p : Object → Bool) → count_if p (listed objects) ≡ count_if p objects)
unfolding listed
listed-IsSorted objects = (
  sort-IsSorted newer (λ a b h. text_less_asym (stamp_of b) (stamp_of a) h)
      (λ a b c h k. text_less_trans (stamp_of c) (stamp_of b) (stamp_of a) k h) objects,
  λ p. count_if-sort newer p objects,
)
