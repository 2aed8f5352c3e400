-- ===== src/Base/Text/Decimal.antt =====
-- The verbs %d and %10d of fmt for an int64, and the fields of its lines.
use Prim.Native.Nat.{ℕ, zero, suc, ◌-◌, ◌/◌, ◌%◌}
use Prim.Native.String.{String, [], ◌∷◌}
use mathlib.Core.Path.{◌≡◌, refl}
use tsdb_operator.Base.Tests.{if◌then◌else◌, ltb}
use tsdb_operator.Base.Int.{ℤ, pos, negsuc}
use tsdb_operator.Base.Text.{◌<>◌}
use tsdb_operator.Base.Clock.{digit}

-- The last digits of a number, as many as it has but at most as many as the first argument says.
unfoldable digits : ℕ → ℕ → String
digits zero n = ""
digits (suc k) n =
    let rest = digits k (n / 10) in if ltb n 10 then digit n else rest <> digit (n % 10)

-- An int64 has 19 digits at most.
unfoldable pub decimal : ℤ → String
unfolding digits
decimal (pos n) = digits 19 n
decimal (negsuc n) = "-" <> digits 19 (suc n)

abbrev width : String → ℕ
width [] = 0
width (c ∷ s) = suc (width s)

abbrev spaces : ℕ → String
spaces zero = ""
spaces (suc n) = " " <> spaces n

-- At the right of a field that many characters wide.
abbrev pub right : ℕ → String → String
right n s = spaces (n - width s) <> s

decimal_ten_digits : right 10 (decimal (pos 1048576)) ≡ "   1048576"
unfolding decimal
decimal_ten_digits = refl

decimal_least : decimal (negsuc 9223372036854775807) ≡ "-9223372036854775808"
unfolding decimal
decimal_least = refl
