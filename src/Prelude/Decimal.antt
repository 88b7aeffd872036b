-- ===== src/Prelude/Decimal.antt =====
-- Numbers printed by `format!` and read by `str::parse`.
pub mod Digits
use Prim.Native.Nat.{ℕ, zero, suc, ◌+◌, ◌-◌, ◌*◌, ◌/◌, ◌%◌, ◌^◌}
use mathlib.Core.Path.{◌≡◌, refl}
use mathlib.Core.Option.{Option, none, some}
use mathlib.Core.List.{[], ◌∷◌, ◌++◌}
use magpie.Prelude.Tests.{ltb, leb, ◌==◌, if◌then◌else◌}
use magpie.Prelude.Strings.{Text, codes, is_ascii_digit}
use magpie.Prelude.Int.{ℤ, pos, negsuc}

decimal_from : ℕ → ℕ → Text
decimal_from zero n = []
decimal_from (suc f) n =
    let rest = decimal_from f (n / 10) in
    if ltb n 10 then (48 + n) ∷ [] else rest ++ (48 + n % 10) ∷ []

-- `{n}` of an unsigned number; the fuel is one more than the number.
unfoldable pub decimal : ℕ → Text
unfolding decimal_from
decimal n = decimal_from (suc n) n

-- `{n}` of an i64.
unfoldable pub decimal_int : ℤ → Text
unfolding decimal
decimal_int (pos n) = decimal n
decimal_int (negsuc n) = b'-' ∷ decimal (suc n)

parse_digits : ℕ → Text → Option ℕ
parse_digits n [] = some n
parse_digits n (c ∷ s) =
    let rest = parse_digits (n * 10 + (c - 48)) s in if is_ascii_digit c then rest else none

-- the digits after the sign: at least one, and a value of at most `max`
unsigned : ℕ → Text → Option ℕ
unfolding parse_digits is_ascii_digit
unsigned max [] = none
unsigned max (c ∷ s) = elim (parse_digits 0 (c ∷ s)) [
  | none ↦ none
  | some n ↦ if leb n max then some n else none
]

negated : Option ℕ → Option ℤ
negated none = none
negated (some zero) = some (pos 0)
negated (some (suc n)) = some (negsuc n)

nonnegative : Option ℕ → Option ℤ
nonnegative none = none
nonnegative (some n) = some (pos n)

-- `str::parse::<i64>`: an optional sign, then digits in range.
unfoldable pub parse_i64 : Text → Option ℤ
unfolding unsigned negated nonnegative
parse_i64 [] = none
parse_i64 (c ∷ s) =
    if c == b'-'
    then negated (unsigned (2 ^ 63) s)
    else if c == b'+'
    then nonnegative (unsigned (2 ^ 63 - 1) s)
    else nonnegative (unsigned (2 ^ 63 - 1) (c ∷ s))

-- `str::parse::<u64>` and the like, for values of at most `max`.
unfoldable pub parse_unsigned : ℕ → Text → Option ℕ
unfolding unsigned
parse_unsigned max [] = none
parse_unsigned max (c ∷ s) = if c == b'+' then unsigned max s else unsigned max (c ∷ s)

parse_tests :
    (parse_i64 (codes "-12") ≡ some (negsuc 11))
    × (parse_i64 (codes "9223372036854775808") ≡ none)
    × (decimal 2302 ≡ codes "2302")
unfolding parse_i64 decimal codes
parse_tests = (refl, refl, refl)
