-- ===== src/Prelude/Decimal/Digits.antt =====
-- A number that is printed in decimal reads back as itself.
use Prim.Native.Nat.{ℕ, zero, suc, ◌+◌, ◌-◌, ◌*◌, ◌/◌, ◌%◌, ◌≤◌, ◌<◌}
use mathlib.Core.Path.{◌≡◌, refl, ◌∙◌, sym, ap}
use mathlib.Core.Logic.{inl, inr}
use mathlib.Core.Bool.{true, false}
use mathlib.Core.Option.{Option, none, some}
use mathlib.Core.List.{[], ◌∷◌, ◌++◌}
use native.Mathlib.Omega.{arith}
use magpie.Prelude.Tests.{ltb, leb, ◌==◌, Bool-cases}
use magpie.Prelude.Lists.{All, All-append}
use magpie.Prelude.Strings.{Text, is_ascii_digit, is_empty}
use magpie.Prelude.Decimal.{decimal_from, decimal, parse_digits, unsigned, parse_unsigned}

abbrev pub IsDigit : ℕ → Type 0
IsDigit c = is_ascii_digit c ≡ true

is_ascii_digit-digit : (d : ℕ) → d < 10 → is_ascii_digit (48 + d) ≡ true
unfolding is_ascii_digit
is_ascii_digit-digit d h = ground arith

-- one digit more
abbrev and_then : Option ℕ → ℕ → Option ℕ
and_then none d = none
and_then (some n) d = some (n * 10 + d)

parse_digits-append :
    (n : ℕ) (s : Text) (d : ℕ)
    → d < 10
    → parse_digits n (s ++ (48 + d) ∷ []) ≡ and_then (parse_digits n s) d
unfolding parse_digits
parse_digits-append n [] d small = rw (is_ascii_digit-digit d small) (ground arith)
parse_digits-append n (c ∷ s) d small =
    let rest = parse_digits-append (n * 10 + (c - 48)) s d small in
    elim (Bool-cases (is_ascii_digit c)) [ inl digit ↦ rw digit rest | inr other ↦ rw other refl ]

parse_digits-decimal_from : (fuel n : ℕ) → n < fuel → parse_digits 0 (decimal_from fuel n) ≡ some n
unfolding decimal_from parse_digits
parse_digits-decimal_from zero n h = absurd (omega arith)
parse_digits-decimal_from (suc fuel) n h = elim (Bool-cases (ltb n 10)) [
  | inl small ↦ rw (small, is_ascii_digit-digit n (ground arith)) (ground arith)
  | inr large ↦
      rw
        (
          large,
          parse_digits-append 0 (decimal_from fuel (n / 10)) (n % 10) (omega arith),
          parse_digits-decimal_from fuel (n / 10) (ground arith),
        )
        (ground arith)
]

All-IsDigit-decimal_from : (fuel n : ℕ) → All IsDigit (decimal_from fuel n)
unfolding decimal_from
All-IsDigit-decimal_from zero n = tt
All-IsDigit-decimal_from (suc fuel) n = elim (Bool-cases (ltb n 10)) [
  | inl small ↦ rw small (is_ascii_digit-digit n (ground arith), tt)
  | inr large ↦ rw large (
      All-append IsDigit (decimal_from fuel (n / 10)) _ (All-IsDigit-decimal_from fuel (n / 10))
        (is_ascii_digit-digit (n % 10) (omega arith), tt))
]

pub All-IsDigit-decimal : (n : ℕ) → All IsDigit (decimal n)
unfolding decimal
All-IsDigit-decimal n = All-IsDigit-decimal_from (suc n) n

-- no sign in front
is_no_sign : (c : ℕ) → IsDigit c → (c == b'+') ≡ false
unfolding is_ascii_digit
is_no_sign c digit = ground arith

parse_unsigned-IsDigit :
    (max n : ℕ) (s : Text)
    → All IsDigit s
    → parse_digits 0 s ≡ some n
    → n ≤ max
    → (s ≡ [] → ⊥)
    → parse_unsigned max s ≡ some n
unfolding parse_unsigned unsigned
parse_unsigned-IsDigit max n [] digits is small filled = absurd (filled refl)
parse_unsigned-IsDigit max n (c ∷ s) (digit, digits) is small filled =
    let in_range : leb n max ≡ true = ground arith in
    rw (is_no_sign c digit, is, in_range, parse_unsigned, unsigned) refl

is_empty-append : (s : Text) (d : ℕ) → is_empty (s ++ d ∷ []) ≡ false
unfolding is_empty
is_empty-append [] d = refl
is_empty-append (c ∷ s) d = refl

pub is_empty-decimal : (n : ℕ) → is_empty (decimal n) ≡ false
unfolding decimal decimal_from is_empty
is_empty-decimal n = elim (Bool-cases (ltb n 10)) [
  | inl small ↦ rw (small, is_empty) refl
  | inr large ↦ rw large (is_empty-append (decimal_from n (n / 10)) (48 + n % 10))
]

decimal_filled : (n : ℕ) → decimal n ≡ [] → ⊥
unfolding is_empty
decimal_filled n e =
    let never : false ≡ true = sym (is_empty-decimal n) ∙ ap is_empty e in absurd (cc)

pub parse_unsigned-decimal : (max n : ℕ) → n ≤ max → parse_unsigned max (decimal n) ≡ some n
unfolding decimal
parse_unsigned-decimal max n small =
    parse_unsigned-IsDigit max n (decimal n) (All-IsDigit-decimal n)
      (parse_digits-decimal_from (suc n) n (omega arith)) small (decimal_filled n)
