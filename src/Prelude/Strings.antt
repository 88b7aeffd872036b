-- ===== src/Prelude/Strings.antt =====
-- Text as the list of its code points, with the functions of Rust's `str` that the sources call.
use Prim.Native.Nat.{ℕ, zero, suc, ◌+◌, ◌-◌}
use Prim.Native.Char.{code}
use Prim.Native.String.{String}
use mathlib.Core.Path.{◌≡◌, refl}
use mathlib.Core.Logic.{◌↔◌, inl, inr}
use mathlib.Core.Bool.{Bool, true, false, ◌&&◌, ◌||◌}
use mathlib.Core.Option
use mathlib.Core.Option.{Option, none, some}
use mathlib.Core.List.{List, [], ◌∷◌, ◌++◌, reverse}
use native.Mathlib.Omega.{arith}
use magpie.Prelude.Tests.{ltb, leb, ◌==◌, if◌then◌else◌, Bool-cases}
use magpie.Prelude.Lists.{length}

abbrev pub Text : Type 0
Text = List ℕ

-- A literal. Shut, so that a proof compares literals only where it says so.
unfoldable pub codes : String → Text
codes String.[] = []
codes (String.◌∷◌ c s) = code c ∷ codes s

unfoldable pub text_eq : Text → Text → Bool
text_eq [] [] = true
text_eq (x ∷ xs) (y ∷ ys) = x == y && text_eq xs ys
text_eq _ _ = false

pub text_eq_iff : (s t : Text) → (text_eq s t ≡ true) ↔ (s ≡ t)
unfolding text_eq
text_eq_iff [] [] = (λ _. refl, λ _. refl)
text_eq_iff [] (y ∷ ys) = ground arith
text_eq_iff (x ∷ xs) [] = ground arith
text_eq_iff (x ∷ xs) (y ∷ ys) = ground (arith, text_eq_iff xs ys)

pub text_eq_self : (s : Text) → text_eq s s ≡ true
text_eq_self s = (text_eq_iff s s).1 refl

pub text_eq_symm : (s t : Text) → text_eq s t ≡ text_eq t s
text_eq_symm s t = ground (arith, text_eq_iff s t, text_eq_iff t s)

-- The order of `String`: by bytes, which for UTF-8 is by code points.
unfoldable pub text_lt : Text → Text → Bool
text_lt [] [] = false
text_lt [] (y ∷ ys) = true
text_lt (x ∷ xs) [] = false
text_lt (x ∷ xs) (y ∷ ys) = ltb x y || x == y && text_lt xs ys

unfoldable pub is_empty : Text → Bool
is_empty [] = true
is_empty (c ∷ s) = false

unfoldable pub strip_prefix : Text → Text → Option Text
strip_prefix [] s = some s
strip_prefix (p ∷ ps) [] = none
strip_prefix (p ∷ ps) (c ∷ s) = if p == c then strip_prefix ps s else none

unfoldable pub strip_suffix : Text → Text → Option Text
unfolding strip_prefix
strip_suffix p s = Option.map reverse (strip_prefix (reverse p) (reverse s))

-- `str::split` at one character, and `str::split_once`.
unfoldable pub split : (ℕ → Bool) → Text → List Text
split is_sep [] = [] ∷ []
split is_sep (c ∷ s) =
    let rest = split is_sep s in
    if is_sep c then [] ∷ rest else elim rest [ [] ↦ (c ∷ []) ∷ [] | w ∷ ws ↦ (c ∷ w) ∷ ws ]

unfoldable pub split_once : ℕ → Text → Option (Text × Text)
split_once sep [] = none
split_once sep (c ∷ s) =
    let rest = split_once sep s in
    if c == sep then some ([], s) else Option.map (λ (a, b). (c ∷ a, b)) rest

unfoldable pub join : Text → List Text → Text
join sep [] = []
join sep (w ∷ []) = w
join sep (w ∷ v ∷ ws) = w ++ (sep ++ join sep (v ∷ ws))

-- `str::replace`, for a pattern that is not empty: the number is what is left of a match.
replace_from : Text → Text → ℕ → Text → Text
unfolding strip_prefix
replace_from pat by skip [] = []
replace_from pat by (suc k) (c ∷ s) = replace_from pat by k s
replace_from pat by zero (c ∷ s) =
    let found = by ++ replace_from pat by (length pat - 1) s in
    let kept = c ∷ replace_from pat by zero s in
    elim (strip_prefix pat (c ∷ s)) [ none ↦ kept | some _ ↦ found ]

unfoldable pub replace : Text → Text → Text → Text
unfolding replace_from
replace pat by s = replace_from pat by 0 s

-- Replacing one character goes through a text a character at a time.
pub replace-one :
    (p c : ℕ) (by s : Text)
    → replace (p ∷ []) by (c ∷ s)
      ≡ (if p == c then by ++ replace (p ∷ []) by s else c ∷ replace (p ∷ []) by s)
unfolding replace replace_from strip_prefix
replace-one p c by s = elim (Bool-cases (p == c)) [
  | inl same ↦ rw (same, replace, replace_from, strip_prefix) refl
  | inr differs ↦ rw (differs, replace, replace_from, strip_prefix) refl
]

-- `char::is_whitespace`
unfoldable pub is_whitespace : ℕ → Bool
is_whitespace c =
    leb 9 c && leb c 13
    || c == 32
    || c == 0x85
    || c == 0xa0
    || c == 0x1680
    || leb 0x2000 c && leb c 0x200a
    || c == 0x2028
    || c == 0x2029
    || c == 0x202f
    || c == 0x205f
    || c == 0x3000

unfoldable pub trim_start : Text → Text
unfolding is_whitespace
trim_start [] = []
trim_start (c ∷ s) = let rest = trim_start s in if is_whitespace c then rest else c ∷ s

unfoldable pub trim : Text → Text
unfolding trim_start
trim s = reverse (trim_start (reverse (trim_start s)))

-- `str::len`: the bytes of the UTF-8 form.
unfoldable pub byte_len : Text → ℕ
byte_len [] = 0
byte_len (c ∷ s) =
    (if ltb c 0x80 then 1 else if ltb c 0x800 then 2 else if ltb c 0x10000 then 3 else 4)
    + byte_len s

unfoldable pub is_ascii_lowercase : ℕ → Bool
is_ascii_lowercase c = leb b'a' c && leb c b'z'

unfoldable pub is_ascii_digit : ℕ → Bool
is_ascii_digit c = leb b'0' c && leb c b'9'

unfoldable pub is_ascii_alphanumeric : ℕ → Bool
unfolding is_ascii_lowercase is_ascii_digit
is_ascii_alphanumeric c = is_ascii_lowercase c || is_ascii_digit c || leb b'A' c && leb c b'Z'
