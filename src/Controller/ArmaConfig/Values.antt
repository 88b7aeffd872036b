-- ===== src/Controller/ArmaConfig/Values.antt =====
-- Single values of the merged configuration, and the placeholders in them.
use magpie.Prelude.{
  ℕ, Bool, true, false, not, ◌||◌, Option, none, some, List, [], ◌∷◌, ◌++◌, map, Text, codes,
  text_eq, is_empty, trim, split, split_once, join, replace, keep, parse_i64, ◌==◌, if◌then◌else◌,
}
use magpie.Prelude.Dict.{Dict, get}
use magpie.Prelude.Int.{ℤ}

-- What the standard library brings: the Unicode case tables, the text of a UTF-8 error, and f64
-- with its parser and its printer.
pub record Platform : Type 1 where
  pub to_uppercase : ℕ → Text
  pub utf8_error : List ℕ → Text
  pub Float : Type 0
  pub parse_f64 : Text → Option Float
  pub show_f64 : Float → Text

infixl 5 ◌>>=◌
-- `and_then`, and `?` in a function that returns an `Option`
abbrev pub ◌>>=◌ {ℓ κ} : {A : Type ℓ} {B : Type κ} → Option A → (A → Option B) → Option B
none >>= k = none
some a >>= k = k a

-- `str::parse::<bool>`
unfoldable pub bool_of : Text → Option Bool
bool_of v =
    if text_eq v (codes "true")
    then some true
    else if text_eq v (codes "false")
    then some false
    else none

unfoldable pub parse_bool : Dict Text → Text → Option Bool
unfolding bool_of
parse_bool m key = do v ← get key m; bool_of (trim v)

unfoldable pub parse_num : Dict Text → Text → Option ℤ
parse_num m key = do v ← get key m; parse_i64 (trim v)

unfoldable pub parse_float : (p : Platform) → Dict Text → Text → Option p.Float
parse_float p m key = do v ← get key m; p.parse_f64 (trim v)

-- the items of a comma-separated value
abbrev items : Text → List Text
items v = keep (λ s. not (is_empty s)) (map trim (split (λ c. c == b',') v))

unfoldable pub parse_list : Dict Text → Text → List Text
parse_list m key = elim (get key m) [ none ↦ [] | some v ↦ items v ]

-- one `<level>:<seconds>`
pair_of : Text → Option (ℤ × ℤ)
pair_of pair = do
  (a, b) ← split_once b':' (trim pair)
  level ← parse_i64 (trim a)
  seconds ← parse_i64 (trim b)
  some (level, seconds)

-- `filter_map`
abbrev pub filter_map {ℓ κ} : {A : Type ℓ} {B : Type κ} → (A → Option B) → List A → List B
filter_map f [] = []
filter_map f (x ∷ xs) = let rest = filter_map f xs in elim (f x) [ none ↦ rest | some y ↦ y ∷ rest ]

unfoldable pub parse_pairs : Dict Text → Text → Option (List (ℤ × ℤ))
unfolding pair_of
parse_pairs m key = do raw ← get key m; some (filter_map pair_of (split (λ c. c == b',') raw))

-- the first character of a word in upper case
capitalize : (ℕ → Text) → Text → Text
capitalize to_uppercase [] = []
capitalize to_uppercase (c ∷ w) = to_uppercase c ++ w

unfoldable pub title_case : Platform → Text → Text
unfolding capitalize
title_case p name = join (codes " ") (
    map (capitalize p.to_uppercase)
      (keep (λ w. not (is_empty w)) (split (λ c. c == b'-' || c == b'_') name)))

unfoldable pub substitute_simple : Platform → Text → Text → Text → Text → Text
unfolding title_case
substitute_simple p value server_name pre suf = replace (codes "{{suffix}}") suf (
    replace (codes "{{prefix}}") pre
      (replace (codes "{{server_name}}") (title_case p server_name) value))
