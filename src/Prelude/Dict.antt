-- ===== src/Prelude/Dict.antt =====
-- `BTreeMap<String, V>`: the entries in the order of their keys.
use mathlib.Core.Path.{◌≡◌, refl}
use mathlib.Core.Bool.{Bool, true, false}
use mathlib.Core.Option.{Option, none, some}
use mathlib.Core.List.{List, [], ◌∷◌}
use native.Mathlib.Omega.{arith}
use magpie.Prelude.Tests.{if◌then◌else◌}
use magpie.Prelude.Strings.{Text, text_eq, text_eq_iff, text_lt}

abbrev pub Dict : Type 0 → Type 0
Dict V = List (Text × V)

module _ {V : Type 0} where
  unfoldable pub get : Text → Dict V → Option V
  get k [] = none
  get k ((j, v) ∷ m) = if text_eq j k then some v else get k m

  unfoldable pub insert : Text → V → Dict V → Dict V
  insert k v [] = (k, v) ∷ []
  insert k v ((j, w) ∷ m) =
      let later = insert k v m in
      if text_eq j k
      then (k, v) ∷ m
      else if text_lt k j
      then (k, v) ∷ (j, w) ∷ m
      else (j, w) ∷ later

  -- `extend`, and `collect` from the empty map
  unfoldable pub extend : Dict V → List (Text × V) → Dict V
  unfolding insert
  extend m [] = m
  extend m ((k, v) ∷ l) = extend (insert k v m) l

  unfoldable pub contains_key : Text → Dict V → Bool
  contains_key k m = elim (get k m) [ none ↦ false | some _ ↦ true ]

  unfoldable pub remove : Text → Dict V → Dict V
  remove k [] = []
  remove k ((j, v) ∷ m) = let rest = remove k m in if text_eq j k then rest else (j, v) ∷ rest

  pub get-remove :
      (k j : Text) (m : Dict V) → get j (remove k m) ≡ (if text_eq k j then none else get j m)
  unfolding get remove
  get-remove k j [] = ground arith
  get-remove k j ((i, w) ∷ m) =
      ground (arith, text_eq_iff k j, text_eq_iff i k, text_eq_iff i j, get-remove k j m)

  pub get-insert :
      (k j : Text) (v : V) (m : Dict V)
      → get j (insert k v m) ≡ (if text_eq k j then some v else get j m)
  unfolding get insert
  get-insert k j v [] = refl
  get-insert k j v ((i, w) ∷ m) =
      ground (arith, text_eq_iff k j, text_eq_iff i k, text_eq_iff i j, get-insert k j v m)

-- The value that the last entry of a list has for a key: who writes last, wins.
module _ {V : Type 0} where
  unfoldable pub last_of : Text → List (Text × V) → Option V
  last_of k [] = none
  last_of k ((j, v) ∷ l) = elim (last_of k l) [
    | some w ↦ some w
    | none ↦ if text_eq j k then some v else none
  ]

  -- After `extend` a key has its last value of the list, and else the value it had.
  pub get-extend :
      (k : Text) (m : Dict V) (l : List (Text × V))
      → get k (extend m l) ≡ elim (last_of k l) [ some v ↦ some v | none ↦ get k m ]
  unfolding extend last_of
  get-extend k m [] = refl
  get-extend k m ((j, v) ∷ l) = ground (arith, get-extend k (insert j v m) l, get-insert j k v m)

-- No key twice, as in any map.
module _ {V : Type 0} where
  abbrev pub IsUnique : List (Text × V) → Type 0
  IsUnique [] = Unit
  IsUnique ((k, v) ∷ m) = (get k m ≡ none) × IsUnique m

  pub last_of-IsUnique : (k : Text) (m : List (Text × V)) → IsUnique m → last_of k m ≡ get k m
  unfolding last_of get
  last_of-IsUnique k [] u = refl
  last_of-IsUnique k ((j, v) ∷ m) (fresh, u) =
      ground (arith, text_eq_iff j k, last_of-IsUnique k m u)
