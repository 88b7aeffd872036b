-- ===== src/Prelude/Sorted.antt =====
-- The entries of a `BTreeMap` stand in the order of their keys, so that no key is there twice.
use mathlib.Core.Path.{◌≡◌, refl, subst}
use mathlib.Core.Bool.{true, false}
use mathlib.Core.Option.{none}
use mathlib.Core.List.{[], ◌∷◌}
use mathlib.Core.Logic.{inl, inr}
use native.Mathlib.Omega.{arith}
use magpie.Prelude.Tests.{Bool-cases}
use magpie.Prelude.Strings.{Text, text_eq, text_eq_iff, text_lt}
use magpie.Prelude.Dict.{Dict, get, insert, IsUnique}

text_lt_irrefl : (s : Text) → text_lt s s ≡ false
unfolding text_lt
text_lt_irrefl [] = refl
text_lt_irrefl (x ∷ s) = ground (arith, text_lt_irrefl s)

text_lt_trans : (s t u : Text) → text_lt s t ≡ true → text_lt t u ≡ true → text_lt s u ≡ true
unfolding text_lt
text_lt_trans [] [] u h k = absurd (ground arith)
text_lt_trans [] (y ∷ t) [] h k = absurd (ground arith)
text_lt_trans [] (y ∷ t) (z ∷ u) h k = refl
text_lt_trans (x ∷ s) [] u h k = absurd (ground arith)
text_lt_trans (x ∷ s) (y ∷ t) [] h k = absurd (ground arith)
text_lt_trans (x ∷ s) (y ∷ t) (z ∷ u) h k = ground (arith, text_lt_trans s t u)

text_lt_total : (s t : Text) → text_eq s t ≡ false → text_lt t s ≡ false → text_lt s t ≡ true
unfolding text_lt text_eq
text_lt_total [] [] h k = absurd (ground arith)
text_lt_total [] (y ∷ t) h k = refl
text_lt_total (x ∷ s) [] h k = absurd (ground arith)
text_lt_total (x ∷ s) (y ∷ t) h k = ground (arith, text_lt_total s t)

module _ {V : Type 0} where
  -- every key stands above `k`
  abbrev pub IsAbove : Text → Dict V → Type 0
  IsAbove k [] = Unit
  IsAbove k ((j, v) ∷ m) = (text_lt k j ≡ true) × IsAbove k m

  abbrev pub IsSorted : Dict V → Type 0
  IsSorted [] = Unit
  IsSorted ((k, v) ∷ m) = IsAbove k m × IsSorted m

  IsAbove-trans : (k j : Text) (m : Dict V) → text_lt k j ≡ true → IsAbove j m → IsAbove k m
  IsAbove-trans k j [] h a = tt
  IsAbove-trans k j ((i, v) ∷ m) h (below, a) =
      (text_lt_trans k j i h below, IsAbove-trans k j m h a)

  insert-IsAbove :
      (k j : Text) (v : V) (m : Dict V)
      → text_lt j k ≡ true
      → IsAbove j m
      → IsAbove j (insert k v m)
  unfolding insert
  insert-IsAbove k j v [] h a = (h, tt)
  insert-IsAbove k j v ((i, w) ∷ m) h (below, a) = elim (Bool-cases (text_eq i k)) [
    | inl same ↦ rw (same, insert, IsAbove) (h, a)
    | inr differs ↦ elim (Bool-cases (text_lt k i)) [
      | inl lt ↦ rw (differs, lt, insert, IsAbove) (h, (below, a))
      | inr ge ↦ rw (differs, ge, insert, IsAbove) (below, insert-IsAbove k j v m h a)
    ]
  ]

  pub insert-IsSorted : (k : Text) (v : V) (m : Dict V) → IsSorted m → IsSorted (insert k v m)
  unfolding insert
  insert-IsSorted k v [] s = (tt, tt)
  insert-IsSorted k v ((j, w) ∷ m) (above, s) = elim (Bool-cases (text_eq j k)) [
    | inl same ↦
        rw (same, insert, IsSorted) (subst (λ i. IsAbove i m) ((text_eq_iff j k).0 same) above, s)
    | inr differs ↦ elim (Bool-cases (text_lt k j)) [
      | inl lt ↦ rw (differs, lt, insert, IsSorted) ((lt, IsAbove-trans k j m lt above), (above, s))
      | inr ge ↦
          rw (differs, ge, insert, IsSorted)
            (insert-IsAbove k j v m (text_lt_total j k differs ge) above, insert-IsSorted k v m s)
    ]
  ]

  get-IsAbove : (k : Text) (m : Dict V) → IsAbove k m → get k m ≡ none
  unfolding get
  get-IsAbove k [] a = refl
  get-IsAbove k ((j, v) ∷ m) (below, a) = elim (Bool-cases (text_eq j k)) [
    | inl same ↦ absurd (
        let e = (text_eq_iff j k).0 same in
        let loop = text_lt_irrefl k in
        let up = subst (λ i. text_lt k i ≡ true) e below in ground arith)
    | inr differs ↦ rw differs (get-IsAbove k m a)
  ]

  pub IsSorted-IsUnique : (m : Dict V) → IsSorted m → IsUnique m
  IsSorted-IsUnique [] s = tt
  IsSorted-IsUnique ((k, v) ∷ m) (above, s) = (get-IsAbove k m above, IsSorted-IsUnique m s)
