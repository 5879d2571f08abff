-- ===== src/Strategy/Sorting.antt =====
-- The contract of sort.Sort that the strategies rely on, and a sort that meets it. The order of
-- elements neither of which is less is left open, as sort.Sort leaves it.
use mathlib.Core.List.{Perm}
use mathlib.Core.List.Perm
use classicswarm.Prelude.{
  ◌≡◌, inl, inr, Bool, true, false, List, [], ◌∷◌, arith, Every, if◌then◌else◌, Bool-cases,
}

-- A strict weak order, as a test.
pub record IsStrictWeak {A : Type 0} (less : A → A → Bool) : Type 0 where
  pub asymmetric : (a b : A) → less a b ≡ true → less b a ≡ false
  pub negatively_transitive : (a b c : A) → less b a ≡ false → less c b ≡ false → less c a ≡ false

-- No later element is less than an earlier one.
abbrev pub IsSorted : {A : Type 0} → (A → A → Bool) → List A → Type 0
IsSorted less [] = Unit
IsSorted less (x ∷ xs) = Every (λ y. less y x ≡ false) xs × IsSorted less xs

pub record Sorter (A : Type 0) : Type 0 where
  pub sort : (A → A → Bool) → List A → List A
  pub sort-perm : (less : A → A → Bool) (xs : List A) → Perm (sort less xs) xs
  pub sort-IsSorted :
      (less : A → A → Bool) → IsStrictWeak less → (xs : List A) → IsSorted less (sort less xs)

module _ {A : Type 0} (less : A → A → Bool) where
  unfoldable pub place : A → List A → List A
  place a [] = a ∷ []
  place a (x ∷ xs) = if less x a then x ∷ place a xs else a ∷ x ∷ xs

  unfoldable pub insertion_sort : List A → List A
  unfolding place
  insertion_sort [] = []
  insertion_sort (x ∷ xs) = place x (insertion_sort xs)

  place-perm : (a : A) (xs : List A) → Perm (place a xs) (a ∷ xs)
  unfolding place
  place-perm a [] = Perm.rfl
  place-perm a (x ∷ xs) = elim (Bool-cases (less x a)) [
    | inl h ↦ rw (h, place) (Perm.trans (Perm.cons x (place-perm a xs)) (Perm.swap a x xs))
    | inr h ↦ rw (h, place) Perm.rfl
  ]

  pub insertion_sort-perm : (xs : List A) → Perm (insertion_sort xs) xs
  unfolding insertion_sort
  insertion_sort-perm [] = Perm.rfl
  insertion_sort-perm (x ∷ xs) =
      Perm.trans (place-perm x (insertion_sort xs)) (Perm.cons x (insertion_sort-perm xs))

module _ {A : Type 0} (less : A → A → Bool) (weak : IsStrictWeak less) where
  above_mono :
      (a b : A) (xs : List A)
      → less b a ≡ false
      → Every (λ y. less y b ≡ false) xs
      → Every (λ y. less y a ≡ false) xs
  above_mono a b [] h e = tt
  above_mono a b (x ∷ xs) h e = (weak.negatively_transitive a b x h e.0, above_mono a b xs h e.1)

  above-place :
      (b a : A) (xs : List A)
      → less a b ≡ false
      → Every (λ y. less y b ≡ false) xs
      → Every (λ y. less y b ≡ false) (place less a xs)
  unfolding place
  above-place b a [] h e = (h, tt)
  above-place b a (x ∷ xs) h e = ground (arith, above-place b a xs h e.1)

  place-IsSorted : (a : A) (xs : List A) → IsSorted less xs → IsSorted less (place less a xs)
  unfolding place
  place-IsSorted a [] s = (tt, tt)
  place-IsSorted a (x ∷ xs) s = elim (Bool-cases (less x a)) [
    | inl h ↦
        rw (h, place) (above-place x a xs (weak.asymmetric x a h) s.0, place-IsSorted a xs s.1)
    | inr h ↦ rw (h, place) ((h, above_mono a x xs h s.0), s)
  ]

  pub insertion_sort-IsSorted : (xs : List A) → IsSorted less (insertion_sort less xs)
  unfolding insertion_sort
  insertion_sort-IsSorted [] = tt
  insertion_sort-IsSorted (x ∷ xs) = place-IsSorted x _ (insertion_sort-IsSorted xs)

unfoldable pub insertion_sorter : {A : Type 0} → Sorter A
unfolding insertion_sort
insertion_sorter = record {
  sort = insertion_sort;
  sort-perm = insertion_sort-perm;
  sort-IsSorted = λ less weak xs. insertion_sort-IsSorted less weak xs;
}
