-- ===== src/Prelude/Lists.antt =====
-- Lists measured by native numbers, Boolean searches over lists, and what filtering keeps.
use Prim.Native.Nat.{ℕ, zero, suc, ◌+◌, ◌≤◌}
use mathlib.Core.Path.{◌≡◌, refl}
use mathlib.Core.Logic.{◌⊎◌, inl, inr}
use mathlib.Core.Bool.{Bool, true, false, ◌&&◌, ◌||◌}
use mathlib.Core.List.{List, [], ◌∷◌, ◌++◌}
use mathlib.Core.Option.{Option, none, some}
use native.Mathlib.Omega.{arith}
use classicswarm.Prelude.Tests.{if◌then◌else◌, Bool-cases}

module _ {ℓ} {A : Type ℓ} where
  abbrev pub length : List A → ℕ
  length [] = 0
  length (x ∷ xs) = suc (length xs)

  abbrev pub get_elem? : List A → ℕ → Option A
  get_elem? [] i = none
  get_elem? (x ∷ xs) zero = some x
  get_elem? (x ∷ xs) (suc i) = get_elem? xs i

  -- A write out of bounds changes nothing.
  abbrev pub set : List A → ℕ → A → List A
  set [] i v = []
  set (x ∷ xs) zero v = v ∷ xs
  set (x ∷ xs) (suc i) v = x ∷ set xs i v

  -- The elements that pass a test, in order: the loop `for … { if p(x) { out = append(out, x) } }`.
  unfoldable pub keep : (A → Bool) → List A → List A
  keep p [] = []
  keep p (x ∷ xs) = if p x then x ∷ keep p xs else keep p xs

  unfoldable pub any : (A → Bool) → List A → Bool
  any p [] = false
  any p (x ∷ xs) = p x || any p xs

  unfoldable pub all : (A → Bool) → List A → Bool
  all p [] = true
  all p (x ∷ xs) = p x && all p xs

  -- The first element that passes a test.
  unfoldable pub find_first : (A → Bool) → List A → Option A
  find_first p [] = none
  find_first p (x ∷ xs) = if p x then some x else find_first p xs

  unfoldable pub is_empty : List A → Bool
  is_empty [] = true
  is_empty (x ∷ xs) = false

-- Membership by recursion, which the tactics take apart.
abbrev pub In : {A : Type 0} → A → List A → Type 0
In a [] = ⊥
In a (x ∷ xs) = (a ≡ x) ⊎ In a xs

module _ {ℓ} {A : Type ℓ} where
  abbrev pub Every {κ} : (A → Type κ) → List A → Type κ
  Every P [] = Unit
  Every P (x ∷ xs) = P x × Every P xs

  pub length-append : (xs ys : List A) → length (xs ++ ys) ≡ length xs + length ys
  length-append [] ys = omega arith
  length-append (x ∷ xs) ys = omega (arith, length-append xs ys)

  pub nil_of_append : (xs ys : List A) → [] ≡ xs ++ ys → xs ≡ []
  nil_of_append [] ys h = refl
  nil_of_append (x ∷ xs) ys h = cc

  pub length-keep-le : (p : A → Bool) (xs : List A) → length (keep p xs) ≤ length xs
  unfolding keep
  length-keep-le p [] = omega arith
  length-keep-le p (x ∷ xs) = ground (arith, length-keep-le p xs)

  pub keep-append : (p : A → Bool) (xs ys : List A) → keep p (xs ++ ys) ≡ keep p xs ++ keep p ys
  unfolding keep
  keep-append p [] ys = refl
  keep-append p (x ∷ xs) ys = ground (arith, keep-append p xs ys)

  pub keep_ext : (p q : A → Bool) (xs : List A) → ((x : A) → p x ≡ q x) → keep p xs ≡ keep q xs
  unfolding keep
  keep_ext p q [] h = refl
  keep_ext p q (x ∷ xs) h = ground (arith, h x, keep_ext p q xs h)

  pub all_mono :
      (p q : A → Bool) (xs : List A)
      → ((x : A) → p x ≡ true → q x ≡ true)
      → all p xs ≡ true
      → all q xs ≡ true
  unfolding all
  all_mono p q [] h e = refl
  all_mono p q (x ∷ xs) h e = ground (arith, h x, all_mono p q xs h)

  -- Filtering twice is filtering by both tests.
  pub keep-keep : (p q : A → Bool) (xs : List A) → keep q (keep p xs) ≡ keep (λ x. p x && q x) xs
  unfolding keep
  keep-keep p q [] = refl
  keep-keep p q (x ∷ xs) = ground (arith, keep-keep p q xs)

module _ {A : Type 0} where
  pub In-keep : (p : A → Bool) (a : A) (xs : List A) → In a (keep p xs) → In a xs × (p a ≡ true)
  unfolding keep
  In-keep p a [] m = elim m [ ]
  In-keep p a (x ∷ xs) m = ground (arith, In-keep p a xs)

  pub In-keep_of : (p : A → Bool) (a : A) (xs : List A) → In a xs → p a ≡ true → In a (keep p xs)
  unfolding keep
  In-keep_of p a [] m h = elim m [ ]
  In-keep_of p a (x ∷ xs) m h = ground (arith, In-keep_of p a xs)

  -- What a search finds passes the test and is in the list; where it finds nothing, nothing passes.
  pub find_first-some :
      (p : A → Bool) (a : A) (xs : List A) → find_first p xs ≡ some a → In a xs × (p a ≡ true)
  unfolding find_first
  find_first-some p a [] h = cc
  find_first-some p a (x ∷ xs) h = ground (arith, find_first-some p a xs)

  pub find_first-none :
      (p : A → Bool) (a : A) (xs : List A) → find_first p xs ≡ none → In a xs → p a ≡ false
  unfolding find_first
  find_first-none p a [] h m = elim m [ ]
  find_first-none p a (x ∷ xs) h m = ground (arith, find_first-none p a xs)

  pub any_some : (p : A → Bool) (xs : List A) → any p xs ≡ true → (a : A) × In a xs × (p a ≡ true)
  unfolding any
  any_some p [] h = cc
  any_some p (x ∷ xs) h = elim (Bool-cases (p x)) [
    | inl e ↦ (x, inl refl, e)
    | inr e ↦ let (a, m, f) = any_some p xs (rw e at h) in (a, inr m, f)
  ]

  pub any_of : (p : A → Bool) (a : A) (xs : List A) → In a xs → p a ≡ true → any p xs ≡ true
  unfolding any
  any_of p a [] m h = elim m [ ]
  any_of p a (x ∷ xs) m h = ground (arith, any_of p a xs)

  pub all_of : (p : A → Bool) (a : A) (xs : List A) → all p xs ≡ true → In a xs → p a ≡ true
  unfolding all
  all_of p a [] h m = elim m [ ]
  all_of p a (x ∷ xs) h m = ground (arith, all_of p a xs)

  pub Every-keep :
      (P : A → Type 0) (p : A → Bool) (xs : List A)
      → Every P xs
      → Every (λ a. P a × (p a ≡ true)) (keep p xs)
  unfolding keep
  Every-keep P p [] h = tt
  Every-keep P p (x ∷ xs) h = elim (Bool-cases (p x)) [
    | inl e ↦ rw (e, keep) ((h.0, e), Every-keep P p xs h.1)
    | inr e ↦ rw (e, keep) (Every-keep P p xs h.1)
  ]
