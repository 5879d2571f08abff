-- ===== src/Prelude/Perms.antt =====
-- What a permutation keeps of a list.
use Prim.Native.Nat.{ℕ, zero, suc, ◌<◌}
use mathlib.Core.Path.{◌≡◌, refl, sym, ap, subst}
use mathlib.Core.Logic.{inl, inr, ∥∥₁_elim}
use mathlib.Core.Option.{some}
use mathlib.Core.List.Perm
use native.Mathlib.Omega.{arith}
use mathlib.Core.HLevel.{×_prop}
use mathlib.Core.List.{List, [], ◌∷◌, Perm, Permᴰ, Mem, mem-cons_self, mem-cons_of_mem}
use classicswarm.Prelude.Lists.{Every, In, length, get_elem?, set}

module _ {A : Type 0} (P : A → Type 0) (prop : (a : A) → IsProp (P a)) where
  Every-prop : (xs : List A) → IsProp (Every P xs)
  Every-prop [] = hlevel
  Every-prop (x ∷ xs) = ×_prop (prop x) (Every-prop xs)

  Every-permᴰ : {xs ys : List A} → Permᴰ xs ys → Every P xs → Every P ys
  Every-permᴰ Permᴰ.nil h = tt
  Every-permᴰ (Permᴰ.cons e p) h = (subst P e h.0, Every-permᴰ p h.1)
  Every-permᴰ (Permᴰ.swap e f) h = (subst P f h.1.0, (subst P e h.0, h.1.1))
  Every-permᴰ (Permᴰ.trans p q) h = Every-permᴰ q (Every-permᴰ p h)

  pub Every-perm : {xs ys : List A} → Perm xs ys → Every P xs → Every P ys
  Every-perm {ys} p h = ∥∥₁_elim p (Every-prop ys) (λ d. Every-permᴰ d h)

-- A membership of the library from one by recursion, and a predicate from its members.
pub Mem_of_In : {A : Type 0} (a : A) (xs : List A) → In a xs → Mem a xs
Mem_of_In a [] m = elim m [ ]
Mem_of_In a (x ∷ xs) (inl e) = subst (λ y. Mem y (x ∷ xs)) (sym e) mem-cons_self
Mem_of_In a (x ∷ xs) (inr m) = mem-cons_of_mem x (Mem_of_In a xs m)

pub Every_of_In :
    {A : Type 0} (P : A → Type 0) (xs : List A) → ((a : A) → In a xs → P a) → Every P xs
Every_of_In P [] h = tt
Every_of_In P (x ∷ xs) h = (h x (inl refl), Every_of_In P xs (λ a m. h a (inr m)))

module _ {A : Type 0} where
  -- Writing `v` over `u`.
  set-perm :
      (xs : List A) (i : ℕ) (u v : A) → get_elem? xs i ≡ some u → Perm (u ∷ set xs i v) (v ∷ xs)
  set-perm [] i u v e = cc
  set-perm (x ∷ xs) zero u v e =
      let same : u ≡ x = cc in
      subst (λ y. Perm (y ∷ v ∷ xs) (v ∷ x ∷ xs)) (sym same) (Perm.swap v x xs)
  set-perm (x ∷ xs) (suc i) u v e =
      Perm.trans (Perm.swap x u (set xs i v))
        (Perm.trans (Perm.cons x (set-perm xs i u v e)) (Perm.swap v x xs))

  get_elem?-set :
      (xs : List A) (i j : ℕ) (u v : A)
      → get_elem? xs i ≡ some u
      → get_elem? xs j ≡ some v
      → get_elem? (set xs i v) j ≡ some v
  get_elem?-set [] i j u v e f = cc
  get_elem?-set (x ∷ xs) zero zero u v e f = refl
  get_elem?-set (x ∷ xs) zero (suc j) u v e f = f
  get_elem?-set (x ∷ xs) (suc i) zero u v e f = f
  get_elem?-set (x ∷ xs) (suc i) (suc j) u v e f = get_elem?-set xs i j u v e f

  -- Two elements change places.
  pub swap-perm :
      (xs : List A) (i j : ℕ) (u v : A)
      → get_elem? xs i ≡ some u
      → get_elem? xs j ≡ some v
      → Perm (set (set xs i v) j u) xs
  swap-perm xs i j u v e f = Perm.cons_inv (
      Perm.trans (set-perm (set xs i v) j v u (get_elem?-set xs i j u v e f)) (set-perm xs i u v e))

  pub get_elem?-some : (xs : List A) (i : ℕ) → i < length xs → (a : A) × (get_elem? xs i ≡ some a)
  get_elem?-some [] i h = elim h [ ]
  get_elem?-some (x ∷ xs) zero h = (x, refl)
  get_elem?-some (x ∷ xs) (suc i) h = get_elem?-some xs i (omega arith)

  pub length-set : (xs : List A) (i : ℕ) (v : A) → length (set xs i v) ≡ length xs
  length-set [] i v = refl
  length-set (x ∷ xs) zero v = refl
  length-set (x ∷ xs) (suc i) v = ap suc (length-set xs i v)
