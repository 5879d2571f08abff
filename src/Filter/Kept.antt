-- ===== src/Filter/Kept.antt =====
-- What a filter keeps, said of predicates in place of tests: which nodes meet the requirements that
-- count.
use classicswarm.Prelude.{
  ◌≡◌, ◌≢◌, refl, sym, subst, ◌⊎◌, inl, inr, ◌↔◌, Bool, true, false, List, [], ◌∷◌, Option, some,
  arith, keep, all, In, In-keep_of, Bool-cases,
}
use classicswarm.Filter.Outcome.{Error, Outcome, ok, err}
use classicswarm.Filter.Narrowing.{meets_all, Narrows, all_met, unmet}

-- The outcome for the requirements `Asked`, each of which a node meets if `Meets`: the nodes, in the
-- given order, that meet them all; or the error of one of them where no node does. There is no
-- panic. Without any requirement the nodes are returned as they are, even if there are none.
pub data Kept {X A : Type 0} (Asked : X → Type 0) (Meets : X → A → Type 0) (error : X → Error)
    (nodes : List A) : Outcome (List A) → Type 0 where
  kept :
      (out : List A) (p : A → Bool)
      → out ≡ keep p nodes
      → ((n : A) → (p n ≡ true) ↔ ((x : X) → Asked x → Meets x n))
      → (out ≢ []) ⊎ (((x : X) → ¬ (Asked x)) × (out ≡ nodes))
      → Kept Asked Meets error nodes (ok out)
  none_kept :
      (x : X)
      → Asked x
      → ((n : A) → In n nodes → ¬ ((y : X) → Asked y → Meets y n))
      → Kept Asked Meets error nodes (err (error x))

module _ {X A : Type 0} (skip : X → Bool) (test : X → A → Option Bool) (error : X → Error)
    (meets : X → A → Bool) (total : (x : X) (n : A) → test x n ≡ some (meets x n)) where
  meets_all_lem :
      (xs : List X) (n : A)
      → (meets_all skip test error meets total xs n ≡ true)
        ↔ ((x : X) → In x xs → skip x ≡ false → meets x n ≡ true)
  unfolding meets_all all
  meets_all_lem [] n = (λ h x i. absurd i, λ h. refl)
  meets_all_lem (x ∷ xs) n =
      let rest = meets_all_lem xs n in
      (
        λ h y i s. elim i [
          | inl e ↦ subst (λ z. meets z n ≡ true) (sym e) (ground arith)
          | inr j ↦ rest.0 (ground arith) y j s
        ],
        λ h.
            let tail = rest.1 (λ y j. h y (inr j)) in
            elim (Bool-cases (skip x)) [
              | inl e ↦ rw (e, tail) refl
              | inr e ↦ rw (e, h x (inl refl) e, tail) refl
            ],
      )

  all_skipped : (xs : List X) → all skip xs ≡ true → (x : X) → In x xs → skip x ≡ true
  unfolding all
  all_skipped [] h x i = absurd i
  all_skipped (y ∷ xs) h x (inl e) = rw e (ground arith)
  all_skipped (y ∷ xs) h x (inr i) = all_skipped xs (ground arith) x i

  module _ (Asked : X → Type 0) (Meets : X → A → Type 0) (xs : List X)
      (asked : (x : X) → Asked x ↔ (In x xs × (skip x ≡ false)))
      (met : (x : X) (n : A) → (meets x n ≡ true) ↔ Meets x n) where
    meets_all_iff :
        (n : A)
        → (meets_all skip test error meets total xs n ≡ true) ↔ ((x : X) → Asked x → Meets x n)
    meets_all_iff n =
        let both = meets_all_lem xs n in
        (
          λ h x a. let (i, s) = (asked x).0 a in (met x n).0 (both.0 h x i s),
          λ h. both.1 (λ x i s. (met x n).1 (h x ((asked x).1 (i, s)))),
        )

    pub Narrows-Kept :
        (nodes : List A) (r : Outcome (List A))
        → Narrows skip test error meets total xs nodes r
        → Kept Asked Meets error nodes r
    Narrows-Kept nodes _ (all_met out same why) =
        kept out (meets_all skip test error meets total xs) same meets_all_iff (reason why)
      where
        reason :
            (out ≢ []) ⊎ ((all skip xs ≡ true) × (out ≡ nodes))
            → (out ≢ []) ⊎ (((x : X) → ¬ (Asked x)) × (out ≡ nodes))
        reason (inl h) = inl h
        reason (inr (h, e)) = inr (
          λ x a.
              let (i, s) = (asked x).0 a in let t = all_skipped xs h x i in absurd (ground arith),
          e,
        )
    Narrows-Kept nodes _ (unmet x i counts none_left) =
        none_kept x ((asked x).1 (i, counts)) (λ n j h.
          let m : In n [] = subst (In n) none_left (
            In-keep_of (meets_all skip test error meets total xs) n nodes j
              ((meets_all_iff n).1 h)) in
          m)
