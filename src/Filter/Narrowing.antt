-- ===== src/Filter/Narrowing.antt =====
-- The shared loop keeps exactly the nodes that meet every requirement.
use classicswarm.Prelude.{
  ◌≡◌, ◌≢◌, refl, sym, ◌∙◌, ap, ◌⊎◌, inl, inr, Bool, true, false, ◌&&◌, ◌||◌, List, [], ◌∷◌, Option,
  some, arith, keep, keep-keep, keep_ext, all, In, Bool-cases,
}
use classicswarm.Filter.Outcome.{
  Error, Outcome, ok, err, select, add_candidate, or_error, narrow, ◌>>=◌,
}

module _ {X A : Type 0} (skip : X → Bool) (test : X → A → Option Bool) (error : X → Error)
    (meets : X → A → Bool) (total : (x : X) (n : A) → test x n ≡ some (meets x n)) where
  -- The node meets every requirement that is not skipped.
  unfoldable pub meets_all : List X → A → Bool
  unfolding all
  meets_all xs n = all (λ x. skip x || meets x n) xs

  select-keep : (x : X) (nodes : List A) → select (test x) nodes ≡ some (keep (meets x) nodes)
  unfolding select keep add_candidate
  select-keep x [] = refl
  select-keep x (n ∷ nodes) = ground (arith, total x n, select-keep x nodes)

  -- The outcome: the nodes that meet every requirement, or the error of a requirement that counts
  -- where no node meets them all. There is no panic.
  pub data Narrows (xs : List X) (nodes : List A) : Outcome (List A) → Type 0 where
    all_met :
        (out : List A)
        → out ≡ keep (meets_all xs) nodes
        → (out ≢ []) ⊎ ((all skip xs ≡ true) × (out ≡ nodes))
        → Narrows xs nodes (ok out)
    unmet :
        (x : X)
        → In x xs
        → skip x ≡ false
        → keep (meets_all xs) nodes ≡ []
        → Narrows xs nodes (err (error x))

  keep_all-nil : (nodes : List A) → keep (meets_all []) nodes ≡ nodes
  unfolding keep meets_all
  keep_all-nil [] = refl
  keep_all-nil (n ∷ nodes) = ap (◌∷◌ n) (keep_all-nil nodes)

  keep_skipped :
      (x : X) (xs : List X) (nodes : List A)
      → skip x ≡ true
      → keep (meets_all (x ∷ xs)) nodes ≡ keep (meets_all xs) nodes
  unfolding meets_all
  keep_skipped x xs nodes e =
      keep_ext (meets_all (x ∷ xs)) (meets_all xs) nodes (λ n. rw (e, all) refl)

  keep_counted :
      (x : X) (xs : List X) (nodes : List A)
      → skip x ≡ false
      → keep (meets_all (x ∷ xs)) nodes ≡ keep (meets_all xs) (keep (meets x) nodes)
  unfolding meets_all
  keep_counted x xs nodes e =
      keep_ext (meets_all (x ∷ xs)) (λ n. meets x n && meets_all xs n) nodes (λ n. rw (e, all) refl)
      ∙ sym (keep-keep (meets x) (meets_all xs) nodes)

  skipped-Narrows :
      (x : X) (xs : List X) (nodes : List A) {r : Outcome (List A)}
      → skip x ≡ true
      → Narrows xs nodes r
      → Narrows (x ∷ xs) nodes r
  unfolding all
  skipped-Narrows x xs nodes e (all_met out same empty) =
      all_met out (same ∙ sym (keep_skipped x xs nodes e)) (ground arith)
  skipped-Narrows x xs nodes e (unmet y m counts none_left) =
      unmet y (inr m) counts (keep_skipped x xs nodes e ∙ none_left)

  counted-Narrows :
      (x : X) (xs : List X) (nodes : List A) (c : A) (cs : List A) {r : Outcome (List A)}
      → skip x ≡ false
      → keep (meets x) nodes ≡ c ∷ cs
      → Narrows xs (c ∷ cs) r
      → Narrows (x ∷ xs) nodes r
  counted-Narrows x xs nodes c cs e kept (all_met out same empty) =
      all_met out (same ∙ ap (keep (meets_all xs)) (sym kept) ∙ sym (keep_counted x xs nodes e))
        (inl (some_left out empty))
    where
      some_left : (out : List A) → (out ≢ []) ⊎ ((all skip xs ≡ true) × (out ≡ c ∷ cs)) → out ≢ []
      some_left out (inl h) = h
      some_left out (inr (_, h)) = λ k. cc
  counted-Narrows x xs nodes c cs e kept (unmet y m counts none_left) =
      unmet y (inr m) counts (keep_counted x xs nodes e ∙ ap (keep (meets_all xs)) kept ∙ none_left)

  unmet-Narrows :
      (x : X) (xs : List X) (nodes : List A)
      → skip x ≡ false
      → keep (meets x) nodes ≡ []
      → Narrows (x ∷ xs) nodes (err (error x))
  unfolding keep
  unmet-Narrows x xs nodes e kept =
      unmet x (inl refl) e (keep_counted x xs nodes e ∙ ap (keep (meets_all xs)) kept)

  step-Narrows :
      (x : X) (xs : List X) (nodes : List A) (kept : List A)
      → skip x ≡ false
      → keep (meets x) nodes ≡ kept
      → ((c : A) (cs : List A) → Narrows xs (c ∷ cs) (narrow skip test error xs (c ∷ cs)))
      → Narrows
          (x ∷ xs)
          nodes
          (or_error (error x) (some kept) >>= λ candidates. narrow skip test error xs candidates)
  unfolding or_error
  step-Narrows x xs nodes [] e same ih = unmet-Narrows x xs nodes e same
  step-Narrows x xs nodes (c ∷ cs) e same ih = counted-Narrows x xs nodes c cs e same (ih c cs)

  pub narrow-Narrows :
      (xs : List X) (nodes : List A) → Narrows xs nodes (narrow skip test error xs nodes)
  unfolding narrow all
  narrow-Narrows [] nodes = all_met nodes (sym (keep_all-nil nodes)) (inr (refl, refl))
  narrow-Narrows (x ∷ xs) nodes = elim (Bool-cases (skip x)) [
    | inl e ↦ rw (e, narrow) (skipped-Narrows x xs nodes e (narrow-Narrows xs nodes))
    | inr e ↦
        rw (e, narrow, select-keep x nodes)
          (step-Narrows x xs nodes _ e refl (λ c cs. narrow-Narrows xs (c ∷ cs)))
  ]
