-- ===== src/Builds/Leaving.antt =====
-- A routine that stops waiting for a build, and the last one, with which the entry is deleted.
use classicswarm.Prelude.{
  ℕ, ◌-◌, ◌<◌, ◌==◌, ◌≡◌, ◌∙◌, true, false, List, ◌∷◌, ◌++◌, some, arith, if◌then◌else◌, inl, inr,
  Bool-cases,
}
use classicswarm.Text.{Str, str_eq}
use classicswarm.Text.Laws.{str_eq_iff, str_eq_refl}
use classicswarm.Assoc.{Assoc, lookup, delete}
use classicswarm.Assoc.Laws.{lookup-delete}
use classicswarm.Builds.{WaitRefCounter}
use classicswarm.Builds.Waiters.{
  waiting_for, waiting_for-middle, waiting_for_of_In, In-of_append, In-middle, same_counter,
  IsCounted,
}

entry-delete :
    (id j : Str) (p : ℕ) (q : Assoc ℕ)
    → lookup j (delete id q) ≡ some p
    → (str_eq id j ≡ false) × (lookup j q ≡ some p)
entry-delete id j p q h = elim (Bool-cases (str_eq id j)) [
  | inl e ↦ let k = lookup-delete id j q in absurd (ground arith)
  | inr e ↦ (e, let k = lookup-delete id j q in ground arith)
]

module _ (q : Assoc ℕ) (cs ds : ℕ → WaitRefCounter) (next : ℕ) (us vs : List (Str × ℕ)) (id : Str)
    (r : ℕ) (less : (ds r).count ≡ (cs r).count - 1)
    (same : (p : ℕ) → (p == r) ≡ false → (ds p).count ≡ (cs p).count)
    (i : IsCounted q cs next (us ++ (id, r) ∷ vs)) where
  mine : lookup id q ≡ some r
  mine = i.held id r (In-middle (id, r) us vs)

  others_left :
      (j : Str) (p : ℕ)
      → str_eq id j ≡ false
      → lookup j q ≡ some p
      → ((ds p).count ≡ waiting_for j (us ++ vs)) × (0 < waiting_for j (us ++ vs))
  others_left j p e h =
      let apart = same_counter q cs next (us ++ (id, r) ∷ vs) id j r p mine h i in
      let m = waiting_for-middle j id r us vs in
      let c = i.counted j p h in
      let w = i.wanted j p h in let d = same p (apart ∙ e) in (ground arith, ground arith)

  last-IsCounted : ((cs r).count - 1 == 0) ≡ true → IsCounted (delete id q) ds next (us ++ vs)
  last-IsCounted e =
      let k = i.counted id r mine in
      let m = waiting_for-middle id id r us vs in
      let nobody : waiting_for id (us ++ vs) ≡ 0 = ground (arith, str_eq_refl id) in
      record {
        held = λ j p n.
            let h = i.held j p (In-of_append (j, p) (id, r) us vs n) in
            let w = waiting_for_of_In j p (us ++ vs) n in
            ground (arith, lookup-delete id j q, str_eq_iff id j);
        counted = λ j p h. let (f, g) = entry-delete id j p q h in (others_left j p f g).0;
        wanted = λ j p h. let (f, g) = entry-delete id j p q h in (others_left j p f g).1;
        below = λ j p h. let (f, g) = entry-delete id j p q h in i.below j p g;
        distinct =
            λ j k p h g. i.distinct j k p (entry-delete id j p q h).1 (entry-delete id k p q g).1;
      }

  left_at :
      ((cs r).count - 1 == 0) ≡ false
      → (j : Str) (p : ℕ) → lookup j q ≡ some p
      → ((ds p).count ≡ waiting_for j (us ++ vs)) × (0 < waiting_for j (us ++ vs))
  left_at e j p h = elim (Bool-cases (str_eq id j)) [
    | inr f ↦ others_left j p f h
    | inl f ↦
        let apart = same_counter q cs next (us ++ (id, r) ∷ vs) id j r p mine h i in
        let m = waiting_for-middle j id r us vs in
        let c = i.counted j p h in
        let w = i.wanted j p h in
        let s : p ≡ r = ground arith in (rw s (less ∙ ground arith), ground arith)
  ]

  other-IsCounted : ((cs r).count - 1 == 0) ≡ false → IsCounted q ds next (us ++ vs)
  other-IsCounted e = record {
    held = λ j p n. i.held j p (In-of_append (j, p) (id, r) us vs n);
    counted = λ j p h. (left_at e j p h).0;
    wanted = λ j p h. (left_at e j p h).1;
    below = i.below;
    distinct = i.distinct;
  }

  pub leave-IsCounted :
      IsCounted (if (cs r).count - 1 == 0 then delete id q else q) ds next (us ++ vs)
  leave-IsCounted = elim (Bool-cases ((cs r).count - 1 == 0)) [
    | inl e ↦ rw e (last-IsCounted e)
    | inr e ↦ rw e (other-IsCounted e)
  ]
