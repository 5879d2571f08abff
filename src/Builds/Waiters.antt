-- ===== src/Builds/Waiters.antt =====
-- The routines that wait for builds and sessions, and that the tables count them.
use classicswarm.Prelude.{
  ℕ, suc, ◌+◌, ◌≤◌, ◌<◌, ◌==◌, ◌≡◌, refl, sym, ◌∙◌, ap, ◌⊎◌, inl, inr, true, false, List, [], ◌∷◌,
  ◌++◌, none, some, arith, In, if◌then◌else◌, ltb, ltb→lt, Bool-cases,
}
use classicswarm.Text.{Str, str_eq}
use classicswarm.Text.Laws.{str_eq→eq, str_eq_iff}
use classicswarm.Assoc.{Assoc, lookup, insert}
use classicswarm.Assoc.Laws.{lookup-insert}
use classicswarm.Builds.{WaitRefCounter, write}

-- How many of the routines, each with its ID and its object, wait for an ID.
unfoldable pub waiting_for : Str → List (Str × ℕ) → ℕ
unfolding str_eq
waiting_for id [] = 0
waiting_for id ((j, r) ∷ ws) = if str_eq j id then suc (waiting_for id ws) else waiting_for id ws

pub waiting_for-append :
    (id : Str) (us ws : List (Str × ℕ))
    → waiting_for id (us ++ ws) ≡ waiting_for id us + waiting_for id ws
unfolding waiting_for
waiting_for-append id [] ws = omega arith
waiting_for-append id ((j, r) ∷ us) ws = ground (arith, waiting_for-append id us ws)

pub waiting_for_of_In :
    (id : Str) (r : ℕ) (ws : List (Str × ℕ)) → In (id, r) ws → 0 < waiting_for id ws
unfolding waiting_for
waiting_for_of_In id r [] i = absurd i
waiting_for_of_In id r ((j, q) ∷ ws) (inl e) = ground (arith, str_eq_iff j id)
waiting_for_of_In id r ((j, q) ∷ ws) (inr i) = ground (arith, waiting_for_of_In id r ws i)

pub In-of_waiting_for :
    (id : Str) (ws : List (Str × ℕ)) → 0 < waiting_for id ws → (r : ℕ) × In (id, r) ws
unfolding waiting_for
In-of_waiting_for id [] h = absurd (omega arith)
In-of_waiting_for id ((j, q) ∷ ws) h = elim (Bool-cases (str_eq j id)) [
  | inl e ↦ (q, inl (ap (λ k. (k, q)) (sym (str_eq→eq j id e))))
  | inr e ↦ let (r, i) = In-of_waiting_for id ws (ground arith) in (r, inr i)
]

pub In-of_append : {A : Type 0} (a b : A) (us ws : List A) → In a (us ++ ws) → In a (us ++ b ∷ ws)
In-of_append a b [] ws i = inr i
In-of_append a b (u ∷ us) ws (inl e) = inl e
In-of_append a b (u ∷ us) ws (inr i) = inr (In-of_append a b us ws i)

pub In-middle : {A : Type 0} (a : A) (us ws : List A) → In a (us ++ a ∷ ws)
In-middle a [] ws = inl refl
In-middle a (u ∷ us) ws = inr (In-middle a us ws)

pub waiting_for-middle :
    (id j : Str) (r : ℕ) (us ws : List (Str × ℕ))
    → waiting_for id (us ++ (j, r) ∷ ws)
      ≡ (if str_eq j id then 1 else 0) + waiting_for id (us ++ ws)
unfolding waiting_for
waiting_for-middle id j r us ws =
    ground (arith, waiting_for-append id us ((j, r) ∷ ws), waiting_for-append id us ws)

-- Each build in the queue has a counter of its own, which counts the routines that wait for the
-- build, and each routine holds the counter of its build.
pub record IsCounted (q : Assoc ℕ) (cs : ℕ → WaitRefCounter) (next : ℕ) (ws : List (Str × ℕ))
    : Type 0 where
  pub held : (id : Str) (r : ℕ) → In (id, r) ws → lookup id q ≡ some r
  pub counted : (id : Str) (r : ℕ) → lookup id q ≡ some r → (cs r).count ≡ waiting_for id ws
  pub wanted : (id : Str) (r : ℕ) → lookup id q ≡ some r → 0 < waiting_for id ws
  pub below : (id : Str) (r : ℕ) → lookup id q ≡ some r → r < next
  pub distinct : (id j : Str) (r : ℕ) → lookup id q ≡ some r → lookup j q ≡ some r → id ≡ j

pub recount :
    (q : Assoc ℕ) (cs ds : ℕ → WaitRefCounter) (next later : ℕ) (ws : List (Str × ℕ))
    → ((r : ℕ) → (ds r).count ≡ (cs r).count)
    → next ≤ later
    → IsCounted q cs next ws
    → IsCounted q ds later ws
recount q cs ds next later ws same le i = record {
  held = i.held;
  counted = λ id r h. same r ∙ i.counted id r h;
  wanted = i.wanted;
  below = λ id r h. let lt = i.below id r h in omega arith;
  distinct = i.distinct;
}

module _ (q : Assoc ℕ) (cs : ℕ → WaitRefCounter) (next : ℕ) (ws : List (Str × ℕ)) where
  held_cons :
      (id j : Str) (r p : ℕ)
      → lookup id q ≡ some r
      → IsCounted q cs next ws
      → In (j, p) ((id, r) ∷ ws)
      → lookup j q ≡ some p
  held_cons id j r p l i (inl e) =
      let a : j ≡ id = ap (λ w. w.0) e in let b : p ≡ r = ap (λ w. w.1) e in rw (a, b) l
  held_cons id j r p l i (inr m) = i.held j p m

  -- Two builds of the queue have the same ID exactly if they have the same counter.
  pub same_counter :
      (id j : Str) (r p : ℕ)
      → lookup id q ≡ some r
      → lookup j q ≡ some p
      → IsCounted q cs next ws
      → (p == r) ≡ str_eq id j
  same_counter id j r p l h i = elim (Bool-cases (str_eq id j)) [
    | inl e ↦ let a : lookup j q ≡ some r = rw (sym (str_eq→eq id j e)) l in ground arith
    | inr e ↦ elim (Bool-cases (p == r)) [
      | inl f ↦
          let b : p ≡ r = ground arith in
          let k = i.distinct id j r l (h ∙ ap some b) in absurd (ground (arith, str_eq_iff id j))
      | inr f ↦ f ∙ sym e
    ]
  ]

  pub join-IsCounted :
      (id : Str) (r : ℕ) (w : WaitRefCounter)
      → lookup id q ≡ some r
      → w.count ≡ suc (cs r).count
      → IsCounted q cs next ws
      → IsCounted q (write r w cs) next ((id, r) ∷ ws)
  unfolding waiting_for write
  join-IsCounted id r w l c i = record {
    held = λ j p m. held_cons id j r p l i m;
    counted =
        λ j p h. let e = same_counter id j r p l h i in let k = i.counted j p h in ground arith;
    wanted = λ j p h. let lt = i.wanted j p h in ground arith;
    below = i.below;
    distinct = i.distinct;
  }

  -- An entry of the table with a new one: the new one, or one that it had.
  entry-cases :
      (id j : Str) (p : ℕ)
      → lookup j (insert id next q) ≡ some p
      → ((str_eq id j ≡ true) × (p ≡ next)) ⊎ ((str_eq id j ≡ false) × (lookup j q ≡ some p))
  entry-cases id j p h = elim (Bool-cases (str_eq id j)) [
    | inl e ↦ inl (e, let k = lookup-insert id j next q in ground arith)
    | inr e ↦ inr (e, let k = lookup-insert id j next q in ground arith)
  ]

  module _ (ds : ℕ → WaitRefCounter) where
    pub create-IsCounted :
        (id : Str)
        → lookup id q ≡ none
        → (ds next).count ≡ 1
        → ((p : ℕ) → (p == next) ≡ false → (ds p).count ≡ (cs p).count)
        → IsCounted q cs next ws
        → IsCounted (insert id next q) ds (suc next) ((id, next) ∷ ws)
    unfolding waiting_for
    create-IsCounted id l one same i = record {
      held = λ j p m. elim m [
        | inl e ↦
            let a : j ≡ id = ap (λ w. w.0) e in
            let b : p ≡ next = ap (λ w. w.1) e in
            ground (arith, lookup-insert id j next q, str_eq_iff id j)
        | inr k ↦ let h = i.held j p k in ground (arith, lookup-insert id j next q, str_eq_iff id j)
      ];
      counted = λ j p h. elim (entry-cases id j p h) [
        | inl (e, f) ↦
            let none_yet : waiting_for j ws ≡ 0 = rw (sym (str_eq→eq id j e)) (nobody id l) in
            let c : (ds p).count ≡ 1 = rw f one in ground arith
        | inr (e, f) ↦
            let lt = i.below j p f in
            let k = i.counted j p f in let c = same p (ground arith) in ground arith
      ];
      wanted = λ j p h. elim (entry-cases id j p h) [
        | inl (e, f) ↦ ground arith
        | inr (e, f) ↦ let lt = i.wanted j p f in ground arith
      ];
      below = λ j p h. elim (entry-cases id j p h) [
        | inl (e, f) ↦ omega arith
        | inr (e, f) ↦ let lt = i.below j p f in omega arith
      ];
      distinct = λ j k p h g. elim (entry-cases id j p h) [
        | inl (e, f) ↦ elim (entry-cases id k p g) [
          | inl (c, d) ↦ sym (str_eq→eq id j e) ∙ str_eq→eq id k c
          | inr (c, d) ↦ let lt = i.below k p d in absurd (omega arith)
        ]
        | inr (e, f) ↦ elim (entry-cases id k p g) [
          | inl (c, d) ↦ let lt = i.below j p f in absurd (omega arith)
          | inr (c, d) ↦ i.distinct j k p f d
        ]
      ];
    }
      where
        nobody : (id : Str) → lookup id q ≡ none → waiting_for id ws ≡ 0
        nobody id l = elim (Bool-cases (ltb 0 (waiting_for id ws))) [
          | inl e ↦
              let (r, m) = In-of_waiting_for id ws (ltb→lt 0 (waiting_for id ws) e) in
              let h = i.held id r m in absurd (ground arith)
          | inr e ↦ ground arith
        ]
