-- ===== src/Cluster/InFlight.antt =====
-- Creations that overlap: each holds the lock of the scheduler while it chooses an engine and while
-- it takes its entry out again, and not in between.
use classicswarm.Prelude.{
  ℕ, ◌≡◌, ◌≢◌, sym, ◌∙◌, ap, subst, Bool, false, List, [], some, arith, any_of, any_some, inl, inr,
  Bool-cases,
}
use classicswarm.Text.{Str, str_eq}
use classicswarm.Text.Laws.{str_eq→eq, str_eq_refl}
use classicswarm.Assoc.{Assoc, lookup, insert, delete, values}
use classicswarm.Assoc.Laws.{lookup-insert, lookup-delete, In-values_of_lookup}
use classicswarm.Config.{ContainerConfig}
use classicswarm.Externals.{Externals}
use classicswarm.Strategy.Sorting.{Sorter}
use classicswarm.Strategy.Random.{IsBounded}
use classicswarm.Strategy.{WeightedNode}
use classicswarm.Engine.{Engine}
use classicswarm.Cluster.{Cluster, PendingContainer, is_awaited}
use classicswarm.Cluster.Creation.{placed, place, finish}
use classicswarm.Cluster.Naming.{IsFree}
use classicswarm.Cluster.Placing.{Placed, Decided, place-Decided}

module _ (x : Externals) (sorter : Sorter WeightedNode) (intn : ℕ → ℕ) where
  -- A creation places its container or is over, or anything happens to the engines.
  pub data Step (c : Cluster) : Cluster → Type 0 where
    places :
        (affine : Bool) (draws : List Str) (name : Str) (config kept : ContainerConfig)
        (d : Cluster) (id key : Str) (e : Engine)
        → place x sorter intn affine draws name config c ≡ ((d, placed id key e), kept)
        → Step c d
    finishes : (id : Str) → Step c (finish id c)
    changes : (es : Assoc Engine) → Step c (record c { engines = es })

  pub data Steps (c : Cluster) : Cluster → Type 0 where
    here : Steps c c
    next : {d e : Cluster} → Steps c d → Step d e → Steps c e

-- No two entries have the same name, where they have one.
abbrev pub HasDistinctNames : Assoc PendingContainer → Type 0
HasDistinctNames ps =
    (i j : Str) (a b : PendingContainer)
    → lookup i ps ≡ some a
    → lookup j ps ≡ some b
    → a.name ≡ b.name
    → a.name ≢ []
    → i ≡ j

unawaited :
    (name : Str) (c : Cluster)
    → IsFree name c
    → name ≢ []
    → is_awaited name c.pending_containers ≡ false
unfolding is_awaited
unawaited name c free ne = elim (Bool-cases (is_awaited name c.pending_containers)) [
  | inr e ↦ e
  | inl e ↦
      let (p, i, f) = any_some (λ p. str_eq p.name name) (values c.pending_containers) e in
      absurd (free.unawaited p ne i (str_eq→eq p.name name f))
]

other_name :
    (j name : Str) (b : PendingContainer) (ps : Assoc PendingContainer)
    → is_awaited name ps ≡ false
    → lookup j ps ≡ some b
    → b.name ≢ name
unfolding is_awaited
other_name j name b ps h l e =
    let i =
      any_of (λ p. str_eq p.name name) b (values ps) (In-values_of_lookup j b ps l)
        (rw e (str_eq_refl name)) in
    absurd (ground arith)

clash :
    (k : Str) (p q : PendingContainer) (ps : Assoc PendingContainer)
    → (p.name ≢ [] → is_awaited p.name ps ≡ false)
    → lookup k ps ≡ some q
    → p.name ≡ q.name
    → q.name ≢ []
    → ⊥
clash k p q ps free l same ne =
    other_name k p.name q ps (free (λ e. ne (sym same ∙ e))) l (sym same)

insert-HasDistinctNames :
    (id : Str) (p : PendingContainer) (ps : Assoc PendingContainer)
    → (p.name ≢ [] → is_awaited p.name ps ≡ false)
    → HasDistinctNames ps
    → HasDistinctNames (insert id p ps)
insert-HasDistinctNames id p ps free h i j a b l m same ne =
    let li = lookup-insert id i p ps in
    let lj = lookup-insert id j p ps in
    elim (Bool-cases (str_eq id i)) [
      | inl e ↦ elim (Bool-cases (str_eq id j)) [
        | inl f ↦ sym (str_eq→eq id i e) ∙ str_eq→eq id j f
        | inr f ↦
            let new : p ≡ a = ground arith in
            let old : lookup j ps ≡ some b = ground arith in
            absurd (clash j p b ps free old (ap (λ q. q.name) new ∙ same) (λ z. ne (same ∙ z)))
      ]
      | inr e ↦ elim (Bool-cases (str_eq id j)) [
        | inl f ↦
            let new : p ≡ b = ground arith in
            let old : lookup i ps ≡ some a = ground arith in
            absurd (clash i p a ps free old (ap (λ q. q.name) new ∙ sym same) ne)
        | inr f ↦ h i j a b (ground arith) (ground arith) same ne
      ]
    ]

delete-HasDistinctNames :
    (id : Str) (ps : Assoc PendingContainer) → HasDistinctNames ps → HasDistinctNames (delete id ps)
delete-HasDistinctNames id ps h i j a b l m same ne =
    let li = lookup-delete id i ps in
    let lj = lookup-delete id j ps in
    let old : lookup i ps ≡ some a = ground arith in
    let other : lookup j ps ≡ some b = ground arith in h i j a b old other same ne

module _ (x : Externals) (sorter : Sorter WeightedNode) (intn : ℕ → ℕ)
    (bounded : IsBounded intn) where
  step-HasDistinctNames :
      (c d : Cluster)
      → Step x sorter intn c d
      → HasDistinctNames c.pending_containers
      → HasDistinctNames d.pending_containers
  unfolding finish
  step-HasDistinctNames c _ (places affine draws name config kept d id key e h) i =
      let p : Placed x affine config name c id key e d kept =
        subst (Decided x affine config name c) h
          (place-Decided x sorter intn bounded affine draws name config c) in
      subst (λ o. HasDistinctNames o.pending_containers) (sym p.entered)
        (insert-HasDistinctNames id _ c.pending_containers (unawaited name c p.free) i)
  step-HasDistinctNames c _ (finishes id) i = delete-HasDistinctNames id c.pending_containers i
  step-HasDistinctNames c _ (changes es) i = i

  -- However many creations overlap, and whatever happens to the engines in between: starting from a
  -- cluster without pending containers, two different entries of the table of pending containers
  -- never have the same name, unless it is empty.
  pub Steps-HasDistinctNames :
      (c d : Cluster)
      → c.pending_containers ≡ []
      → Steps x sorter intn c d
      → HasDistinctNames d.pending_containers
  Steps-HasDistinctNames c _ none_yet here =
      subst HasDistinctNames (sym none_yet)
        (λ i j a b l m same ne. absurd (unfold lookup in ground arith))
  Steps-HasDistinctNames c _ none_yet (next {d} {e} before step) =
      step-HasDistinctNames d e step (Steps-HasDistinctNames c d none_yet before)
