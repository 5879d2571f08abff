-- ===== src/Scheduler/Safety.antt =====
-- Where a container may be placed: what holds of every node that the scheduler selects.
use mathlib.Core.List.{Perm, Mem, Mem-prop}
use mathlib.Core.List.Perm
use mathlib.Core.HLevel.{×_prop}
use classicswarm.Prelude.{
  ℕ, ◌≡◌, ◌≢◌, refl, sym, subst, Bool, true, false, List, [], ◌∷◌, arith, all, In, Every,
  Every-perm, Every_of_In, Every-keep, Mem_of_In,
}
use classicswarm.Externals.{Externals}
use classicswarm.Config.{ContainerConfig}
use classicswarm.Node.{Node}
use classicswarm.Filter.Outcome.{is_ok, is_err, is_panic, outcome-Cases, ok}
use classicswarm.Filter.Batch.{Filter, run, apply_from, apply_filters}
use classicswarm.Strategy.Sorting.{Sorter}
use classicswarm.Strategy.Weight.{accepted}
use classicswarm.Strategy.Ranking.{Ranked, ranked, rank_and_sort-Ranked}
use classicswarm.Strategy.Random.{IsBounded, rank_and_sort_random}
use classicswarm.Strategy.{WeightedNode, PlacementStrategy, spread, binpack, random, rank_and_sort}
use classicswarm.Scheduler.Admission.{admits, run-admits}
use classicswarm.Scheduler.{Scheduler, rank_accepted, select_pass, select_nodes_for_container}

module _ (x : Externals) (config : ContainerConfig) (soft : Bool) (every : List Filter) where
  -- What the filters leave was given, and meets the demand of each of them.
  apply_from-admits :
      (fs : List Filter) (nodes : List Node) {out : List Node} (m : Node)
      → apply_from x every config soft fs nodes ≡ ok out
      → In m out
      → In m nodes × (all (admits x config m) fs ≡ true)
  unfolding apply_from all
  apply_from-admits [] nodes {out} m e i =
      let same : nodes ≡ out = cc in (subst (In m) (sym same) i, refl)
  apply_from-admits (f ∷ fs) nodes {out} m e i = elim (outcome-Cases (run x f config nodes soft)) [
    | is_ok candidates h ↦
        let (j, t) = apply_from-admits fs candidates m (rw (h, apply_from) at e) i in
        let (k, u) = run-admits x config soft f nodes m h j in (k, ground arith)
    | is_err r h ↦ absurd (ground arith)
    | is_panic h ↦ absurd (ground arith)
  ]

-- What is shown of a selected node: it was offered, it meets the demand of every filter, and if
-- the strategy weighs nodes its resources are enough.
pub record Placeable (x : Externals) (s : Scheduler) (config : ContainerConfig) (nodes : List Node)
    (n : Node) : Type 0 where
  pub offered : Mem n nodes
  pub admitted : all (admits x config n) s.filters ≡ true
  pub enough : s.strategy ≢ random → accepted config n ≡ true

Every-map :
    (P Q : Node → Type 0) (nodes : List Node)
    → ((n : Node) → P n → Q n)
    → Every P nodes
    → Every Q nodes
Every-map P Q [] f h = tt
Every-map P Q (n ∷ nodes) f h = (f n h.0, Every-map P Q nodes f h.1)

-- A property of all nodes, and that they were weighed, hold of a ranking of them.
ranking_every :
    (config : ContainerConfig) (P : Node → Type 0) (prop : (n : Node) → IsProp (P n))
    (nodes out : List Node)
    → Every P nodes
    → Ranked config nodes (ok out)
    → (out ≢ []) × Every (λ n. P n × (accepted config n ≡ true)) out
ranking_every config P prop nodes out h (ranked out' ne p) = (
  ne,
  Every-perm (λ n. P n × (accepted config n ≡ true)) (λ n. ×_prop (prop n) hlevel) (Perm.symm p)
      (Every-keep P (accepted config) nodes h),
)

abbrev Offered : Externals → Scheduler → ContainerConfig → List Node → Node → Type 0
Offered x s config nodes n = Mem n nodes × (all (admits x config n) s.filters ≡ true)

Offered-prop :
    (x : Externals) (s : Scheduler) (config : ContainerConfig) (nodes : List Node) (n : Node)
    → IsProp (Offered x s config nodes n)
Offered-prop x s config nodes n = ×_prop Mem-prop hlevel

module _ (x : Externals) (sorter : Sorter WeightedNode) (intn : ℕ → ℕ) (bounded : IsBounded intn)
    (s : Scheduler) (config : ContainerConfig) (nodes : List Node) where
  rank-Placeable :
      (strategy : PlacementStrategy) (left out : List Node)
      → left ≢ []
      → Every (Offered x s config nodes) left
      → rank_and_sort sorter intn strategy config left ≡ ok out
      → (out ≢ [])
        × Every
            (λ n. Offered x s config nodes n × (strategy ≢ random → accepted config n ≡ true))
            out
  rank-Placeable spread left out ne h e =
      let (k, a) =
        ranking_every config (Offered x s config nodes) (Offered-prop x s config nodes) left out h (
          subst (Ranked config left) e
            (rank_and_sort-Ranked sorter intn spread config left (λ q. cc))) in
      (k, Every-map _ _ out (λ n p. (p.0, λ q. p.1)) a)
  rank-Placeable binpack left out ne h e =
      let (k, a) =
        ranking_every config (Offered x s config nodes) (Offered-prop x s config nodes) left out h (
          subst (Ranked config left) e
            (rank_and_sort-Ranked sorter intn binpack config left (λ q. cc))) in
      (k, Every-map _ _ out (λ n p. (p.0, λ q. p.1)) a)
  rank-Placeable random left out ne h e =
      let (out', run, p) = rank_and_sort_random sorter intn config left bounded in
      let same : out' ≡ out = cc in
      let q = subst (λ l. Perm l left) same p in
      (
        λ r. ne (Perm.eq-nil (Perm.symm (subst (λ l. Perm l left) r q))),
        Every-map (Offered x s config nodes) _ out (λ n a. (a, λ t. absurd (t refl)))
            (Every-perm (Offered x s config nodes) (Offered-prop x s config nodes) (Perm.symm q) h),
      )

  pass-Placeable :
      (soft : Bool) (out : List Node)
      → select_pass x sorter intn s nodes config soft ≡ ok out
      → (out ≢ []) × Every (Placeable x s config nodes) out
  unfolding select_pass apply_filters
  pass-Placeable soft out e =
      elim (outcome-Cases (apply_from x s.filters config soft s.filters nodes)) [
        | is_ok left h ↦ ranked_left left h (rw (h, select_pass) at e)
        | is_err r h ↦ absurd (ground arith)
        | is_panic h ↦ absurd (ground arith)
      ]
    where
      ranked_left :
          (left : List Node)
          → apply_from x s.filters config soft s.filters nodes ≡ ok left
          → rank_accepted x sorter intn s config left ≡ ok out
          → (out ≢ []) × Every (Placeable x s config nodes) out
      ranked_left [] h e = unfold rank_accepted in cc
      ranked_left (n ∷ ns) h e =
          let ranked_e : rank_and_sort sorter intn s.strategy config (n ∷ ns) ≡ ok out =
            (unfold rank_accepted in e) in
          let (k, a) =
            rank-Placeable s.strategy (n ∷ ns) out (λ q. cc)
              (Every_of_In (Offered x s config nodes) (n ∷ ns) (λ m i.
                let (j, t) = apply_from-admits x config soft s.filters s.filters nodes m h i in
                (Mem_of_In m nodes j, t)))
              ranked_e in
          (
            k,
            Every-map _ _ out (λ m (o, w). record { offered = o.0; admitted = o.1; enough = w }) a,
          )

  -- If the scheduler selects nodes for a container, at least one is selected, and each of them was
  -- offered, meets the demand of every filter of the scheduler that is not soft, and, unless the
  -- strategy is the random one, is accepted by the weighing. This holds of both passes, for a source
  -- of random numbers that keeps to its bound.
  pub select-Placeable :
      (out : List Node)
      → select_nodes_for_container x sorter intn s nodes config ≡ ok out
      → (out ≢ []) × Every (Placeable x s config nodes) out
  unfolding select_nodes_for_container
  select-Placeable out e = elim (outcome-Cases (select_pass x sorter intn s nodes config true)) [
    | is_ok first h ↦ pass-Placeable true out (ground arith)
    | is_err r h ↦ pass-Placeable false out (rw (h, select_nodes_for_container) at e)
    | is_panic h ↦ absurd (ground arith)
  ]
