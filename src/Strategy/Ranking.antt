-- ===== src/Strategy/Ranking.antt =====
-- RankAndSort of the spread and binpack strategies.
use mathlib.Core.List.{Perm}
use mathlib.Core.List.Perm
use classicswarm.Prelude.{ℕ, ◌≡◌, ◌≢◌, refl, sym, subst, List, [], ◌∷◌, some, keep}
use classicswarm.Config.{ContainerConfig}
use classicswarm.Node.{Node}
use classicswarm.Filter.Outcome.{Outcome, ok, err, no_resources, ◌>>=◌}
use classicswarm.Strategy.Sorting.{Sorter}
use classicswarm.Strategy.Weight.{accepted, weigh_all-Weighed}
use classicswarm.Strategy.{
  WeightedNode, less, reversed, weigh_nodes, weighted_or_error, nodes_of, PlacementStrategy, spread,
  binpack, random, rank_and_sort, spread_factor, binpack_factor,
}

-- The nodes in some order, or the error where none is accepted.
pub data Ranked (config : ContainerConfig) (nodes : List Node) : Outcome (List Node) → Type 0 where
  ranked :
      (out : List Node)
      → out ≢ []
      → Perm out (keep (accepted config) nodes)
      → Ranked config nodes (ok out)
  none_accepted : keep (accepted config) nodes ≡ [] → Ranked config nodes (err no_resources)

not-nil-perm : (xs : List Node) (y : Node) (ys : List Node) → Perm xs (y ∷ ys) → xs ≢ []
not-nil-perm xs y ys p e =
    let q : y ∷ ys ≡ [] = Perm.eq-nil (Perm.symm (subst (λ l. Perm l (y ∷ ys)) e p)) in cc

rank-Ranked :
    (config : ContainerConfig) (nodes : List Node) (ws : List WeightedNode)
    (sort : List WeightedNode → List WeightedNode)
    → ((vs : List WeightedNode) → Perm (sort vs) vs)
    → nodes_of ws ≡ keep (accepted config) nodes
    → Ranked config nodes (weighted_or_error (some ws) >>= λ vs. ok (nodes_of (sort vs)))
unfolding weighted_or_error
rank-Ranked config nodes [] sort p e = none_accepted (sym e)
rank-Ranked config nodes (w ∷ ws) sort p e =
    let q = Perm.map (λ (v : WeightedNode). v.node) (p (w ∷ ws)) in
    ranked (nodes_of (sort (w ∷ ws))) (not-nil-perm _ _ _ q)
      (subst (Perm (nodes_of (sort (w ∷ ws)))) e q)

-- Spread and binpack never panic: they return the accepted nodes, each as often as it was given,
-- or, where no node is accepted, the error that no resources are available.
pub rank_and_sort-Ranked :
    (sorter : Sorter WeightedNode) (intn : ℕ → ℕ) (s : PlacementStrategy) (config : ContainerConfig)
    (nodes : List Node)
    → s ≢ random
    → Ranked config nodes (rank_and_sort sorter intn s config nodes)
unfolding rank_and_sort weigh_nodes
rank_and_sort-Ranked sorter intn spread config nodes h =
    let (ws, w) = weigh_all-Weighed config spread_factor nodes in
    rw w.some_ws (rank-Ranked config nodes ws (sorter.sort less) (sorter.sort-perm less) w.kept)
rank_and_sort-Ranked sorter intn binpack config nodes h =
    let (ws, w) = weigh_all-Weighed config binpack_factor nodes in
    rw w.some_ws (
      rank-Ranked config nodes ws (sorter.sort (reversed less)) (sorter.sort-perm (reversed less))
        w.kept)
rank_and_sort-Ranked sorter intn random config nodes h = absurd (h refl)
