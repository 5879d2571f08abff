-- ===== src/Strategy/Health.antt =====
-- How far the health of a node overrides its load in the order of spread and binpack.
use mathlib.Core.List.Perm
use classicswarm.Prelude.{
  ℕ, ◌≡◌, ◌≢◌, refl, subst, Bool, false, List, [], ◌∷◌, some, arith, Every, Every-perm,
}
use classicswarm.Int64.{pos, ltb_ℤ, ◌+ℤ◌}
use classicswarm.Config.{ContainerConfig}
use classicswarm.Node.{Node}
use classicswarm.Filter.Outcome.{ok, ◌>>=◌}
use classicswarm.Strategy.Sorting.{Sorter, IsSorted, IsStrictWeak}
use classicswarm.Strategy.Weight.{weigh_all-Weighed, less-IsStrictWeak}
use classicswarm.Strategy.Measure.{+ℤ-pos}
use classicswarm.Strategy.{
  WeightedNode, less, reversed, weigh_nodes, weighted_or_error, nodes_of, PlacementStrategy, spread,
  binpack, random, rank_and_sort, spread_factor, binpack_factor,
}
use classicswarm.Strategy.Gauge.{
  Gauged, health_of, BinpackBounds, SpreadBounds, BinpackBounds-prop, SpreadBounds-prop,
  binpack-base, spread-base, weigh_all-Bounds,
}

-- The first node is more than 20 points healthier than the second.
pub far_healthier : Node → Node → Bool
far_healthier m n = ltb_ℤ (n.health_indicator +ℤ pos 20) m.health_indicator

reversed-IsStrictWeak : IsStrictWeak (reversed less)
unfolding reversed
reversed-IsStrictWeak = record {
  asymmetric = λ a b. less-IsStrictWeak.asymmetric b a;
  negatively_transitive = λ a b c h k. less-IsStrictWeak.negatively_transitive c b a k h;
}

IsSorted-map :
    (r : WeightedNode → WeightedNode → Bool) (q : Node → Node → Bool) (P : WeightedNode → Type 0)
    (step : (a b : WeightedNode) → P a → P b → r b a ≡ false → q b.node a.node ≡ false)
    (ws : List WeightedNode)
    → Every P ws
    → IsSorted r ws
    → IsSorted q (nodes_of ws)
IsSorted-map r q P step [] h s = tt
IsSorted-map r q P step (w ∷ ws) h s = (later w ws h.0 h.1 s.0, IsSorted-map r q P step ws h.1 s.1)
  where
    later :
        (w : WeightedNode) (vs : List WeightedNode)
        → P w
        → Every P vs
        → Every (λ y. r y w ≡ false) vs
        → Every (λ y. q y w.node ≡ false) (nodes_of vs)
    later w [] pw pv e = tt
    later w (v ∷ vs) pw pv e = (step w v pw pv.0 e.0, later w vs pw pv.1 e.1)

binpack-step :
    (a b : WeightedNode)
    → BinpackBounds a
    → BinpackBounds b
    → reversed less b a ≡ false
    → far_healthier b.node a.node ≡ false
unfolding reversed less far_healthier
binpack-step a b p q h = ground (arith, +ℤ-pos (health_of a) 20)

spread-step :
    (a b : WeightedNode)
    → SpreadBounds a
    → SpreadBounds b
    → less b a ≡ false
    → far_healthier b.node a.node ≡ false
unfolding less far_healthier
spread-step a b p q h = ground (arith, +ℤ-pos (health_of a) 20)

module _ (sorter : Sorter WeightedNode) (r : WeightedNode → WeightedNode → Bool)
    (weak : IsStrictWeak r) (P : WeightedNode → Type 0) (prop : (w : WeightedNode) → IsProp (P w))
    (step : (a b : WeightedNode)
      → P a
      → P b
      → r b a ≡ false
      → far_healthier b.node a.node ≡ false) where
  healthier_out :
      (ws : List WeightedNode) (out : List Node)
      → Every P ws
      → (weighted_or_error (some ws) >>= λ vs. ok (nodes_of (sorter.sort r vs))) ≡ ok out
      → IsSorted far_healthier out
  unfolding weighted_or_error
  healthier_out [] out h e = cc
  healthier_out (w ∷ ws) out h e =
      let vs = sorter.sort r (w ∷ ws) in
      let same : nodes_of vs ≡ out = cc in
      subst (IsSorted far_healthier) same (
        IsSorted-map r far_healthier P step vs
          (Every-perm P prop (Perm.symm (sorter.sort-perm r (w ∷ ws))) h)
          (sorter.sort-IsSorted r weak (w ∷ ws)))

-- On measured nodes with a health between 0 and 100, spread and binpack put no node behind one
-- that is more than 20 points less healthy, whatever the loads are.
pub rank_and_sort-healthier :
    (sorter : Sorter WeightedNode) (intn : ℕ → ℕ) (s : PlacementStrategy) (config : ContainerConfig)
    (nodes : List Node)
    → s ≢ random
    → Every (Gauged config) nodes
    → (out : List Node) → rank_and_sort sorter intn s config nodes ≡ ok out
    → IsSorted far_healthier out
unfolding rank_and_sort weigh_nodes
rank_and_sort-healthier sorter intn spread config nodes h g out e =
    let (ws, w) = weigh_all-Weighed config spread_factor nodes in
    healthier_out sorter less less-IsStrictWeak SpreadBounds SpreadBounds-prop spread-step ws out
      (weigh_all-Bounds config spread_factor SpreadBounds spread-base nodes ws g w.some_ws)
      (rw w.some_ws at e)
rank_and_sort-healthier sorter intn binpack config nodes h g out e =
    let (ws, w) = weigh_all-Weighed config binpack_factor nodes in
    healthier_out sorter (reversed less) reversed-IsStrictWeak BinpackBounds BinpackBounds-prop
      binpack-step ws out
      (weigh_all-Bounds config binpack_factor BinpackBounds binpack-base nodes ws g w.some_ws)
      (rw w.some_ws at e)
rank_and_sort-healthier sorter intn random config nodes h g out e = absurd (h refl)
