-- ===== src/Strategy.antt =====
-- scheduler/strategy: the weight of a node for a container, and the three placement strategies.
-- sort.Sort is the parameter `Sorter`; the random source is the list of numbers that it yields.
pub mod Sorting
pub mod Weight
pub mod Measure
pub mod Ranking
pub mod Gauge
pub mod Health
pub mod Random
use classicswarm.Prelude.{
  ℕ, zero, suc, ◌-◌, Bool, true, false, ◌&&◌, ◌||◌, List, [], ◌∷◌, Option, none, some, map, length,
  ltb, find_first, get_elem?, set, if◌then◌else◌,
}
use classicswarm.Text.{Str, codes, str_eq}
use classicswarm.Int64.{ℤ, pos, negsuc, ◌+ℤ◌, ◌*ℤ◌, quot, ltb_ℤ, leb_ℤ, eqb_ℤ}
use classicswarm.Config.{ContainerConfig}
use classicswarm.Node.{Node}
use classicswarm.Filter.Outcome.{Outcome, ok, err, panic, no_resources, ◌>>=◌}
use Sorting.{Sorter}

pub record WeightedNode : Type 0 where
  pub node : Node
  pub weight : ℤ

-- weightedNodeList.Less: by weight, and among equal weights by the number of containers.
unfoldable pub less : WeightedNode → WeightedNode → Bool
less i j =
    if eqb_ℤ i.weight j.weight
    then ltb (length i.node.containers) (length j.node.containers)
    else ltb_ℤ i.weight j.weight

-- The share of `total` that is used with the request; 100 where nothing is requested. `none` is
-- the panic of a division by zero.
unfoldable pub score : (used requested total : ℤ) → Option ℤ
unfolding ◌+ℤ◌ ◌*ℤ◌ quot
score used requested total =
    if ltb_ℤ (pos 0) requested then quot ((used +ℤ requested) *ℤ pos 100) total else some (pos 100)

-- A node is smaller than the request.
unfoldable pub too_small : ContainerConfig → Node → Bool
too_small config n =
    ltb_ℤ n.total_memory config.host_config.memory
    || ltb_ℤ n.total_cpus config.host_config.cpu_shares

unfoldable pub cpu_score : ContainerConfig → Node → Option ℤ
unfolding score
cpu_score config n = score n.used_cpus config.host_config.cpu_shares n.total_cpus

unfoldable pub memory_score : ContainerConfig → Node → Option ℤ
unfolding score
memory_score config n = score n.used_memory config.host_config.memory n.total_memory

-- The weight of a node with these scores, in front of the list if both are at most 100.
unfoldable pub add_weighted : ℤ → Node → (cpu memory : ℤ) → List WeightedNode → List WeightedNode
unfolding ◌+ℤ◌ ◌*ℤ◌
add_weighted factor n cpu memory ws =
    if leb_ℤ cpu (pos 100) && leb_ℤ memory (pos 100)
    then record { node = n; weight = cpu +ℤ memory +ℤ factor *ℤ n.health_indicator } ∷ ws
    else ws

-- The loop of weighNodes.
unfoldable pub weigh_all : ContainerConfig → ℤ → List Node → Option (List WeightedNode)
unfolding too_small cpu_score memory_score add_weighted
weigh_all config factor [] = some []
weigh_all config factor (n ∷ nodes) = elim (weigh_all config factor nodes) [
  | none ↦ none
  | some ws ↦ if too_small config n then some ws else elim (cpu_score config n) [
    | none ↦ none
    | some cpu ↦ elim (memory_score config n) [
      | none ↦ none
      | some memory ↦ some (add_weighted factor n cpu memory ws)
    ]
  ]
]

unfoldable pub weighted_or_error : Option (List WeightedNode) → Outcome (List WeightedNode)
weighted_or_error none = panic
weighted_or_error (some []) = err no_resources
weighted_or_error (some (w ∷ ws)) = ok (w ∷ ws)

unfoldable pub weigh_nodes : ContainerConfig → List Node → ℤ → Outcome (List WeightedNode)
unfolding weighted_or_error weigh_all
weigh_nodes config nodes factor = weighted_or_error (weigh_all config factor nodes)

-- sort.Reverse
unfoldable pub reversed : (WeightedNode → WeightedNode → Bool) → WeightedNode → WeightedNode → Bool
reversed less i j = less j i

abbrev pub nodes_of : List WeightedNode → List Node
nodes_of ws = map (λ w. w.node) ws

-- nodes[i], nodes[j] = nodes[j], nodes[i]; `none` is an index out of range.
unfoldable pub swap_at : ℕ → ℕ → List Node → Option (List Node)
swap_at i j nodes = elim (get_elem? nodes i) [
  | none ↦ none
  | some u ↦ elim (get_elem? nodes j) [ none ↦ none | some w ↦ some (set (set nodes i w) j u) ]
]

-- The loop of the random strategy, from `i` down to 1. `intn n` is what the random source yields
-- for r.Intn(n).
unfoldable pub shuffle : (ℕ → ℕ) → ℕ → List Node → Outcome (List Node)
unfolding swap_at
shuffle intn zero nodes = ok nodes
shuffle intn (suc i) nodes = elim (swap_at (suc i) (intn (suc (suc i))) nodes) [
  | none ↦ panic
  | some nodes' ↦ shuffle intn i nodes'
]

pub data PlacementStrategy : Type 0 where
  spread binpack random : PlacementStrategy

unfoldable pub strategy_name : PlacementStrategy → Str
strategy_name spread = codes "spread"
strategy_name binpack = codes "binpack"
strategy_name random = codes "random"

abbrev pub strategies : List PlacementStrategy
strategies = spread ∷ binpack ∷ random ∷ []

-- New; `none` is ErrNotSupported.
unfoldable pub new_strategy : Str → Option PlacementStrategy
unfolding strategy_name str_eq find_first
new_strategy name =
    let name' = if str_eq name (codes "binpacking") then codes "binpack" else name in
    find_first (λ s. str_eq (strategy_name s) name') strategies

abbrev pub spread_factor : ℤ
spread_factor = negsuc 9

abbrev pub binpack_factor : ℤ
binpack_factor = pos 10

module _ (sorter : Sorter WeightedNode) (intn : ℕ → ℕ) where
  -- RankAndSort of the three strategies.
  unfoldable pub rank_and_sort :
      PlacementStrategy → ContainerConfig → List Node → Outcome (List Node)
  unfolding weigh_nodes less reversed shuffle
  rank_and_sort spread config nodes =
      weigh_nodes config nodes spread_factor >>= λ ws. ok (nodes_of (sorter.sort less ws))
  rank_and_sort binpack config nodes = weigh_nodes config nodes binpack_factor >>= λ ws.
      ok (nodes_of (sorter.sort (reversed less) ws))
  rank_and_sort random config nodes = shuffle intn (length nodes - 1) nodes
