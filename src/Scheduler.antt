-- ===== src/Scheduler.antt =====
-- scheduler/scheduler.go: filters in batch, then the placement strategy; where the pass with soft
-- expressions fails, a second one without them.
pub mod Admission
pub mod Safety
pub mod Completeness
pub mod Samples
use classicswarm.Prelude.{ℕ, Bool, true, false, List, [], ◌∷◌, map}
use classicswarm.Text.{Str, codes, join}
use classicswarm.Externals.{Externals}
use classicswarm.Config.{ContainerConfig}
use classicswarm.Node.{Node}
use classicswarm.Filter.Outcome.{Outcome, ok, err, panic, no_node_available, ◌>>=◌}
use classicswarm.Filter.Batch.{Filter, name, apply_filters}
use classicswarm.Strategy.Sorting.{Sorter}
use classicswarm.Strategy.{WeightedNode, PlacementStrategy, strategy_name, rank_and_sort}

pub record Scheduler : Type 0 where
  pub strategy : PlacementStrategy
  pub filters : List Filter

module _ (x : Externals) (sorter : Sorter WeightedNode) (intn : ℕ → ℕ) where
  unfoldable pub rank_accepted : Scheduler → ContainerConfig → List Node → Outcome (List Node)
  unfolding rank_and_sort
  rank_accepted s config [] = err no_node_available
  rank_accepted s config (n ∷ nodes) = rank_and_sort sorter intn s.strategy config (n ∷ nodes)

  -- selectNodesForContainer
  unfoldable pub select_pass : Scheduler → List Node → ContainerConfig → Bool → Outcome (List Node)
  unfolding apply_filters rank_accepted
  select_pass s nodes config soft =
      apply_filters x s.filters config nodes soft >>= λ accepted. rank_accepted s config accepted

  -- SelectNodesForContainer
  unfoldable pub select_nodes_for_container :
      Scheduler → List Node → ContainerConfig → Outcome (List Node)
  unfolding select_pass
  select_nodes_for_container s nodes config = elim (select_pass s nodes config true) [
    | ok out ↦ ok out
    | err e ↦ select_pass s nodes config false
    | panic ↦ panic
  ]

-- Strategy and Filters, for the report of the cluster.
unfoldable pub reported_strategy : Scheduler → Str
unfolding strategy_name
reported_strategy s = strategy_name s.strategy

unfoldable pub reported_filters : Scheduler → Str
unfolding join name
reported_filters s = join (codes ", ") (map name s.filters)
