-- ===== src/Scheduler/Samples.antt =====
-- Two nodes and a configuration, and what the scheduler, the filters and the strategies do with
-- them.
use mathlib.Core.List.{Perm}
use classicswarm.Prelude.{
  ℕ, ◌-◌, ◌≡◌, ◌≢◌, refl, sym, ◌∙◌, all, ◌↔◌, inl, true, List, [], ◌∷◌, ◌++◌, is_empty, some, arith,
  Every, In,
}
use classicswarm.Text.{codes, str_eq}
use classicswarm.Int64.{pos}
use classicswarm.Externals.{Externals}
use classicswarm.Config.Codec.{framed}
use classicswarm.Config.{ContainerConfig}
use classicswarm.Config.Samples.{plain_host, plain_config}
use classicswarm.Node.{Node, is_healthy}
use classicswarm.Filter.Capacity.{has_free_slot}
use classicswarm.Filter.Outcome.{ok, err, panic, conditions}
use classicswarm.Filter.Batch.{filters, health, constraint, slots, run}
use classicswarm.Strategy.Sorting.{IsSorted, insertion_sorter}
use classicswarm.Strategy.Weight.{accepted, Weighed, weigh_all-Weighed}
use classicswarm.Strategy.Measure.{IsWithin, Measured, weigh_all_iff}
use classicswarm.Strategy.Gauge.{Gauged}
use classicswarm.Strategy.Health.{far_healthier, rank_and_sort-healthier}
use classicswarm.Strategy.Ranking.{Ranked, rank_and_sort-Ranked}
use classicswarm.Strategy.Random.{IsBounded, rank_and_sort_random}
use classicswarm.Strategy.{
  WeightedNode, spread, binpack, random, rank_and_sort, spread_factor, too_small, cpu_score,
  memory_score, nodes_of,
}
use classicswarm.Scheduler.Admission.{admits, run-admits}
use classicswarm.Scheduler.Safety.{Placeable, select-Placeable}
use classicswarm.Scheduler.Completeness.{select_nodes_complete}
use classicswarm.Scheduler.{Scheduler, select_pass, select_nodes_for_container}

-- Regular expressions that match one text only, IDs that are never cut, and one unspecified
-- address.
abbrev pub literal : Externals
literal = record {
  json = framed;
  compile = λ pattern. some (λ s. str_eq (codes "^" ++ (s ++ codes "$")) pattern);
  truncate = λ id. id;
  unspecified_ip = str_eq (codes "0.0.0.0");
}

abbrev pub last : ℕ → ℕ
last n = n - 1

pub last-IsBounded : IsBounded last
last-IsBounded n h = omega arith

abbrev pub node_a : Node
node_a = record {
  id = codes "A";
  ip = codes "10.0.0.1";
  addr = codes "10.0.0.1:2375";
  name = codes "alpha";
  labels = (codes "disk", codes "ssd") ∷ [];
  containers = [];
  images = [];
  used_memory = pos 4;
  used_cpus = pos 1;
  total_memory = pos 8;
  total_cpus = pos 4;
  health_indicator = pos 100;
}

abbrev pub node_b : Node
node_b = record node_a {
  id = codes "B";
  name = codes "beta";
  labels = [];
  used_memory = pos 0;
  health_indicator = pos 50;
}

abbrev pub nodes : List Node
nodes = node_a ∷ node_b ∷ []

abbrev pub request : ContainerConfig
request = record plain_config { host_config = record plain_host { memory = pos 2 } }

abbrev pub on_disk : ContainerConfig
on_disk = record plain_config {
  labels = (codes "com.docker.swarm.constraints", codes "ejtl>>tte" ++ 0 ∷ []) ∷ [];
}

abbrev pub spreading : Scheduler
spreading = record { strategy = spread; filters = filters }

spread_order :
    select_nodes_for_container literal insertion_sorter last spreading nodes request ≡ ok nodes
unfolding select_nodes_for_container insertion_sorter
spread_order = refl

spread_refused :
    select_nodes_for_container literal insertion_sorter last spreading (node_b ∷ []) on_disk
    ≡ err (conditions (codes "\n[available container slots]\n[disk==ssd]"))
unfolding select_nodes_for_container is_empty
spread_refused = refl

select-Placeable_example : (nodes ≢ []) × Every (Placeable literal spreading request nodes) nodes
select-Placeable_example =
    select-Placeable literal insertion_sorter last last-IsBounded spreading request nodes nodes
      spread_order

rank_and_sort-Ranked_example :
    Ranked request nodes (rank_and_sort insertion_sorter last binpack request nodes)
rank_and_sort-Ranked_example =
    rank_and_sort-Ranked insertion_sorter last binpack request nodes (λ e. cc)

weigh_all-Weighed_example : (ws : List WeightedNode) × Weighed request spread_factor nodes ws
weigh_all-Weighed_example = weigh_all-Weighed request spread_factor nodes

rank_and_sort_random_example :
    (out : List Node) × (rank_and_sort insertion_sorter last random request nodes ≡ ok out)
    × Perm out nodes
rank_and_sort_random_example =
    rank_and_sort_random insertion_sorter last request nodes last-IsBounded

abbrev measured_a : Measured request node_a
measured_a = record {
  cpus_used = 1;
  cpus_requested = 0;
  cpus_total = 4;
  memory_used = 4;
  memory_requested = 2;
  memory_total = 8;
  used_cpus = refl;
  cpu_shares = refl;
  total_cpus = refl;
  used_memory = refl;
  memory = refl;
  total_memory = refl;
  cpus_fit = omega arith;
  memory_fits = omega arith;
}

abbrev measured_b : Measured request node_b
measured_b = record {
  cpus_used = 1;
  cpus_requested = 0;
  cpus_total = 4;
  memory_used = 0;
  memory_requested = 2;
  memory_total = 8;
  used_cpus = refl;
  cpu_shares = refl;
  total_cpus = refl;
  used_memory = refl;
  memory = refl;
  total_memory = refl;
  cpus_fit = omega arith;
  memory_fits = omega arith;
}

abbrev weighed : List WeightedNode
weighed = (weigh_all-Weighed request (pos 1) nodes).0

weigh_all_iff_example : In node_a (nodes_of weighed) ↔ (IsWithin 1 0 4 × IsWithin 4 2 8)
weigh_all_iff_example =
    weigh_all_iff request (pos 1) nodes weighed node_a
      (weigh_all-Weighed request (pos 1) nodes).1.some_ws (inl refl) measured_a

abbrev gauged : Every (Gauged request) nodes
gauged = (
  record { measured = measured_a; health = 100; health_indicator = refl; health_le = omega arith },
  (
    record { measured = measured_b; health = 50; health_indicator = refl; health_le = omega arith },
    tt,
  ),
)

spread_ranked : rank_and_sort insertion_sorter last spread request nodes ≡ ok nodes
unfolding rank_and_sort insertion_sorter
spread_ranked = refl

rank_and_sort-healthier_example : IsSorted far_healthier nodes
rank_and_sort-healthier_example =
    rank_and_sort-healthier insertion_sorter last spread request nodes (λ e. cc) gauged nodes
      spread_ranked

run_constraint : run literal constraint on_disk nodes true ≡ ok (node_a ∷ [])
unfolding run
run_constraint = refl

run-admits_example : In node_a nodes × (admits literal on_disk node_a constraint ≡ true)
run-admits_example =
    run-admits literal on_disk true constraint nodes node_a run_constraint (inl refl)

-- The health filter and the slots filter only.
abbrev slim : Scheduler
slim = record { strategy = spread; filters = health ∷ slots ∷ [] }

slim_pass : select_pass literal insertion_sorter last slim nodes request true ≡ ok nodes
unfolding select_pass insertion_sorter
slim_pass = refl

slim-not-panic : select_pass literal insertion_sorter last slim nodes request true ≢ panic
slim-not-panic e = let q : ok nodes ≡ panic = sym slim_pass ∙ e in cc

slim-admits : all (admits literal request node_a) slim.filters ≡ true
unfolding admits all is_healthy has_free_slot str_eq
slim-admits = refl

request-accepted : accepted request node_a ≡ true
unfolding accepted too_small cpu_score memory_score
request-accepted = refl

select_nodes_complete_example :
    (out : List Node) × (select_nodes_for_container literal insertion_sorter last slim nodes request
      ≡ ok out)
select_nodes_complete_example =
    select_nodes_complete literal insertion_sorter last last-IsBounded slim request nodes node_a
      (inl refl) slim-admits request-accepted slim-not-panic
