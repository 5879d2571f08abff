-- ===== src/Cluster/Placing.antt =====
-- What createContainer decides while it holds the lock of the scheduler.
use classicswarm.Prelude.{
  ℕ, ◌≡◌, refl, Bool, List, [], ◌∷◌, some, arith, is_empty, inl, inr, Bool-cases, Option-cases,
}
use classicswarm.Text.{Str}
use classicswarm.Assoc.{lookup, insert}
use classicswarm.Config.{ContainerConfig, swarm_id, set_swarm_id}
use classicswarm.Externals.{Externals}
use classicswarm.Node.{Node}
use classicswarm.Filter.Outcome.{Outcome, ok, err, panic}
use classicswarm.Strategy.Sorting.{Sorter}
use classicswarm.Strategy.Random.{IsBounded}
use classicswarm.Strategy.{WeightedNode}
use classicswarm.Scheduler.{select_nodes_for_container}
use classicswarm.Scheduler.Safety.{Placeable, select-Placeable}
use classicswarm.Engine.{Engine}
use classicswarm.Engine.Caches.{reference}
use classicswarm.Cluster.{Cluster, check_name_uniqueness, list_nodes}
use classicswarm.Cluster.Naming.{IsFree, check_name_uniqueness-IsFree}
use classicswarm.Cluster.Requests.{
  IsAsked, IsKept, without_affinity-IsKept, with_affinity-Edited, set_swarm_id-IsAsked,
}
use classicswarm.Cluster.Creation.{
  Placement, placed, name_conflict, engine_gone, crash, undrawn, unplaceable, with_network,
  with_affinity, without_affinity, enter, selection, choose, place, generate_unique_id,
}

-- What is shown of a container that was placed on the engine e, which stands under `key`: the name
-- was free, the scheduler chose a node of that ID for what is asked for the configuration, and all
-- that changed in the cluster is the entry among the pending containers.
pub record Placed (x : Externals) (affine : Bool) (config : ContainerConfig) (name : Str)
    (c : Cluster) (id key : Str) (e : Engine) (d : Cluster) (kept : ContainerConfig) : Type 0 where
  pub free : IsFree name c
  pub nodes : List Node
  pub listed : list_nodes x.truncate c ≡ some nodes
  pub asked : ContainerConfig
  pub requested : IsAsked x affine c config asked
  pub restored : IsKept x affine asked kept
  pub node : Node
  pub chosen : Placeable x c.scheduler asked nodes node
  pub under : node.id ≡ key
  pub registered : lookup key c.engines ≡ some e
  pub entered : d ≡ record c {
    pending_containers =
        insert id
          (record { config = kept; name = name; engine = reference e })
          c.pending_containers;
  }

module _ (x : Externals) (affine : Bool) (config : ContainerConfig) (name : Str) (c : Cluster) where
  abbrev pub Decided : (Cluster × Placement) × ContainerConfig → Type 0
  Decided ((d, placed id key e), kept) = Placed x affine config name c id key e d kept
  Decided ((d, name_conflict), kept) = d ≡ c
  Decided ((d, engine_gone), kept) = d ≡ c
  Decided ((d, crash), kept) = d ≡ c
  Decided ((d, undrawn), kept) = d ≡ c
  Decided ((d, unplaceable e), kept) = d ≡ c

module _ (x : Externals) (sorter : Sorter WeightedNode) (intn : ℕ → ℕ)
    (bounded : IsBounded intn) where
  selected :
      (c : Cluster) (asked : ContainerConfig) (n : Node) (ns : List Node)
      → selection x sorter intn c asked ≡ ok (n ∷ ns)
      → (nodes : List Node) × (list_nodes x.truncate c ≡ some nodes)
        × Placeable x c.scheduler asked nodes n
  unfolding selection
  selected c asked n ns h = elim (Option-cases (list_nodes x.truncate c)) [
    | inl e ↦ absurd (ground arith)
    | inr (nodes, e) ↦
        let g : select_nodes_for_container x sorter intn c.scheduler nodes asked ≡ ok (n ∷ ns) =
          rw (e, selection) at h in
        (nodes, e, (select-Placeable x sorter intn bounded c.scheduler asked nodes (n ∷ ns) g).1.0)
  ]

  module _ (affine : Bool) (config : ContainerConfig) (name : Str) (c : Cluster)
      (free : IsFree name c) where
    enter-Decided :
        (id : Str) (asked : ContainerConfig) (o : Outcome (List Node))
        → IsAsked x affine c config asked
        → selection x sorter intn c asked ≡ o
        → Decided x affine config name c
            (enter id name (without_affinity x affine asked) o c, without_affinity x affine asked)
    unfolding enter
    enter-Decided id asked (err e) q h = refl
    enter-Decided id asked panic q h = refl
    enter-Decided id asked (ok []) q h = refl
    enter-Decided id asked (ok (n ∷ ns)) q h = elim (Option-cases (lookup n.id c.engines)) [
      | inl e ↦ rw (e, enter) refl
      | inr (g, e) ↦
          let (nodes, l, p) = selected c asked n ns h in
          rw (e, enter)
            (record {
              free = free;
              nodes = nodes;
              listed = l;
              asked = asked;
              requested = q;
              restored = without_affinity-IsKept x affine asked;
              node = n;
              chosen = p;
              under = refl;
              registered = e;
              entered = refl;
            })
    ]

    choose-Decided :
        (id : Str) (given : ContainerConfig)
        → ((asked : ContainerConfig)
            → IsAsked x affine c given asked
            → IsAsked x affine c config asked)
        → Decided x affine config name c (choose x sorter intn affine id name given c)
    unfolding choose
    choose-Decided id given same =
        let asked = with_affinity x affine (with_network x c given) in
        enter-Decided id asked (selection x sorter intn c asked)
          (same asked (with_affinity-Edited x affine c given)) refl

  -- If createContainer places a container: no container of a registered engine bears its name, with
  -- or without a slash, and no pending one has it, unless the name is empty; the engine is
  -- registered, and it is that of a node which the scheduler was offered and which, for what is
  -- asked, meets the demand of every filter of the scheduler that is not soft and has enough
  -- resources if the strategy weighs nodes. What is asked is the configuration; where its network
  -- mode names a local network, with the name of that network and, unless it has a hard constraint to a
  -- node, one to the engine of the network; and in the attempt with the image affinity with that at
  -- the end. The cluster changes by the entry of the container among the pending ones, with the
  -- engine and what was asked but for that affinity. On every other branch the cluster stays as it
  -- is. The source of random numbers keeps to its bound.
  pub place-Decided :
      (affine : Bool) (draws : List Str) (name : Str) (config : ContainerConfig) (c : Cluster)
      → Decided x affine config name c (place x sorter intn affine draws name config c)
  unfolding place
  place-Decided affine draws name config c = elim (Bool-cases (check_name_uniqueness name c)) [
    | inr e ↦ rw (e, place) refl
    | inl e ↦ elim (Bool-cases (is_empty (swarm_id config))) [
      | inr f ↦
          rw (e, place, f)
            (choose-Decided affine config name c (check_name_uniqueness-IsFree name c e)
              (swarm_id config) config (λ a q. q))
      | inl f ↦ elim (Option-cases (generate_unique_id x draws c)) [
        | inl g ↦ rw (e, place, f, g) refl
        | inr (id, g) ↦
            rw (e, place, f, g)
              (choose-Decided affine config name c (check_name_uniqueness-IsFree name c e) id
                (set_swarm_id id config) (set_swarm_id-IsAsked x affine c id config))
      ]
    ]
  ]
