-- ===== src/Cluster/Creation.antt =====
-- cluster/swarm/cluster.go, createContainer: the critical section that chooses an engine and enters
-- the container among the pending ones, and the one that takes it out again. In between the engine
-- is asked to create the container. The configuration is changed in place.
use classicswarm.Prelude.{
  ℕ, Bool, true, false, not, List, [], ◌∷◌, ◌++◌, Option, none, some, find_first, is_empty,
  if◌then◌else◌,
}
use classicswarm.Text.{Str, codes, str_eq}
use classicswarm.Assoc.{lookup, insert, delete}
use classicswarm.Config.{
  ContainerConfig, swarm_id, set_swarm_id, have_node_constraint, add_constraint, add_affinity,
  remove_affinity,
}
use classicswarm.Externals.{Externals}
use classicswarm.Network.{Network}
use classicswarm.Network
use classicswarm.Node.{Node}
use classicswarm.Filter.Outcome.{Outcome, Error, ok, err, panic}
use classicswarm.Strategy.Sorting.{Sorter}
use classicswarm.Strategy.{WeightedNode}
use classicswarm.Scheduler.{select_nodes_for_container}
use classicswarm.Engine.{Engine}
use classicswarm.Engine.Caches.{reference}
use classicswarm.Cluster.{Cluster, check_name_uniqueness, container, list_nodes, networks, or_else}

-- How the first section ends: with the Swarm ID and the engine and its
-- key in the table, with one of its errors, with a
-- panic, or, where the given random IDs are all in use, not at all.
pub data Placement : Type 0 where
  placed : (id key : Str) → Engine → Placement
  name_conflict engine_gone crash undrawn : Placement
  unplaceable : Error → Placement

unfoldable pub is_free : Option Str → Bool
is_free none = true
is_free (some s) = false

module _ (x : Externals) where
  unfoldable pub is_unknown : Cluster → Str → Bool
  unfolding container
  is_unknown c id = elim (container x.truncate id c) [ none ↦ true | some k ↦ false ]

  -- generateUniqueID; `draws` are what the random source returns.
  unfoldable pub generate_unique_id : List Str → Cluster → Option Str
  unfolding find_first is_unknown
  generate_unique_id draws c = find_first (is_unknown c) draws

  -- A network mode that names a local network ties the container to the engine of the network.
  unfoldable pub tie_to_network : Option Network → ContainerConfig → ContainerConfig
  unfolding str_eq have_node_constraint add_constraint or_else
  tie_to_network none config = config
  tie_to_network (some n) config =
      if str_eq n.scope (codes "local")
      then (let tied =
            if not (have_node_constraint x.json config)
            then or_else config (add_constraint x.json (codes "node==~" ++ n.engine.name) config)
            else config in
          record tied { host_config = record tied.host_config { network_mode = n.name } })
      else config

  unfoldable pub with_network : Cluster → ContainerConfig → ContainerConfig
  unfolding tie_to_network networks Network.get
  with_network c config =
      tie_to_network (Network.get x.truncate config.host_config.network_mode (networks c)) config

  unfoldable pub image_affinity : ContainerConfig → Str
  image_affinity config = codes "image==" ++ config.image

  -- The two edits around the selection.
  unfoldable pub with_affinity : Bool → ContainerConfig → ContainerConfig
  unfolding add_affinity image_affinity or_else
  with_affinity affine config =
      if affine then or_else config (add_affinity x.json (image_affinity config) config) else config

  unfoldable pub without_affinity : Bool → ContainerConfig → ContainerConfig
  unfolding remove_affinity image_affinity or_else
  without_affinity affine config =
      if affine
      then or_else config (remove_affinity x.json (image_affinity config) config)
      else config

-- The entry for the first of the selected nodes.
unfoldable pub enter :
    (id name : Str) → ContainerConfig → Outcome (List Node) → Cluster → Cluster × Placement
unfolding lookup insert reference
enter id name config (err e) c = (c, unplaceable e)
enter id name config panic c = (c, crash)
enter id name config (ok []) c = (c, crash)
enter id name config (ok (n ∷ ns)) c = elim (lookup n.id c.engines) [
  | none ↦ (c, engine_gone)
  | some e ↦ (
    record c {
      pending_containers =
          insert id (record { config = config; name = name; engine = reference e })
            c.pending_containers;
    },
    placed id n.id e,
  )
]

module _ (x : Externals) (sorter : Sorter WeightedNode) (intn : ℕ → ℕ) where
  unfoldable pub selection : Cluster → ContainerConfig → Outcome (List Node)
  unfolding list_nodes select_nodes_for_container
  selection c config = elim (list_nodes x.truncate c) [
    | none ↦ panic
    | some ns ↦ select_nodes_for_container x sorter intn c.scheduler ns config
  ]

  -- From the Swarm ID on.
  unfoldable pub choose :
      (affine : Bool) (id name : Str)
      → ContainerConfig
      → Cluster
      → (Cluster × Placement) × ContainerConfig
  unfolding with_network with_affinity without_affinity selection enter
  choose affine id name config c =
      let asked = with_affinity x affine (with_network x c config) in
      let kept = without_affinity x affine asked in (enter id name kept (selection c asked) c, kept)

  -- The first section of createContainer.
  unfoldable pub place :
      (affine : Bool) (draws : List Str) (name : Str)
      → ContainerConfig
      → Cluster
      → (Cluster × Placement) × ContainerConfig
  unfolding check_name_uniqueness is_empty swarm_id set_swarm_id generate_unique_id choose
  place affine draws name config c =
      if not (check_name_uniqueness name c)
      then ((c, name_conflict), config)
      else if is_empty (swarm_id config)
      then elim (generate_unique_id x draws c) [
        | none ↦ ((c, undrawn), config)
        | some id ↦ choose affine id name (set_swarm_id id config) c
      ]
      else choose affine (swarm_id config) name config c

-- The second one.
unfoldable pub finish : (id : Str) → Cluster → Cluster
unfolding delete
finish id c = record c { pending_containers = delete id c.pending_containers }
