-- ===== src/Cluster.antt =====
-- cluster/swarm/cluster.go: the cluster as the API sees it: the containers, images, networks and
-- volumes of all validated engines, the names in use, and the nodes that the scheduler gets. The
-- table of engines is taken by value here; Registry.antt has it with the engines as objects.
pub mod Creation
pub mod Errors
pub mod Creating
pub mod Requests
pub mod Naming
pub mod Placing
pub mod InFlight
pub mod Samples
pub mod Operations
pub mod Networks
pub mod Volumes
pub mod Forgetting
pub mod NetworkSamples
pub mod Attempts
use classicswarm.Prelude.{
  ℕ, Bool, true, false, not, ◌&&◌, ◌||◌, List, [], ◌∷◌, ◌++◌, Option, none, some, any, map,
  find_first, is_empty, if◌then◌else◌,
}
use classicswarm.Text.{Str, codes, str_eq}
use classicswarm.Int64.{ℤ, pos, ◌+ℤ◌}
use classicswarm.Assoc.{Assoc, lookup, values}
use classicswarm.Config.{HostConfig, ContainerConfig, swarm_id}
use classicswarm.Container.{Container, Info, EngineRef, get}
use classicswarm.Image.{Image}
use classicswarm.Network.{Network, Volume}
use classicswarm.Node.{Node, find_container, add_container}
use classicswarm.Scheduler.{Scheduler}
use classicswarm.Engine.{Engine, total_memory, total_cpus}
use classicswarm.Engine.Caches.{list_containers, list_networks, list_volumes, find_image}
use classicswarm.Engine.View.{new_node}

pub record PendingContainer : Type 0 where
  pub config : ContainerConfig
  pub name : Str
  pub engine : EngineRef

-- &containertypes.HostConfig{}
abbrev pub zero_host : HostConfig
zero_host = record {
  memory = pos 0;
  memory_swap = pos 0;
  cpu_shares = pos 0;
  cpuset_cpus = [];
  network_mode = [];
  volumes_from = [];
  links = [];
  port_bindings = [];
}

abbrev zero_info : Info
zero_info = record {
  name = [];
  running = false;
  paused = false;
  restarting = false;
  host_config = some zero_host;
  exposed_ports = [];
  ports = none;
  networks = [];
}

unfoldable pub to_container : PendingContainer → Container
to_container p = record {
  id = [];
  names = if is_empty p.name then [] else (codes "/" ++ p.name) ∷ [];
  labels = p.config.labels;
  config = p.config;
  info = zero_info;
  engine = p.engine;
}

-- `engines` is indexed by ID, `pending_containers` by Swarm ID; `create_retry` is not negative,
-- as NewCluster has tested.
pub record Cluster : Type 0 where
  pub engines : Assoc Engine
  pub pending_containers : Assoc PendingContainer
  pub scheduler : Scheduler
  pub create_retry : ℕ

-- `out = append(out, of(e)...)` for all engines.
unfoldable pub gather_all : {A : Type 0} → (Engine → List A) → List Engine → List A
gather_all of [] = []
gather_all of (e ∷ es) = of e ++ gather_all of es

unfoldable pub containers : Cluster → List Container
unfolding gather_all list_containers values
containers c = gather_all list_containers (values c.engines)

unfoldable pub networks : Cluster → List Network
unfolding gather_all list_networks values
networks c = gather_all list_networks (values c.engines)

unfoldable pub volumes : Cluster → List Volume
unfolding gather_all list_volumes values
volumes c = gather_all list_volumes (values c.engines)

unfoldable pub images : Cluster → List Image
unfolding gather_all values
images c = gather_all (λ e. e.images) (values c.engines)

-- The first image that an engine has.
unfoldable pub first_image : Str → List Engine → Option Image
unfolding find_image
first_image query [] = none
first_image query (e ∷ es) = elim (find_image query e) [
  | some i ↦ some i
  | none ↦ first_image query es
]

unfoldable pub image : Str → Cluster → Option Image
unfolding first_image values
image [] c = none
image (b ∷ query) c = first_image (b ∷ query) (values c.engines)

unfoldable pub is_name : Str → Str → Bool
unfolding str_eq
is_name name cname = str_eq cname name || str_eq cname (codes "/" ++ name)

unfoldable pub bears : Str → Container → Bool
unfolding is_name any
bears name k = any (is_name name) k.names

unfoldable pub is_awaited : Str → Assoc PendingContainer → Bool
unfolding any values str_eq
is_awaited name ps = any (λ p. str_eq p.name name) (values ps)

unfoldable pub check_name_uniqueness : Str → Cluster → Bool
unfolding is_empty bears any containers is_awaited
check_name_uniqueness name c =
    is_empty name
    || (not (any (bears name) (containers c)) && not (is_awaited name c.pending_containers))

unfoldable pub or_else : {A : Type 0} → A → Option A → A
or_else a none = a
or_else a (some b) = b

module _ (truncate : Str → Str) where
  unfoldable pub container : Str → Cluster → Option Container
  unfolding get containers
  container [] c = none
  container (b ∷ query) c = get truncate (b ∷ query) (containers c)

  -- A pending container of the engine is put on its node unless the node has it already; where the
  -- resources do not suffice, the node stays as it is.
  unfoldable pub add_pending : Engine → List PendingContainer → Node → Node
  unfolding find_container swarm_id add_container str_eq to_container or_else
  add_pending e [] n = n
  add_pending e (p ∷ ps) n =
      add_pending e ps (elim (find_container truncate n (swarm_id p.config)) [
        | some k ↦ n
        | none ↦ if str_eq p.engine.id e.id then or_else n (add_container n (to_container p)) else n
      ])

  -- listNodes; `none` is the division by zero of a health indicator.
  unfoldable pub nodes_of : List PendingContainer → List Engine → Option (List Node)
  unfolding new_node add_pending
  nodes_of ps [] = some []
  nodes_of ps (e ∷ es) = elim (new_node e) [
    | none ↦ none
    | some n ↦ elim (nodes_of ps es) [ none ↦ none | some ns ↦ some (add_pending e ps n ∷ ns) ]
  ]

  unfoldable pub list_nodes : Cluster → Option (List Node)
  unfolding nodes_of values
  list_nodes c = nodes_of (values c.pending_containers) (values c.engines)

-- TotalMemory and TotalCpus; `none` never occurs.
unfoldable pub sum_of : (Engine → Option ℤ) → List Engine → Option ℤ
unfolding ◌+ℤ◌
sum_of amount [] = some (pos 0)
sum_of amount (e ∷ es) = elim (amount e) [
  | none ↦ none
  | some n ↦ elim (sum_of amount es) [ none ↦ none | some m ↦ some (n +ℤ m) ]
]

unfoldable pub cluster_memory : Cluster → Option ℤ
unfolding sum_of total_memory values
cluster_memory c = sum_of total_memory (values c.engines)

unfoldable pub cluster_cpus : Cluster → Option ℤ
unfolding sum_of total_cpus values
cluster_cpus c = sum_of total_cpus (values c.engines)

-- EngineNames: the slice is made with as many empty names as there are engines, and the names are
-- appended to it.
unfoldable pub engine_names : Cluster → List Str
unfolding values
engine_names c = map (λ e. []) (values c.engines) ++ map (λ e. e.name) (values c.engines)
