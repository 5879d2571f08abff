-- ===== src/Watchdog.antt =====
-- cluster/watchdog.go: what happens to the containers of an engine that fails or comes back. The
-- watchdog works on the cluster, whose operations are those of Cluster.antt and Cluster/Creating.antt,
-- and on the caches of the engines that its containers point to (Engine/Cache.antt); these engines
-- are those of the table, and one that has left it is not followed. The rest of the world is a
-- state of its own that answers the requests to the engines.
pub mod Caches
pub mod Fates
pub mod Samples
use classicswarm.Prelude.{
  ℕ, Bool, true, false, not, ◌&&◌, ◌||◌, List, [], ◌∷◌, Option, none, some, is_empty, ◌==◌,
  if◌then◌else◌,
}
use classicswarm.Text.{Str, codes, str_eq}
use classicswarm.Int64.{ℤ}
use classicswarm.Assoc.{Assoc, lookup, values}
use classicswarm.Config.{ContainerConfig, EndpointSettings, has_reschedule_policy, swarm_id}
use classicswarm.Container.{Container, EngineRef}
use classicswarm.Externals.{Externals}
use classicswarm.Filter.Outcome.{Outcome, ok, err, panic}
use classicswarm.Strategy.Sorting.{Sorter}
use classicswarm.Strategy.{WeightedNode}
use classicswarm.Node.{Node}
use classicswarm.Network.{Network, uniq}
use classicswarm.Network
use classicswarm.Engine.{Engine, ApiError, Response}
use classicswarm.Engine.Cache.{add_container, remove_container, refresh_containers}
use classicswarm.Engine.Caches.{list_containers, reference}
use classicswarm.Engine.Calls.{Listings, remove_created, start_container}
use classicswarm.Cluster.{Cluster, containers, networks}
use classicswarm.Cluster.Creation.{selection}
use classicswarm.Cluster.Creating.{
  Attempt, Run, Patterns, Result, done, failure, crashed, no_draw, zero_config, create_container,
}
use classicswarm.Cluster.Operations.{put_engine}

-- What the engines and the clock answer in a state of the world, and how it goes on after a
-- request. NetworkDisconnect tells whether there was an error.
pub record World (S : Type 0) : Type 0 where
  pub now : S → ℤ
  pub listings : (engine_id : Str) → S → Listings
  pub disconnect : EngineRef → (network container : Str) → S → S × Bool
  pub connect : EngineRef → (network container : Str) → EndpointSettings → S → S
  pub patterns : S → Patterns
  pub platforms : S → Response (List Str)
  pub answers : S → ℕ → Attempt
  pub started : Container → S → Option ApiError
  pub auto_remove : Container → Bool
  pub removed : Container → S → Option ApiError
  pub later : S → S

pub record State (S : Type 0) : Type 0 where
  pub cluster : Cluster
  pub world : S

-- What becomes of a container; `unfinished` is a panic of the manager, or that no random ID is
-- free.
pub data Fate : Type 0 where
  skipped nameless restored unfinished : Fate
  recreated : Container → Fate

-- RANDOMENGINE: an engine, an error, or a panic where there is none under the ID.
pub data Draw : Type 0 where
  drawn : EngineRef → Draw
  no_engine broken : Draw

unfoldable pub is_nameless : Str → Bool
unfolding str_eq
is_nameless name = is_empty name || str_eq name (codes "/")

-- The name without a slash in front.
unfoldable pub plain_name : Str → Str
plain_name [] = []
plain_name (b ∷ name) = if b == 47 then name else b ∷ name

unfoldable pub is_spanning : Option Network → Bool
unfolding str_eq
is_spanning none = false
is_spanning (some n) = str_eq n.scope (codes "global") || str_eq n.scope (codes "swarm")

unfoldable pub without_addresses : EndpointSettings → EndpointSettings
without_addresses e = record e {
  ip_address = [];
  ipam = elim e.ipam [ none ↦ none | some p ↦ some ([], []) ];
}

-- An operation on the engine under an ID; where it fails, its error is only logged.
unfoldable pub change_engine : Str → (Engine → Option Engine) → Cluster → Cluster
unfolding lookup put_engine
change_engine id of c = elim (lookup id c.engines) [
  | none ↦ c
  | some e ↦ elim (of e) [ none ↦ c | some f ↦ put_engine id f c ]
]

-- removeContainer and AddContainer of the container's engine.
unfoldable pub forget : Container → Cluster → Cluster
unfolding change_engine remove_container
forget c cluster = change_engine c.engine.id (remove_container c) cluster

unfoldable pub add_back : Container → Cluster → Cluster
unfolding change_engine add_container
add_back c cluster = change_engine c.engine.id (add_container c) cluster

-- The containers of the engine under an ID.
unfoldable pub cached : Str → Cluster → List Container
unfolding lookup list_containers
cached id c = elim (lookup id c.engines) [ none ↦ [] | some e ↦ list_containers e ]

unfoldable pub draw_of : Outcome (List Node) → Cluster → Draw
unfolding lookup reference
draw_of (err e) c = no_engine
draw_of panic c = broken
draw_of (ok []) c = broken
draw_of (ok (n ∷ ns)) c = elim (lookup n.id c.engines) [
  | none ↦ broken
  | some e ↦ drawn (reference e)
]

module _ {S : Type 0} (x : Externals) (sorter : Sorter WeightedNode) (intn : ℕ → ℕ)
    (w : World S) where
  unfoldable pub random_engine : Cluster → Draw
  unfolding selection draw_of
  random_engine c = draw_of (selection x sorter intn c zero_config) c

  -- The network of an endpoint, if the cluster knows it, is one of several engines.
  unfoldable pub is_shared : List Network → EndpointSettings → Bool
  unfolding is_spanning uniq Network.get
  is_shared ns e = is_spanning (Network.get x.truncate e.network_id (uniq ns))

  -- A shared network is disconnected from the old container.
  unfoldable pub detach_one :
      EngineRef → List Network → (name network : Str) → EndpointSettings → S → S × EndpointSettings
  unfolding is_shared without_addresses
  detach_one engine ns name network e s =
      if is_shared ns e
      then (let (t, gone) = w.disconnect engine network name s in
          (t, if gone then without_addresses e else e))
      else (s, e)

  -- The loop over the endpoints of the container: the endpoints that are recorded, and all of them
  -- as the loop leaves them.
  unfoldable pub detach :
      EngineRef
      → List Network
      → (name : Str) → Assoc EndpointSettings
      → S
      → S × (Assoc EndpointSettings × Assoc EndpointSettings)
  unfolding is_shared detach_one
  detach engine ns name [] s = (s, ([], []))
  detach engine ns name ((network, e) ∷ es) s =
      let (t, f) = detach_one engine ns name network e s in
      let (u, (shared, every)) = detach engine ns name es t in
      (u, (if is_shared ns e then (network, f) ∷ shared else shared, (network, f) ∷ every))

  unfoldable pub own_endpoints : List Network → Assoc EndpointSettings → Assoc EndpointSettings
  unfolding is_shared
  own_endpoints ns [] = []
  own_endpoints ns ((network, e) ∷ es) =
      if is_shared ns e then own_endpoints ns es else (network, e) ∷ own_endpoints ns es

  unfoldable pub connect_each : EngineRef → (name : Str) → Assoc EndpointSettings → S → S
  connect_each engine name [] s = s
  connect_each engine name ((network, e) ∷ es) s =
      connect_each engine name es (w.connect engine network name e s)

  -- StartContainer; its error is only logged.
  unfoldable pub start : Container → State S → State S
  unfolding change_engine start_container
  start k s = record {
    cluster =
        change_engine k.engine.id
          (λ e.
            some
              (start_container x.json (w.now s.world) (w.started k s.world) (w.auto_remove k)
                (w.listings k.engine.id s.world) k e).0)
          s.cluster;
    world = w.later s.world;
  }

  -- CreateContainer for the container's configuration and name.
  unfoldable pub create_again : Container → State S → Run × Result
  unfolding create_container
  create_again c s =
      create_container x sorter intn c.info.name (w.answers s.world) (w.patterns s.world)
        (w.platforms s.world) (record { cluster = s.cluster; config = c.config; attempts = 0 })

  -- The shared networks are connected to the new container.
  unfoldable pub attach : Container → (name : Str) → Assoc EndpointSettings → Cluster → S → State S
  unfolding connect_each plain_name
  attach k name shared cluster v = record {
    cluster = cluster;
    world = connect_each k.engine (plain_name name) shared (w.later v);
  }

  -- The new container, or the old one in its cache again, with the configuration as CreateContainer
  -- left it. `shared` are the recorded endpoints, and v is the world.
  unfoldable pub settle : Container → Assoc EndpointSettings → S → Run × Result → State S × Fate
  unfolding attach start add_back
  settle c shared v (r, failure f) = (
    record { cluster = add_back (record c { config = r.config }) r.cluster; world = w.later v },
    restored,
  )
  settle c shared v (r, crashed) = (record { cluster = r.cluster; world = w.later v }, unfinished)
  settle c shared v (r, no_draw) = (record { cluster = r.cluster; world = w.later v }, unfinished)
  settle c shared v (r, done k) =
      let t = attach k c.info.name shared r.cluster v in
      (if c.info.running then start k t else t, recreated k)

  unfoldable pub with_own_endpoints : Cluster → Container → Container
  unfolding own_endpoints networks
  with_own_endpoints cluster c = record c {
    config = record c.config {
      endpoints_config = own_endpoints (networks cluster) c.config.endpoints_config;
    };
  }

  unfoldable pub recreate : Container → Assoc EndpointSettings → State S → State S × Fate
  unfolding with_own_endpoints settle create_again
  recreate c shared s =
      let d = with_own_endpoints s.cluster c in settle d shared s.world (create_again d s)

  unfoldable pub detach_and_recreate : Container → EngineRef → State S → State S × Fate
  unfolding detach recreate plain_name networks
  detach_and_recreate c engine s =
      let (v, (shared, every)) =
        detach engine (networks s.cluster) (plain_name c.info.name) c.info.networks s.world in
      recreate (record c { info = record c.info { networks = every } }) shared
        (record s { world = v })

  -- The part behind removeContainer, for a container with a name.
  unfoldable pub move : Container → State S → State S × Fate
  unfolding recreate detach_and_recreate random_engine add_back
  move c s = if is_empty c.info.networks then recreate c [] s else elim (random_engine s.cluster) [
    | no_engine ↦ (record s { cluster = add_back c s.cluster }, restored)
    | broken ↦ (s, unfinished)
    | drawn engine ↦ detach_and_recreate c engine s
  ]

  -- The body of the loop of rescheduleContainers.
  unfoldable pub reschedule_container : Container → State S → State S × Fate
  unfolding has_reschedule_policy is_nameless move forget
  reschedule_container c s =
      if not (has_reschedule_policy x.json (codes "on-node-failure") c.config)
      then (s, skipped)
      else let t = record s { cluster = forget c s.cluster } in
        if is_nameless c.info.name then (t, nameless) else move c t

  -- The loop ends where the manager does.
  unfoldable pub reschedule_each : List Container → State S → State S
  unfolding reschedule_container
  reschedule_each [] s = s
  reschedule_each (c ∷ cs) s =
      let (t, f) = reschedule_container c s in
      let rest = reschedule_each cs t in
      elim f [
        | skipped ↦ rest
        | nameless ↦ rest
        | restored ↦ rest
        | recreated k ↦ rest
        | unfinished ↦ t
      ]

  unfoldable pub reschedule_containers : (engine_id : Str) → State S → State S
  unfolding reschedule_each cached
  reschedule_containers id s = reschedule_each (cached id s.cluster) s

  -- RemoveContainer of the engine; its error is only logged.
  unfoldable pub remove : (engine_id : Str) → Container → State S → State S
  unfolding change_engine remove_created
  remove id c s = record {
    cluster =
        change_engine id
          (λ e. some (remove_created x.json (w.now s.world) (w.removed c s.world) c e).0) s.cluster;
    world = w.later s.world;
  }

  -- The inner loop of removeDuplicateContainers: a removal for each container of the cluster with
  -- the same Swarm ID on another engine.
  unfoldable pub remove_for : (engine_id : Str) → Container → List Container → State S → State S
  unfolding swarm_id str_eq remove
  remove_for id c [] s = s
  remove_for id c (d ∷ ds) s = remove_for id c ds (
      if str_eq (swarm_id d.config) (swarm_id c.config) && not (str_eq d.engine.id c.engine.id)
      then remove id c s
      else s)

  unfoldable pub remove_each : (engine_id : Str) → List Container → State S → State S
  unfolding remove_for swarm_id containers
  remove_each id [] s = s
  remove_each id (c ∷ cs) s =
      remove_each id cs
        (if is_empty (swarm_id c.config) then s else remove_for id c (containers s.cluster) s)

  -- RefreshContainers(false)
  unfoldable pub refresh : (engine_id : Str) → State S → State S
  unfolding change_engine refresh_containers
  refresh id s =
      let l = w.listings id s.world in
      record {
        cluster =
            change_engine id
              (λ e.
                some
                  (refresh_containers x.json (w.now s.world) false l.inspect l.all_containers e).0)
              s.cluster;
        world = w.later s.world;
      }

  unfoldable pub remove_duplicate_containers : (engine_id : Str) → State S → State S
  unfolding remove_each refresh cached
  remove_duplicate_containers id s = let t = refresh id s in remove_each id (cached id t.cluster) t

  -- Handle; what it starts in the background is done at once.
  unfoldable pub handle : (from status engine_id : Str) → State S → State S
  unfolding str_eq remove_duplicate_containers reschedule_containers
  handle from status id s =
      if not (str_eq from (codes "swarm"))
      then s
      else if str_eq status (codes "engine_connect") || str_eq status (codes "engine_reconnect")
      then remove_duplicate_containers id s
      else if str_eq status (codes "engine_disconnect")
      then reschedule_containers id s
      else s
