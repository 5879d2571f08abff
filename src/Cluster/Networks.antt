-- ===== src/Cluster/Networks.antt =====
-- cluster/swarm/cluster.go: RemoveNetwork and CreateNetwork. A global network is known to all
-- engines. The answers of the engines are arguments, by the key of the engine in the table.
use classicswarm.Prelude.{
  ℕ, Bool, true, false, not, ◌&&◌, [], ◌∷◌, ◌++◌, Option, none, some, if◌then◌else◌,
}
use classicswarm.Text.{Str, codes, str_eq, cut}
use classicswarm.Int64.{ℤ}
use classicswarm.Assoc.{Assoc, lookup}
use classicswarm.Config.{ContainerConfig, build_container_config}
use classicswarm.Externals.{Externals}
use classicswarm.Network.{Network, get_volume}
use classicswarm.Network
use classicswarm.Filter.Outcome.{Error, ok, err, panic}
use classicswarm.Strategy.Sorting.{Sorter}
use classicswarm.Strategy.{WeightedNode}
use classicswarm.Engine.{Engine, ApiError, Response, answered, failed}
use classicswarm.Engine.Caches.{
  list_networks, remove_network, delete_network, add_network, create_network,
}
use classicswarm.Cluster.{Cluster}
use classicswarm.Cluster.Creation.{selection}
use classicswarm.Cluster.Creating.{zero_config}
use classicswarm.Cluster.Operations.{put_engine}

unfoldable pub each_engine : (Engine → Engine) → Assoc Engine → Assoc Engine
each_engine f [] = []
each_engine f ((key, e) ∷ es) = (key, f e) ∷ each_engine f es

-- The loop of RemoveNetwork over the engines, until one of them removes the network.
unfoldable pub try_engines :
    ℤ → (Str → Option ApiError) → Network → Assoc Engine → Assoc Engine × Bool
unfolding remove_network
try_engines now removed n [] = ([], false)
try_engines now removed n ((key, e) ∷ es) =
    let f = (remove_network now (removed key) n e).0 in
    let (rest, found) = try_engines now removed n es in
    elim (removed key) [ none ↦ ((key, f) ∷ es, true) | some x ↦ ((key, f) ∷ rest, found) ]

unfoldable pub forget_network : Network → Cluster → Cluster
unfolding each_engine delete_network
forget_network n c = record c { engines = each_engine (delete_network n) c.engines }

unfoldable pub is_global : Network → Bool
unfolding str_eq
is_global n = str_eq n.scope (codes "global")

-- RemoveNetwork behind the request to the network's own engine, which returned `r`.
unfoldable pub after_removal :
    ℤ → (Str → Option ApiError) → Network → Option ApiError → Cluster → Cluster × Option ApiError
unfolding is_global forget_network try_engines
after_removal now removed n none c = (if is_global n then forget_network n c else c, none)
after_removal now removed n (some x) c =
    if x.refused && is_global n
    then (let (es, found) = try_engines now removed n c.engines in
        let d = record c { engines = es } in
        if found then (forget_network n d, none) else (d, some x))
    else (c, some x)

-- RemoveNetwork; the engine of the network stands under its ID, if it is still in the table.
unfoldable pub remove_cluster_network :
    ℤ
    → (own : Option ApiError) (removed : Str → Option ApiError) → Network
    → Cluster
    → Cluster × Option ApiError
unfolding lookup remove_network put_engine after_removal
remove_cluster_network now own removed n c = elim (lookup n.engine.id c.engines) [
  | none ↦ after_removal now removed n own c
  | some e ↦
      let (f, r) = remove_network now own n e in
      after_removal now removed n r (put_engine n.engine.id f c)
]

-- The other engines get a new global network.
unfoldable pub add_elsewhere : Str → Network → Assoc Engine → Assoc Engine
unfolding add_network str_eq
add_elsewhere key n [] = []
add_elsewhere key n ((k, e) ∷ es) =
    (k, if not (str_eq k key) then add_network n e else e) ∷ add_elsewhere key n es

unfoldable pub share_network : Str → Option Network → Cluster → Cluster
unfolding is_global add_elsewhere
share_network key none c = c
share_network key (some n) c =
    if is_global n then record c { engines = add_elsewhere key n c.engines } else c

-- How CreateNetwork ends: with the ID of the network, or with an error.
pub data NetworkResult : Type 0 where
  network_created : Str → NetworkResult
  network_failed : ApiError → NetworkResult
  no_node : Error → NetworkResult
  no_engine : NetworkResult

module _ (x : Externals) (sorter : Sorter WeightedNode) (intn : ℕ → ℕ) where
  unfoldable pub create_on :
      ℤ
      → Response Str
      → (Str → Response Network)
      → (key : Str) → Engine
      → Cluster
      → Cluster × NetworkResult
  unfolding create_network put_engine list_networks Network.get share_network
  create_on now created inspect key e c =
      let (f, r) = create_network now created inspect e in
      let d = put_engine key f c in
      elim r [
        | failed y ↦ (d, network_failed y)
        | answered id ↦
            (share_network key (Network.get x.truncate id (list_networks f)) d, network_created id)
      ]

  -- The configuration for the selection: a name node/network ties it to the node.
  unfoldable pub network_config : Option (Str × Str) → ContainerConfig
  unfolding build_container_config
  network_config none = zero_config
  network_config (some (node, name)) =
      build_container_config x.json
        (record zero_config { env = (codes "constraint:node==" ++ node) ∷ [] })

  -- CreateNetwork; `no_engine` is the panic for a node that is not in the table.
  unfoldable pub create_cluster_network :
      ℤ → Response Str → (Str → Response Network) → (name : Str) → Cluster → Cluster × NetworkResult
  unfolding network_config cut selection lookup create_on
  create_cluster_network now created inspect name c =
      elim (selection x sorter intn c (network_config (cut name (codes "/")))) [
        | err e ↦ (c, no_node e)
        | panic ↦ (c, no_engine)
        | ok [] ↦ (c, no_engine)
        | ok (n ∷ ns) ↦ elim (lookup n.id c.engines) [
          | none ↦ (c, no_engine)
          | some e ↦ create_on now created inspect n.id e c
        ]
      ]
