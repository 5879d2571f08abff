-- ===== src/Cluster/Volumes.antt =====
-- cluster/swarm/cluster.go, CreateVolume: which engines are asked, and what of their answers is
-- returned. The engines are asked in the order of the table; the source asks them at the same time.
use classicswarm.Prelude.{ℕ, List, [], ◌∷◌, ◌++◌, Option, none, some, is_empty, if◌then◌else◌}
use classicswarm.Text.{Str, codes, cut}
use classicswarm.Int64.{ℤ}
use classicswarm.Assoc.{Assoc, lookup, keys}
use classicswarm.Config.{ContainerConfig, build_container_config, label}
use classicswarm.Externals.{Externals}
use classicswarm.Network.{Volume}
use classicswarm.Node.{Node}
use classicswarm.Filter.Outcome.{Error, Outcome, ok, err, panic}
use classicswarm.Strategy.Sorting.{Sorter}
use classicswarm.Strategy.{WeightedNode}
use classicswarm.Engine.{ApiError, Response, answered, failed}
use classicswarm.Engine.Caches.{create_volume}
use classicswarm.Cluster.{Cluster}
use classicswarm.Cluster.Creation.{selection}
use classicswarm.Cluster.Creating.{zero_config}
use classicswarm.Cluster.Operations.{put_engine}

-- The name of the volume, and the node that the request names in front of it. `random` is the ID
-- that a volume without a name gets.
unfoldable pub volume_name : (random name : Str) → Option Str × Str
unfolding is_empty cut
volume_name random name =
    if is_empty name
    then (none, random)
    else elim (cut name (codes "/")) [ none ↦ (none, name) | some (node, rest) ↦ (some node, rest) ]

-- The last volume and the last error of the answers.
unfoldable pub later {ℓ} : {A : Type ℓ} → Option A → Option A → Option A
later none a = a
later (some b) a = some b

-- How CreateVolume ends: with what the engines answered, with an error of the scheduler, or with the
-- panic for a node that is not in the table.
pub data VolumeResult : Type 0 where
  asked : Option Volume → Option ApiError → VolumeResult
  no_nodes : Error → VolumeResult
  crashed : VolumeResult

unfoldable pub ids_of : List Node → List Str
ids_of [] = []
ids_of (n ∷ ns) = n.id ∷ ids_of ns

-- The first node only.
unfoldable pub first_id : List Node → List Str
first_id [] = []
first_id (n ∷ ns) = n.id ∷ []

module _ (now : ℤ) (created : Str → Response Volume) (inspect : Str → Response Volume) where
  unfoldable pub with_answer : Response Volume → VolumeResult → VolumeResult
  unfolding later
  with_answer r crashed = crashed
  with_answer r (no_nodes e) = no_nodes e
  with_answer (answered v) (asked w e) = asked (later w (some v)) e
  with_answer (failed x) (asked w e) = asked w (later e (some x))

  unfoldable pub ask_all : List Str → Cluster → Cluster × VolumeResult
  unfolding lookup create_volume put_engine with_answer
  ask_all [] c = (c, asked none none)
  ask_all (key ∷ ks) c = elim (lookup key c.engines) [
    | none ↦ (c, crashed)
    | some e ↦
        let (f, r) = create_volume now (created key) inspect e in
        let (d, out) = ask_all ks (put_engine key f c) in (d, with_answer r out)
  ]

  unfoldable pub ask_selected :
      (List Node → List Str) → Outcome (List Node) → Cluster → Cluster × VolumeResult
  unfolding ask_all
  ask_selected ids (ok ns) c = ask_all (ids ns) c
  ask_selected ids (err e) c = (c, no_nodes e)
  ask_selected ids panic c = (c, crashed)

module _ (x : Externals) (sorter : Sorter WeightedNode) (intn : ℕ → ℕ) (now : ℤ)
    (created : Str → Response Volume) (inspect : Str → Response Volume) where
  unfoldable pub whitelist_config : Str → ContainerConfig
  unfolding build_container_config label
  whitelist_config value =
      build_container_config x.json
        (record zero_config { labels = (label (codes "whitelists"), value) ∷ [] })

  unfoldable pub node_config : Str → ContainerConfig
  unfolding build_container_config
  node_config node =
      build_container_config x.json
        (record zero_config { env = (codes "constraint:node==" ++ node) ∷ [] })

  -- The engines for a request without a whitelist: all, or that of the node.
  unfoldable pub ask_for_node : Option Str → Cluster → Cluster × VolumeResult
  unfolding ask_all keys is_empty ask_selected first_id selection node_config
  ask_for_node none c = ask_all now created inspect (keys c.engines) c
  ask_for_node (some node) c =
      if is_empty node
      then ask_all now created inspect (keys c.engines) c
      else ask_selected now created inspect first_id (selection x sorter intn c (node_config node))
          c

  -- CreateVolume; `labels` are those of the request.
  unfoldable pub create_cluster_volume :
      (random name : Str) → (labels : Assoc Str) → Cluster → Cluster × VolumeResult
  unfolding lookup label ask_selected ids_of selection whitelist_config ask_for_node volume_name
  create_cluster_volume random name labels c = elim (lookup (label (codes "whitelists")) labels) [
    | some value ↦
        ask_selected now created inspect ids_of (selection x sorter intn c (whitelist_config value))
          c
    | none ↦ ask_for_node (volume_name random name).0 c
  ]
