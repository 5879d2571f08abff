-- ===== src/Cluster/NetworkSamples.antt =====
-- A global network that both engines of the cluster know, and whose own engine cannot be reached.
use classicswarm.Prelude.{◌≡◌, refl, true, false, [], ◌∷◌, Option, none, some}
use classicswarm.Text.{Str, codes, str_eq}
use classicswarm.Int64.{pos}
use classicswarm.Network.Samples.{overlay}
use classicswarm.Engine.{ApiError}
use classicswarm.Engine.Samples.{up}
use classicswarm.Cluster.{Cluster}
use classicswarm.Cluster.Samples.{two, beta}
use classicswarm.Cluster.Networks.{is_global, remove_cluster_network}
use classicswarm.Cluster.Forgetting.{Outcome, remove_cluster_network-Outcome}

abbrev unreachable : ApiError
unreachable = record { refused = true; not_found = false; text = codes "connection refused" }

abbrev both : Cluster
both = record two {
  engines =
      (codes "X", record up { networks = (codes "n1", overlay) ∷ [] })
      ∷ (codes "Y", record beta { networks = (codes "n1", overlay) ∷ [] })
      ∷ [];
}

abbrev only_beta : Str → Option ApiError
only_beta key = elim (str_eq key (codes "Y")) [ true ↦ none | false ↦ some unreachable ]

remove_cluster_network-Outcome_example :
    Outcome overlay both (remove_cluster_network (pos 1) (some unreachable) only_beta overlay both)
unfolding is_global str_eq
remove_cluster_network-Outcome_example =
    remove_cluster_network-Outcome (pos 1) only_beta overlay refl (some unreachable) both

removed_everywhere :
    (remove_cluster_network (pos 1) (some unreachable) only_beta overlay both).1 ≡ none
unfolding remove_cluster_network
removed_everywhere = refl
