-- ===== src/Network.antt =====
-- cluster/network.go and cluster/volume.go: networks and volumes, and how a query finds one.
-- stringid.TruncateID and filters.Args (package filters) are parameters.
pub mod Merged
pub mod Uniq
pub mod Chosen
pub mod Endpoints
pub mod Samples
use classicswarm.Prelude.{
  ℕ, Bool, true, false, not, ◌&&◌, ◌||◌, ◌==◌, ltb, List, [], ◌∷◌, ◌++◌, Option, none, some, any,
  all, keep, is_empty, find_first, length, if◌then◌else◌,
}
use classicswarm.Text.{Str, codes, str_eq, has_prefix, contains}
use classicswarm.Assoc.{Assoc, lookup, has_key, insert, values}
use classicswarm.Container.{EngineRef}

-- types.EndpointResource
pub record EndpointResource : Type 0 where
  pub name : Str
  pub endpoint_id : Str
  pub mac_address : Str
  pub ipv4_address : Str
  pub ipv6_address : Str

pub record Network : Type 0 where
  pub id : Str
  pub name : Str
  pub scope : Str
  pub driver : Str
  pub labels : Assoc Str
  pub containers : Assoc EndpointResource
  pub engine : EngineRef

unfoldable pub is_predefined : Network → Bool
unfolding str_eq
is_predefined n =
    str_eq n.name (codes "none") || (str_eq n.name (codes "host") || str_eq n.name (codes "bridge"))

-- The loop that adds the endpoints of a network to a map.
unfoldable pub put_endpoints :
    Assoc EndpointResource → Assoc EndpointResource → Assoc EndpointResource
unfolding insert
put_endpoints [] m = m
put_endpoints ((id, endpoint) ∷ es) m = put_endpoints es (insert id endpoint m)

-- The copy of a network, or the endpoints that another network of the same ID gives to a copy.
unfoldable pub absorb : Network → Option Network → Network
unfolding put_endpoints
absorb n none = n
absorb n (some m) = record m { containers = put_endpoints n.containers m.containers }

-- The first loop of Uniq: the copies of the networks by ID.
unfoldable pub gather : List Network → Assoc Network → Assoc Network
unfolding lookup insert absorb
gather [] tmp = tmp
gather (n ∷ ns) tmp = gather ns (insert n.id (absorb n (lookup n.id tmp)) tmp)

unfoldable pub uniq : List Network → List Network
unfolding gather values
uniq ns = values (gather ns [])

-- What the filter of a request says (filters.Args): the values of a key, whether it has the key,
-- and its three ways to match.
pub record FilterArgs : Type 0 where
  pub values_of : Str → List Str
  pub include : Str → Bool
  pub match_text : Str → Str → Bool
  pub exact_match : Str → Str → Bool
  pub match_kv_list : Str → Assoc Str → Bool

-- includeFilter of Filter: `type`, `label`, `driver` and `node`.
unfoldable pub include_filter : FilterArgs → Network → Bool
unfolding all str_eq is_predefined
include_filter args n =
    all
      (λ typ.
        not (str_eq typ (codes "custom") && is_predefined n)
        && not (str_eq typ (codes "builtin") && not (is_predefined n)))
      (args.values_of (codes "type"))
    && ((not (args.include (codes "label")) || args.match_kv_list (codes "label") n.labels)
        && ((not (args.include (codes "driver")) || args.exact_match (codes "driver") n.driver)
            && all (λ node. str_eq n.engine.name node) (args.values_of (codes "node"))))

-- A name of the network is `query`, or `query` is engine/name.
unfoldable pub is_named : Str → (engine : EngineRef) → (name : Str) → Bool
unfolding str_eq
is_named query engine name =
    str_eq name query
    || (str_eq (engine.id ++ (codes "/" ++ name)) query
        || str_eq (engine.name ++ (codes "/" ++ name)) query)

-- The end of Get: a single network, up to copies of the same ID.
unfoldable pub single : List Network → Option Network
unfolding uniq
single [] = none
single (c ∷ cs) = if length (uniq (c ∷ cs)) == 1 then some c else none

-- `/name`, and then the prefixes of IDs.
unfoldable pub get_slashed : Str → List Network → Option Network
unfolding find_first keep has_prefix str_eq single
get_slashed query ns = elim (find_first (λ n. str_eq n.name (codes "/" ++ query)) ns) [
  | some n ↦ some n
  | none ↦ single (keep (λ n. has_prefix n.id query) ns)
]

module _ (truncate : Str → Str) where
  unfoldable pub is_identified : Str → Network → Bool
  unfolding str_eq
  is_identified query n = str_eq n.id query || str_eq (truncate n.id) query

  -- The stages behind the IDs: `found` are the networks with that name.
  unfoldable pub get_named : Str → List Network → (found : List Network) → Option Network
  unfolding get_slashed single
  get_named query ns [] = get_slashed query ns
  get_named query ns (c ∷ cs) = single (c ∷ cs)

  unfoldable pub get : Str → List Network → Option Network
  unfolding find_first keep is_identified is_named get_named
  get [] ns = none
  get (b ∷ query) ns = elim (find_first (is_identified (b ∷ query)) ns) [
    | some n ↦ some n
    | none ↦ get_named (b ∷ query) ns (keep (λ n. is_named (b ∷ query) n.engine n.name) ns)
  ]

  -- The loops of Filter over the names and IDs of the filter.
  unfoldable pub filter_ids : FilterArgs → List Network → List Str → List Network
  unfolding get include_filter
  filter_ids args ns [] = []
  filter_ids args ns (q ∷ qs) = elim (get q ns) [
    | none ↦ filter_ids args ns qs
    | some n ↦ if include_filter args n then n ∷ filter_ids args ns qs else filter_ids args ns qs
  ]

  unfoldable pub filter_names : FilterArgs → List Network → List Str → List Network
  unfolding keep uniq include_filter
  filter_names args ns [] = []
  filter_names args ns (q ∷ qs) =
      keep (include_filter args) (uniq (keep (λ n. args.match_text (codes "name") n.name) ns))
      ++ filter_names args ns qs

  unfoldable pub filter_networks : FilterArgs → List Network → List Network
  unfolding keep uniq include_filter filter_ids filter_names
  filter_networks args ns =
      let queries = args.values_of (codes "name") ++ args.values_of (codes "id") in
      if is_empty queries
      then uniq (keep (include_filter args) (uniq ns))
      else uniq (filter_ids args ns queries ++ filter_names args ns queries)

-- The loop of RemoveDuplicateEndpoints: the index to keep of each endpoint ID.
unfoldable pub endpoint_map : Assoc EndpointResource → Assoc Str → Assoc Str
unfolding has_key insert contains
endpoint_map [] m = m
endpoint_map ((index, r) ∷ es) m = endpoint_map es (
    if not (has_key r.endpoint_id m) || not (contains index r.endpoint_id)
    then insert r.endpoint_id index m
    else m)

-- A missing key reads as the zero endpoint.
unfoldable pub read_endpoint : Option EndpointResource → EndpointResource
read_endpoint (some r) = r
read_endpoint none = record {
  name = [];
  endpoint_id = [];
  mac_address = [];
  ipv4_address = [];
  ipv6_address = [];
}

unfoldable pub copy_endpoints :
    List Str → Assoc EndpointResource → Assoc EndpointResource → Assoc EndpointResource
unfolding insert lookup read_endpoint
copy_endpoints [] from out = out
copy_endpoints (index ∷ is) from out =
    copy_endpoints is from (insert index (read_endpoint (lookup index from)) out)

unfoldable pub remove_duplicate_endpoints : Network → Network
unfolding endpoint_map copy_endpoints values
remove_duplicate_endpoints n = record n {
  containers = copy_endpoints (values (endpoint_map n.containers [])) n.containers [];
}

pub record Volume : Type 0 where
  pub name : Str
  pub driver : Str
  pub engine : EngineRef

-- Two volumes or more have the name: the first whose driver is not local.
unfoldable pub get_among : Str → List Volume → List Volume → Option Volume
unfolding find_first str_eq
get_among query vs [] = find_first (λ v. str_eq v.name (codes "/" ++ query)) vs
get_among query vs (c ∷ []) = some c
get_among query vs (c ∷ d ∷ cs) =
    find_first (λ v. str_eq v.name query && not (str_eq v.driver (codes "local"))) (c ∷ d ∷ cs)

unfoldable pub get_volume : Str → List Volume → Option Volume
unfolding keep is_named get_among
get_volume [] vs = none
get_volume (b ∷ query) vs =
    get_among (b ∷ query) vs (keep (λ v. is_named (b ∷ query) v.engine v.name) vs)
