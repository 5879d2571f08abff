-- ===== src/Config.antt =====
-- cluster/config.go: the configuration of a container, and the scheduling directives (affinities,
-- constraints, whitelists, reschedule policies) that are kept in its labels as JSON lists.
-- encoding/json is the parameter `Json`.
pub mod Codec
pub mod Building
pub mod Edits
pub mod Samples
use classicswarm.Prelude.{
  ℕ, Bool, true, false, not, ◌&&◌, ◌||◌, List, [], ◌∷◌, ◌++◌, Option, none, some, keep, any,
  is_empty, length, ltb, ◌==◌, if◌then◌else◌, ◌≡◌,
}
use classicswarm.Text.{Str, codes, str_eq, cut, has_prefix}
use classicswarm.Assoc.{Assoc, lookup, insert}
use classicswarm.Int64.{ℤ, pos, eqb_ℤ}
use Codec.{Json}

-- nat.PortBinding and nat.PortMap
pub record PortBinding : Type 0 where
  pub host_ip : Str
  pub host_port : Str

abbrev pub PortMap : Type 0
PortMap = Assoc (List PortBinding)

-- network.EndpointSettings; `ipam` is the IPAMConfig with its two addresses.
pub record EndpointSettings : Type 0 where
  pub network_id : Str
  pub ip_address : Str
  pub ipam : Option (Str × Str)

-- The fields of container.HostConfig that the sources read or write.
pub record HostConfig : Type 0 where
  pub memory : ℤ
  pub memory_swap : ℤ
  pub cpu_shares : ℤ
  pub cpuset_cpus : Str
  pub network_mode : Str
  pub volumes_from : List Str
  pub links : List Str
  pub port_bindings : PortMap

-- container.Config with HostConfig and NetworkingConfig: the struct ContainerConfig.
pub record ContainerConfig : Type 0 where
  pub image : Str
  pub env : List Str
  pub labels : Assoc Str
  pub exposed_ports : List Str
  pub host_config : HostConfig
  pub endpoints_config : Assoc EndpointSettings

pub record OldContainerConfig : Type 0 where
  pub config : ContainerConfig
  pub memory : ℤ
  pub memory_swap : ℤ
  pub cpu_shares : ℤ
  pub cpuset : Str

abbrev pub namespace : Str
namespace = codes "com.docker.swarm"

-- SwarmLabelNamespace + "." + key
unfoldable pub label : Str → Str
label key = namespace ++ (codes "." ++ key)

unfoldable pub parse_env : Str → Option (Str × Str)
unfolding cut
parse_env e = cut e (codes ":")

-- One field of ConsolidateResourceFields: the old value wins where it is set and differs.
abbrev consolidated : ℤ → ℤ → ℤ
consolidated old new = if not (eqb_ℤ old new) && not (eqb_ℤ old (pos 0)) then old else new

consolidate_resource_fields : OldContainerConfig → OldContainerConfig
unfolding str_eq
consolidate_resource_fields c = record c {
  config = record config {
    host_config = record host_config {
      memory = consolidated c.memory host_config.memory;
      memory_swap = consolidated c.memory_swap host_config.memory_swap;
      cpu_shares = consolidated c.cpu_shares host_config.cpu_shares;
      cpuset_cpus =
          if not (str_eq c.cpuset host_config.cpuset_cpus) && not (str_eq c.cpuset [])
          then c.cpuset
          else host_config.cpuset_cpus;
    };
  };
}
  where
    open c use {config}
    open config use {host_config}

-- The five lists that the loop over `c.Env` appends to.
pub record Directives : Type 0 where
  pub affinities : List Str
  pub constraints : List Str
  pub reschedule_policies : List Str
  pub whitelists : List Str
  pub env : List Str

-- An entry `key:value` goes to the list of its key, and to `env` where the key is none of the four.
unfoldable pub add_directive : Directives → (e key value : Str) → Directives
unfolding str_eq
add_directive d e key value =
    if str_eq key (codes "affinity")
    then record d { affinities = d.affinities ++ value ∷ [] }
    else if str_eq key (codes "constraint")
    then record d { constraints = d.constraints ++ value ∷ [] }
    else if str_eq key (codes "reschedule")
    then record d { reschedule_policies = d.reschedule_policies ++ value ∷ [] }
    else if str_eq key (codes "whitelist")
    then record d { whitelists = d.whitelists ++ value ∷ [] }
    else record d { env = d.env ++ e ∷ [] }

-- The body of the loop over `c.Env`.
unfoldable pub add_env : Directives → Str → Directives
unfolding parse_env add_directive
add_env d e = elim (parse_env e) [
  | none ↦ record d { env = d.env ++ e ∷ [] }
  | some (key, value) ↦ add_directive d e key value
]

unfoldable pub add_envs : Directives → List Str → Directives
unfolding add_env
add_envs d [] = d
add_envs d (e ∷ es) = add_envs (add_env d e) es

-- The errors of Validate.
pub data Invalid : Type 0 where
  too_many_policies : Invalid
  invalid_policy : Str → Invalid

-- What Validate does with the list of reschedule policies.
unfoldable pub valid_policies : List Str → Option Invalid
unfolding str_eq
valid_policies [] = none
valid_policies (p ∷ []) =
    if str_eq p (codes "off") || str_eq p (codes "on-node-failure")
    then none
    else some (invalid_policy p)
valid_policies (p ∷ q ∷ ps) = some too_many_policies

module _ (json : Json) where
  -- extractExprs: the list stored under a label, empty where there is none.
  unfoldable pub extract : Assoc Str → Str → List Str
  unfolding label lookup
  extract labels key = elim (lookup (label key) labels) [
    | none ↦ []
    | some text ↦ json.unmarshal text
  ]

  -- The label is written where the list is not empty and can be encoded.
  unfoldable pub store : Str → List Str → Assoc Str → Assoc Str
  unfolding label insert
  store key [] labels = labels
  store key (x ∷ xs) labels = elim (json.marshal (x ∷ xs)) [
    | none ↦ labels
    | some text ↦ insert (label key) text labels
  ]

  -- The lists before the loop over the environment: those that the labels hold already.
  unfoldable pub stored_directives : ContainerConfig → Directives
  unfolding extract
  stored_directives c = record {
    affinities = extract c.labels (codes "affinities");
    constraints = extract c.labels (codes "constraints");
    reschedule_policies = extract c.labels (codes "reschedule-policies");
    whitelists = extract c.labels (codes "whitelists");
    env = [];
  }

  unfoldable pub store_directives : Directives → Assoc Str → Assoc Str
  unfolding store
  store_directives d labels = store (codes "whitelists") d.whitelists (
      store (codes "reschedule-policies") d.reschedule_policies (
        store (codes "constraints") d.constraints (store (codes "affinities") d.affinities labels)))

  unfoldable pub build_container_config : ContainerConfig → ContainerConfig
  unfolding stored_directives store_directives add_envs
  build_container_config c =
      let d = add_envs (stored_directives c) c.env in
      record c { env = d.env; labels = store_directives d c.labels }

  unfoldable pub affinities : ContainerConfig → List Str
  unfolding extract
  affinities c = extract c.labels (codes "affinities")

  unfoldable pub constraints : ContainerConfig → List Str
  unfolding extract
  constraints c = extract c.labels (codes "constraints")

  unfoldable pub whitelists : ContainerConfig → List Str
  unfolding extract
  whitelists c = extract c.labels (codes "whitelists")

  -- What the four editing methods share: the label is replaced where the list can be encoded, and
  -- otherwise the method returns the error (`none`).
  unfoldable pub replace_exprs : Str → List Str → ContainerConfig → Option ContainerConfig
  unfolding label insert
  replace_exprs key exprs c = elim (json.marshal exprs) [
    | none ↦ none
    | some text ↦ some (record c { labels = insert (label key) text c.labels })
  ]

  unfoldable pub add_whitelist : Str → ContainerConfig → Option ContainerConfig
  unfolding extract replace_exprs
  add_whitelist whitelist c =
      replace_exprs (codes "whitelists") (extract c.labels (codes "whitelists") ++ whitelist ∷ []) c

  unfoldable pub remove_whitelist : Str → ContainerConfig → Option ContainerConfig
  unfolding extract replace_exprs keep str_eq
  remove_whitelist whitelist c =
      replace_exprs (codes "whitelists")
        (keep (λ a. not (str_eq a whitelist)) (extract c.labels (codes "whitelists"))) c

  unfoldable pub add_affinity : Str → ContainerConfig → Option ContainerConfig
  unfolding extract replace_exprs
  add_affinity affinity c =
      replace_exprs (codes "affinities") (extract c.labels (codes "affinities") ++ affinity ∷ []) c

  unfoldable pub remove_affinity : Str → ContainerConfig → Option ContainerConfig
  unfolding extract replace_exprs keep str_eq
  remove_affinity affinity c =
      replace_exprs (codes "affinities")
        (keep (λ a. not (str_eq a affinity)) (extract c.labels (codes "affinities"))) c

  unfoldable pub add_constraint : Str → ContainerConfig → Option ContainerConfig
  unfolding extract replace_exprs
  add_constraint constraint c =
      replace_exprs (codes "constraints")
        (extract c.labels (codes "constraints") ++ constraint ∷ []) c

  unfoldable pub have_node_constraint : ContainerConfig → Bool
  unfolding extract any has_prefix
  have_node_constraint c =
      any (λ s. has_prefix s (codes "node==") && not (has_prefix s (codes "node==~")))
        (extract c.labels (codes "constraints"))

  unfoldable pub has_reschedule_policy : Str → ContainerConfig → Bool
  unfolding extract any str_eq
  has_reschedule_policy p c = any (λ q. str_eq q p) (extract c.labels (codes "reschedule-policies"))

  -- `none` where the configuration is valid.
  unfoldable pub validate : ContainerConfig → Option Invalid
  unfolding extract valid_policies
  validate c = valid_policies (extract c.labels (codes "reschedule-policies"))

-- SwarmID: the empty text where the label is missing.
unfoldable pub swarm_id : ContainerConfig → Str
unfolding label lookup
swarm_id c = elim (lookup (label (codes "id")) c.labels) [ none ↦ [] | some id ↦ id ]

unfoldable pub set_swarm_id : Str → ContainerConfig → ContainerConfig
unfolding label insert
set_swarm_id id c = record c { labels = insert (label (codes "id")) id c.labels }
