-- ===== src/Container.antt =====
-- cluster/container.go: containers, and Containers.Get. A container's Engine pointer is `engine`:
-- the ID and the name that the engine has when the list of containers is taken.
-- stringid.TruncateID is a parameter.
pub mod Get
pub mod State
pub mod Samples
use classicswarm.Prelude.{
  ℕ, Bool, true, false, not, ◌&&◌, ◌||◌, ◌++◌, List, [], ◌∷◌, Option, none, some, any, keep,
  is_empty, find_first, if◌then◌else◌,
}
use classicswarm.Text.{Str, codes, str_eq, has_prefix}
use classicswarm.Assoc.{Assoc}
use classicswarm.Config.{HostConfig, ContainerConfig, PortMap, EndpointSettings, swarm_id}

pub record EngineRef : Type 0 where
  pub id : Str
  pub name : Str

-- The fields of types.ContainerJSON that the sources read. The pointers HostConfig and
-- NetworkSettings may be nil, and so may State, where no flag is set.
pub record Info : Type 0 where
  pub name : Str
  pub running : Bool
  pub paused : Bool
  pub restarting : Bool
  pub host_config : Option HostConfig
  pub exposed_ports : List Str
  pub ports : Option PortMap
  pub networks : Assoc EndpointSettings

pub record Container : Type 0 where
  pub id : Str
  pub names : List Str
  pub labels : Assoc Str
  pub config : ContainerConfig
  pub info : Info
  pub engine : EngineRef

module _ (truncate : Str → Str) where
  unfoldable pub by_id : Str → Container → Bool
  unfolding str_eq
  by_id query c = str_eq c.id query || str_eq (truncate c.id) query

  unfoldable pub by_swarm_id : Str → Container → Bool
  unfolding str_eq swarm_id
  by_swarm_id query c =
      str_eq (swarm_id c.config) query || str_eq (truncate (swarm_id c.config)) query

-- A name of the container is `query`, `/query`, or `query` is engine/name.
unfoldable pub named : Str → Container → Str → Bool
unfolding str_eq
named query c name =
    str_eq name query
    || (str_eq name (codes "/" ++ query)
        || (str_eq (c.engine.id ++ name) query || str_eq (c.engine.name ++ name) query))

unfoldable pub by_name : Str → Container → Bool
unfolding any named
by_name query c = any (named query c) c.names

unfoldable pub prefixed : Str → List Container → List Container
unfolding keep has_prefix swarm_id
prefixed query cs =
    keep (λ c. has_prefix c.id query) cs ++ keep (λ c. has_prefix (swarm_id c.config) query) cs

unfoldable pub only : {A : Type 0} → List A → Option A
only [] = none
only (c ∷ []) = some c
only (c ∷ d ∷ cs) = none

module _ (truncate : Str → Str) where
  -- The third stage, and the prefixes where it has no candidate.
  unfoldable pub get_candidate : Str → List Container → List Container → Option Container
  unfolding prefixed only
  get_candidate query cs [] = only (prefixed query cs)
  get_candidate query cs (c ∷ more) = only (c ∷ more)

  unfoldable pub get : Str → List Container → Option Container
  unfolding get_candidate find_first by_id by_swarm_id by_name
  get [] cs = none
  get (b ∷ query) cs = elim (find_first (by_id truncate (b ∷ query)) cs) [
    | some c ↦ some c
    | none ↦ elim (find_first (by_swarm_id truncate (b ∷ query)) cs) [
      | some c ↦ some c
      | none ↦ get_candidate (b ∷ query) cs (keep (by_name (b ∷ query)) cs)
    ]
  ]
