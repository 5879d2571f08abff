-- ===== src/Engine/Cache.antt =====
-- cluster/engine.go: the cache of containers. A container is a shared object: where it is known,
-- an update changes it in the cache at once. The maps of containers are indexed by ID.
use classicswarm.Prelude.{Bool, ◌||◌, List, [], ◌∷◌, Option, none, some, any, if◌then◌else◌}
use classicswarm.Text.{Str, str_eq}
use classicswarm.Assoc.{Assoc, lookup, has_key, insert, delete, keys}
use classicswarm.Int64.{ℤ, pos, ◌+ℤ◌, ◌*ℤ◌, quot}
use classicswarm.Config.Codec.{Json}
use classicswarm.Config.{ContainerConfig, build_container_config}
use classicswarm.Container.{Container, Info}
use classicswarm.Engine.{Engine, ApiError, Response, answered, failed, check_connection_err}

-- types.Container, as ContainerList returns it.
pub record Summary : Type 0 where
  pub id : Str
  pub names : List Str
  pub labels : Assoc Str

-- What ContainerInspect returns.
pub record Inspected : Type 0 where
  pub config : ContainerConfig
  pub info : Info

-- `none` is the error that there is such a container.
unfoldable pub add_container : Container → Engine → Option Engine
unfolding has_key insert
add_container c e =
    if has_key c.id e.containers
    then none
    else some (record e { containers = insert c.id c e.containers })

-- `none` is the error that there is no such container.
unfoldable pub remove_container : Container → Engine → Option Engine
unfolding has_key delete
remove_container c e =
    if has_key c.id e.containers
    then some (record e { containers = delete c.id e.containers })
    else none

unfoldable pub cleanup_containers : Engine → Engine
cleanup_containers e = record e { containers = [] }

-- The sums of UsedMemory and UsedCpus.
unfoldable pub used_memory : Assoc Container → ℤ
unfolding ◌+ℤ◌
used_memory [] = pos 0
used_memory ((id, c) ∷ cs) = used_memory cs +ℤ c.config.host_config.memory

unfoldable pub used_cpus : Assoc Container → ℤ
unfolding ◌+ℤ◌
used_cpus [] = pos 0
used_cpus ((id, c) ∷ cs) = used_cpus cs +ℤ c.config.host_config.cpu_shares

-- Shares of 1024 as processors of the engine.
unfoldable pub in_cpus : ℤ → ContainerConfig → ContainerConfig
unfolding ◌*ℤ◌ quot
in_cpus cpus c = elim (quot (c.host_config.cpu_shares *ℤ cpus) (pos 1024)) [
  | none ↦ c
  | some shares ↦ record c { host_config = record c.host_config { cpu_shares = shares } }
]

-- The end of updateContainer: the map `merged` gets the container, and a known one is changed in
-- the cache.
unfoldable pub put_container :
    Container → Engine → Assoc Container → Engine × Option (Assoc Container)
unfolding has_key insert
put_container k e merged = (
  if has_key k.id e.containers then record e { containers = insert k.id k e.containers } else e,
  some (insert k.id k merged),
)

module _ (json : Json) where
  unfoldable pub inspected_container : Engine → Summary → Inspected → Container
  unfolding in_cpus build_container_config
  inspected_container e c i = record {
    id = c.id;
    names = c.names;
    labels = c.labels;
    config = in_cpus e.cpus (build_container_config json i.config);
    info = i.info;
    engine = record { id = e.id; name = e.name };
  }

  unfoldable pub inspect_container :
      ℤ
      → Response Inspected
      → Summary
      → Engine
      → Assoc Container
      → Engine × Option (Assoc Container)
  unfolding inspected_container put_container check_connection_err
  inspect_container now (failed x) c e merged = (check_connection_err now (some x) e, none)
  inspect_container now (answered i) c e merged =
      let f = check_connection_err now none e in put_container (inspected_container f c i) f merged

  -- updateContainer; `none` is its error. Known containers that do not restart are inspected in a
  -- full refresh only.
  unfoldable pub update_container :
      (now : ℤ) (full : Bool) (inspect : Str → Response Inspected)
      → Summary
      → Engine
      → Assoc Container
      → Engine × Option (Assoc Container)
  unfolding lookup inspect_container put_container
  update_container now full inspect c e merged = elim (lookup c.id e.containers) [
    | none ↦ inspect_container now (inspect c.id) c e merged
    | some k ↦
        if k.info.restarting || full
        then inspect_container now (inspect c.id) c e merged
        else put_container (record k { id = c.id; names = c.names; labels = c.labels }) e merged
  ]

  -- The loop over the list: a container whose update fails is left out.
  unfoldable pub merge_containers :
      (now : ℤ) (full : Bool) (inspect : Str → Response Inspected)
      → List Summary
      → Engine
      → Assoc Container
      → Engine × Assoc Container
  unfolding update_container
  merge_containers now full inspect [] e merged = (e, merged)
  merge_containers now full inspect (c ∷ cs) e merged =
      let (f, r) = update_container now full inspect c e merged in
      elim r [
        | none ↦ merge_containers now full inspect cs f merged
        | some m ↦ merge_containers now full inspect cs f m
      ]

unfoldable pub is_listed : Str → List Summary → Bool
unfolding any str_eq
is_listed id cs = any (λ c. str_eq c.id id) cs

-- The containers of the cache that the list lacks are deleted.
unfoldable pub delete_missing : List Str → List Summary → Assoc Container → Assoc Container
unfolding is_listed delete
delete_missing [] cs m = m
delete_missing (id ∷ ids) cs m =
    let rest = delete_missing ids cs m in if is_listed id cs then rest else delete id rest

unfoldable pub put_all : Assoc Container → Assoc Container → Assoc Container
unfolding insert
put_all [] m = m
put_all ((id, c) ∷ merged) m = insert id c (put_all merged m)

module _ (json : Json) where
  unfoldable pub refresh_containers :
      (now : ℤ) (full : Bool) (inspect : Str → Response Inspected)
      → Response (List Summary)
      → Engine
      → Engine × Option ApiError
  unfolding merge_containers delete_missing put_all keys check_connection_err
  refresh_containers now full inspect (failed x) e = (check_connection_err now (some x) e, some x)
  refresh_containers now full inspect (answered cs) e =
      let (f, merged) =
        merge_containers json now full inspect cs (check_connection_err now none e) [] in
      (
        record f {
          containers = put_all merged (delete_missing (keys e.containers) cs f.containers);
        },
        none,
      )
