-- ===== src/Node.antt =====
-- scheduler/node/node.go: what the scheduler sees of an engine. The pointer Config of a container
-- is never nil here: both places that make containers for a node set it.
use classicswarm.Prelude.{Bool, ◌||◌, List, [], ◌∷◌, ◌++◌, Option, none, some, if◌then◌else◌}
use classicswarm.Text.{Str}
use classicswarm.Assoc.{Assoc}
use classicswarm.Int64.{ℤ, pos, ◌+ℤ◌, ◌-ℤ◌, ltb_ℤ}
use classicswarm.Container.{Container, get}
use classicswarm.Image.{Image}

pub record Node : Type 0 where
  pub id : Str
  pub ip : Str
  pub addr : Str
  pub name : Str
  pub labels : Assoc Str
  pub containers : List Container
  pub images : List Image
  pub used_memory : ℤ
  pub used_cpus : ℤ
  pub total_memory : ℤ
  pub total_cpus : ℤ
  pub health_indicator : ℤ

unfoldable pub is_healthy : Node → Bool
is_healthy n = ltb_ℤ (pos 0) n.health_indicator

unfoldable pub find_container : (Str → Str) → Node → Str → Option Container
unfolding get
find_container truncate n query = get truncate query n.containers

-- `none` is the error "not enough resources".
unfoldable pub add_container : Node → Container → Option Node
unfolding ◌+ℤ◌ ◌-ℤ◌
add_container n c =
    if ltb_ℤ (total_memory -ℤ memory) (pos 0) || ltb_ℤ (total_cpus -ℤ cpu_shares) (pos 0)
    then none
    else some (record n {
      used_memory = used_memory +ℤ memory;
      used_cpus = used_cpus +ℤ cpu_shares;
      containers = containers ++ c ∷ [];
    })
  where
    open n use {containers, used_memory, used_cpus, total_memory, total_cpus}
    open c use {config}
    open config use {host_config}
    open host_config use {memory, cpu_shares}
