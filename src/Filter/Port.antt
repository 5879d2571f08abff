-- ===== src/Filter/Port.antt =====
-- scheduler/filter/port.go.
use classicswarm.Prelude.{
  Bool, false, not, ◌&&◌, ◌||◌, List, [], ◌∷◌, ◌++◌, Option, none, some, any, map, if◌then◌else◌,
}
use classicswarm.Text.{Str, codes, str_eq}
use classicswarm.Config.{ContainerConfig, HostConfig, PortBinding, PortMap}
use classicswarm.Container.{Container}
use classicswarm.Node.{Node}
use classicswarm.Filter.Outcome.{port_unavailable, exposed_port_unavailable, Outcome, narrow}

-- All the bindings of a port map, in the order of the nested loops.
unfoldable pub bindings : PortMap → List PortBinding
bindings [] = []
bindings ((port, bs) ∷ m) = bs ++ bindings m

module _ (unspecified_ip : Str → Bool) where
  unfoldable pub binds_all_interfaces : PortBinding → Bool
  unfolding str_eq
  binds_all_interfaces b = str_eq b.host_ip [] || unspecified_ip b.host_ip

  -- One round of the inner loop of `compare`.
  unfoldable pub conflicts : PortBinding → PortBinding → Bool
  unfolding str_eq binds_all_interfaces
  conflicts requested b =
      not (str_eq b.host_port [])
      && (str_eq b.host_port requested.host_port
          && (str_eq requested.host_ip b.host_ip
              || (binds_all_interfaces requested || binds_all_interfaces b)))

  unfoldable pub compare_ports : PortBinding → PortMap → Bool
  unfolding any conflicts bindings
  compare_ports requested m = any (conflicts requested) (bindings m)

  unfoldable pub compare_optional : PortBinding → Option PortMap → Bool
  unfolding compare_ports
  compare_optional requested none = false
  compare_optional requested (some m) = compare_ports requested m

  unfoldable pub compare_host : PortBinding → Option HostConfig → Bool
  unfolding compare_ports
  compare_host requested none = false
  compare_host requested (some h) = compare_ports requested h.port_bindings

  -- One round of the loop of portAlreadyInUse: a container without an ID is pending, and its own
  -- configuration counts.
  unfoldable pub uses_port : PortBinding → Container → Bool
  unfolding str_eq compare_ports compare_optional compare_host
  uses_port requested c =
      if not (str_eq c.id [])
      then compare_host requested c.info.host_config || compare_optional requested c.info.ports
      else compare_ports requested c.config.host_config.port_bindings

  unfoldable pub port_already_in_use : Node → PortBinding → Bool
  unfolding any uses_port
  port_already_in_use n requested = any (uses_port requested) n.containers

unfoldable pub exposes_on_host : Str → List Str → Option HostConfig → Bool
unfolding str_eq any
exposes_on_host port exposed none = false
exposes_on_host port exposed (some h) =
    str_eq h.network_mode (codes "host") && any (λ p. str_eq p port) exposed

-- One round of the loop of portAlreadyExposed.
unfoldable pub exposes : Str → Container → Bool
unfolding exposes_on_host
exposes port c = exposes_on_host port c.info.exposed_ports c.info.host_config

unfoldable pub port_already_exposed : Node → Str → Bool
unfolding any exposes
port_already_exposed n port = any (exposes port) n.containers

unfoldable pub never : {A : Type 0} → A → Bool
never a = false

module _ (unspecified_ip : Str → Bool) where
  unfoldable pub filter_host : ContainerConfig → List Node → Outcome (List Node)
  unfolding narrow never port_already_exposed
  filter_host config nodes =
      narrow never (λ port n. some (not (port_already_exposed n port))) exposed_port_unavailable
        config.exposed_ports nodes

  unfoldable pub filter_bridge : ContainerConfig → List Node → Outcome (List Node)
  unfolding narrow never port_already_in_use bindings
  filter_bridge config nodes =
      narrow never (λ b n. some (not (port_already_in_use unspecified_ip n b)))
        (λ b. port_unavailable b.host_port) (bindings config.host_config.port_bindings) nodes

  unfoldable pub port_filter : ContainerConfig → List Node → Outcome (List Node)
  unfolding str_eq filter_host filter_bridge
  port_filter config nodes =
      if str_eq config.host_config.network_mode (codes "host")
      then filter_host config nodes
      else filter_bridge config nodes

-- GetFilters
unfoldable pub port_filters : ContainerConfig → List Str
unfolding str_eq bindings
port_filters config =
    if str_eq config.host_config.network_mode (codes "host")
    then map (λ port. codes "port " ++ (port ++ codes " (Host mode)")) config.exposed_ports
    else map (λ b. codes "port " ++ (b.host_port ++ codes " (Bridge mode)"))
        (bindings config.host_config.port_bindings)
