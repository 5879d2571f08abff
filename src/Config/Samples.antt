-- ===== src/Config/Samples.antt =====
-- A configuration with directives in its labels and in its environment, and what is made of it.
use classicswarm.Prelude.{◌≡◌, refl, [], ◌∷◌}
use classicswarm.Text.{codes}
use classicswarm.Int64.{pos}
use classicswarm.Config.Codec.{framed}
use classicswarm.Config.{HostConfig, ContainerConfig, build_container_config, affinities}
use classicswarm.Config.Building.{Built, build_container_config-Built}
use classicswarm.Config.Edits.{Restored, remove-add_affinity}

abbrev pub plain_host : HostConfig
plain_host = record {
  memory = pos 0;
  memory_swap = pos 0;
  cpu_shares = pos 0;
  cpuset_cpus = [];
  network_mode = codes "bridge";
  volumes_from = [];
  links = [];
  port_bindings = [];
}

abbrev pub plain_config : ContainerConfig
plain_config = record {
  image = codes "redis";
  env = [];
  labels = [];
  exposed_ports = [];
  host_config = plain_host;
  endpoints_config = [];
}

abbrev pub directed : ContainerConfig
directed = record plain_config {
  env = codes "PATH=/bin" ∷ codes "affinity:container==db" ∷ codes "constraint:disk==ssd" ∷ [];
}

directed-env : (build_container_config framed directed).env ≡ codes "PATH=/bin" ∷ []
unfolding build_container_config
directed-env = refl

directed-affinities :
    affinities framed (build_container_config framed directed) ≡ codes "container==db" ∷ []
unfolding build_container_config affinities
directed-affinities = refl

build_container_config-Built_example :
    Built framed directed (build_container_config framed directed)
build_container_config-Built_example = build_container_config-Built framed directed

remove-add_affinity_example :
    (d : ContainerConfig) × (r : ContainerConfig) × Restored framed
      (codes "image==redis")
      directed
      d
      r
remove-add_affinity_example = remove-add_affinity framed (codes "image==redis") directed
