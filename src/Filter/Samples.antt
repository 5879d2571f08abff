-- ===== src/Filter/Samples.antt =====
-- The port filter and the whitelist filter on a node that runs a container.
use classicswarm.Prelude.{◌≡◌, ◌≢◌, ◌⊎◌, refl, false, true, List, [], ◌∷◌, ◌++◌, some}
use classicswarm.Text.{codes}
use classicswarm.Int64.{pos}
use classicswarm.Externals.{Externals}
use classicswarm.Config.Codec.{framed}
use classicswarm.Config.{ContainerConfig, whitelists}
use classicswarm.Config.Samples.{plain_host, plain_config}
use classicswarm.Container.Samples.{web}
use classicswarm.Node.{Node}
use classicswarm.Filter.Expr.{Expr, eq, parsed, parse_exprs}
use classicswarm.Filter.Outcome.{unsatisfied_whitelist, exposed_port_unavailable, port_unavailable}
use classicswarm.Filter.Kept.{Kept}
use classicswarm.Filter.Taken.{IsBinding, IsOpen, IsUnexposed}
use classicswarm.Filter.Labels.{whitelist_filter}
use classicswarm.Filter.Port.{port_filter}
use classicswarm.Filter.Exact.{IsNamed, IsCounted, port_filter-Kept, whitelist_filter-Kept}
use classicswarm.Text.{Str, str_eq}
use classicswarm.Prelude.{Bool, In}

abbrev worker : Node
worker = record {
  id = codes "A";
  ip = codes "10.0.0.1";
  addr = codes "10.0.0.1:2375";
  name = codes "alpha";
  labels = [];
  containers = web ∷ [];
  images = [];
  used_memory = pos 0;
  used_cpus = pos 0;
  total_memory = pos 8;
  total_cpus = pos 4;
  health_indicator = pos 100;
}

abbrev bound : ContainerConfig
bound = record plain_config {
  host_config = record plain_host {
    port_bindings = (codes "80/tcp", record { host_ip = []; host_port = codes "8080" } ∷ []) ∷ [];
  };
}

abbrev zero_ip : Str → Bool
zero_ip = str_eq (codes "0.0.0.0")

port_filter-Kept_example :
    ((bound.host_config.network_mode ≡ codes "host")
      × Kept
          (λ port. In port bound.exposed_ports)
          IsUnexposed
          exposed_port_unavailable
          (worker ∷ [])
          (port_filter zero_ip bound (worker ∷ [])))
    ⊎ ((bound.host_config.network_mode ≢ codes "host")
        × Kept
            (λ b. IsBinding b bound.host_config.port_bindings)
            (IsOpen zero_ip)
            (λ b. port_unavailable b.host_port)
            (worker ∷ [])
            (port_filter zero_ip bound (worker ∷ [])))
port_filter-Kept_example = port_filter-Kept zero_ip bound (worker ∷ [])

abbrev externals : Externals
externals = record {
  json = framed;
  compile = λ pattern. some (str_eq pattern);
  truncate = λ id. id;
  unspecified_ip = zero_ip;
}

abbrev listed_config : ContainerConfig
listed_config = record plain_config {
  labels = (codes "com.docker.swarm.whitelists", codes "opef>>bmqib" ++ 0 ∷ []) ∷ [];
}

abbrev alpha_only : List Expr
alpha_only =
    record { key = codes "node"; operator = eq; value = codes "alpha"; is_soft = false } ∷ []

alpha-parsed : parse_exprs (whitelists framed listed_config) ≡ parsed alpha_only
unfolding parse_exprs whitelists str_eq
alpha-parsed = refl

whitelist_filter-Kept_example :
    Kept
      (IsCounted true alpha_only)
      IsNamed
      unsatisfied_whitelist
      (worker ∷ [])
      (whitelist_filter externals listed_config (worker ∷ []) true)
whitelist_filter-Kept_example =
    whitelist_filter-Kept externals listed_config (worker ∷ []) true alpha_only alpha-parsed
