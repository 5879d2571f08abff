-- ===== src/Filter/Exact.antt =====
-- The port filter and the whitelist filter as wholes: which nodes they return, and which error.
use classicswarm.Prelude.{
  ◌≡◌, ◌≢◌, arith, refl, sym, subst, ◌⊎◌, inl, inr, ◌↔◌, Bool, true, false, not, List, some, any_of,
  any_some, In, Bool-cases,
}
use classicswarm.Text.Laws.{str_eq→eq, str_eq_iff, str_eq_refl}
use classicswarm.Text.Parts.{Parts, split-Parts, Parts-unique}
use classicswarm.Text.{Str, codes, str_eq, split}
use classicswarm.Externals.{Externals}
use classicswarm.Config.{ContainerConfig, PortBinding, PortMap, whitelists}
use classicswarm.Node.{Node}
use classicswarm.Filter.Expr.{Expr, parsed, parse_exprs}
use classicswarm.Filter.Outcome.{
  exposed_port_unavailable, port_unavailable, unsatisfied_whitelist, parsed_or_error,
}
use classicswarm.Filter.Narrowing.{narrow-Narrows}
use classicswarm.Filter.Kept.{Kept, Narrows-Kept}
use classicswarm.Filter.Labels.{passed_over, whitelisted, whitelist_filter}
use classicswarm.Filter.Port.{
  port_already_in_use, port_already_exposed, bindings, filter_host, filter_bridge, port_filter,
  never,
}
use classicswarm.Filter.Taken.{
  IsBinding, IsOpen, IsUnexposed, bindings_iff, in_use_iff, exposed_iff,
}

-- The whitelist names the node: its value is a list of names without bars, joined by bars, and the
-- name of the node is among them.
pub record IsNamed (e : Expr) (n : Node) : Type 0 where
  pub names : List Str
  pub parts : Parts b'|' e.value names
  pub among : In n.name names

-- It counts: it is one of the whitelists, and in the second pass it is not soft.
abbrev pub IsCounted : (soft : Bool) → List Expr → Expr → Type 0
IsCounted soft exprs e = In e exprs × ((soft ≡ true) ⊎ (e.is_soft ≡ false))

whitelisted_iff : (e : Expr) (n : Node) → (whitelisted e n ≡ true) ↔ IsNamed e n
unfolding whitelisted
whitelisted_iff e n = (
  λ h.
      let (name, i, same) = any_some (str_eq n.name) (split b'|' e.value) h in
      record {
        names = split b'|' e.value;
        parts = split-Parts b'|' e.value;
        among = subst (λ s. In s (split b'|' e.value)) (sym (str_eq→eq n.name name same)) i;
      },
  λ h.
      any_of (str_eq n.name) n.name (split b'|' e.value)
        (subst (In n.name) (Parts-unique b'|' e.value h.names h.parts) h.among)
        (str_eq_refl n.name),
)

passed_over_iff :
    (soft : Bool) (exprs : List Expr) (e : Expr)
    → IsCounted soft exprs e ↔ (In e exprs × (passed_over soft e ≡ false))
unfolding passed_over
passed_over_iff soft exprs e = (
  λ h. (h.0, elim h.1 [ inl s ↦ ground arith | inr s ↦ ground arith ]),
  λ h. (h.0, elim (Bool-cases soft) [ inl s ↦ inl s | inr s ↦ inr (let k = h.1 in ground arith) ]),
)

-- The whitelist filter, on whitelists that parse to `exprs`: it returns the nodes, in the given
-- order, whose name is among those between the bars of every whitelist that counts; where there
-- are none, the error is that of a whitelist that counts (without any, the nodes are returned as
-- they are). In the first pass (`soft`) all count, in the second those that are not soft. It never
-- panics.
pub whitelist_filter-Kept :
    (x : Externals) (config : ContainerConfig) (nodes : List Node) (soft : Bool) (exprs : List Expr)
    → parse_exprs (whitelists x.json config) ≡ parsed exprs
    → Kept
        (IsCounted soft exprs)
        IsNamed
        unsatisfied_whitelist
        nodes
        (whitelist_filter x config nodes soft)
unfolding whitelist_filter parsed_or_error
whitelist_filter-Kept x config nodes soft exprs e = rw e (
    Narrows-Kept (passed_over soft) (λ e n. some (whitelisted e n)) unsatisfied_whitelist
      whitelisted (λ e n. refl) (IsCounted soft exprs) IsNamed exprs (passed_over_iff soft exprs)
      whitelisted_iff nodes _ (narrow-Narrows _ _ _ _ (λ e n. refl) exprs nodes))

never_counts : {A : Type 0} (xs : List A) (x : A) → In x xs ↔ (In x xs × (never x ≡ false))
unfolding never
never_counts xs x = (λ i. (i, refl), λ h. h.0)

requested_iff :
    (m : PortMap) (b : PortBinding) → IsBinding b m ↔ (In b (bindings m) × (never b ≡ false))
unfolding never
requested_iff m b = (λ i. ((bindings_iff b m).1 i, refl), λ h. (bindings_iff b m).0 h.0)

-- The port filter. In the host mode it returns the nodes, in the given order, on which no exposed
-- port of the configuration is exposed by a container that runs in that mode. In every other mode
-- it returns those on which no container takes a binding of the configuration: with the same host
-- port, and the same address or one of the two on all interfaces, where a container without an ID
-- counts with its own configuration and every other with what its engine tells. Where there are no
-- such nodes, the error is that of one of the ports (without any, the nodes are returned as they
-- are). It never panics.
pub port_filter-Kept :
    (unspecified_ip : Str → Bool) (config : ContainerConfig) (nodes : List Node)
    → ((config.host_config.network_mode ≡ codes "host")
        × Kept
            (λ port. In port config.exposed_ports)
            IsUnexposed
            exposed_port_unavailable
            nodes
            (port_filter unspecified_ip config nodes))
      ⊎ ((config.host_config.network_mode ≢ codes "host")
          × Kept
              (λ b. IsBinding b config.host_config.port_bindings)
              (IsOpen unspecified_ip)
              (λ b. port_unavailable b.host_port)
              nodes
              (port_filter unspecified_ip config nodes))
unfolding port_filter filter_host filter_bridge
port_filter-Kept unspecified_ip config nodes =
    let mode = config.host_config.network_mode in
    let bound = config.host_config.port_bindings in
    elim (Bool-cases (str_eq mode (codes "host"))) [
      | inl h ↦ inl (
        str_eq→eq mode (codes "host") h,
        rw h (
            Narrows-Kept never (λ port n. some (not (port_already_exposed n port)))
              exposed_port_unavailable (λ port n. not (port_already_exposed n port))
              (λ port n. refl) (λ port. In port config.exposed_ports) IsUnexposed
              config.exposed_ports (never_counts config.exposed_ports) exposed_iff nodes _
              (narrow-Narrows _ _ _ _ (λ port n. refl) config.exposed_ports nodes)),
      )
      | inr h ↦ inr (
        λ e. ground (arith, str_eq_iff mode (codes "host")),
        rw h (
            Narrows-Kept never (λ b n. some (not (port_already_in_use unspecified_ip n b)))
              (λ b. port_unavailable b.host_port)
              (λ b n. not (port_already_in_use unspecified_ip n b)) (λ b n. refl)
              (λ b. IsBinding b bound) (IsOpen unspecified_ip) (bindings bound)
              (requested_iff bound) (in_use_iff unspecified_ip) nodes _
              (narrow-Narrows _ _ _ _ (λ b n. refl) (bindings bound) nodes)),
      )
    ]
