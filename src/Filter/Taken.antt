-- ===== src/Filter/Taken.antt =====
-- When a port of a node is taken (scheduler/filter/port.go), said without the loops.
use classicswarm.Prelude.{
  ◌≡◌, ◌≢◌, arith, refl, ap, subst, ◌⊎◌, inl, inr, ◌↔◌, Bool, true, false, not, List, [], ◌∷◌, ◌++◌,
  Option, none, some, any, any_of, any_some, In, Bool-cases,
}
use classicswarm.Text.Laws.{str_eq→eq, str_eq_iff, str_eq_refl}
use classicswarm.Text.{Str, codes, str_eq}
use classicswarm.Config.{HostConfig, PortBinding, PortMap}
use classicswarm.Container.{Container}
use classicswarm.Node.{Node}
use classicswarm.Filter.Port.{
  port_already_in_use, port_already_exposed, bindings, binds_all_interfaces, conflicts,
  compare_ports, compare_optional, compare_host, uses_port, exposes_on_host, exposes,
}

-- A binding of some port of the map.
abbrev pub IsBinding : PortBinding → PortMap → Type 0
IsBinding b m = (port : Str) × (bs : List PortBinding) × In (port, bs) m × In b bs

In-append_either : {A : Type 0} (a : A) (xs ys : List A) → In a (xs ++ ys) ↔ (In a xs ⊎ In a ys)
In-append_either a [] ys = (λ i. inr i, λ i. elim i [ inl j ↦ absurd j | inr j ↦ j ])
In-append_either a (x ∷ xs) ys =
    let rest = In-append_either a xs ys in
    (
      λ i. elim i [
        | inl e ↦ inl (inl e)
        | inr j ↦ elim (rest.0 j) [ inl k ↦ inl (inr k) | inr k ↦ inr k ]
      ],
      λ i. elim i [
        | inl j ↦ elim j [ inl e ↦ inl e | inr k ↦ inr (rest.1 (inl k)) ]
        | inr j ↦ inr (rest.1 (inr j))
      ],
    )

pub bindings_iff : (b : PortBinding) (m : PortMap) → In b (bindings m) ↔ IsBinding b m
unfolding bindings
bindings_iff b [] = (λ i. absurd i, λ i. let (port, bs, j, k) = i in absurd j)
bindings_iff b ((port, bs) ∷ m) =
    let both = In-append_either b bs (bindings m) in
    let rest = bindings_iff b m in
    (
      λ i. elim (both.0 i) [
        | inl j ↦ (port, bs, inl refl, j)
        | inr j ↦ let (q, cs, k, l) = rest.0 j in (q, cs, inr k, l)
      ],
      λ i.
          let (q, cs, k, l) = i in
          elim k [
            | inl e ↦ both.1 (inl (subst (In b) (ap (λ p. p.1) e) l))
            | inr j ↦ both.1 (inr (rest.1 (q, cs, j, l)))
          ],
    )

module _ (unspecified_ip : Str → Bool) where
  -- On all interfaces.
  abbrev pub IsAnywhere : PortBinding → Type 0
  IsAnywhere b = (b.host_ip ≡ []) ⊎ (unspecified_ip b.host_ip ≡ true)

  -- Two bindings exclude each other: a host port that both name, on the same address or with one of
  -- them on all interfaces.
  pub record Excludes (requested b : PortBinding) : Type 0 where
    pub named : b.host_port ≢ []
    pub same_port : b.host_port ≡ requested.host_port
    pub same_address : (requested.host_ip ≡ b.host_ip) ⊎ (IsAnywhere requested ⊎ IsAnywhere b)

  binds_all_interfaces_iff :
      (b : PortBinding) → (binds_all_interfaces unspecified_ip b ≡ true) ↔ IsAnywhere b
  unfolding binds_all_interfaces
  binds_all_interfaces_iff b = (
    λ h. elim (Bool-cases (str_eq b.host_ip [])) [
      | inl e ↦ inl (str_eq→eq b.host_ip [] e)
      | inr e ↦ inr (ground arith)
    ],
    λ h. elim h [ inl e ↦ ground (arith, str_eq_iff b.host_ip []) | inr e ↦ ground arith ],
  )

  conflicts_iff :
      (requested b : PortBinding)
      → (conflicts unspecified_ip requested b ≡ true) ↔ Excludes requested b
  unfolding conflicts
  conflicts_iff requested b =
      let mine = binds_all_interfaces_iff requested in
      let its = binds_all_interfaces_iff b in
      (
        λ h. record {
          named = λ e. ground (arith, str_eq_iff b.host_port []);
          same_port = str_eq→eq b.host_port requested.host_port (ground arith);
          same_address = elim (Bool-cases (str_eq requested.host_ip b.host_ip)) [
            | inl e ↦ inl (str_eq→eq requested.host_ip b.host_ip e)
            | inr e ↦ elim (Bool-cases (binds_all_interfaces unspecified_ip requested)) [
              | inl f ↦ inr (inl (mine.0 f))
              | inr f ↦ inr (inr (its.0 (ground arith)))
            ]
          ];
        },
        λ h.
            let p : str_eq b.host_port [] ≡ false =
              let n = h.named in ground (arith, str_eq_iff b.host_port []) in
            let q : str_eq b.host_port requested.host_port ≡ true =
              (str_eq_iff b.host_port requested.host_port).1 h.same_port in
            elim h.same_address [
              | inl e ↦ let r = (str_eq_iff requested.host_ip b.host_ip).1 e in ground arith
              | inr k ↦ elim k [
                | inl e ↦ let r = mine.1 e in ground arith
                | inr e ↦ let r = its.1 e in ground arith
              ]
            ],
      )

  -- A binding of the map that excludes the requested one.
  abbrev pub IsClash : PortBinding → PortMap → Type 0
  IsClash requested m = (b : PortBinding) × IsBinding b m × Excludes requested b

  compare_ports_iff :
      (requested : PortBinding) (m : PortMap)
      → (compare_ports unspecified_ip requested m ≡ true) ↔ IsClash requested m
  unfolding compare_ports
  compare_ports_iff requested m = (
    λ h.
        let (b, i, c) = any_some (conflicts unspecified_ip requested) (bindings m) h in
        (b, (bindings_iff b m).0 i, (conflicts_iff requested b).0 c),
    λ h.
        let (b, i, c) = h in
        any_of (conflicts unspecified_ip requested) b (bindings m) ((bindings_iff b m).1 i)
          ((conflicts_iff requested b).1 c),
  )

  -- The container takes the binding: one that is only pending (it has no ID) by its own
  -- configuration, every other by what its engine tells of its configuration or its ports.
  pub data Takes (requested : PortBinding) (c : Container) : Type 0 where
    when_created :
        c.id ≡ [] → IsClash requested c.config.host_config.port_bindings → Takes requested c
    by_configuration :
        (h : HostConfig)
        → c.id ≢ []
        → c.info.host_config ≡ some h
        → IsClash requested h.port_bindings
        → Takes requested c
    by_ports :
        (m : PortMap) → c.id ≢ [] → c.info.ports ≡ some m → IsClash requested m → Takes requested c

  uses_port_iff :
      (requested : PortBinding) (c : Container)
      → (uses_port unspecified_ip requested c ≡ true) ↔ Takes requested c
  unfolding uses_port compare_host compare_optional
  uses_port_iff requested c = (forth, back)
    where
      host :
          (o : Option HostConfig)
          → c.info.host_config ≡ o
          → c.id ≢ []
          → compare_host unspecified_ip requested o ≡ true
          → Takes requested c
      host none e n h = absurd (ground arith)
      host (some k) e n h =
          by_configuration k n e ((compare_ports_iff requested k.port_bindings).0 (ground arith))

      ports :
          (o : Option PortMap)
          → c.info.ports ≡ o
          → c.id ≢ []
          → compare_optional unspecified_ip requested o ≡ true
          → Takes requested c
      ports none e n h = absurd (ground arith)
      ports (some m) e n h = by_ports m n e ((compare_ports_iff requested m).0 (ground arith))

      forth : uses_port unspecified_ip requested c ≡ true → Takes requested c
      forth h = elim (Bool-cases (str_eq c.id [])) [
        | inl e ↦
            when_created (str_eq→eq c.id [] e)
              ((compare_ports_iff requested c.config.host_config.port_bindings).0 (ground arith))
        | inr e ↦
            let n : c.id ≢ [] = λ f. ground (arith, str_eq_iff c.id []) in
            elim (Bool-cases (compare_host unspecified_ip requested c.info.host_config)) [
              | inl f ↦ host c.info.host_config refl n f
              | inr f ↦ ports c.info.ports refl n (ground arith)
            ]
      ]

      back : Takes requested c → uses_port unspecified_ip requested c ≡ true
      back (when_created e k) =
          let p = (str_eq_iff c.id []).1 e in
          let q = (compare_ports_iff requested c.config.host_config.port_bindings).1 k in
          ground arith
      back (by_configuration h n e k) =
          let p : str_eq c.id [] ≡ false = ground (arith, str_eq_iff c.id []) in
          let q = (compare_ports_iff requested h.port_bindings).1 k in ground arith
      back (by_ports m n e k) =
          let p : str_eq c.id [] ≡ false = ground (arith, str_eq_iff c.id []) in
          let q = (compare_ports_iff requested m).1 k in ground arith

  -- No container of the node takes the binding.
  abbrev pub IsOpen : PortBinding → Node → Type 0
  IsOpen requested n = (c : Container) → In c n.containers → ¬ (Takes requested c)

  pub in_use_iff :
      (requested : PortBinding) (n : Node)
      → (not (port_already_in_use unspecified_ip n requested) ≡ true) ↔ IsOpen requested n
  unfolding port_already_in_use
  in_use_iff requested n = (
    λ h c i t.
        let p =
          any_of (uses_port unspecified_ip requested) c n.containers i
            ((uses_port_iff requested c).1 t) in
        absurd (ground arith),
    λ h. elim (Bool-cases (any (uses_port unspecified_ip requested) n.containers)) [
      | inl e ↦
          let (c, i, u) = any_some (uses_port unspecified_ip requested) n.containers e in
          absurd (h c i ((uses_port_iff requested c).0 u))
      | inr e ↦ ground arith
    ],
  )

-- A container in the host mode exposes the port.
pub record ExposesOnHost (port : Str) (c : Container) : Type 0 where
  pub host : HostConfig
  pub known : c.info.host_config ≡ some host
  pub mode : host.network_mode ≡ codes "host"
  pub exposed : In port c.info.exposed_ports

exposes_iff : (port : Str) (c : Container) → (exposes port c ≡ true) ↔ ExposesOnHost port c
unfolding exposes exposes_on_host
exposes_iff port c = (by_host c.info.host_config refl, back)
  where
    by_host :
        (o : Option HostConfig)
        → c.info.host_config ≡ o
        → exposes_on_host port c.info.exposed_ports o ≡ true
        → ExposesOnHost port c
    by_host none e h = absurd (ground arith)
    by_host (some k) e h =
        let (p, i, same) = any_some (λ p. str_eq p port) c.info.exposed_ports (ground arith) in
        record {
          host = k;
          known = e;
          mode = str_eq→eq k.network_mode (codes "host") (ground arith);
          exposed = subst (λ s. In s c.info.exposed_ports) (str_eq→eq p port same) i;
        }

    back :
        ExposesOnHost port c → exposes_on_host port c.info.exposed_ports c.info.host_config ≡ true
    back h =
        let e = h.known in
        let p = (str_eq_iff h.host.network_mode (codes "host")).1 h.mode in
        let q =
          any_of (λ p. str_eq p port) port c.info.exposed_ports h.exposed (str_eq_refl port) in
        ground arith

-- No container of the node exposes the port in the host mode.
abbrev pub IsUnexposed : Str → Node → Type 0
IsUnexposed port n = (c : Container) → In c n.containers → ¬ (ExposesOnHost port c)

pub exposed_iff :
    (port : Str) (n : Node) → (not (port_already_exposed n port) ≡ true) ↔ IsUnexposed port n
unfolding port_already_exposed
exposed_iff port n = (
  λ h c i t.
      let p = any_of (exposes port) c n.containers i ((exposes_iff port c).1 t) in
      absurd (ground arith),
  λ h. elim (Bool-cases (any (exposes port) n.containers)) [
    | inl e ↦
        let (c, i, u) = any_some (exposes port) n.containers e in
        absurd (h c i ((exposes_iff port c).0 u))
    | inr e ↦ ground arith
  ],
)
