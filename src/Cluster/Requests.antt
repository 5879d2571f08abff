-- ===== src/Cluster/Requests.antt =====
-- What createContainer does to a request before it selects a node (cluster/swarm/cluster.go): the
-- Swarm ID, the tie to a local network and the image affinity.
use classicswarm.Prelude.{
  ◌≡◌, refl, ◌∙◌, ap, inl, inr, Bool, true, false, not, ◌&&◌, List, [], ◌∷◌, ◌++◌, Option, none,
  some, arith, keep, Bool-cases, if◌then◌else◌,
}
use classicswarm.Text.{Str, codes, str_eq}
use classicswarm.Assoc.{Assoc, insert}
use classicswarm.Assoc.Laws.{lookup-insert}
use classicswarm.Config.Codec.{Json}
use classicswarm.Config.{
  ContainerConfig, extract, affinities, constraints, whitelists, label, replace_exprs, add_affinity,
  remove_affinity, add_constraint, have_node_constraint, set_swarm_id,
}
use classicswarm.Config.Edits.{replace_exprs-Replaced, str_eq-label}
use classicswarm.Externals.{Externals}
use classicswarm.Network.{Network}
use classicswarm.Network
use classicswarm.Cluster.{Cluster, networks, or_else}
use classicswarm.Cluster.Creation.{
  tie_to_network, with_network, image_affinity, with_affinity, without_affinity,
}

-- A configuration with other labels and another network mode.
abbrev pub reshaped : ContainerConfig → Assoc Str → (mode : Str) → ContainerConfig
reshaped c labels mode = record c {
  labels = labels;
  host_config = record c.host_config { network_mode = mode };
}

-- The configuration d is c with this network mode and these directives, and other labels else.
pub record Edited (json : Json) (affine tied : List Str) (mode : Str) (c d : ContainerConfig)
    : Type 0 where
  pub rest : d ≡ reshaped c d.labels mode
  pub affinities : affinities json d ≡ affine
  pub constraints : constraints json d ≡ tied
  pub whitelists : whitelists json d ≡ whitelists json c

module _ (json : Json) where
  then-Edited :
      {a k b l : List Str} {m n : Str} (c d e : ContainerConfig)
      → Edited json a k m c d
      → Edited json b l n d e
      → Edited json b l n c e
  then-Edited {n = n} c d e h g = record {
    rest = g.rest ∙ ap (λ z. reshaped z e.labels n) h.rest;
    affinities = g.affinities;
    constraints = g.constraints;
    whitelists = g.whitelists ∙ h.whitelists;
  }

  same-Edited :
      (c : ContainerConfig)
      → Edited json (affinities json c) (constraints json c) c.host_config.network_mode c c
  same-Edited c = record { rest = refl; affinities = refl; constraints = refl; whitelists = refl }

  set_swarm_id-Edited :
      (id : Str) (c : ContainerConfig)
      → Edited json
          (affinities json c)
          (constraints json c)
          c.host_config.network_mode
          c
          (set_swarm_id id c)
  unfolding set_swarm_id affinities constraints whitelists str_eq
  set_swarm_id-Edited id c = record {
    rest = refl;
    affinities = other (codes "affinities") refl;
    constraints = other (codes "constraints") refl;
    whitelists = other (codes "whitelists") refl;
  }
    where
      other :
          (key : Str)
          → str_eq (codes "id") key ≡ false
          → extract json (insert (label (codes "id")) id c.labels) key ≡ extract json c.labels key
      other key h =
          unfold extract in
          ground (
            arith,
            lookup-insert (label (codes "id")) (label key) id c.labels,
            str_eq-label (codes "id") key,
          )

  affinities-Edited :
      (exprs : List Str) (c : ContainerConfig)
      → Edited json exprs
          (constraints json c)
          c.host_config.network_mode
          c
          (or_else c (replace_exprs json (codes "affinities") exprs c))
  unfolding or_else affinities constraints whitelists str_eq
  affinities-Edited exprs c =
      let (r, e, h) = replace_exprs-Replaced json (codes "affinities") exprs c in
      rw (e, or_else)
        (record {
          rest = h.rest;
          affinities = h.written;
          constraints = h.others (codes "constraints") refl;
          whitelists = h.others (codes "whitelists") refl;
        })

  constraints-Edited :
      (exprs : List Str) (c : ContainerConfig)
      → Edited json
          (affinities json c)
          exprs
          c.host_config.network_mode
          c
          (or_else c (replace_exprs json (codes "constraints") exprs c))
  unfolding or_else affinities constraints whitelists str_eq
  constraints-Edited exprs c =
      let (r, e, h) = replace_exprs-Replaced json (codes "constraints") exprs c in
      rw (e, or_else)
        (record {
          rest = h.rest;
          affinities = h.others (codes "affinities") refl;
          constraints = h.written;
          whitelists = h.others (codes "whitelists") refl;
        })

-- The node constraints of a request to a cluster: those of its configuration, and where its network
-- mode names a local network and it has no hard constraint to a node yet, one for the engine of the
-- network.
unfoldable pub tied_constraints : Externals → Option Network → ContainerConfig → List Str
unfolding constraints str_eq have_node_constraint
tied_constraints x none config = constraints x.json config
tied_constraints x (some n) config =
    if str_eq n.scope (codes "local") && not (have_node_constraint x.json config)
    then constraints x.json config ++ (codes "node==~" ++ n.engine.name) ∷ []
    else constraints x.json config

-- Its network mode: the name of that local network.
unfoldable pub tied_mode : Option Network → ContainerConfig → Str
unfolding str_eq
tied_mode none config = config.host_config.network_mode
tied_mode (some n) config =
    if str_eq n.scope (codes "local") then n.name else config.host_config.network_mode

module _ (x : Externals) where
  tie-Edited :
      (o : Option Network) (c : ContainerConfig)
      → Edited x.json
          (affinities x.json c)
          (tied_constraints x o c)
          (tied_mode o c)
          c
          (tie_to_network x o c)
  unfolding tie_to_network tied_constraints tied_mode add_constraint constraints affinities
      whitelists
  tie-Edited none c = same-Edited x.json c
  tie-Edited (some n) c = elim (Bool-cases (str_eq n.scope (codes "local"))) [
    | inr e ↦ rw (e, tie_to_network, tied_constraints, tied_mode) (same-Edited x.json c)
    | inl e ↦ elim (Bool-cases (have_node_constraint x.json c)) [
      | inl f ↦
          rw (e, f, tie_to_network, tied_constraints, tied_mode)
            (let h = same-Edited x.json c in
              record {
                rest = refl;
                affinities = h.affinities;
                constraints = h.constraints;
                whitelists = h.whitelists;
              })
      | inr f ↦
          rw (e, f, tie_to_network, tied_constraints, tied_mode)
            (let h =
                constraints-Edited x.json
                  (extract x.json c.labels (codes "constraints")
                    ++ (codes "node==~" ++ n.engine.name) ∷ [])
                  c in
              record {
                rest = ap (λ z. reshaped z z.labels n.name) h.rest;
                affinities = h.affinities;
                constraints = h.constraints;
                whitelists = h.whitelists;
              })
    ]
  ]

  -- The affinities of a request: with the one for its image where the last attempt asks for it.
  unfoldable pub asked_affinities : Bool → ContainerConfig → List Str
  unfolding affinities
  asked_affinities affine config =
      if affine
      then affinities x.json config ++ (codes "image==" ++ config.image) ∷ []
      else affinities x.json config

  -- What is asked of the scheduler for a configuration.
  abbrev pub IsAsked : (affine : Bool) → Cluster → (config asked : ContainerConfig) → Type 0
  IsAsked affine c config asked =
      Edited x.json (asked_affinities affine config)
        (tied_constraints x (Network.get x.truncate config.host_config.network_mode (networks c))
          config)
        (tied_mode (Network.get x.truncate config.host_config.network_mode (networks c)) config)
        config asked

  with_network-Edited :
      (c : Cluster) (config : ContainerConfig) → IsAsked false c config (with_network x c config)
  unfolding with_network asked_affinities
  with_network-Edited c config =
      tie-Edited (Network.get x.truncate config.host_config.network_mode (networks c)) config

  add_image_affinity-Edited :
      {k : List Str} {m : Str} (c d : ContainerConfig)
      → Edited x.json (affinities x.json c) k m c d
      → Edited x.json
          (affinities x.json c ++ (codes "image==" ++ c.image) ∷ [])
          k
          m
          c
          (or_else d (add_affinity x.json (image_affinity x d) d))
  unfolding add_affinity image_affinity affinities
  add_image_affinity-Edited {m = m} c d first =
      let exprs =
        extract x.json d.labels (codes "affinities") ++ (codes "image==" ++ d.image) ∷ [] in
      let second = affinities-Edited x.json exprs d in
      let after = or_else d (add_affinity x.json (image_affinity x d) d) in
      record {
        rest =
            second.rest ∙ ap (λ z. reshaped z after.labels z.host_config.network_mode) first.rest;
        affinities =
            second.affinities
            ∙ ap (λ i. extract x.json d.labels (codes "affinities") ++ (codes "image==" ++ i) ∷ [])
                (ap (λ z. z.image) first.rest)
            ∙ ap (λ l. l ++ (codes "image==" ++ c.image) ∷ []) first.affinities;
        constraints = second.constraints ∙ first.constraints;
        whitelists = second.whitelists ∙ first.whitelists;
      }

  pub with_affinity-Edited :
      (affine : Bool) (c : Cluster) (config : ContainerConfig)
      → IsAsked affine c config (with_affinity x affine (with_network x c config))
  unfolding with_affinity asked_affinities
  with_affinity-Edited false c config = with_network-Edited c config
  with_affinity-Edited true c config =
      add_image_affinity-Edited config (with_network x c config) (with_network-Edited c config)

  -- The Swarm ID does not count.
  tied_constraints-set_swarm_id :
      (o : Option Network) (id : Str) (config : ContainerConfig)
      → tied_constraints x o (set_swarm_id id config) ≡ tied_constraints x o config
  unfolding tied_constraints have_node_constraint constraints
  tied_constraints-set_swarm_id none id config = (set_swarm_id-Edited x.json id config).constraints
  tied_constraints-set_swarm_id (some n) id config =
      rw ((set_swarm_id-Edited x.json id config).constraints) refl

  tied_mode-set_swarm_id :
      (o : Option Network) (id : Str) (config : ContainerConfig)
      → tied_mode o (set_swarm_id id config) ≡ tied_mode o config
  unfolding tied_mode set_swarm_id
  tied_mode-set_swarm_id none id config = refl
  tied_mode-set_swarm_id (some n) id config = refl

  asked_affinities-set_swarm_id :
      (affine : Bool) (id : Str) (config : ContainerConfig)
      → asked_affinities affine (set_swarm_id id config) ≡ asked_affinities affine config
  unfolding asked_affinities set_swarm_id
  asked_affinities-set_swarm_id false id config = (set_swarm_id-Edited x.json id config).affinities
  asked_affinities-set_swarm_id true id config =
      ap (λ l. l ++ (codes "image==" ++ config.image) ∷ [])
        ((set_swarm_id-Edited x.json id config).affinities)

  pub set_swarm_id-IsAsked :
      (affine : Bool) (c : Cluster) (id : Str) (config asked : ContainerConfig)
      → IsAsked affine c (set_swarm_id id config) asked
      → IsAsked affine c config asked
  unfolding set_swarm_id
  set_swarm_id-IsAsked affine c id config asked h =
      let o = Network.get x.truncate config.host_config.network_mode (networks c) in
      record {
        rest =
            h.rest ∙ ap (λ m. reshaped config asked.labels m) (tied_mode-set_swarm_id o id config);
        affinities = h.affinities ∙ asked_affinities-set_swarm_id affine id config;
        constraints = h.constraints ∙ tied_constraints-set_swarm_id o id config;
        whitelists = h.whitelists ∙ (set_swarm_id-Edited x.json id config).whitelists;
      }

  -- What is kept of it: without any affinity for the image where that attempt asked for it.
  unfoldable pub kept_affinities : Bool → ContainerConfig → List Str
  unfolding affinities keep str_eq
  kept_affinities affine asked =
      if affine
      then keep (λ a. not (str_eq a (codes "image==" ++ asked.image))) (affinities x.json asked)
      else affinities x.json asked

  abbrev pub IsKept : (affine : Bool) → (asked kept : ContainerConfig) → Type 0
  IsKept affine asked kept =
      Edited x.json (kept_affinities affine asked) (constraints x.json asked)
        asked.host_config.network_mode asked kept

  pub without_affinity-IsKept :
      (affine : Bool) (asked : ContainerConfig)
      → IsKept affine asked (without_affinity x affine asked)
  unfolding without_affinity kept_affinities remove_affinity image_affinity affinities
  without_affinity-IsKept false asked = same-Edited x.json asked
  without_affinity-IsKept true asked =
      affinities-Edited x.json
        (keep (λ a. not (str_eq a (codes "image==" ++ asked.image)))
          (extract x.json asked.labels (codes "affinities")))
        asked
