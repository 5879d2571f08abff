-- ===== src/Filter/Capacity.antt =====
-- scheduler/filter/health.go, slots.go and dependency.go.
use classicswarm.Prelude.{
  ℕ, ◌+◌, ◌-◌, ◌*◌, Bool, true, false, ◌&&◌, ◌==◌, ltb, leb, List, [], ◌∷◌, ◌++◌, Option, none,
  some, keep, all, length, if◌then◌else◌, map,
}
use classicswarm.Text.{Str, codes, cut, join, has_prefix, trim_prefix}
use classicswarm.Assoc.{lookup}
use classicswarm.Int64.{ℤ, pos, sub_ℕ, ltb_ℤ}
use classicswarm.Config.{ContainerConfig}
use classicswarm.Node.{Node, is_healthy, find_container}
use classicswarm.Filter.Expr.{is_digit}
use classicswarm.Filter.Outcome.{
  no_healthy_node, no_free_slots, dependencies, Outcome, ok, or_error,
}

unfoldable pub health_filter : List Node → Outcome (List Node)
unfolding keep is_healthy or_error
health_filter nodes = or_error no_healthy_node (some (keep is_healthy nodes))

-- The value of a run of decimal digits behind `acc`; `none` where a byte is no digit.
unfoldable pub digits_value : ℕ → Str → Option ℕ
unfolding is_digit
digits_value acc [] = some acc
digits_value acc (c ∷ s) =
    let rest = digits_value (acc * 10 + (c - b'0')) s in if is_digit c then rest else none

unfoldable pub signed_value : Bool → Str → Option ℤ
unfolding digits_value
signed_value negative [] = none
signed_value negative (c ∷ s) = elim (digits_value 0 (c ∷ s)) [
  | none ↦ none
  | some n ↦
      if negative
      then (if leb n 9223372036854775808 then some (sub_ℕ 0 n) else none)
      else (if ltb n 9223372036854775808 then some (pos n) else none)
]

-- strconv.Atoi; `none` is an error: no digits, another byte, or a value out of range.
unfoldable pub atoi : Str → Option ℤ
unfolding signed_value
atoi [] = none
atoi (c ∷ s) =
    if c == b'-'
    then signed_value true s
    else if c == b'+'
    then signed_value false s
    else signed_value false (c ∷ s)

-- A node has a free slot if it has no label `containerslots`, if that label is no number, or if it
-- has fewer containers.
unfoldable pub has_free_slot : Node → Bool
unfolding lookup atoi
has_free_slot n = elim (lookup (codes "containerslots") n.labels) [
  | none ↦ true
  | some slots_string ↦ elim (atoi slots_string) [
    | none ↦ true
    | some slots ↦ ltb_ℤ (pos (length n.containers)) slots
  ]
]

unfoldable pub slots_filter : List Node → Outcome (List Node)
unfolding keep has_free_slot or_error
slots_filter nodes = or_error no_free_slots (some (keep has_free_slot nodes))

-- strings.SplitN(s, ":", 2)[0]
unfoldable pub before_colon : Str → Str
unfolding cut
before_colon s = elim (cut s (codes ":")) [ none ↦ s | some (before, after) ↦ before ]

-- The container that `--net=container:…` names, if it names one.
unfoldable pub net_dependency : ContainerConfig → List Str
unfolding has_prefix trim_prefix
net_dependency config =
    if has_prefix config.host_config.network_mode (codes "container:")
    then trim_prefix config.host_config.network_mode (codes "container:") ∷ []
    else []

unfoldable pub volume_dependencies : ContainerConfig → List Str
unfolding before_colon
volume_dependencies config = map before_colon config.host_config.volumes_from

unfoldable pub link_dependencies : ContainerConfig → List Str
unfolding before_colon
link_dependencies config = map before_colon config.host_config.links

-- GetFilters of the dependency filter.
unfoldable pub dependency_filters : ContainerConfig → List Str
unfolding has_prefix
dependency_filters config =
    map (λ volume. codes "--volumes-from=" ++ volume) config.host_config.volumes_from
    ++ (map (λ link. codes "--link=" ++ link) config.host_config.links
        ++ (if has_prefix config.host_config.network_mode (codes "container:")
            then (codes "--net=" ++ config.host_config.network_mode) ∷ []
            else []))

unfoldable pub is_some : {A : Type 0} → Option A → Bool
is_some none = false
is_some (some a) = true

module _ (truncate : Str → Str) where
  -- check: the node has every one of the containers.
  unfoldable pub check : List Str → Node → Bool
  unfolding all find_container is_some
  check names n = all (λ name. is_some (find_container truncate n name)) names

  unfoldable pub fulfils : ContainerConfig → Node → Bool
  unfolding check volume_dependencies link_dependencies net_dependency
  fulfils config n =
      check (volume_dependencies config) n
      && (check (link_dependencies config) n && check (net_dependency config) n)

  unfoldable pub dependency_filter : ContainerConfig → List Node → Outcome (List Node)
  unfolding keep fulfils or_error dependency_filters join
  dependency_filter config [] = ok []
  dependency_filter config (n ∷ nodes) =
      or_error (dependencies (join (codes " ") (dependency_filters config)))
        (some (keep (fulfils config) (n ∷ nodes)))
