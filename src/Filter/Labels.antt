-- ===== src/Filter/Labels.antt =====
-- scheduler/filter/constraint.go, affinity.go and whitelist.go: the filters whose requirements are
-- the expressions stored in the configuration's labels.
use classicswarm.Prelude.{Bool, not, ◌&&◌, List, [], ◌∷◌, ◌++◌, none, some, map, any, if◌then◌else◌}
use classicswarm.Text.{Str, codes, str_eq, trim_prefix, split}
use classicswarm.Assoc.{Assoc, lookup}
use classicswarm.Externals.{Externals}
use classicswarm.Config.{ContainerConfig, affinities, constraints, whitelists}
use classicswarm.Container.{Container}
use classicswarm.Image.{Image, parse_repository_tag}
use classicswarm.Node.{Node}
use classicswarm.Filter.Expr.{Expr, symbol, parse_exprs, match_expr}
use classicswarm.Filter.Outcome.{
  unsatisfied_affinity, unsatisfied_constraint, unsatisfied_whitelist, Outcome, parsed_or_error,
  narrow, ◌>>=◌,
}

-- A map read at a key that it lacks gives the empty text.
unfoldable pub value_at : Str → Assoc Str → Str
unfolding lookup
value_at key m = elim (lookup key m) [ none ↦ [] | some v ↦ v ]

-- `!soft && e.isSoft`: in the second pass soft expressions do not count.
unfoldable pub passed_over : Bool → Expr → Bool
passed_over soft e = not soft && e.is_soft

-- What an affinity for containers is matched against: each named container's ID and first name.
unfoldable pub container_words : List Container → List Str
unfolding trim_prefix
container_words [] = []
container_words (c ∷ cs) = elim c.names [
  | [] ↦ container_words cs
  | name ∷ names ↦ c.id ∷ trim_prefix name (codes "/") ∷ container_words cs
]

unfoldable pub repositories : List Str → List Str
unfolding parse_repository_tag
repositories [] = []
repositories (tag ∷ tags) = (parse_repository_tag tag).0 ∷ repositories tags

-- What an affinity for images is matched against: each image's ID, tags and repositories.
unfoldable pub image_words : List Image → List Str
unfolding repositories
image_words [] = []
image_words (i ∷ images) = i.id ∷ (i.repo_tags ++ (repositories i.repo_tags ++ image_words images))

-- The words of a node for an affinity with this key.
unfoldable pub affinity_words : Str → Node → List Str
unfolding str_eq container_words image_words value_at
affinity_words key n =
    if str_eq key (codes "container")
    then container_words n.containers
    else if str_eq key (codes "image")
    then image_words n.images
    else map (λ c. value_at key c.labels) n.containers

-- The words of a node for a constraint with this key.
unfoldable pub constraint_words : Str → Node → List Str
unfolding str_eq value_at
constraint_words key n =
    if str_eq key (codes "node") then n.id ∷ n.name ∷ [] else value_at key n.labels ∷ []

-- A whitelist names nodes, separated by bars; its key and its operator do not count.
unfoldable pub whitelisted : Expr → Node → Bool
unfolding split any str_eq
whitelisted e n = any (λ white_node. str_eq n.name white_node) (split b'|' e.value)

module _ (x : Externals) where
  open x use {json, compile}

  unfoldable pub constraint_filter : ContainerConfig → List Node → Bool → Outcome (List Node)
  unfolding constraints parse_exprs parsed_or_error passed_over match_expr constraint_words narrow
  constraint_filter config nodes soft =
      parsed_or_error (parse_exprs (constraints json config)) >>= λ exprs.
      narrow (passed_over soft) (λ e n. match_expr compile e (constraint_words e.key n))
        unsatisfied_constraint exprs nodes

  unfoldable pub affinity_filter : ContainerConfig → List Node → Bool → Outcome (List Node)
  unfolding affinities parse_exprs parsed_or_error passed_over match_expr affinity_words narrow
  affinity_filter config nodes soft =
      parsed_or_error (parse_exprs (affinities json config)) >>= λ exprs.
      narrow (passed_over soft) (λ e n. match_expr compile e (affinity_words e.key n))
        unsatisfied_affinity exprs nodes

  unfoldable pub whitelist_filter : ContainerConfig → List Node → Bool → Outcome (List Node)
  unfolding whitelists parse_exprs parsed_or_error passed_over whitelisted narrow
  whitelist_filter config nodes soft =
      parsed_or_error (parse_exprs (whitelists json config)) >>= λ exprs.
      narrow (passed_over soft) (λ e n. some (whitelisted e n)) unsatisfied_whitelist exprs nodes

-- GetFilters: `key==value`, to which affinities and whitelists add whether it is soft.
unfoldable pub shown : Expr → Str
unfolding symbol
shown e = e.key ++ (symbol e.operator ++ e.value)
