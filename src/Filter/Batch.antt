-- ===== src/Filter/Batch.antt =====
-- scheduler/filter/filter.go: the filters by name, and their application in batch. The interface
-- Filter is a data type of the seven filters that the package registers.
use classicswarm.Prelude.{
  Bool, List, [], ◌∷◌, ◌++◌, Option, none, some, map, find_first, is_empty, if◌then◌else◌,
}
use classicswarm.Text.{Str, codes, str_eq, join}
use classicswarm.Externals.{Externals}
use classicswarm.Config.{ContainerConfig, affinities, constraints, whitelists}
use classicswarm.Node.{Node}
use classicswarm.Filter.Expr.{
  Expr, ParseError, invalid_key, invalid_value, operator_expected, Parsed, parsed, parse_error,
  parse_exprs,
}
use classicswarm.Filter.Outcome.{Error, conditions, Outcome, ok, err, panic}
use classicswarm.Filter.Labels.{constraint_filter, affinity_filter, whitelist_filter, shown}
use classicswarm.Filter.Capacity.{
  health_filter, slots_filter, dependency_filter, dependency_filters,
}
use classicswarm.Filter.Port.{port_filter, port_filters}

pub data Filter : Type 0 where
  health port slots dependency affinity constraint whitelist : Filter

unfoldable pub name : Filter → Str
name health = codes "health"
name port = codes "port"
name slots = codes "containerslots"
name dependency = codes "dependency"
name affinity = codes "affinity"
name constraint = codes "constraint"
name whitelist = codes "whitelist"

-- The package's list, in the order of `init`.
abbrev pub filters : List Filter
filters = health ∷ port ∷ slots ∷ dependency ∷ affinity ∷ constraint ∷ whitelist ∷ []

-- `none` is ErrNotSupported.
unfoldable pub new_filters : List Str → Option (List Filter)
unfolding name str_eq find_first
new_filters [] = some []
new_filters (n ∷ names) = elim (find_first (λ f. str_eq (name f) n) filters) [
  | none ↦ none
  | some f ↦ elim (new_filters names) [ none ↦ none | some fs ↦ some (f ∷ fs) ]
]

-- The text of an error of parseExprs.
unfoldable pub error_text : ParseError → Str
error_text (invalid_key key) = codes "Key '" ++ (key ++ codes "' is invalid")
error_text (invalid_value value) = codes "Value '" ++ (value ++ codes "' is invalid")
error_text operator_expected = codes "One of operator ==, != is expected"

-- What GetFilters returns.
pub data Listing : Type 0 where
  listed : List Str → Listing
  failed : ParseError → Listing

unfoldable pub list_exprs : (Expr → Str) → Parsed → Listing
list_exprs show (parsed xs) = listed (map show xs)
list_exprs show (parse_error e) = failed e

unfoldable pub shown_soft : Expr → Str
unfolding shown
shown_soft e =
    shown e
    ++ (codes " (soft=" ++ ((if e.is_soft then codes "true" else codes "false") ++ codes ")"))

module _ (x : Externals) where
  open x use {json, truncate, unspecified_ip}

  -- The interface method Filter.
  unfoldable pub run : Filter → ContainerConfig → List Node → Bool → Outcome (List Node)
  unfolding health_filter port_filter slots_filter dependency_filter affinity_filter
      constraint_filter whitelist_filter
  run health config nodes soft = health_filter nodes
  run port config nodes soft = port_filter unspecified_ip config nodes
  run slots config nodes soft = slots_filter nodes
  run dependency config nodes soft = dependency_filter truncate config nodes
  run affinity config nodes soft = affinity_filter x config nodes soft
  run constraint config nodes soft = constraint_filter x config nodes soft
  run whitelist config nodes soft = whitelist_filter x config nodes soft

  -- The interface method GetFilters.
  unfoldable pub get_filters : Filter → ContainerConfig → Listing
  unfolding list_exprs parse_exprs shown shown_soft affinities constraints whitelists port_filters
      dependency_filters
  get_filters health config = listed []
  get_filters port config = listed (port_filters config)
  get_filters slots config = listed (codes "available container slots" ∷ [])
  get_filters dependency config = listed (dependency_filters config)
  get_filters affinity config = list_exprs shown_soft (parse_exprs (affinities json config))
  get_filters constraint config = list_exprs shown (parse_exprs (constraints json config))
  get_filters whitelist config = list_exprs shown_soft (parse_exprs (whitelists json config))

  -- fmt's %v of a []string
  unfoldable pub bracketed : List Str → Str
  unfolding join
  bracketed texts = codes "[" ++ (join (codes " ") texts ++ codes "]")

  -- listAllFilters: one line for each filter up to the one that failed, or up to a listing error.
  unfoldable pub list_all_filters : Str → List Filter → ContainerConfig → Filter → Str
  unfolding get_filters bracketed error_text name str_eq
  list_all_filters text [] config last = text
  list_all_filters text (f ∷ fs) config last = elim (get_filters f config) [
    | failed e ↦ text ++ (codes "\nerror from " ++ (name f ++ (codes " filter: " ++ error_text e)))
    | listed l ↦
        let text' = if is_empty l then text else text ++ (codes "\n" ++ bracketed l) in
        let rest = list_all_filters text' fs config last in
        if str_eq (name f) (name last) then text' else rest
  ]

  -- The error of a filter, as ApplyFilters passes it on.
  unfoldable pub reported : List Filter → ContainerConfig → Filter → Error → Error
  unfolding list_all_filters name str_eq
  reported fs config f e =
      if str_eq (name f) (codes "health") then e else conditions (list_all_filters [] fs config f)

  -- The loop of ApplyFilters; `all_filters` is the whole list, for the text of an error.
  unfoldable pub apply_from :
      List Filter → ContainerConfig → Bool → List Filter → List Node → Outcome (List Node)
  unfolding run reported
  apply_from all_filters config soft [] nodes = ok nodes
  apply_from all_filters config soft (f ∷ fs) nodes = elim (run f config nodes soft) [
    | ok candidates ↦ apply_from all_filters config soft fs candidates
    | err e ↦ err (reported all_filters config f e)
    | panic ↦ panic
  ]

  unfoldable pub apply_filters :
      List Filter → ContainerConfig → List Node → Bool → Outcome (List Node)
  unfolding apply_from
  apply_filters fs config nodes soft = apply_from fs config soft fs nodes
