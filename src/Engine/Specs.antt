-- ===== src/Engine/Specs.antt =====
-- cluster/engine.go: updateSpecs. `delta` is the difference between the manager's time and the
-- engine's, zero where the engine tells no time. The absolute value, which the source computes by
-- floating-point seconds, is exact here.
use classicswarm.Prelude.{
  ◌/◌, ◌||◌, List, [], ◌∷◌, ◌++◌, Option, none, some, is_empty, if◌then◌else◌,
}
use classicswarm.Text.{Str, codes, str_eq, cut}
use classicswarm.Assoc.{Assoc, has_key, insert}
use classicswarm.Int64.{ℤ, pos, negsuc, ltb_ℤ, eqb_ℤ, neg_part}
use classicswarm.Engine.{
  Engine, pending, ApiError, Response, answered, failed, check_connection_err,
}

-- The fields of types.Info that are read.
pub record Specs : Type 0 where
  pub id : Str
  pub name : Str
  pub ncpu : ℤ
  pub mem_total : ℤ
  pub driver : Str
  pub kernel_version : Str
  pub operating_system : Str
  pub os_type : Str
  pub labels : List Str

pub data SpecsError : Type 0 where
  unreachable : ApiError → SpecsError
  not_an_engine : Str → SpecsError
  another_id : (own addr other : Str) → SpecsError
  invalid_label : Str → SpecsError

unfoldable pub set_label : Str → Str → Assoc Str → Assoc Str
unfolding is_empty insert
set_label key value labels = if is_empty value then labels else insert key value labels

-- The labels of the engine's own properties.
unfoldable pub property_labels : Specs → Assoc Str
unfolding set_label
property_labels s = set_label (codes "ostype") s.os_type (
    set_label (codes "operatingsystem") s.operating_system (
      set_label (codes "kernelversion") s.kernel_version
        (set_label (codes "storagedriver") s.driver [])))

unfoldable pub add_label : Str → Str → Assoc Str → Assoc Str
unfolding str_eq has_key insert
add_label key value labels =
    if str_eq key (codes "node") || has_key key labels then labels else insert key value labels

-- The loop over the engine's labels, with the labels that it leaves and the label that is no
-- `key=value`, where there is one.
unfoldable pub add_labels : Assoc Str → List Str → Assoc Str × Option Str
unfolding cut add_label
add_labels labels [] = (labels, none)
add_labels labels (l ∷ ls) = elim (cut l (codes "=")) [
  | none ↦ (labels, some l)
  | some (key, value) ↦ add_labels (add_label key value labels) ls
]

-- A difference below two seconds does not count.
unfoldable pub counted_delta : ℤ → ℤ
counted_delta (pos d) = if ltb_ℤ (pos d) (pos 2000000000) then pos 0 else pos d
counted_delta (negsuc d) =
    if ltb_ℤ (pos (neg_part (negsuc d) / 1000000000)) (pos 2) then pos 0 else negsuc d

-- What is stored of an answer, and the error, behind the test of the ID.
unfoldable pub store_specs : ℤ → Specs → Engine → Engine × Option SpecsError
unfolding counted_delta property_labels add_labels
store_specs delta s e =
    let (labels, wrong) = add_labels (property_labels s) s.labels in
    (
      record e {
        delta_duration = counted_delta delta;
        name = s.name;
        cpus = s.ncpu;
        memory = s.mem_total;
        labels = labels;
      },
      elim wrong [ none ↦ none | some l ↦ some (invalid_label l) ],
    )

-- The message of the error, which the engine keeps as it is.
unfoldable pub another_id_text : (own addr other : Str) → Str
another_id_text own addr other =
    codes "Engine (ID: "
    ++ (own
        ++ (codes ", Addr: "
            ++ (addr
                ++ (codes ") shows up with another ID:"
                    ++ (other ++ codes ". Please remove it from cluster, it can be added back.")))))

-- The engine is known by its ID and its address. An engine that shows up with another ID is pending
-- again.
unfoldable pub identify : ℤ → Specs → Engine → Engine × Option SpecsError
unfolding str_eq is_empty store_specs another_id_text
identify delta s e =
    let info_id = s.id ++ (codes "|" ++ e.addr) in
    if is_empty e.id
    then store_specs delta s (record e { id = info_id })
    else if str_eq e.id info_id
    then store_specs delta s e
    else (
      record e { state = pending; last_error = another_id_text e.id e.addr info_id },
      some (another_id e.id e.addr info_id),
    )

unfoldable pub ask_version : ℤ → ℤ → Specs → Response Str → Engine → Engine × Option SpecsError
unfolding check_connection_err identify
ask_version now delta s (failed x) e = (check_connection_err now (some x) e, some (unreachable x))
ask_version now delta s (answered v) e =
    identify delta s (record (check_connection_err now none e) { version = v })

unfoldable pub update_specs :
    ℤ → ℤ → Response Specs → Response Str → Engine → Engine × Option SpecsError
unfolding check_connection_err ask_version
update_specs now delta (failed x) version e =
    (check_connection_err now (some x) e, some (unreachable x))
update_specs now delta (answered s) version e =
    let f = check_connection_err now none e in
    if eqb_ℤ s.ncpu (pos 0) || eqb_ℤ s.mem_total (pos 0)
    then (f, some (not_an_engine e.addr))
    else ask_version now delta s version f
