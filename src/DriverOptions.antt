-- ===== src/DriverOptions.antt =====
-- cluster/options.go: the options of a driver, `key=value`. os.Getenv and the parsers of strconv and
-- net are parameters; a parser returns a value also where it fails, and its error is dropped.
pub mod Lookup
pub mod Samples
use classicswarm.Prelude.{Bool, List, [], ◌∷◌, Option, none, some, is_empty, if◌then◌else◌}
use classicswarm.Text.{Str, codes, str_eq, cut}

-- The two results of String; `panics` is an index out of range.
pub data Value (A : Type 0) : Type 0 where
  given : A → Value A
  not_given panics : Value A

module _ (getenv : Str → Str) where
  -- Behind the loop: the variable of the environment.
  unfoldable pub from_environment : (env : Str) → Value Str
  unfolding is_empty
  from_environment env = if is_empty (getenv env) then not_given else given (getenv env)

  -- An option without an equals sign is all key.
  unfoldable pub option_string : List Str → (key env : Str) → Value Str
  unfolding cut str_eq from_environment
  option_string [] key env = from_environment env
  option_string (opt ∷ opts) key env =
      let rest = option_string opts key env in
      elim (cut opt (codes "=")) [
        | some (k, v) ↦ if str_eq k key then given v else rest
        | none ↦ if str_eq opt key then panics else rest
      ]

  -- Int, Uint, Float, IP and Bool, each with its parser.
  unfoldable pub parsed_option : {A : Type 0} → (Str → A) → List Str → (key env : Str) → Value A
  unfolding option_string
  parsed_option parse opts key env = elim (option_string opts key env) [
    | given v ↦ given (parse v)
    | not_given ↦ not_given
    | panics ↦ panics
  ]
