-- ===== src/DriverOptions/Lookup.antt =====
-- Driver options as a map with the environment behind it.
use classicswarm.Prelude.{
  ◌≡◌, ◌≢◌, refl, sym, ◌∙◌, ap, List, [], ◌∷◌, ◌++◌, none, some, arith, inl, inr, Bool-cases,
  Option-cases, Every, is_empty, if◌then◌else◌,
}
use classicswarm.Text.{Str, codes, str_eq, cut}
use classicswarm.Text.Laws.{str_eq→eq, str_eq_iff}
use classicswarm.DriverOptions.{Value, given, not_given, panics, from_environment, option_string}

-- What stands before the first equals sign of an option, or all of it.
unfoldable pub option_key : Str → Str
unfolding cut
option_key opt = elim (cut opt (codes "=")) [ some p ↦ p.0 | none ↦ opt ]

-- None of the options has the key.
abbrev pub IsAbsent : Str → List Str → Type 0
IsAbsent key opts = Every (λ opt. option_key opt ≢ key) opts

-- What String finds among the options, with the variable of the environment.
pub data Found (opts : List Str) (key variable : Str) : Value Str → Type 0 where
  with_value :
      (before after : List Str) (opt v : Str)
      → opts ≡ before ++ (opt ∷ after)
      → IsAbsent key before
      → cut opt (codes "=") ≡ some (key, v)
      → Found opts key variable (given v)
  bare :
      (before after : List Str)
      → opts ≡ before ++ (key ∷ after)
      → IsAbsent key before
      → cut key (codes "=") ≡ none
      → Found opts key variable panics
  in_environment : IsAbsent key opts → variable ≢ [] → Found opts key variable (given variable)
  nowhere : IsAbsent key opts → variable ≡ [] → Found opts key variable not_given

behind :
    (opt : Str) (opts : List Str) (key variable : Str) {r : Value Str}
    → option_key opt ≢ key
    → Found opts key variable r
    → Found (opt ∷ opts) key variable r
behind opt opts key variable h (with_value before after o v same absent e) =
    with_value (opt ∷ before) after o v (ap (◌∷◌ opt) same) (h, absent) e
behind opt opts key variable h (bare before after same absent e) =
    bare (opt ∷ before) after (ap (◌∷◌ opt) same) (h, absent) e
behind opt opts key variable h (in_environment absent e) = in_environment (h, absent) e
behind opt opts key variable h (nowhere absent e) = nowhere (h, absent) e

environment-Found :
    (key variable : Str)
    → Found [] key variable (if is_empty variable then not_given else given variable)
unfolding is_empty
environment-Found key [] = nowhere tt refl
environment-Found key (b ∷ s) = in_environment tt (λ e. cc)

-- For every list of options, String returns the value of the first option with the key; it panics
-- where the first option with the key has no equals sign; and where no option has the key it
-- returns the variable of the environment, or that there is none where that is empty.
pub option_string-Found :
    (getenv : Str → Str) (opts : List Str) (key env : Str)
    → Found opts key (getenv env) (option_string getenv opts key env)
unfolding option_string option_key from_environment
option_string-Found getenv [] key env = environment-Found key (getenv env)
option_string-Found getenv (opt ∷ opts) key env =
    let rest = option_string-Found getenv opts key env in
    elim (Option-cases (cut opt (codes "="))) [
      | inl e ↦ elim (Bool-cases (str_eq opt key)) [
        | inl g ↦
            let same = str_eq→eq opt key g in
            rw (e, option_string, g)
              (bare [] opts (ap (λ o. o ∷ opts) same) tt
                (ap (λ o. cut o (codes "=")) (sym same) ∙ e))
        | inr g ↦
            rw (e, option_string, g)
              (behind opt opts key (getenv env) (λ h. ground (arith, str_eq_iff opt key)) rest)
      ]
      | inr ((k, v), e) ↦ elim (Bool-cases (str_eq k key)) [
        | inl g ↦
            rw (e, option_string, g)
              (with_value [] opts opt v refl tt (e ∙ ap (λ j. some (j, v)) (str_eq→eq k key g)))
        | inr g ↦
            rw (e, option_string, g)
              (behind opt opts key (getenv env) (λ h. ground (arith, str_eq_iff k key)) rest)
      ]
    ]
