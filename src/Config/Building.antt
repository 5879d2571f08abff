-- ===== src/Config/Building.antt =====
-- BuildContainerConfig: what becomes of the environment and of the directive labels.
use mathlib.Core.List.{append_assoc, append-nil}
use classicswarm.Prelude.{
  ◌≡◌, refl, sym, ◌∙◌, Bool, false, not, ◌||◌, List, [], ◌∷◌, ◌++◌, none, some, arith, keep,
  nil_of_append, if◌then◌else◌, Option-cases, inl, inr,
}
use classicswarm.Text.{Str, codes, str_eq}
use classicswarm.Text.Laws.{str_eq_iff, str_eq_refl}
use classicswarm.Assoc.{Assoc}
use classicswarm.Assoc.Laws.{lookup-insert}
use classicswarm.Config.Codec.{Json}
use classicswarm.Config.{
  ContainerConfig, Directives, add_directive, add_env, add_envs, parse_env, extract, store, label,
  build_container_config, stored_directives, store_directives, affinities, constraints, whitelists,
}

value_for : Str → Str → Str → List Str
value_for key k v = if str_eq k key then v ∷ [] else []

-- The value of an environment entry `key:value`, for one key.
value_of : Str → Str → List Str
unfolding value_for
value_of key e = elim (parse_env e) [ none ↦ [] | some (k, v) ↦ value_for key k v ]

pub values_of : Str → List Str → List Str
unfolding value_of
values_of key [] = []
values_of key (e ∷ es) = value_of key e ++ values_of key es

is_directive_key : Str → Bool
is_directive_key k =
    str_eq k (codes "affinity")
    || (str_eq k (codes "constraint")
        || (str_eq k (codes "reschedule") || str_eq k (codes "whitelist")))

-- Whether an entry is a directive for the scheduler.
pub is_directive : Str → Bool
unfolding is_directive_key
is_directive e = elim (parse_env e) [ none ↦ false | some (k, v) ↦ is_directive_key k ]

-- One entry, split by its key.
record Filed (d r : Directives) (e key value : Str) : Type 0 where
  affinities : r.affinities ≡ d.affinities ++ value_for (codes "affinity") key value
  constraints : r.constraints ≡ d.constraints ++ value_for (codes "constraint") key value
  reschedule_policies :
      r.reschedule_policies ≡ d.reschedule_policies ++ value_for (codes "reschedule") key value
  whitelists : r.whitelists ≡ d.whitelists ++ value_for (codes "whitelist") key value
  env : r.env ≡ d.env ++ (if is_directive_key key then [] else e ∷ [])

add_directive-Filed :
    (d : Directives) (e key value : Str) → Filed d (add_directive d e key value) e key value
unfolding add_directive value_for is_directive_key
add_directive-Filed d e key value = ground (
  arith,
  str_eq_iff key (codes "affinity"),
  str_eq_iff key (codes "constraint"),
  str_eq_iff key (codes "reschedule"),
  str_eq_iff key (codes "whitelist"),
  append-nil d.affinities,
  append-nil d.constraints,
  append-nil d.reschedule_policies,
  append-nil d.whitelists,
  append-nil d.env,
)

-- What the loop over the environment gathers in its five lists.
record Gathered (d r : Directives) (es : List Str) : Type 0 where
  affinities : r.affinities ≡ d.affinities ++ values_of (codes "affinity") es
  constraints : r.constraints ≡ d.constraints ++ values_of (codes "constraint") es
  reschedule_policies :
      r.reschedule_policies ≡ d.reschedule_policies ++ values_of (codes "reschedule") es
  whitelists : r.whitelists ≡ d.whitelists ++ values_of (codes "whitelist") es
  env : r.env ≡ d.env ++ keep (λ e. not (is_directive e)) es

add_env-Gathered : (d : Directives) (e : Str) → Gathered d (add_env d e) (e ∷ [])
unfolding add_env values_of value_of is_directive keep
add_env-Gathered d e = elim (Option-cases (parse_env e)) [
  | inl h ↦ ground (
    arith,
    append-nil d.affinities,
    append-nil d.constraints,
    append-nil d.reschedule_policies,
    append-nil d.whitelists,
  )
  | inr ((key, value), h) ↦ ground (
    arith,
    add_directive-Filed d e key value,
    append-nil (value_for (codes "affinity") key value),
    append-nil (value_for (codes "constraint") key value),
    append-nil (value_for (codes "reschedule") key value),
    append-nil (value_for (codes "whitelist") key value),
  )
]

values_of-cons :
    (key e : Str) (es : List Str)
    → values_of key (e ∷ es) ≡ values_of key (e ∷ []) ++ values_of key es
unfolding values_of
values_of-cons key e es = simp (append-nil)

keep-cons :
    (p : Str → Bool) (e : Str) (es : List Str) → keep p (e ∷ es) ≡ keep p (e ∷ []) ++ keep p es
unfolding keep
keep-cons p e es = ground arith

Gathered-cons :
    (d r t : Directives) (e : Str) (es : List Str)
    → Gathered d r (e ∷ [])
    → Gathered r t es
    → Gathered d t (e ∷ es)
Gathered-cons d r t e es g h = record {
  affinities = simp (h.affinities, g.affinities, values_of-cons _ e es, append_assoc);
  constraints = simp (h.constraints, g.constraints, values_of-cons _ e es, append_assoc);
  reschedule_policies =
      simp (h.reschedule_policies, g.reschedule_policies, values_of-cons _ e es, append_assoc);
  whitelists = simp (h.whitelists, g.whitelists, values_of-cons _ e es, append_assoc);
  env = simp (h.env, g.env, keep-cons _ e es, append_assoc);
}

add_envs-Gathered : (d : Directives) (es : List Str) → Gathered d (add_envs d es) es
unfolding add_envs values_of keep
add_envs-Gathered d [] = record {
  affinities = sym (append-nil _);
  constraints = sym (append-nil _);
  reschedule_policies = sym (append-nil _);
  whitelists = sym (append-nil _);
  env = sym (append-nil _);
}
add_envs-Gathered d (e ∷ es) =
    Gathered-cons d (add_env d e) (add_envs (add_env d e) es) e es (add_env-Gathered d e)
      (add_envs-Gathered (add_env d e) es)

str_eq-label : (k j : Str) → str_eq (label k) (label j) ≡ str_eq k j
unfolding label str_eq
str_eq-label k j = refl

module _ (json : Json) where
  -- A label that was stored is read back, and the others are left alone.
  extract-store_ne :
      (key other : Str) (xs : List Str) (labels : Assoc Str)
      → str_eq key other ≡ false
      → extract json (store json key xs labels) other ≡ extract json labels other
  unfolding extract store
  extract-store_ne key other [] labels h = refl
  extract-store_ne key other (x ∷ xs) labels h = elim (Option-cases (json.marshal (x ∷ xs))) [
    | inl e ↦ rw (e, store) refl
    | inr (text, e) ↦
        ground (arith, lookup-insert (label key) (label other) text labels, str_eq-label key other)
  ]

  extract-store_self :
      (key : Str) (xs vs : List Str) (labels : Assoc Str)
      → xs ≡ extract json labels key ++ vs
      → extract json (store json key xs labels) key ≡ xs
  unfolding extract store
  extract-store_self key [] vs labels h = nil_of_append (extract json labels key) vs h
  extract-store_self key (x ∷ xs) vs labels h =
      let (text, e) = json.marshals (x ∷ xs) in
      ground (
        arith,
        e,
        json.unmarshal-marshal (x ∷ xs) e,
        lookup-insert (label key) (label key) text labels,
        str_eq_refl (label key),
      )

-- Where a configuration keeps its directives, and which environment keys feed each list.
pub record Built (json : Json) (c r : ContainerConfig) : Type 0 where
  pub affinities : affinities json r ≡ affinities json c ++ values_of (codes "affinity") c.env
  pub constraints : constraints json r ≡ constraints json c ++ values_of (codes "constraint") c.env
  pub reschedule_policies :
      extract json r.labels (codes "reschedule-policies")
      ≡ extract json c.labels (codes "reschedule-policies") ++ values_of (codes "reschedule") c.env
  pub whitelists : whitelists json r ≡ whitelists json c ++ values_of (codes "whitelist") c.env
  pub env : r.env ≡ keep (λ e. not (is_directive e)) c.env

module _ (json : Json) (labels : Assoc Str) (d : Directives) where
  with_affinities : Assoc Str
  with_affinities = store json (codes "affinities") d.affinities labels

  with_constraints : Assoc Str
  unfolding with_affinities
  with_constraints = store json (codes "constraints") d.constraints with_affinities

  with_policies : Assoc Str
  unfolding with_constraints
  with_policies = store json (codes "reschedule-policies") d.reschedule_policies with_constraints

  -- Each label in turn: what the later writes leave, and what the earlier ones left.
  extract-store_directives :
      (old : Directives) (es : List Str)
      → Gathered old d es
      → old.affinities ≡ extract json labels (codes "affinities")
      → old.constraints ≡ extract json labels (codes "constraints")
      → old.reschedule_policies ≡ extract json labels (codes "reschedule-policies")
      → old.whitelists ≡ extract json labels (codes "whitelists")
      → let r = store_directives json d labels in
        (extract json r (codes "affinities") ≡ d.affinities)
        × (extract json r (codes "constraints") ≡ d.constraints)
        × (extract json r (codes "reschedule-policies") ≡ d.reschedule_policies)
        × (extract json r (codes "whitelists") ≡ d.whitelists)
  unfolding store_directives with_policies str_eq
  extract-store_directives old es g a c p w =
      let keep_a = λ (k : Str) (h : str_eq (codes "affinities") k ≡ false).
        extract-store_ne json (codes "affinities") k d.affinities labels h in
      let keep_c = λ (k : Str) (h : str_eq (codes "constraints") k ≡ false).
        extract-store_ne json (codes "constraints") k d.constraints with_affinities h in
      let keep_p = λ (k : Str) (h : str_eq (codes "reschedule-policies") k ≡ false).
        extract-store_ne json (codes "reschedule-policies") k d.reschedule_policies with_constraints
          h in
      let keep_w = λ (k : Str) (h : str_eq (codes "whitelists") k ≡ false).
        extract-store_ne json (codes "whitelists") k d.whitelists with_policies h in
      (
        keep_w _ refl
            ∙ keep_p _ refl
            ∙ keep_c _ refl
            ∙ extract-store_self json _ _ (values_of (codes "affinity") es) labels
                (cc (g.affinities, a)),
        keep_w _ refl
            ∙ keep_p _ refl
            ∙ extract-store_self json _ _ (values_of (codes "constraint") es) with_affinities
                (cc (g.constraints, c, keep_a (codes "constraints") refl)),
        keep_w _ refl
            ∙ extract-store_self json _ _ (values_of (codes "reschedule") es) with_constraints (
                cc (
                  g.reschedule_policies,
                  p,
                  keep_a (codes "reschedule-policies") refl,
                  keep_c (codes "reschedule-policies") refl,
                )),
        extract-store_self json _ _ (values_of (codes "whitelist") es) with_policies (
            cc (
              g.whitelists,
              w,
              keep_a (codes "whitelists") refl,
              keep_c (codes "whitelists") refl,
              keep_p (codes "whitelists") refl,
            )),
      )

-- Building a configuration moves every scheduling directive of the environment to the end of the
-- list of its kind in the labels, in order, behind those that the labels held, and leaves in the
-- environment exactly the other entries, in order.
pub build_container_config-Built :
    (json : Json) (c : ContainerConfig) → Built json c (build_container_config json c)
unfolding build_container_config stored_directives affinities constraints whitelists
build_container_config-Built json c =
    let d = add_envs (stored_directives json c) c.env in
    let g = add_envs-Gathered (stored_directives json c) c.env in
    let (a, k, p, w) =
      extract-store_directives json c.labels d (stored_directives json c) c.env g refl refl refl
        refl in
    record {
      affinities = a ∙ g.affinities;
      constraints = k ∙ g.constraints;
      reschedule_policies = p ∙ g.reschedule_policies;
      whitelists = w ∙ g.whitelists;
      env = g.env;
    }
