-- ===== src/Config/Edits.antt =====
-- Adding directives to a configuration and taking them out again, as createContainer does with
-- its image affinity.
use mathlib.Core.List.{append-nil}
use classicswarm.Prelude.{
  ◌≡◌, refl, ◌∙◌, ap, false, not, List, [], ◌∷◌, ◌++◌, some, arith, keep, keep-append,
}
use classicswarm.Text.{Str, codes, str_eq}
use classicswarm.Text.Laws.{str_eq_refl}
use classicswarm.Assoc.{insert}
use classicswarm.Assoc.Laws.{lookup-insert}
use classicswarm.Config.Codec.{Json}
use classicswarm.Config.{
  ContainerConfig, extract, label, replace_exprs, affinities, constraints, whitelists, add_affinity,
  remove_affinity,
}

pub str_eq-label : (k j : Str) → str_eq (label k) (label j) ≡ str_eq k j
unfolding label str_eq
str_eq-label k j = refl

module _ (json : Json) where
  -- One edit: the list of its key is replaced, every other label is kept, and so is the rest.
  pub record Replaced (key : Str) (exprs : List Str) (c r : ContainerConfig) : Type 0 where
    pub written : extract json r.labels key ≡ exprs
    pub others :
        (other : Str)
        → str_eq key other ≡ false
        → extract json r.labels other ≡ extract json c.labels other
    pub rest : r ≡ record c { labels = r.labels }

  pub replace_exprs-Replaced :
      (key : Str) (exprs : List Str) (c : ContainerConfig)
      → (r : ContainerConfig) × (replace_exprs json key exprs c ≡ some r) × Replaced key exprs c r
  unfolding replace_exprs extract
  replace_exprs-Replaced key exprs c =
      let (text, e) = json.marshals exprs in
      (
        record c { labels = insert (label key) text c.labels },
        rw (e, replace_exprs) refl,
        record {
          written = ground (
            arith,
            lookup-insert (label key) (label key) text c.labels,
            str_eq_refl (label key),
            json.unmarshal-marshal exprs e,
          );
          others = λ other h. ground (
            arith,
            lookup-insert (label key) (label other) text c.labels,
            str_eq-label key other,
          );
          rest = refl;
        },
      )

keep_other-append :
    (a : Str) (xs : List Str)
    → keep (λ b. not (str_eq b a)) (xs ++ a ∷ []) ≡ keep (λ b. not (str_eq b a)) xs
unfolding keep
keep_other-append a xs = keep-append _ xs (a ∷ []) ∙ ap (◌++◌ _) (dropped a) ∙ append-nil _
  where
    dropped : (a : Str) → keep (λ b. not (str_eq b a)) (a ∷ []) ≡ []
    dropped a = rw (str_eq_refl a, keep) refl

-- What is left of the directives after an affinity was added and removed again.
pub record Restored (json : Json) (a : Str) (c d r : ContainerConfig) : Type 0 where
  pub added : add_affinity json a c ≡ some d
  pub meanwhile : affinities json d ≡ affinities json c ++ a ∷ []
  pub removed : remove_affinity json a d ≡ some r
  pub affinities : affinities json r ≡ keep (λ b. not (str_eq b a)) (affinities json c)
  pub constraints : constraints json r ≡ constraints json c
  pub whitelists : whitelists json r ≡ whitelists json c

-- AddAffinity and then RemoveAffinity of the same expression both succeed; in between the
-- expression stands at the end of the list, and afterwards the configuration has its constraints
-- and whitelists as before, and its affinities without every copy of the expression: also those
-- copies that it had before.
pub remove-add_affinity :
    (json : Json) (a : Str) (c : ContainerConfig)
    → (d : ContainerConfig) × (r : ContainerConfig) × Restored json a c d r
unfolding add_affinity remove_affinity affinities constraints whitelists str_eq
remove-add_affinity json a c =
    let key = codes "affinities" in
    let (d, added, e) = replace_exprs-Replaced json key (extract json c.labels key ++ a ∷ []) c in
    let (r, removed, f) =
      replace_exprs-Replaced json key (keep (λ b. not (str_eq b a)) (extract json d.labels key))
        d in
    (
      d,
      r,
      record {
        added = added;
        meanwhile = e.written;
        removed = removed;
        affinities =
            f.written
            ∙ ap (keep (λ b. not (str_eq b a))) e.written
            ∙ keep_other-append a (extract json c.labels key);
        constraints = f.others (codes "constraints") refl ∙ e.others (codes "constraints") refl;
        whitelists = f.others (codes "whitelists") refl ∙ e.others (codes "whitelists") refl;
      },
    )
