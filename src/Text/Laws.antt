-- ===== src/Text/Laws.antt =====
-- What the operations on strings mean.
use classicswarm.Prelude.{◌≡◌, refl, ◌↔◌, true, [], ◌∷◌, ◌++◌, some, arith}
use classicswarm.Text.Defs.{Str, str_eq, has_prefix, cut_prefix}

pub str_eq→eq : (s t : Str) → str_eq s t ≡ true → s ≡ t
unfolding str_eq
str_eq→eq [] [] h = refl
str_eq→eq [] (d ∷ t) h = cc
str_eq→eq (c ∷ s) [] h = cc
str_eq→eq (c ∷ s) (d ∷ t) h = ground (arith, str_eq→eq s t)

pub str_eq_refl : (s : Str) → str_eq s s ≡ true
unfolding str_eq
str_eq_refl [] = refl
str_eq_refl (c ∷ s) = ground (arith, str_eq_refl s)

pub str_eq_iff : (s t : Str) → (str_eq s t ≡ true) ↔ (s ≡ t)
str_eq_iff s t = (str_eq→eq s t, λ e. subst_refl s t e)
  where
    subst_refl : (s t : Str) → s ≡ t → str_eq s t ≡ true
    subst_refl s t e = rw e (str_eq_refl t)

-- The two halves and the separator are the text again.
pub cut_prefix_append : (s p : Str) {r : Str} → cut_prefix s p ≡ some r → s ≡ p ++ r
unfolding cut_prefix
cut_prefix_append s [] h = ground arith
cut_prefix_append [] (d ∷ p) h = cc
cut_prefix_append (c ∷ s) (d ∷ p) {r} h = ground (arith, cut_prefix_append s p {r = r})

pub cut_prefix-append : (p r : Str) → cut_prefix (p ++ r) p ≡ some r
unfolding cut_prefix
cut_prefix-append [] r = refl
cut_prefix-append (c ∷ p) r = ground (arith, cut_prefix-append p r)

pub has_prefix-append : (p r : Str) → has_prefix (p ++ r) p ≡ true
unfolding has_prefix
has_prefix-append [] r = refl
has_prefix-append (c ∷ p) r = ground (arith, has_prefix-append p r)
