-- ===== src/Assoc/Keys.antt =====
-- Association lists in which each key stands once, as in a map.
use classicswarm.Prelude.{
  ◌≡◌, refl, ap, inl, inr, true, false, [], ◌∷◌, some, arith, In, Bool-cases,
}
use classicswarm.Text.{Str, str_eq}
use classicswarm.Text.Laws.{str_eq→eq, str_eq_iff}
use classicswarm.Assoc.{Assoc, lookup, has_key, insert, values}
use classicswarm.Assoc.Laws.{has_key-insert, has_key_of_lookup}

module _ {V : Type 0} where
  abbrev pub HasDistinctKeys : Assoc V → Type 0
  HasDistinctKeys [] = Unit
  HasDistinctKeys ((k, v) ∷ m) = (has_key k m ≡ false) × HasDistinctKeys m

  pub insert-HasDistinctKeys :
      (k : Str) (v : V) (m : Assoc V) → HasDistinctKeys m → HasDistinctKeys (insert k v m)
  unfolding insert has_key
  insert-HasDistinctKeys k v [] h = (refl, tt)
  insert-HasDistinctKeys k v ((j, w) ∷ m) (a, b) = elim (Bool-cases (str_eq j k)) [
    | inl e ↦ rw e (a, b)
    | inr e ↦ rw e (
      ground (arith, has_key-insert k j v m, str_eq_iff k j, str_eq_iff j k),
      insert-HasDistinctKeys k v m b,
    )
  ]

  pub lookup_of_In :
      (k : Str) (v : V) (m : Assoc V) → HasDistinctKeys m → In (k, v) m → lookup k m ≡ some v
  unfolding lookup
  lookup_of_In k v [] h i = absurd i
  lookup_of_In k v ((j, w) ∷ m) (a, b) (inl e) =
      let c : k ≡ j = ap (λ p. p.0) e in
      let d : v ≡ w = ap (λ p. p.1) e in ground (arith, str_eq_iff j k)
  lookup_of_In k v ((j, w) ∷ m) (a, b) (inr i) =
      let h = lookup_of_In k v m b i in
      elim (Bool-cases (str_eq j k)) [
        | inl e ↦
            let c : has_key j m ≡ true = rw (str_eq→eq j k e) (has_key_of_lookup k v m h) in
            absurd (ground arith)
        | inr e ↦ rw e h
      ]

  pub In-of_lookup : (k : Str) (v : V) (m : Assoc V) → lookup k m ≡ some v → In (k, v) m
  unfolding lookup
  In-of_lookup k v [] h = absurd (ground arith)
  In-of_lookup k v ((j, w) ∷ m) h = elim (Bool-cases (str_eq j k)) [
    | inl e ↦ let same : w ≡ v = ground arith in inl (rw (str_eq→eq j k e, same) refl)
    | inr e ↦ inr (In-of_lookup k v m (ground arith))
  ]

  pub key_of_value : (v : V) (m : Assoc V) → In v (values m) → (k : Str) × In (k, v) m
  unfolding values
  key_of_value v [] i = absurd i
  key_of_value v ((j, w) ∷ m) (inl e) = (j, inl (ap (λ u. (j, u)) e))
  key_of_value v ((j, w) ∷ m) (inr i) = let (k, h) = key_of_value v m i in (k, inr h)
