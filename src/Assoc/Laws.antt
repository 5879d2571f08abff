-- ===== src/Assoc/Laws.antt =====
-- The laws of maps, in the form of one equation for each operation under `lookup`.
use classicswarm.Prelude.{
  ◌≡◌, refl, true, not, ◌&&◌, ◌||◌, [], ◌∷◌, none, some, arith, if◌then◌else◌, In,
}
use classicswarm.Text.{Str, str_eq}
use classicswarm.Text.Laws.{str_eq_iff, str_eq_refl}
use classicswarm.Assoc.{Assoc, lookup, has_key, insert, delete, values}

module _ {ℓ} {V : Type ℓ} where
  pub lookup-insert :
      (k j : Str) (v : V) (m : Assoc V)
      → lookup j (insert k v m) ≡ (if str_eq k j then some v else lookup j m)
  unfolding lookup insert
  lookup-insert k j v [] = refl
  lookup-insert k j v ((i, w) ∷ m) =
      ground (arith, str_eq_iff k j, str_eq_iff i k, str_eq_iff i j, lookup-insert k j v m)

  pub lookup-insert_self : (k : Str) (v : V) (m : Assoc V) → lookup k (insert k v m) ≡ some v
  lookup-insert_self k v m = rw (lookup-insert k k v m, str_eq_refl k)

  pub lookup-delete :
      (k j : Str) (m : Assoc V) → lookup j (delete k m) ≡ (if str_eq k j then none else lookup j m)
  unfolding lookup delete
  lookup-delete k j [] = ground arith
  lookup-delete k j ((i, w) ∷ m) =
      ground (arith, str_eq_iff k j, str_eq_iff i k, str_eq_iff i j, lookup-delete k j m)

  pub lookup-delete_self : (k : Str) (m : Assoc V) → lookup k (delete k m) ≡ none
  lookup-delete_self k m = rw (lookup-delete k k m, str_eq_refl k)

  pub has_key-insert :
      (k j : Str) (v : V) (m : Assoc V) → has_key j (insert k v m) ≡ (str_eq k j || has_key j m)
  unfolding has_key insert
  has_key-insert k j v [] = refl
  has_key-insert k j v ((i, w) ∷ m) =
      ground (arith, str_eq_iff k j, str_eq_iff i k, str_eq_iff i j, has_key-insert k j v m)

  pub has_key-delete :
      (k j : Str) (m : Assoc V) → has_key j (delete k m) ≡ (not (str_eq k j) && has_key j m)
  unfolding has_key delete
  has_key-delete k j [] = ground arith
  has_key-delete k j ((i, w) ∷ m) =
      ground (arith, str_eq_iff k j, str_eq_iff i k, str_eq_iff i j, has_key-delete k j m)

  pub has_key_of_lookup : (k : Str) (v : V) (m : Assoc V) → lookup k m ≡ some v → has_key k m ≡ true
  unfolding has_key lookup
  has_key_of_lookup k v [] h = cc
  has_key_of_lookup k v ((i, w) ∷ m) h = ground (arith, has_key_of_lookup k v m)

  -- A key that is absent is deleted without effect.
  pub delete_absent : (k : Str) (m : Assoc V) → lookup k m ≡ none → delete k m ≡ m
  unfolding lookup delete
  delete_absent k [] h = refl
  delete_absent k ((i, w) ∷ m) h = ground (arith, delete_absent k m)

pub In-values_of_lookup :
    {V : Type 0} (k : Str) (v : V) (m : Assoc V) → lookup k m ≡ some v → In v (values m)
unfolding lookup values
In-values_of_lookup k v [] h = cc
In-values_of_lookup k v ((i, w) ∷ m) h = ground (arith, In-values_of_lookup k v m)
