-- ===== src/Container/Get.antt =====
-- Containers.Get: which container a query names, and a query that it cannot resolve.
use classicswarm.Prelude.{
  ◌≡◌, refl, sym, subst, ◌⊎◌, inl, inr, Bool, true, false, List, [], ◌∷◌, ◌++◌, none, some, arith,
  keep, find_first, find_first-some, find_first-none, In, In-keep, In-keep_of, Option-cases,
  Bool-cases,
}
use classicswarm.Text.{Str, has_prefix}
use classicswarm.Config.{swarm_id}
use classicswarm.Container.{
  Container, by_id, by_swarm_id, by_name, prefixed, only, get_candidate, get,
}

-- No container of the list passes the test.
abbrev pub NoneBy : (Container → Bool) → List Container → Type 0
NoneBy p cs = (d : Container) → In d cs → p d ≡ false

abbrev pub id_prefix : Str → Container → Bool
id_prefix query c = has_prefix c.id query

abbrev pub swarm_id_prefix : Str → Container → Bool
swarm_id_prefix query c = has_prefix (swarm_id c.config) query

-- Why `get` answers with a container, in the order of its stages.
pub data Names (truncate : Str → Str) (query : Str) (cs : List Container) (c : Container)
    : Type 0 where
  exact_id : by_id truncate query c ≡ true → Names truncate query cs c
  exact_swarm_id :
      NoneBy (by_id truncate query) cs
      → by_swarm_id truncate query c ≡ true
      → Names truncate query cs c
  only_name :
      NoneBy (by_id truncate query) cs
      → NoneBy (by_swarm_id truncate query) cs
      → by_name query c ≡ true
      → ((d : Container) → In d cs → by_name query d ≡ true → d ≡ c)
      → Names truncate query cs c
  only_prefix :
      NoneBy (by_id truncate query) cs
      → NoneBy (by_swarm_id truncate query) cs
      → NoneBy (by_name query) cs
      → (id_prefix query c ≡ true) ⊎ (swarm_id_prefix query c ≡ true)
      → ((d : Container)
          → In d cs
          → (id_prefix query d ≡ true) ⊎ (swarm_id_prefix query d ≡ true)
          → d ≡ c)
      → Names truncate query cs c

only-some : {A : Type 0} (xs : List A) (a : A) → only xs ≡ some a → xs ≡ a ∷ []
unfolding only
only-some [] a h = cc
only-some (x ∷ []) a h = cc
only-some (x ∷ y ∷ xs) a h = cc

In-append_left : {A : Type 0} (a : A) (xs ys : List A) → In a xs → In a (xs ++ ys)
In-append_left a [] ys m = elim m [ ]
In-append_left a (x ∷ xs) ys m = ground (arith, In-append_left a xs ys)

In-append_right : {A : Type 0} (a : A) (xs ys : List A) → In a ys → In a (xs ++ ys)
In-append_right a [] ys m = m
In-append_right a (x ∷ xs) ys m = inr (In-append_right a xs ys m)

In-append : {A : Type 0} (a : A) (xs ys : List A) → In a (xs ++ ys) → In a xs ⊎ In a ys
In-append a [] ys m = inr m
In-append a (x ∷ xs) ys m = ground (arith, In-append a xs ys)

In-only : {A : Type 0} (d a : A) (xs : List A) → xs ≡ a ∷ [] → In d xs → d ≡ a
In-only d a xs e m = only_one (subst (In d) e m)
  where
    only_one : (d ≡ a) ⊎ ⊥ → d ≡ a
    only_one (inl p) = p
    only_one (inr f) = absurd f

NoneBy-keep : (p : Container → Bool) (cs : List Container) → keep p cs ≡ [] → NoneBy p cs
NoneBy-keep p cs e d m = elim (Bool-cases (p d)) [
  | inl t ↦ absurd (subst (In d) e (In-keep_of p d cs m t))
  | inr f ↦ f
]

module _ (truncate : Str → Str) (query : Str) (cs : List Container) where
  In-prefixed :
      (d : Container)
      → In d cs
      → (id_prefix query d ≡ true) ⊎ (swarm_id_prefix query d ≡ true)
      → In d (prefixed query cs)
  unfolding prefixed
  In-prefixed d m (inl h) = In-append_left d _ _ (In-keep_of (id_prefix query) d cs m h)
  In-prefixed d m (inr h) = In-append_right d _ _ (In-keep_of (swarm_id_prefix query) d cs m h)

  prefixed_inv :
      (d : Container)
      → In d (prefixed query cs)
      → In d cs × ((id_prefix query d ≡ true) ⊎ (swarm_id_prefix query d ≡ true))
  unfolding prefixed
  prefixed_inv d m = sides (In-append d (keep (id_prefix query) cs) _ m)
    where
      sides :
          In d (keep (id_prefix query) cs) ⊎ In d (keep (swarm_id_prefix query) cs)
          → In d cs × ((id_prefix query d ≡ true) ⊎ (swarm_id_prefix query d ≡ true))
      sides (inl i) = let (j, h) = In-keep _ d cs i in (j, inl h)
      sides (inr i) = let (j, h) = In-keep _ d cs i in (j, inr h)

  candidate-Names :
      (c : Container) (found : List Container)
      → keep (by_name query) cs ≡ found
      → NoneBy (by_id truncate query) cs
      → NoneBy (by_swarm_id truncate query) cs
      → get_candidate truncate query cs found ≡ some c
      → In c cs × Names truncate query cs c
  unfolding get_candidate
  candidate-Names c [] e no_id no_swarm h =
      let single = only-some (prefixed query cs) c h in
      let (m, p) = prefixed_inv c (subst (In c) (sym single) (inl refl)) in
      (
        m,
        only_prefix no_id no_swarm (NoneBy-keep _ cs e) p
            (λ d i q. In-only d c _ single (In-prefixed d i q)),
      )
  candidate-Names c (x ∷ xs) e no_id no_swarm h =
      let single : keep (by_name query) cs ≡ c ∷ [] = rw (e, only-some (x ∷ xs) c h) in
      let (m, p) = In-keep (by_name query) c cs (subst (In c) (sym single) (inl refl)) in
      (
        m,
        only_name no_id no_swarm p
            (λ d i q. In-only d c _ single (In-keep_of (by_name query) d cs i q)),
      )

-- A container that Get returns is in the list, and it is named by its full or short ID; or, no
-- container being so named, by its Swarm ID; or it is the only one that the query names by name;
-- or, none being named in any of these ways, the only one whose ID or Swarm ID the query begins.
pub get-Names :
    (truncate : Str → Str) (query : Str) (cs : List Container) (c : Container)
    → get truncate query cs ≡ some c
    → In c cs × Names truncate query cs c
unfolding get
get-Names truncate [] cs c h = cc
get-Names truncate (b ∷ q) cs c h = elim (Option-cases (find_first (by_id truncate (b ∷ q)) cs)) [
  | inr (x, e) ↦
      let same : x ≡ c = ground arith in
      let (m, p) = find_first-some _ x cs e in
      (subst (λ y. In y cs) same m, exact_id (rw (← same) p))
  | inl e ↦ elim (Option-cases (find_first (by_swarm_id truncate (b ∷ q)) cs)) [
    | inr (x, f) ↦
        let same : x ≡ c = ground arith in
        let (m, p) = find_first-some _ x cs f in
        (
          subst (λ y. In y cs) same m,
          exact_swarm_id (λ d i. find_first-none _ d cs e i) (rw (← same) p),
        )
    | inl f ↦
        candidate-Names truncate (b ∷ q) cs c (keep (by_name (b ∷ q)) cs) refl
          (λ d i. find_first-none _ d cs e i) (λ d i. find_first-none _ d cs f i) (ground arith)
  ]
]

only-append : {A : Type 0} (a b : A) (xs ys : List A) → In a xs → In b ys → only (xs ++ ys) ≡ none
unfolding only
only-append a b [] ys m n = elim m [ ]
only-append a b (x ∷ xs) [] m n = elim n [ ]
only-append a b (x ∷ []) (y ∷ ys) m n = refl
only-append a b (x ∷ z ∷ xs) (y ∷ ys) m n = refl

keep_none : (p : Container → Bool) (cs : List Container) → NoneBy p cs → keep p cs ≡ []
unfolding keep
keep_none p [] h = refl
keep_none p (c ∷ cs) h = rw (h c (inl refl), keep) (keep_none p cs (λ d m. h d (inr m)))

find_none : (p : Container → Bool) (cs : List Container) → NoneBy p cs → find_first p cs ≡ none
unfolding find_first
find_none p [] h = refl
find_none p (c ∷ cs) h = rw (h c (inl refl), find_first) (find_none p cs (λ d m. h d (inr m)))

-- A container whose ID and whose Swarm ID both begin with the query is counted twice: where the
-- query names nothing by ID, Swarm ID or name, Get finds no container, however the list goes on.
pub get_both_prefixes :
    (truncate : Str → Str) (query : Str) (cs : List Container) (c : Container)
    → NoneBy (by_id truncate query) cs
    → NoneBy (by_swarm_id truncate query) cs
    → NoneBy (by_name query) cs
    → In c cs
    → id_prefix query c ≡ true
    → swarm_id_prefix query c ≡ true
    → get truncate query cs ≡ none
unfolding get get_candidate prefixed
get_both_prefixes truncate [] cs c no_id no_swarm no_name m h k = refl
get_both_prefixes truncate (b ∷ q) cs c no_id no_swarm no_name m h k =
    rw
      (
        find_none (by_id truncate (b ∷ q)) cs no_id,
        get,
        find_none (by_swarm_id truncate (b ∷ q)) cs no_swarm,
        keep_none (by_name (b ∷ q)) cs no_name,
        get_candidate,
      )
      (only-append c c (keep (id_prefix (b ∷ q)) cs) (keep (swarm_id_prefix (b ∷ q)) cs)
        (In-keep_of _ c cs m h) (In-keep_of _ c cs m k))
