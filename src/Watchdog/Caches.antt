-- ===== src/Watchdog/Caches.antt =====
-- The cache of the engine of a container, after the watchdog has taken the container out of it or
-- has put it back (cluster/watchdog.go).
use classicswarm.Prelude.{
  ◌≡◌, ◌≢◌, refl, ap, subst, ◌∙◌, ◌⊎◌, true, false, List, [], ◌∷◌, Option, none, some, is_empty,
  inl, inr, arith, Bool-cases, Option-cases,
}
use classicswarm.Text.{Str, str_eq}
use classicswarm.Text.Laws.{str_eq_refl}
use classicswarm.Assoc.{Assoc, lookup, has_key, insert, delete}
use classicswarm.Assoc.Laws.{lookup-insert_self, has_key-insert}
use classicswarm.Container.{Container}
use classicswarm.Engine.{Engine}
use classicswarm.Engine.Cache.{add_container, remove_container}
use classicswarm.Cluster.{Cluster}
use classicswarm.Cluster.Operations.{put_engine}
use classicswarm.Watchdog.{change_engine, forget, add_back}

-- The cache of the container's engine has a container of its ID, and has none, where the engine is
-- in the table.
abbrev pub IsCached : Container → Cluster → Type 0
IsCached c cluster =
    (e : Engine) → lookup c.engine.id cluster.engines ≡ some e → has_key c.id e.containers ≡ true

abbrev pub IsForgotten : Container → Cluster → Type 0
IsForgotten c cluster =
    (e : Engine) → lookup c.engine.id cluster.engines ≡ some e → has_key c.id e.containers ≡ false

pub nonempty : {A : Type 0} (l : List A) → is_empty l ≡ false → l ≢ []
unfolding is_empty
nonempty [] h = λ e. absurd (ground arith)
nonempty (a ∷ l) h = λ e. cc

-- The engine under the ID after an operation on it.
changed :
    (id : Str) (of : Engine → Option Engine) (c : Cluster) (f : Engine)
    → lookup id (change_engine id of c).engines ≡ some f
    → (e : Engine) × (((of e ≡ none) × (e ≡ f)) ⊎ (of e ≡ some f))
unfolding change_engine put_engine
changed id of c f h = elim (Option-cases (lookup id c.engines)) [
  | inl e ↦ absurd (ground arith)
  | inr (e, l) ↦ elim (Option-cases (of e)) [
    | inl k ↦
        let g : lookup id c.engines ≡ some f = rw (l, change_engine, k) at h in
        (e, inl (k, ground arith))
    | inr (g, k) ↦
        let m : lookup id (insert id g c.engines) ≡ some f = rw (l, change_engine, k) at h in
        let n = lookup-insert_self id g c.engines in
        let same : g ≡ f = ground arith in (e, inr (k ∙ ap some same))
  ]
]

add_container-has_key :
    (c : Container) (e f : Engine)
    → ((add_container c e ≡ none) × (e ≡ f)) ⊎ (add_container c e ≡ some f)
    → has_key c.id f.containers ≡ true
unfolding add_container
add_container-has_key c e f h = elim (Bool-cases (has_key c.id e.containers)) [
  | inl k ↦ elim h [
    | inl (n, same) ↦ subst (λ g. has_key c.id g.containers ≡ true) same k
    | inr n ↦ absurd (ground arith)
  ]
  | inr k ↦ elim h [
    | inl (n, same) ↦ absurd (ground arith)
    | inr n ↦
        let same : record e { containers = insert c.id c e.containers } ≡ f = ground arith in
        subst (λ g. has_key c.id g.containers ≡ true) same
          (ground (arith, has_key-insert c.id c.id c e.containers, str_eq_refl c.id))
  ]
]

pub add_back-IsCached : (c : Container) (cluster : Cluster) → IsCached c (add_back c cluster)
unfolding add_back
add_back-IsCached c cluster f h =
    let (e, k) = changed c.engine.id (add_container c) cluster f h in add_container-has_key c e f k

deleted : (id : Str) (m : Assoc Container) → has_key id (delete id m) ≡ false
unfolding delete has_key
deleted id [] = refl
deleted id ((j, v) ∷ m) = elim (Bool-cases (str_eq j id)) [
  | inl e ↦ rw e (deleted id m)
  | inr e ↦ ground (arith, deleted id m)
]

remove_container-has_key :
    (c : Container) (e f : Engine)
    → ((remove_container c e ≡ none) × (e ≡ f)) ⊎ (remove_container c e ≡ some f)
    → has_key c.id f.containers ≡ false
unfolding remove_container
remove_container-has_key c e f h = elim (Bool-cases (has_key c.id e.containers)) [
  | inr k ↦ elim h [
    | inl (n, same) ↦ subst (λ g. has_key c.id g.containers ≡ false) same k
    | inr n ↦ absurd (ground arith)
  ]
  | inl k ↦ elim h [
    | inl (n, same) ↦ absurd (ground arith)
    | inr n ↦
        let same : record e { containers = delete c.id e.containers } ≡ f = ground arith in
        subst (λ g. has_key c.id g.containers ≡ false) same (deleted c.id e.containers)
  ]
]

pub forget-IsForgotten : (c : Container) (cluster : Cluster) → IsForgotten c (forget c cluster)
unfolding forget
forget-IsForgotten c cluster f h =
    let (e, k) = changed c.engine.id (remove_container c) cluster f h in
    remove_container-has_key c e f k
