-- ===== src/Engine/Refresh.antt =====
-- What RefreshContainers leaves in the cache.
use classicswarm.Prelude.{
  ◌≡◌, refl, sym, ◌∙◌, ap, inl, inr, Bool, true, false, not, ◌&&◌, ◌||◌, List, [], ◌∷◌, Option,
  none, some, any, arith, Bool-cases, Option-cases,
}
use classicswarm.Text.{Str, str_eq}
use classicswarm.Text.Laws.{str_eq→eq}
use classicswarm.Assoc.{Assoc, lookup, has_key, insert, keys}
use classicswarm.Assoc.Laws.{has_key-insert, has_key-delete}
use classicswarm.Int64.{ℤ}
use classicswarm.Config.Codec.{Json}
use classicswarm.Container.{Container}
use classicswarm.Engine.{
  Engine, Response, answered, check_connection_err, set_err_msg, come_back, reset_failure_count,
  emit_event,
}
use classicswarm.Engine.Steps.{is_pending, is_unhealthy, is_healthy, is_disconnected, state_cases}
use classicswarm.Engine.Cache.{
  Summary, Inspected, inspected_container, put_container, inspect_container, update_container,
  merge_containers, is_listed, delete_missing, put_all, refresh_containers,
}

come_back-containers : (e : Engine) → (come_back e).containers ≡ e.containers
unfolding come_back emit_event
come_back-containers e = elim (state_cases e) [
  | is_pending h ↦ rw (h, come_back) refl
  | is_unhealthy h ↦ rw (h, come_back) (ground arith)
  | is_healthy h ↦ rw (h, come_back) refl
  | is_disconnected h ↦ rw (h, come_back) refl
]

check-containers :
    (now : ℤ) (e : Engine) → (check_connection_err now none e).containers ≡ e.containers
unfolding check_connection_err set_err_msg reset_failure_count
check-containers now e = come_back-containers (set_err_msg now [] e)

has_key-put_all :
    (j : Str) (merged m : Assoc Container)
    → has_key j (put_all merged m) ≡ (has_key j merged || has_key j m)
unfolding put_all has_key
has_key-put_all j [] m = refl
has_key-put_all j ((i, c) ∷ merged) m =
    ground (arith, has_key-insert i j c (put_all merged m), has_key-put_all j merged m)

-- A key that is not listed is deleted if it is among the given ones.
has_key-delete_missing :
    (j : Str) (ids : List Str) (cs : List Summary) (m : Assoc Container)
    → has_key j (delete_missing ids cs m)
      ≡ (has_key j m && (is_listed j cs || not (any (λ i. str_eq i j) ids)))
unfolding delete_missing any
has_key-delete_missing j [] cs m = ground arith
has_key-delete_missing j (i ∷ ids) cs m = elim (Bool-cases (is_listed i cs)) [
  | inl h ↦ rw h (ground (arith, has_key-delete_missing j ids cs m, listed_same h))
  | inr h ↦ rw h (
      ground (
        arith,
        has_key-delete i j (delete_missing ids cs m),
        has_key-delete_missing j ids cs m,
        listed_same h,
      ))
]
  where
    listed_same : {b : Bool} → is_listed i cs ≡ b → str_eq i j ≡ true → is_listed j cs ≡ b
    listed_same h e = rw (← str_eq→eq i j e) h

any-keys : (j : Str) (m : Assoc Container) → any (λ i. str_eq i j) (keys m) ≡ has_key j m
unfolding any keys has_key
any-keys j [] = refl
any-keys j ((i, c) ∷ m) = ground (arith, any-keys j m)

settled :
    (new old listed held before : Bool)
    → new ≡ (listed || false)
    → old ≡ (held && (listed || not before))
    → held ≡ before
    → (new || old) ≡ listed
settled new old listed held before p q r = ground arith

-- What an update that succeeds does to the cache and to the map of new containers.
record Updated (c : Summary) (e : Engine) (merged : Assoc Container) (f : Engine)
    (m : Assoc Container) : Type 0 where
  cached : (j : Str) → has_key j f.containers ≡ has_key j e.containers
  merged_keys : (j : Str) → has_key j m ≡ (str_eq c.id j || has_key j merged)

put_container-cached :
    (j : Str) (k : Container) (e : Engine) (merged : Assoc Container)
    → has_key j (put_container k e merged).0.containers ≡ has_key j e.containers
unfolding put_container
put_container-cached j k e merged = elim (Bool-cases (has_key k.id e.containers)) [
  | inl h ↦ rw h (has_key-insert k.id j k e.containers ∙ known h)
  | inr h ↦ rw h refl
]
  where
    known :
        has_key k.id e.containers ≡ true
        → (str_eq k.id j || has_key j e.containers) ≡ has_key j e.containers
    known h = elim (Bool-cases (str_eq k.id j)) [
      | inl s ↦ let q : has_key j e.containers ≡ true = rw (← str_eq→eq k.id j s) h in ground arith
      | inr s ↦ ground arith
    ]

-- The result of a successful update.
abbrev Updates : Summary → Engine → Assoc Container → Engine × Option (Assoc Container) → Type 0
Updates c e merged r = (m : Assoc Container) × (r.1 ≡ some m) × Updated c e merged r.0 m

put_container-Updates :
    (c : Summary) (k : Container) (e f : Engine) (merged : Assoc Container)
    → k.id ≡ c.id
    → e.containers ≡ f.containers
    → Updates c e merged (put_container k f merged)
unfolding put_container
put_container-Updates c k e f merged s t = (
  insert k.id k merged,
  refl,
  record {
    cached = λ j. put_container-cached j k f merged ∙ ap (has_key j) (sym t);
    merged_keys = λ j. has_key-insert k.id j k merged ∙ ap (λ i. str_eq i j || has_key j merged) s;
  },
)

module _ (json : Json) (now : ℤ) (full : Bool) (inspect : Str → Response Inspected)
    (answers : (id : Str) → (i : Inspected) × (inspect id ≡ answered i)) where
  inspect_container-Updates :
      (c : Summary) (e : Engine) (merged : Assoc Container)
      → Updates c e merged (inspect_container json now (inspect c.id) c e merged)
  unfolding inspect_container inspected_container
  inspect_container-Updates c e merged =
      let (i, h) = answers c.id in
      let f = check_connection_err now none e in
      rw (h, inspect_container)
        (put_container-Updates c (inspected_container json f c i) e f merged refl
          (sym (check-containers now e)))

  update_container-Updates :
      (c : Summary) (e : Engine) (merged : Assoc Container)
      → Updates c e merged (update_container json now full inspect c e merged)
  unfolding update_container
  update_container-Updates c e merged = elim (Option-cases (lookup c.id e.containers)) [
    | inl h ↦ rw (h, update_container) (inspect_container-Updates c e merged)
    | inr (k, h) ↦ elim (Bool-cases (k.info.restarting || full)) [
      | inl g ↦ rw (h, update_container, g) (inspect_container-Updates c e merged)
      | inr g ↦
          rw (h, update_container, g)
            (put_container-Updates c (record k { id = c.id; names = c.names; labels = c.labels }) e
              e merged refl refl)
    ]
  ]

  merge_containers-keys :
      (j : Str) (cs : List Summary) (e : Engine) (merged : Assoc Container)
      → let r = merge_containers json now full inspect cs e merged in
        (has_key j r.0.containers ≡ has_key j e.containers)
        × (has_key j r.1 ≡ (is_listed j cs || has_key j merged))
  unfolding merge_containers is_listed any
  merge_containers-keys j [] e merged = (refl, refl)
  merge_containers-keys j (c ∷ cs) e merged =
      let (m, h, u) = update_container-Updates c e merged in
      let (a, b) =
        merge_containers-keys j cs (update_container json now full inspect c e merged).0 m in
      rw (h, merge_containers) (a ∙ u.cached j, b ∙ ordered j m (u.merged_keys j))
    where
      ordered :
          (j : Str) (m : Assoc Container)
          → has_key j m ≡ (str_eq c.id j || has_key j merged)
          → (is_listed j cs || has_key j m)
            ≡ ((str_eq c.id j || is_listed j cs) || has_key j merged)
      ordered j m h = ground arith

  -- A refresh whose list and inspections are answered leaves exactly the listed containers in the
  -- cache, whatever it held before.
  pub refresh_containers-keys :
      (j : Str) (cs : List Summary) (e : Engine)
      → has_key j (refresh_containers json now full inspect (answered cs) e).0.containers
        ≡ is_listed j cs
  unfolding refresh_containers has_key
  refresh_containers-keys j cs e =
      let f = check_connection_err now none e in
      let r = merge_containers json now full inspect cs f [] in
      let (a, b) = merge_containers-keys j cs f [] in
      has_key-put_all j r.1 (delete_missing (keys e.containers) cs r.0.containers)
      ∙ settled (has_key j r.1) (has_key j (delete_missing (keys e.containers) cs r.0.containers))
          (is_listed j cs) (has_key j r.0.containers) (has_key j e.containers) b
          (has_key-delete_missing j (keys e.containers) cs r.0.containers
            ∙ ap (λ g. has_key j r.0.containers && (is_listed j cs || not g))
                (any-keys j e.containers))
          (a ∙ ap (has_key j) (check-containers now e))
