-- ===== src/Cluster/Operations.antt =====
-- cluster/swarm/cluster.go: the operations that go to one engine or to all of them. The answers of
-- the engines are arguments, by the key of the engine in the table. An engine that has left the
-- table is not followed.
use classicswarm.Prelude.{
  Bool, true, false, not, List, [], ◌∷◌, ◌++◌, Option, none, some, if◌then◌else◌,
}
use classicswarm.Text.{Str, codes, str_eq}
use classicswarm.Int64.{ℤ}
use classicswarm.Assoc.{Assoc, lookup, insert}
use classicswarm.Config.Codec.{Json}
use classicswarm.Container.{Container}
use classicswarm.Network.{get_volume}
use classicswarm.Engine.{Engine, ApiError, Response}
use classicswarm.Engine.Cache.{Summary, Inspected, refresh_containers}
use classicswarm.Engine.Caches.{list_volumes, remove_volume}
use classicswarm.Engine.Calls.{Listings, rename_container}
use classicswarm.Cluster.{Cluster, check_name_uniqueness}

-- What the engine under a key becomes.
unfoldable pub put_engine : Str → Engine → Cluster → Cluster
unfolding insert
put_engine key e c = record c { engines = insert key e c.engines }

-- RenameContainer; `none` is the conflict of names.
unfoldable pub rename_cluster_container :
    Json
    → ℤ
    → (renamed : Option ApiError) → Listings
    → Container
    → (name : Str) → Cluster
    → Cluster × Option (Option ApiError)
unfolding check_name_uniqueness lookup rename_container put_engine
rename_cluster_container json now renamed l k name c =
    if not (check_name_uniqueness name c) then (c, none) else elim (lookup k.engine.id c.engines) [
      | none ↦ (c, some renamed)
      | some e ↦
          let (f, r) = rename_container json now renamed l k e in
          (put_engine k.engine.id f c, some r)
    ]

-- The refreshes of all engines stop at the first error.
unfoldable pub refresh_each :
    Json
    → ℤ
    → (Str → Response (List Summary))
    → (Str → Response Inspected)
    → Assoc Engine
    → Assoc Engine × Option ApiError
unfolding refresh_containers
refresh_each json now listing inspect [] = ([], none)
refresh_each json now listing inspect ((key, e) ∷ es) =
    let (f, r) = refresh_containers json now true inspect (listing key) e in
    let (rest, s) = refresh_each json now listing inspect es in
    elim r [ some x ↦ ((key, f) ∷ es, some x) | none ↦ ((key, f) ∷ rest, s) ]

unfoldable pub refresh_engines :
    Json
    → ℤ
    → (Str → Response (List Summary))
    → (Str → Response Inspected)
    → Cluster
    → Cluster × Option ApiError
unfolding refresh_each
refresh_engines json now listing inspect c =
    let (es, r) = refresh_each json now listing inspect c.engines in (record c { engines = es }, r)

-- RefreshEngine: the first engine of that name; `none` is the error that there is none.
unfoldable pub refresh_named :
    Json
    → ℤ
    → Response (List Summary)
    → (Str → Response Inspected)
    → (hostname : Str) → Assoc Engine
    → Option (Assoc Engine × Option ApiError)
unfolding refresh_containers str_eq
refresh_named json now listing inspect hostname [] = none
refresh_named json now listing inspect hostname ((key, e) ∷ es) =
    let later = refresh_named json now listing inspect hostname es in
    if str_eq e.name hostname
    then (let (f, r) = refresh_containers json now true inspect listing e in
        some ((key, f) ∷ es, r))
    else elim later [ none ↦ none | some (rest, r) ↦ some ((key, e) ∷ rest, r) ]

unfoldable pub refresh_engine :
    Json
    → ℤ
    → Response (List Summary)
    → (Str → Response Inspected)
    → (hostname : Str) → Cluster
    → Cluster × Option (Option ApiError)
unfolding refresh_named
refresh_engine json now listing inspect hostname c =
    elim (refresh_named json now listing inspect hostname c.engines) [
      | none ↦ (c, none)
      | some (es, r) ↦ (record c { engines = es }, some r)
    ]

-- RemoveVolumes: whether a volume was removed, and the texts of the errors.
unfoldable pub remove_each_volume :
    ℤ → (Str → Option ApiError) → (query : Str) → Assoc Engine → Assoc Engine × (Bool × List Str)
unfolding get_volume list_volumes remove_volume
remove_each_volume now removed query [] = ([], (false, []))
remove_each_volume now removed query ((key, e) ∷ es) =
    let (rest, (found, errs)) = remove_each_volume now removed query es in
    elim (get_volume query (list_volumes e)) [
      | none ↦ ((key, e) ∷ rest, (found, errs))
      | some v ↦
          let (f, r) = remove_volume now (removed key) v.name e in
          elim r [
            | none ↦ ((key, f) ∷ rest, (true, errs))
            | some x ↦ ((key, f) ∷ rest, (found, (e.name ++ (codes ": " ++ x.text)) ∷ errs))
          ]
    ]

unfoldable pub remove_volumes :
    ℤ → (Str → Option ApiError) → (query : Str) → Cluster → Cluster × (Bool × List Str)
unfolding remove_each_volume
remove_volumes now removed query c =
    let (es, r) = remove_each_volume now removed query c.engines in (record c { engines = es }, r)
