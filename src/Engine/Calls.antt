-- ===== src/Engine/Calls.antt =====
-- cluster/engine.go: the operations on one container, with the refresh of its entry in the cache.
-- What a request carries, the CPU shares for example, is not modelled, only what the API answers;
-- the encoding of credentials does not fail.
use classicswarm.Prelude.{
  Bool, true, false, not, ◌||◌, ◌&&◌, List, [], ◌∷◌, Option, none, some, if◌then◌else◌,
}
use classicswarm.Text.{Str}
use classicswarm.Assoc.{lookup, delete}
use classicswarm.Int64.{ℤ}
use classicswarm.Config.Codec.{Json}
use classicswarm.Container.{Container}
use classicswarm.Image.{Image}
use classicswarm.Engine.{Engine, ApiError, Response, answered, failed, check_connection_err}
use classicswarm.Engine.Cache.{Summary, Inspected, update_container, refresh_containers}
use classicswarm.Engine.Caches.{refresh_images}

unfoldable pub error_of : {A : Type 0} → Response A → Option ApiError
error_of (answered a) = none
error_of (failed x) = some x

-- The answers of the API: the list of the containers whose ID is asked for, that of all containers,
-- and ContainerInspect.
pub record Listings : Type 0 where
  pub matching : Response (List Summary)
  pub all_containers : Response (List Summary)
  pub inspect : Str → Response Inspected

module _ (json : Json) (now : ℤ) where
  -- The end of refreshContainer, where the list has one container: the map that updateContainer
  -- changes is the cache itself.
  unfoldable pub refresh_one :
      (full : Bool)
      → (Str → Response Inspected)
      → Summary
      → Engine
      → Engine × (Option Container × Option ApiError)
  unfolding update_container lookup error_of
  refresh_one full inspect c e =
      let (f, r) = update_container json now full inspect c e e.containers in
      elim r [
        | none ↦ (f, (lookup c.id f.containers, error_of (inspect c.id)))
        | some m ↦ (record f { containers = m }, (lookup c.id m, none))
      ]

  -- refreshContainer: the container, or nil, and the error.
  unfoldable pub refresh_listed :
      (full : Bool)
      → Listings
      → List Summary
      → (id : Str) → Engine
      → Engine × (Option Container × Option ApiError)
  unfolding delete refresh_one refresh_containers
  refresh_listed full l [] id e = (record e { containers = delete id e.containers }, (none, none))
  refresh_listed full l (c ∷ []) id e = refresh_one full l.inspect c e
  refresh_listed full l (c ∷ d ∷ cs) id e =
      let (f, r) = refresh_containers json now full l.inspect l.all_containers e in (f, (none, r))

  unfoldable pub refresh_container :
      (full : Bool) → Listings → (id : Str) → Engine → Engine × (Option Container × Option ApiError)
  unfolding check_connection_err refresh_listed
  refresh_container full l id e = elim l.matching [
    | failed x ↦ (check_connection_err now (some x) e, (none, some x))
    | answered cs ↦ refresh_listed full l cs id (check_connection_err now none e)
  ]

  -- Pull; `reported` is an error in the progress that the API reports.
  unfoldable pub pull :
      (asked reported : Option ApiError) → Response (List Image) → Engine → Engine × Option ApiError
  unfolding check_connection_err refresh_images
  pull (some x) reported images e = (check_connection_err now (some x) e, some x)
  pull none (some x) images e = (check_connection_err now none e, some x)
  pull none none images e = ((refresh_images now images (check_connection_err now none e)).0, none)

-- The answers to CreateContainer: the first request, the pull of the image and the second one.
pub record Creation : Type 0 where
  pub first : Response Str
  pub pulled : Option ApiError
  pub reported : Option ApiError
  pub images : Response (List Image)
  pub again : Response Str
  pub listings : Listings

pub data Created : Type 0 where
  created : Container → Created
  create_failed : ApiError → Created
  not_reported : Created

module _ (json : Json) (now : ℤ) where
  unfoldable pub created_or_not : Option Container → Created
  created_or_not none = not_reported
  created_or_not (some c) = created c

  -- The container with the ID is refreshed and taken from the cache.
  unfoldable pub take_created : Listings → Response Str → Engine → Engine × Created
  unfolding check_connection_err refresh_container lookup created_or_not
  take_created l (failed x) e = (check_connection_err now (some x) e, create_failed x)
  take_created l (answered id) e =
      let f = (refresh_container json now true l id (check_connection_err now none e)).0 in
      (f, created_or_not (lookup id f.containers))

  unfoldable pub pull_and_create : Creation → Engine → Engine × Created
  unfolding pull take_created
  pull_and_create a e =
      let (f, r) = pull json now a.pulled a.reported a.images e in
      elim r [ some x ↦ (f, create_failed x) | none ↦ take_created a.listings a.again f ]

  -- CreateContainer
  unfoldable pub create_container : (pull_image : Bool) → Creation → Engine → Engine × Created
  unfolding check_connection_err pull_and_create take_created
  create_container pull_image a e = elim a.first [
    | answered id ↦ take_created a.listings (answered id) e
    | failed x ↦
        if not x.not_found || not pull_image
        then (check_connection_err now (some x) e, create_failed x)
        else pull_and_create a (check_connection_err now (some x) e)
  ]

  -- RemoveContainer, by the ID of the container.
  unfoldable pub remove_created : Option ApiError → Container → Engine → Engine × Option ApiError
  unfolding check_connection_err delete
  remove_created (some x) c e = (check_connection_err now (some x) e, some x)
  remove_created none c e =
      let f = check_connection_err now none e in
      (record f { containers = delete c.id f.containers }, none)

  -- RenameContainer
  unfoldable pub rename_container :
      (renamed : Option ApiError) → Listings → Container → Engine → Engine × Option ApiError
  unfolding check_connection_err refresh_container
  rename_container (some x) l c e = (check_connection_err now (some x) e, some x)
  rename_container none l c e =
      let (f, (k, r)) = refresh_container json now true l c.id (check_connection_err now none e) in
      (f, r)

  unfoldable pub is_not_found : Option ApiError → Bool
  is_not_found none = false
  is_not_found (some x) = x.not_found

  -- StartContainer; `auto_remove` is the field of the container's HostConfig.
  unfoldable pub start_container :
      (started : Option ApiError) (auto_remove : Bool)
      → Listings
      → Container
      → Engine
      → Engine × Option ApiError
  unfolding check_connection_err refresh_container is_not_found delete
  start_container (some x) auto_remove l c e = (check_connection_err now (some x) e, some x)
  start_container none auto_remove l c e =
      let (f, (k, r)) = refresh_container json now true l c.id (check_connection_err now none e) in
      if auto_remove && is_not_found r
      then (record f { containers = delete c.id f.containers }, none)
      else (f, r)
