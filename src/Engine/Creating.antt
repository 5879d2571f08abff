-- ===== src/Engine/Creating.antt =====
-- What CreateContainer of an engine leaves in the cache.
use classicswarm.Prelude.{
  if◌then◌else◌, ◌≡◌, refl, ◌∙◌, subst, ◌⊎◌, inl, inr, Bool, true, not, ◌||◌, List, Option, none,
  some, Bool-cases,
}
use classicswarm.Text.{Str}
use classicswarm.Assoc.{lookup}
use classicswarm.Int64.{ℤ}
use classicswarm.Config.Codec.{Json}
use classicswarm.Container.{Container}
use classicswarm.Image.{Image}
use classicswarm.Engine.{Engine, ApiError, Response, answered, failed, check_connection_err}
use classicswarm.Engine.Caches.{refresh_images, checked}
use classicswarm.Engine.Calls.{
  Listings, Creation, Created, created, create_failed, not_reported, created_or_not, pull,
  refresh_container, take_created, pull_and_create, create_container,
}
use classicswarm.Engine.Kept.{check_connection_err-SameData}

-- What the outcome says of the cache: the container is there under an ID that the API gave out,
-- there is no container under such an ID, or the cache is as it was.
abbrev pub Outcome : (first again : Response Str) → Engine → Engine × Created → Type 0
Outcome first again e (f, created c) =
    (id : Str) × ((first ≡ answered id) ⊎ (again ≡ answered id)) × (lookup id f.containers ≡ some c)
Outcome first again e (f, not_reported) =
    (id : Str) × ((first ≡ answered id) ⊎ (again ≡ answered id)) × (lookup id f.containers ≡ none)
Outcome first again e (f, create_failed x) = f.containers ≡ e.containers

module _ (json : Json) (now : ℤ) where
  taken :
      (first again : Response Str) (id : Str) (e f : Engine) (o : Option Container)
      → (first ≡ answered id) ⊎ (again ≡ answered id)
      → lookup id f.containers ≡ o
      → Outcome first again e (f, created_or_not json now o)
  unfolding created_or_not
  taken first again id e f none g h = (id, g, h)
  taken first again id e f (some c) g h = (id, g, h)

  pull-containers :
      (asked reported : Option ApiError) (images : Response (List Image)) (e : Engine)
      → (pull json now asked reported images e).0.containers ≡ e.containers
  unfolding pull refresh_images checked
  pull-containers (some x) reported images e =
      (check_connection_err-SameData now (some x) e).containers
  pull-containers none (some x) images e = (check_connection_err-SameData now none e).containers
  pull-containers none none (failed x) e =
      (check_connection_err-SameData now (some x) (check_connection_err now none e)).containers
      ∙ (check_connection_err-SameData now none e).containers
  pull-containers none none (answered is) e =
      (check_connection_err-SameData now none (check_connection_err now none e)).containers
      ∙ (check_connection_err-SameData now none e).containers

  again_taken :
      (l : Listings) (r first again : Response Str) (e f : Engine)
      → ((id : Str) → r ≡ answered id → (first ≡ answered id) ⊎ (again ≡ answered id))
      → f.containers ≡ e.containers
      → Outcome first again e (take_created json now l r f)
  unfolding take_created
  again_taken l (failed x) first again e f g h =
      (check_connection_err-SameData now (some x) f).containers ∙ h
  again_taken l (answered id) first again e f g h =
      let k = (refresh_container json now true l id (check_connection_err now none f)).0 in
      taken first again id e k (lookup id k.containers) (g id refl) refl

  pulled :
      (a : Creation) (e f : Engine)
      → f.containers ≡ e.containers
      → Outcome a.first a.again e (pull_and_create json now a f)
  unfolding pull_and_create
  pulled a e f h =
      after (pull json now a.pulled a.reported a.images f)
        (pull-containers a.pulled a.reported a.images f ∙ h)
    where
      after :
          (p : Engine × Option ApiError)
          → p.0.containers ≡ e.containers
          → Outcome a.first a.again e (elim p.1 [
            | some x ↦ (p.0, create_failed x)
            | none ↦ take_created json now a.listings a.again p.0
          ])
      after (g, some x) k = k
      after (g, none) k = again_taken a.listings a.again a.first a.again e g (λ id q. inr q) k

  answered_at_first :
      (pull_image : Bool) (a : Creation) (e : Engine) (first : Response Str)
      → a.first ≡ first
      → Outcome first a.again e (elim first [
        | answered id ↦ take_created json now a.listings (answered id) e
        | failed x ↦
            if not x.not_found || not pull_image
            then (check_connection_err now (some x) e, create_failed x)
            else pull_and_create json now a (check_connection_err now (some x) e)
      ])
  answered_at_first pull_image a e (answered id) h =
      again_taken a.listings (answered id) (answered id) a.again e e (λ i q. inl q) refl
  answered_at_first pull_image a e (failed x) h =
      elim (Bool-cases (not x.not_found || not pull_image)) [
        | inl k ↦ rw k (check_connection_err-SameData now (some x) e).containers
        | inr k ↦ rw k (
            subst
              (λ r.
                Outcome r a.again e
                  (pull_and_create json now a (check_connection_err now (some x) e)))
              h (pulled a e _ (check_connection_err-SameData now (some x) e).containers))
      ]

  -- Whichever way CreateContainer of an engine ends: it returns a container only if the cache has
  -- that container under an ID that the engine gave to one of the requests; it says that the
  -- container was not reported back only if the cache lacks such an ID; and if it returns an error
  -- of the API, also where an image was pulled in between, the cache of containers is as before.
  pub create_container-Outcome :
      (pull_image : Bool) (a : Creation) (e : Engine)
      → Outcome a.first a.again e (create_container json now pull_image a e)
  unfolding create_container take_created pull_and_create
  create_container-Outcome pull_image a e = answered_at_first pull_image a e a.first refl
