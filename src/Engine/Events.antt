-- ===== src/Engine/Events.antt =====
-- cluster/engine.go, handler: which part of the caches an event of the Docker engine refreshes.
use classicswarm.Prelude.{Bool, true, false, List, [], ◌∷◌, Option, none, some, any, if◌then◌else◌}
use classicswarm.Text.{Str, codes, str_eq, has_prefix}
use classicswarm.Int64.{ℤ}
use classicswarm.Config.Codec.{Json}
use classicswarm.Image.{Image}
use classicswarm.Network.{Network, Volume}
use classicswarm.Engine.{Engine, Response}
use classicswarm.Engine.Specs.{Specs, update_specs}
use classicswarm.Engine.Caches.{
  refresh_images, refresh_network, refresh_networks, refresh_volume, refresh_volumes,
}
use classicswarm.Engine.Calls.{Listings, refresh_container}

-- The fields of events.Message that the handler reads.
pub record Message : Type 0 where
  pub kind : Str
  pub action : Str
  pub status : Str
  pub id : Str
  pub actor_id : Str

-- The answers of the API to the requests that an event leads to.
pub record Answers : Type 0 where
  pub images : Response (List Image)
  pub networks : Response (List Network)
  pub volumes : Response (List Volume)
  pub network : Str → Response Network
  pub volume : Str → Response Volume
  pub listings : Listings
  pub specs : Response Specs
  pub version : Response Str

unfoldable pub one_of : Str → List Str → Bool
unfolding any str_eq
one_of s words = any (λ w. str_eq w s) words

abbrev image_statuses : List Str
image_statuses = codes "pull" ∷ codes "untag" ∷ codes "delete" ∷ codes "commit" ∷ []

abbrev state_changes : List Str
state_changes =
    codes "die"
    ∷ codes "kill"
    ∷ codes "oom"
    ∷ codes "pause"
    ∷ codes "start"
    ∷ codes "stop"
    ∷ codes "unpause"
    ∷ codes "rename"
    ∷ []

abbrev container_changes : List Str
container_changes = codes "restart" ∷ codes "update" ∷ codes "health_status" ∷ state_changes

abbrev silent_statuses : List Str
silent_statuses =
    codes "top"
    ∷ codes "resize"
    ∷ codes "export"
    ∷ codes "exec_create"
    ∷ codes "exec_start"
    ∷ codes "attach"
    ∷ codes "extract-to-dir"
    ∷ codes "copy"
    ∷ codes "archive-path"
    ∷ []

abbrev silent_actions : List Str
silent_actions = codes "exec_detach" ∷ codes "detach" ∷ silent_statuses

-- 'health_status: unhealthy' and its like are one action.
unfoldable pub plain_action : Str → Str
unfolding has_prefix
plain_action action =
    if has_prefix action (codes "health_status") then codes "health_status" else action

module _ (json : Json) (now delta : ℤ) where
  unfoldable pub on_container : Message → Answers → Engine → Engine
  unfolding one_of plain_action str_eq refresh_images refresh_container
  on_container m a e =
      let action = plain_action m.action in
      if str_eq action (codes "commit")
      then (refresh_images now a.images e).0
      else if one_of action container_changes
      then (refresh_container json now true a.listings m.id e).0
      else if one_of action silent_actions
      then e
      else (refresh_container json now false a.listings m.id e).0

  -- A refresh of a container, then of the volumes and the networks.
  unfoldable pub refresh_around : (full : Bool) → Message → Answers → Engine → Engine
  unfolding refresh_container refresh_volumes refresh_networks
  refresh_around full m a e =
      let f = (refresh_container json now full a.listings m.id e).0 in
      (refresh_networks now a.networks (refresh_volumes now a.volumes f).0).0

  -- The events of an old Docker engine have no type.
  unfoldable pub on_status : Message → Answers → Engine → Engine
  unfolding one_of refresh_images refresh_around
  on_status m a e =
      if one_of m.status image_statuses
      then (refresh_images now a.images e).0
      else if one_of m.status state_changes
      then refresh_around true m a e
      else if one_of m.status silent_statuses
      then e
      else refresh_around false m a e

  unfoldable pub on_message : Message → Answers → Engine → Engine
  unfolding str_eq refresh_network refresh_volume refresh_images on_container update_specs on_status
  on_message m a e =
      if str_eq m.kind (codes "network")
      then (refresh_network now (a.network m.actor_id) m.actor_id e).0
      else if str_eq m.kind (codes "volume")
      then (refresh_volume now (a.volume m.actor_id) m.actor_id e).0
      else if str_eq m.kind (codes "image")
      then (refresh_images now a.images e).0
      else if str_eq m.kind (codes "container")
      then on_container m a e
      else if str_eq m.kind (codes "daemon")
      then (if str_eq m.action (codes "reload")
          then (update_specs now delta a.specs a.version e).0
          else e)
      else if str_eq m.kind []
      then on_status m a e
      else e

  -- The engine, and the message that its event handler gets, if there is one.
  unfoldable pub handler : Message → Answers → Engine → Engine × Option Message
  unfolding on_message
  handler m a e = let f = on_message m a e in (f, if f.has_handler then some m else none)
