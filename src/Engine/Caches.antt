-- ===== src/Engine/Caches.antt =====
-- cluster/engine.go: the caches of images, networks and volumes. Each operation takes the answers
-- of the engine's API, and returns the engine and the error, if there is one.
use classicswarm.Prelude.{true, List, [], ◌∷◌, Option, none, some, find_first, if◌then◌else◌}
use classicswarm.Text.{Str, codes, contains}
use classicswarm.Assoc.{Assoc, insert, delete, values}
use classicswarm.Int64.{ℤ}
use classicswarm.Image.{Image, match_image}
use classicswarm.Container.{Container, EngineRef}
use classicswarm.Network.{Network, Volume}
use classicswarm.Engine.{Engine, ApiError, Response, answered, failed, check_connection_err}

-- The pointer to an engine, as a container, a network or a volume holds it.
unfoldable pub reference : Engine → EngineRef
reference e = record { id = e.id; name = e.name }

-- What most operations do with the error of a call: it is checked, and returned.
unfoldable pub checked : ℤ → Option ApiError → Engine → Engine × Option ApiError
unfolding check_connection_err
checked now r e = (check_connection_err now r e, r)

unfoldable pub list_containers : Engine → List Container
unfolding values
list_containers e = values e.containers

unfoldable pub list_networks : Engine → List Network
unfolding values
list_networks e = values e.networks

unfoldable pub list_volumes : Engine → List Volume
unfolding values
list_volumes e = values e.volumes

unfoldable pub find_image : Str → Engine → Option Image
unfolding find_first match_image
find_image query e = find_first (λ i. match_image i query true) e.images

unfoldable pub refresh_images : ℤ → Response (List Image) → Engine → Engine × Option ApiError
unfolding check_connection_err checked
refresh_images now (failed x) e = checked now (some x) e
refresh_images now (answered is) e =
    (record (check_connection_err now none e) { images = is }, none)

-- Also where the removal failed, the images are listed again.
unfoldable pub remove_image :
    ℤ → (removed : Option ApiError) → Response (List Image) → Engine → Engine × Option ApiError
unfolding check_connection_err refresh_images
remove_image now removed listing e =
    ((refresh_images now listing (check_connection_err now removed e)).0, removed)

unfoldable pub tag_image :
    ℤ → (tagged : Option ApiError) → Response (List Image) → Engine → Engine × Option ApiError
unfolding check_connection_err checked refresh_images
tag_image now (some x) listing e = checked now (some x) e
tag_image now none listing e = refresh_images now listing (check_connection_err now none e)

-- A network that the API returned is one of the engine.
unfoldable pub owned_network : Engine → Network → Network
unfolding reference
owned_network e n = record n { engine = reference e }

unfoldable pub owned_volume : Engine → Volume → Volume
unfolding reference
owned_volume e v = record v { engine = reference e }

unfoldable pub delete_network : Network → Engine → Engine
unfolding delete
delete_network n e = record e { networks = delete n.id e.networks }

unfoldable pub add_network : Network → Engine → Engine
unfolding insert owned_network
add_network n e = record e { networks = insert n.id (owned_network e n) e.networks }

unfoldable pub remove_network : ℤ → Option ApiError → Network → Engine → Engine × Option ApiError
unfolding check_connection_err checked delete_network
remove_network now (some x) n e = checked now (some x) e
remove_network now none n e = (delete_network n (check_connection_err now none e), none)

unfoldable pub remove_volume : ℤ → Option ApiError → Str → Engine → Engine × Option ApiError
unfolding check_connection_err checked delete
remove_volume now (some x) name e = checked now (some x) e
remove_volume now none name e =
    let f = check_connection_err now none e in (record f { volumes = delete name f.volumes }, none)

unfoldable pub refresh_network :
    ℤ → Response Network → (id : Str) → Engine → Engine × Option ApiError
unfolding check_connection_err insert delete contains owned_network
refresh_network now (failed x) id e =
    let f = check_connection_err now (some x) e in
    if contains x.text (codes "No such network")
    then (record f { networks = delete id f.networks }, none)
    else (f, some x)
refresh_network now (answered n) id e =
    let f = check_connection_err now none e in
    (record f { networks = insert id (owned_network f n) f.networks }, none)

-- The loops that build the new maps.
unfoldable pub index_networks : Engine → List Network → Assoc Network → Assoc Network
unfolding insert owned_network
index_networks e [] m = m
index_networks e (n ∷ ns) m = index_networks e ns (insert n.id (owned_network e n) m)

unfoldable pub index_volumes : Engine → List Volume → Assoc Volume → Assoc Volume
unfolding insert owned_volume
index_volumes e [] m = m
index_volumes e (v ∷ vs) m = index_volumes e vs (insert v.name (owned_volume e v) m)

unfoldable pub refresh_networks : ℤ → Response (List Network) → Engine → Engine × Option ApiError
unfolding check_connection_err checked index_networks
refresh_networks now (failed x) e = checked now (some x) e
refresh_networks now (answered ns) e =
    let f = check_connection_err now none e in
    (record f { networks = index_networks f ns [] }, none)

unfoldable pub refresh_volumes : ℤ → Response (List Volume) → Engine → Engine × Option ApiError
unfolding check_connection_err checked index_volumes
refresh_volumes now (failed x) e = checked now (some x) e
refresh_volumes now (answered vs) e =
    let f = check_connection_err now none e in (record f { volumes = index_volumes f vs [] }, none)

unfoldable pub refresh_volume :
    ℤ → Response Volume → (query : Str) → Engine → Engine × Option ApiError
unfolding check_connection_err insert delete contains owned_volume
refresh_volume now (failed x) query e =
    let f = check_connection_err now (some x) e in
    if contains x.text (codes "No such volume")
    then (record f { volumes = delete query f.volumes }, none)
    else (f, some x)
refresh_volume now (answered v) query e =
    let f = check_connection_err now none e in
    (record f { volumes = insert v.name (owned_volume f v) f.volumes }, none)

-- The ID of the network that was created, and then its refresh; an error of that is dropped.
unfoldable pub create_network :
    ℤ → Response Str → (inspect : Str → Response Network) → Engine → Engine × Response Str
unfolding check_connection_err refresh_network
create_network now (failed x) inspect e = (check_connection_err now (some x) e, failed x)
create_network now (answered id) inspect e =
    ((refresh_network now (inspect id) id (check_connection_err now none e)).0, answered id)

unfoldable pub create_volume :
    ℤ → Response Volume → (inspect : Str → Response Volume) → Engine → Engine × Response Volume
unfolding check_connection_err refresh_volume
create_volume now (failed x) inspect e = (check_connection_err now (some x) e, failed x)
create_volume now (answered v) inspect e =
    ((refresh_volume now (inspect v.name) v.name (check_connection_err now none e)).0, answered v)
