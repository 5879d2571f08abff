-- ===== src/Container/Samples.antt =====
-- Queries on two containers.
use classicswarm.Prelude.{◌≡◌, refl, inl, inr, Bool, true, false, [], ◌∷◌, none, some, In}
use classicswarm.Text.{Str, codes, has_prefix}
use classicswarm.Config.{swarm_id}
use classicswarm.Config.Samples.{plain_config}
use classicswarm.Container.{Container, by_id, by_swarm_id, by_name, get}
use classicswarm.Container.Get.{NoneBy, Names, get-Names, get_both_prefixes}

abbrev pub web : Container
web = record {
  id = codes "9f1c";
  names = codes "/web" ∷ [];
  labels = [];
  config = record plain_config { labels = (codes "com.docker.swarm.id", codes "9f77") ∷ [] };
  info = record {
    name = codes "/web";
    running = true;
    paused = false;
    restarting = false;
    host_config = none;
    exposed_ports = [];
    ports = none;
    networks = [];
  };
  engine = record { id = codes "A"; name = codes "alpha" };
}

abbrev pub cut_short : Str → Str
cut_short id = id

web-by_name : get cut_short (codes "alpha/web") (web ∷ []) ≡ some web
unfolding get
web-by_name = refl

get-Names_example : In web (web ∷ []) × Names cut_short (codes "alpha/web") (web ∷ []) web
get-Names_example = get-Names cut_short (codes "alpha/web") (web ∷ []) web web-by_name

NoneBy-web : (p : Container → Bool) → p web ≡ false → NoneBy p (web ∷ [])
NoneBy-web p h d (inl e) = rw (e, h) refl
NoneBy-web p h d (inr m) = elim m [ ]

get_both_prefixes_example : get cut_short (codes "9f") (web ∷ []) ≡ none
unfolding by_id by_swarm_id by_name has_prefix swarm_id
get_both_prefixes_example =
    get_both_prefixes cut_short (codes "9f") (web ∷ []) web (NoneBy-web _ refl) (NoneBy-web _ refl)
      (NoneBy-web _ refl) (inl refl) refl refl
