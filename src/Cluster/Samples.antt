-- ===== src/Cluster/Samples.antt =====
-- A cluster of two engines, on which a container is placed, and another whose image has to be
-- pulled.
use classicswarm.Prelude.{ℕ, ◌≡◌, refl, true, false, List, [], ◌∷◌, none}
use classicswarm.Text.{Str, codes}
use classicswarm.Int64.{pos}
use classicswarm.Assoc.{values}
use classicswarm.Config.{ContainerConfig, set_swarm_id}
use classicswarm.Config.Codec.{framed}
use classicswarm.Strategy.Sorting.{insertion_sorter}
use classicswarm.Scheduler.Samples.{literal, last, last-IsBounded, request, spreading}
use classicswarm.Engine.{Engine, ApiError, answered, failed}
use classicswarm.Engine.Calls
use classicswarm.Engine.Calls.{Creation, Listings}
use classicswarm.Engine.Creating.{Outcome, create_container-Outcome}
use classicswarm.Engine.Samples.{up, seen, listed_web}
use classicswarm.Cluster.{Cluster, engine_names}
use classicswarm.Cluster.Creation.{placed, name_conflict, place, finish}
use classicswarm.Cluster.Placing.{Decided, place-Decided}
use classicswarm.Cluster.InFlight.{
  here, next, places, finishes, HasDistinctNames, Steps-HasDistinctNames,
}
use classicswarm.Cluster.Creating.{Attempt, Run, Patterns, create_container}
use classicswarm.Cluster.Attempts.{Attempted, create_container-Attempted}

abbrev pub beta : Engine
beta = record up { id = codes "Y"; name = codes "beta"; addr = codes "10.0.0.2:2375" }

abbrev pub two : Cluster
two = record {
  engines = (codes "X", up) ∷ (codes "Y", beta) ∷ [];
  pending_containers = [];
  scheduler = spreading;
  create_retry = 0;
}

abbrev no_image : ApiError
no_image = record { refused = false; not_found = true; text = codes "No such image: nginx" }

abbrev pub listings : Listings
listings = record {
  matching = answered (listed_web ∷ []);
  all_containers = answered (listed_web ∷ []);
  inspect = λ id. answered seen;
}

abbrev pub pulling : Creation
pulling = record {
  first = failed no_image;
  pulled = none;
  reported = none;
  images = answered [];
  again = answered (codes "9f1c");
  listings = listings;
}

create_container-Outcome_example :
    Outcome
      (failed no_image)
      (answered (codes "9f1c"))
      up
      (Calls.create_container framed (pos 1) true pulling up)
create_container-Outcome_example = create_container-Outcome framed (pos 1) true pulling up

abbrev draws : List Str
draws = codes "c0ffee" ∷ []

place-Decided_example :
    Decided literal false request
      (codes "web")
      two
      (place literal insertion_sorter last false draws (codes "web") request two)
place-Decided_example =
    place-Decided literal insertion_sorter last last-IsBounded false draws (codes "web") request two

abbrev web_request : ContainerConfig
web_request = set_swarm_id (codes "c0ffee") request

abbrev awaiting : Cluster
awaiting = record two {
  pending_containers =
      (
        codes "c0ffee",
        record {
          config = web_request;
          name = codes "web";
          engine = record { id = codes "X"; name = codes "alpha" };
        },
      )
      ∷ [];
}

placed_on_alpha :
    place literal insertion_sorter last false draws (codes "web") request two
    ≡ ((awaiting, placed (codes "c0ffee") (codes "X") up), web_request)
unfolding place insertion_sorter
placed_on_alpha = refl

name_taken_now :
    place literal insertion_sorter last false draws (codes "web") request awaiting
    ≡ ((awaiting, name_conflict), request)
unfolding place insertion_sorter
name_taken_now = refl

Steps-HasDistinctNames_example :
    HasDistinctNames (finish (codes "c0ffee") awaiting).pending_containers
Steps-HasDistinctNames_example =
    Steps-HasDistinctNames literal insertion_sorter last last-IsBounded two
      (finish (codes "c0ffee") awaiting) refl
      (next
        (next here (
          places false draws (codes "web") request web_request awaiting (codes "c0ffee") (codes "X")
            up placed_on_alpha))
        (finishes (codes "c0ffee")))

abbrev attempts : ℕ → Attempt
attempts i = record { now = pos 1; draws = draws; creation = pulling }

abbrev no_pattern : Patterns
no_pattern = record { has_match = λ pattern text. false; image_os = λ text. [] }

abbrev run : Run
run = record { cluster = two; config = request; attempts = 0 }

create_container-Attempted_example : Attempted 0 0 (
    create_container literal insertion_sorter last
      (codes "web")
      attempts
      no_pattern
      (answered [])
      run)
create_container-Attempted_example =
    create_container-Attempted literal insertion_sorter last (codes "web") attempts no_pattern
      (answered []) run

created_on_alpha :
    (create_container literal insertion_sorter last
      (codes "web")
      attempts
      no_pattern
      (answered [])
      run).0.attempts
    ≡ 1
unfolding create_container insertion_sorter
created_on_alpha = refl

names : engine_names two ≡ [] ∷ [] ∷ codes "alpha" ∷ codes "beta" ∷ []
unfolding engine_names values
names = refl
