-- ===== src/Watchdog/Samples.antt =====
-- The engine alpha fails, and its container, which is to be created again, is rescheduled.
use classicswarm.Prelude.{ℕ, suc, false, [], ◌∷◌, ◌++◌, none}
use classicswarm.Text.{codes}
use classicswarm.Int64.{pos}
use classicswarm.Container.{Container}
use classicswarm.Container.Samples.{web}
use classicswarm.Strategy.Sorting.{insertion_sorter}
use classicswarm.Scheduler.Samples.{literal, last}
use classicswarm.Engine.{Engine, unhealthy, answered}
use classicswarm.Engine.Samples.{up}
use classicswarm.Cluster.Samples.{two, beta, listings, pulling}
use classicswarm.Watchdog.{World, State, reschedule_container}
use classicswarm.Watchdog.Fates.{IsFate, reschedule_container-IsFate}

-- The world counts the requests.
abbrev counting : World ℕ
counting = record {
  now = λ t. pos t;
  listings = λ id t. listings;
  disconnect = λ engine network container t. (suc t, false);
  connect = λ engine network container endpoint t. suc t;
  patterns = λ t. record { has_match = λ pattern text. false; image_os = λ text. [] };
  platforms = λ t. answered [];
  answers = λ t n. record { now = pos t; draws = codes "c0ffee" ∷ []; creation = pulling };
  started = λ k t. none;
  auto_remove = λ k. false;
  removed = λ k t. none;
  later = suc;
}

abbrev guarded : Container
guarded = record web {
  config = record web.config {
    labels = (codes "com.docker.swarm.reschedule-policies", codes "po.opef.gbjmvsf" ++ 0 ∷ []) ∷ [];
  };
}

abbrev failing : Engine
failing = record up { state = unhealthy; containers = (guarded.id, guarded) ∷ [] }

abbrev failed_alpha : State ℕ
failed_alpha = record {
  cluster = record two { engines = (guarded.engine.id, failing) ∷ (codes "Y", beta) ∷ [] };
  world = 0;
}

reschedule_container-IsFate_example :
    IsFate literal insertion_sorter last counting guarded failed_alpha
      (reschedule_container literal insertion_sorter last counting guarded failed_alpha)
reschedule_container-IsFate_example =
    reschedule_container-IsFate literal insertion_sorter last counting guarded failed_alpha
