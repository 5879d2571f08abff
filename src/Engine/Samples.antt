-- ===== src/Engine/Samples.antt =====
-- An engine that is found, connected, validated and lost.
use classicswarm.Prelude.{
  ℕ, ◌+◌, ◌*◌, ◌^◌, ◌≤◌, ◌<◌, ◌≡◌, refl, ◌⊎◌, ◌↔◌, true, false, List, [], ◌∷◌, some, none, arith,
  all,
}
use classicswarm.Text.{codes}
use classicswarm.Int64.{ℤ, pos}
use classicswarm.Engine.{answered}
use classicswarm.Engine.{
  Engine, pending, healthy, disconnected, running, ApiError, new_engine, validation_complete,
  health_indicator, time_to_validate, is_connection_error, check_connection_err, backoff_factor,
  wait_period,
}
use classicswarm.Engine.Health.{Indicates, health_indicator_range}
use classicswarm.Engine.Backoff.{time_to_validate_iff, time_to_validate_overflow, wait_period_range}
use classicswarm.Engine.Failures.{
  Counts, Failing, failures, failures-Failing, Recovered, outage, failures-Recovered,
}
use classicswarm.Assoc.{has_key, values}
use classicswarm.Config.Codec.{framed}
use classicswarm.Config.Samples.{plain_config}
use classicswarm.Container.Samples.{web}
use classicswarm.Node.{Node, is_healthy}
use classicswarm.Engine.Health.{IsUp}
use classicswarm.Engine.Cache.{Summary, Inspected, is_listed, refresh_containers}
use classicswarm.Engine.Refresh.{refresh_containers-keys}
use classicswarm.Engine.View.{new_node, new_node-health}
use classicswarm.Engine.Steps.{with_client, connects, validates, Steps, here, next, IsSound, sound}
use classicswarm.Engine.Specs.{Specs, update_specs}
use classicswarm.Engine.Returning.{Returned, disconnect_after_return}
use classicswarm.Engine.Life.{Stopped, disconnect-Stopped, Steps-IsSound, disconnected_stays}

abbrev found : Engine
found = record {
  id = codes "X";
  ip = codes "10.0.0.1";
  addr = codes "10.0.0.1:2375";
  name = codes "alpha";
  cpus = pos 4;
  memory = pos 8;
  labels = [];
  version = [];
  stop_closed = false;
  containers = [];
  images = [];
  networks = [];
  volumes = [];
  connected = true;
  has_handler = true;
  state = pending;
  last_error = [];
  updated_at = pos 1000;
  failure_count = pos 0;
  overcommit_ratio = pos 5;
  failure_retry = pos 3;
  monitor = running;
  delta_duration = pos 0;
  emitted = [];
  resumes = 0;
  loops = 0;
}

abbrev pub up : Engine
up = record found { state = healthy }

abbrev lost : Engine
lost = record found { state = disconnected; stop_closed = true; connected = false }

abbrev no_route : ApiError
no_route = record { refused = false; not_found = false; text = codes "connect: no route to host" }

-- Found, connected and validated.
way :
    Steps (new_engine (codes "10.0.0.1:2375") (pos 5) (pos 3) (pos 0)) (
      validation_complete
        (with_client (new_engine (codes "10.0.0.1:2375") (pos 5) (pos 3) (pos 0))))
unfolding new_engine
way = next (next here connects) validates

Steps-IsSound_example :
    IsSound (
      validation_complete
        (with_client (new_engine (codes "10.0.0.1:2375") (pos 5) (pos 3) (pos 0))))
unfolding way
Steps-IsSound_example =
    Steps-IsSound (codes "10.0.0.1:2375") (pos 5) (pos 3) (pos 0) _ refl way ((tt, λ e. cc), tt)

up-IsSound : IsSound up
unfolding sound
up-IsSound = (refl, refl)

disconnect-Stopped_example : (f : Engine) × Stopped up f
disconnect-Stopped_example = disconnect-Stopped up up-IsSound (λ e. cc)

lost-IsSound : IsSound lost
unfolding sound
lost-IsSound = (refl, refl)

abbrev reinstalled : Specs
reinstalled = record {
  id = codes "Y";
  name = codes "alpha";
  ncpu = pos 4;
  mem_total = pos 8;
  driver = [];
  kernel_version = [];
  operating_system = [];
  os_type = [];
  labels = [];
}

disconnect_after_return_example :
    Returned
      (update_specs
        (pos 9)
        (pos 0)
        (answered reinstalled)
        (answered (codes "1.13"))
        (with_client lost)).0
disconnect_after_return_example =
    disconnect_after_return lost (pos 9) (pos 0) reinstalled (codes "1.13") lost-IsSound refl
      (λ e. cc) refl (λ e. cc)

disconnected_stays_example : (validation_complete lost).state ≡ disconnected
disconnected_stays_example =
    disconnected_stays lost (validation_complete lost) lost-IsSound refl (next here validates)
      (tt, tt)

health_indicator_range_example : (h : ℕ) × (health_indicator up ≡ some (pos h)) × Indicates up 0 3 h
health_indicator_range_example = health_indicator_range up 0 3 refl refl (omega arith)

abbrev three : List (ℤ × ApiError)
three = (pos 3, no_route) ∷ (pos 2, no_route) ∷ (pos 1, no_route) ∷ []

three-refused : all (λ x. is_connection_error x.1) three ≡ true
unfolding all is_connection_error
three-refused = refl

failures-Failing_example : Counts 3 3 (failures three up) × Failing 3 [] 3 (failures three up)
failures-Failing_example =
    failures-Failing 3 up three (omega arith) refl (refl, refl, refl) three-refused (omega arith)

failures-Recovered_example :
    Recovered [] outage (check_connection_err (pos 4) none (failures three up))
failures-Recovered_example =
    failures-Recovered 3 up three (pos 4) (omega arith) refl (refl, refl, refl) three-refused
      (omega arith)

time_to_validate_iff_example :
    (time_to_validate (pos 40000001000) found ≡ true)
    ↔ ((14400000000000 < 40000000000) ⊎ (2 ^ 0 * 1000000000 + 30000000000 < 40000000000))
time_to_validate_iff_example =
    time_to_validate_iff found 0 1000 40000000000 refl refl (omega arith) refl (omega arith)

abbrev failing : Engine
failing = record found { failure_count = pos 34 }

time_to_validate_overflow_example : time_to_validate (pos 1001) failing ≡ true
time_to_validate_overflow_example =
    time_to_validate_overflow failing 1000 1 refl refl refl (omega arith)

abbrev no_delay : ℤ → ℤ
no_delay d = pos 0

wait_period_range_example :
    (k : ℕ) × (p : ℕ) × (backoff_factor up ≡ pos k)
    × (k ≤ 1000)
    × (wait_period no_delay (pos 30) (pos 60) (backoff_factor up) ≡ pos p)
    × (30 * (1 + k) ≤ p)
    × ((p ≡ 30 * (1 + k)) ⊎ (p < 30 * k + 60))
wait_period_range_example = wait_period_range no_delay up 30 60 (λ d h. (0, refl, h)) (omega arith)

abbrev pub seen : Inspected
seen = record { config = plain_config; info = web.info }

abbrev pub listed_web : Summary
listed_web = record { id = codes "9f1c"; names = codes "/web" ∷ []; labels = [] }

refresh_containers-keys_example :
    has_key
      (codes "9f1c")
      (refresh_containers framed
        (pos 1)
        true
        (λ id. answered seen)
        (answered (listed_web ∷ []))
        up).0.containers
    ≡ is_listed (codes "9f1c") (listed_web ∷ [])
refresh_containers-keys_example =
    refresh_containers-keys framed (pos 1) true (λ id. answered seen) (λ id. (seen, refl))
      (codes "9f1c") (listed_web ∷ []) up

abbrev up_node : Node
up_node = record {
  id = codes "X";
  ip = codes "10.0.0.1";
  addr = codes "10.0.0.1:2375";
  name = codes "alpha";
  labels = [];
  containers = [];
  images = [];
  used_memory = pos 0;
  used_cpus = pos 0;
  total_memory = pos 8;
  total_cpus = pos 4;
  health_indicator = pos 100;
}

up-node : new_node up ≡ some up_node
unfolding new_node values
up-node = refl

new_node-health_example : (is_healthy up_node ≡ true) ↔ IsUp up 0 3
new_node-health_example = new_node-health up up_node 0 3 refl refl (omega arith) up-node
