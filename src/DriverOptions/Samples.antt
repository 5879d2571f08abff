-- ===== src/DriverOptions/Samples.antt =====
-- The overcommitment of the cluster as an option.
use classicswarm.Prelude.{◌≡◌, refl, [], ◌∷◌}
use classicswarm.Text.{codes}
use classicswarm.DriverOptions.{panics, option_string}
use classicswarm.DriverOptions.Lookup.{Found, option_string-Found}

option_string-Found_example :
    Found (codes "swarm.overcommit=0.1" ∷ []) (codes "swarm.createretry") (codes "3") (
      option_string
        (λ e. codes "3")
        (codes "swarm.overcommit=0.1" ∷ [])
        (codes "swarm.createretry")
        (codes ""))
option_string-Found_example =
    option_string-Found (λ e. codes "3") (codes "swarm.overcommit=0.1" ∷ [])
      (codes "swarm.createretry") (codes "")

bare_key :
    option_string (λ e. []) (codes "swarm.overcommit" ∷ []) (codes "swarm.overcommit") [] ≡ panics
unfolding option_string
bare_key = refl
