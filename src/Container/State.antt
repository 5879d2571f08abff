-- ===== src/Container/State.antt =====
-- cluster/container.go: the texts for the state of a container. The durations since a time, and
-- whether a time is the zero time, come with the state.
use classicswarm.Prelude.{Bool, ◌++◌, [], Option, none, some, is_empty, if◌then◌else◌}
use classicswarm.Text.{Str, codes, str_eq}

-- types.ContainerState; `up_for` and `finished_ago` are units.HumanDuration of the time since then,
-- `exit_code` is its text.
pub record ContainerState : Type 0 where
  pub running : Bool
  pub paused : Bool
  pub restarting : Bool
  pub dead : Bool
  pub never_started : Bool
  pub never_finished : Bool
  pub up_for : Str
  pub finished_ago : Str
  pub exit_code : Str
  pub health : Option Str

unfoldable pub state_string : ContainerState → Str
state_string s =
    if s.running
    then (if s.paused
        then codes "paused"
        else if s.restarting
        then codes "restarting"
        else codes "running")
    else if s.dead
    then codes "dead"
    else if s.never_started
    then codes "created"
    else codes "exited"

unfoldable pub health_string : ContainerState → Str
health_string s = elim s.health [ none ↦ codes "none" | some status ↦ status ]

-- The status `starting` is not clear on its own.
unfoldable pub health_text : Option Str → Str
unfolding str_eq
health_text none = []
health_text (some status) =
    if str_eq status (codes "starting") then codes "health: starting" else status

unfoldable pub full_state_string : ContainerState → Str
unfolding is_empty health_text
full_state_string s =
    if s.running
    then (if s.paused
        then codes "Up " ++ (s.up_for ++ codes " (Paused)")
        else if s.restarting
        then codes "Restarting ("
          ++ (s.exit_code ++ (codes ") " ++ (s.finished_ago ++ codes " ago")))
        else if is_empty (health_text s.health)
        then codes "Up " ++ s.up_for
        else codes "Up " ++ (s.up_for ++ (codes " (" ++ (health_text s.health ++ codes ")"))))
    else if s.dead
    then codes "Dead"
    else if s.never_started
    then codes "Created"
    else if s.never_finished
    then []
    else codes "Exited (" ++ (s.exit_code ++ (codes ") " ++ (s.finished_ago ++ codes " ago")))
