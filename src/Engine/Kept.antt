-- ===== src/Engine/Kept.antt =====
-- What the bookkeeping of errors leaves alone: who the engine is, and its caches.
use classicswarm.Prelude.{suc, ◌≡◌, refl, ◌∙◌, inl, inr, [], Option, none, some, Bool-cases}
use classicswarm.Text.{Str, codes}
use classicswarm.Int64.{ℤ, ◌+ℤ◌, pos, leb_ℤ}
use classicswarm.Engine.{
  unhealthy, healthy, Engine, ApiError, set_err_msg, inc_failure_count, is_connection_error,
  come_back, reset_failure_count, check_connection_err, emit_event,
}
use classicswarm.Engine.Steps.{is_pending, is_unhealthy, is_healthy, is_disconnected, state_cases}

pub record SameData (e f : Engine) : Type 0 where
  pub id : f.id ≡ e.id
  pub name : f.name ≡ e.name
  pub addr : f.addr ≡ e.addr
  pub containers : f.containers ≡ e.containers
  pub images : f.images ≡ e.images
  pub networks : f.networks ≡ e.networks
  pub volumes : f.volumes ≡ e.volumes

abbrev Kept : Engine → Engine → Type 0
Kept e f =
    (f.id ≡ e.id)
    × (f.name ≡ e.name)
    × (f.addr ≡ e.addr)
    × (f.containers ≡ e.containers)
    × (f.images ≡ e.images)
    × (f.networks ≡ e.networks)
    × (f.volumes ≡ e.volumes)

pub same-SameData : (e f : Engine) → Kept e f → SameData e f
same-SameData e f (a, b, c, d, i, n, v) = record {
  id = a;
  name = b;
  addr = c;
  containers = d;
  images = i;
  networks = n;
  volumes = v;
}

pub then-SameData : (e f g : Engine) → SameData e f → SameData f g → SameData e g
then-SameData e f g a b = record {
  id = b.id ∙ a.id;
  name = b.name ∙ a.name;
  addr = b.addr ∙ a.addr;
  containers = b.containers ∙ a.containers;
  images = b.images ∙ a.images;
  networks = b.networks ∙ a.networks;
  volumes = b.volumes ∙ a.volumes;
}

emit_event-SameData : (event : Str) (e : Engine) → SameData e (emit_event event e)
unfolding emit_event
emit_event-SameData event e = elim (Bool-cases e.has_handler) [
  | inl h ↦ simp (h, emit_event) (same-SameData e _ (refl, refl, refl, refl, refl, refl, refl))
  | inr h ↦ simp (h, emit_event) (same-SameData e _ (refl, refl, refl, refl, refl, refl, refl))
]

come_back-SameData : (e : Engine) → SameData e (come_back e)
unfolding come_back
come_back-SameData e = elim (state_cases e) [
  | is_pending h ↦
      simp (h, come_back) (same-SameData e _ (refl, refl, refl, refl, refl, refl, refl))
  | is_unhealthy h ↦
      simp (h, come_back)
        (then-SameData e (record e { state = healthy; resumes = suc e.resumes }) _
          (same-SameData e _ (refl, refl, refl, refl, refl, refl, refl))
          (emit_event-SameData (codes "engine_reconnect") _))
  | is_healthy h ↦
      simp (h, come_back) (same-SameData e _ (refl, refl, refl, refl, refl, refl, refl))
  | is_disconnected h ↦
      simp (h, come_back) (same-SameData e _ (refl, refl, refl, refl, refl, refl, refl))
]

inc_failure_count-SameData : (e : Engine) → SameData e (inc_failure_count e)
unfolding inc_failure_count
inc_failure_count-SameData e = elim (state_cases e) [
  | is_pending h ↦
      simp (h, inc_failure_count) (same-SameData e _ (refl, refl, refl, refl, refl, refl, refl))
  | is_unhealthy h ↦
      simp (h, inc_failure_count) (same-SameData e _ (refl, refl, refl, refl, refl, refl, refl))
  | is_disconnected h ↦
      simp (h, inc_failure_count) (same-SameData e _ (refl, refl, refl, refl, refl, refl, refl))
  | is_healthy h ↦ elim (Bool-cases (leb_ℤ e.failure_retry (e.failure_count +ℤ pos 1))) [
    | inl k ↦
        simp (h, inc_failure_count, k)
          (then-SameData e
            (record e { state = unhealthy; failure_count = e.failure_count +ℤ pos 1 }) _
            (same-SameData e _ (refl, refl, refl, refl, refl, refl, refl))
            (emit_event-SameData (codes "engine_disconnect") _))
    | inr k ↦
        simp (h, inc_failure_count, k)
          (same-SameData e _ (refl, refl, refl, refl, refl, refl, refl))
  ]
]

pub check_connection_err-SameData :
    (now : ℤ) (r : Option ApiError) (e : Engine) → SameData e (check_connection_err now r e)
unfolding check_connection_err set_err_msg reset_failure_count
check_connection_err-SameData now none e =
    let c = come_back-SameData (set_err_msg now [] e) in
    same-SameData e _ (c.id, c.name, c.addr, c.containers, c.images, c.networks, c.volumes)
check_connection_err-SameData now (some x) e = elim (Bool-cases (is_connection_error x)) [
  | inl h ↦
      let c = inc_failure_count-SameData e in
      simp (h, check_connection_err)
        (same-SameData e _ (c.id, c.name, c.addr, c.containers, c.images, c.networks, c.volumes))
  | inr h ↦
      simp (h, check_connection_err) (same-SameData e _ (refl, refl, refl, refl, refl, refl, refl))
]
