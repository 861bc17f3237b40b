-- ===== src/Scaler/Teardown/Order.antt =====
-- The order of the calls of `teardown`: the registration goes before any resource of Oxide.
use oxide_gha_runner_scale_s.Prelude.{
  ℕ, String, Bool, true, false, Option, none, some, ◌∷◌, ◌≡◌, refl, arith, eq_ℤ, Bool-cases,
  Option-cases, inl, inr,
}
use oxide_gha_runner_scale_s.GoTime.{Time, before}
use oxide_gha_runner_scale_s.Api.{
  Log, Result, ok, err, Err, Result-cases, InstanceState, stopped, failed, destroyed, stopping,
  Registration, clock_read, runner_looked_up, runner_removed, instance_stopped, instance_deleted,
  disk_deleted,
}
use oxide_gha_runner_scale_s.Scaler.Runner.{
  Runner, TeardownState, is_cancellation_window, is_removing_registration, is_deprovisioning,
  begin_removing_registration,
}
use oxide_gha_runner_scale_s.Scaler.World.{World, Scaler}
use oxide_gha_runner_scale_s.Scaler.Teardown.{
  remove_found, remove_runner, delete_instance, again_after, teardown_disk, teardown_halted,
  teardown_up, teardown_in_state, teardown_resources, removal_failed, teardown_registration,
  teardown_window, teardown, remove_answered, after_removal,
}

-- The calls of one teardown of the named runner since a log: `true` says that its registration is
-- known to be gone, and the resource calls stand only behind that.
pub data Gated (s : Scaler) (name : String) (base : Log) : Bool → Log → Type 0 where
  start : Gated s name base false base
  clock :
      {b : Bool} {l : Log} (t : Time)
      → Gated s name base b l
      → Gated s name base b (clock_read t ∷ l)
  look :
      {l : Log} (a : Result (Option Registration))
      → Gated s name base false l
      → Gated s name base false (runner_looked_up name a ∷ l)
  absent :
      {l : Log}
      → Gated s name base false l
      → Gated s name base true (runner_looked_up name (ok none) ∷ l)
  refused :
      {l : Log} (r : Registration) (e : Err)
      → eq_ℤ r.scale_set_id s.scale_set.id ≡ true
      → Gated s name base false (runner_looked_up name (ok (some r)) ∷ l)
      → Gated s name base false
          (runner_removed r.id (err e) ∷ runner_looked_up name (ok (some r)) ∷ l)
  removed :
      {l : Log} (r : Registration)
      → eq_ℤ r.scale_set_id s.scale_set.id ≡ true
      → Gated s name base false (runner_looked_up name (ok (some r)) ∷ l)
      → Gated s name base true
          (runner_removed r.id (ok tt) ∷ runner_looked_up name (ok (some r)) ∷ l)
  stop :
      {l : Log} (a : Result (Unit {0}))
      → Gated s name base true l
      → Gated s name base true (instance_stopped s.instance_config.project name a ∷ l)
  delete :
      {l : Log} (a : Result (Unit {0}))
      → Gated s name base true l
      → Gated s name base true (instance_deleted s.instance_config.project name a ∷ l)
  delete_boot_disk :
      {l : Log} (a : Result (Unit {0}))
      → Gated s name base true l
      → Gated s name base true (disk_deleted s.instance_config.project name a ∷ l)

module _ (w : World) (s : Scaler) (base : Log) where
  again_after-Gated :
      (d : ℕ) (r : Runner) (b : Bool) {name : String} (l : Log)
      → Gated s name base b l
      → Gated s name base b (again_after w s d r l).1
  unfolding again_after
  again_after-Gated d r b l g = clock _ g

  teardown_disk-Gated :
      (deleted : Bool) (r : Runner) (l : Log)
      → Gated s r.name base true l
      → Gated s r.name base true (teardown_disk w s deleted r l).1
  unfolding teardown_disk
  teardown_disk-Gated deleted r l g = grind (arith, clock, delete_boot_disk)

  teardown_halted-Gated :
      (r : Runner) (l : Log)
      → Gated s r.name base true l
      → Gated s r.name base true (teardown_halted w s r l).1
  unfolding teardown_halted
  teardown_halted-Gated r l g = elim (Result-cases (delete_instance w s r.name l).0) [
    | inl (e, h) ↦ rw (h, teardown_halted) (clock _ (delete _ g))
    | inr (u, h) ↦ rw (h, teardown_halted) (teardown_disk-Gated true _ _ (delete _ g))
  ]

  teardown_up-Gated :
      (r : Runner) (l : Log)
      → Gated s r.name base true l
      → Gated s r.name base true (teardown_up w s r l).1
  unfolding teardown_up
  teardown_up-Gated r l g = grind (arith, clock, stop)

  teardown_in_state-Gated :
      (i : InstanceState) (r : Runner) (l : Log)
      → Gated s r.name base true l
      → Gated s r.name base true (teardown_in_state w s i r l).1
  unfolding teardown_in_state
  teardown_in_state-Gated stopped r l g = teardown_halted-Gated r l g
  teardown_in_state-Gated failed r l g = teardown_halted-Gated r l g
  teardown_in_state-Gated destroyed r l g = teardown_disk-Gated false _ l g
  teardown_in_state-Gated stopping r l g = clock _ g
  teardown_in_state-Gated _ r l g = teardown_up-Gated r l g

  teardown_resources-Gated :
      (r : Runner) (l : Log)
      → Gated s r.name base true l
      → Gated s r.name base true (teardown_resources w s r l).1
  unfolding teardown_resources
  teardown_resources-Gated r l g = elim (Option-cases r.instance_of) [
    | inl e ↦ rw (e, teardown_resources) (teardown_disk-Gated false r l g)
    | inr (i, e) ↦ rw (e, teardown_resources) (teardown_in_state-Gated i.run_state r l g)
  ]

  removal_failed-Gated :
      (t : TeardownState) (r : Runner) (e : Err) (l : Log)
      → Gated s r.name base false l
      → Gated s r.name base false (removal_failed w s t r e l).1
  unfolding removal_failed
  removal_failed-Gated t r e l g = grind (arith, clock)

  -- A removal that succeeds has shown that the registration is gone; one that fails leaves that open.
  RemovalShows : String → Result (Unit {0}) × Log → Type 0
  RemovalShows name (ok u, l) = Gated s name base true l
  RemovalShows name (err e, l) = Gated s name base false l

  remove_call-shows :
      (name : String) (r : Registration) (l : Log)
      → eq_ℤ r.scale_set_id s.scale_set.id ≡ true
      → Gated s name base false (runner_looked_up name (ok (some r)) ∷ l)
      → (a : Result (Unit {0}))
      → RemovalShows name (a, runner_removed r.id a ∷ runner_looked_up name (ok (some r)) ∷ l)
  unfolding RemovalShows
  remove_call-shows name r l own g (ok u) = removed r own g
  remove_call-shows name r l own g (err e) = refused r e own g

  remove_found-shows :
      (name : String) (found : Option Registration) (l : Log)
      → Gated s name base false l
      → RemovalShows name (remove_found w s found (runner_looked_up name (ok found) ∷ l))
  unfolding RemovalShows remove_found
  remove_found-shows name none l g = absent g
  remove_found-shows name (some r) l g = elim (Bool-cases (eq_ℤ r.scale_set_id s.scale_set.id)) [
    | inl own ↦ rw (own, remove_found) (remove_call-shows name r l own (look _ g) _)
    | inr other ↦ rw (other, remove_found) (look _ g)
  ]

  remove_answered-shows :
      (name : String) (a : Result (Option Registration)) (l : Log)
      → Gated s name base false l
      → RemovalShows name (remove_answered w s a (runner_looked_up name a ∷ l))
  unfolding RemovalShows remove_answered
  remove_answered-shows name (ok found) l g = remove_found-shows name found l g
  remove_answered-shows name (err e) l g = look _ g

  remove_runner-shows :
      (name : String) (l : Log)
      → Gated s name base false l
      → RemovalShows name (remove_runner w s name l)
  unfolding remove_runner
  remove_runner-shows name l g = remove_answered-shows name _ l g

  -- Whether the registration is known to be gone at the end, by the answer of its removal.
  after_removal-Gated :
      (t : TeardownState) (r : Runner) (a : Result (Unit {0})) (l : Log)
      → RemovalShows r.name (a, l)
      → (b : Bool) × Gated s r.name base b (after_removal w s t r a l).1
  unfolding RemovalShows after_removal
  after_removal-Gated t r (ok u) l g = (true, teardown_resources-Gated _ l g)
  after_removal-Gated t r (err e) l g = (false, removal_failed-Gated t r e l g)

  teardown_registration-Gated :
      (t : TeardownState) (r : Runner) (l : Log)
      → is_removing_registration t.phase ≡ true
      → Gated s r.name base false l
      → (b : Bool) × Gated s r.name base b (teardown_registration w s t r l).1
  unfolding teardown_registration
  teardown_registration-Gated t r l removing g =
      rw removing (after_removal-Gated t r _ _ (remove_runner-shows r.name l g))

  teardown_window-Gated :
      (t : TeardownState) (r : Runner) (l : Log)
      → is_deprovisioning t.phase ≡ false
      → Gated s r.name base false l
      → (b : Bool) × Gated s r.name base b (teardown_window w s t r l).1
  unfolding teardown_window
  teardown_window-Gated t r l early g = elim (Bool-cases (is_cancellation_window t.phase)) [
    | inl window ↦ elim (Bool-cases (before (w.now l) t.registration_removal_after)) [
      | inl still ↦ rw (window, still, teardown_window) (false, clock _ g)
      | inr over ↦
          rw (window, over, teardown_window)
            (teardown_registration-Gated (begin_removing_registration t)
              (record r { teardown = some (begin_removing_registration t) })
              (clock_read (w.now l) ∷ l) refl (clock _ g))
    ]
    | inr closed ↦ rw (closed, teardown_window) (teardown_registration-Gated t r l (ground arith) g)
  ]

-- Unless the registration was already known to be gone, a teardown stops or deletes the instance or
-- deletes the disk only after GitHub answered that the runner has no registration, or removed the one
-- that it has in this scale set; and it never removes a registration of another scale set.
pub teardown-Gated :
    (w : World) (s : Scaler) (r : Runner) (t : TeardownState) (l : Log)
    → r.teardown ≡ some t
    → is_deprovisioning t.phase ≡ false
    → (b : Bool) × Gated s r.name l b (teardown w s r l).1
unfolding teardown
teardown-Gated w s r t l marked early =
    rw (marked, teardown) (teardown_window-Gated w s l t r l early start)
