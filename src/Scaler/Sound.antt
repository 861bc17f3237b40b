-- ===== src/Scaler/Sound.antt =====
-- When the scaler's view of its runners is well formed, and how the steps on one runner keep it so.
pub mod Writes
pub mod Loops
pub mod Cycle
use oxide_gha_runner_scale_s.Prelude.{
  ℕ, String, Bool, true, false, not, ◌&&◌, ◌==◌, ◌≡◌, ◌≤◌, refl, Option, none, some, arith, str_eq,
  str_eq_iff, ltb, count_if, bit, Option-cases, inl, inr, ◌∷◌,
}
use oxide_gha_runner_scale_s.GoMap.{Map, count_key}
use oxide_gha_runner_scale_s.Api.{Log, Result, ok, err, clock_read}
use oxide_gha_runner_scale_s.Scaler.Runner.{
  Runner, TeardownState, TeardownPolicy, is_cancelable, cancellation_window, is_cancellation_window,
  begin_removing_registration, begin_deprovisioning, new_runner, permanent, cancelable,
}
use oxide_gha_runner_scale_s.Scaler.World.{World, Scaler}
use oxide_gha_runner_scale_s.Scaler.Mark.{
  mark_for_teardown, visit_instance, visit_disk, audit_runner,
}
use oxide_gha_runner_scale_s.Scaler.Teardown.{
  teardown, teardown_window, teardown_registration, after_removal, teardown_resources,
  remove_runner,
}
use oxide_gha_runner_scale_s.Scaler.Handler.{job_started}
use oxide_gha_runner_scale_s.Scaler.Capacity.{reclaimed}

-- A teardown in its cancellation window is cancelable and has a deadline; a later one has none.
abbrev pub is_legal : Option TeardownState → Bool
is_legal none = true
is_legal (some t) = elim t.phase [
  | cancellation_window ↦ is_cancelable t.policy && ltb 0 t.registration_removal_after
  | _ ↦ t.registration_removal_after == 0
]

-- The entry of a runner has the runner's name, and its teardown is legal.
abbrev pub is_unsound : String × Runner → Bool
is_unsound (k, r) = not (str_eq r.name k && is_legal r.teardown)

-- No name stands twice in the view, and no entry is unsound.
unfoldable pub IsView : Map Runner → Type 0
IsView m = ((k : String) → count_key k m ≤ 1) × (count_if is_unsound m ≡ 0)

-- The steps on one runner.
module _ (w : World) (k : String) where
  pub mark-is_unsound :
      (policy : TeardownPolicy) (r : Runner) (l : Log)
      → is_unsound (k, r) ≡ false
      → is_unsound (k, (mark_for_teardown w policy r l).0) ≡ false
  unfolding mark_for_teardown
  mark-is_unsound permanent r l h = ground arith
  mark-is_unsound cancelable r l h = ground arith

  pub visit_instance-is_unsound :
      (r : Runner) (l : Log)
      → bit (is_unsound (k, (visit_instance w r l).0)) ≤ bit (is_unsound (k, r))
  unfolding visit_instance
  visit_instance-is_unsound r l = ground arith

  pub visit_disk-is_unsound :
      (r : Runner) (l : Log) → bit (is_unsound (k, (visit_disk w r l).0)) ≤ bit (is_unsound (k, r))
  unfolding visit_disk
  visit_disk-is_unsound r l = ground arith

  pub audit_runner-is_unsound :
      (r : Runner) (l : Log)
      → bit (is_unsound (k, (audit_runner w r l).0.1)) ≤ bit (is_unsound (k, r))
  unfolding audit_runner
  audit_runner-is_unsound r l = ground arith

  module _ (s : Scaler) where
    teardown_resources-is_unsound :
        (r : Runner) (l : Log)
        → bit (is_unsound (k, (teardown_resources w s r l).0.1)) ≤ bit (is_unsound (k, r))
    unfolding teardown_resources
    teardown_resources-is_unsound r l = ground arith

    after_removal-is_unsound :
        (t : TeardownState) (r : Runner) (a : Result (Unit {0})) (l : Log)
        → r.teardown ≡ some t
        → is_cancellation_window t.phase ≡ false
        → bit (is_unsound (k, (after_removal w s t r a l).0.1)) ≤ bit (is_unsound (k, r))
    unfolding after_removal
    after_removal-is_unsound t r (err e) l marked past = ground arith
    after_removal-is_unsound t r (ok u) l marked past = ground (
      arith,
      teardown_resources-is_unsound (record r { teardown = some (begin_deprovisioning t) }) l,
    )

    teardown_registration-is_unsound :
        (t : TeardownState) (r : Runner) (l : Log)
        → r.teardown ≡ some t
        → is_cancellation_window t.phase ≡ false
        → bit (is_unsound (k, (teardown_registration w s t r l).0.1)) ≤ bit (is_unsound (k, r))
    unfolding teardown_registration
    teardown_registration-is_unsound t r l marked past =
        let (a, l') = remove_runner w s r.name l in
        ground
          (arith, teardown_resources-is_unsound r l, after_removal-is_unsound t r a l' marked past)

    teardown_window-is_unsound :
        (t : TeardownState) (r : Runner) (l : Log)
        → r.teardown ≡ some t
        → bit (is_unsound (k, (teardown_window w s t r l).0.1)) ≤ bit (is_unsound (k, r))
    unfolding teardown_window begin_removing_registration
    teardown_window-is_unsound t r l marked =
        let t' = begin_removing_registration t in
        ground (
          arith,
          teardown_registration-is_unsound t r l marked,
          teardown_registration-is_unsound t' (record r { teardown = some t' })
              (clock_read (w.now l) ∷ l) refl refl,
        )

    pub teardown-is_unsound :
        (r : Runner) (l : Log)
        → bit (is_unsound (k, (teardown w s r l).0.1)) ≤ bit (is_unsound (k, r))
    unfolding teardown
    teardown-is_unsound r l = elim (Option-cases r.teardown) [
      | inl e ↦ rw (e, teardown) (ground arith)
      | inr (t, e) ↦ rw (e, teardown) (ground (arith, teardown_window-is_unsound t r l e))
    ]

pub job_started-is_unsound :
    (k : String) (r : Runner) → is_unsound (k, r) ≡ false → is_unsound (k, job_started r) ≡ false
unfolding job_started
job_started-is_unsound k r h = ground arith

pub reclaimed-is_unsound :
    (k : String) (b : Bool) (r : Runner)
    → bit (is_unsound (k, reclaimed b r)) ≤ bit (is_unsound (k, r))
reclaimed-is_unsound k b r = ground arith

pub new_runner-is_unsound : (k : String) → is_unsound (k, new_runner k) ≡ false
new_runner-is_unsound k = ground (arith, str_eq_iff k k)
