-- ===== src/Scaler/Teardown/Progress.antt =====
-- How a call of `teardown` leaves the runner: it is done, canceled, or further on with a deadline.
use oxide_gha_runner_scale_s.Prelude.{
  ℕ, Bool, true, false, Option, none, some, ◌∷◌, ◌≡◌, ◌≤◌, ◌<◌, ◌⊎◌, inl, inr, refl, arith, is_some,
  Bool-cases, Option-cases,
}
use native.Mathlib.Nat.{le_refl}
use oxide_gha_runner_scale_s.GoTime.{Time, before}
use oxide_gha_runner_scale_s.Api.{
  Log, Err, is_job_still_running, Result, ok, err, Result-cases, InstanceState, stopped, failed,
  destroyed, stopping, clock_read,
}
use oxide_gha_runner_scale_s.Scaler.Runner.{
  Runner, TeardownState, cancelable, deprovisioning, cancellation_window, removing_registration,
  is_cancelable, is_cancellation_window, is_removing_registration, is_deprovisioning,
  begin_removing_registration, begin_deprovisioning,
}
use oxide_gha_runner_scale_s.Scaler.World.{World, Scaler}
use oxide_gha_runner_scale_s.Scaler.Teardown.{
  teardown_disk, teardown_halted, teardown_up, teardown_in_state, teardown_resources, after_removal,
  removal_failed, teardown_registration, teardown_window, teardown, remove_runner, delete_instance,
}

-- How far a teardown is; 3 where there is none.
abbrev pub rank : Option TeardownState → ℕ
rank none = 3
rank (some t) = elim t.phase [
  | cancellation_window ↦ 0
  | removing_registration ↦ 1
  | deprovisioning ↦ 2
]

abbrev pub cancelable_of : Option TeardownState → Bool
cancelable_of none = false
cancelable_of (some t) = is_cancelable t.policy

-- Nothing is left of the runner, and no deadline is set.
abbrev pub IsDone : Time × Runner → Type 0
IsDone (at, r) = (r.instance_of ≡ none) × (r.disk ≡ none) × (r.teardown ≡ none) × (at ≡ 0)

-- GitHub refused to remove the registration since the runner runs a job, as the last thing that
-- happened: a cancelable teardown is given up, and nothing else changes.
abbrev pub IsCanceled : World → Scaler → Runner → TeardownState → (Time × Runner) × Log → Type 0
IsCanceled w s r t ((at, r'), l') =
    (t.policy ≡ cancelable)
    × (is_deprovisioning t.phase ≡ false)
    × (at ≡ 0)
    × (r' ≡ record r { busy = true; teardown = none })
    × (e : Err) × (l : Log) × (remove_runner w s r.name l ≡ (err e, l'))
    × (is_job_still_running e ≡ true)

-- The teardown is no less far than it was, under the same policy, and has a deadline.
abbrev pub IsGoingOn : TeardownState → Time × Runner → Type 0
IsGoingOn t (at, r) =
    (is_some r.teardown ≡ true)
    × (rank (some t) ≤ rank r.teardown)
    × (cancelable_of r.teardown ≡ is_cancelable t.policy)
    × (0 < at)

-- The end of a teardown whose registration is gone.
abbrev Deprovisions : TeardownState → Time × Runner → Type 0
Deprovisions t res = IsDone res ⊎ ((res.1.teardown ≡ some t) × (0 < res.0))

-- The three ways in which a call can leave a runner.
abbrev pub Driven : World → Scaler → Runner → TeardownState → (Time × Runner) × Log → Type 0
Driven w s r t (res, l) = IsDone res ⊎ (IsCanceled w s r t (res, l) ⊎ IsGoingOn t res)

module _ (w : World) (s : Scaler) where
  teardown_disk-Deprovisions :
      (deleted : Bool) (r : Runner) (t : TeardownState) (l : Log)
      → r.teardown ≡ some t
      → r.instance_of ≡ none
      → Deprovisions t (teardown_disk w s deleted r l).0
  unfolding teardown_disk
  teardown_disk-Deprovisions deleted r t l marked bare = ground arith

  teardown_halted-Deprovisions :
      (r : Runner) (t : TeardownState) (l : Log)
      → r.teardown ≡ some t
      → Deprovisions t (teardown_halted w s r l).0
  unfolding teardown_halted
  teardown_halted-Deprovisions r t l marked = elim (Result-cases (delete_instance w s r.name l).0) [
    | inl (e, h) ↦ rw (h, teardown_halted) (inr (marked, omega arith))
    | inr (u, h) ↦
        rw (h, teardown_halted)
          (teardown_disk-Deprovisions true (record r { instance_of = none }) t _ marked refl)
  ]

  teardown_up-Deprovisions :
      (r : Runner) (t : TeardownState) (l : Log)
      → r.teardown ≡ some t
      → Deprovisions t (teardown_up w s r l).0
  unfolding teardown_up
  teardown_up-Deprovisions r t l marked = ground arith

  teardown_in_state-Deprovisions :
      (i : InstanceState) (r : Runner) (t : TeardownState) (l : Log)
      → r.teardown ≡ some t
      → Deprovisions t (teardown_in_state w s i r l).0
  unfolding teardown_in_state
  teardown_in_state-Deprovisions stopped r t l marked = teardown_halted-Deprovisions r t l marked
  teardown_in_state-Deprovisions failed r t l marked = teardown_halted-Deprovisions r t l marked
  teardown_in_state-Deprovisions destroyed r t l marked =
      teardown_disk-Deprovisions false (record r { instance_of = none }) t l marked refl
  teardown_in_state-Deprovisions stopping r t l marked = inr (marked, omega arith)
  teardown_in_state-Deprovisions _ r t l marked = teardown_up-Deprovisions r t l marked

  teardown_resources-Deprovisions :
      (r : Runner) (t : TeardownState) (l : Log)
      → r.teardown ≡ some t
      → Deprovisions t (teardown_resources w s r l).0
  unfolding teardown_resources
  teardown_resources-Deprovisions r t l marked = elim (Option-cases r.instance_of) [
    | inl e ↦ rw (e, teardown_resources) (teardown_disk-Deprovisions false r t l marked e)
    | inr (i, e) ↦
        rw (e, teardown_resources) (teardown_in_state-Deprovisions i.run_state r t l marked)
  ]

  removal_failed-Driven :
      (r : Runner) (t : TeardownState) (e : Err) (l₀ l : Log)
      → r.teardown ≡ some t
      → is_removing_registration t.phase ≡ true
      → remove_runner w s r.name l₀ ≡ (err e, l)
      → Driven w s r t (removal_failed w s t r e l)
  unfolding removal_failed
  removal_failed-Driven r t e l₀ l marked removing removed =
      elim (Bool-cases (is_job_still_running e)) [
        | inl running ↦ elim (Bool-cases (is_cancelable t.policy)) [
          | inl gives_up ↦
              rw (running, gives_up, removal_failed)
                (inr (inl (ground arith, ground arith, refl, refl, e, l₀, removed, running)))
          | inr goes_on ↦ rw (running, goes_on, removal_failed) (inr (inr (ground arith)))
        ]
        | inr other ↦ rw (other, removal_failed) (inr (inr (ground arith)))
      ]

  after_removal-Driven :
      (r : Runner) (t : TeardownState) (a : Result (Unit {0})) (l₀ l : Log)
      → r.teardown ≡ some t
      → is_removing_registration t.phase ≡ true
      → remove_runner w s r.name l₀ ≡ (a, l)
      → Driven w s r t (after_removal w s t r a l)
  unfolding after_removal
  after_removal-Driven r t (err e) l₀ l marked removing removed =
      removal_failed-Driven r t e l₀ l marked removing removed
  after_removal-Driven r t (ok u) l₀ l marked removing removed =
      elim (teardown_resources-Deprovisions (record r { teardown = some (begin_deprovisioning t) })
        (begin_deprovisioning t) l refl) [
          | inl done ↦ inl done
          | inr (kept, later) ↦ inr (inr (rw kept (ground arith)))
        ]

  teardown_registration-Driven :
      (r : Runner) (t : TeardownState) (l : Log)
      → r.teardown ≡ some t
      → is_cancellation_window t.phase ≡ false
      → Driven w s r t (teardown_registration w s t r l)
  unfolding teardown_registration
  teardown_registration-Driven r t l marked closed =
      elim (Bool-cases (is_removing_registration t.phase)) [
        | inl removing ↦
            rw (removing, teardown_registration)
              (after_removal-Driven r t (remove_runner w s r.name l).0 l
                (remove_runner w s r.name l).1 marked removing refl)
        | inr past ↦
            rw (past, teardown_registration)
              (elim (teardown_resources-Deprovisions r t l marked) [
                | inl done ↦ inl done
                | inr (kept, later) ↦ inr (inr (rw kept (refl, le_refl _, refl, later)))
              ])
      ]

  -- A window that has closed leads on as a removal does.
  closed_window-Driven :
      (r : Runner) (t : TeardownState) (l : Log)
      → is_cancellation_window t.phase ≡ true
      → Driven w s r t (
          teardown_registration w s
            (begin_removing_registration t)
            (record r { teardown = some (begin_removing_registration t) })
            l)
  closed_window-Driven r t l window =
      elim (teardown_registration-Driven
        (record r { teardown = some (begin_removing_registration t) })
        (begin_removing_registration t) l refl (unfold begin_removing_registration in refl)) [
          | inl done ↦ inl done
          | inr (inl (pol, early, at, same, e, l₀, removed, running)) ↦ inr (
              inl (
                unfold begin_removing_registration in
                (pol, ground arith, at, same, e, l₀, removed, running)))
          | inr (inr (kept, further, pol, later)) ↦
              inr (inr (unfold begin_removing_registration in (kept, ground arith, pol, later)))
        ]

  teardown_window-Driven :
      (r : Runner) (t : TeardownState) (l : Log)
      → r.teardown ≡ some t
      → Driven w s r t (teardown_window w s t r l)
  unfolding teardown_window
  teardown_window-Driven r t l marked = elim (Bool-cases (is_cancellation_window t.phase)) [
    | inl window ↦ elim (Bool-cases (before (w.now l) t.registration_removal_after)) [
      | inl still ↦
          rw (window, still, teardown_window)
            (inr (inr (rw marked (refl, le_refl _, refl, ground arith))))
      | inr over ↦
          rw (window, over, teardown_window)
            (closed_window-Driven r t (clock_read (w.now l) ∷ l) window)
    ]
    | inr closed ↦ rw (closed, teardown_window) (teardown_registration-Driven r t l marked closed)
  ]

-- One call of `teardown` on a runner that is marked ends in one of three ways. It is done, with
-- neither instance nor disk left and no deadline. Or it is canceled: GitHub answered the
-- removal of the registration, which was the last call, that the runner runs a job; this happens only
-- to a cancelable teardown before deprovisioning, and leaves all but the busy mark alone. Or it goes on:
-- its phase has not gone back, its policy is the same, and it has a deadline.
pub teardown-Driven :
    (w : World) (s : Scaler) (r : Runner) (t : TeardownState) (l : Log)
    → r.teardown ≡ some t
    → Driven w s r t (teardown w s r l)
unfolding teardown
teardown-Driven w s r t l marked = rw (marked, teardown) (teardown_window-Driven w s r t l marked)
