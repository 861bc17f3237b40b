-- ===== src/Scaler/Reconcile/Deadlines.antt =====
-- When the next reconciliation runs, and when the scaler stops.
use oxide_gha_runner_scale_s.Prelude.{
  true, ◌≡◌, ◌≤◌, ◌<◌, ◌⊎◌, inl, inr, refl, ap, [], ◌∷◌, List, arith, All, length, ◌==◌,
}
use oxide_gha_runner_scale_s.GoMap.{Map}
use oxide_gha_runner_scale_s.GoTime.{Time, zero_time, add}
use oxide_gha_runner_scale_s.Api.{Log, Result-cases}
use oxide_gha_runner_scale_s.Scaler.Runner.{
  Runner, ReconcileState, teardown_count, active_runner_count,
}
use oxide_gha_runner_scale_s.Scaler.World.{World, Scaler}
use oxide_gha_runner_scale_s.Scaler.Teardown.{teardown, reconcile_retry_delay}
use oxide_gha_runner_scale_s.Scaler.Handler.{process_job_events}
use oxide_gha_runner_scale_s.Scaler.Observe.{observe_runners}
use oxide_gha_runner_scale_s.Scaler.Reconcile.{
  Outcome, next_at, drained, request_reconcile, teardown_loop, conclude, is_drained,
  reconcile_observed, reconcile, reconcile_drained, plan, target_count, reclaim_for,
  drive_teardowns, converge,
}

-- A deadline that was asked for is met: it is none, or the next reconciliation is no later.
abbrev pub Meets : Time → Time → Type 0
Meets next at = (at ≡ 0) ⊎ ((0 < next) × (next ≤ at))

-- A request meets the deadline that was asked for and all that were met before.
request_reconcile-Meets :
    (next at : Time)
    → Meets (request_reconcile next at) at
      × ((d : Time) → Meets next d → Meets (request_reconcile next at) d)
unfolding request_reconcile
request_reconcile-Meets next at = (ground arith, λ d h. ground arith)

module _ (w : World) (s : Scaler) where
  -- The deadlines that the teardowns of the loop return, in turn.
  pub teardown_deadlines : Map Runner → Log → List Time
  teardown_deadlines [] l = []
  teardown_deadlines ((k, r) ∷ m) l =
      let ((at, r'), l') = teardown w s r l in at ∷ teardown_deadlines m l'

  teardown_loop_keeps :
      (next d : Time) (m : Map Runner) (l : Log)
      → Meets next d
      → Meets (teardown_loop w s next m l).0.0 d
  unfolding teardown_loop
  teardown_loop_keeps next d [] l h = h
  teardown_loop_keeps next d ((k, r) ∷ m) l h =
      let ((at, r'), l') = teardown w s r l in
      teardown_loop_keeps (request_reconcile next at) d m l'
        ((request_reconcile-Meets next at).1 d h)

  -- The loop over the teardowns meets the deadline of every teardown that it drives.
  pub teardown_loop-Meets :
      (next : Time) (m : Map Runner) (l : Log)
      → All (λ d. Meets (teardown_loop w s next m l).0.0 d) (teardown_deadlines m l)
  unfolding teardown_loop teardown_deadlines
  teardown_loop-Meets next [] l = tt
  teardown_loop-Meets next ((k, r) ∷ m) l =
      let ((at, r'), l') = teardown w s r l in
      (
        teardown_loop_keeps (request_reconcile next at) at m l' (request_reconcile-Meets next at).0,
        teardown_loop-Meets (request_reconcile next at) m l',
      )

  -- What the end of a cycle promises of the runners that it leaves.
  abbrev pub Concludes : Map Runner → Outcome → Type 0
  Concludes m drained = (s.min_runners ≡ 0) × (s.max_runners ≡ 0) × (m ≡ [])
  Concludes m (next_at t) =
      (0 < teardown_count m → 0 < t) × ¬ ((s.min_runners ≡ 0) × (s.max_runners ≡ 0) × (m ≡ []))

length-zero : (m : Map Runner) → (length m == 0) ≡ true → m ≡ []
length-zero [] h = refl
length-zero (e ∷ m) h = ground arith

conclude-Concludes :
    (w : World) (s : Scaler) (next : Time) (m : Map Runner) (l : Log)
    → Concludes w s m (conclude w s next m l).0
unfolding conclude is_drained
conclude-Concludes w s next m l = ground (arith, length-zero m, ap length {x = m} {y = []})

-- A cycle ends drained exactly if both limits are 0 and no runner is left in the view. Otherwise, as
-- long as a teardown is in progress, it asks for a next reconciliation.
pub reconcile_observed-Concludes :
    (w : World) (s : Scaler) (state : ReconcileState) (l : Log)
    → let (outcome, s', state') = (reconcile_observed w s state l).0 in
      Concludes w s state'.runners outcome
unfolding reconcile_observed
reconcile_observed-Concludes w s state l =
    let ((next₁, planned), l₁) = plan w state l in
    let target = target_count planned.desired_runner_count s.min_runners s.max_runners in
    let (kept, l₂) = reclaim_for w target planned.runners l₁ in
    let ((next₂, driven), l₃) = drive_teardowns w s (request_reconcile zero_time next₁) kept l₂ in
    let ((at, runners), l₄) = converge w s target driven l₃ in
    conclude-Concludes w (record s { active_runner_count = active_runner_count runners })
      (request_reconcile next₂ at) runners l₄

-- What a caller can tell from the outcome alone.
abbrev pub Tells : Scaler → Map Runner → Outcome → Type 0
Tells s m outcome =
    (outcome ≡ drained → (s.min_runners ≡ 0) × (s.max_runners ≡ 0) × (m ≡ []))
    × ((t : Time) → outcome ≡ next_at t → 0 < teardown_count m → 0 < t)

Concludes-Tells :
    (w : World) (s : Scaler) (m : Map Runner) (outcome : Outcome)
    → Concludes w s m outcome
    → Tells s m outcome
Concludes-Tells w s m drained h = (λ _. h, λ t e. cc)
Concludes-Tells w s m (next_at t) h = (λ e. cc, λ u e pos. ground arith)

positive-Tells : (s : Scaler) (m : Map Runner) (t : Time) → 0 < t → Tells s m (next_at t)
positive-Tells s m t h = (λ e. cc, λ u e pos. ground arith)

pub reconcile_drained-Tells :
    (w : World) (s : Scaler) (state : ReconcileState) (l : Log)
    → let (outcome, s', state') = (reconcile_drained w s state l).0 in
      Tells s state'.runners outcome
unfolding reconcile_drained
reconcile_drained-Tells w s state l =
    let (a, l') = observe_runners w s state.runners l in
    elim (Result-cases a) [
      | inl (e, h) ↦
          rw h (positive-Tells s state.runners (add (w.now l') reconcile_retry_delay) (omega arith))
      | inr (runners, h) ↦ rw h (
          let start = record state { runners = runners } in
          let ((outcome, s', state'), l'') = reconcile_observed w s start l' in
          Concludes-Tells w s' state'.runners outcome (reconcile_observed-Concludes w s start l'))
    ]

-- A reconciliation ends drained only if both limits are 0 and no runner is left in the view; and
-- unless it ends drained, it asks for a next one as long as a teardown is in progress, even where the
-- observation failed.
pub reconcile-Concludes :
    (w : World) (s : Scaler) (state : ReconcileState) (l : Log)
    → let (outcome, s', state') = (reconcile w s state l).0 in Tells s state'.runners outcome
unfolding reconcile process_job_events
reconcile-Concludes w s state l =
    let ((s', state'), l') = process_job_events w s state l in
    reconcile_drained-Tells w s' state' l'
