-- ===== src/Scaler/Run/Stop.antt =====
-- When the loop stops because the scale set is drained.
use oxide_gha_runner_scale_s.Prelude.{◌≡◌, inl, inr, refl, sym, ◌∙◌, []}
use oxide_gha_runner_scale_s.Api.{Log, Result-cases}
use oxide_gha_runner_scale_s.Scaler.Runner.{ReconcileState}
use oxide_gha_runner_scale_s.Scaler.World.{World, Scaler}
use oxide_gha_runner_scale_s.Scaler.Handler.{wake}
use oxide_gha_runner_scale_s.Scaler.Observe.{observe_runners}
use oxide_gha_runner_scale_s.Scaler.Reconcile.{
  Outcome, next_at, drained, reconcile_observed, reconcile_drained,
}
use oxide_gha_runner_scale_s.Scaler.Reconcile.Deadlines.{reconcile_drained-Tells}
use oxide_gha_runner_scale_s.Scaler.Run.{
  System, stopped, scale_set_drained, Step, Reach, here, next, take_over, work, initial_system,
  record_desired, record_event, take_wake, after_outcome,
}

-- The limits do not change, and a drained loop has nothing left.
abbrev IsSound : Scaler → System → Type 0
IsSound s y =
    (y.scaler.min_runners ≡ s.min_runners)
    × (y.scaler.max_runners ≡ s.max_runners)
    × (y.phase ≡ stopped scale_set_drained
        → (s.min_runners ≡ 0) × (s.max_runners ≡ 0) × (y.state.runners ≡ []))

reconcile_drained-limits :
    (w : World) (s : Scaler) (state : ReconcileState) (l : Log)
    → let (outcome, s', state') = (reconcile_drained w s state l).0 in
      (s'.min_runners ≡ s.min_runners) × (s'.max_runners ≡ s.max_runners)
unfolding reconcile_drained reconcile_observed
reconcile_drained-limits w s state l =
    let (a, l') = observe_runners w s state.runners l in
    elim (Result-cases a) [ inl (e, h) ↦ rw h (refl, refl) | inr (runners, h) ↦ rw h (refl, refl) ]

after_outcome-drained : (o : Outcome) → after_outcome o ≡ stopped scale_set_drained → o ≡ drained
after_outcome-drained (next_at t) e = cc
after_outcome-drained drained e = refl

Step-IsSound : {w : World} {y z : System} (s : Scaler) → Step w y z → IsSound s y → IsSound s z
unfolding work take_over record_desired record_event take_wake wake
Step-IsSound s (Step.desired_runner_count count) (a, b, c) = (a, b, c)
Step-IsSound s (Step.job_event e named) (a, b, c) = (a, b, c)
Step-IsSound s (Step.send_wake some_unsent) (a, b, c) = (a, b, c)
Step-IsSound s (Step.begin p) (a, b, c) = (a, b, λ e. cc)
Step-IsSound s (Step.cancel_beginning p) (a, b, c) = (a, b, λ e. cc)
Step-IsSound s (Step.woken t p there) (a, b, c) = (a, b, λ e. cc)
Step-IsSound s (Step.retry t p later) (a, b, c) = (a, b, λ e. cc)
Step-IsSound s (Step.interval t p) (a, b, c) = (a, b, λ e. cc)
Step-IsSound s (Step.cancel_selecting t p) (a, b, c) = (a, b, λ e. cc)
Step-IsSound s (Step.cancel_selected p) (a, b, c) = (a, b, λ e. cc)
Step-IsSound s (Step.proceed p) (a, b, c) = (a, b, λ e. cc)
Step-IsSound s (Step.takes_over p) (a, b, c) = (a, b, λ e. cc)
Step-IsSound {w} {y} s (Step.works p) (a, b, c) =
    let (m, n) = reconcile_drained-limits w y.scaler y.state y.log in
    let tells = (reconcile_drained-Tells w y.scaler y.state y.log).0 in
    (
      m ∙ a,
      n ∙ b,
      λ e.
          (let (x, z, none_left) = tells (after_outcome-drained _ e) in
            (sym a ∙ x, sym b ∙ z, none_left)),
    )

Reach-IsSound : {w : World} {y z : System} (s : Scaler) → IsSound s y → Reach w y z → IsSound s z
Reach-IsSound s a here = a
Reach-IsSound s a (next r st) = Step-IsSound s st (Reach-IsSound s a r)

-- `Run` returns that the scale set is drained only if it was made with both limits 0, and then no
-- runner is left in its view.
pub stopped_drained :
    (w : World) (s : Scaler) (l : Log) {y : System}
    → Reach w (initial_system s l) y
    → y.phase ≡ stopped scale_set_drained
    → (s.min_runners ≡ 0) × (s.max_runners ≡ 0) × (y.state.runners ≡ [])
unfolding initial_system
stopped_drained w s l r p = (Reach-IsSound s (refl, refl, λ e. cc) r).2 p
