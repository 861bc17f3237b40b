-- ===== src/Scaler/Run/Wake.antt =====
-- No wake-up is lost.
use oxide_gha_runner_scale_s.Prelude.{Bool, true, false, ◌≡◌, ◌<◌, ◌⊎◌, inl, inr, refl, [], arith}
use oxide_gha_runner_scale_s.GoTime.{Time}
use oxide_gha_runner_scale_s.Api.{Log, Result-cases}
use oxide_gha_runner_scale_s.Scaler.Runner.{ReconcileState}
use oxide_gha_runner_scale_s.Scaler.World.{World, Scaler}
use oxide_gha_runner_scale_s.Scaler.Handler.{wake}
use oxide_gha_runner_scale_s.Scaler.Observe.{observe_runners}
use oxide_gha_runner_scale_s.Scaler.Reconcile.{audit, plan, reconcile_observed, reconcile_drained}
use oxide_gha_runner_scale_s.Scaler.Run.{
  System, Phase, beginning, selecting, selected, taking_over, working, stopped, Step, Reach, here,
  next, take_over, work, initial_system,
}

-- The callbacks have left nothing that the state of the loop does not know.
abbrev pub IsHeard : System → Type 0
IsHeard y =
    (y.scaler.job_events ≡ []) × (y.state.desired_runner_count ≡ y.scaler.desired_runner_count)

-- The loop will look at the inbox before it waits again.
abbrev pub looks_ahead : Phase → Bool
looks_ahead beginning = true
looks_ahead selected = true
looks_ahead taking_over = true
looks_ahead (selecting _) = false
looks_ahead working = false
looks_ahead (stopped _) = true

-- Either the loop looks at the inbox on its own, or a wake-up is there or under way, or nothing is new.
abbrev pub IsAwake : System → Type 0
IsAwake y = (looks_ahead y.phase ≡ true) ⊎ ((y.scaler.wake ≡ true) ⊎ ((0 < y.unsent) ⊎ IsHeard y))

audit-desired :
    (w : World) (state : ReconcileState) (l : Log)
    → (audit w state l).0.1.desired_runner_count ≡ state.desired_runner_count
unfolding audit
audit-desired w state l = ground arith

plan-desired :
    (w : World) (state : ReconcileState) (l : Log)
    → (plan w state l).0.1.desired_runner_count ≡ state.desired_runner_count
unfolding plan
plan-desired w state l = audit-desired w _ _

-- What a reconciliation leaves alone of what the callbacks write.
abbrev Leaves : Scaler → ReconcileState → Scaler → ReconcileState → Type 0
Leaves s state s' state' =
    (s'.job_events ≡ s.job_events)
    × (s'.desired_runner_count ≡ s.desired_runner_count)
    × (s'.wake ≡ s.wake)
    × (state'.desired_runner_count ≡ state.desired_runner_count)

reconcile_drained-Leaves :
    (w : World) (s : Scaler) (state : ReconcileState) (l : Log)
    → let (outcome, s', state') = (reconcile_drained w s state l).0 in Leaves s state s' state'
unfolding reconcile_drained reconcile_observed
reconcile_drained-Leaves w s state l =
    let (a, l') = observe_runners w s state.runners l in
    elim (Result-cases a) [
      | inl (e, h) ↦ rw h (refl, refl, refl, refl)
      | inr (runners, h) ↦
          rw h (refl, refl, refl, plan-desired w (record state { runners = runners }) l')
    ]

Step-IsAwake : {w : World} {y z : System} → Step w y z → IsAwake y → IsAwake z
unfolding work
Step-IsAwake (Step.desired_runner_count count) a = inr (inr (inl (omega arith)))
Step-IsAwake (Step.job_event e named) a = inr (inr (inl (omega arith)))
Step-IsAwake (Step.send_wake some_unsent) a = inr (inl (unfold wake in refl))
Step-IsAwake (Step.begin p) a = inl refl
Step-IsAwake (Step.cancel_beginning p) a = inl refl
Step-IsAwake (Step.woken t p there) a = inl refl
Step-IsAwake (Step.retry t p later) a = inl refl
Step-IsAwake (Step.interval t p) a = inl refl
Step-IsAwake (Step.cancel_selecting t p) a = inl refl
Step-IsAwake (Step.cancel_selected p) a = inl refl
Step-IsAwake (Step.proceed p) a = inl refl
Step-IsAwake (Step.takes_over p) a = unfold take_over in inr (inr (inr (refl, refl)))
Step-IsAwake {w} {y} (Step.works p) a =
    ground (arith, reconcile_drained-Leaves w y.scaler y.state y.log)

Reach-IsAwake : {w : World} {y z : System} → IsAwake y → Reach w y z → IsAwake z
Reach-IsAwake a here = a
Reach-IsAwake a (next r st) = Step-IsAwake st (Reach-IsAwake a r)

initial_system-IsAwake : (s : Scaler) (l : Log) → IsAwake (initial_system s l)
unfolding initial_system
initial_system-IsAwake s l = inl refl

-- No wake-up is lost: however the callbacks, the timers and the reconciliations interleave, whenever
-- the loop waits in its `select` while the inbox holds an event, or a demand that the loop does not
-- know, a wake-up is in the channel or a callback is about to send one.
pub selecting_awake :
    (w : World) (s : Scaler) (l : Log) {y : System} (t : Time)
    → Reach w (initial_system s l) y
    → y.phase ≡ selecting t
    → (y.scaler.wake ≡ true) ⊎ ((0 < y.unsent) ⊎ IsHeard y)
selecting_awake w s l {y} t r p = elim (Reach-IsAwake (initial_system-IsAwake s l) r) [
  | inl ahead ↦ ground arith
  | inr rest ↦ rest
]
