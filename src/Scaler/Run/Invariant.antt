-- ===== src/Scaler/Run/Invariant.antt =====
-- The invariant of the loop.
use oxide_gha_runner_scale_s.Prelude.{refl, arith}
use oxide_gha_runner_scale_s.Api.{Log}
use oxide_gha_runner_scale_s.Scaler.World.{World, Scaler, RangeVisitsAll}
use oxide_gha_runner_scale_s.Scaler.Sound.{IsView}
use oxide_gha_runner_scale_s.Scaler.Sound.Cycle.{
  process_job_events-IsView, reconcile_drained-IsView,
}
use oxide_gha_runner_scale_s.Scaler.Run.{
  System, Step, Reach, here, next, take_over, work, initial_system,
}

module _ {w : World} (all : RangeVisitsAll w) where
  Step-IsView : {y z : System} → Step w y z → IsView y.state.runners → IsView z.state.runners
  unfolding take_over work
  Step-IsView (Step.desired_runner_count count) v = v
  Step-IsView (Step.job_event e named) v = v
  Step-IsView (Step.send_wake some_unsent) v = v
  Step-IsView (Step.begin p) v = v
  Step-IsView (Step.cancel_beginning p) v = v
  Step-IsView (Step.woken t p there) v = v
  Step-IsView (Step.retry t p later) v = v
  Step-IsView (Step.interval t p) v = v
  Step-IsView (Step.cancel_selecting t p) v = v
  Step-IsView (Step.cancel_selected p) v = v
  Step-IsView (Step.proceed p) v = v
  Step-IsView {y} (Step.takes_over p) v = process_job_events-IsView w y.scaler y.state y.log v
  Step-IsView {y} (Step.works p) v = reconcile_drained-IsView w all y.scaler y.state y.log v

  Reach-IsView : {y z : System} → IsView y.state.runners → Reach w y z → IsView z.state.runners
  Reach-IsView v here = v
  Reach-IsView v (next r st) = Step-IsView st (Reach-IsView v r)

-- At every moment of a run, however callbacks, timers and reconciliations interleave and whatever
-- GitHub and Oxide answer, the view of the runners is well formed, if a loop over a map visits each
-- entry once: no name stands twice, each entry has the name of its runner, and a teardown is
-- cancelable with a deadline in its cancellation window and has no deadline outside of it.
pub run-IsView :
    (w : World) (s : Scaler) (l : Log) {y : System}
    → RangeVisitsAll w
    → Reach w (initial_system s l) y
    → IsView y.state.runners
unfolding initial_system IsView
run-IsView w s l all r = Reach-IsView all ((λ k. omega arith), refl) r
