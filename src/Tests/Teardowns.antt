-- ===== src/Tests/Teardowns.antt =====
-- Events, marks, teardowns and deadlines.
use oxide_gha_runner_scale_s.Prelude.{
  Bool, true, false, not, ◌||◌, ◌≡◌, ◌≤◌, refl, some, is_some, [], ◌∷◌, String, All,
}
use oxide_gha_runner_scale_s.GoMap.{Map, lookup}
use oxide_gha_runner_scale_s.Api.{ok}
use oxide_gha_runner_scale_s.Scaler.Runner.{Runner, permanent, cancelable, is_cancelable}
use oxide_gha_runner_scale_s.Scaler.Names.{name_prefix}
use oxide_gha_runner_scale_s.Scaler.Teardown.{teardown}
use oxide_gha_runner_scale_s.Scaler.Teardown.Order.{Gated, teardown-Gated}
use oxide_gha_runner_scale_s.Scaler.Teardown.Progress.{Driven, teardown-Driven}
use oxide_gha_runner_scale_s.Scaler.Mark.{marked_teardown}
use oxide_gha_runner_scale_s.Scaler.Mark.Policy.{
  stage, is_permanent, marked_teardown_lem, marked_teardown_idem,
}
use oxide_gha_runner_scale_s.Scaler.Handler.{apply_job_events, process_job_events}
use oxide_gha_runner_scale_s.Scaler.Handler.Events.{
  after_events, apply_job_events-lookup, is_doomed, process_job_events-completed,
}
use oxide_gha_runner_scale_s.Scaler.Observe.{observe_runners}
use oxide_gha_runner_scale_s.Scaler.Observe.View.{view_of, owned_in, observe_runners_lem}
use oxide_gha_runner_scale_s.Scaler.Reconcile.{reconcile, reconcile_observed, teardown_loop}
use oxide_gha_runner_scale_s.Scaler.Reconcile.Deadlines.{
  Meets, teardown_deadlines, teardown_loop-Meets, Concludes, Tells, reconcile-Concludes,
  reconcile_observed-Concludes,
}
use oxide_gha_runner_scale_s.Tests.Fixtures.{
  granting, scaler, draining, state, marked, window, closed, instance_named, disk_named,
}

teardown-Gated_example :
    (b : Bool) × Gated scaler "c" [] b (teardown granting scaler (marked "c" closed) []).1
teardown-Gated_example = teardown-Gated granting scaler (marked "c" closed) closed [] refl refl

-- The registration is looked up, the instance is stopped, and the teardown goes on.
teardown_stops : (teardown granting scaler (marked "c" closed) []).0.0 ≡ 1000005000000000
unfolding teardown
teardown_stops = refl

teardown-Driven_example :
    Driven granting scaler
      (marked "c" closed)
      closed
      (teardown granting scaler (marked "c" closed) [])
teardown-Driven_example = teardown-Driven granting scaler (marked "c" closed) closed [] refl

teardown_loop-Meets_example :
    All
      (λ d. Meets (teardown_loop granting scaler 0 state.runners []).0.0 d)
      (teardown_deadlines granting scaler state.runners [])
teardown_loop-Meets_example = teardown_loop-Meets granting scaler 0 state.runners []

reconcile-Concludes_example :
    let (outcome, s', state') = (reconcile granting draining state []).0 in
    Tells draining state'.runners outcome
reconcile-Concludes_example = reconcile-Concludes granting draining state []

observed_cycle :
    let (outcome, s', state') = (reconcile_observed granting scaler state []).0 in
    Concludes granting scaler state'.runners outcome
observed_cycle = reconcile_observed-Concludes granting scaler state []

process_job_events-completed_example :
    is_doomed (lookup "b" (process_job_events granting scaler state []).0.1.runners) ≡ true
process_job_events-completed_example =
    process_job_events-completed granting scaler state [] "b" refl

apply_job_events-lookup_example :
    (lookup "a" (apply_job_events granting scaler.job_events state.runners []).0
      ≡ after_events "a" scaler.job_events (lookup "a" state.runners))
    × ((apply_job_events granting scaler.job_events state.runners []).1 ≡ [])
apply_job_events-lookup_example =
    apply_job_events-lookup granting "a" scaler.job_events state.runners []

observe_runners_lem_example :
    (m' : Map Runner) × ((observe_runners granting scaler state.runners []).0 ≡ ok m')
    × ((k : String)
        → lookup k m'
          ≡ view_of k
              (lookup k state.runners)
              (owned_in (name_prefix granting scaler) (λ i. i.name) k (instance_named "other" ∷ []))
              (owned_in (name_prefix granting scaler) (λ d. d.name) k (disk_named "other" ∷ [])))
observe_runners_lem_example =
    observe_runners_lem granting scaler state.runners [] (instance_named "other" ∷ [])
      (disk_named "other" ∷ []) refl refl

marked_teardown_lem_example :
    let after = (marked_teardown granting permanent (some window) []).0 in
    (is_some after ≡ true)
    × (stage (some window) ≤ stage after)
    × (is_permanent after ≡ (is_permanent (some window) || not (is_cancelable permanent)))
    × (permanent ≡ permanent → is_permanent (some window) ≡ false → 2 ≤ stage after)
marked_teardown_lem_example = marked_teardown_lem granting permanent (some window) []

second_mark :
    let after = (marked_teardown granting permanent (some window) []).0 in
    marked_teardown granting cancelable after [] ≡ (after, [])
second_mark = marked_teardown_idem granting permanent cancelable (some window) [] [] (λ e. refl)
