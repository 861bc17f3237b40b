-- ===== src/Tests/Control.antt =====
-- The shutdown and the end of the controller, at concrete inputs.
use oxide_gha_runner_scale_s.Prelude.{
  String, true, Option, none, some, is_some, [], ◌∷◌, ◌≡◌, ◌≢◌, ◌⊎◌, ◌↔◌, refl,
}
use oxide_gha_runner_scale_s.Controller.{
  canceled, drained, Peers, returned, initial_peers, PeerStep, PeerReach, here, next,
  session_closed, scale_set_deleted, finish_run,
}
use oxide_gha_runner_scale_s.Controller.Shutdown.{
  CanMove, IsWaiting, listener_returned_first, shutdown_progress,
}
use oxide_gha_runner_scale_s.Controller.Cleanup.{EndedWell, finish_run_lem}

-- The process is canceled, the listener stops, and then the scaler.
abbrev shut_down : Peers
shut_down = record {
  parent_canceled = true;
  listener_canceled = true;
  scaler_canceled = true;
  listener_result = some canceled;
  scaler_result = some canceled;
  phase = returned;
}

shut_down-PeerReach : PeerReach initial_peers shut_down
shut_down-PeerReach =
    next
      (next
        (next
          (next (next (next here PeerStep.cancel_parent) (PeerStep.select_done refl refl))
            (PeerStep.listener_returns canceled refl))
          (PeerStep.listener_stopped canceled refl refl))
        (PeerStep.scaler_returns canceled refl))
      (PeerStep.receive_scaler canceled refl refl)

listener_returned_first_example :
    (true ≡ true → is_some (some canceled) ≡ true)
    × (returned ≡ returned → (is_some (some canceled) ≡ true) × (is_some (some canceled) ≡ true))
listener_returned_first_example = listener_returned_first shut_down-PeerReach

shutdown_progress_example :
    (initial_peers.phase ≡ returned) ⊎ (CanMove initial_peers ⊎ IsWaiting initial_peers)
shutdown_progress_example = shutdown_progress here

abbrev close_failure : Option String
close_failure = some "gone"

abbrev kept : Option String
kept = none

finish_run_lem_example :
    let (errs, calls) = finish_run canceled drained close_failure kept in
    ((errs ≡ []) ↔ (
      (close_failure ≡ none)
      × (((drained ≡ drained) × (kept ≡ none)) ⊎ EndedWell canceled drained)))
    × ((drained ≡ drained) × (calls ≡ session_closed close_failure ∷ scale_set_deleted kept ∷ [])
        ⊎ ((drained ≢ drained) × (calls ≡ session_closed close_failure ∷ [])))
finish_run_lem_example = finish_run_lem canceled drained close_failure kept

finish_run_deletes :
    (finish_run canceled drained none none).1 ≡ session_closed none ∷ scale_set_deleted none ∷ []
unfolding finish_run
finish_run_deletes = refl
