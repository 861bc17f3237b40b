-- ===== src/Controller.antt =====
-- controller.go: how the listener and the scaler run as peers and are shut down, and what `Run` of
-- the controller does after that.
pub mod Shutdown
pub mod Cleanup
pub mod Start
pub mod Handover
pub mod Exit
pub mod ExitCode
use oxide_gha_runner_scale_s.ScaleSet.{EnsureError}
use oxide_gha_runner_scale_s.Scaler.Config.Validate.{ConfigError}
use oxide_gha_runner_scale_s.Prelude.{
  String, Bool, true, false, Option, none, some, List, [], ◌∷◌, ◌++◌, ◌≡◌,
}

-- What `errors.Is` tells of the error that a component returns: nil, the cancellation of its
-- context, `scaler.ErrScaleSetDrained`, or any other.
pub data RunError : Type 0 where
  no_error canceled drained : RunError
  other : String → RunError

-- Where `runListenerAndScaler` stands: in the `select`; after the parent's cancellation, waiting for
-- the listener; waiting for the scaler; waiting for the listener; returned.
pub data Phase : Type 0 where
  selecting stopping awaiting_scaler awaiting_listener returned : Phase

-- A peer's channel holds its error from when it has returned on.
pub record Peers : Type 0 where
  pub parent_canceled : Bool
  pub listener_canceled : Bool
  pub scaler_canceled : Bool
  pub listener_result : Option RunError
  pub scaler_result : Option RunError
  pub phase : Phase

abbrev pub initial_peers : Peers
initial_peers = record {
  parent_canceled = false;
  listener_canceled = false;
  scaler_canceled = false;
  listener_result = none;
  scaler_result = none;
  phase = selecting;
}

-- The process may be canceled and the peers may return, with any error, at any time.
pub data PeerStep : Peers → Peers → Type 0 where
  cancel_parent : {y : Peers} → PeerStep y (record y { parent_canceled = true })
  listener_returns :
      {y : Peers} (e : RunError)
      → y.listener_result ≡ none
      → PeerStep y (record y { listener_result = some e })
  scaler_returns :
      {y : Peers} (e : RunError)
      → y.scaler_result ≡ none
      → PeerStep y (record y { scaler_result = some e })
  select_done :
      {y : Peers}
      → y.phase ≡ selecting
      → y.parent_canceled ≡ true
      → PeerStep y (record y { listener_canceled = true; phase = stopping })
  select_listener :
      {y : Peers} (e : RunError)
      → y.phase ≡ selecting
      → y.listener_result ≡ some e
      → PeerStep y (record y { scaler_canceled = true; phase = awaiting_scaler })
  select_scaler :
      {y : Peers} (e : RunError)
      → y.phase ≡ selecting
      → y.scaler_result ≡ some e
      → PeerStep y (record y { listener_canceled = true; phase = awaiting_listener })
  listener_stopped :
      {y : Peers} (e : RunError)
      → y.phase ≡ stopping
      → y.listener_result ≡ some e
      → PeerStep y (record y { scaler_canceled = true; phase = awaiting_scaler })
  receive_scaler :
      {y : Peers} (e : RunError)
      → y.phase ≡ awaiting_scaler
      → y.scaler_result ≡ some e
      → PeerStep y (record y { listener_canceled = true; scaler_canceled = true; phase = returned })
  receive_listener :
      {y : Peers} (e : RunError)
      → y.phase ≡ awaiting_listener
      → y.listener_result ≡ some e
      → PeerStep y (record y { listener_canceled = true; scaler_canceled = true; phase = returned })

pub data PeerReach (x : Peers) : Peers → Type 0 where
  here : PeerReach x x
  next : {y z : Peers} → PeerReach x y → PeerStep y z → PeerReach x z

-- The calls of the deferred function.
pub data CleanupCall : Type 0 where
  session_closed : Option String → CleanupCall
  scale_set_deleted : Option String → CleanupCall

-- The errors that `Run` returns, joined; none is nil.
pub data ControllerError : Type 0 where
  ensuring_scale_set : EnsureError → ControllerError
  creating_scaler : ConfigError → ControllerError
  creating_session creating_listener : String → ControllerError
  running_scaler running_listener : String → ControllerError
  closing_session deleting_scale_set : String → ControllerError

-- `if err != nil && !errors.Is(err, context.Canceled)`, with the error of a drained scale set, which
-- only the scaler returns, as any other.
abbrev pub failure : RunError → Option String
failure no_error = none
failure canceled = none
failure drained = some "scale set drained"
failure (other text) = some text

-- `errors.Is(scalerErr, scaler.ErrScaleSetDrained)`.
abbrev pub is_drained_error : RunError → Bool
is_drained_error drained = true
is_drained_error _ = false

-- What `Run` returns before the deferred function.
unfoldable pub run_error : RunError → RunError → List ControllerError
run_error listener_err drained = []
run_error listener_err scaler_err = elim (failure scaler_err) [
  | some text ↦ running_scaler text ∷ []
  | none ↦ elim (failure listener_err) [ some text ↦ running_listener text ∷ [] | none ↦ [] ]
]

abbrev pub joined :
    List ControllerError → (String → ControllerError) → Option String → List ControllerError
joined errs wrap none = errs
joined errs wrap (some text) = errs ++ wrap text ∷ []

-- The deferred function, with what closing the session and deleting the scale set answer.
unfoldable pub cleanup :
    Option String
    → Option String
    → Bool
    → List ControllerError
    → List ControllerError × List CleanupCall
cleanup closed deleted delete_scale_set errs =
    let errs' = joined errs closing_session closed in
    elim delete_scale_set [
      | false ↦ (errs', session_closed closed ∷ [])
      | true ↦ (
        joined errs' deleting_scale_set deleted,
        session_closed closed ∷ scale_set_deleted deleted ∷ [],
      )
    ]

-- `Run` from the return of the peers on.
unfoldable pub finish_run :
    RunError → RunError → Option String → Option String → List ControllerError × List CleanupCall
unfolding run_error cleanup
finish_run listener_err scaler_err closed deleted =
    cleanup closed deleted (is_drained_error scaler_err) (run_error listener_err scaler_err)
