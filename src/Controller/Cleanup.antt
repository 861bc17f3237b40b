-- ===== src/Controller/Cleanup.antt =====
-- What `Run` of the controller returns, and what becomes of the scale set.
use oxide_gha_runner_scale_s.Prelude.{
  String, Option, none, some, List, [], ◌∷◌, ◌≡◌, ◌≢◌, ◌⊎◌, ◌↔◌, inl, refl, arith,
}
use oxide_gha_runner_scale_s.Controller.{
  RunError, no_error, canceled, drained, other, ControllerError, closing_session,
  deleting_scale_set, session_closed, scale_set_deleted, failure, run_error, joined, cleanup,
  finish_run,
}

pub joined-nil :
    (errs : List ControllerError) (wrap : String → ControllerError) (o : Option String)
    → (joined errs wrap o ≡ []) ↔ ((errs ≡ []) × (o ≡ none))
joined-nil errs wrap none = (λ h. (h, refl), λ h. h.0)
joined-nil [] wrap (some text) = (λ h. cc, λ h. cc)
joined-nil (e ∷ errs) wrap (some text) = (λ h. cc, λ h. cc)

-- Both peers ended well: no error, or the cancellation of their context.
abbrev pub EndedWell : RunError → RunError → Type 0
EndedWell listener_err scaler_err = (failure scaler_err ≡ none) × (failure listener_err ≡ none)

run_error-nil :
    (listener_err scaler_err : RunError)
    → (run_error listener_err scaler_err ≡ [])
      ↔ ((scaler_err ≡ drained) ⊎ EndedWell listener_err scaler_err)
unfolding run_error
run_error-nil l drained = (λ h. inl refl, λ h. refl)
run_error-nil l (other text) = ground arith
run_error-nil no_error no_error = ground arith
run_error-nil canceled no_error = ground arith
run_error-nil drained no_error = ground arith
run_error-nil (other text) no_error = ground arith
run_error-nil no_error canceled = ground arith
run_error-nil canceled canceled = ground arith
run_error-nil drained canceled = ground arith
run_error-nil (other text) canceled = ground arith

-- `Run` of the controller returns nil exactly if its session is closed without an error and either
-- the scaler drained the scale set and its deletion succeeds, or neither peer failed otherwise than
-- by the cancellation of its context. Only a drained scale set is deleted, after the closing of the
-- session, and even if that failed.
pub finish_run_lem :
    (listener_err scaler_err : RunError) (closed deleted : Option String)
    → let (errs, calls) = finish_run listener_err scaler_err closed deleted in
      ((errs ≡ []) ↔ (
        (closed ≡ none)
        × (((scaler_err ≡ drained) × (deleted ≡ none)) ⊎ EndedWell listener_err scaler_err)))
      × ((scaler_err ≡ drained) × (calls ≡ session_closed closed ∷ scale_set_deleted deleted ∷ [])
          ⊎ ((scaler_err ≢ drained) × (calls ≡ session_closed closed ∷ [])))
unfolding finish_run cleanup
finish_run_lem l drained c d = ground (
  arith,
  joined-nil [] closing_session c,
  joined-nil (joined [] closing_session c) deleting_scale_set d,
)
finish_run_lem l (other text) c d =
    ground
      (arith, run_error-nil l (other text), joined-nil (run_error l (other text)) closing_session c)
finish_run_lem l no_error c d =
    ground (arith, run_error-nil l no_error, joined-nil (run_error l no_error) closing_session c)
finish_run_lem l canceled c d =
    ground (arith, run_error-nil l canceled, joined-nil (run_error l canceled) closing_session c)
