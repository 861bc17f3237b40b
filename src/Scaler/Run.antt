-- ===== src/Scaler/Run.antt =====
-- internal/scaler/reconcile.go, `Run`, beside the callbacks of handler.go: the loop and the listener
-- as steps of one system. A callback records under the lock in one step and wakes the loop in
-- another; the loop takes the inbox over under the lock, and the rest of a reconciliation is a step
-- of its own, between which any callbacks can come. Timers may fire at any time.
pub mod Wake
pub mod Stop
pub mod Invariant
use oxide_gha_runner_scale_s.Prelude.{
  ℕ, zero, suc, String, true, false, ◌+◌, ◌-◌, ◌≡◌, ◌≢◌, ◌<◌, [], ◌∷◌, ◌++◌, ℤ,
}
use oxide_gha_runner_scale_s.GoTime.{Time}
use oxide_gha_runner_scale_s.Api.{Log}
use oxide_gha_runner_scale_s.Scaler.Runner.{ReconcileState, new_reconcile_state}
use oxide_gha_runner_scale_s.Scaler.World.{World, Scaler, JobEvent, started, completed}
use oxide_gha_runner_scale_s.Scaler.Handler.{process_job_events, wake}
use oxide_gha_runner_scale_s.Scaler.Reconcile.{Outcome, next_at, drained, reconcile_drained}

pub data StopReason : Type 0 where
  canceled scale_set_drained : StopReason

-- Where `Run` stands: before the first reconciliation; in the `select`, with the next deadline;
-- behind it; before the inbox is taken over; in the rest of a reconciliation; returned.
pub data Phase : Type 0 where
  beginning : Phase
  selecting : Time → Phase
  selected : Phase
  taking_over : Phase
  working : Phase
  stopped : StopReason → Phase

-- `unsent` counts the callbacks that have recorded and not yet woken the loop.
pub record System : Type 0 where
  pub scaler : Scaler
  pub state : ReconcileState
  pub phase : Phase
  pub unsent : ℕ
  pub log : Log

unfoldable pub initial_system : Scaler → Log → System
unfolding new_reconcile_state
initial_system s l = record {
  scaler = s;
  state = new_reconcile_state;
  phase = beginning;
  unsent = 0;
  log = l;
}

-- `s.desiredRunnerCount = count`.
unfoldable pub record_desired : ℤ → Scaler → Scaler
record_desired count s = record s { desired_runner_count = count }

-- `s.jobEvents = append(s.jobEvents, event)`.
unfoldable pub record_event : JobEvent → Scaler → Scaler
record_event e s = record s { job_events = s.job_events ++ e ∷ [] }

-- `<-s.wakeCh`.
unfoldable pub take_wake : Scaler → Scaler
take_wake s = record s { wake = false }

abbrev pub after_outcome : Outcome → Phase
after_outcome (next_at t) = selecting t
after_outcome drained = stopped scale_set_drained

-- The inbox is taken over.
unfoldable pub take_over : World → System → System
unfolding process_job_events
take_over w y =
    let ((s, state), l) = process_job_events w y.scaler y.state y.log in
    record y { scaler = s; state = state; log = l; phase = working }

-- The rest of a reconciliation.
unfoldable pub work : World → System → System
unfolding reconcile_drained
work w y =
    let ((outcome, s, state), l) = reconcile_drained w y.scaler y.state y.log in
    record y { scaler = s; state = state; log = l; phase = after_outcome outcome }

pub data Step (w : World) : System → System → Type 0 where
  desired_runner_count :
      {y : System} (count : ℤ)
      → Step w y (record y { scaler = record_desired count y.scaler; unsent = y.unsent + 1 })
  job_event :
      {y : System} (e : JobEvent)
      → e.runner_name ≢ ""
      → Step w y (record y { scaler = record_event e y.scaler; unsent = y.unsent + 1 })
  send_wake :
      {y : System}
      → 0 < y.unsent
      → Step w y (record y { scaler = wake y.scaler; unsent = y.unsent - 1 })
  begin : {y : System} → y.phase ≡ beginning → Step w y (record y { phase = taking_over })
  cancel_beginning :
      {y : System} → y.phase ≡ beginning → Step w y (record y { phase = stopped canceled })
  woken :
      {y : System} (t : Time)
      → y.phase ≡ selecting t
      → y.scaler.wake ≡ true
      → Step w y (record y { scaler = take_wake y.scaler; phase = selected })
  retry :
      {y : System} (t : Time)
      → y.phase ≡ selecting t
      → 0 < t
      → Step w y (record y { phase = selected })
  interval :
      {y : System} (t : Time) → y.phase ≡ selecting t → Step w y (record y { phase = selected })
  cancel_selecting :
      {y : System} (t : Time)
      → y.phase ≡ selecting t
      → Step w y (record y { phase = stopped canceled })
  cancel_selected :
      {y : System} → y.phase ≡ selected → Step w y (record y { phase = stopped canceled })
  proceed : {y : System} → y.phase ≡ selected → Step w y (record y { phase = taking_over })
  takes_over : {y : System} → y.phase ≡ taking_over → Step w y (take_over w y)
  works : {y : System} → y.phase ≡ working → Step w y (work w y)

pub data Reach (w : World) (y : System) : System → Type 0 where
  here : Reach w y y
  next : {z u : System} → Reach w y z → Step w z u → Reach w y u
