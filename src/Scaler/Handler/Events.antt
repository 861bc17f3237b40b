-- ===== src/Scaler/Handler/Events.antt =====
-- What the events of the inbox do to the runner of one name.
use oxide_gha_runner_scale_s.Prelude.{
  String, Bool, true, false, not, ◌&&◌, ◌||◌, ◌≡◌, refl, ◌∙◌, ap, Option, none, some, List, [], ◌∷◌,
  str_eq, str_eq_iff, if◌then◌else◌, arith, Bool-cases, inl, inr,
}
use oxide_gha_runner_scale_s.GoMap.{Map, lookup, lookup-update}
use oxide_gha_runner_scale_s.GoTime.{zero_time}
use oxide_gha_runner_scale_s.Api.{Log}
use oxide_gha_runner_scale_s.Scaler.Runner.{
  Runner, ReconcileState, TeardownState, permanent, cancelable, is_cancelable, cancellation_window,
  removing_registration, deprovisioning, is_deprovisioning, or_new_runner,
}
use oxide_gha_runner_scale_s.Scaler.World.{
  World, Scaler, JobEvent, JobStatus, started, completed, unknown_status,
}
use oxide_gha_runner_scale_s.Scaler.Mark.Policy.{is_permanent}
use oxide_gha_runner_scale_s.Scaler.Mark.{mark_for_teardown, marked_teardown}
use oxide_gha_runner_scale_s.Scaler.Handler.{
  apply_job_status, apply_job_events, process_job_events, job_started,
}

-- A completed job: the teardown is permanent from now on, and past its cancellation window.
abbrev pub finished : Option TeardownState → TeardownState
finished none = record {
  policy = permanent;
  phase = removing_registration;
  registration_removal_after = zero_time;
}
finished (some t) = elim t.policy [
  | permanent ↦ t
  | cancelable ↦ elim t.phase [
    | deprovisioning ↦ record t { policy = permanent }
    | removing_registration ↦ record t { policy = permanent }
    | cancellation_window ↦ record {
      policy = permanent;
      phase = removing_registration;
      registration_removal_after = zero_time;
    }
  ]
]

-- A started job gives up a cancelable teardown that is not yet deprovisioning.
abbrev pub kept_by_job : Option TeardownState → Option TeardownState
kept_by_job none = none
kept_by_job (some t) =
    if is_deprovisioning t.phase || not (is_cancelable t.policy) then some t else none

-- The runner at a name after one event of that name.
abbrev pub after_status : String → JobStatus → Option Runner → Option Runner
after_status k started o =
    let r = or_new_runner k o in some (record r { busy = true; teardown = kept_by_job r.teardown })
after_status k completed o =
    let r = or_new_runner k o in some (record r { teardown = some (finished r.teardown) })
after_status k (unknown_status _) o = o

-- The runner at a name after a list of events, of which those of other names are skipped.
abbrev pub after_events : String → List JobEvent → Option Runner → Option Runner
after_events k [] o = o
after_events k (e ∷ es) o =
    after_events k es (if str_eq e.runner_name k then after_status k e.job_status o else o)

marked_permanent :
    (w : World) (t : Option TeardownState) (l : Log)
    → marked_teardown w permanent t l ≡ (some (finished t), l)
unfolding marked_teardown
marked_permanent w none l = refl
marked_permanent w (some t) l = ground arith

-- A permanent mark makes no call.
mark_permanent :
    (w : World) (r : Runner) (l : Log)
    → mark_for_teardown w permanent r l ≡ (record r { teardown = some (finished r.teardown) }, l)
unfolding mark_for_teardown
mark_permanent w r l = rw (marked_permanent w r.teardown l)

module _ (w : World) (k : String) where
  apply_job_status-lookup :
      (name : String) (status : JobStatus) (m : Map Runner) (l : Log)
      → (lookup k (apply_job_status w name status m l).0
          ≡ (if str_eq name k then after_status k status (lookup k m) else lookup k m))
        × ((apply_job_status w name status m l).1 ≡ l)
  unfolding apply_job_status
  apply_job_status-lookup name started m l =
      ground
        (arith, str_eq_iff name k, lookup-update name k (λ o. job_started (or_new_runner name o)) m)
  apply_job_status-lookup name completed m l =
      let r = or_new_runner name (lookup name m) in
      rw (marked_permanent w r.teardown l) (
        ground (
          arith,
          str_eq_iff name k,
          lookup-update name k (λ _. record r { teardown = some (finished r.teardown) }) m,
        ))
  apply_job_status-lookup name (unknown_status _) m l = ground arith

  -- The runner at a name after the events of the inbox is what the events of that name make of it,
  -- in their order; events of other names do not touch it, and no call is made.
  pub apply_job_events-lookup :
      (es : List JobEvent) (m : Map Runner) (l : Log)
      → (lookup k (apply_job_events w es m l).0 ≡ after_events k es (lookup k m))
        × ((apply_job_events w es m l).1 ≡ l)
  unfolding apply_job_events
  apply_job_events-lookup [] m l = (refl, refl)
  apply_job_events-lookup (e ∷ es) m l =
      let (m', l') = apply_job_status w e.runner_name e.job_status m l in
      let (step, quiet) = apply_job_status-lookup e.runner_name e.job_status m l in
      let (rest, still) = apply_job_events-lookup es m' l' in
      (rest ∙ ap (after_events k es) step, still ∙ quiet)

-- Whether the inbox holds a completed job of the name.
abbrev pub is_completion : JobStatus → Bool
is_completion completed = true
is_completion _ = false

abbrev pub has_completion : String → List JobEvent → Bool
has_completion k [] = false
has_completion k (e ∷ es) =
    (str_eq e.runner_name k && is_completion e.job_status) || has_completion k es

-- The runner at a name is to be torn down for good.
abbrev pub is_doomed : Option Runner → Bool
is_doomed none = false
is_doomed (some r) = is_permanent r.teardown

after_status-doomed :
    (k : String) (status : JobStatus) (o : Option Runner)
    → is_doomed o ≡ true
    → is_doomed (after_status k status o) ≡ true
after_status-doomed k started none h = cc
after_status-doomed k started (some r) h = ground arith
after_status-doomed k completed o h = ground arith
after_status-doomed k (unknown_status _) o h = h

after_events-doomed :
    (k : String) (es : List JobEvent) (o : Option Runner)
    → is_doomed o ≡ true
    → is_doomed (after_events k es o) ≡ true
after_events-doomed k [] o h = h
after_events-doomed k (e ∷ es) o h =
    after_events-doomed k es (if str_eq e.runner_name k then after_status k e.job_status o else o)
      (ground (arith, after_status-doomed k e.job_status o))

after_completion-doomed :
    (k : String) (status : JobStatus) (o : Option Runner)
    → is_completion status ≡ true
    → is_doomed (after_status k status o) ≡ true
after_completion-doomed k started o h = cc
after_completion-doomed k completed o h = ground arith
after_completion-doomed k (unknown_status _) o h = cc

has_completion-doomed :
    (k : String) (es : List JobEvent) (o : Option Runner)
    → has_completion k es ≡ true
    → is_doomed (after_events k es o) ≡ true
has_completion-doomed k [] o h = cc
has_completion-doomed k (e ∷ es) o h =
    elim (Bool-cases (str_eq e.runner_name k && is_completion e.job_status)) [
      | inl here ↦
          after_events-doomed k es
            (if str_eq e.runner_name k then after_status k e.job_status o else o)
            (ground (arith, after_completion-doomed k e.job_status o))
      | inr later ↦
          has_completion-doomed k es
            (if str_eq e.runner_name k then after_status k e.job_status o else o) (ground arith)
    ]

-- If the inbox holds a completed job of a runner, the runner is marked for a permanent teardown when
-- the inbox has been worked off, wherever the event stands among the others: no job that is said to
-- start on it, before or after, keeps it.
pub process_job_events-completed :
    (w : World) (s : Scaler) (state : ReconcileState) (l : Log) (k : String)
    → has_completion k s.job_events ≡ true
    → is_doomed (lookup k (process_job_events w s state l).0.1.runners) ≡ true
unfolding process_job_events
process_job_events-completed w s state l k h =
    rw (apply_job_events-lookup w k s.job_events state.runners l).0
      (has_completion-doomed k s.job_events (lookup k state.runners) h)
