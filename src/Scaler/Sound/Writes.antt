-- ===== src/Scaler/Sound/Writes.antt =====
-- The writes of one entry keep the view well formed.
use oxide_gha_runner_scale_s.Prelude.{
  String, false, ◌≡◌, Option, some, List, [], ◌∷◌, inl, inr, arith, Option-cases, Bool-cases,
}
use oxide_gha_runner_scale_s.GoMap.{
  Map, lookup, insert, update, count_key-update, count_bad-update, lookup-fine,
}
use oxide_gha_runner_scale_s.GoTime.{Time}
use oxide_gha_runner_scale_s.Api.{Log, Instance, Disk}
use oxide_gha_runner_scale_s.Scaler.Runner.{
  Runner, TeardownPolicy, permanent, cancelable, or_new_runner, with_runner,
}
use oxide_gha_runner_scale_s.Scaler.World.{
  World, JobEvent, JobStatus, started, completed, unknown_status,
}
use oxide_gha_runner_scale_s.Scaler.Mark.{mark_for_teardown}
use oxide_gha_runner_scale_s.Scaler.Handler.{
  change_runner, job_started, apply_job_status, apply_job_events,
}
use oxide_gha_runner_scale_s.Scaler.Observe.{set_instances, set_disks}
use oxide_gha_runner_scale_s.Scaler.Provision.{
  Worker, provision_failed, instance_created_of, track_workers,
}
use oxide_gha_runner_scale_s.Scaler.Capacity.{mark_selected, removal_after, earlier}
use oxide_gha_runner_scale_s.Scaler.Sound.{
  is_unsound, IsView, mark-is_unsound, job_started-is_unsound, new_runner-is_unsound,
}

update-IsView :
    (k : String) (f : Option Runner → Runner) (m : Map Runner)
    → is_unsound (k, f (lookup k m)) ≡ false
    → IsView m
    → IsView (update k f m)
unfolding IsView
update-IsView k f m fine (once, sound) = (
  λ j. ground (arith, count_key-update j k f m, once j),
  omega (arith, count_bad-update is_unsound k f m fine, sound),
)

insert-IsView :
    (k : String) (r : Runner) (m : Map Runner)
    → is_unsound (k, r) ≡ false
    → IsView m
    → IsView (insert k r m)
unfolding insert
insert-IsView k r m fine v = update-IsView k (λ _. r) m fine v

-- The runner that a step reads or makes is sound.
pub or_new_runner_sound :
    (k : String) (m : Map Runner) → IsView m → is_unsound (k, or_new_runner k (lookup k m)) ≡ false
unfolding IsView
or_new_runner_sound k m (once, sound) = elim (Option-cases (lookup k m)) [
  | inl e ↦ rw e (new_runner-is_unsound k)
  | inr (r, e) ↦ rw e (lookup-fine is_unsound k r m sound e)
]

pub with_runner-IsView :
    (k : String) (f : Runner → Runner) (m : Map Runner)
    → ((r : Runner) → is_unsound (k, r) ≡ false → is_unsound (k, f r) ≡ false)
    → IsView m
    → IsView (with_runner k f m)
unfolding with_runner
with_runner-IsView k f m keeps v =
    update-IsView k (λ o. f (or_new_runner k o)) m (keeps _ (or_new_runner_sound k m v)) v

pub set_instances-IsView :
    (is : Map Instance) (m : Map Runner) → IsView m → IsView (set_instances is m)
unfolding set_instances
set_instances-IsView [] m v = v
set_instances-IsView ((k, i) ∷ is) m v =
    set_instances-IsView is _
      (with_runner-IsView k (λ r. record r { instance_of = some i }) m (λ r h. h) v)

pub set_disks-IsView : (ds : Map Disk) (m : Map Runner) → IsView m → IsView (set_disks ds m)
unfolding set_disks
set_disks-IsView [] m v = v
set_disks-IsView ((k, d) ∷ ds) m v =
    set_disks-IsView ds _ (with_runner-IsView k (λ r. record r { disk = some d }) m (λ r h. h) v)

module _ (w : World) where
  change_runner-IsView :
      (k : String) (p : TeardownPolicy) (m : Map Runner) (l : Log)
      → IsView m
      → IsView (change_runner k (mark_for_teardown w p) m l).0
  unfolding change_runner
  change_runner-IsView k p m l v =
      insert-IsView k _ m
        (mark-is_unsound w k p (or_new_runner k (lookup k m)) l (or_new_runner_sound k m v)) v

  apply_job_status-IsView :
      (k : String) (status : JobStatus) (m : Map Runner) (l : Log)
      → IsView m
      → IsView (apply_job_status w k status m l).0
  unfolding apply_job_status
  apply_job_status-IsView k started m l v =
      with_runner-IsView k job_started m (job_started-is_unsound k) v
  apply_job_status-IsView k completed m l v = change_runner-IsView k permanent m l v
  apply_job_status-IsView k (unknown_status _) m l v = v

  pub apply_job_events-IsView :
      (es : List JobEvent) (m : Map Runner) (l : Log)
      → IsView m
      → IsView (apply_job_events w es m l).0
  unfolding apply_job_events
  apply_job_events-IsView [] m l v = v
  apply_job_events-IsView (e ∷ es) m l v =
      let (m', l') = apply_job_status w e.runner_name e.job_status m l in
      apply_job_events-IsView es m' l' (apply_job_status-IsView e.runner_name e.job_status m l v)

  pub track_workers-IsView :
      (xs : List Worker) (m : Map Runner) (l : Log) → IsView m → IsView (track_workers w xs m l).0.1
  unfolding track_workers
  track_workers-IsView [] m l v = v
  track_workers-IsView (x ∷ xs) m l v = elim (Bool-cases (provision_failed x.progress)) [
    | inl bad ↦
        rw (bad, track_workers)
          (track_workers-IsView xs _ _ (change_runner-IsView x.name permanent m l v))
    | inr good ↦
        rw (good, track_workers)
          (track_workers-IsView xs _ _ (
            with_runner-IsView x.name
              (λ r. record r { instance_of = instance_created_of x.progress }) m (λ r h. h) v))
  ]

  pub mark_selected-IsView :
      (xs : List (String × Runner)) (next : Time) (m : Map Runner) (l : Log)
      → IsView m
      → IsView (mark_selected w xs next m l).0.1
  unfolding mark_selected
  mark_selected-IsView [] next m l v = v
  mark_selected-IsView ((k, _) ∷ xs) next m l v =
      let (r, l') = mark_for_teardown w cancelable (or_new_runner k (lookup k m)) l in
      mark_selected-IsView xs (earlier next (removal_after r.teardown)) (insert k r m) l' (
        insert-IsView k r m
          (mark-is_unsound w k cancelable (or_new_runner k (lookup k m)) l
            (or_new_runner_sound k m v))
          v)
