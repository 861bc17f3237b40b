-- ===== src/Scaler/Capacity/Bound.antt =====
-- Scaling up and down, and the number of instances.
use oxide_gha_runner_scale_s.Prelude.{
  ℕ, String, Bool, true, false, ◌+◌, ◌-◌, ◌≡◌, ◌≤◌, refl, ap, ◌∙◌, [], ◌∷◌, List, arith, length,
  Bool-cases, inl, inr, take, is_some, max, ltb, ◌==◌,
}
use oxide_gha_runner_scale_s.GoMap.{Map, lookup, insert, count_values-update}
use oxide_gha_runner_scale_s.GoTime.{Time, zero_time}
use oxide_gha_runner_scale_s.Api.{Log, Image, Result, ok, err}
use oxide_gha_runner_scale_s.Scaler.Runner.{
  Runner, or_new_runner, with_runner, has_instance, instance_count, TeardownPolicy, permanent,
  cancelable,
}
use oxide_gha_runner_scale_s.Scaler.World.{World, Scaler}
use oxide_gha_runner_scale_s.Scaler.Mark.{mark_for_teardown}
use oxide_gha_runner_scale_s.Scaler.Handler.{change_runner}
use oxide_gha_runner_scale_s.Scaler.Provision.{
  Worker, track_workers, provision_failed, instance_created_of, provision_runners, run_workers,
  fetch_image,
}
use oxide_gha_runner_scale_s.Scaler.Provision.Requests.{creations, run_workers-creations}
use oxide_gha_runner_scale_s.Scaler.Capacity.{
  retry_if, candidates, sort_by_age, scale_up, scale_down, provision_requested, requested_runners,
  mark_selected,
}

-- Marking leaves the instance alone.
mark_for_teardown-instance :
    (w : World) (p : TeardownPolicy) (r : Runner) (l : Log)
    → (mark_for_teardown w p r l).0.instance_of ≡ r.instance_of
unfolding mark_for_teardown
mark_for_teardown-instance w p r l = refl

-- A write that keeps whether the runner has an instance keeps the count.
insert-instance_count :
    (k : String) (r : Runner) (m : Map Runner)
    → is_some r.instance_of ≡ is_some (or_new_runner k (lookup k m)).instance_of
    → instance_count (insert k r m) ≡ instance_count m
unfolding insert instance_count
insert-instance_count k r m same = ground (arith, count_values-update has_instance k (λ _. r) m)

with_runner-instance_count :
    (k : String) (f : Runner → Runner) (m : Map Runner)
    → instance_count (with_runner k f m) ≤ instance_count m + 1
unfolding with_runner instance_count
with_runner-instance_count k f m =
    ground (arith, count_values-update has_instance k (λ o. f (or_new_runner k o)) m)

module _ (w : World) where
  change_runner-instance_count :
      (k : String) (p : TeardownPolicy) (m : Map Runner) (l : Log)
      → instance_count (change_runner k (mark_for_teardown w p) m l).0 ≡ instance_count m
  unfolding change_runner
  change_runner-instance_count k p m l =
      insert-instance_count k _ m
        (ap is_some (mark_for_teardown-instance w p (or_new_runner k (lookup k m)) l))

  change_runner-creations :
      (k : String) (m : Map Runner) (l : Log)
      → creations (change_runner k (mark_for_teardown w permanent) m l).1 ≡ creations l
  unfolding change_runner mark_for_teardown
  change_runner-creations k m l = ground arith

  retry_if-creations : (b : Bool) (l : Log) → creations (retry_if w b l).1 ≡ creations l
  unfolding retry_if
  retry_if-creations true l = omega arith
  retry_if-creations false l = refl

  track_workers-instance_count :
      (xs : List Worker) (m : Map Runner) (l : Log)
      → instance_count (track_workers w xs m l).0.1 ≤ instance_count m + length xs
  unfolding track_workers
  track_workers-instance_count [] m l = omega arith
  track_workers-instance_count (x ∷ xs) m l = elim (Bool-cases (provision_failed x.progress)) [
    | inl bad ↦
        rw (bad, track_workers)
          (omega (
            arith,
            track_workers-instance_count xs
                (change_runner x.name (mark_for_teardown w permanent) m l).0
                (change_runner x.name (mark_for_teardown w permanent) m l).1,
            change_runner-instance_count x.name permanent m l,
          ))
    | inr good ↦
        rw (good, track_workers)
          (omega (
            arith,
            track_workers-instance_count xs
                (with_runner x.name (λ r. record r { instance_of = instance_created_of x.progress })
                  m)
                l,
            with_runner-instance_count x.name
                (λ r. record r { instance_of = instance_created_of x.progress }) m,
          ))
  ]

  mark_selected-instance_count :
      (xs : List (String × Runner)) (next : Time) (m : Map Runner) (l : Log)
      → instance_count (mark_selected w xs next m l).0.1 ≡ instance_count m
  unfolding mark_selected
  mark_selected-instance_count [] next m l = refl
  mark_selected-instance_count ((k, _) ∷ xs) next m l = omega (
    arith,
    mark_selected-instance_count xs _ _ _,
    insert-instance_count k _ m
        (ap is_some (mark_for_teardown-instance w cancelable (or_new_runner k (lookup k m)) l)),
  )

  provision_runners-instance_count :
      (s : Scaler) (m : Map Runner) (image : Image) (n : ℕ) (l : Log)
      → instance_count (provision_runners w s m image n l).0.1 ≤ instance_count m + n
  unfolding provision_runners
  provision_runners-instance_count s m image n l =
      let (xs, l') = run_workers w s image n l in
      omega (arith, track_workers-instance_count xs m l', run_workers-creations w s image n l)

  track_workers-creations :
      (xs : List Worker) (m : Map Runner) (l : Log)
      → creations (track_workers w xs m l).1 ≡ creations l
  unfolding track_workers
  track_workers-creations [] m l = refl
  track_workers-creations (x ∷ xs) m l = elim (Bool-cases (provision_failed x.progress)) [
    | inl bad ↦
        rw (bad, track_workers)
          (track_workers-creations xs (change_runner x.name (mark_for_teardown w permanent) m l).0
              (change_runner x.name (mark_for_teardown w permanent) m l).1
            ∙ change_runner-creations x.name m l)
    | inr good ↦
        rw (good, track_workers)
          (track_workers-creations xs
            (with_runner x.name (λ r. record r { instance_of = instance_created_of x.progress }) m)
            l)
  ]

  provision_runners-creations :
      (s : Scaler) (m : Map Runner) (image : Image) (n : ℕ) (l : Log)
      → creations (provision_runners w s m image n l).1 ≤ creations l + n
  unfolding provision_runners
  provision_runners-creations s m image n l =
      let (xs, l') = run_workers w s image n l in
      omega (arith, track_workers-creations xs m l', run_workers-creations w s image n l)

  fetch_image-creations : (s : Scaler) (l : Log) → creations (fetch_image w s l).1 ≡ creations l
  unfolding fetch_image
  fetch_image-creations s l = ground arith

  -- The bound for a number of requested runners.
  abbrev Within : ℕ → Map Runner → Log → (Time × Map Runner) × Log → Type 0
  Within n m l (res, l') =
      (instance_count res.1 ≤ instance_count m + n) × (creations l' ≤ creations l + n)

  provision_requested-Within :
      (s : Scaler) (m : Map Runner) (n : ℕ) (image : Result Image) (l : Log)
      → Within n m l (provision_requested w s m n image l)
  unfolding provision_requested
  provision_requested-Within s m n (err e) l = (omega arith, omega arith)
  provision_requested-Within s m n (ok image) l =
      let (res, l') = provision_runners w s m image n l in
      omega (
        arith,
        provision_runners-instance_count s m image n l,
        provision_runners-creations s m image n l,
        retry_if-creations (ltb (length res.0) n) l',
      )

  scale_up-Within :
      (s : Scaler) (m : Map Runner) (active target : ℕ) (l : Log)
      → Within (requested_runners s m active target) m l (scale_up w s m active target l)
  unfolding scale_up
  scale_up-Within s m active target l =
      elim (Bool-cases (requested_runners s m active target == 0)) [
        | inl nothing ↦ rw (nothing, scale_up) (omega arith, omega arith)
        | inr more ↦
            rw (more, scale_up)
              (let (image, l') = fetch_image w s l in
                omega (
                  arith,
                  fetch_image-creations s l,
                  provision_requested-Within s m (requested_runners s m active target) image l',
                ))
      ]

-- One scaling up never leads beyond the maximum of runners, or the number of instances that there
-- are if that is larger, and requests no more instances than the maximum leaves room for and than
-- the target wants; this whatever GitHub and Oxide answer, and in whatever order the goroutines run.
pub scale_up_bounded :
    (w : World) (s : Scaler) (m : Map Runner) (active target : ℕ) (l : Log)
    → let (res, l') = scale_up w s m active target l in
      (instance_count res.1 ≤ max (instance_count m) s.max_runners)
      × (creations l' ≤ creations l + (s.max_runners - instance_count m))
      × (creations l' ≤ creations l + (target - active))
unfolding requested_runners
scale_up_bounded w s m active target l = omega (arith, scale_up-Within w s m active target l)

pub scale_down-instance_count :
    (w : World) (m : Map Runner) (active target : ℕ) (l : Log)
    → instance_count (scale_down w m active target l).0.1 ≡ instance_count m
unfolding scale_down
scale_down-instance_count w m active target l =
    let (found, l') = candidates w (w.range l m) l in
    mark_selected-instance_count w (take (active - target) (sort_by_age found)) zero_time m l'
