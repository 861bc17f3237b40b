-- ===== src/Scaler/Provision/Places.antt =====
-- The semaphore of `provisionRunners`.
use oxide_gha_runner_scale_s.Prelude.{
  ap, sym, ◌∙◌, ℕ, zero, suc, String, Bool, true, false, ◌+◌, ◌≡◌, ◌≤◌, refl, [], ◌∷◌, List, bit,
  arith, ltb,
}
use oxide_gha_runner_scale_s.Api.{Log, Image}
use oxide_gha_runner_scale_s.Scaler.World.{World, Scaler}
use oxide_gha_runner_scale_s.Scaler.Provision.{
  run_schedule, Worker, Progress, waiting, registering, creating_instance, done,
  provision_concurrency, new_workers,
}
use oxide_gha_runner_scale_s.Scaler.Provision.Counted.{
  at_calls, counted_advance, counted_advance_at, counted_step_worker, counted_run_schedule,
  in_flight, run_schedule-counted, new_workers-in_flight,
}

module _ (w : World) (s : Scaler) (image : Image) where
  counted_advance-place :
      (free : Bool) (name : String) (p : Progress) (l : Log)
      → bit (at_calls (counted_advance w s image free name p l).0) ≤ bit (at_calls p) + bit free
  unfolding counted_advance
  counted_advance-place true name waiting l = omega arith
  counted_advance-place false name waiting l = omega arith
  counted_advance-place free name registering l = ground arith
  counted_advance-place free name (creating_instance jit) l = ground arith
  counted_advance-place free name (done r) l = omega arith

  counted_advance_at-in_flight :
      (free : Bool) (i : ℕ) (xs : List Worker) (l : Log)
      → in_flight (counted_advance_at w s image free i xs l).0 ≤ in_flight xs + bit free
  unfolding counted_advance_at in_flight
  counted_advance_at-in_flight free i [] l = omega arith
  counted_advance_at-in_flight free zero (x ∷ xs) l =
      omega (arith, counted_advance-place free x.name x.progress l)
  counted_advance_at-in_flight free (suc i) (x ∷ xs) l =
      omega (arith, counted_advance_at-in_flight free i xs l)

  counted_step_worker-in_flight :
      (i : ℕ) (xs : List Worker) (l : Log)
      → in_flight xs ≤ provision_concurrency
      → in_flight (counted_step_worker w s image i xs l).0 ≤ provision_concurrency
  unfolding counted_step_worker
  counted_step_worker-in_flight i xs l h =
      ground (arith, counted_advance_at-in_flight (ltb (in_flight xs) provision_concurrency) i xs l)

  counted_run_schedule-in_flight :
      (is : List ℕ) (xs : List Worker) (l : Log)
      → in_flight xs ≤ provision_concurrency
      → in_flight (counted_run_schedule w s image is xs l).0 ≤ provision_concurrency
  unfolding counted_run_schedule
  counted_run_schedule-in_flight [] xs l h = h
  counted_run_schedule-in_flight (i ∷ is) xs l h =
      let (xs', l') = counted_step_worker w s image i xs l in
      counted_run_schedule-in_flight is xs' l' (counted_step_worker-in_flight i xs l h)

-- At every moment, after any steps of the goroutines in any order, at most five of them are at one of
-- their calls or between the two, however many runners are provisioned; and the channel `semaphore`
-- holds as many items as goroutines are there.
pub run_schedule_places :
    (w : World) (s : Scaler) (image : Image) (count : ℕ) (is : List ℕ) (l l' : Log)
    → let (items, xs) = (run_schedule w s image is 0 (new_workers w s l count 0) l').0 in
      (in_flight xs ≤ 5) × (items ≡ in_flight xs)
run_schedule_places w s image count is l l' =
    let start = new_workers w s l count 0 in
    let none_yet = new_workers-in_flight w s l count 0 in
    let counted : run_schedule w s image is 0 start l' ≡ (
      (
        in_flight (counted_run_schedule w s image is start l').0,
        (counted_run_schedule w s image is start l').0,
      ),
      (counted_run_schedule w s image is start l').1,
    ) =
      ap (λ n. run_schedule w s image is n start l') (sym none_yet)
      ∙ run_schedule-counted w s image is start l' in
    rw counted
      (counted_run_schedule-in_flight w s image is start l' (omega (arith, none_yet)), refl)
