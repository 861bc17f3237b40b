-- ===== src/Scaler/Provision/Requests.antt =====
-- How many instances the goroutines of one batch request.
use oxide_gha_runner_scale_s.Prelude.{
  ℕ, zero, suc, String, Bool, true, false, ◌+◌, ◌≡◌, ◌≤◌, refl, ap, [], ◌∷◌, List, bit, arith,
  length, count_if, ltb,
}
use oxide_gha_runner_scale_s.Api.{Log, Call, Image, instance_created}
use oxide_gha_runner_scale_s.Scaler.World.{World, Scaler}
use oxide_gha_runner_scale_s.Scaler.Provision.{
  Worker, Progress, waiting, registering, creating_instance, done, provision_concurrency,
  three_each, new_workers, run_workers,
}
use oxide_gha_runner_scale_s.Scaler.Provision.Counted.{
  counted_advance, counted_advance_at, counted_step_worker, counted_run_schedule, in_flight,
  run_workers-counted, counted_run_workers,
}

-- How many instances were requested in a log.
abbrev pub is_creation : Call → Bool
is_creation (instance_created _ _) = true
is_creation _ = false

abbrev pub creations : Log → ℕ
creations l = count_if is_creation l

-- A worker that is not done may still request its instance.
abbrev pub is_undone : Progress → Bool
is_undone (done _) = false
is_undone _ = true

abbrev pub undone : List Worker → ℕ
undone xs = count_if (λ x. is_undone x.progress) xs

module _ (w : World) (s : Scaler) (image : Image) where
  counted_advance-creations :
      (free : Bool) (name : String) (p : Progress) (l : Log)
      → bit (is_undone (counted_advance w s image free name p l).0)
          + creations (counted_advance w s image free name p l).1
        ≤ bit (is_undone p) + creations l
  unfolding counted_advance
  counted_advance-creations true name waiting l = omega arith
  counted_advance-creations false name waiting l = omega arith
  counted_advance-creations free name registering l = ground arith
  counted_advance-creations free name (creating_instance jit) l = ground arith
  counted_advance-creations free name (done r) l = omega arith

  counted_advance_at-creations :
      (free : Bool) (i : ℕ) (xs : List Worker) (l : Log)
      → undone (counted_advance_at w s image free i xs l).0
          + creations (counted_advance_at w s image free i xs l).1
        ≤ undone xs + creations l
  unfolding counted_advance_at
  counted_advance_at-creations free i [] l = omega arith
  counted_advance_at-creations free zero (x ∷ xs) l =
      omega (arith, counted_advance-creations free x.name x.progress l)
  counted_advance_at-creations free (suc i) (x ∷ xs) l =
      omega (arith, counted_advance_at-creations free i xs l)

  counted_advance_at-length :
      (free : Bool) (i : ℕ) (xs : List Worker) (l : Log)
      → length (counted_advance_at w s image free i xs l).0 ≡ length xs
  unfolding counted_advance_at
  counted_advance_at-length free i [] l = refl
  counted_advance_at-length free zero (x ∷ xs) l = refl
  counted_advance_at-length free (suc i) (x ∷ xs) l = ap suc (counted_advance_at-length free i xs l)

  pub counted_run_schedule-creations :
      (is : List ℕ) (xs : List Worker) (l : Log)
      → (undone (counted_run_schedule w s image is xs l).0
            + creations (counted_run_schedule w s image is xs l).1
          ≤ undone xs + creations l)
        × (length (counted_run_schedule w s image is xs l).0 ≡ length xs)
  unfolding counted_run_schedule counted_step_worker
  counted_run_schedule-creations [] xs l = (omega arith, refl)
  counted_run_schedule-creations (i ∷ is) xs l =
      let free = ltb (in_flight xs) provision_concurrency in
      let (xs', l') = counted_advance_at w s image free i xs l in
      omega (
        arith,
        counted_run_schedule-creations is xs' l',
        counted_advance_at-creations free i xs l,
        counted_advance_at-length free i xs l,
      )

  pub new_workers-undone :
      (l : Log) (n i : ℕ)
      → (undone (new_workers w s l n i) ≡ n) × (length (new_workers w s l n i) ≡ n)
  unfolding new_workers
  new_workers-undone l zero i = (refl, refl)
  new_workers-undone l (suc n) i = ground (arith, new_workers-undone l n (suc i))

  counted_run_workers-creations :
      (count : ℕ) (l : Log)
      → (creations (counted_run_workers w s image count l).1 ≤ count + creations l)
        × (length (counted_run_workers w s image count l).0 ≡ count)
  unfolding counted_run_workers
  counted_run_workers-creations count l =
      let start = new_workers w s l count 0 in
      let (xs, l₁) = counted_run_schedule w s image (w.schedule l) start l in
      let (ys, l₂) = counted_run_schedule w s image (three_each count 0) xs l₁ in
      omega (
        arith,
        counted_run_schedule-creations (w.schedule l) start l,
        counted_run_schedule-creations (three_each count 0) xs l₁,
        counted_run_schedule-creations (three_each count 0) ys l₂,
        new_workers-undone l count 0,
      )

  -- The goroutines of one batch request at most one instance each.
  pub run_workers-creations :
      (count : ℕ) (l : Log)
      → (creations (run_workers w s image count l).1 ≤ count + creations l)
        × (length (run_workers w s image count l).0 ≡ count)
  run_workers-creations count l =
      rw (run_workers-counted w s image count l) (counted_run_workers-creations count l)
