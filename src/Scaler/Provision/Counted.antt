-- ===== src/Scaler/Provision/Counted.antt =====
-- The channel `semaphore` counts the goroutines that are at their calls: the runs with the channel are
-- the runs in which a goroutine may start exactly while fewer than five are at their calls.
use oxide_gha_runner_scale_s.Prelude.{
  ℕ, zero, suc, String, Bool, true, false, ◌+◌, ◌≡◌, ◌≤◌, refl, sym, ◌∙◌, List, [], ◌∷◌, ltb,
  if◌then◌else◌, count_if, bit, arith, ap,
}
use native.Mathlib.Nat.{le_refl}
use oxide_gha_runner_scale_s.Api.{Log, Image}
use oxide_gha_runner_scale_s.Api.Effect.{Effect, pure, ◌>>=◌}
use oxide_gha_runner_scale_s.Scaler.World.{World, Scaler}
use oxide_gha_runner_scale_s.Scaler.Provision.{
  Worker, Progress, waiting, registering, creating_instance, done, provision_concurrency,
  provision_step, advance, advance_at, run_schedule, run_workers, new_workers, three_each,
}

-- A goroutine at one of the two calls of `provisionRunner`, or between them.
abbrev pub at_calls : Progress → Bool
at_calls waiting = false
at_calls registering = true
at_calls (creating_instance _) = true
at_calls (done _) = false

unfoldable pub in_flight : List Worker → ℕ
in_flight = count_if (λ x. at_calls x.progress)

-- One step of a goroutine; `free` says whether it may start.
unfoldable pub counted_advance : World → Scaler → Image → Bool → String → Progress → Effect Progress
unfolding provision_step
counted_advance w s image free name waiting = pure (if free then registering else waiting)
counted_advance w s image free name p = provision_step w s image name p

unfoldable pub counted_advance_at :
    World → Scaler → Image → Bool → ℕ → List Worker → Effect (List Worker)
unfolding counted_advance
counted_advance_at w s image free i [] = pure []
counted_advance_at w s image free zero (x ∷ xs) = do
  p ← counted_advance w s image free x.name x.progress
  pure (record x { progress = p } ∷ xs)
counted_advance_at w s image free (suc i) (x ∷ xs) = do
  xs' ← counted_advance_at w s image free i xs
  pure (x ∷ xs')

unfoldable pub counted_step_worker : World → Scaler → Image → ℕ → List Worker → Effect (List Worker)
unfolding counted_advance_at in_flight
counted_step_worker w s image i xs =
    counted_advance_at w s image (ltb (in_flight xs) provision_concurrency) i xs

unfoldable pub counted_run_schedule :
    World → Scaler → Image → List ℕ → List Worker → Effect (List Worker)
unfolding counted_step_worker
counted_run_schedule w s image [] xs = pure xs
counted_run_schedule w s image (i ∷ is) xs = do
  xs' ← counted_step_worker w s image i xs
  counted_run_schedule w s image is xs'

unfoldable pub counted_run_workers : World → Scaler → Image → ℕ → Effect (List Worker)
unfolding counted_run_schedule three_each new_workers
counted_run_workers w s image count l =
    let schedule = w.schedule l in
    let start = new_workers w s l count 0 in
    (do
      xs ← counted_run_schedule w s image schedule start
      ys ← counted_run_schedule w s image (three_each count 0) xs
      counted_run_schedule w s image (three_each count 0) ys)
      l

module _ (w : World) (s : Scaler) (image : Image) where
  -- A step of a goroutine is the counted step, and keeps the number of items in the channel equal to
  -- the number of goroutines at their calls.
  abbrev Agrees : ℕ → Bool → (ℕ × Progress) × Log → Progress × Log → Type 0
  Agrees items was ((items', p), l) (q, l') =
      (p ≡ q) × (l ≡ l') × (items' + bit was ≡ items + bit (at_calls p))

  advance-counted :
      (name : String) (items : ℕ) (p : Progress) (l : Log)
      → bit (at_calls p) ≤ items
      → Agrees items
          (at_calls p)
          (advance w s image name items p l)
          (counted_advance w s image (ltb items provision_concurrency) name p l)
  unfolding advance counted_advance
  advance-counted name items waiting l room = ground arith
  advance-counted name items registering l room = ground arith
  advance-counted name items (creating_instance jit) l room = ground arith
  advance-counted name items (done r) l room = (refl, refl, omega arith)

  advance_at-counted :
      (i items : ℕ) (xs : List Worker) (l : Log)
      → in_flight xs ≤ items
      → let ((items', xs'), l') = advance_at w s image i items xs l in
        let (ys, l'') = counted_advance_at w s image (ltb items provision_concurrency) i xs l in
        (xs' ≡ ys) × (l' ≡ l'') × (items' + in_flight xs ≡ items + in_flight ys)
  unfolding advance_at counted_advance_at in_flight
  advance_at-counted i items [] l room = (refl, refl, refl)
  advance_at-counted zero items (x ∷ xs) l room =
      let (same, logs, count) = advance-counted x.name items x.progress l (omega (arith, room)) in
      (
        (λ j. record x { progress = same j } ∷ xs),
        logs,
        omega (arith, count, ap (λ p. bit (at_calls p)) same),
      )
  advance_at-counted (suc i) items (x ∷ xs) l room =
      let (same, logs, count) = advance_at-counted i items xs l (omega (arith, room)) in
      ((λ j. x ∷ same j), logs, omega (arith, count))

  advance_at-counted_step :
      (i : ℕ) (xs : List Worker) (l : Log)
      → let (ys, l') = counted_step_worker w s image i xs l in
        advance_at w s image i (in_flight xs) xs l ≡ ((in_flight ys, ys), l')
  unfolding counted_step_worker
  advance_at-counted_step i xs l =
      let (same, logs, count) = advance_at-counted i (in_flight xs) xs l (le_refl _) in
      let items_are : (advance_at w s image i (in_flight xs) xs l).0.0
          ≡ in_flight (counted_step_worker w s image i xs l).0 =
        omega (arith, count) in
      λ j. ((items_are j, same j), logs j)

  -- From as many items in the channel as there are goroutines at their calls, a run with the channel
  -- is the counted run, and ends with as many items in the channel as there are goroutines at their
  -- calls.
  pub run_schedule-counted :
      (is : List ℕ) (xs : List Worker) (l : Log)
      → let (ys, l') = counted_run_schedule w s image is xs l in
        run_schedule w s image is (in_flight xs) xs l ≡ ((in_flight ys, ys), l')
  unfolding run_schedule counted_run_schedule
  run_schedule-counted [] xs l = refl
  run_schedule-counted (i ∷ is) xs l =
      let (ys, l') = counted_step_worker w s image i xs l in
      ap (λ a. run_schedule w s image is a.0.0 a.0.1 a.1) (advance_at-counted_step i xs l)
      ∙ run_schedule-counted is ys l'

pub new_workers-in_flight :
    (w : World) (s : Scaler) (l : Log) (n i : ℕ) → in_flight (new_workers w s l n i) ≡ 0
unfolding new_workers in_flight
new_workers-in_flight w s l zero i = refl
new_workers-in_flight w s l (suc n) i = omega (arith, new_workers-in_flight w s l n (suc i))

-- A batch with the channel is the counted batch.
pub run_workers-counted :
    (w : World) (s : Scaler) (image : Image) (count : ℕ) (l : Log)
    → run_workers w s image count l ≡ counted_run_workers w s image count l
unfolding run_workers counted_run_workers
run_workers-counted w s image count l =
    let start = new_workers w s l count 0 in
    let (xs, l₁) = counted_run_schedule w s image (w.schedule l) start l in
    let (ys, l₂) = counted_run_schedule w s image (three_each count 0) xs l₁ in
    let first : run_schedule w s image (w.schedule l) 0 start l ≡ ((in_flight xs, xs), l₁) =
      ap (λ n. run_schedule w s image (w.schedule l) n start l)
        (sym (new_workers-in_flight w s l count 0))
      ∙ run_schedule-counted w s image (w.schedule l) start l in
    rw
      (
        first,
        run_schedule-counted w s image (three_each count 0) xs l₁,
        run_schedule-counted w s image (three_each count 0) ys l₂,
      )
      refl
