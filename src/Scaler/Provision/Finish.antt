-- ===== src/Scaler/Provision/Finish.antt =====
-- `wg.Wait()` comes to an end: every goroutine of a batch is done, whatever the schedule.
use oxide_gha_runner_scale_s.Prelude.{
  ℕ, suc, String, Bool, true, false, ◌≡◌, refl, ap, sym, subst, ◌∙◌, [], ◌∷◌, ◌++◌, List, arith,
  ltb, Bool-cases, inl, inr, All, length,
}
use mathlib.Core.List.{append_assoc, append-nil}
use oxide_gha_runner_scale_s.Api.{Log, Image, Instance, Result, ok, err}
use oxide_gha_runner_scale_s.Scaler.World.{World, Scaler}
use oxide_gha_runner_scale_s.Scaler.Provision.{
  registered, Worker, Progress, waiting, registering, creating_instance, done,
  provision_concurrency, new_workers, run_workers, three_each,
}
use oxide_gha_runner_scale_s.Scaler.Provision.Counted.{
  counted_advance, counted_advance_at, counted_step_worker, counted_run_schedule, in_flight,
  run_workers-counted, counted_run_workers,
}
use oxide_gha_runner_scale_s.Scaler.Provision.Requests.{
  is_undone, undone, run_workers-creations, counted_run_schedule-creations, new_workers-undone,
}

-- A worker that has its place only while it runs.
abbrev is_settled : Progress → Bool
is_settled waiting = true
is_settled registering = false
is_settled (creating_instance _) = false
is_settled (done _) = true

abbrev worker : String → Progress → Worker
worker name p = record { name = name; progress = p }

module _ (w : World) (s : Scaler) (image : Image) where
  -- The worker behind a part of the list is the one at that part's length.
  counted_advance_at-middle :
      (free : Bool) (xs : List Worker) (x : Worker) (ys : List Worker) (l : Log)
      → let (p, l') = counted_advance w s image free x.name x.progress l in
        counted_advance_at w s image free (length xs) (xs ++ x ∷ ys) l
        ≡ (xs ++ worker x.name p ∷ ys, l')
  unfolding counted_advance_at
  counted_advance_at-middle free [] x ys l = refl
  counted_advance_at-middle free (z ∷ xs) x ys l = rw (counted_advance_at-middle free xs x ys l)

  -- Whether a goroutine may start.
  abbrev has_place : List Worker → Bool
  has_place xs = ltb (in_flight xs) provision_concurrency

  step_middle :
      (xs ys : List Worker) (rest : List ℕ) (name : String) (p : Progress) (l : Log)
      → let here = xs ++ worker name p ∷ ys in
        let (p', l') = counted_advance w s image (has_place here) name p l in
        counted_run_schedule w s image (length xs ∷ rest) here l
        ≡ counted_run_schedule w s image rest (xs ++ worker name p' ∷ ys) l'
  unfolding counted_run_schedule counted_step_worker
  step_middle xs ys rest name p l =
      rw (counted_advance_at-middle (has_place (xs ++ worker name p ∷ ys)) xs (worker name p) ys l)

  module _ (xs ys : List Worker) (name : String) where
    abbrev at : Progress → List Worker
    at p = xs ++ worker name p ∷ ys

    abbrev middle : ℕ
    middle = length xs

    -- Some steps of the worker in the middle lead to a progress with a property.
    abbrev Goes : List ℕ → (Progress → Type 0) → List ℕ → Progress → Log → Type 0
    Goes is P rest p l =
        (p' : Progress) × (l' : Log) × (counted_run_schedule w s image (is ++ rest) (at p) l
          ≡ counted_run_schedule w s image rest (at p') l')
        × P p'

    abbrev IsDone : Progress → Type 0
    IsDone p = is_undone p ≡ false

    done_stays :
        (r : Result Instance) (rest : List ℕ) (l : Log) → Goes (middle ∷ []) IsDone rest (done r) l
    unfolding counted_advance
    done_stays r rest l = (done r, l, step_middle xs ys rest name (done r) l, refl)

    registered-IsDone :
        (a : Result String) (rest : List ℕ) (l : Log)
        → Goes (middle ∷ []) IsDone rest (registered a) l
    unfolding counted_advance
    registered-IsDone (err e) rest l = (_, l, step_middle xs ys rest name _ l, refl)
    registered-IsDone (ok jit) rest l =
        (_, _, step_middle xs ys rest name (creating_instance jit) l, refl)

    -- One step after another.
    Goes-on :
        (p : Progress) (is : List ℕ) (rest : List ℕ) (l l₁ : Log) (p₁ : Progress)
        → counted_run_schedule w s image (middle ∷ is ++ rest) (at p) l
          ≡ counted_run_schedule w s image (is ++ rest) (at p₁) l₁
        → Goes is IsDone rest p₁ l₁
        → Goes (middle ∷ is) IsDone rest p l
    Goes-on p is rest l l₁ p₁ e (p', l', e', d) = (p', l', e ∙ e', d)

    done_stays_twice :
        (r : Result Instance) (rest : List ℕ) (l : Log)
        → Goes (middle ∷ middle ∷ []) IsDone rest (done r) l
    unfolding counted_advance
    done_stays_twice r rest l =
        Goes-on (done r) (middle ∷ []) rest l l (done r)
          (step_middle xs ys (middle ∷ rest) name (done r) l) (done_stays r rest l)

    registering-IsDone :
        (rest : List ℕ) (l : Log) → Goes (middle ∷ middle ∷ []) IsDone rest registering l
    unfolding counted_advance
    registering-IsDone rest l =
        Goes-on registering (middle ∷ []) rest l _ _
          (step_middle xs ys (middle ∷ rest) name registering l) (registered-IsDone _ rest _)

    registered-IsDone_twice :
        (a : Result String) (rest : List ℕ) (l : Log)
        → Goes (middle ∷ middle ∷ []) IsDone rest (registered a) l
    unfolding counted_advance
    registered-IsDone_twice (err e) rest l = done_stays_twice _ rest l
    registered-IsDone_twice (ok jit) rest l =
        Goes-on (creating_instance jit) (middle ∷ []) rest l _ _
          (step_middle xs ys (middle ∷ rest) name (creating_instance jit) l) (done_stays _ rest _)

    abbrev thrice : List ℕ
    thrice = middle ∷ middle ∷ middle ∷ []

    -- A worker that holds a place, or finds one free, is done after three steps.
    three-IsDone :
        (p : Progress) (rest : List ℕ) (l : Log)
        → (p ≡ waiting → has_place (at p) ≡ true)
        → Goes thrice IsDone rest p l
    unfolding counted_advance
    three-IsDone waiting rest l free =
        Goes-on waiting (middle ∷ middle ∷ []) rest l l registering
          (step_middle xs ys (middle ∷ middle ∷ rest) name waiting l ∙ rw (free refl))
          (registering-IsDone rest l)
    three-IsDone registering rest l free =
        Goes-on registering (middle ∷ middle ∷ []) rest l _ _
          (step_middle xs ys (middle ∷ middle ∷ rest) name registering l)
          (registered-IsDone_twice _ rest _)
    three-IsDone (creating_instance jit) rest l free =
        Goes-on (creating_instance jit) (middle ∷ middle ∷ []) rest l _ _
          (step_middle xs ys (middle ∷ middle ∷ rest) name (creating_instance jit) l)
          (done_stays_twice _ rest _)
    three-IsDone (done r) rest l free =
        Goes-on (done r) (middle ∷ middle ∷ []) rest l l (done r)
          (step_middle xs ys (middle ∷ middle ∷ rest) name (done r) l) (done_stays_twice r rest l)

    abbrev IsSettled : Progress → Type 0
    IsSettled p = is_settled p ≡ true

    -- A worker that waits before a full semaphore goes on waiting.
    three_blocked :
        (rest : List ℕ) (l : Log)
        → has_place (at waiting) ≡ false
        → counted_run_schedule w s image (thrice ++ rest) (at waiting) l
          ≡ counted_run_schedule w s image rest (at waiting) l
    unfolding counted_advance
    three_blocked rest l full =
        step_middle xs ys (middle ∷ middle ∷ rest) name waiting l
        ∙ rw full (
            step_middle xs ys (middle ∷ rest) name waiting l
            ∙ rw full (step_middle xs ys rest name waiting l ∙ rw full))

    IsSettled-of_done : (p : Progress) → IsDone p → IsSettled p
    IsSettled-of_done waiting d = cc
    IsSettled-of_done registering d = cc
    IsSettled-of_done (creating_instance _) d = cc
    IsSettled-of_done (done _) d = refl

    three-IsSettled : (p : Progress) (rest : List ℕ) (l : Log) → Goes thrice IsSettled rest p l
    three-IsSettled waiting rest l = elim (Bool-cases (has_place (at waiting))) [
      | inl free ↦
          let (p', l', e, d) = three-IsDone waiting rest l (λ _. free) in
          (p', l', e, IsSettled-of_done p' d)
      | inr full ↦ (waiting, l, three_blocked rest l full, refl)
    ]
    three-IsSettled p rest l =
        let (p', l', e, d) = three-IsDone p rest l (λ q. cc) in (p', l', e, IsSettled-of_done p' d)

abbrev AllDone : List Worker → Type 0
AllDone = All (λ x. is_undone x.progress ≡ false)

abbrev AllSettled : List Worker → Type 0
AllSettled = All (λ x. is_settled x.progress ≡ true)

All-snoc {ℓ κ} :
    {A : Type ℓ} (P : A → Type κ) (xs : List A) (x : A) → All P xs → P x → All P (xs ++ x ∷ [])
All-snoc P [] x h k = (k, tt)
All-snoc P (y ∷ xs) x h k = (h.0, All-snoc P xs x h.1 k)

AllSettled-in_flight : (xs : List Worker) → AllSettled xs → in_flight xs ≡ 0
unfolding in_flight
AllSettled-in_flight [] h = refl
AllSettled-in_flight (x ∷ xs) h = ground (arith, AllSettled-in_flight xs h.1)

AllDone-settled : (xs : List Worker) → AllDone xs → AllSettled xs
AllDone-settled [] h = tt
AllDone-settled (x ∷ xs) h = (ground arith, AllDone-settled xs h.1)

AllDone-undone : (xs : List Worker) → AllDone xs → undone xs ≡ 0
AllDone-undone [] h = refl
AllDone-undone (x ∷ xs) h = ground (arith, AllDone-undone xs h.1)

length-snoc {ℓ} : {A : Type ℓ} (xs : List A) (x : A) → length (xs ++ x ∷ []) ≡ suc (length xs)
length-snoc [] x = refl
length-snoc (y ∷ xs) x = ap suc (length-snoc xs x)

All-append {ℓ κ} :
    {A : Type ℓ} (P : A → Type κ) (xs ys : List A) → All P xs → All P ys → All P (xs ++ ys)
All-append P [] ys h k = k
All-append P (x ∷ xs) ys h k = (h.0, All-append P xs ys h.1 k)

place_is_free :
    (w : World) (s : Scaler) (image : Image) (xs : List Worker)
    → AllSettled xs
    → has_place w s image xs ≡ true
place_is_free w s image xs h = ground (arith, AllSettled-in_flight xs h)

module _ (w : World) (s : Scaler) (image : Image) where
  -- The three steps of each worker behind a part of the list.
  abbrev pass : List Worker → List Worker → Log → List Worker
  pass xs ys l =
      (counted_run_schedule w s image (three_each (length ys) (length xs)) (xs ++ ys) l).0

  -- After the steps of one worker, it belongs to the part before.
  pass_on :
      (P : List Worker → Type 0) (xs ys : List Worker) (x : Worker) (l : Log)
      → P (pass (xs ++ x ∷ []) ys l)
      → P
          (counted_run_schedule w s image
            (three_each (length ys) (suc (length xs)))
            (xs ++ x ∷ ys)
            l).0
  pass_on P xs ys x l h = rw (← length-snoc xs x, ← append_assoc xs (x ∷ []) ys) h

  pass_settles : (xs ys : List Worker) (l : Log) → AllSettled xs → AllSettled (pass xs ys l)
  unfolding three_each counted_run_schedule
  pass_settles xs [] l h = rw (append-nil xs) h
  pass_settles xs (y ∷ ys) l h =
      let (p, l', e, d) =
        three-IsSettled w s image xs ys y.name y.progress (three_each (length ys) (suc (length xs)))
          l in
      subst (λ z. AllSettled z.0) (sym e)
        (pass_on AllSettled xs ys (worker y.name p) l'
          (pass_settles (xs ++ worker y.name p ∷ []) ys l' (All-snoc _ xs (worker y.name p) h d)))

  pass_finishes :
      (xs ys : List Worker) (l : Log) → AllDone xs → AllSettled ys → AllDone (pass xs ys l)
  unfolding three_each counted_run_schedule
  pass_finishes xs [] l h k = rw (append-nil xs) h
  pass_finishes xs (y ∷ ys) l h k =
      let free : has_place w s image (xs ++ y ∷ ys) ≡ true =
        place_is_free w s image (xs ++ y ∷ ys)
          (All-append _ xs (y ∷ ys) (AllDone-settled xs h) k) in
      let (p, l', e, d) =
        three-IsDone w s image xs ys y.name y.progress (three_each (length ys) (suc (length xs))) l
          (λ _. free) in
      subst (λ z. AllDone z.0) (sym e)
        (pass_on AllDone xs ys (worker y.name p) l' (
          pass_finishes (xs ++ worker y.name p ∷ []) ys l' (All-snoc _ xs (worker y.name p) h d)
            k.1))

-- Two passes over as many workers as there are finish all of them.
two_passes :
    (w : World) (s : Scaler) (image : Image) (n : ℕ) (xs : List Worker) (l : Log)
    → length xs ≡ n
    → let (ys, l') = counted_run_schedule w s image (three_each n 0) xs l in
      AllDone (counted_run_schedule w s image (three_each n 0) ys l').0
two_passes w s image n xs l e =
    let settled = pass_settles w s image [] xs l tt in
    let (ys, l') = counted_run_schedule w s image (three_each n 0) xs l in
    let same : length ys ≡ n =
      (counted_run_schedule-creations w s image (three_each n 0) xs l).1 ∙ e in
    subst (λ k. AllDone (counted_run_schedule w s image (three_each k 0) ys l').0) same
      (pass_finishes w s image [] ys l' tt (
        subst (λ k. AllSettled (counted_run_schedule w s image (three_each k 0) xs l).0) e settled))

-- Every goroutine of a batch is done when the batch ends, and the results are as many as the runners
-- that were asked for: whatever the schedule, the number of runners and the answers.
pub run_workers-done :
    (w : World) (s : Scaler) (image : Image) (count : ℕ) (l : Log)
    → (length (run_workers w s image count l).0 ≡ count)
      × (undone (run_workers w s image count l).0 ≡ 0)
unfolding counted_run_workers
run_workers-done w s image count l =
    let (xs, l') = counted_run_schedule w s image (w.schedule l) (new_workers w s l count 0) l in
    (
      (run_workers-creations w s image count l).1,
      rw (run_workers-counted w s image count l) (
          AllDone-undone _ (
            two_passes w s image count xs l' (
              (counted_run_schedule-creations w s image (w.schedule l) (new_workers w s l count 0)
                l).1
              ∙ (new_workers-undone w s image l count 0).1))),
    )
