-- ===== src/Scaler/Capacity/Idle.antt =====
-- Which runners scaling down marks.
use oxide_gha_runner_scale_s.Prelude.{
  is_none, leb, ℕ, String, Bool, true, not, ◌&&◌, ◌-◌, ◌≡◌, ◌≤◌, ◌⊎◌, inl, inr, refl, arith, Option,
  none, some, List, [], ◌∷◌, count_if, str_eq, str_eq_iff, take, Bool-cases, ap, subst,
}
use oxide_gha_runner_scale_s.GoMap.{Map, lookup, insert, lookup-insert}
use oxide_gha_runner_scale_s.GoTime.{Time, zero_time, add}
use oxide_gha_runner_scale_s.Api.{Log}
use oxide_gha_runner_scale_s.Scaler.Runner.{
  Runner, is_live, cancelable, cancellation_window, or_new_runner,
}
use oxide_gha_runner_scale_s.Scaler.World.{World, RangeVisitsAll}
use oxide_gha_runner_scale_s.Scaler.Capacity.Found.{found_at, chosen-count}
use oxide_gha_runner_scale_s.Scaler.Sound.{IsView}
use oxide_gha_runner_scale_s.Scaler.Teardown.{scale_down_cancellation_delay}
use oxide_gha_runner_scale_s.Scaler.Mark.{resource_grace_period, mark_for_teardown}
use oxide_gha_runner_scale_s.Scaler.Capacity.{
  is_candidate, candidates, sort_by_age, mark_selected, scale_down, created_of, earlier,
  removal_after,
}

-- A runner that scaling down has marked.
abbrev pub marked_until : Time → Runner → Runner
marked_until deadline r = record r {
  teardown = some (record {
    policy = cancelable;
    phase = cancellation_window;
    registration_removal_after = deadline;
  });
}

mark_unmarked :
    (w : World) (r : Runner) (l : Log)
    → r.teardown ≡ none
    → (mark_for_teardown w cancelable r l).0
      ≡ marked_until (add (w.now l) scale_down_cancellation_delay) r
unfolding mark_for_teardown
mark_unmarked w r l bare = rw bare refl

module _ (until : Time) where
  -- A runner with a live instance that has outlived its grace period, not busy and without a teardown.
  abbrev pub is_idle : Runner → Bool
  is_idle r = is_live r.instance_of && not r.busy && is_none r.teardown && elim (created_of r) [
    | none ↦ true
    | some created ↦ leb (add created resource_grace_period) until
  ]

  module _ (w : World) (bound : (l : Log) → w.now l ≤ until) where
    is_candidate-is_idle : (r : Runner) (l : Log) → (is_candidate w r l).0 ≡ true → is_idle r ≡ true
    unfolding is_candidate
    is_candidate-is_idle r l good = ground (arith, bound l)

  -- What is found at a name is what was, or an idle runner that is now marked.
  abbrev pub IsScaledDown : Option Runner → Option Runner → Type 0
  IsScaledDown before after =
      (after ≡ before)
      ⊎ ((r : Runner) × (deadline : Time) × (before ≡ some r)
          × (is_idle r ≡ true)
          × (after ≡ some (marked_until deadline r)))

  -- Only a runner that is there is idle.
  is_idle-there :
      (k : String) (o : Option Runner)
      → is_idle (or_new_runner k o) ≡ true
      → (r : Runner) × (o ≡ some r) × (is_idle r ≡ true)
  is_idle-there k none may = cc
  is_idle-there k (some r) may = (r, refl, may)

  module _ (w : World) (m₀ : Map Runner) where
    -- A mark on an idle runner.
    mark-IsScaledDown :
        (k : String) (m : Map Runner) (l : Log)
        → found_at is_idle m₀ k ≡ true
        → IsScaledDown (lookup k m₀) (lookup k m)
        → IsScaledDown
            (lookup k m₀)
            (some (mark_for_teardown w cancelable (or_new_runner k (lookup k m)) l).0)
    mark-IsScaledDown k m l may (inl same) =
        let (r, was, idle) = is_idle-there k (lookup k m₀) may in
        inr (
          r,
          add (w.now l) scale_down_cancellation_delay,
          was,
          idle,
          rw (same, was) (ap some (mark_unmarked w r l (ground arith))),
        )
    mark-IsScaledDown k m l may (inr (r, deadline, was, idle, is)) =
        inr (r, deadline, was, idle, rw is (unfold mark_for_teardown in refl))

    -- A write at one name.
    insert-IsScaledDown :
        (j : String) (r : Runner) (m : Map Runner)
        → IsScaledDown (lookup j m₀) (some r)
        → ((k : String) → IsScaledDown (lookup k m₀) (lookup k m))
        → (k : String) → IsScaledDown (lookup k m₀) (lookup k (insert j r m))
    insert-IsScaledDown j r m there so_far k = elim (Bool-cases (str_eq j k)) [
      | inl e ↦
          rw (lookup-insert j k r m, e)
            (subst (λ i. IsScaledDown (lookup i m₀) (some r)) ((str_eq_iff j k).0 e) there)
      | inr e ↦ rw (lookup-insert j k r m, e) (so_far k)
    ]

    mark_selected-IsScaledDown :
        (xs : List (String × Runner)) (next : Time) (m : Map Runner) (l : Log)
        → count_if (λ e. not (found_at is_idle m₀ e.0)) xs ≡ 0
        → ((k : String) → IsScaledDown (lookup k m₀) (lookup k m))
        → (k : String) → IsScaledDown (lookup k m₀) (lookup k (mark_selected w xs next m l).0.1)
    unfolding mark_selected
    mark_selected-IsScaledDown [] next m l may so_far k = so_far k
    mark_selected-IsScaledDown ((j, _) ∷ xs) next m l may so_far k =
        let (r, l') = mark_for_teardown w cancelable (or_new_runner j (lookup j m)) l in
        mark_selected-IsScaledDown xs (earlier next (removal_after r.teardown)) (insert j r m) l'
          (omega arith)
          (insert-IsScaledDown j r m (mark-IsScaledDown j m l (ground arith) (so_far j)) so_far) k

-- Scaling down changes the runner of a name, if it does, only by marking it: it had a live instance
-- past its grace period, was not busy and had no teardown, and it now has a cancelable teardown in
-- its cancellation window. No name stands twice in the map, a loop over it visits each entry once,
-- and no reading of the clock is later than the time at which the grace period is over.
pub scale_down-idle :
    (w : World) (until : Time) (m : Map Runner) (active target : ℕ) (l : Log) (k : String)
    → ((l' : Log) → w.now l' ≤ until)
    → RangeVisitsAll w
    → IsView m
    → IsScaledDown until (lookup k m) (lookup k (scale_down w m active target l).0.1)
unfolding scale_down IsView
scale_down-idle w until m active target l k bound all (once, sound) =
    mark_selected-IsScaledDown until w m
      (take (active - target) (sort_by_age (candidates w (w.range l m) l).0)) zero_time m _
      (chosen-count (is_idle until) w (is_candidate-is_idle until w bound) m (active - target) l all
        once)
      (λ j. inl refl) k
