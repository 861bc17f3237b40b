-- ===== src/Scaler/Capacity.antt =====
-- internal/scaler/capacity.go: how the number of active runners is brought to the target.
pub mod Bound
pub mod Reclaim
pub mod Floor
pub mod Found
pub mod Idle
pub mod Oldest
pub mod Exact
pub mod Selected
use oxide_gha_runner_scale_s.Prelude.{
  ℕ, zero, suc, String, Bool, true, false, not, ◌||◌, ◌&&◌, ◌-◌, Option, none, some, is_some, List,
  [], ◌∷◌, ltb, ◌==◌, min, if◌then◌else◌, length, take,
}
use oxide_gha_runner_scale_s.GoMap.{Map, lookup, insert}
use oxide_gha_runner_scale_s.GoTime.{Time, zero_time, is_zero, before}
use oxide_gha_runner_scale_s.Api.{Result, ok, err, Instance, Image}
use oxide_gha_runner_scale_s.Api.Effect.{Effect, pure, ◌>>=◌}
use oxide_gha_runner_scale_s.Scaler.Runner.{
  Runner, TeardownState, cancelable, instance_halted, is_live, can_cancel_for_capacity,
  instance_count, or_new_runner,
}
use oxide_gha_runner_scale_s.Scaler.World.{
  World, Scaler, time_now, visit_order, next_reconcile_after,
}
use oxide_gha_runner_scale_s.Scaler.Teardown.{reconcile_retry_delay}
use oxide_gha_runner_scale_s.Scaler.Mark.{mark_for_teardown, past_grace_period}
use oxide_gha_runner_scale_s.Scaler.Provision.{fetch_image, provision_runners}

-- How many runners `scaleUp` asks for.
unfoldable pub requested_runners : Scaler → Map Runner → ℕ → ℕ → ℕ
unfolding instance_count
requested_runners s runners active target =
    min (target - active) (s.max_runners - instance_count runners)

-- The time of the next attempt where fewer runners were created than requested.
unfoldable pub retry_if : World → Bool → Effect Time
unfolding next_reconcile_after
retry_if w true = next_reconcile_after w reconcile_retry_delay
retry_if w false = pure zero_time

unfoldable pub provision_requested :
    World → Scaler → Map Runner → ℕ → Result Image → Effect (Time × Map Runner)
unfolding retry_if provision_runners
provision_requested w s runners requested (err e) = do t ← retry_if w true; pure (t, runners)
provision_requested w s runners requested (ok image) = do
  (created, runners') ← provision_runners w s runners image requested
  t ← retry_if w (ltb (length created) requested)
  pure (t, runners')

-- A negative difference of the source is 0 here, and both end at the guard.
unfoldable pub scale_up : World → Scaler → Map Runner → ℕ → ℕ → Effect (Time × Map Runner)
unfolding requested_runners fetch_image provision_requested
scale_up w s runners active target =
    let requested = requested_runners s runners active target in
    if requested == 0
    then pure (zero_time, runners)
    else do image ← fetch_image w s; provision_requested w s runners requested image

-- The first four tests of the candidates' loop.
unfoldable pub may_scale_down : Runner → Bool
unfolding instance_halted
may_scale_down r = is_live r.instance_of && not r.busy && not (is_some r.teardown)

abbrev pub created_of : Runner → Option Time
created_of r = elim r.instance_of [ none ↦ none | some i ↦ i.time_created ]

unfoldable pub is_candidate : World → Runner → Effect Bool
unfolding may_scale_down past_grace_period
is_candidate w r = if not (may_scale_down r) then pure false else past_grace_period w (created_of r)

unfoldable pub candidates : World → Map Runner → Effect (List (String × Runner))
unfolding is_candidate
candidates w [] = pure []
candidates w ((k, r) ∷ m) = do
  good ← is_candidate w r
  rest ← candidates w m
  pure (if good then (k, r) ∷ rest else rest)

-- `cmp(a, b) < 0`: the comparison is 0 where a time is missing.
unfoldable pub older : Option Time → Option Time → Bool
older none b = false
older (some a) none = false
older (some a) (some b) = before a b

-- `slices.SortFunc` by the creation time. The order of equal elements is not specified there; here
-- it is the order of the loop over the map, which is any.
unfoldable pub insert_by_age : String × Runner → List (String × Runner) → List (String × Runner)
unfolding older
insert_by_age x [] = x ∷ []
insert_by_age x (y ∷ ys) =
    if older (created_of y.1) (created_of x.1) then y ∷ insert_by_age x ys else x ∷ y ∷ ys

unfoldable pub sort_by_age : List (String × Runner) → List (String × Runner)
unfolding insert_by_age
sort_by_age [] = []
sort_by_age (x ∷ xs) = insert_by_age x (sort_by_age xs)

-- The deadline of a runner that was just marked.
abbrev pub removal_after : Option TeardownState → Time
removal_after none = zero_time
removal_after (some t) = t.registration_removal_after

-- `if nextReconcile.IsZero() || deadline.Before(nextReconcile)`.
unfoldable pub earlier : Time → Time → Time
earlier next deadline = if is_zero next || before deadline next then deadline else next

-- The loop over the selected candidates, which are runners of the map.
unfoldable pub mark_selected :
    World → List (String × Runner) → Time → Map Runner → Effect (Time × Map Runner)
unfolding lookup insert mark_for_teardown earlier
mark_selected w [] next runners = pure (next, runners)
mark_selected w ((k, _) ∷ xs) next runners = do
  r ← mark_for_teardown w cancelable (or_new_runner k (lookup k runners))
  mark_selected w xs (earlier next (removal_after r.teardown)) (insert k r runners)

unfoldable pub scale_down : World → Map Runner → ℕ → ℕ → Effect (Time × Map Runner)
unfolding visit_order candidates sort_by_age mark_selected
scale_down w runners active target = do
  visited ← visit_order w runners
  found ← candidates w visited
  mark_selected w (take (active - target) (sort_by_age found)) zero_time runners

-- A runner that rising demand takes back.
unfoldable pub can_reclaim : Time → Runner → Bool
unfolding instance_halted can_cancel_for_capacity
can_reclaim now r = is_live r.instance_of && can_cancel_for_capacity r.teardown now

abbrev pub reclaimed : Bool → Runner → Runner
reclaimed true r = record r { teardown = none }
reclaimed false r = r

-- `requested--` where a runner was taken back.
abbrev pub left_after : Bool → ℕ → ℕ
left_after true n = n
left_after false n = suc n

unfoldable pub reclaim : Time → ℕ → Map Runner → Map Runner
unfolding can_reclaim
reclaim now zero m = m
reclaim now (suc n) [] = []
reclaim now (suc n) ((k, r) ∷ m) =
    (k, reclaimed (can_reclaim now r) r) ∷ reclaim now (left_after (can_reclaim now r) n) m

unfoldable pub cancel_pending_scale_downs : World → Map Runner → ℕ → Effect (Map Runner)
unfolding time_now visit_order reclaim
cancel_pending_scale_downs w runners requested = do
  now ← time_now w
  visited ← visit_order w runners
  pure (reclaim now requested visited)
