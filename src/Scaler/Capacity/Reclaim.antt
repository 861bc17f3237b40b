-- ===== src/Scaler/Capacity/Reclaim.antt =====
-- How many runners rising demand takes back from a pending scale down.
use oxide_gha_runner_scale_s.Prelude.{
  ℕ, zero, suc, ◌+◌, ◌≡◌, [], ◌∷◌, bit, arith, min, count_if-perm,
}
use oxide_gha_runner_scale_s.GoMap.{Map, count_values}
use oxide_gha_runner_scale_s.GoTime.{Time}
use oxide_gha_runner_scale_s.Api.{Log, clock_read}
use oxide_gha_runner_scale_s.Scaler.Runner.{Runner, active, active_runner_count}
use oxide_gha_runner_scale_s.Scaler.World.{World, RangeVisitsAll}
use oxide_gha_runner_scale_s.Scaler.Capacity.{
  can_reclaim, reclaimed, left_after, reclaim, cancel_pending_scale_downs,
}

-- A runner that is taken back becomes active, and was not before.
reclaimed-active :
    (now : Time) (r : Runner)
    → bit (active (reclaimed (can_reclaim now r) r)) ≡ bit (active r) + bit (can_reclaim now r)
unfolding active can_reclaim
reclaimed-active now r = ground arith

reclaim-active :
    (now : Time) (n : ℕ) (m : Map Runner)
    → active_runner_count (reclaim now n m)
      ≡ active_runner_count m + min n (count_values (can_reclaim now) m)
unfolding reclaim active_runner_count
reclaim-active now zero m = omega arith
reclaim-active now (suc n) [] = omega arith
reclaim-active now (suc n) ((k, r) ∷ m) =
    ground (arith, reclaimed-active now r, reclaim-active now (left_after (can_reclaim now r) n) m)

-- Rising demand takes back as many runners as it asks for, or all whose cancellation window is still
-- open at the time of the loop if these are fewer, and each of them becomes active: whatever the
-- order of the loop over the map, if it visits every runner once.
pub cancel_pending_scale_downs-active :
    (w : World) (m : Map Runner) (requested : ℕ) (l : Log)
    → RangeVisitsAll w
    → active_runner_count (cancel_pending_scale_downs w m requested l).0
      ≡ active_runner_count m + min requested (count_values (can_reclaim (w.now l)) m)
unfolding cancel_pending_scale_downs active_runner_count
cancel_pending_scale_downs-active w m requested l all =
    let visited = w.range (clock_read (w.now l) ∷ l) m in
    let same = all (clock_read (w.now l) ∷ l) m in
    omega (
      arith,
      reclaim-active (w.now l) requested visited,
      count_if-perm (λ e. active e.1) same,
      count_if-perm (λ e. can_reclaim (w.now l) e.1) same,
    )
