-- ===== src/Scaler/Sound/Loops.antt =====
-- The loops over the runners keep the view well formed.
use oxide_gha_runner_scale_s.Prelude.{
  ℕ, zero, suc, String, ◌≤◌, ◌-◌, [], ◌∷◌, arith, count_if, bit, count_if-perm, str_eq, ℤ, pos,
  negsuc,
}
use native.Mathlib.Nat.{le_refl}
use oxide_gha_runner_scale_s.GoMap.{Map, count_key}
use oxide_gha_runner_scale_s.GoTime.{Time}
use oxide_gha_runner_scale_s.Api.{Log, clock_read}
use oxide_gha_runner_scale_s.Api.Effect.{Effect, for_each}
use oxide_gha_runner_scale_s.Scaler.Runner.{Runner, ReconcileState, prune, active_runner_count}
use oxide_gha_runner_scale_s.Scaler.World.{World, Scaler, RangeVisitsAll}
use oxide_gha_runner_scale_s.Scaler.Mark.{
  visit_instance, visit_disk, audit_runner, audit_loop, mark_instances_for_teardown,
  mark_disks_for_teardown, mark_registrations_for_teardown,
}
use oxide_gha_runner_scale_s.Scaler.Teardown.{teardown}
use oxide_gha_runner_scale_s.Scaler.Observe.{clear_resources}
use oxide_gha_runner_scale_s.Scaler.Capacity.{reclaim, can_reclaim, left_after}
use oxide_gha_runner_scale_s.Scaler.Reconcile.{
  audit, plan, reclaim_for, teardown_loop, drive_teardowns, request_reconcile,
}
use oxide_gha_runner_scale_s.Scaler.Sound.{
  is_unsound, IsView, visit_instance-is_unsound, visit_disk-is_unsound, audit_runner-is_unsound,
  teardown-is_unsound, reclaimed-is_unsound,
}

-- One map has no more entries of a name, and no more unsound ones, than another.
unfoldable pub Within : Map Runner → Map Runner → Type 0
Within m m' =
    ((k : String) → count_key k m' ≤ count_key k m)
    × (count_if is_unsound m' ≤ count_if is_unsound m)

pub Within-IsView : (m m' : Map Runner) → Within m m' → IsView m → IsView m'
unfolding Within IsView
Within-IsView m m' (fewer, better) (once, sound) =
    (λ k. omega (arith, fewer k, once k), omega (arith, better, sound))

pub Within-trans : (m m' m'' : Map Runner) → Within m m' → Within m' m'' → Within m m''
unfolding Within
Within-trans m m' m'' (f, b) (f', b') = (λ k. omega (arith, f k, f' k), omega (arith, b, b'))

-- The entries of a loop, one after the other.
Within-cons :
    (k : String) (r r' : Runner) (m m' : Map Runner)
    → bit (is_unsound (k, r')) ≤ bit (is_unsound (k, r))
    → Within m m'
    → Within ((k, r) ∷ m) ((k, r') ∷ m')
unfolding Within
Within-cons k r r' m m' h (f, b) = (λ j. omega (arith, f j), omega (arith, h, b))

Within-refl : (m : Map Runner) → Within m m
unfolding Within
Within-refl m = (λ k. le_refl _, le_refl _)

Within-nil : Within [] []
Within-nil = Within-refl []

for_each-Within :
    (body : Runner → Effect Runner)
    → ((k : String) (r : Runner) (l : Log)
        → bit (is_unsound (k, (body r l).0)) ≤ bit (is_unsound (k, r)))
    → (m : Map Runner) (l : Log) → Within m (for_each body m l).0
unfolding for_each
for_each-Within body keeps [] l = Within-nil
for_each-Within body keeps ((k, r) ∷ m) l =
    Within-cons k _ _ _ _ (keeps k r l) (for_each-Within body keeps m (body r l).1)

pub clear_resources-Within : (m : Map Runner) → Within m (clear_resources m)
unfolding clear_resources
clear_resources-Within [] = Within-nil
clear_resources-Within ((k, r) ∷ m) = Within-cons k _ _ _ _ (le_refl _) (clear_resources-Within m)

reclaim-Within : (now : Time) (n : ℕ) (m : Map Runner) → Within m (reclaim now n m)
unfolding reclaim
reclaim-Within now zero m = Within-refl m
reclaim-Within now (suc n) [] = Within-nil
reclaim-Within now (suc n) ((k, r) ∷ m) =
    Within-cons k _ _ _ _ (reclaimed-is_unsound k (can_reclaim now r) r)
      (reclaim-Within now (left_after (can_reclaim now r) n) m)

prune-Within : (m : Map Runner) → Within m (prune m)
unfolding prune Within
prune-Within [] = Within-nil
prune-Within ((k, r) ∷ m) =
    let (f, b) = prune-Within m in (λ j. ground (arith, f j), ground (arith, b))

module _ (w : World) where
  audit_loop-Within : (m : Map Runner) (l : Log) → Within m (audit_loop w m l).0.1
  unfolding audit_loop
  audit_loop-Within [] l = Within-nil
  audit_loop-Within ((k, r) ∷ m) l =
      Within-cons k _ _ _ _ (audit_runner-is_unsound w k r l)
        (audit_loop-Within m (audit_runner w r l).1)

  teardown_loop-Within :
      (s : Scaler) (next : Time) (m : Map Runner) (l : Log)
      → Within m (teardown_loop w s next m l).0.1
  unfolding teardown_loop
  teardown_loop-Within s next [] l = Within-nil
  teardown_loop-Within s next ((k, r) ∷ m) l =
      let ((at, r'), l') = teardown w s r l in
      Within-cons k _ _ _ _ (teardown-is_unsound w k s r l)
        (teardown_loop-Within s (request_reconcile next at) m l')

module _ (w : World) (all : RangeVisitsAll w) where
  range-Within : (l : Log) (m : Map Runner) → Within m (w.range l m)
  unfolding Within
  range-Within l m = (
    λ k. omega (arith, count_if-perm (λ e. str_eq e.0 k) (all l m)),
    omega (arith, count_if-perm is_unsound (all l m)),
  )

  mark_instances-Within :
      (m : Map Runner) (l : Log) → Within m (mark_instances_for_teardown w m l).0
  unfolding mark_instances_for_teardown
  mark_instances-Within m l =
      Within-trans _ _ _ (range-Within l m)
        (for_each-Within (visit_instance w) (visit_instance-is_unsound w) (w.range l m) l)

  mark_disks-Within : (m : Map Runner) (l : Log) → Within m (mark_disks_for_teardown w m l).0
  unfolding mark_disks_for_teardown
  mark_disks-Within m l =
      Within-trans _ _ _ (range-Within l m)
        (for_each-Within (visit_disk w) (visit_disk-is_unsound w) (w.range l m) l)

  mark_registrations-Within :
      (m : Map Runner) (l : Log) → Within m (mark_registrations_for_teardown w m l).0.1
  unfolding mark_registrations_for_teardown Within
  mark_registrations-Within m l =
      let (f, b) = Within-trans _ _ _ (range-Within l m) (audit_loop-Within w (w.range l m) l) in
      (λ k. ground (arith, f k), ground (arith, b))

  audit-Within :
      (state : ReconcileState) (l : Log) → Within state.runners (audit w state l).0.1.runners
  unfolding audit Within
  audit-Within state l =
      let (f, b) = mark_registrations-Within state.runners (clock_read (w.now l) ∷ l) in
      (λ k. ground (arith, f k), ground (arith, b))

  pub plan-Within :
      (state : ReconcileState) (l : Log) → Within state.runners (plan w state l).0.1.runners
  unfolding plan
  plan-Within state l =
      let (m₁, l₁) = mark_instances_for_teardown w state.runners l in
      let (m₂, l₂) = mark_disks_for_teardown w m₁ l₁ in
      Within-trans _ _ _ (mark_instances-Within state.runners l) (
        Within-trans _ _ _ (mark_disks-Within m₁ l₁)
          (audit-Within (record state { runners = m₂ }) l₂))

  pub reclaim_for-Within :
      (target : ℤ) (m : Map Runner) (l : Log) → Within m (reclaim_for w target m l).0
  unfolding reclaim_for Within
  reclaim_for-Within (negsuc n) m l = Within-refl m
  reclaim_for-Within (pos t) m l =
      let l' = clock_read (w.now l) ∷ l in
      let (f, b) =
        Within-trans _ _ _ (range-Within l' m)
          (reclaim-Within (w.now l) (t - active_runner_count m) (w.range l' m)) in
      (λ k. ground (arith, f k), ground (arith, b))

  pub drive_teardowns-Within :
      (s : Scaler) (next : Time) (m : Map Runner) (l : Log)
      → Within m (drive_teardowns w s next m l).0.1
  unfolding drive_teardowns
  drive_teardowns-Within s next m l =
      Within-trans _ _ _ (range-Within l m)
        (Within-trans _ _ _ (teardown_loop-Within w s next (w.range l m) l) (prune-Within _))
