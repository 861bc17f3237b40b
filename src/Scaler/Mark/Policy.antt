-- ===== src/Scaler/Mark/Policy.antt =====
-- What marking a runner does to a teardown.
use oxide_gha_runner_scale_s.Prelude.{
  ℕ, Bool, true, false, not, ◌||◌, ◌≡◌, ◌≤◌, refl, Option, none, some, is_some, arith,
}
use oxide_gha_runner_scale_s.Api.{Log}
use oxide_gha_runner_scale_s.Scaler.Runner.{
  TeardownState, TeardownPolicy, permanent, cancelable, is_cancelable, cancellation_window,
  removing_registration, deprovisioning,
}
use oxide_gha_runner_scale_s.Scaler.World.{World}
use oxide_gha_runner_scale_s.Scaler.Mark.{marked_teardown}

-- How far a teardown is; 0 where there is none.
abbrev pub stage : Option TeardownState → ℕ
stage none = 0
stage (some t) = elim t.phase [
  | cancellation_window ↦ 1
  | removing_registration ↦ 2
  | deprovisioning ↦ 3
]

-- A runner may still be given up to a job or to demand only under a cancelable policy.
abbrev pub is_permanent : Option TeardownState → Bool
is_permanent none = false
is_permanent (some t) = elim t.policy [ permanent ↦ true | cancelable ↦ false ]

-- Marking a runner leaves it with a teardown that is no less far than before. It is permanent exactly
-- if it was permanent or the mark is, so a permanent teardown stays permanent; and a teardown that
-- is marked permanent is not left in the cancellation window unless it was permanent in it before.
pub marked_teardown_lem :
    (w : World) (policy : TeardownPolicy) (before : Option TeardownState) (l : Log)
    → let after = (marked_teardown w policy before l).0 in
      (is_some after ≡ true)
      × (stage before ≤ stage after)
      × (is_permanent after ≡ (is_permanent before || not (is_cancelable policy)))
      × (policy ≡ permanent → is_permanent before ≡ false → 2 ≤ stage after)
unfolding marked_teardown
marked_teardown_lem w permanent none l = ground arith
marked_teardown_lem w cancelable none l = ground arith
marked_teardown_lem w permanent (some t) l = ground arith
marked_teardown_lem w cancelable (some t) l = ground arith

-- A second mark that is no stronger than an earlier one changes nothing, and reads no clock.
pub marked_teardown_idem :
    (w : World) (first second : TeardownPolicy) (before : Option TeardownState) (l l' : Log)
    → (is_cancelable first ≡ true → is_cancelable second ≡ true)
    → let after = (marked_teardown w first before l).0 in
      marked_teardown w second after l' ≡ (after, l')
unfolding marked_teardown
marked_teardown_idem w permanent permanent none l l' weaker = refl
marked_teardown_idem w permanent cancelable none l l' weaker = refl
marked_teardown_idem w cancelable permanent none l l' weaker = ground arith
marked_teardown_idem w cancelable cancelable none l l' weaker = refl
marked_teardown_idem w permanent permanent (some t) l l' weaker = ground arith
marked_teardown_idem w permanent cancelable (some t) l l' weaker = ground arith
marked_teardown_idem w cancelable permanent (some t) l l' weaker = ground arith
marked_teardown_idem w cancelable cancelable (some t) l l' weaker = ground arith
