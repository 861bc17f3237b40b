-- ===== src/GoTime.antt =====
-- Go's `time.Time` and `time.Duration`, as far as the scaler uses them: nanoseconds since the zero
-- time, which is 0. A difference saturates like `Time.Sub`; one that would be negative is 0, which no
-- comparison of the program tells from a negative number, since all its delays are positive.
use oxide_gha_runner_scale_s.Prelude.{ℕ, ◌+◌, ◌-◌, ◌*◌, Bool, ltb, ◌==◌, min}

abbrev pub Time : Type 0
Time = ℕ

abbrev pub Duration : Type 0
Duration = ℕ

-- `time.Time{}`.
abbrev pub zero_time : Time
zero_time = 0

-- `t.IsZero()`.
abbrev pub is_zero : Time → Bool
is_zero t = t == 0

-- `t.Before(u)`.
abbrev pub before : Time → Time → Bool
before t u = ltb t u

-- `t.Add(d)`.
abbrev pub add : Time → Duration → Time
add t d = t + d

-- The largest `time.Duration`.
abbrev pub max_duration : Duration
max_duration = 9223372036854775807

-- `now.Sub(t)`.
abbrev pub sub : Time → Time → Duration
sub now t = min (now - t) max_duration

abbrev pub seconds : ℕ → Duration
seconds n = n * 1000000000

abbrev pub minutes : ℕ → Duration
minutes n = n * 60000000000
