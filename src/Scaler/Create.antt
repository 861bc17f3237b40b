-- ===== src/Scaler/Create.antt =====
-- internal/scaler/scaler.go, `New`. The clients are parameters of the model, so the tests for a nil
-- client are left out, and the logger with its default.
pub mod Made
use oxide_gha_runner_scale_s.Prelude.{ℕ, false, Option, none, some, [], ℤ, negsuc, pos_part}
use oxide_gha_runner_scale_s.Scaler.Config.{Config}
use oxide_gha_runner_scale_s.Scaler.Config.Validate.{ConfigError, validate}
use oxide_gha_runner_scale_s.Scaler.World.{Scaler}

pub data Construction : Type 0 where
  refused : ConfigError → Construction
  constructed : Scaler → Construction

-- The limits are natural numbers from here on; `validate` has refused negative ones.
unfoldable pub scaler_of : Config → Scaler
scaler_of c = record {
  scale_set = c.scale_set;
  instance_config = c.instance_config;
  min_runners = pos_part c.min_runners;
  max_runners = pos_part c.max_runners;
  desired_runner_count = negsuc 0;
  job_events = [];
  active_runner_count = 0;
  wake = false;
}

abbrev pub construction : Config → Option ConfigError → Construction
construction c none = constructed (scaler_of c)
construction c (some e) = refused e

unfoldable pub new_scaler : Config → Construction
unfolding validate scaler_of
new_scaler c = construction c (validate c)
