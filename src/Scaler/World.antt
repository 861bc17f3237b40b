-- ===== src/Scaler/World.antt =====
-- internal/scaler/scaler.go: the scaler's own state and the clients that it calls. What is not part
-- of the repository answers as it likes: every answer is a function of the calls made so far.
use oxide_gha_runner_scale_s.Prelude.{ℕ, String, Bool, ◌∷◌, List, Option, ℤ, Perm}
use oxide_gha_runner_scale_s.GoMap.{Map}
use oxide_gha_runner_scale_s.GoTime.{Time, Duration, add, sub}
use oxide_gha_runner_scale_s.Api.{
  Log, Result, Instance, Disk, Image, Registration, CreateParams, clock_read, runner_looked_up,
  runner_removed, jit_generated, image_viewed, instances_listed, disks_listed, instance_created,
  instance_stopped, instance_deleted, disk_deleted,
}
use oxide_gha_runner_scale_s.Api.Effect.{Effect, pure, ◌>>=◌}
use oxide_gha_runner_scale_s.Scaler.Config.{ScaleSetConfig, InstanceConfig}
use oxide_gha_runner_scale_s.Scaler.Runner.{Runner}

pub record World : Type 0 where
  pub now : Log → Time
  pub get_runner_by_name : Log → String → Result (Option Registration)
  pub remove_runner : Log → ℤ → Result (Unit {0})
  pub generate_jit_runner_config : Log → String → ℤ → Result String
  pub image_view : Log → String → Option String → Result Image
  pub instance_list : Log → String → Result (List Instance)
  pub disk_list : Log → String → Result (List Disk)
  pub instance_create : Log → CreateParams → Result Instance
  pub instance_stop : Log → String → String → Result (Unit {0})
  pub instance_delete : Log → String → String → Result (Unit {0})
  pub disk_delete : Log → String → String → Result (Unit {0})
  -- The order in which a loop over the runners visits them.
  pub range : Log → Map Runner → Map Runner
  -- The eight bytes that `rand.Read` gives for the n-th name of a batch.
  pub random_bytes : Log → ℕ → List ℕ
  -- The digest of a text's bytes.
  pub sha256 : String → List ℕ
  -- The standard base64 encoding of a text's bytes.
  pub base64 : String → String
  -- A schedule of the goroutines that provision runners.
  pub schedule : Log → List ℕ

-- What a loop over a map does: it visits every entry once.
abbrev pub RangeVisitsAll : World → Type 0
RangeVisitsAll w = (l : Log) (m : Map Runner) → Perm (w.range l m) m

pub data JobStatus : Type 0 where
  started completed : JobStatus
  unknown_status : String → JobStatus

pub record JobEvent : Type 0 where
  pub runner_name : String
  pub job_status : JobStatus

-- The clients and the logger are left out. `New` has checked that the runner counts are not
-- negative. `wake` says whether the channel, which has room for one token, holds it.
pub record Scaler : Type 0 where
  pub scale_set : ScaleSetConfig
  pub instance_config : InstanceConfig
  pub min_runners : ℕ
  pub max_runners : ℕ
  pub desired_runner_count : ℤ
  pub job_events : List JobEvent
  pub active_runner_count : ℕ
  pub wake : Bool

-- `time.Now()`.
unfoldable pub time_now : World → Effect Time
time_now w l = let t = w.now l in (t, clock_read t ∷ l)

-- `time.Since(t)`.
unfoldable pub time_since : World → Time → Effect Duration
unfolding time_now
time_since w t = do now ← time_now w; pure (sub now t)

unfoldable pub github_get_runner_by_name : World → String → Effect (Result (Option Registration))
github_get_runner_by_name w name l =
    let a = w.get_runner_by_name l name in (a, runner_looked_up name a ∷ l)

unfoldable pub github_remove_runner : World → ℤ → Effect (Result (Unit {0}))
github_remove_runner w id l = let a = w.remove_runner l id in (a, runner_removed id a ∷ l)

unfoldable pub github_generate_jit_runner_config : World → String → ℤ → Effect (Result String)
github_generate_jit_runner_config w name id l =
    let a = w.generate_jit_runner_config l name id in (a, jit_generated name id a ∷ l)

unfoldable pub oxide_image_view : World → String → Option String → Effect (Result Image)
oxide_image_view w image project l =
    let a = w.image_view l image project in (a, image_viewed image project a ∷ l)

unfoldable pub oxide_instance_list : World → String → Effect (Result (List Instance))
oxide_instance_list w project l =
    let a = w.instance_list l project in (a, instances_listed project a ∷ l)

unfoldable pub oxide_disk_list : World → String → Effect (Result (List Disk))
oxide_disk_list w project l = let a = w.disk_list l project in (a, disks_listed project a ∷ l)

unfoldable pub oxide_instance_create : World → CreateParams → Effect (Result Instance)
oxide_instance_create w p l = let a = w.instance_create l p in (a, instance_created p a ∷ l)

unfoldable pub oxide_instance_stop : World → String → String → Effect (Result (Unit {0}))
oxide_instance_stop w project name l =
    let a = w.instance_stop l project name in (a, instance_stopped project name a ∷ l)

unfoldable pub oxide_instance_delete : World → String → String → Effect (Result (Unit {0}))
oxide_instance_delete w project name l =
    let a = w.instance_delete l project name in (a, instance_deleted project name a ∷ l)

unfoldable pub oxide_disk_delete : World → String → String → Effect (Result (Unit {0}))
oxide_disk_delete w project name l =
    let a = w.disk_delete l project name in (a, disk_deleted project name a ∷ l)

-- `nextReconcileAfter`.
unfoldable pub next_reconcile_after : World → Duration → Effect Time
unfolding time_now
next_reconcile_after w delay = do now ← time_now w; pure (add now delay)

-- `range state.runners`.
unfoldable pub visit_order : World → Map Runner → Effect (Map Runner)
visit_order w m l = (w.range l m, l)
