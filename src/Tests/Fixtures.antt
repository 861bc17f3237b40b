-- ===== src/Tests/Fixtures.antt =====
-- A world that answers every call, a scaler and runners, for the tests.
use mathlib.Core.List.Perm
use oxide_gha_runner_scale_s.Prelude.{String, true, none, some, [], ◌∷◌, pos}
use oxide_gha_runner_scale_s.Api.{
  Instance, Disk, Image, ok, err, object_not_found, running, detached,
}
use oxide_gha_runner_scale_s.Scaler.Runner.{
  Runner, ReconcileState, TeardownState, cancelable, cancellation_window, new_runner,
}
use oxide_gha_runner_scale_s.Scaler.World.{World, Scaler, RangeVisitsAll, started, completed}

abbrev pub image : Image
image = record { id = "image"; size = 3000000000 }

abbrev pub instance_named : String → Instance
instance_named name = record {
  id = "1";
  name = name;
  run_state = running;
  time_created = some 1000;
  time_run_state_updated = none;
}

abbrev pub disk_named : String → Disk
disk_named name = record { name = name; state = detached; time_created = none }

-- GitHub knows no runner, every request is granted, and the project holds one foreign instance and
-- disk.
abbrev pub granting : World
granting = record {
  now = λ l. 1000000000000000;
  get_runner_by_name = λ l name. ok none;
  remove_runner = λ l id. ok tt;
  generate_jit_runner_config = λ l name id. ok "jit";
  image_view = λ l name project. ok image;
  instance_list = λ l project. ok (instance_named "other" ∷ []);
  disk_list = λ l project. ok (disk_named "other" ∷ []);
  instance_create = λ l p. ok (instance_named p.name);
  instance_stop = λ l project name. ok tt;
  instance_delete = λ l project name. ok tt;
  disk_delete = λ l project name. err object_not_found;
  range = λ l m. m;
  random_bytes = λ l n. n ∷ [];
  sha256 = λ text. 171 ∷ 205 ∷ [];
  base64 = λ text. text;
  schedule = λ l. 1 ∷ 0 ∷ 1 ∷ [];
}

pub granting-RangeVisitsAll : RangeVisitsAll granting
granting-RangeVisitsAll l m = Perm.refl m

abbrev pub scaler : Scaler
scaler = record {
  scale_set = record { namespace = "https://github.com/acme"; id = pos 7 };
  instance_config = record {
    project = "ci";
    image = "runner";
    boot_disk_gib = 10;
    cpus = 4;
    memory_gib = 16;
    vpc = "default";
    subnet = "default";
  };
  min_runners = 1;
  max_runners = 3;
  desired_runner_count = pos 1;
  job_events =
      record { runner_name = "a"; job_status = started }
      ∷ record { runner_name = "b"; job_status = completed }
      ∷ record { runner_name = "b"; job_status = started }
      ∷ [];
  active_runner_count = 0;
  wake = true;
}

-- A scale set that is draining.
abbrev pub draining : Scaler
draining = record scaler { min_runners = 0; max_runners = 0 }

abbrev pub window : TeardownState
window = record {
  policy = cancelable;
  phase = cancellation_window;
  registration_removal_after = 1000000000000001;
}

abbrev pub closed : TeardownState
closed = record { policy = cancelable; phase = cancellation_window; registration_removal_after = 5 }

abbrev pub idle : String → Runner
idle name = record (new_runner name) { instance_of = some (instance_named name) }

abbrev pub marked : String → TeardownState → Runner
marked name t = record (idle name) { disk = some (disk_named name); teardown = some t }

abbrev pub state : ReconcileState
state = record {
  desired_runner_count = pos 0;
  runners = ("a", marked "a" window) ∷ ("b", idle "b") ∷ ("c", marked "c" closed) ∷ [];
  last_github_audit = 0;
}
