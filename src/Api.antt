-- ===== src/Api.antt =====
-- The data of the Oxide and GitHub clients as the scaler reads them (oxide.go and scaleset are not
-- part of the repository, so only the fields and constants that the code names are here), the log of
-- the calls made so far, and computations that read and extend that log.
pub mod Effect
use oxide_gha_runner_scale_s.Prelude.{
  ℕ, String, Bool, true, false, List, Option, ℤ, ◌≡◌, refl, ◌⊎◌, inl, inr,
}
use oxide_gha_runner_scale_s.GoTime.{Time}

-- `oxide.InstanceState`: the constants that the code names, and any other string.
pub data InstanceState : Type 0 where
  creating starting running stopping stopped failed destroyed : InstanceState
  other_instance_state : String → InstanceState

-- `oxide.DiskStateState`.
pub data DiskState : Type 0 where
  detached faulted : DiskState
  other_disk_state : String → DiskState

pub record Instance : Type 0 where
  pub id : String
  pub name : String
  pub run_state : InstanceState
  pub time_created : Option Time
  pub time_run_state_updated : Option Time

pub record Disk : Type 0 where
  pub name : String
  pub state : DiskState
  pub time_created : Option Time

pub record Image : Type 0 where
  pub id : String
  pub size : ℕ

-- `scaleset.RunnerReference`.
pub record Registration : Type 0 where
  pub id : ℤ
  pub scale_set_id : ℤ

-- What the code tells apart by `errors.Is`, its own error of a foreign registration, any other
-- failure, and an error wrapped with `%w`.
pub data Err : Type 0 where
  object_not_found job_still_running : Err
  wrong_scale_set : ℤ → ℤ → Err
  failure : String → Err
  wrapped : String → Err → Err

pub data Result {ℓ} (A : Type ℓ) : Type ℓ where
  ok : A → Result A
  err : Err → Result A

pub Result-cases {ℓ} :
    {A : Type ℓ} (a : Result A) → ((e : Err) × (a ≡ err e)) ⊎ ((x : A) × (a ≡ ok x))
Result-cases (ok x) = inr (x, refl)
Result-cases (err e) = inl (e, refl)

-- `errors.Is(err, oxide.ErrObjectNotFound)`.
unfoldable pub is_object_not_found : Err → Bool
is_object_not_found object_not_found = true
is_object_not_found (wrapped _ e) = is_object_not_found e
is_object_not_found _ = false

-- `errors.Is(err, scaleset.JobStillRunningError)`.
unfoldable pub is_job_still_running : Err → Bool
is_job_still_running job_still_running = true
is_job_still_running (wrapped _ e) = is_job_still_running e
is_job_still_running _ = false

-- The body of an instance create request that depends on the configuration.
pub record CreateParams : Type 0 where
  pub project : String
  pub name : String
  pub hostname : String
  pub description : String
  pub disk_name : String
  pub disk_size : ℕ
  pub image_id : String
  pub memory : ℕ
  pub ncpus : ℕ
  pub vpc : String
  pub subnet : String
  pub start : Bool
  pub user_data : String

-- One call of a client or of the clock, with its arguments and its answer.
pub data Call : Type 0 where
  clock_read : Time → Call
  runner_looked_up : String → Result (Option Registration) → Call
  runner_removed : ℤ → Result (Unit {0}) → Call
  jit_generated : String → ℤ → Result String → Call
  image_viewed : String → Option String → Result Image → Call
  instances_listed : String → Result (List Instance) → Call
  disks_listed : String → Result (List Disk) → Call
  instance_created : CreateParams → Result Instance → Call
  instance_stopped : String → String → Result (Unit {0}) → Call
  instance_deleted : String → String → Result (Unit {0}) → Call
  disk_deleted : String → String → Result (Unit {0}) → Call

-- The calls made so far, the latest first.
abbrev pub Log : Type 0
Log = List Call
