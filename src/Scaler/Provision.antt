-- ===== src/Scaler/Provision.antt =====
-- internal/scaler/provision.go: the creation of runners. The goroutines of `provisionRunners` are
-- workers that take one step at a time, in an order that a schedule chooses.
pub mod Counted
pub mod Requests
pub mod Places
pub mod Finish
pub mod Sizes
use Prim.Native.String.{◌++◌ as concat}
use oxide_gha_runner_scale_s.Prelude.{
  ℕ, zero, suc, String, Bool, true, false, ◌+◌, ◌-◌, ◌*◌, ◌/◌, ◌%◌, Option, none, some, List, [],
  ◌∷◌, ltb, ◌==◌, max, if◌then◌else◌, count_if,
}
use oxide_gha_runner_scale_s.GoMap.{Map}
use oxide_gha_runner_scale_s.Api.{
  Log, Err, Result, ok, err, wrapped, is_object_not_found, Image, Instance, CreateParams,
}
use oxide_gha_runner_scale_s.Api.Effect.{Effect, pure, ◌>>=◌}
use oxide_gha_runner_scale_s.Scaler.Config.{bytes_per_gib}
use oxide_gha_runner_scale_s.Scaler.Runner.{Runner, permanent, with_runner}
use oxide_gha_runner_scale_s.Scaler.World.{
  World, Scaler, github_generate_jit_runner_config, oxide_image_view, oxide_instance_create,
}
use oxide_gha_runner_scale_s.Scaler.Names.{itoa, new_runner_name}
use oxide_gha_runner_scale_s.Scaler.Mark.{mark_for_teardown}
use oxide_gha_runner_scale_s.Scaler.Handler.{change_runner}

abbrev pub provision_concurrency : ℕ
provision_concurrency = 5

abbrev pub uint64 : ℕ → ℕ
uint64 n = n % 18446744073709551616

-- The type of `InstanceCpuCount`.
abbrev pub uint16 : ℕ → ℕ
uint16 n = n % 65536

-- `imageGiB`: the image's size in GiB, rounded up.
unfoldable pub image_gib : ℕ → ℕ
image_gib size =
    if size % bytes_per_gib == 0 then size / bytes_per_gib else uint64 (size / bytes_per_gib + 1)

-- The size of the boot disk in bytes.
unfoldable pub boot_disk_size : ℕ → ℕ → ℕ
unfolding image_gib
boot_disk_size configured size = uint64 (max configured (image_gib size) * bytes_per_gib)

-- internal/scaler/userdata.sh.tmpl at a JIT config.
unfoldable pub render_user_data : String → String
render_user_data jit =
    concat
      "#cloud-config\nwrite_files:\n  - path: /run/github-actions-runner/jitconfig\n    owner: root:root\n    permissions: '0600'\n    content: '"
      (concat jit "'\n")

unfoldable pub description : Scaler → String
unfolding itoa
description s =
    concat "GitHub Actions runner managed by scale set ID "
      (concat (itoa s.scale_set.id) (concat " within " (concat s.scale_set.namespace ".")))

-- The request of `createInstance`. Auto restart is off, and the network interface has the runner's
-- name, the description and automatic addresses of both kinds: these are constants of the request.
unfoldable pub create_params : World → Scaler → String → Image → String → CreateParams
unfolding boot_disk_size render_user_data description
create_params w s name image jit = record {
  project = s.instance_config.project;
  name = name;
  hostname = name;
  description = description s;
  disk_name = name;
  disk_size = boot_disk_size s.instance_config.boot_disk_gib image.size;
  image_id = image.id;
  memory = uint64 (s.instance_config.memory_gib * bytes_per_gib);
  ncpus = uint16 s.instance_config.cpus;
  vpc = s.instance_config.vpc;
  subnet = s.instance_config.subnet;
  start = true;
  user_data = w.base64 (render_user_data jit);
}

unfoldable pub create_instance : World → Scaler → String → Image → String → Effect (Result Instance)
unfolding create_params oxide_instance_create
create_instance w s name image jit = oxide_instance_create w (create_params w s name image jit)

unfoldable pub fetch_image : World → Scaler → Effect (Result Image)
unfolding oxide_image_view is_object_not_found
fetch_image w s = do
  a ← oxide_image_view w s.instance_config.image (some s.instance_config.project)
  elim a [
    | ok image ↦ pure (ok image)
    | err e ↦
        if is_object_not_found e
        then oxide_image_view w s.instance_config.image none
        else pure (err e)
  ]

-- Where a goroutine of `provisionRunners` stands: before it has a place in the semaphore, at the two
-- calls of `provisionRunner`, and done, with the place given back.
pub data Progress : Type 0 where
  waiting : Progress
  registering : Progress
  creating_instance : String → Progress
  done : Result Instance → Progress

pub record Worker : Type 0 where
  pub name : String
  pub progress : Progress

-- `fmt.Errorf("...: %w", err)` around an error.
abbrev pub wrap : String → Result Instance → Result Instance
wrap text (ok i) = ok i
wrap text (err e) = err (wrapped text e)

-- The answer of the JIT config request.
abbrev pub registered : Result String → Progress
registered (ok jit) = creating_instance jit
registered (err e) = done (err (wrapped "generating jit config" e))

-- `provisionRunner` from one call to what follows it.
unfoldable pub provision_step : World → Scaler → Image → String → Progress → Effect Progress
unfolding github_generate_jit_runner_config create_instance
provision_step w s image name registering = do
  a ← github_generate_jit_runner_config w name s.scale_set.id
  pure (registered a)
provision_step w s image name (creating_instance jit) = do
  a ← create_instance w s name image jit
  pure (done (wrap "creating instance" a))
provision_step w s image name p = pure p

abbrev pub has_returned : Progress → Bool
has_returned (done _) = true
has_returned _ = false

-- One step of a goroutine, which sees how many items are in the channel `semaphore`: the first one
-- sends and is held up by a full channel, and the one in which `provisionRunner` returns runs the
-- deferred receive, which is not held up since the goroutine's own item is there.
unfoldable pub advance : World → Scaler → Image → String → ℕ → Progress → Effect (ℕ × Progress)
unfolding provision_step
advance w s image name items waiting =
    pure (if ltb items provision_concurrency then (items + 1, registering) else (items, waiting))
advance w s image name items (done r) = pure (items, done r)
advance w s image name items p = do
  p' ← provision_step w s image name p
  pure (if has_returned p' then items - 1 else items, p')

-- A step of the goroutine at an index; a schedule that names none does nothing.
unfoldable pub advance_at : World → Scaler → Image → ℕ → ℕ → List Worker → Effect (ℕ × List Worker)
unfolding advance
advance_at w s image i items [] = pure (items, [])
advance_at w s image zero items (x ∷ xs) = do
  (items', p) ← advance w s image x.name items x.progress
  pure (items', record x { progress = p } ∷ xs)
advance_at w s image (suc i) items (x ∷ xs) = do
  (items', xs') ← advance_at w s image i items xs
  pure (items', x ∷ xs')

unfoldable pub run_schedule :
    World → Scaler → Image → List ℕ → ℕ → List Worker → Effect (ℕ × List Worker)
unfolding advance_at
run_schedule w s image [] items xs = pure (items, xs)
run_schedule w s image (i ∷ is) items xs = do
  (items', xs') ← advance_at w s image i items xs
  run_schedule w s image is items' xs'

-- The steps 0, 0, 0, 1, 1, 1, ... of n workers, from an index on.
unfoldable pub three_each : ℕ → ℕ → List ℕ
three_each zero i = []
three_each (suc n) i = i ∷ i ∷ i ∷ three_each n (suc i)

unfoldable pub new_workers : World → Scaler → Log → ℕ → ℕ → List Worker
unfolding new_runner_name
new_workers w s l zero i = []
new_workers w s l (suc n) i =
    record { name = new_runner_name w s l i; progress = waiting } ∷ new_workers w s l n (suc i)

-- What `wg.Wait()` waits for: the schedule runs, and then what it left undone is brought to its end,
-- so that every order in which the goroutines can finish is the run of some schedule.
unfoldable pub run_workers : World → Scaler → Image → ℕ → Effect (List Worker)
unfolding run_schedule three_each new_workers
run_workers w s image count l =
    let schedule = w.schedule l in
    let start = new_workers w s l count 0 in
    (do
      (items, xs) ← run_schedule w s image schedule 0 start
      (items', ys) ← run_schedule w s image (three_each count 0) items xs
      (items'', zs) ← run_schedule w s image (three_each count 0) items' ys
      pure zs)
      l

abbrev pub instance_created_of : Progress → Option Instance
instance_created_of (done (ok i)) = some i
instance_created_of _ = none

abbrev pub provision_failed : Progress → Bool
provision_failed (done (err e)) = true
provision_failed _ = false

-- The loop over the results: a failed attempt is marked, a successful one is tracked. The names of
-- the created runners come back.
unfoldable pub track_workers : World → List Worker → Map Runner → Effect (List String × Map Runner)
unfolding change_runner mark_for_teardown with_runner
track_workers w [] runners = pure ([], runners)
track_workers w (x ∷ xs) runners = elim (provision_failed x.progress) [
  | true ↦ do
    runners' ← change_runner x.name (mark_for_teardown w permanent) runners
    track_workers w xs runners'
  | false ↦ do
    let tracked =
        with_runner x.name (λ r. record r { instance_of = instance_created_of x.progress }) runners
    (created, runners') ← track_workers w xs tracked
    pure (x.name ∷ created, runners')
]

unfoldable pub provision_runners :
    World → Scaler → Map Runner → Image → ℕ → Effect (List String × Map Runner)
unfolding run_workers track_workers
provision_runners w s runners image count = do
  xs ← run_workers w s image count
  track_workers w xs runners
