-- ===== src/Scaler/Observe.antt =====
-- internal/scaler/reconcile.go: the view of the runners, rebuilt from Oxide's instances and disks.
pub mod View
pub mod Count
use oxide_gha_runner_scale_s.Prelude.{
  String, Bool, none, some, List, [], ◌∷◌, if◌then◌else◌, starts_with,
}
use oxide_gha_runner_scale_s.GoMap.{Map, insert}
use oxide_gha_runner_scale_s.Api.{Result, ok, err, wrapped, Instance, Disk}
use oxide_gha_runner_scale_s.Api.Effect.{Effect, pure, ◌>>=◌}
use oxide_gha_runner_scale_s.Scaler.Runner.{Runner, with_runner}
use oxide_gha_runner_scale_s.Scaler.World.{World, Scaler, oxide_instance_list, oxide_disk_list}
use oxide_gha_runner_scale_s.Scaler.Names.{name_prefix}

-- The entries whose name has the prefix, by name.
unfoldable pub owned_by_name {ℓ} : {A : Type ℓ} → String → (A → String) → List A → Map A → Map A
unfolding insert
owned_by_name prefix name_of [] owned = owned
owned_by_name prefix name_of (a ∷ xs) owned =
    owned_by_name prefix name_of xs
      (if starts_with (name_of a) prefix then insert (name_of a) a owned else owned)

unfoldable pub list_owned_instances : World → Scaler → Effect (Result (Map Instance))
unfolding oxide_instance_list owned_by_name name_prefix
list_owned_instances w s = do
  a ← oxide_instance_list w s.instance_config.project
  pure (elim a [ err e ↦ err e | ok is ↦ ok (owned_by_name (name_prefix w s) (λ i. i.name) is []) ])

unfoldable pub list_owned_disks : World → Scaler → Effect (Result (Map Disk))
unfolding oxide_disk_list owned_by_name name_prefix
list_owned_disks w s = do
  a ← oxide_disk_list w s.instance_config.project
  pure (elim a [ err e ↦ err e | ok ds ↦ ok (owned_by_name (name_prefix w s) (λ d. d.name) ds []) ])

-- `runner.instance = nil` and `runner.disk = nil`, for every runner.
unfoldable pub clear_resources : Map Runner → Map Runner
clear_resources [] = []
clear_resources ((k, r) ∷ m) = (k, record r { instance_of = none; disk = none }) ∷ clear_resources m

unfoldable pub set_instances : Map Instance → Map Runner → Map Runner
unfolding with_runner
set_instances [] runners = runners
set_instances ((name, i) ∷ is) runners =
    set_instances is (with_runner name (λ r. record r { instance_of = some i }) runners)

unfoldable pub set_disks : Map Disk → Map Runner → Map Runner
unfolding with_runner
set_disks [] runners = runners
set_disks ((name, d) ∷ ds) runners =
    set_disks ds (with_runner name (λ r. record r { disk = some d }) runners)

-- What follows the two listings.
unfoldable pub observed : Map Instance → Map Disk → Map Runner → Map Runner
unfolding clear_resources set_instances set_disks
observed is ds runners = set_disks ds (set_instances is (clear_resources runners))

unfoldable pub observe_runners : World → Scaler → Map Runner → Effect (Result (Map Runner))
unfolding list_owned_instances list_owned_disks observed
observe_runners w s runners = do
  a ← list_owned_instances w s
  elim a [
    | err e ↦ pure (err (wrapped "listing owned instances" e))
    | ok is ↦ do
      b ← list_owned_disks w s
      pure (elim b [
        | err e ↦ err (wrapped "listing owned disks" e)
        | ok ds ↦ ok (observed is ds runners)
      ])
  ]
