-- ===== src/Scaler/Provision/Sizes.antt =====
-- The size of a boot disk.
use oxide_gha_runner_scale_s.Prelude.{ℕ, ◌+◌, ◌*◌, ◌%◌, ◌≡◌, ◌≤◌, ◌<◌, arith, ◌⊎◌}
use oxide_gha_runner_scale_s.Scaler.Config.{bytes_per_gib, max_byte_count_gib}
use oxide_gha_runner_scale_s.Scaler.Provision.{image_gib, boot_disk_size}

-- Within the range, the rounding up is the least number of GiB that hold the image.
image_gib_lem :
    (size : ℕ)
    → size ≤ max_byte_count_gib * bytes_per_gib
    → (size ≤ image_gib size * bytes_per_gib)
      × (image_gib size * bytes_per_gib < size + bytes_per_gib)
      × (image_gib size ≤ max_byte_count_gib)
unfolding image_gib
image_gib_lem size h = ground arith

-- For a configured size that the validation accepts, and an image of at most 2^34 - 1 GiB, the boot
-- disk is a whole number of GiB that holds the image and is no smaller than configured; it is the
-- configured size, or less than one GiB larger than the image; and nothing wraps around.
pub boot_disk_size_lem :
    (configured size : ℕ)
    → configured ≤ max_byte_count_gib
    → size ≤ max_byte_count_gib * bytes_per_gib
    → let disk = boot_disk_size configured size in
      (disk % bytes_per_gib ≡ 0)
      × (size ≤ disk)
      × (configured * bytes_per_gib ≤ disk)
      × ((disk ≡ configured * bytes_per_gib) ⊎ (disk < size + bytes_per_gib))
unfolding boot_disk_size
boot_disk_size_lem configured size small fits = ground (arith, image_gib_lem size fits)
