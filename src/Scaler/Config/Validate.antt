-- ===== src/Scaler/Config/Validate.antt =====
-- `InstanceConfig.Validate`, `Config.Validate`: an error value for each message.
use oxide_gha_runner_scale_s.Prelude.{
  not, Option, none, some, pos, ltb_ℤ, ltb, ◌==◌, str_eq, if◌then◌else◌,
}
use oxide_gha_runner_scale_s.Scaler.Config.{
  InstanceConfig, Config, max_byte_count_gib, max_uint16, max_int32,
}

pub data InstanceError : Type 0 where
  project_required image_required boot_disk_too_large cpus_zero cpus_too_many : InstanceError
  memory_zero memory_too_large vpc_required subnet_required : InstanceError

unfoldable pub validate_instance : InstanceConfig → Option InstanceError
validate_instance c =
    if str_eq c.project ""
    then some project_required
    else (if str_eq c.image ""
        then some image_required
        else (if ltb max_byte_count_gib c.boot_disk_gib
            then some boot_disk_too_large
            else (if c.cpus == 0
                then some cpus_zero
                else (if ltb max_uint16 c.cpus
                    then some cpus_too_many
                    else (if c.memory_gib == 0
                        then some memory_zero
                        else (if ltb max_byte_count_gib c.memory_gib
                            then some memory_too_large
                            else (if str_eq c.vpc ""
                                then some vpc_required
                                else (if str_eq c.subnet ""
                                    then some subnet_required
                                    else none))))))))

pub data ConfigError : Type 0 where
  namespace_required id_not_positive min_negative max_negative : ConfigError
  min_above_max max_too_large : ConfigError
  instance_error : InstanceError → ConfigError

-- `fmt.Errorf("instance: %w", err)`.
abbrev pub instance_result : Option InstanceError → Option ConfigError
instance_result none = none
instance_result (some e) = some (instance_error e)

unfoldable pub validate : Config → Option ConfigError
unfolding validate_instance
validate c =
    if str_eq c.scale_set.namespace ""
    then some namespace_required
    else (if not (ltb_ℤ (pos 0) c.scale_set.id)
        then some id_not_positive
        else (if ltb_ℤ c.min_runners (pos 0)
            then some min_negative
            else (if ltb_ℤ c.max_runners (pos 0)
                then some max_negative
                else (if ltb_ℤ c.max_runners c.min_runners
                    then some min_above_max
                    else (if ltb_ℤ (pos max_int32) c.max_runners
                        then some max_too_large
                        else instance_result (validate_instance c.instance_config))))))
