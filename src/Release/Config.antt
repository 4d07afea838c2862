-- ===== src/Release/Config.antt =====
-- The deployment configurations of pkg/release/models/models.go and config_merge.go, with the fields
-- that the merge reads or writes. A nil slice or map reads as an empty one. An integer that is not
-- positive where the code tests for that is 0. Port, volume, device and health-check settings, which
-- are only copied, are known by numbers.
use quic_flow.Prelude.{ℕ, Bool, Option, List}
use quic_flow.Prelude.Text.{Text}
use quic_flow.Prelude.Map.{Map}

pub record ResourceLimits : Type 0 where
  pub cpu_request : Text
  pub cpu_limit : Text
  pub memory_request : Text
  pub memory_limit : Text

pub record VersionDeployConfig : Type 0 where
  pub image : Text
  pub environment : Map Text
  pub resources : Option ResourceLimits
  pub replicas : Option ℕ
  pub command : List Text
  pub entrypoint : List Text
  pub working_dir : Text
  pub health_check : Option ℕ
  pub pre_script : Text
  pub post_script : Text
  pub k8s_yaml_patch : Text
  pub k8s_yaml_full : Text

pub record TaskOverrideConfig : Type 0 where
  pub image : Text
  pub environment_add : Map Text
  pub resources : Option ResourceLimits
  pub replicas : Option ℕ
  pub command : List Text

pub record ContainerDeployConfig : Type 0 where
  pub registry : Text
  pub registry_user : Text
  pub registry_pass : Text
  pub image_pull_policy : Text
  pub container_name : Text
  pub hostname : Text
  pub user : Text
  pub ports : List ℕ
  pub network_mode : Text
  pub networks : List Text
  pub dns : List Text
  pub extra_hosts : List Text
  pub volumes : List ℕ
  pub tmpfs_mounts : List ℕ
  pub privileged : Bool
  pub cap_add : List Text
  pub cap_drop : List Text
  pub security_opt : List Text
  pub read_only_rootfs : Bool
  pub devices : List ℕ
  pub gpus : Text
  pub runtime : Text
  pub init : Bool
  pub stop_signal : Text
  pub sysctls : Map Text
  pub log_driver : Text
  pub log_opts : Map Text
  pub restart_policy : Text
  pub stop_timeout : ℕ
  pub remove_old : Bool
  pub pull_before_stop : Bool
  pub auto_remove : Bool
  pub image : Text
  pub working_dir : Text
  pub environment : Map Text
  pub labels : Map Text
  pub command : List Text
  pub entrypoint : List Text
  pub health_check : Option ℕ
  pub pre_script : Text
  pub post_script : Text
  pub memory_limit : Text
  pub cpu_limit : Text
  pub memory_reserve : Text
  pub default_resources : Option ResourceLimits

-- CPUShares and RestartMaxRetries stand in it too, and keep their zero.
pub record FinalContainerConfig : Type 0 where
  pub registry : Text
  pub registry_user : Text
  pub registry_pass : Text
  pub image_pull_policy : Text
  pub container_name : Text
  pub hostname : Text
  pub user : Text
  pub ports : List ℕ
  pub network_mode : Text
  pub networks : List Text
  pub dns : List Text
  pub extra_hosts : List Text
  pub volumes : List ℕ
  pub tmpfs_mounts : List ℕ
  pub privileged : Bool
  pub cap_add : List Text
  pub cap_drop : List Text
  pub security_opt : List Text
  pub read_only_rootfs : Bool
  pub devices : List ℕ
  pub gpus : Text
  pub runtime : Text
  pub init : Bool
  pub stop_signal : Text
  pub sysctls : Map Text
  pub log_driver : Text
  pub log_opts : Map Text
  pub restart_policy : Text
  pub stop_timeout : ℕ
  pub remove_old : Bool
  pub pull_before_stop : Bool
  pub auto_remove : Bool
  pub image : Text
  pub working_dir : Text
  pub environment : Map Text
  pub labels : Map Text
  pub command : List Text
  pub entrypoint : List Text
  pub health_check : Option ℕ
  pub pre_script : Text
  pub post_script : Text
  pub memory_limit : Text
  pub cpu_limit : Text
  pub memory_reserve : Text
  pub cpu_shares : ℕ
  pub restart_max_retries : ℕ

pub record KubernetesDeployConfig : Type 0 where
  pub kube_config : Text
  pub kube_context : Text
  pub namespace : Text
  pub resource_type : Text
  pub resource_name : Text
  pub container_name : Text
  pub registry : Text
  pub image_pull_policy : Text
  pub image_pull_secret : Text
  pub auto_scaling : Bool
  pub service_type : Text
  pub service_ports : List ℕ
  pub update_strategy : Text
  pub max_unavailable : Text
  pub max_surge : Text
  pub min_ready_seconds : ℕ
  pub deploy_timeout : ℕ
  pub rollout_timeout : ℕ
  pub yaml : Text
  pub yaml_template : Text
  pub image : Text
  pub environment : Map Text
  pub pre_script : Text
  pub post_script : Text
  pub cpu_request : Text
  pub cpu_limit : Text
  pub memory_request : Text
  pub memory_limit : Text
  pub default_replicas : ℕ
  pub replicas : ℕ
  pub default_resources : Option ResourceLimits

pub record FinalK8sConfig : Type 0 where
  pub kube_config : Text
  pub kube_context : Text
  pub namespace : Text
  pub resource_type : Text
  pub resource_name : Text
  pub container_name : Text
  pub registry : Text
  pub image_pull_policy : Text
  pub image_pull_secret : Text
  pub auto_scaling : Bool
  pub service_type : Text
  pub service_ports : List ℕ
  pub update_strategy : Text
  pub max_unavailable : Text
  pub max_surge : Text
  pub min_ready_seconds : ℕ
  pub deploy_timeout : ℕ
  pub rollout_timeout : ℕ
  pub yaml : Text
  pub yaml_template : Text
  pub image : Text
  pub environment : Map Text
  pub pre_script : Text
  pub post_script : Text
  pub cpu_request : Text
  pub cpu_limit : Text
  pub memory_request : Text
  pub memory_limit : Text
  pub replicas : ℕ
  pub command : List Text
  pub entrypoint : List Text
  pub working_dir : Text
