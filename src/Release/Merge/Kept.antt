-- ===== src/Release/Merge/Kept.antt =====
-- The settings of a container that no version and no task changes (pkg/release/models/config_merge.go).
use quic_flow.Prelude.{◌≡◌, refl, Option, none, some}
use quic_flow.Release.Config.{
  ResourceLimits, VersionDeployConfig, TaskOverrideConfig, ContainerDeployConfig,
  FinalContainerConfig,
}
use quic_flow.Release.Merge.{if_given, from_project, limit_container, version_over, task_over}

-- They are the project's, and the two that the merge never sets are 0.
abbrev pub KeepsProject : ContainerDeployConfig → FinalContainerConfig → Type 0
KeepsProject p c =
    (c.registry ≡ p.registry)
    × (c.registry_user ≡ p.registry_user)
    × (c.registry_pass ≡ p.registry_pass)
    × (c.image_pull_policy ≡ p.image_pull_policy)
    × (c.container_name ≡ p.container_name)
    × (c.hostname ≡ p.hostname)
    × (c.user ≡ p.user)
    × (c.ports ≡ p.ports)
    × (c.network_mode ≡ p.network_mode)
    × (c.networks ≡ p.networks)
    × (c.dns ≡ p.dns)
    × (c.extra_hosts ≡ p.extra_hosts)
    × (c.volumes ≡ p.volumes)
    × (c.tmpfs_mounts ≡ p.tmpfs_mounts)
    × (c.privileged ≡ p.privileged)
    × (c.cap_add ≡ p.cap_add)
    × (c.cap_drop ≡ p.cap_drop)
    × (c.security_opt ≡ p.security_opt)
    × (c.read_only_rootfs ≡ p.read_only_rootfs)
    × (c.devices ≡ p.devices)
    × (c.gpus ≡ p.gpus)
    × (c.runtime ≡ p.runtime)
    × (c.init ≡ p.init)
    × (c.stop_signal ≡ p.stop_signal)
    × (c.sysctls ≡ p.sysctls)
    × (c.log_driver ≡ p.log_driver)
    × (c.log_opts ≡ p.log_opts)
    × (c.restart_policy ≡ p.restart_policy)
    × (c.stop_timeout ≡ p.stop_timeout)
    × (c.remove_old ≡ p.remove_old)
    × (c.pull_before_stop ≡ p.pull_before_stop)
    × (c.auto_remove ≡ p.auto_remove)
    × (c.labels ≡ p.labels)
    × (c.cpu_shares ≡ 0)
    × (c.restart_max_retries ≡ 0)

from_project-KeepsProject : (p : ContainerDeployConfig) → KeepsProject p (from_project p)
unfolding from_project
from_project-KeepsProject p = (
  refl, refl, refl, refl, refl, refl, refl, refl, refl, refl, refl, refl, refl, refl, refl, refl,
  refl, refl, refl, refl, refl, refl, refl, refl, refl, refl, refl, refl, refl, refl, refl, refl,
  refl, refl, refl,
)

limit_container-KeepsProject :
    (p : ContainerDeployConfig) (r : Option ResourceLimits) (c : FinalContainerConfig)
    → KeepsProject p c
    → KeepsProject p (limit_container r c)
unfolding limit_container
limit_container-KeepsProject p none c k = k
limit_container-KeepsProject p (some r) c k = k

version_over-KeepsProject :
    (p : ContainerDeployConfig) (version : Option VersionDeployConfig) (c : FinalContainerConfig)
    → KeepsProject p c
    → KeepsProject p (if_given version_over version c)
unfolding version_over
version_over-KeepsProject p none c k = k
version_over-KeepsProject p (some v) c k = limit_container-KeepsProject p v.resources _ k

task_over-KeepsProject :
    (p : ContainerDeployConfig) (task : Option TaskOverrideConfig) (c : FinalContainerConfig)
    → KeepsProject p c
    → KeepsProject p (if_given task_over task c)
unfolding task_over
task_over-KeepsProject p none c k = k
task_over-KeepsProject p (some t) c k = limit_container-KeepsProject p t.resources _ k

pub merged-KeepsProject :
    (p : ContainerDeployConfig) (version : Option VersionDeployConfig)
    (task : Option TaskOverrideConfig)
    → KeepsProject p (if_given task_over task (if_given version_over version (from_project p)))
merged-KeepsProject p version task =
    task_over-KeepsProject p task (if_given version_over version (from_project p))
      (version_over-KeepsProject p version (from_project p) (from_project-KeepsProject p))
