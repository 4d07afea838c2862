-- ===== src/Release/Merge/Cluster.antt =====
-- What the merge of pkg/release/models/config_merge.go gives for a cluster.
use quic_flow.Prelude.{ℕ, ◌<◌, ◌≡◌, refl, ltb, if◌then◌else◌, Option, none, some, [], arith}
use quic_flow.Prelude.Text.{Text, is_empty}
use quic_flow.Prelude.Map.{IsMap, lookup}
use quic_flow.Release.Config.{
  ResourceLimits, VersionDeployConfig, TaskOverrideConfig, KubernetesDeployConfig, FinalK8sConfig,
}
use quic_flow.Release.Merge.{
  merge_if_any, if_given, merge_k8s_config, k8s_from_project, k8s_limits, first_positive, limit_k8s,
  k8s_yaml, k8s_version_over, k8s_task_over,
}
use quic_flow.Release.Merge.Precedence.{
  first_text, first_list, or_else, of, version_limit, task_limit, own_limit, lookup-merge_if_any,
}

-- The first number of replicas that is given and positive, and else the last.
abbrev pub positive : Option ℕ → ℕ → ℕ
positive none old = old
positive (some n) old = if ltb 0 n then n else old

abbrev pub version_replicas : Option VersionDeployConfig → Option ℕ
version_replicas none = none
version_replicas (some v) = v.replicas

abbrev pub task_replicas : Option TaskOverrideConfig → Option ℕ
task_replicas none = none
task_replicas (some t) = t.replicas

abbrev pub own_replicas : KubernetesDeployConfig → ℕ
own_replicas p = positive (some p.default_replicas) (positive (some p.replicas) 1)

-- The YAML and the template: a full text of the version wins over its patch.
abbrev pub merged_yaml : KubernetesDeployConfig → Option VersionDeployConfig → Text × Text
merged_yaml p none = (p.yaml, p.yaml_template)
merged_yaml p (some v) = (
  if is_empty v.k8s_yaml_full then p.yaml else v.k8s_yaml_full,
  if is_empty v.k8s_yaml_full
      then (if is_empty v.k8s_yaml_patch then p.yaml_template else v.k8s_yaml_patch)
      else p.yaml_template,
)

pub record IsClusterMerged (p : KubernetesDeployConfig) (version : Option VersionDeployConfig)
    (task : Option TaskOverrideConfig) (c : FinalK8sConfig) : Type 0 where
  pub image :
      c.image
      ≡ first_text
          (of (λ (t : TaskOverrideConfig). t.image) task)
          (of (λ (v : VersionDeployConfig). v.image) version)
          p.image
  pub command :
      c.command
      ≡ first_list
          (of (λ (t : TaskOverrideConfig). t.command) task)
          (of (λ (v : VersionDeployConfig). v.command) version)
          []
  pub cpu_request :
      c.cpu_request
      ≡ first_text
          (task_limit (λ (r : ResourceLimits). r.cpu_request) task)
          (version_limit (λ (r : ResourceLimits). r.cpu_request) version)
          (own_limit (λ (r : ResourceLimits). r.cpu_request) p.default_resources p.cpu_request)
  pub cpu_limit :
      c.cpu_limit
      ≡ first_text
          (task_limit (λ (r : ResourceLimits). r.cpu_limit) task)
          (version_limit (λ (r : ResourceLimits). r.cpu_limit) version)
          (own_limit (λ (r : ResourceLimits). r.cpu_limit) p.default_resources p.cpu_limit)
  pub memory_request :
      c.memory_request
      ≡ first_text
          (task_limit (λ (r : ResourceLimits). r.memory_request) task)
          (version_limit (λ (r : ResourceLimits). r.memory_request) version)
          (own_limit
            (λ (r : ResourceLimits). r.memory_request)
            p.default_resources
            p.memory_request)
  pub memory_limit :
      c.memory_limit
      ≡ first_text
          (task_limit (λ (r : ResourceLimits). r.memory_limit) task)
          (version_limit (λ (r : ResourceLimits). r.memory_limit) version)
          (own_limit (λ (r : ResourceLimits). r.memory_limit) p.default_resources p.memory_limit)
  pub replicas :
      c.replicas
      ≡ positive (task_replicas task) (positive (version_replicas version) (own_replicas p))
  pub some_replica : 0 < c.replicas
  pub yaml : c.yaml ≡ (merged_yaml p version).0
  pub yaml_template : c.yaml_template ≡ (merged_yaml p version).1
  pub environment :
      (k : Text)
      → lookup k c.environment
        ≡ or_else (lookup k (of (λ (t : TaskOverrideConfig). t.environment_add) task)) (
            or_else
              (lookup k (of (λ (v : VersionDeployConfig). v.environment) version))
              (lookup k p.environment))
  pub namespace : c.namespace ≡ p.namespace
  pub resource_name : c.resource_name ≡ p.resource_name
  pub auto_scaling : c.auto_scaling ≡ p.auto_scaling

merged-IsClusterMerged :
    (p : KubernetesDeployConfig) (version : Option VersionDeployConfig)
    (task : Option TaskOverrideConfig)
    → IsMap (of (λ (v : VersionDeployConfig). v.environment) version)
    → IsMap (of (λ (t : TaskOverrideConfig). t.environment_add) task)
    → IsClusterMerged p version task
        (if_given k8s_task_over task (if_given k8s_version_over version (k8s_from_project p)))
unfolding k8s_from_project k8s_limits first_positive k8s_version_over k8s_task_over limit_k8s
    k8s_yaml lookup
merged-IsClusterMerged p none none u w = record {
  image = ground arith;
  command = ground arith;
  cpu_request = ground arith;
  cpu_limit = ground arith;
  memory_request = ground arith;
  memory_limit = ground arith;
  replicas = ground arith;
  some_replica = ground arith;
  yaml = ground arith;
  yaml_template = ground arith;
  environment = λ k. refl;
  namespace = ground arith;
  resource_name = ground arith;
  auto_scaling = ground arith;
}
merged-IsClusterMerged p none (some t) u w = record {
  image = ground arith;
  command = ground arith;
  cpu_request = ground arith;
  cpu_limit = ground arith;
  memory_request = ground arith;
  memory_limit = ground arith;
  replicas = ground arith;
  some_replica = ground arith;
  yaml = ground arith;
  yaml_template = ground arith;
  environment = λ k. ground (arith, lookup-merge_if_any k p.environment t.environment_add w);
  namespace = ground arith;
  resource_name = ground arith;
  auto_scaling = ground arith;
}
merged-IsClusterMerged p (some v) none u w = record {
  image = ground arith;
  command = ground arith;
  cpu_request = ground arith;
  cpu_limit = ground arith;
  memory_request = ground arith;
  memory_limit = ground arith;
  replicas = ground arith;
  some_replica = ground arith;
  yaml = ground arith;
  yaml_template = ground arith;
  environment = λ k. ground (arith, lookup-merge_if_any k p.environment v.environment u);
  namespace = ground arith;
  resource_name = ground arith;
  auto_scaling = ground arith;
}
merged-IsClusterMerged p (some v) (some t) u w = record {
  image = ground arith;
  command = ground arith;
  cpu_request = ground arith;
  cpu_limit = ground arith;
  memory_request = ground arith;
  memory_limit = ground arith;
  replicas = ground arith;
  some_replica = ground arith;
  yaml = ground arith;
  yaml_template = ground arith;
  environment = λ k. ground (
    arith,
    lookup-merge_if_any k (merge_if_any p.environment v.environment) t.environment_add w,
    lookup-merge_if_any k p.environment v.environment u,
  );
  namespace = ground arith;
  resource_name = ground arith;
  auto_scaling = ground arith;
}

-- Merging a project's cluster configuration with a version's and a task's, where each may be missing,
-- gives a configuration with at least one replica. Its image, command, limits and replicas are the
-- task's, or else the version's, or else the project's, where a number of replicas counts only if it
-- is positive; each variable of the environment goes by the same order; a full YAML of the version
-- replaces the project's, and else its patch replaces the template; namespace, resource and scaling
-- are the project's.
pub merge_k8s_config-IsClusterMerged :
    (p : KubernetesDeployConfig) (version : Option VersionDeployConfig)
    (task : Option TaskOverrideConfig)
    → IsMap (of (λ (v : VersionDeployConfig). v.environment) version)
    → IsMap (of (λ (t : TaskOverrideConfig). t.environment_add) task)
    → (c : FinalK8sConfig) × (merge_k8s_config (some p) version task ≡ some c)
      × IsClusterMerged p version task c
unfolding merge_k8s_config
merge_k8s_config-IsClusterMerged p version task u w = (
  if_given k8s_task_over task (if_given k8s_version_over version (k8s_from_project p)),
  refl,
  merged-IsClusterMerged p version task u w,
)
