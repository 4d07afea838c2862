-- ===== src/Release/Merge/Precedence.antt =====
-- What the merge of pkg/release/models/config_merge.go gives for each field: the task's setting before
-- the version's before the project's.
use quic_flow.Prelude.{ℕ, ◌≡◌, refl, if◌then◌else◌, Option, none, some, List, [], ◌∷◌, arith}
use quic_flow.Prelude.Text.{Text, is_empty, text_eq_iff}
use quic_flow.Prelude.Map.{Map, IsMap, lookup, insert, lookup-insert}
use quic_flow.Release.Config.{
  ResourceLimits, VersionDeployConfig, TaskOverrideConfig, ContainerDeployConfig,
  FinalContainerConfig,
}
use quic_flow.Release.Merge.Kept.{KeepsProject, merged-KeepsProject}
use quic_flow.Release.Merge.{
  merge_string_maps, merge_if_any, if_given, merge_container_config, from_project, project_limits,
  limit_container, version_over, task_over,
}

-- The first text of three that is not empty, and else the last; the same for lists.
abbrev pub first_text : Text → Text → Text → Text
first_text a b c = if is_empty a then (if is_empty b then c else b) else a

abbrev pub first_list : List Text → List Text → List Text → List Text
first_list [] [] c = c
first_list [] (x ∷ b) c = x ∷ b
first_list (x ∷ a) b c = x ∷ a

abbrev pub or_else {ℓ} : {A : Type ℓ} → Option A → Option A → Option A
or_else none b = b
or_else (some a) b = some a

-- A setting of a configuration that may be missing.
abbrev pub of {ℓ} : {A : Type ℓ} {B : Type 0} → (A → List B) → Option A → List B
of f none = []
of f (some a) = f a

abbrev pub version_limit : (ResourceLimits → Text) → Option VersionDeployConfig → Text
version_limit f none = []
version_limit f (some v) = of f v.resources

abbrev pub task_limit : (ResourceLimits → Text) → Option TaskOverrideConfig → Text
task_limit f none = []
task_limit f (some t) = of f t.resources

-- The project's own limit: the default resources hide the older field, also where they are empty.
abbrev pub own_limit : (ResourceLimits → Text) → Option ResourceLimits → Text → Text
own_limit f none old = old
own_limit f (some r) old = f r

lookup-merge :
    (k : Text) (base over : Map Text)
    → IsMap over
    → lookup k (merge_string_maps base over) ≡ or_else (lookup k over) (lookup k base)
unfolding lookup merge_string_maps
lookup-merge k base [] u = refl
lookup-merge k base ((j, v) ∷ over) u =
    let ih = lookup-merge k (insert j v base) over u.1 in
    let at = lookup-insert j k v base in
    let same = text_eq_iff j k in let once = u.0 in ground arith

pub lookup-merge_if_any :
    (k : Text) (base over : Map Text)
    → IsMap over
    → lookup k (merge_if_any base over) ≡ or_else (lookup k over) (lookup k base)
unfolding lookup
lookup-merge_if_any k base [] u = refl
lookup-merge_if_any k base (e ∷ over) u = lookup-merge k base (e ∷ over) u

-- The health check of a version that has one.
abbrev pub version_check : Option VersionDeployConfig → Option ℕ
version_check none = none
version_check (some v) = v.health_check

-- Every setting of the merged configuration.
pub record IsMerged (p : ContainerDeployConfig) (version : Option VersionDeployConfig)
    (task : Option TaskOverrideConfig) (c : FinalContainerConfig) : Type 0 where
  pub image :
      c.image
      ≡ first_text
          (of (λ (t : TaskOverrideConfig). t.image) task)
          (of (λ (v : VersionDeployConfig). v.image) version)
          p.image
  pub command :
      c.command
      ≡ first_list
          (of (λ (t : TaskOverrideConfig). t.command) task)
          (of (λ (v : VersionDeployConfig). v.command) version)
          p.command
  pub memory_limit :
      c.memory_limit
      ≡ first_text
          (task_limit (λ (r : ResourceLimits). r.memory_limit) task)
          (version_limit (λ (r : ResourceLimits). r.memory_limit) version)
          (own_limit (λ (r : ResourceLimits). r.memory_limit) p.default_resources p.memory_limit)
  pub cpu_limit :
      c.cpu_limit
      ≡ first_text
          (task_limit (λ (r : ResourceLimits). r.cpu_limit) task)
          (version_limit (λ (r : ResourceLimits). r.cpu_limit) version)
          (own_limit (λ (r : ResourceLimits). r.cpu_limit) p.default_resources p.cpu_limit)
  pub memory_reserve :
      c.memory_reserve
      ≡ first_text
          (task_limit (λ (r : ResourceLimits). r.memory_request) task)
          (version_limit (λ (r : ResourceLimits). r.memory_request) version)
          (own_limit
            (λ (r : ResourceLimits). r.memory_request)
            p.default_resources
            p.memory_reserve)
  pub entrypoint :
      c.entrypoint
      ≡ first_list [] (of (λ (v : VersionDeployConfig). v.entrypoint) version) p.entrypoint
  pub pre_script :
      c.pre_script
      ≡ first_text [] (of (λ (v : VersionDeployConfig). v.pre_script) version) p.pre_script
  pub post_script :
      c.post_script
      ≡ first_text [] (of (λ (v : VersionDeployConfig). v.post_script) version) p.post_script
  pub environment :
      (k : Text)
      → lookup k c.environment
        ≡ or_else (lookup k (of (λ (t : TaskOverrideConfig). t.environment_add) task)) (
            or_else
              (lookup k (of (λ (v : VersionDeployConfig). v.environment) version))
              (lookup k p.environment))
  pub working_dir :
      c.working_dir
      ≡ first_text [] (of (λ (v : VersionDeployConfig). v.working_dir) version) p.working_dir
  pub health_check : c.health_check ≡ or_else (version_check version) p.health_check
  pub kept : KeepsProject p c

merged_lem :
    (p : ContainerDeployConfig) (version : Option VersionDeployConfig)
    (task : Option TaskOverrideConfig)
    → IsMap (of (λ (v : VersionDeployConfig). v.environment) version)
    → IsMap (of (λ (t : TaskOverrideConfig). t.environment_add) task)
    → IsMerged p version task
        (if_given task_over task (if_given version_over version (from_project p)))
unfolding from_project project_limits version_over task_over limit_container lookup
merged_lem p none none u w = record {
  image = ground arith;
  command = ground arith;
  memory_limit = ground arith;
  cpu_limit = ground arith;
  memory_reserve = ground arith;
  entrypoint = ground arith;
  pre_script = ground arith;
  post_script = ground arith;
  environment = λ k. refl;
  working_dir = ground arith;
  health_check = ground arith;
  kept = merged-KeepsProject p none none;
}
merged_lem p none (some t) u w = record {
  image = ground arith;
  command = ground arith;
  memory_limit = ground arith;
  cpu_limit = ground arith;
  memory_reserve = ground arith;
  entrypoint = ground arith;
  pre_script = ground arith;
  post_script = ground arith;
  environment = λ k. ground (arith, lookup-merge_if_any k p.environment t.environment_add w);
  working_dir = ground arith;
  health_check = ground arith;
  kept = merged-KeepsProject p none (some t);
}
merged_lem p (some v) none u w = record {
  image = ground arith;
  command = ground arith;
  memory_limit = ground arith;
  cpu_limit = ground arith;
  memory_reserve = ground arith;
  entrypoint = ground arith;
  pre_script = ground arith;
  post_script = ground arith;
  environment = λ k. ground (arith, lookup-merge_if_any k p.environment v.environment u);
  working_dir = ground arith;
  health_check = ground arith;
  kept = merged-KeepsProject p (some v) none;
}
merged_lem p (some v) (some t) u w = record {
  image = ground arith;
  command = ground arith;
  memory_limit = ground arith;
  cpu_limit = ground arith;
  memory_reserve = ground arith;
  entrypoint = ground arith;
  pre_script = ground arith;
  post_script = ground arith;
  environment = λ k. ground (
    arith,
    lookup-merge_if_any k (merge_if_any p.environment v.environment) t.environment_add w,
    lookup-merge_if_any k p.environment v.environment u,
  );
  working_dir = ground arith;
  health_check = ground arith;
  kept = merged-KeepsProject p (some v) (some t);
}

-- Merging a project's container configuration with a version's and a task's, where each may be
-- missing, gives a configuration. Its image, command and limits are the task's, or else the version's,
-- or else the project's; its entry point, working directory, health check and scripts are the version's
-- or else the project's; each variable of the environment goes by the same order. All other settings
-- are the project's, but for the CPU shares and the limit of restarts, which are 0.
pub merge_container_config-IsMerged :
    (p : ContainerDeployConfig) (version : Option VersionDeployConfig)
    (task : Option TaskOverrideConfig)
    → IsMap (of (λ (v : VersionDeployConfig). v.environment) version)
    → IsMap (of (λ (t : TaskOverrideConfig). t.environment_add) task)
    → (c : FinalContainerConfig) × (merge_container_config (some p) version task ≡ some c)
      × IsMerged p version task c
unfolding merge_container_config
merge_container_config-IsMerged p version task u w = (
  if_given task_over task (if_given version_over version (from_project p)),
  refl,
  merged_lem p version task u w,
)
