-- ===== src/Release/Merge.antt =====
-- The merge of deployment configurations in pkg/release/models/config_merge.go: the project's, under
-- the version's, under the task's.
pub mod Kept
pub mod Precedence
pub mod Cluster
use quic_flow.Prelude.{
  ℕ, ltb, ◌==◌, if◌then◌else◌, Bool, true, false, Option, none, some, List, [], ◌∷◌,
}
use quic_flow.Prelude.Text.{Text, is_empty}
use quic_flow.Prelude.Map.{Map, insert}
use quic_flow.Release.Config.{
  ResourceLimits, VersionDeployConfig, TaskOverrideConfig, ContainerDeployConfig,
  FinalContainerConfig, KubernetesDeployConfig, FinalK8sConfig,
}

-- `if new != "" { field = new }`, and the same for a list that is not empty.
abbrev pub prefer : Text → Text → Text
prefer new old = if is_empty new then old else new

abbrev pub prefer_list : List Text → List Text → List Text
prefer_list [] old = old
prefer_list (x ∷ xs) old = x ∷ xs

abbrev prefer_some : Option ℕ → Option ℕ → Option ℕ
prefer_some none old = old
prefer_some (some n) old = some n

-- A number of replicas that is given and positive.
abbrev pub prefer_positive : Option ℕ → ℕ → ℕ
prefer_positive none old = old
prefer_positive (some n) old = if ltb 0 n then n else old

-- The second loop of mergeStringMaps writes over the copy of the first map.
unfoldable pub merge_string_maps : Map Text → Map Text → Map Text
merge_string_maps base [] = base
merge_string_maps base ((k, v) ∷ over) = merge_string_maps (insert k v base) over

abbrev merge_if_any : Map Text → Map Text → Map Text
merge_if_any base [] = base
merge_if_any base (e ∷ over) = merge_string_maps base (e ∷ over)

-- The project's limits: the default resources, or else the older fields.
project_limits : Option ResourceLimits → Text × Text × Text → Text × Text × Text
project_limits none own = own
project_limits (some r) own = (r.memory_limit, r.cpu_limit, r.memory_request)

pub from_project : ContainerDeployConfig → FinalContainerConfig
unfolding project_limits
from_project p =
    let (memory_limit, cpu_limit, memory_reserve) =
      project_limits p.default_resources (p.memory_limit, p.cpu_limit, p.memory_reserve) in
    record {
      registry = p.registry;
      registry_user = p.registry_user;
      registry_pass = p.registry_pass;
      image_pull_policy = p.image_pull_policy;
      container_name = p.container_name;
      hostname = p.hostname;
      user = p.user;
      ports = p.ports;
      network_mode = p.network_mode;
      networks = p.networks;
      dns = p.dns;
      extra_hosts = p.extra_hosts;
      volumes = p.volumes;
      tmpfs_mounts = p.tmpfs_mounts;
      privileged = p.privileged;
      cap_add = p.cap_add;
      cap_drop = p.cap_drop;
      security_opt = p.security_opt;
      read_only_rootfs = p.read_only_rootfs;
      devices = p.devices;
      gpus = p.gpus;
      runtime = p.runtime;
      init = p.init;
      stop_signal = p.stop_signal;
      sysctls = p.sysctls;
      log_driver = p.log_driver;
      log_opts = p.log_opts;
      restart_policy = p.restart_policy;
      stop_timeout = p.stop_timeout;
      remove_old = p.remove_old;
      pull_before_stop = p.pull_before_stop;
      auto_remove = p.auto_remove;
      image = p.image;
      working_dir = p.working_dir;
      environment = p.environment;
      labels = p.labels;
      command = p.command;
      entrypoint = p.entrypoint;
      health_check = p.health_check;
      pre_script = p.pre_script;
      post_script = p.post_script;
      memory_limit = memory_limit;
      cpu_limit = cpu_limit;
      memory_reserve = memory_reserve;
      cpu_shares = 0;
      restart_max_retries = 0;
    }

limit_container : Option ResourceLimits → FinalContainerConfig → FinalContainerConfig
limit_container none c = c
limit_container (some r) c = record c {
  memory_limit = prefer r.memory_limit c.memory_limit;
  cpu_limit = prefer r.cpu_limit c.cpu_limit;
  memory_reserve = prefer r.memory_request c.memory_reserve;
}

pub version_over : VersionDeployConfig → FinalContainerConfig → FinalContainerConfig
unfolding limit_container
version_over v c = limit_container v.resources (record c {
  image = prefer v.image c.image;
  working_dir = prefer v.working_dir c.working_dir;
  environment = merge_if_any c.environment v.environment;
  command = prefer_list v.command c.command;
  entrypoint = prefer_list v.entrypoint c.entrypoint;
  health_check = prefer_some v.health_check c.health_check;
  pre_script = prefer v.pre_script c.pre_script;
  post_script = prefer v.post_script c.post_script;
})

pub task_over : TaskOverrideConfig → FinalContainerConfig → FinalContainerConfig
unfolding limit_container
task_over t c = limit_container t.resources (record c {
  image = prefer t.image c.image;
  environment = merge_if_any c.environment t.environment_add;
  command = prefer_list t.command c.command;
})

-- `if x != nil { ... }`.
abbrev pub if_given {ℓ} : {A C : Type ℓ} → (A → C → C) → Option A → C → C
if_given f none c = c
if_given f (some a) c = f a c

unfoldable pub merge_container_config :
    Option ContainerDeployConfig
    → Option VersionDeployConfig
    → Option TaskOverrideConfig
    → Option FinalContainerConfig
unfolding from_project version_over task_over
merge_container_config none version task = none
merge_container_config (some p) version task =
    some (if_given task_over task (if_given version_over version (from_project p)))

first_positive : ℕ → ℕ → ℕ
first_positive a b = if ltb 0 a then a else if ltb 0 b then b else 1

limit_k8s : Option ResourceLimits → FinalK8sConfig → FinalK8sConfig
limit_k8s none c = c
limit_k8s (some r) c = record c {
  cpu_request = prefer r.cpu_request c.cpu_request;
  cpu_limit = prefer r.cpu_limit c.cpu_limit;
  memory_request = prefer r.memory_request c.memory_request;
  memory_limit = prefer r.memory_limit c.memory_limit;
}

k8s_limits : KubernetesDeployConfig → Option ResourceLimits → ResourceLimits
k8s_limits p (some r) = r
k8s_limits p none = record {
  cpu_request = p.cpu_request;
  cpu_limit = p.cpu_limit;
  memory_request = p.memory_request;
  memory_limit = p.memory_limit;
}

k8s_from_project : KubernetesDeployConfig → FinalK8sConfig
unfolding k8s_limits first_positive
k8s_from_project p =
    let r = k8s_limits p p.default_resources in
    record {
      kube_config = p.kube_config;
      kube_context = p.kube_context;
      namespace = p.namespace;
      resource_type = p.resource_type;
      resource_name = p.resource_name;
      container_name = p.container_name;
      registry = p.registry;
      image_pull_policy = p.image_pull_policy;
      image_pull_secret = p.image_pull_secret;
      auto_scaling = p.auto_scaling;
      service_type = p.service_type;
      service_ports = p.service_ports;
      update_strategy = p.update_strategy;
      max_unavailable = p.max_unavailable;
      max_surge = p.max_surge;
      min_ready_seconds = p.min_ready_seconds;
      deploy_timeout = p.deploy_timeout;
      rollout_timeout = p.rollout_timeout;
      yaml = p.yaml;
      yaml_template = p.yaml_template;
      image = p.image;
      environment = p.environment;
      pre_script = p.pre_script;
      post_script = p.post_script;
      cpu_request = r.cpu_request;
      cpu_limit = r.cpu_limit;
      memory_request = r.memory_request;
      memory_limit = r.memory_limit;
      replicas = first_positive p.default_replicas p.replicas;
      command = [];
      entrypoint = [];
      working_dir = [];
    }

-- The full YAML of a version replaces the project's; a patch only replaces the template.
k8s_yaml : VersionDeployConfig → FinalK8sConfig → FinalK8sConfig
k8s_yaml v c =
    if is_empty v.k8s_yaml_full
    then (if is_empty v.k8s_yaml_patch then c else record c { yaml_template = v.k8s_yaml_patch })
    else record c { yaml = v.k8s_yaml_full }

k8s_version_over : VersionDeployConfig → FinalK8sConfig → FinalK8sConfig
unfolding limit_k8s k8s_yaml
k8s_version_over v c = k8s_yaml v (
    limit_k8s v.resources (record c {
      image = prefer v.image c.image;
      working_dir = prefer v.working_dir c.working_dir;
      environment = merge_if_any c.environment v.environment;
      command = prefer_list v.command c.command;
      entrypoint = prefer_list v.entrypoint c.entrypoint;
      replicas = prefer_positive v.replicas c.replicas;
      pre_script = prefer v.pre_script c.pre_script;
      post_script = prefer v.post_script c.post_script;
    }))

k8s_task_over : TaskOverrideConfig → FinalK8sConfig → FinalK8sConfig
unfolding limit_k8s
k8s_task_over t c = limit_k8s t.resources (record c {
  image = prefer t.image c.image;
  environment = merge_if_any c.environment t.environment_add;
  command = prefer_list t.command c.command;
  replicas = prefer_positive t.replicas c.replicas;
})

unfoldable pub merge_k8s_config :
    Option KubernetesDeployConfig
    → Option VersionDeployConfig
    → Option TaskOverrideConfig
    → Option FinalK8sConfig
unfolding k8s_from_project k8s_version_over k8s_task_over
merge_k8s_config none version task = none
merge_k8s_config (some p) version task =
    some (if_given k8s_task_over task (if_given k8s_version_over version (k8s_from_project p)))
