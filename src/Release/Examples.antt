-- ===== src/Release/Examples.antt =====
-- Tests and examples for pkg/release.
use quic_flow.Prelude.{ℕ, suc, ◌*◌, ◌≡◌, refl, true, false, none, some, List, [], ◌∷◌, arith}
use quic_flow.Prelude.Map.{lookup}
use quic_flow.Release.Config.{
  VersionDeployConfig, TaskOverrideConfig, ContainerDeployConfig, FinalContainerConfig,
  KubernetesDeployConfig,
}
use quic_flow.Release.Merge.{merge_container_config}
use quic_flow.Release.Merge.Precedence.{IsMerged, merge_container_config-IsMerged}
use quic_flow.Release.Retry.{
  RetryTask, RetryConfig, new_retry_queue, enqueue, worker, check_pending_tasks, get_task_key,
  calculate_backoff, attempts_of,
}
use quic_flow.Release.Retry.Bounds.{Event, enqueues, works, ticks, IsBounded, run, run-IsBounded}
use quic_flow.Release.Retry.Resend.{quiet, enqueue-sent_again}

abbrev project : ContainerDeployConfig
project = record {
  registry = [];
  registry_user = [];
  registry_pass = [];
  image_pull_policy = [];
  container_name = [];
  hostname = [];
  user = [];
  ports = [];
  network_mode = [];
  networks = [];
  dns = [];
  extra_hosts = [];
  volumes = [];
  tmpfs_mounts = [];
  privileged = false;
  cap_add = [];
  cap_drop = (b'n' ∷ []) ∷ [];
  security_opt = [];
  read_only_rootfs = false;
  devices = [];
  gpus = [];
  runtime = [];
  init = false;
  stop_signal = [];
  sysctls = [];
  log_driver = [];
  log_opts = [];
  restart_policy = [];
  stop_timeout = 0;
  remove_old = false;
  pull_before_stop = false;
  auto_remove = false;
  image = b'p' ∷ [];
  working_dir = [];
  environment = (b'k' ∷ [], b'1' ∷ []) ∷ [];
  labels = [];
  command = [];
  entrypoint = [];
  health_check = none;
  pre_script = [];
  post_script = [];
  memory_limit = [];
  cpu_limit = [];
  memory_reserve = [];
  default_resources = none;
}

abbrev version : VersionDeployConfig
version = record {
  image = b'v' ∷ [];
  environment = (b'k' ∷ [], b'2' ∷ []) ∷ [];
  resources = none;
  replicas = some 0;
  command = [];
  entrypoint = [];
  working_dir = [];
  health_check = none;
  pre_script = [];
  post_script = [];
  k8s_yaml_patch = [];
  k8s_yaml_full = [];
}

abbrev task : TaskOverrideConfig
task = record {
  image = [];
  environment_add = (b'k' ∷ [], b'3' ∷ []) ∷ [];
  resources = none;
  replicas = none;
  command = [];
}

merge_container_config-IsMerged_example :
    (c : FinalContainerConfig) × (merge_container_config (some project) (some version) (some task)
      ≡ some c)
    × IsMerged project (some version) (some task) c
unfolding lookup
merge_container_config-IsMerged_example =
    merge_container_config-IsMerged project (some version) (some task) (refl, tt) (refl, tt)

abbrev cluster : KubernetesDeployConfig
cluster = record {
  kube_config = [];
  kube_context = [];
  namespace = [];
  resource_type = [];
  resource_name = [];
  container_name = [];
  registry = [];
  image_pull_policy = [];
  image_pull_secret = [];
  auto_scaling = false;
  service_type = [];
  service_ports = [];
  update_strategy = [];
  max_unavailable = [];
  max_surge = [];
  min_ready_seconds = 0;
  deploy_timeout = 0;
  rollout_timeout = 0;
  yaml = [];
  yaml_template = [];
  image = b'p' ∷ [];
  environment = [];
  pre_script = [];
  post_script = [];
  cpu_request = [];
  cpu_limit = [];
  memory_request = [];
  memory_limit = [];
  default_replicas = 0;
  replicas = 2;
  default_resources = none;
}

abbrev limits : RetryConfig
limits = record { max_attempts = 2; max_backoff = 600; queue_size = 1 }

abbrev callback : RetryTask
callback = record {
  id = [];
  task_id = b't' ∷ [];
  callback_id = b'c' ∷ [];
  channel_type = b'w' ∷ [];
  event_type = b'e' ∷ [];
  attempt_count = 0;
  max_attempts = 3;
  next_retry_time = none;
  created_at = 0;
}

abbrev five : ℕ → ℕ
five attempt = 5 * suc attempt

abbrev trouble : List Event
trouble =
    enqueues 0 (b'1' ∷ []) (some callback)
    ∷ enqueues 1 (b'2' ∷ []) (some callback)
    ∷ works 2 false
    ∷ ticks 30
    ∷ works 31 true
    ∷ []

run-IsBounded_example : IsBounded limits (run five trouble (new_retry_queue limits))
run-IsBounded_example = run-IsBounded limits five trouble

enqueue-sent_again_example :
    let accepted = (enqueue five 0 (b'1' ∷ []) (some callback) (quiet limits 1 [] [])).0 in
    let sent = worker five 1 true accepted in
    (sent.queue ≡ [])
    × (lookup (get_task_key callback) sent.task_history ≡ none)
    × ((check_pending_tasks 10 sent).queue ≡ (b'1' ∷ []) ∷ [])
unfolding attempts_of lookup calculate_backoff
enqueue-sent_again_example =
    enqueue-sent_again limits five 1 0 1 10 (b'1' ∷ []) callback [] [] tt refl (omega arith)
      (omega arith) (omega arith)
