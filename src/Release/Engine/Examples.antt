-- ===== src/Release/Engine/Examples.antt =====
-- Tests of the release engine, and its theorems at concrete releases.
use quic_flow.Prelude.{
  ◌≡◌, refl, inl, ◌⊎◌, if◌then◌else◌, Bool, true, false, Option, none, some, List, [], ◌∷◌, returns,
  panics, arith,
}
use quic_flow.Prelude.Text.{Text, text_eq}
use quic_flow.Prelude.Map.{listed}
use quic_flow.Release.Engine.{
  pending, running, paused, success, failed, cancelled, TargetReleaseStatus, target_pending,
  target_success, target_failed, TargetResult, StrategyType, rolling_strategy, canary_strategy,
  ReleaseStrategy, Release, has_failed_targets, fail_release, complete_release, write_result, begun,
  ended, execute_target, execute_each, deploy_to, roll, batch_size_of, execute_rolling, split_at,
  split_canary, execute_canary, execute_release,
}
use quic_flow.Release.Engine.Targets.{settle_all}
use quic_flow.Release.Engine.Rolling.{rolled, execute_rolling_lem}
use quic_flow.Release.Engine.Canary.{
  Promotion, promote_each, promote_each-stuck, execute_canary-Halt, others, Halt, Unfinished,
}
use quic_flow.Release.Engine.Calls.{
  CreateReleaseRequest, new_results, new_release, default_strategy, create_release, start_release,
  cancel_release,
}
use quic_flow.Release.Engine.Ends.{create_release-run}
use quic_flow.Release.Engine.Steps.{
  World, at_rest, call_done, start_query, call_save, Reaches, cancel-undone,
}
use quic_flow.Release.Engine.Steps.Serial.{rest, next, OneRun, SerialReaches-OneRun}

abbrev a : Text
a = 97 ∷ []

abbrev b : Text
b = 98 ∷ []

abbrev c : Text
c = 99 ∷ []

abbrev d : Text
d = 100 ∷ []

abbrev all_targets : List Text
all_targets = a ∷ b ∷ c ∷ d ∷ []

abbrev refused : Text
refused = 120 ∷ []

-- The deployment to one target fails.
abbrev only_b : Text → Option Text
only_b t = if text_eq t b then some refused else none

abbrev only_d : Text → Option Text
only_d t = if text_eq t d then some refused else none

abbrev plain : StrategyType → ReleaseStrategy
plain t = record {
  strategy_type = t;
  batch_size = 2;
  canary_percent = 0;
  canary_targets = [];
  auto_promote = false;
}

abbrev release_with : StrategyType → Bool → Release
release_with t auto = record {
  id = 49 ∷ [];
  status = running;
  strategy = plain t;
  auto_rollback = auto;
  results = new_results all_targets;
}

abbrev rolling : Bool → Release
rolling auto = release_with rolling_strategy auto

abbrev in_canary : Release
in_canary = record (release_with canary_strategy false) { status = paused }

abbrev result : Text → TargetReleaseStatus → TargetResult
result t st = record { target_id = t; status = st; error = [] }

abbrev bad_result : Text → TargetResult
bad_result t = record { target_id = t; status = target_failed; error = refused }

-- With an automatic rollback the second batch is not reached.
rolling_auto :
    execute_rolling only_b all_targets (rolling true)
    ≡ some (record (rolling true) {
      status = failed;
      results =
          result a target_success
          ∷ bad_result b
          ∷ result c target_pending
          ∷ result d target_pending
          ∷ [];
    })
unfolding execute_rolling roll batch_size_of deploy_to execute_each execute_target write_result
    begun ended has_failed_targets fail_release complete_release new_results text_eq
rolling_auto = refl

rolling_manual :
    execute_rolling only_b all_targets (rolling false)
    ≡ some (record (rolling false) {
      status = success;
      results =
          result a target_success
          ∷ bad_result b
          ∷ result c target_success
          ∷ result d target_success
          ∷ [];
    })
unfolding execute_rolling roll batch_size_of deploy_to execute_each execute_target write_result
    begun ended has_failed_targets fail_release complete_release new_results text_eq
rolling_manual = refl

-- Half of four targets are the canary.
half_canary :
    split_canary (record (plain canary_strategy) { canary_percent = 50 }) all_targets
    ≡ returns (a ∷ b ∷ [], c ∷ d ∷ [])
unfolding split_canary split_at
half_canary = refl

too_many :
    split_canary (record (plain canary_strategy) { canary_percent = 150 }) all_targets ≡ panics
unfolding split_canary split_at
too_many = refl

execute_rolling_lem_example :
    execute_rolling only_b all_targets (rolling true)
    ≡ some (rolled only_b all_targets (rolling true))
unfolding listed has_failed_targets new_results text_eq
execute_rolling_lem_example =
    execute_rolling_lem only_b all_targets (rolling true) (refl, (refl, (refl, (refl, tt))))
      (refl, (refl, (refl, (refl, tt)))) refl

-- The second run loads the targets in another order.
abbrev two_promotions : List Promotion
two_promotions =
    record { deploy = only_b; targets = all_targets }
    ∷ record { deploy = only_d; targets = a ∷ d ∷ c ∷ b ∷ [] }
    ∷ []

promote_each-stuck_example :
    (rel' : Release) × (promote_each two_promotions in_canary ≡ returns rel')
    × Unfinished rel'.status
    × (others (a ∷ []) rel'.results ≡ others (a ∷ []) in_canary.results)
unfolding split_canary split_at listed text_eq
promote_each-stuck_example =
    promote_each-stuck two_promotions (a ∷ []) in_canary refl refl
      ((a ∷ [], b ∷ c ∷ d ∷ [], refl, (refl, tt)), ((a ∷ [], d ∷ c ∷ b ∷ [], refl, (refl, tt)), tt))
      (inl refl)

execute_canary-Halt_example :
    ((rel' : Release) × (execute_canary only_b all_targets in_canary ≡ returns rel')
      × Halt rel'.status)
    ⊎ ((execute_canary only_b all_targets in_canary ≡ panics)
        × (all_targets ≡ [])
        × (in_canary.strategy.canary_targets ≡ []))
execute_canary-Halt_example = execute_canary-Halt only_b all_targets in_canary (omega arith)

abbrev request : CreateReleaseRequest
request = record { asked = none; has_schedule = false }

abbrev made : Release
made = record {
  id = 49 ∷ [];
  status = pending;
  strategy = default_strategy none;
  auto_rollback = false;
  results = new_results (a ∷ b ∷ []);
}

create_release-run_example :
    execute_release only_b (some (a ∷ b ∷ [])) (record made { status = running })
    ≡ returns (record made {
      status = success;
      results = settle_all only_b (a ∷ b ∷ []) (new_results (a ∷ b ∷ []));
    })
unfolding create_release new_release listed text_eq
create_release-run_example =
    create_release-run only_b (49 ∷ []) false (a ∷ b ∷ []) request made refl (refl, (refl, tt)) refl

abbrev again : Release
again = record made { status = running }

abbrev started : World
started = record { stored = again; calls = []; runs = again ∷ [] }

-- One call after the other: the release is started.
SerialReaches-OneRun_example :
    OneRun started
    × Reaches (at_rest made) (record { stored = again; calls = []; runs = again ∷ again ∷ [] })
unfolding start_release at_rest call_done
SerialReaches-OneRun_example = SerialReaches-OneRun made again none started refl (
    next (next rest (start_query none refl) (omega arith))
      (call_save (record { copy = again; begins_run = true }) [] [] refl) (omega arith))

cancel-undone_example :
    (cancelled ≡ cancelled)
    × Reaches started (record started { stored = record made { status = cancelled } })
    × Reaches
        (record started { stored = record made { status = cancelled } })
        (record started {
          stored = record made {
            status = success;
            results = settle_all only_b (a ∷ b ∷ []) (new_results (a ∷ b ∷ []));
          };
          runs = [];
        })
    × Halt success
unfolding cancel_release
cancel-undone_example =
    cancel-undone started again _ (record made { status = cancelled }) only_b (some (a ∷ b ∷ []))
      refl refl create_release-run_example
