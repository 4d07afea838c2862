-- ===== src/Release/Engine.antt =====
-- pkg/release/engine/engine.go: how a release runs over its targets, and the calls that start,
-- cancel and promote it.
-- A target is known by its id. How the deployment to a target goes is an argument: the text of its
-- error, or `none`. The goroutines of a batch write to different entries of the results, and
-- `execute_target_comm` says that their order makes no difference; here they are taken in the order
-- of the batch. The copy of the release that a run works on is the argument; what the database holds
-- meanwhile is in Release.Engine.Steps. Sizes and percentages are naturals. Times, intervals and the
-- handlers are left out.
pub mod Targets
pub mod Rolling
pub mod Calls
pub mod Ends
pub mod Steps
pub mod Canary
mod Examples
use quic_flow.Prelude.{
  ℕ, zero, suc, ◌*◌, ◌/◌, ltb, ◌==◌, ◌&&◌, ◌||◌, if◌then◌else◌, Bool, true, false, Option, none,
  some, List, [], ◌∷◌, keep, not, take, drop, length, Outcome, returns, panics,
}
use quic_flow.Prelude.Text.{Text, text_eq}
use quic_flow.Prelude.Map.{listed}

pub data ReleaseStatus : Type 0 where
  pending scheduled approving running paused success failed cancelled rollback : ReleaseStatus

pub data TargetReleaseStatus : Type 0 where
  target_pending target_running target_success target_failed target_skipped target_rollback :
      TargetReleaseStatus

pub record TargetResult : Type 0 where
  pub target_id : Text
  pub status : TargetReleaseStatus
  pub error : Text

pub data StrategyType : Type 0 where
  rolling_strategy canary_strategy blue_green_strategy other_strategy : StrategyType

pub record ReleaseStrategy : Type 0 where
  pub strategy_type : StrategyType
  pub batch_size : ℕ
  pub canary_percent : ℕ
  pub canary_targets : List Text
  pub auto_promote : Bool

pub record Release : Type 0 where
  pub id : Text
  pub status : ReleaseStatus
  pub strategy : ReleaseStrategy
  pub auto_rollback : Bool  -- of a rollback configuration that is there
  pub results : List TargetResult

-- A write to the first entry of a target, which findTargetResult gives; no entry, no write.
pub write_result : Text → (TargetResult → TargetResult) → List TargetResult → List TargetResult
write_result id f [] = []
write_result id f (r ∷ rs) = if text_eq r.target_id id then f r ∷ rs else r ∷ write_result id f rs

pub begun : TargetResult → TargetResult
begun r = record r { status = target_running }

-- The error of an earlier run stays where the target now succeeds.
pub ended : Option Text → TargetResult → TargetResult
ended none r = record r { status = target_success }
ended (some e) r = record r { status = target_failed; error = e }

is_failed : TargetReleaseStatus → Bool
is_failed target_failed = true
is_failed _ = false

pub has_failed_targets : List TargetResult → Bool
unfolding is_failed
has_failed_targets [] = false
has_failed_targets (r ∷ rs) = is_failed r.status || has_failed_targets rs

unfoldable pub fail_release : Release → Release
fail_release rel = record rel { status = failed }

unfoldable pub complete_release : Release → Release
complete_release rel = record rel { status = success }

pub batch_size_of : Release → ℕ
batch_size_of rel = if rel.strategy.batch_size == 0 then 1 else rel.strategy.batch_size

-- The canary targets and the others; slicing past the end of the targets panics.
split_at : ℕ → List Text → Outcome (List Text × List Text)
split_at n ts = if ltb (length ts) n then panics else returns (take n ts, drop n ts)

pub split_canary : ReleaseStrategy → List Text → Outcome (List Text × List Text)
unfolding split_at
split_canary s ts = elim s.canary_targets [
  | c ∷ cs ↦
      returns
        (keep (λ t. listed t s.canary_targets) ts, keep (λ t. not (listed t s.canary_targets)) ts)
  | [] ↦
      let count = length ts * s.canary_percent / 100 in
      if s.canary_percent == 0
      then split_at 1 ts
      else split_at (if ltb count 1 then 1 else count) ts
]

module _ (deploy : Text → Option Text) where
  pub execute_target : Text → List TargetResult → List TargetResult
  unfolding write_result begun ended
  execute_target id rs = write_result id (ended (deploy id)) (write_result id begun rs)

  pub execute_each : List Text → List TargetResult → List TargetResult
  unfolding execute_target
  execute_each [] rs = rs
  execute_each (id ∷ ids) rs = execute_each ids (execute_target id rs)

  pub deploy_to : List Text → Release → Release
  unfolding execute_each
  deploy_to ids rel = record rel { results = execute_each ids rel.results }

  -- The batches of the targets that are left. Each takes one target at least, so that as much fuel as
  -- there are targets is enough; `none` means that it ran out.
  pub roll : ℕ → ℕ → List Text → Release → Option Release
  unfolding deploy_to has_failed_targets fail_release complete_release
  roll fuel b [] rel = some (complete_release rel)
  roll zero b (t ∷ ts) rel = none
  roll (suc fuel) b (t ∷ ts) rel =
      let rel' = deploy_to (take b (t ∷ ts)) rel in
      let rest = roll fuel b (drop b (t ∷ ts)) rel' in
      if has_failed_targets rel'.results && rel.auto_rollback
      then some (fail_release rel')
      else rest

  pub execute_rolling : List Text → Release → Option Release
  unfolding roll batch_size_of
  execute_rolling ts rel = roll (length ts) (batch_size_of rel) ts rel

  -- Behind the canary targets.
  pub verify_canary : List Text → Release → Release
  unfolding deploy_to has_failed_targets fail_release complete_release
  verify_canary rest rel =
      if has_failed_targets rel.results
      then fail_release rel
      else if rel.strategy.auto_promote
      then complete_release (deploy_to rest rel)
      else record rel { status = paused }

  canary_run : Outcome (List Text × List Text) → Release → Outcome Release
  unfolding verify_canary deploy_to
  canary_run panics rel = panics
  canary_run (returns (first, rest)) rel = returns (verify_canary rest (deploy_to first rel))

  pub execute_canary : List Text → Release → Outcome Release
  unfolding canary_run split_canary
  execute_canary ts rel = canary_run (split_canary rel.strategy ts) rel

  pub execute_blue_green : List Text → Release → Release
  unfolding deploy_to has_failed_targets fail_release complete_release
  execute_blue_green ts rel =
      let rel' = deploy_to ts rel in
      if has_failed_targets rel'.results then fail_release rel' else complete_release rel'

-- The record as it is when the fuel of `roll` has run out, which it does not.
or_unchanged : Release → Option Release → Release
or_unchanged rel none = rel
or_unchanged rel (some rel') = rel'

by_strategy : StrategyType → (Text → Option Text) → List Text → Release → Outcome Release
unfolding execute_rolling execute_canary execute_blue_green or_unchanged
by_strategy canary_strategy deploy ts rel = execute_canary deploy ts rel
by_strategy blue_green_strategy deploy ts rel = returns (execute_blue_green deploy ts rel)
by_strategy rolling_strategy deploy ts rel =
    returns (or_unchanged rel (execute_rolling deploy ts rel))
by_strategy other_strategy deploy ts rel =
    returns (or_unchanged rel (execute_rolling deploy ts rel))

-- `targets` is `none` where the project or the environment cannot be loaded.
pub execute_release : (Text → Option Text) → Option (List Text) → Release → Outcome Release
unfolding by_strategy fail_release
execute_release deploy none rel = returns (fail_release rel)
execute_release deploy (some ts) rel = by_strategy rel.strategy.strategy_type deploy ts rel
