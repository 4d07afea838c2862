-- ===== src/Release/Engine/Ends.antt =====
-- Where a run leaves a release (executeRelease of pkg/release/engine/engine.go).
use quic_flow.Prelude.{
  ℕ, zero, suc, ◌≤◌, ◌<◌, ◌≡◌, refl, ap, sym, ◌∙◌, inl, inr, ◌&&◌, Bool, Bool-cases, true, false,
  Option, none, some, List, [], ◌∷◌, length, take, drop, length-drop, Outcome, returns, panics,
  arith,
}
use quic_flow.Prelude.Text.{Text}
use quic_flow.Prelude.Map.{Distinct}
use quic_flow.Release.Engine.{
  success, running, StrategyType, rolling_strategy, canary_strategy, blue_green_strategy,
  other_strategy, Release, has_failed_targets, fail_release, complete_release, deploy_to, roll,
  batch_size_of, execute_rolling, split_canary, verify_canary, canary_run, execute_canary,
  execute_blue_green, or_unchanged, by_strategy, execute_release,
}
use quic_flow.Release.Engine.Targets.{ids, HaveResults, settle_all}
use quic_flow.Release.Engine.Rolling.{take_all, batch_size-pos, execute_rolling_lem}
use quic_flow.Release.Engine.Canary.{All-listed, Halt, verify_canary-Halt}
use quic_flow.Release.Engine.Calls.{
  CreateReleaseRequest, default_strategy, new_results, new_release, create_release,
}

module _ (deploy : Text → Option Text) where
  roll-Halt :
      (fuel b : ℕ) (ts : List Text) (rel : Release)
      → 0 < b
      → length ts ≤ fuel
      → (rel' : Release) × (roll deploy fuel b ts rel ≡ some rel') × Halt rel'.status
  unfolding roll fail_release complete_release
  roll-Halt fuel b [] rel pos enough = (_, refl, inl refl)
  roll-Halt zero b (t ∷ ts) rel pos enough = absurd (omega arith)
  roll-Halt (suc fuel) b (t ∷ ts) rel pos enough =
      let rel1 = deploy_to deploy (take b (t ∷ ts)) rel in
      elim (Bool-cases (has_failed_targets rel1.results && rel.auto_rollback)) [
        | inl stop ↦ (fail_release rel1, rw stop refl, inr (inr refl))
        | inr onward ↦
            let (rel', e, h) =
              roll-Halt fuel b (drop b (t ∷ ts)) rel1 pos (omega (arith, length-drop b (t ∷ ts))) in
            (rel', rw onward e, h)
      ]

  rolling-Halt :
      (ts : List Text) (rel : Release)
      → Halt (or_unchanged rel (execute_rolling deploy ts rel)).status
  unfolding execute_rolling or_unchanged
  rolling-Halt ts rel =
      let (rel', e, h) =
        roll-Halt (length ts) (batch_size_of rel) ts rel (batch_size-pos rel) (omega arith) in
      rw e h

  blue_green-Halt :
      (ts : List Text) (rel : Release) → Halt (execute_blue_green deploy ts rel).status
  unfolding execute_blue_green fail_release complete_release
  blue_green-Halt ts rel =
      elim (Bool-cases (has_failed_targets (deploy_to deploy ts rel).results)) [
        | inl bad ↦ rw bad (inr (inr refl))
        | inr fine ↦ rw fine (inl refl)
      ]

  canary_run-Halt :
      (split : Outcome (List Text × List Text)) (rel rel' : Release)
      → canary_run deploy split rel ≡ returns rel'
      → Halt rel'.status
  unfolding canary_run
  canary_run-Halt panics rel rel' e = absurd (cc e)
  canary_run-Halt (returns (first, rest)) rel rel' e =
      let same : verify_canary deploy rest (deploy_to deploy first rel) ≡ rel' = cc e in
      rw (sym same) (verify_canary-Halt deploy rest (deploy_to deploy first rel))

  returned-Halt :
      (rel rel' : Release) → returns rel ≡ returns rel' → Halt rel.status → Halt rel'.status
  returned-Halt rel rel' e h = let same : rel ≡ rel' = cc e in rw (sym same) h

  by_strategy-Halt :
      (t : StrategyType) (ts : List Text) (rel rel' : Release)
      → by_strategy t deploy ts rel ≡ returns rel'
      → Halt rel'.status
  unfolding by_strategy execute_canary
  by_strategy-Halt canary_strategy ts rel rel' e =
      canary_run-Halt (split_canary rel.strategy ts) rel rel' e
  by_strategy-Halt blue_green_strategy ts rel rel' e =
      returned-Halt _ rel' e (blue_green-Halt ts rel)
  by_strategy-Halt rolling_strategy ts rel rel' e = returned-Halt _ rel' e (rolling-Halt ts rel)
  by_strategy-Halt other_strategy ts rel rel' e = returned-Halt _ rel' e (rolling-Halt ts rel)

  -- A run that ends leaves the release as a success, paused or failed.
  pub execute_release-Halt :
      (targets : Option (List Text)) (rel rel' : Release)
      → execute_release deploy targets rel ≡ returns rel'
      → Halt rel'.status
  unfolding execute_release fail_release
  execute_release-Halt none rel rel' e = returned-Halt _ rel' e (inr (inr refl))
  execute_release-Halt (some ts) rel rel' e =
      by_strategy-Halt rel.strategy.strategy_type ts rel rel' e

ids-new_results : (ts : List Text) → ids (new_results ts) ≡ ts
unfolding new_results
ids-new_results [] = refl
ids-new_results (t ∷ ts) = ap (λ l. t ∷ l) (ids-new_results ts)

failed-new_results : (ts : List Text) → has_failed_targets (new_results ts) ≡ false
unfolding has_failed_targets new_results
failed-new_results [] = refl
failed-new_results (t ∷ ts) = failed-new_results ts

new_results-HaveResults : (ts : List Text) → HaveResults ts (new_results ts)
new_results-HaveResults ts = rw (ids-new_results ts) (All-listed ts)

module _ (deploy : Text → Option Text) (id : Text) (require : Bool)
    (req : CreateReleaseRequest) where
  new_release-run :
      (ts : List Text)
      → Distinct ts
      → (default_strategy req.asked).strategy_type ≡ rolling_strategy
      → execute_release deploy
          (some ts)
          (record (new_release id require ts req) { status = running })
        ≡ returns (record (new_release id require ts req) {
          status = success;
          results = settle_all deploy ts (new_results ts);
        })
  unfolding execute_release by_strategy new_release or_unchanged
  new_release-run ts u rolling =
      let rel = record (new_release id require ts req) { status = running } in
      let u' : Distinct (ids (new_results ts)) = rw (ids-new_results ts) u in
      let run =
        execute_rolling_lem deploy ts rel u' (new_results-HaveResults ts) (failed-new_results ts) in
      let at_end : List Text → Release =
        λ l. record rel { status = success; results = settle_all deploy l (new_results ts) } in
      rw rolling
        (ap returns (ap (or_unchanged rel) run) ∙ ap (λ l. returns (at_end l)) (take_all ts))

-- A release that CreateRelease makes for some targets, with distinct ids, and the rolling strategy,
-- which is also the default, ends as a success when it is run on these targets, whichever deployments
-- fail: no rollback configuration is ever set. Each target then has the result of its own deployment.
pub create_release-run :
    (deploy : Text → Option Text) (id : Text) (require : Bool) (ts : List Text)
    (req : CreateReleaseRequest) (rel : Release)
    → create_release id true (some require) (some ts) req ≡ some rel
    → Distinct ts
    → (default_strategy req.asked).strategy_type ≡ rolling_strategy
    → execute_release deploy (some ts) (record rel { status = running })
      ≡ returns (record rel { status = success; results = settle_all deploy ts (new_results ts) })
unfolding create_release
create_release-run deploy id require [] req rel e u rolling = absurd (cc e)
create_release-run deploy id require (t ∷ ts) req rel e u rolling =
    let same : new_release id require (t ∷ ts) req ≡ rel = cc e in
    rw (sym same) (new_release-run deploy id require req (t ∷ ts) u rolling)
