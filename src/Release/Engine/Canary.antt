-- ===== src/Release/Engine/Canary.antt =====
-- Canary releases (executeCanary and PromoteCanary of pkg/release/engine/engine.go).
use native.Mathlib.Nat.{div-le_of_le-mul}
use mathlib.Core.Path.{subst, sym}
use quic_flow.Prelude.{
  ℕ, ◌*◌, ◌/◌, ◌≤◌, ◌<◌, ◌≡◌, refl, ap, ◌∙◌, ◌⊎◌, inl, inr, ltb, ◌==◌, if◌then◌else◌, Bool-cases,
  true, false, not, Option, none, some, List, [], ◌∷◌, keep, length, take, drop, All, Outcome,
  returns, panics, bind_outcome, arith,
}
use quic_flow.Prelude.Text.{Text, text_eq_iff, text_eq_refl}
use quic_flow.Prelude.Map.{listed}
use quic_flow.Release.Engine.{
  ReleaseStatus, running, paused, success, failed, StrategyType, rolling_strategy, canary_strategy,
  blue_green_strategy, other_strategy, ReleaseStrategy, TargetResult, Release, write_result, begun,
  ended, has_failed_targets, fail_release, complete_release, execute_target, execute_each,
  deploy_to, split_at, split_canary, verify_canary, canary_run, execute_canary, by_strategy,
  execute_release,
}
use quic_flow.Release.Engine.Calls.{promote_canary, promote_canary_paused, promote_canary_failed}

-- The results of the targets that are not in a list.
abbrev pub others : List Text → List TargetResult → List TargetResult
others ts rs = keep (λ r. not (listed r.target_id ts)) rs

others-write_result :
    (ts : List Text) (id : Text) (f : TargetResult → TargetResult) (rs : List TargetResult)
    → listed id ts ≡ true
    → ((r : TargetResult) → (f r).target_id ≡ r.target_id)
    → others ts (write_result id f rs) ≡ others ts rs
unfolding write_result
others-write_result ts id f [] h same = refl
others-write_result ts id f (r ∷ rs) h same =
    ground (arith, others-write_result ts id f rs h same, same r, text_eq_iff r.target_id id)

ended-id : (o : Option Text) (r : TargetResult) → (ended o r).target_id ≡ r.target_id
unfolding ended
ended-id none r = refl
ended-id (some e) r = refl

others-execute_each :
    (deploy : Text → Option Text) (ts us : List Text) (rs : List TargetResult)
    → All (λ t. listed t ts ≡ true) us
    → others ts (execute_each deploy us rs) ≡ others ts rs
unfolding execute_each execute_target begun
others-execute_each deploy ts [] rs h = refl
others-execute_each deploy ts (u ∷ us) rs (h, hs) =
    others-execute_each deploy ts us (execute_target deploy u rs) hs
    ∙ others-write_result ts u (ended (deploy u)) (write_result u begun rs) h (ended-id (deploy u))
    ∙ others-write_result ts u begun rs h (λ r. refl)

All-listed-cons :
    (t : Text) (ts us : List Text)
    → All (λ u. listed u ts ≡ true) us
    → All (λ u. listed u (t ∷ ts) ≡ true) us
unfolding listed
All-listed-cons t ts [] h = tt
All-listed-cons t ts (u ∷ us) (h, hs) = (ground arith, All-listed-cons t ts us hs)

pub All-listed : (ts : List Text) → All (λ u. listed u ts ≡ true) ts
unfolding listed
All-listed [] = tt
All-listed (t ∷ ts) = (ground (arith, text_eq_refl t), All-listed-cons t ts ts (All-listed ts))

promoted : Release → (Release → Outcome Release) → Option Release → Outcome Release
promoted rel run none = returns rel
promoted rel run (some again) = run again

run_again :
    (Text → Option Text) → List Text → (Release → Outcome Release) → Release → Outcome Release
run_again deploy ts rest again = bind_outcome (execute_release deploy (some ts) again) rest

-- What a promotion meets: how its deployments go, and the targets that its run then loads, in the
-- order in which the database gives them.
pub record Promotion : Type 0 where
  pub deploy : Text → Option Text
  pub targets : List Text

-- PromoteCanary, once for each of some promotions; the run that it starts ends before the next call.
-- Where it is refused nothing is run.
unfoldable pub promote_each : List Promotion → Release → Outcome Release
unfolding promoted run_again
promote_each [] rel = returns rel
promote_each (p ∷ ps) rel =
    promoted rel (run_again p.deploy p.targets (promote_each ps)) (promote_canary (some rel))

-- A release that no promotion has brought to its end.
abbrev pub Unfinished : ReleaseStatus → Type 0
Unfinished st = (st ≡ paused) ⊎ (st ≡ failed)

-- What a canary run without automatic promotion makes of a release: its canary targets are some of
-- `first`.
module _ (deploy : Text → Option Text) (first canaries rest ts : List Text) (rel : Release) where
  Halted : Release → Type 0
  Halted rel' =
      (rel'.strategy ≡ rel.strategy)
      × Unfinished rel'.status
      × (others first rel'.results ≡ others first rel.results)

  verify_canary-Halted :
      rel.strategy.auto_promote ≡ false
      → All (λ t. listed t first ≡ true) canaries
      → Halted (verify_canary deploy rest (deploy_to deploy canaries rel))
  unfolding verify_canary deploy_to fail_release Halted
  verify_canary-Halted manual some_first =
      let same = others-execute_each deploy first canaries rel.results some_first in
      elim (Bool-cases (has_failed_targets (execute_each deploy canaries rel.results))) [
        | inl bad ↦ rw bad (refl, inr refl, same)
        | inr fine ↦ simp (fine, manual) (refl, inl refl, same)
      ]

  by_strategy-Halted :
      (t : StrategyType)
      → t ≡ canary_strategy
      → rel.strategy.auto_promote ≡ false
      → split_canary rel.strategy ts ≡ returns (canaries, rest)
      → All (λ t. listed t first ≡ true) canaries
      → (rel' : Release) × (by_strategy t deploy ts rel ≡ returns rel') × Halted rel'
  unfolding by_strategy execute_canary canary_run
  by_strategy-Halted canary_strategy e manual split some_first = (
    verify_canary deploy rest (deploy_to deploy canaries rel),
    rw split,
    verify_canary-Halted manual some_first,
  )
  by_strategy-Halted rolling_strategy e manual split some_first = absurd (cc e)
  by_strategy-Halted blue_green_strategy e manual split some_first = absurd (cc e)
  by_strategy-Halted other_strategy e manual split some_first = absurd (cc e)

-- The run of a promotion finds its canary targets, and they are among some.
abbrev pub HasCanaries : ReleaseStrategy → List Text → Promotion → Type 0
HasCanaries s first p =
    (canaries : List Text) × (rest : List Text) × (split_canary s p.targets
      ≡ returns (canaries, rest))
    × All (λ t. listed t first ≡ true) canaries

-- A canary release without automatic promotion, paused or failed, never gets past its canary targets:
-- however often it is promoted, whatever targets each run loads, as long as it finds its canary
-- targets among some, and however the deployments go, the results of all the other targets stay as
-- they are, and the release is paused or has failed.
pub promote_each-stuck :
    (ps : List Promotion) (first : List Text) (rel : Release)
    → rel.strategy.strategy_type ≡ canary_strategy
    → rel.strategy.auto_promote ≡ false
    → All (HasCanaries rel.strategy first) ps
    → Unfinished rel.status
    → (rel' : Release) × (promote_each ps rel ≡ returns rel')
      × Unfinished rel'.status
      × (others first rel'.results ≡ others first rel.results)
unfolding promote_each promoted run_again execute_release Halted bind_outcome
promote_each-stuck [] first rel canary manual found unended = (rel, refl, unended, refl)
promote_each-stuck (p ∷ ps) first rel canary manual found (inr e) = (
  rel,
  ap (promoted rel (run_again p.deploy p.targets (promote_each ps))) (promote_canary_failed rel e),
  inr e,
  refl,
)
promote_each-stuck (p ∷ ps) first rel canary manual (here, found) (inl e) =
    let again = record rel { status = running } in
    let (canaries, rest, split, some_first) = here in
    let (rel1, ran, halted) =
      by_strategy-Halted p.deploy first canaries rest p.targets again again.strategy.strategy_type
        canary manual split some_first in
    let (kept, unended1, same) = halted in
    let found1 = subst (λ s. All (HasCanaries s first) ps) (sym kept) found in
    let (rel2, all_run, unended2, same2) =
      promote_each-stuck ps first rel1 (rw kept canary) (rw kept manual) found1 unended1 in
    (
      rel2,
      ap (promoted rel (run_again p.deploy p.targets (promote_each ps)))
            (promote_canary_paused rel e)
          ∙ ap (λ o. bind_outcome o (promote_each ps)) ran
          ∙ all_run,
      unended2,
      same2 ∙ same,
    )

split_at-returns :
    (n : ℕ) (ts : List Text) → n ≤ length ts → split_at n ts ≡ returns (take n ts, drop n ts)
unfolding split_at
split_at-returns n ts le = ground arith

split_at-panics : (n : ℕ) (ts : List Text) → length ts < n → split_at n ts ≡ panics
unfolding split_at
split_at-panics n ts lt = ground arith

-- As many canary targets as the percentage asks for, and one at least.
canary_count : ℕ → ℕ → ℕ
canary_count n percent =
    if percent == 0 then 1 else if ltb (n * percent / 100) 1 then 1 else n * percent / 100

count-bound : (n percent : ℕ) → percent ≤ 100 → n * percent / 100 ≤ n
count-bound n percent le = let h : n * percent ≤ 100 * n = grind arith in div-le_of_le-mul 100 h

canary_count-bound : (n percent : ℕ) → 0 < n → percent ≤ 100 → canary_count n percent ≤ n
unfolding canary_count
canary_count-bound n percent pos le = ground (arith, count-bound n percent le)

split_by_count :
    (s : ReleaseStrategy) (ts : List Text)
    → s.canary_targets ≡ []
    → split_canary s ts ≡ split_at (canary_count (length ts) s.canary_percent) ts
unfolding split_canary canary_count
split_by_count s ts e = rw e (ground arith)

split_canary_cases :
    (cs : List Text) (s : ReleaseStrategy) (ts : List Text)
    → s.canary_targets ≡ cs
    → s.canary_percent ≤ 100
    → ((first : List Text) × (rest : List Text) × (split_canary s ts ≡ returns (first, rest)))
      ⊎ ((split_canary s ts ≡ panics) × (ts ≡ []) × (s.canary_targets ≡ []))
unfolding split_canary canary_count
split_canary_cases (c ∷ cs) s ts e le = inl (
  keep (λ t. listed t s.canary_targets) ts,
  keep (λ t. not (listed t s.canary_targets)) ts,
  rw e refl,
)
split_canary_cases [] s [] e le =
    inr (split_by_count s [] e ∙ split_at-panics _ [] (ground arith), refl, e)
split_canary_cases [] s (t ∷ ts) e le =
    let n = canary_count (length (t ∷ ts)) s.canary_percent in
    let bound = canary_count-bound (length (t ∷ ts)) s.canary_percent (omega arith) le in
    inl (_, _, split_by_count s (t ∷ ts) e ∙ split_at-returns n (t ∷ ts) bound)

-- Where a canary run leaves a release.
abbrev pub Halt : ReleaseStatus → Type 0
Halt st = (st ≡ success) ⊎ ((st ≡ paused) ⊎ (st ≡ failed))

pub verify_canary-Halt :
    (deploy : Text → Option Text) (rest : List Text) (rel : Release)
    → Halt (verify_canary deploy rest rel).status
unfolding verify_canary fail_release complete_release
verify_canary-Halt deploy rest rel = elim (Bool-cases (has_failed_targets rel.results)) [
  | inl bad ↦ rw bad (inr (inr refl))
  | inr fine ↦ elim (Bool-cases rel.strategy.auto_promote) [
    | inl auto ↦ simp (fine, auto) (inl refl)
    | inr manual ↦ simp (fine, manual) (inr (inl refl))
  ]
]

-- A canary release whose percentage is at most a hundred ends as a success, paused or failed, except
-- that it panics where there are no targets and the strategy names no canary targets.
pub execute_canary-Halt :
    (deploy : Text → Option Text) (ts : List Text) (rel : Release)
    → rel.strategy.canary_percent ≤ 100
    → ((rel' : Release) × (execute_canary deploy ts rel ≡ returns rel') × Halt rel'.status)
      ⊎ ((execute_canary deploy ts rel ≡ panics) × (ts ≡ []) × (rel.strategy.canary_targets ≡ []))
unfolding execute_canary canary_run
execute_canary-Halt deploy ts rel le =
    elim (split_canary_cases rel.strategy.canary_targets rel.strategy ts refl le) [
      | inl (first, rest, e) ↦ inl (
        verify_canary deploy rest (deploy_to deploy first rel),
        rw e refl,
        verify_canary-Halt deploy rest (deploy_to deploy first rel),
      )
      | inr (e, none_left, unnamed) ↦ inr (rw e refl, none_left, unnamed)
    ]
