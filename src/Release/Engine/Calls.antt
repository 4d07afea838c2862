-- ===== src/Release/Engine/Calls.antt =====
-- CreateRelease, StartRelease, CancelRelease and PromoteCanary of pkg/release/engine/engine.go.
-- What a query gives is an argument, `none` where it fails. The result is the release that the call
-- saves, `none` where it is refused with an error; a save that fails ends the call as a refusal.
-- Names, versions, variables and times are left out.
use quic_flow.Prelude.{
  ◌≡◌, refl, inl, inr, ◌⊎◌, if◌then◌else◌, Bool, true, false, Option, none, some, List, [], ◌∷◌,
  arith,
}
use quic_flow.Prelude.Text.{Text}
use quic_flow.Release.Engine.{
  ReleaseStatus, pending, scheduled, approving, running, paused, success, failed, cancelled,
  rollback, TargetResult, target_pending, ReleaseStrategy, rolling_strategy, Release,
}

pub data ApprovalStatus : Type 0 where
  undecided approved rejected expired : ApprovalStatus

pub record CreateReleaseRequest : Type 0 where
  pub asked : Option ReleaseStrategy
  pub has_schedule : Bool

unfoldable pub default_strategy : Option ReleaseStrategy → ReleaseStrategy
default_strategy none = record {
  strategy_type = rolling_strategy;
  batch_size = 1;
  canary_percent = 0;
  canary_targets = [];
  auto_promote = false;
}
default_strategy (some s) = s

-- Approval comes last: a scheduled release that needs one is no longer marked as scheduled.
unfoldable pub initial_status : Bool → Bool → ReleaseStatus
initial_status has_schedule true = approving
initial_status true false = scheduled
initial_status false false = pending

unfoldable pub new_results : List Text → List TargetResult
new_results [] = []
new_results (t ∷ ts) =
    record { target_id = t; status = target_pending; error = [] } ∷ new_results ts

-- The request has no rollback configuration, and none is set.
unfoldable pub new_release : Text → Bool → List Text → CreateReleaseRequest → Release
unfolding default_strategy initial_status new_results
new_release id require_approval ts req = record {
  id = id;
  status = initial_status req.has_schedule require_approval;
  strategy = default_strategy req.asked;
  auto_rollback = false;
  results = new_results ts;
}

-- The id is the database's; `found` says whether the project exists, `environment` whether the
-- environment requires an approval.
unfoldable pub create_release :
    Text → Bool → Option Bool → Option (List Text) → CreateReleaseRequest → Option Release
unfolding new_release
create_release id false environment targets req = none
create_release id true none targets req = none
create_release id true (some require) none req = none
create_release id true (some require) (some []) req = none
create_release id true (some require) (some (t ∷ ts)) req =
    some (new_release id require (t ∷ ts) req)

is_approved : Option ApprovalStatus → Bool
is_approved none = false
is_approved (some approved) = true
is_approved (some _) = false

may_start : ReleaseStatus → Option ApprovalStatus → Bool
unfolding is_approved
may_start pending approval = true
may_start approving approval = is_approved approval
may_start _ approval = false

-- The saved release is also the one that is run.
unfoldable pub start_release : Option Release → Option ApprovalStatus → Option Release
unfolding may_start
start_release none approval = none
start_release (some rel) approval =
    if may_start rel.status approval then some (record rel { status = running }) else none

may_cancel : ReleaseStatus → Bool
may_cancel running = true
may_cancel paused = true
may_cancel _ = false

unfoldable pub cancel_release : Option Release → Option Release
unfolding may_cancel
cancel_release none = none
cancel_release (some rel) =
    if may_cancel rel.status then some (record rel { status = cancelled }) else none

is_paused : ReleaseStatus → Bool
is_paused paused = true
is_paused _ = false

-- The saved release is also the one that is run.
unfoldable pub promote_canary : Option Release → Option Release
unfolding is_paused
promote_canary none = none
promote_canary (some rel) =
    if is_paused rel.status then some (record rel { status = running }) else none

-- What a release must be like to be started: waiting for its start, or for an approval that is there.
abbrev pub MayStart : ReleaseStatus → Option ApprovalStatus → Type 0
MayStart st approval = (st ≡ pending) ⊎ ((st ≡ approving) × (approval ≡ some approved))

may_start-MayStart :
    (st : ReleaseStatus) (approval : Option ApprovalStatus)
    → may_start st approval ≡ true
    → MayStart st approval
unfolding may_start is_approved
may_start-MayStart pending approval e = inl refl
may_start-MayStart approving none e = absurd (cc e)
may_start-MayStart approving (some undecided) e = absurd (cc e)
may_start-MayStart approving (some approved) e = inr (refl, refl)
may_start-MayStart approving (some rejected) e = absurd (cc e)
may_start-MayStart approving (some expired) e = absurd (cc e)
may_start-MayStart scheduled approval e = absurd (cc e)
may_start-MayStart running approval e = absurd (cc e)
may_start-MayStart paused approval e = absurd (cc e)
may_start-MayStart success approval e = absurd (cc e)
may_start-MayStart failed approval e = absurd (cc e)
may_start-MayStart cancelled approval e = absurd (cc e)
may_start-MayStart rollback approval e = absurd (cc e)

pub start_release-MayStart :
    (rel rel' : Release) (approval : Option ApprovalStatus)
    → start_release (some rel) approval ≡ some rel'
    → MayStart rel.status approval × (rel' ≡ record rel { status = running })
unfolding start_release
start_release-MayStart rel rel' approval e =
    (may_start-MayStart rel.status approval (ground arith), ground arith)

may_cancel-MayCancel : (st : ReleaseStatus) → may_cancel st ≡ true → (st ≡ running) ⊎ (st ≡ paused)
unfolding may_cancel
may_cancel-MayCancel st e = ground arith

pub promote_canary-paused :
    (rel rel' : Release)
    → promote_canary (some rel) ≡ some rel'
    → (rel.status ≡ paused) × (rel' ≡ record rel { status = running })
unfolding promote_canary is_paused
promote_canary-paused rel rel' e = ground arith

pub promote_canary_paused :
    (rel : Release)
    → rel.status ≡ paused
    → promote_canary (some rel) ≡ some (record rel { status = running })
unfolding promote_canary is_paused
promote_canary_paused rel e = simp e refl

pub promote_canary_failed : (rel : Release) → rel.status ≡ failed → promote_canary (some rel) ≡ none
unfolding promote_canary is_paused
promote_canary_failed rel e = simp e refl

pub cancel_release-MayCancel :
    (rel rel' : Release)
    → cancel_release (some rel) ≡ some rel'
    → ((rel.status ≡ running) ⊎ (rel.status ≡ paused)) × (rel' ≡ record rel { status = cancelled })
unfolding cancel_release
cancel_release-MayCancel rel rel' e = (may_cancel-MayCancel rel.status (ground arith), ground arith)
