-- ===== src/Release/Engine/Steps.antt =====
-- One release between the calls and its runs (pkg/release/engine/engine.go): the calls work on what
-- the database holds, and a run works on the copy that its call gave it, which it saves after each
-- target and at its end. The database is one record here; calls of other releases do not touch it.
-- A call queries in one step and saves in a later one, and nothing keeps other calls and runs from
-- coming between: there is no transaction and no lock.
pub mod Serial
use mathlib.Core.Path.{subst}
use quic_flow.Prelude.{
  ℕ, suc, ◌≤◌, Bool, true, false, if◌then◌else◌, length, arith, ◌≡◌, refl, ap, sym, inl, inr, ◌⊎◌,
  Option, some, List, [], ◌∷◌, ◌++◌, returns,
}
use quic_flow.Prelude.Text.{Text}
use quic_flow.Release.Engine.{
  ReleaseStatus, running, paused, cancelled, TargetResult, Release, execute_release,
}
use quic_flow.Release.Engine.Canary.{Halt}
use quic_flow.Release.Engine.Calls.{
  ApprovalStatus, start_release, cancel_release, promote_canary, MayStart, start_release-MayStart,
  promote_canary-paused, cancel_release-MayCancel,
}
use quic_flow.Release.Engine.Ends.{execute_release-Halt}

-- A call that has passed its checks and is about to save the release; one that begins a run starts it
-- behind the save.
pub record CallUnderWay : Type 0 where
  pub copy : Release
  pub begins_run : Bool

-- What the database holds, the calls that are under way, and the copies of the runs that have not
-- ended.
pub record World : Type 0 where
  pub stored : Release
  pub calls : List CallUnderWay
  pub runs : List Release

unfoldable pub at_rest : Release → World
at_rest rel = record { stored = rel; calls = []; runs = [] }

begun_by : CallUnderWay → List Release → List Release
begun_by c runs = if c.begins_run then c.copy ∷ runs else runs

unfoldable pub call_done : World → CallUnderWay → List CallUnderWay → List CallUnderWay → World
unfolding begun_by
call_done w c before after = record w {
  stored = c.copy;
  calls = before ++ after;
  runs = begun_by c w.runs;
}

pub data Step : World → World → Type 0 where
  start_query :
      {w : World} {rel : Release} (approval : Option ApprovalStatus)
      → start_release (some w.stored) approval ≡ some rel
      → Step w (record w { calls = record { copy = rel; begins_run = true } ∷ w.calls })
  cancel_query :
      {w : World} {rel : Release}
      → cancel_release (some w.stored) ≡ some rel
      → Step w (record w { calls = record { copy = rel; begins_run = false } ∷ w.calls })
  promote_query :
      {w : World} {rel : Release}
      → promote_canary (some w.stored) ≡ some rel
      → Step w (record w { calls = record { copy = rel; begins_run = true } ∷ w.calls })
  call_save :
      {w : World} (c : CallUnderWay) (before after : List CallUnderWay)
      → w.calls ≡ before ++ c ∷ after
      → Step w (call_done w c before after)
  -- The database refuses the save, and the call ends with the error.
  call_error :
      {w : World} (c : CallUnderWay) (before after : List CallUnderWay)
      → w.calls ≡ before ++ c ∷ after
      → Step w (record w { calls = before ++ after })
  -- A run saves the copy with the results so far.
  save_step :
      {w : World} (rel : Release) (before after : List Release) (results : List TargetResult)
      → w.runs ≡ before ++ rel ∷ after
      → Step w (record w { stored = record rel { results = results } })
  end_step :
      {w : World} (rel : Release) {rel' : Release} (before after : List Release)
      (deploy : Text → Option Text) (targets : Option (List Text))
      → w.runs ≡ before ++ rel ∷ after
      → execute_release deploy targets rel ≡ returns rel'
      → Step w (record w { stored = rel'; runs = before ++ after })

pub data Reaches (w : World) : World → Type 0 where
  here : Reaches w w
  onward : {w1 w2 : World} → Reaches w w1 → Step w1 w2 → Reaches w w2

-- A release that is cancelled while its run goes on does not stay cancelled: when the run ends, the
-- database has it as a success, paused or failed again.
pub cancel-undone :
    (w : World) (rel rel' held : Release) (deploy : Text → Option Text)
    (targets : Option (List Text))
    → w.runs ≡ rel ∷ []
    → cancel_release (some w.stored) ≡ some held
    → execute_release deploy targets rel ≡ returns rel'
    → (held.status ≡ cancelled)
      × Reaches w (record w { stored = held })
      × Reaches (record w { stored = held }) (record w { stored = rel'; runs = [] })
      × Halt rel'.status
unfolding call_done begun_by
cancel-undone w rel rel' held deploy targets on cancel ran =
    let (may, same) = cancel_release-MayCancel w.stored held cancel in
    let c : CallUnderWay = record { copy = held; begins_run = false } in
    (
      ap (λ r. r.status) same,
      onward (onward here (cancel_query cancel)) (call_save c [] w.calls refl),
      onward here (end_step rel [] [] deploy targets on ran),
      execute_release-Halt deploy targets rel rel' ran,
    )
