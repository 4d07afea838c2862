-- ===== src/Alert/Processor/Examples.antt =====
-- Tests of the alert processor, and its theorems at concrete histories.
use quic_flow.Prelude.{◌≡◌, refl, Bool, true, none, List, [], ◌∷◌, ◌++◌, arith}
use quic_flow.Prelude.Text.{Text}
use quic_flow.Alert.Processor.{
  firing, resolved, AlertInstance, new_processor, Event, report, check_alerts, silence, run,
}
use quic_flow.Alert.Processor.Own.{view, own_run}
use quic_flow.Alert.Processor.Views.{run-view}
use quic_flow.Alert.Processor.Expiry.{reported-expires}

abbrev disk_full : AlertInstance
disk_full = record {
  fingerprint = 100 ∷ [];
  rule_name = 100 ∷ [];
  status = firing;
  started_at = 0;
  fired_at = 0;
  resolved_at = none;
  notify_count = 0;
}

abbrev all_saved : Text → Bool
all_saved id = true

-- A silence over the whole time, reports and checks every two minutes.
abbrev busy : List Event
busy =
    silence true (record { id = 1; start_at = 0; end_at = 900000000000 })
    ∷ report true 120000000000 disk_full
    ∷ check_alerts all_saved 120000000000
    ∷ report true 240000000000 disk_full
    ∷ check_alerts all_saved 240000000000
    ∷ []

run-view_example :
    view (100 ∷ []) (run busy new_processor).board
    ≡ own_run (100 ∷ []) busy (record { alert = none; notices = [] })
run-view_example = run-view (100 ∷ []) busy

reported-expires_example :
    ((view (100 ∷ []) (run (report true 0 disk_full ∷ busy) new_processor).board).notices
      ≡ firing ∷ [])
    × (view
          (100 ∷ [])
          (run
            (report true 0 disk_full ∷ (busy ++ (check_alerts all_saved 300000000001 ∷ [])))
            new_processor).board
        ≡ record { alert = none; notices = firing ∷ resolved ∷ [] })
reported-expires_example =
    reported-expires disk_full 0 300000000001 busy all_saved refl
      (tt, (tt, (omega arith, (tt, (omega arith, tt))))) (omega arith) refl
