-- ===== src/Callback/Manager/Cleanup.antt =====
-- `cleanup` of pkg/callback/manager.go.
use quic_flow.Prelude.{
  ◌≡◌, refl, ◌∙◌, if◌then◌else◌, Bool, false, Option, none, some, [], ◌∷◌, arith,
}
use quic_flow.Prelude.Text.{Text, text_eq_iff}
use quic_flow.Prelude.Map.{Map, lookup, IsMap, listed}
use quic_flow.Callback.Promise.{Promise, is_completed}
use quic_flow.Callback.Manager.{PromiseManager, completed_ids, cleanup}
use quic_flow.Callback.Manager.Delivery.{lookup-remove_all}

-- A promise that is still open.
abbrev pub still_open : Option Promise → Option Promise
still_open none = none
still_open (some p) = if p.completed then none else some p

abbrev is_done : Option Promise → Bool
is_done none = false
is_done (some p) = p.completed

listed-completed_ids :
    (j : Text) (m : Map Promise) → IsMap m → listed j (completed_ids m) ≡ is_done (lookup j m)
unfolding listed completed_ids lookup is_completed
listed-completed_ids j [] u = refl
listed-completed_ids j ((i, p) ∷ m) u =
    ground (arith, listed-completed_ids j m u.1, text_eq_iff i j)

done_or_open : (o : Option Promise) → (if is_done o then none else o) ≡ still_open o
done_or_open none = refl
done_or_open (some p) = refl

-- A cleanup removes the promises that are completed, and no other.
pub cleanup-still_open :
    (j : Text) (pm : PromiseManager)
    → IsMap pm.promises
    → lookup j (cleanup pm).promises ≡ still_open (lookup j pm.promises)
unfolding cleanup
cleanup-still_open j pm u =
    lookup-remove_all (completed_ids pm.promises) j pm u
    ∙ rw (listed-completed_ids j pm.promises u) (done_or_open (lookup j pm.promises))
