-- ===== src/Callback/Manager/Removals.antt =====
-- The delayed removals of pkg/callback/manager.go.
use mathlib.Core.List.{append_assoc, append-nil}
use quic_flow.Prelude.{
  ℕ, suc, ◌≤◌, ◌≡◌, refl, sym, ap, ◌∙◌, if◌then◌else◌, Bool, not, List, [], ◌∷◌, ◌++◌, length, take,
  drop, set, keep, drop-cons, drop-set, take-set, arith, Bool-cases, inl, inr,
}
use quic_flow.Prelude.Text.{Text}
use quic_flow.Callback.Manager.{
  PromiseManager, DelayedRemove, is_due, remove, remove_all, compact_loop, tick_removals,
}

-- The ids of the items that are due, in order.
abbrev pub due_ids : ℕ → List DelayedRemove → List Text
due_ids now [] = []
due_ids now (item ∷ rest) =
    let ids = due_ids now rest in if is_due now item then item.msg_id ∷ ids else ids

abbrev pub not_due : ℕ → DelayedRemove → Bool
not_due now item = not (is_due now item)

-- What the loop makes of the rounds that are left.
compact-keep :
    (now : ℕ) (rest : List DelayedRemove) (k i : ℕ) (items kept : List DelayedRemove)
    (pm : PromiseManager)
    → i ≤ k
    → drop k items ≡ rest
    → take i items ≡ kept
    → let (items', i', pm') = compact_loop now (length rest) k i items pm in
      (take i' items' ≡ kept ++ keep (not_due now) rest) × (pm' ≡ remove_all (due_ids now rest) pm)
unfolding compact_loop remove_all
compact-keep now [] k i items kept pm b d t = (t ∙ sym (append-nil kept), refl)
compact-keep now (item ∷ rest) k i items kept pm b d t =
    let (at, more, small) = drop-cons k item rest items d in
    rw (at, compact_loop)
      (elim (Bool-cases (is_due now item)) [
        | inl e ↦ rw e (
            compact-keep now rest (suc k) i items kept (remove item.msg_id pm) (omega arith) more t)
        | inr e ↦
            let (taken, removed) =
              compact-keep now rest (suc k) (suc i) (set items i item) (kept ++ (item ∷ [])) pm
                (omega arith) (drop-set i (suc k) item items (omega arith) ∙ more)
                (take-set i item items (omega arith) ∙ ap (λ xs. xs ++ (item ∷ [])) t) in
            rw e (taken ∙ append_assoc kept (item ∷ []) (keep (not_due now) rest), removed)
      ])

-- A tick of the removal loop removes the promises of the items that are due, in their order, and
-- keeps the other items in theirs, although it compacts the slice that it ranges over.
pub tick_removals-keep :
    (now : ℕ) (pm : PromiseManager)
    → tick_removals now pm ≡ (
        let pm' = remove_all (due_ids now pm.pending) pm in
        record pm' { pending = keep (not_due now) pm.pending })
unfolding tick_removals
tick_removals-keep now pm =
    let (taken, removed) =
      compact-keep now pm.pending 0 0 pm.pending [] pm (omega arith) refl refl in
    rw (taken, removed)
