-- ===== src/Callback/Manager/Delivery.antt =====
-- Answers and removals in pkg/callback/manager.go.
use mathlib.Core.List.{append_assoc, append-nil}
use quic_flow.Prelude.{
  ℕ, zero, suc, ◌+◌, ◌≤◌, ◌≡◌, refl, ap, ◌∙◌, if◌then◌else◌, true, false, none, some, List, [], ◌∷◌,
  ◌++◌, length, arith, Bool-cases, Option-cases, ◌⊎◌, inl, inr, ltb,
}
use quic_flow.Prelude.Text.{Text, text_eq, text_eq_iff, text_eq_refl}
use quic_flow.Prelude.Map.{
  lookup, modify, IsMap, listed, lookup-delete, lookup-modify, delete-IsMap, modify-IsMap,
}
use quic_flow.Callback.Promise.{Promise, promise_not_found, already_completed, complete}
use quic_flow.Callback.Manager.{
  ok, err, PromiseManager, DelayedRemove, is_due, remove, remove_all, delay_remove, delayed_room,
  delayed_remove_delay, complete_promise, complete_by_id, receive_item, tick_removals, store,
}
use quic_flow.Callback.Manager.Removals.{due_ids, tick_removals-keep}

lookup-remove :
    (id j : Text) (pm : PromiseManager)
    → IsMap pm.promises
    → (lookup j (remove id pm).promises ≡ (if text_eq id j then none else lookup j pm.promises))
      × IsMap (remove id pm).promises
unfolding remove
lookup-remove id j pm u =
    ground
      (arith, lookup-delete id j pm.promises u, delete-IsMap id pm.promises u, text_eq_iff id j)

pub lookup-remove_all :
    (ids : List Text) (j : Text) (pm : PromiseManager)
    → IsMap pm.promises
    → lookup j (remove_all ids pm).promises ≡ (if listed j ids then none else lookup j pm.promises)
unfolding remove_all listed
lookup-remove_all [] j pm u = refl
lookup-remove_all (id ∷ ids) j pm u =
    let (e, u') = lookup-remove id j pm u in
    lookup-remove_all ids j (remove id pm) u' ∙ ground (arith, e)

-- A tick of the removal loop takes the promises of the items that are due, and no other.
pub lookup-tick_removals :
    (now : ℕ) (j : Text) (pm : PromiseManager)
    → IsMap pm.promises
    → lookup j (tick_removals now pm).promises
      ≡ (if listed j (due_ids now pm.pending) then none else lookup j pm.promises)
lookup-tick_removals now j pm u =
    rw (tick_removals-keep now pm) (lookup-remove_all (due_ids now pm.pending) j pm u)

lookup-delay_remove :
    (id j : Text) (now : ℕ) (pm : PromiseManager)
    → IsMap pm.promises
    → lookup j (delay_remove id now pm).promises ≡ (
        if text_eq id j
        then (if ltb (length pm.ready) delayed_room then lookup id pm.promises else none)
        else lookup j pm.promises)
unfolding delay_remove
lookup-delay_remove id j now pm u = ground (arith, lookup-remove id j pm u, text_eq_iff id j)

-- What `Complete` makes of the manager when it succeeds.
completing : Text → ℕ → Promise → PromiseManager → PromiseManager
completing id now p pm =
    let pm' = store id p pm in delay_remove id now (record pm' { completed = pm.completed + 1 })

lookup-completing :
    (id j : Text) (now : ℕ) (p q : Promise) (pm : PromiseManager)
    → IsMap pm.promises
    → lookup id pm.promises ≡ some p
    → lookup j (completing id now q pm).promises ≡ (
        if text_eq id j
        then (if ltb (length pm.ready) delayed_room then some q else none)
        else lookup j pm.promises)
unfolding completing
lookup-completing id j now p q pm u h =
    let f : Promise → Promise = λ _. q in
    let pm' = store id q pm in
    lookup-delay_remove id j now (record pm' { completed = pm.completed + 1 })
      (modify-IsMap id f pm.promises u)
    ∙ ground (
      arith,
      lookup-modify id j f pm.promises,
      lookup-modify id id f pm.promises,
      text_eq_refl id,
    )

complete_again :
    (id : Text) (ack now : ℕ) (p : Promise) (pm : PromiseManager)
    → p.completed ≡ true
    → complete_promise id now (complete ack p) pm ≡ err already_completed
unfolding complete_promise complete
complete_again id ack now p pm d = ground arith

complete_first :
    (id : Text) (ack now : ℕ) (p : Promise) (pm : PromiseManager)
    → p.completed ≡ false
    → complete_promise id now (complete ack p) pm ≡ ok (completing id now (complete ack p).0 pm)
unfolding complete_promise completing complete
complete_first id ack now p pm o = ground arith

-- `Complete` on each of its branches.
abbrev pub CompleteOutcome : Text → ℕ → ℕ → PromiseManager → Type 0
CompleteOutcome id ack now pm =
    ((lookup id pm.promises ≡ none) × (complete_by_id id ack now pm ≡ err promise_not_found))
    ⊎ ((p : Promise) × (lookup id pm.promises ≡ some p)
        × (p.completed ≡ true)
        × (complete_by_id id ack now pm ≡ err already_completed))
    ⊎ ((p : Promise) × (pm' : PromiseManager) × (lookup id pm.promises ≡ some p)
        × (p.completed ≡ false)
        × (complete_by_id id ack now pm ≡ ok pm')
        × ((j : Text)
            → lookup j pm'.promises ≡ (
                if text_eq id j
                then (if ltb (length pm.ready) delayed_room then some (complete ack p).0 else none)
                else lookup j pm.promises)))

-- An unknown id and a promise that is completed are errors. Any other promise gets the response,
-- and stays registered while the removal channel has room; with the channel full it is removed at
-- once. Other ids keep their promises.
pub complete_by_id_outcome :
    (id : Text) (ack now : ℕ) (pm : PromiseManager)
    → IsMap pm.promises
    → CompleteOutcome id ack now pm
unfolding complete_by_id
complete_by_id_outcome id ack now pm u = elim (Option-cases (lookup id pm.promises)) [
  | inl e ↦ inl (e, rw (e, complete_by_id))
  | inr (p, e) ↦ elim (Bool-cases p.completed) [
    | inl d ↦ inr (inl (p, e, d, rw (e, complete_by_id) (complete_again id ack now p pm d)))
    | inr o ↦ inr (
        inr (
          p,
          completing id now (complete ack p).0 pm,
          e,
          o,
          rw (e, complete_by_id) (complete_first id ack now p pm o),
          λ j. lookup-completing id j now p (complete ack p).0 pm u e,
        ))
  ]
]

-- The removal loop takes every item that waits in the channel.
pub receive_all : ℕ → PromiseManager → PromiseManager
receive_all zero pm = pm
receive_all (suc n) pm = receive_all n (receive_item pm)

receive-cons :
    (x : DelayedRemove) (items : List DelayedRemove) (pm : PromiseManager)
    → pm.ready ≡ x ∷ items
    → receive_item pm ≡ record pm { ready = items; pending = pm.pending ++ (x ∷ []) }
unfolding receive_item
receive-cons x items pm e = ground arith

receive_all_lem :
    (items : List DelayedRemove) (pm : PromiseManager)
    → pm.ready ≡ items
    → receive_all (length items) pm ≡ record pm { ready = []; pending = pm.pending ++ items }
unfolding receive_all
receive_all_lem [] pm e = ground (arith, append-nil pm.pending)
receive_all_lem (x ∷ items) pm e =
    ap (receive_all (length items)) (receive-cons x items pm e)
    ∙ receive_all_lem items (record pm { ready = items; pending = pm.pending ++ (x ∷ []) }) refl
    ∙ ap (λ (xs : List DelayedRemove). record pm { ready = []; pending = xs })
        (append_assoc pm.pending (x ∷ []) items)

listed-due_ids :
    (now : ℕ) (item : DelayedRemove) (xs : List DelayedRemove)
    → is_due now item ≡ true
    → listed item.msg_id (due_ids now (xs ++ (item ∷ []))) ≡ true
unfolding listed
listed-due_ids now item [] h = rw h (rw (text_eq_refl item.msg_id))
listed-due_ids now item (x ∷ xs) h = ground (arith, listed-due_ids now item xs h)

complete_by_id-ok :
    (id : Text) (ack now : ℕ) (pm pm' : PromiseManager)
    → complete_by_id id ack now pm ≡ ok pm'
    → (p : Promise) × (lookup id pm.promises ≡ some p)
      × (pm' ≡ completing id now (complete ack p).0 pm)
unfolding complete_by_id complete_promise complete completing
complete_by_id-ok id ack now pm pm' h = elim (Option-cases (lookup id pm.promises)) [
  | inl e ↦ absurd (ground arith)
  | inr (p, e) ↦ (p, e, ground arith)
]

completing-IsMap :
    (id : Text) (now : ℕ) (p : Promise) (pm : PromiseManager)
    → IsMap pm.promises
    → IsMap (completing id now p pm).promises
unfolding completing delay_remove remove
completing-IsMap id now p pm u =
    let f : Promise → Promise = λ _. p in
    let u' = modify-IsMap id f pm.promises u in
    ground (arith, u', delete-IsMap id (modify id f pm.promises) u')

pending-completing :
    (id : Text) (now : ℕ) (p : Promise) (pm : PromiseManager)
    → (completing id now p pm).pending ≡ pm.pending
unfolding completing delay_remove remove
pending-completing id now p pm = ground arith

abbrev removal : Text → ℕ → DelayedRemove
removal id now = record { msg_id = id; remove_at = now + delayed_remove_delay }

ready-completing :
    (id : Text) (now : ℕ) (p : Promise) (pm : PromiseManager)
    → ltb (length pm.ready) delayed_room ≡ true
    → (completing id now p pm).ready ≡ pm.ready ++ (removal id now ∷ [])
unfolding completing delay_remove
ready-completing id now p pm h = rw h

-- The promise is either due or gone.
removed_later :
    (id : Text) (now later : ℕ) (p q : Promise) (pm : PromiseManager)
    → IsMap pm.promises
    → lookup id pm.promises ≡ some p
    → now + delayed_remove_delay ≤ later
    → let pm' = completing id now q pm in
      (if listed id (due_ids later (pm'.pending ++ pm'.ready))
        then none
        else lookup id pm'.promises)
      ≡ none
removed_later id now later p q pm u h d =
    let gone = lookup-completing id id now p q pm u h in
    let self = text_eq_refl id in
    elim (Bool-cases (ltb (length pm.ready) delayed_room)) [
      | inl room ↦
          rw (pending-completing id now q pm, ready-completing id now q pm room)
            (rw (← append_assoc pm.pending pm.ready (removal id now ∷ []))
              (rw (listed-due_ids later (removal id now) (pm.pending ++ pm.ready) (ground arith))))
      | inr full ↦ ground (arith, gone, self)
    ]

-- A promise that `Complete` completes is gone from the registry after the removal loop has taken
-- the items that wait in its channel and then ticked 100 milliseconds later or more.
pub complete_by_id-removed :
    (id : Text) (ack now later : ℕ) (pm pm' : PromiseManager)
    → IsMap pm.promises
    → complete_by_id id ack now pm ≡ ok pm'
    → now + delayed_remove_delay ≤ later
    → lookup id (tick_removals later (receive_all (length pm'.ready) pm')).promises ≡ none
complete_by_id-removed id ack now later pm pm' u h d =
    let (p, e, same) = complete_by_id-ok id ack now pm pm' h in
    let q = (complete ack p).0 in
    rw (receive_all_lem pm'.ready pm' refl) (
      lookup-tick_removals later id (record pm' { ready = []; pending = pm'.pending ++ pm'.ready })
        (rw same (completing-IsMap id now q pm u))
      ∙ rw same (removed_later id now later p q pm u e d))
