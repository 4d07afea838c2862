-- ===== src/Command/Multi/Responses.antt =====
-- The response of SendCommandToMultiple (pkg/command/manager.go).
use mathlib.Core.List.{append-nil}
use quic_flow.Prelude.{
  ℕ, suc, ◌+◌, ◌≡◌, refl, ap, sym, ◌∙◌, inl, inr, not, Bool-cases, true, false, Option, some, List,
  [], ◌∷◌, ◌++◌, length, length-append, arith,
}
use quic_flow.Prelude.Text.{Text}
use quic_flow.Command.Multi.{
  ClientCommandResult, Progress, flying, landed, Launch, MultiCall, begin, Event, is_completed,
  one_if, run, cancelled_unsent, entry, entries, MultiCommandResponse, respond, is_landed,
  are_landed, loop_end, response,
}
use quic_flow.Command.Multi.Landing.{
  has_completed, is_cancelled, is_unsent, gave_up, has_failed, tally, landed_with, landings,
  clients_of, AreOwn, IsOwn,
}
use quic_flow.Command.Multi.Counts.{IsTallied, run-IsTallied, begin-IsTallied}

abbrev pub client_ids : List ClientCommandResult → List Text
client_ids [] = []
client_ids (r ∷ rs) = r.client_id ∷ client_ids rs

abbrev pub present : List ClientCommandResult → List (Option ClientCommandResult)
present [] = []
present (r ∷ rs) = some r ∷ present rs

-- Each result is of one kind.
tally_total :
    (rs : List ClientCommandResult)
    → length rs ≡ tally has_completed rs + tally gave_up rs + tally has_failed rs
unfolding is_unsent is_completed is_cancelled one_if
tally_total [] = refl
tally_total (r ∷ rs) = ground (arith, tally_total rs)

-- Where all goroutines have ended.
abbrev AreListed : List Launch → Type 0
AreListed ls = (entries ls ≡ present (landings ls)) × (client_ids (landings ls) ≡ clients_of ls)

landed_first :
    (c : Text) (st : Progress) (ls : List Launch)
    → is_landed st ≡ true
    → IsOwn c st
    → AreListed ls
    → (entry st ∷ entries ls ≡ present (landed_with st (landings ls)))
      × (client_ids (landed_with st (landings ls)) ≡ c ∷ clients_of ls)
unfolding is_landed entry landed_with IsOwn
landed_first c flying ls all own rest = absurd (cc all)
landed_first c (landed r) ls all own (e, same) =
    (ap (λ l. some r ∷ l) e, ap (λ l. r.client_id ∷ l) same ∙ ap (λ c. c ∷ clients_of ls) own)

entries_landed : (ls : List Launch) → are_landed ls ≡ true → AreOwn ls → AreListed ls
unfolding are_landed entries landings clients_of AreOwn
entries_landed [] all own = (refl, refl)
entries_landed (l ∷ ls) all (own, owns) =
    landed_first l.client l.progress ls (ground arith) own (entries_landed ls (ground arith) owns)

-- The goroutines under way.
unfoldable pub in_flight : List Launch → ℕ
unfolding is_landed one_if
in_flight [] = 0
in_flight (l ∷ ls) = one_if (not (is_landed l.progress)) + in_flight ls

in_flight_none : (ls : List Launch) → are_landed ls ≡ true → in_flight ls ≡ 0
unfolding are_landed in_flight one_if
in_flight_none [] all = refl
in_flight_none (l ∷ ls) all = ground (arith, in_flight_none ls)

length-launches : (ls : List Launch) → length ls ≡ in_flight ls + length (landings ls)
unfolding in_flight landings landed_with is_landed one_if
length-launches [] = refl
length-launches (l ∷ ls) = ground (arith, length-launches ls)

length-clients_of : (ls : List Launch) → length (clients_of ls) ≡ length ls
unfolding clients_of
length-clients_of [] = refl
length-clients_of (l ∷ ls) = ap suc (length-clients_of ls)

length-clients :
    (clients : List Text) (s : MultiCall)
    → IsTallied clients s
    → length clients ≡ length s.launches + length s.unsent
length-clients clients s t =
    ap length (sym t.in_order)
    ∙ length-append (clients_of s.launches) s.unsent
    ∙ ap (λ k. k + length s.unsent) (length-clients_of s.launches)

-- The response of a call all of whose goroutines have been waited for.
abbrev pub Waited : List Text → List ClientCommandResult → MultiCommandResponse → Type 0
Waited clients rs resp =
    (resp.results ≡ present rs)
    × (client_ids rs ≡ clients)
    × (resp.total ≡ length clients)
    × (resp.success_count ≡ tally has_completed rs)
    × (resp.cancelled_count ≡ tally gave_up rs)
    × (resp.failed_count ≡ tally has_failed rs)

respond-Waited :
    (clients : List Text) (s : MultiCall)
    → IsTallied clients s
    → s.unsent ≡ []
    → are_landed s.launches ≡ true
    → Waited clients (landings s.launches) (respond s.cancelled_count s (entries s.launches))
unfolding respond
respond-Waited clients s t none_left all =
    let (listed, same) = entries_landed s.launches all t.own in
    let no_more = ap length none_left in
    let counted = length-launches s.launches in
    let kinds = tally_total (landings s.launches) in
    let landed_all = in_flight_none s.launches all in
    let successes = t.successes in
    let cancellations = t.cancellations in
    (
      listed,
      same
          ∙ sym (append-nil (clients_of s.launches))
          ∙ ap (λ l. clients_of s.launches ++ l) (sym none_left)
          ∙ t.in_order,
      sym (length-clients clients s t),
      successes,
      cancellations,
      omega arith,
    )

waited :
    (clients : List Text) (s : MultiCall) (resp : MultiCommandResponse)
    → IsTallied clients s
    → s.unsent ≡ []
    → loop_end [] s ≡ some resp
    → Waited clients (landings s.launches) resp
unfolding loop_end
waited clients s resp t none_left e = elim (Bool-cases (are_landed s.launches)) [
  | inl all ↦
      let back : respond s.cancelled_count s (entries s.launches) ≡ resp = ground arith in
      rw (sym back) (respond-Waited clients s t none_left all)
  | inr some_fly ↦ absurd (ground arith)
]

-- A call that reaches the last client before its task is cancelled answers, once all goroutines have
-- ended, with one result for each client, in their order. It counts as successes the commands that
-- completed, as cancelled only the clients given up before anything was sent to them, and as failed
-- all others, a command that was cancelled while it was under way among them.
pub response-Waited :
    (clients : List Text) (es : List Event) (resp : MultiCommandResponse)
    → (run es (begin clients)).unsent ≡ []
    → response (run es (begin clients)) ≡ some resp
    → (rs : List ClientCommandResult) × Waited clients rs resp
unfolding response
response-Waited clients es resp none_left e =
    let s = run es (begin clients) in
    (
      landings s.launches,
      waited clients s resp (run-IsTallied clients es (begin clients) (begin-IsTallied clients))
          none_left (ap (λ l. loop_end l s) (sym none_left) ∙ e),
    )

-- The response of a call whose loop finds the task cancelled.
abbrev pub Cut : List Text → MultiCall → MultiCommandResponse → Type 0
Cut clients s resp =
    (resp.total ≡ length clients)
    × (resp.is_success ≡ false)
    × (resp.success_count ≡ tally has_completed (landings s.launches))
    × (resp.cancelled_count ≡ length s.unsent)
    × (resp.failed_count
        ≡ in_flight s.launches
          + tally gave_up (landings s.launches)
          + tally has_failed (landings s.launches))
    × (resp.results ≡ entries s.launches ++ cancelled_unsent s.unsent)

cut :
    (clients : List Text) (s : MultiCall) (c : Text) (cs : List Text) (resp : MultiCommandResponse)
    → IsTallied clients s
    → s.unsent ≡ c ∷ cs
    → loop_end (c ∷ cs) s ≡ some resp
    → Cut clients s resp
unfolding loop_end respond
cut clients s c cs resp t left e =
    let results = entries s.launches ++ cancelled_unsent (c ∷ cs) in
    let back : respond (length (c ∷ cs)) s results ≡ resp = ground arith in
    let many = ap length left in
    let counted = length-launches s.launches in
    let kinds = tally_total (landings s.launches) in
    let successes = t.successes in
    rw (sym back) (
      sym (length-clients clients s t),
      ground arith,
      successes,
      sym many,
      omega arith,
      ap (λ l. entries s.launches ++ cancelled_unsent l) (sym left),
    )

-- A call whose loop finds the task cancelled before a client answers at once, without success. It
-- counts as cancelled exactly the clients that the loop has not reached. All launched ones but those
-- whose command has completed count as failed, also those under way, which have no result.
pub response-Cut :
    (clients : List Text) (es : List Event) (c : Text) (cs : List Text)
    (resp : MultiCommandResponse)
    → (run es (begin clients)).unsent ≡ c ∷ cs
    → response (run es (begin clients)) ≡ some resp
    → Cut clients (run es (begin clients)) resp
unfolding response
response-Cut clients es c cs resp left e =
    let s = run es (begin clients) in
    cut clients s c cs resp (run-IsTallied clients es (begin clients) (begin-IsTallied clients))
      left (ap (λ l. loop_end l s) (sym left) ∙ e)
