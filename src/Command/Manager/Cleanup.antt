-- ===== src/Command/Manager/Cleanup.antt =====
-- The cleanup of commands and answers that come after a cancellation (pkg/command/manager.go).
use mathlib.Core.Option
use mathlib.Core.List.{append_assoc}
use quic_flow.Prelude.{
  ◌+◌, ltb, ◌&&◌, ℕ, ◌≡◌, refl, ap, ◌∙◌, if◌then◌else◌, Bool, true, false, Option, none, some, List,
  [], ◌∷◌, ◌++◌, arith,
}
use quic_flow.Prelude.Text.{Text, text_eq_iff, text_eq_refl}
use quic_flow.Prelude.Map.{
  Map, lookup, modify, delete, IsMap, lookup-modify, lookup-delete, delete-IsMap, listed,
}
use quic_flow.Command.Manager.{
  CommandStatus, pending, completed, cancelled, Command, CommandManager, new_command_manager,
  is_final, updated, call_result_handlers, update_found, update_command_status, ack_message,
  ack_success, respond, cancel_as, get_command, cancel_commands, is_older, is_expired, expired_ids,
  delete_each, cleanup,
}
use quic_flow.Command.Manager.History.{Event, run, IsKept, IsDated, is_given, run-IsKept}

lookup-delete_each :
    (j : Text) (ids : List Text) (m : Map Command)
    → IsMap m
    → lookup j (delete_each ids m) ≡ (if listed j ids then none else lookup j m)
unfolding delete_each listed
lookup-delete_each j [] m u = refl
lookup-delete_each j (i ∷ ids) m u =
    ground
      (arith, lookup-delete_each j ids (delete i m) (delete-IsMap i m u), lookup-delete i j m u)

-- Whether a command that may be missing is expired.
expired_at : ℕ → ℕ → Option Command → Bool
expired_at age now none = false
expired_at age now (some c) = is_expired age now c

listed-none :
    (j : Text) (age now : ℕ) (m : Map Command)
    → lookup j m ≡ none
    → listed j (expired_ids age now m) ≡ false
unfolding listed expired_ids lookup
listed-none j age now [] e = refl
listed-none j age now ((i, c) ∷ m) e = ground (arith, listed-none j age now m)

listed-expired_ids :
    (j : Text) (age now : ℕ) (m : Map Command)
    → IsMap m
    → listed j (expired_ids age now m) ≡ expired_at age now (lookup j m)
unfolding listed expired_ids lookup expired_at
listed-expired_ids j age now [] u = refl
listed-expired_ids j age now ((i, c) ∷ m) (fresh, u) =
    ground (arith, listed-expired_ids j age now m u, listed-none j age now m, text_eq_iff i j)

-- What a cleanup leaves of a command.
abbrev pub left_of : ℕ → ℕ → Option Command → Option Command
left_of age now none = none
left_of age now (some c) = elim c.completed_at [
  | none ↦ some c
  | some at ↦ if ltb (at + age) now then none else some c
]

dated_left :
    (age now : ℕ) (c : Command) (t : Option ℕ)
    → is_given t ≡ is_final c.status
    → (if is_final c.status && is_older t age now then none else some c)
      ≡ (elim t [ none ↦ some c | some at ↦ if ltb (at + age) now then none else some c ])
unfolding is_older
dated_left age now c none d = rw⁻¹ d refl
dated_left age now c (some at) d = rw⁻¹ d refl

left_lem :
    (age now : ℕ) (id : Text) (o : Option Command)
    → ((c : Command) → o ≡ some c → IsDated id c)
    → (if expired_at age now o then none else o) ≡ left_of age now o
unfolding expired_at is_expired is_older
left_lem age now id none dated = refl
left_lem age now id (some c) dated =
    let (_, d) = dated c refl in dated_left age now c c.completed_at d

-- After any history of the manager each command stands under its own id and has a time of completion
-- exactly when its status is final; and a cleanup removes exactly the commands that were completed
-- more than the maximal age ago, and leaves the others as they are.
pub cleanup-run :
    (es : List Event) (now : ℕ) (id : Text)
    → let cm = run es new_command_manager in
      IsKept cm.commands
      × (get_command id (cleanup now cm) ≡ left_of cm.max_command_age now (get_command id cm))
unfolding cleanup get_command new_command_manager expired_at lookup
cleanup-run es now id =
    let cm = run es new_command_manager in
    let k =
      run-IsKept es new_command_manager
        (record { is_map = tt; dated = λ i c e. absurd (ground arith) }) in
    let u = k.is_map in
    let e = lookup-delete_each id (expired_ids cm.max_command_age now cm.commands) cm.commands u in
    let e2 = listed-expired_ids id cm.max_command_age now cm.commands u in
    (k, e ∙ rw e2 (left_lem cm.max_command_age now id (lookup id cm.commands) (k.dated id)))

-- A write of a final status calls the handlers with the command.
update-found :
    (cm : CommandManager) (id : Text) (s : CommandStatus) (result error : Text) (t : ℕ)
    (c x : Command)
    → updated s result error t c ≡ x
    → lookup id cm.commands ≡ some c
    → cm.has_handlers ≡ true
    → is_final s ≡ true
    → (lookup id (update_command_status id s result error t cm).commands ≡ some x)
      × ((update_command_status id s result error t cm).completions ≡ cm.completions ++ (id ∷ []))
      × ((update_command_status id s result error t cm).has_handlers ≡ true)
unfolding update_command_status update_found call_result_handlers
update-found cm id s result error t c x new found handlers f =
    let e = lookup-modify id id (updated s result error t) cm.commands in
    let e2 = text_eq_refl id in
    let e3 : lookup id (modify id (updated s result error t) cm.commands) ≡ some x =
      e ∙ rw e2 (ap (Option.map (updated s result error t)) found ∙ ap some new) in
    simp (found, f, handlers) (e3, refl, refl)

cancel_going :
    (o : Option Command) (c : Command) (text id : Text) (t : ℕ) (cm : CommandManager)
    → o ≡ some c
    → is_final c.status ≡ false
    → cancel_as o text id t cm ≡ update_command_status id cancelled [] text t cm
unfolding cancel_as
cancel_going o c text id t cm e going = rw e (rw going refl)

-- A pending command is cancelled, and the client's success comes after that: the command is then
-- completed, and the handlers of results are called with it twice.
pub respond-cancelled :
    (cm : CommandManager) (id text result : Text) (c : Command) (t u : ℕ)
    → get_command id cm ≡ some c
    → c.status ≡ pending
    → cm.has_handlers ≡ true
    → let cm' =
        respond id (ack_message ack_success result []) u (cancel_commands text (id ∷ []) t cm) in
      (Option.map (λ (x : Command). x.status) (get_command id cm') ≡ some completed)
      × (cm'.completions ≡ cm.completions ++ (id ∷ id ∷ []))
unfolding get_command respond cancel_commands cancel_as is_final updated
respond-cancelled cm id text result c t u found waiting handlers =
    let cm1 = update_command_status id cancelled [] text t cm in
    let going : is_final c.status ≡ false = rw waiting refl in
    let same : cancel_as (lookup id cm.commands) text id t cm ≡ cm1 =
      cancel_going (lookup id cm.commands) c text id t cm found going in
    let (found1, calls1, handlers1) =
      update-found cm id cancelled [] text t c (updated cancelled [] text t c) refl found handlers
        refl in
    let (found2, calls2, _) =
      update-found cm1 id completed result [] u (updated cancelled [] text t c)
        (updated completed result [] u (updated cancelled [] text t c)) refl found1 handlers1
        refl in
    rw same (
      ap (Option.map (λ (x : Command). x.status)) found2,
      calls2 ∙ ap (λ l. l ++ (id ∷ [])) calls1 ∙ append_assoc cm.completions (id ∷ []) (id ∷ []),
    )
