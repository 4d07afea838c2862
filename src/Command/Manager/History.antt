-- ===== src/Command/Manager/History.antt =====
-- Histories of the command manager (pkg/command/manager.go): calls in any order.

use quic_flow.Prelude.{
  ℕ, ◌≡◌, refl, ◌∙◌, sym, ◌⊎◌, Bool, Bool-cases, true, false, Option, none, some, List, [], ◌∷◌,
  arith, inl, inr,
}
use quic_flow.Prelude.Text.{Text, text_eq, text_eq_iff}
use quic_flow.Prelude.Map.{
  Map, lookup, insert, delete, modify, IsMap, lookup-insert, lookup-modify, lookup-delete,
  insert-IsMap, modify-IsMap, delete-IsMap,
}
use quic_flow.Command.Manager.{
  CommandStatus, completed, failed, timeout, cancelled, Command, CommandManager, is_final, updated,
  call_result_handlers, update_found, update_command_status, Sending, marshal_failed, send_failed,
  sent, new_command, after_sending, send_command, Response, response_error, ack_message, nothing,
  ack_success, ack_failure, ack_timeout, ack_other, respond, cancel_as, cancel_commands,
  expired_ids, delete_each, cleanup, unknown_ack_status,
}

pub data Event : Type 0 where
  send : Sending → Text → Text → Text → Text → ℕ → ℕ → Event
  answer : Text → Response → ℕ → Event
  cancel : Text → List Text → ℕ → Event
  clean : ℕ → Event

unfoldable pub step : Event → CommandManager → CommandManager
step (send how id client command_type payload after now) cm =
    send_command how id client command_type payload after now cm
step (answer id r now) cm = respond id r now cm
step (cancel text ids now) cm = cancel_commands text ids now cm
step (clean now) cm = cleanup now cm

unfoldable pub run : List Event → CommandManager → CommandManager
unfolding step
run [] cm = cm
run (e ∷ es) cm = run es (step e cm)

abbrev pub is_given : Option ℕ → Bool
is_given none = false
is_given (some n) = true

-- A command stands under its id, and has a time of completion exactly when its status is final.
abbrev pub IsDated : Text → Command → Type 0
IsDated id c = (c.command_id ≡ id) × (is_given c.completed_at ≡ is_final c.status)

pub record IsKept (m : Map Command) : Type 0 where
  pub is_map : IsMap m
  pub dated : (id : Text) (c : Command) → lookup id m ≡ some c → IsDated id c

some_injective : {A : Type 0} {a b : A} → some a ≡ some b → a ≡ b
some_injective e = ground arith

insert-IsKept :
    (id : Text) (c : Command) (m : Map Command) → IsKept m → IsDated id c → IsKept (insert id c m)
insert-IsKept id c m k d = record {
  is_map = insert-IsMap id c m k.is_map;
  dated = λ j x e.
      let e2 = lookup-insert id j c m in
      elim (Bool-cases (text_eq id j)) [
        | inl same ↦
            let found : c ≡ x = some_injective (sym (e2 ∙ (rw same refl)) ∙ e) in
            let key : id ≡ j = ground (arith, text_eq_iff id j) in rw⁻¹ found (rw⁻¹ key d)
        | inr other ↦ k.dated j x (ground arith)
      ];
}

modify-IsKept :
    (id : Text) (f : Command → Command) (m : Map Command)
    → IsKept m
    → ((i : Text) (c : Command) → IsDated i c → IsDated i (f c))
    → IsKept (modify id f m)
modify-IsKept id f m k keeps = record {
  is_map = modify-IsMap id f m k.is_map;
  dated = λ j x e. modified j x (lookup j m) refl (Bool-cases (text_eq id j)) e;
}
  where
    modified :
        (j : Text) (x : Command) (o : Option Command)
        → lookup j m ≡ o
        → (text_eq id j ≡ true) ⊎ (text_eq id j ≡ false)
        → lookup j (modify id f m) ≡ some x
        → IsDated j x
    modified j x none l b e = absurd (ground (arith, lookup-modify id j f m))
    modified j x (some c) l (inl same) e =
        let e2 = lookup-modify id j f m in
        let found : f c ≡ x = ground arith in rw⁻¹ found (keeps j c (k.dated j c l))
    modified j x (some c) l (inr other) e =
        let e2 = lookup-modify id j f m in k.dated j x (ground arith)

delete-IsKept : (id : Text) (m : Map Command) → IsKept m → IsKept (delete id m)
delete-IsKept id m k = record {
  is_map = delete-IsMap id m k.is_map;
  dated = λ j x e.
      let e2 = lookup-delete id j m k.is_map in
      elim (Bool-cases (text_eq id j)) [
        | inl same ↦ absurd (ground arith)
        | inr other ↦ k.dated j x (ground arith)
      ];
}

handlers-commands :
    (id : Text) (cm : CommandManager) → (call_result_handlers id cm).commands ≡ cm.commands
unfolding call_result_handlers
handlers-commands id cm = ground arith

update_found-IsKept :
    (o : Option Command) (id : Text) (status : CommandStatus) (result error : Text) (now : ℕ)
    (cm : CommandManager)
    → is_final status ≡ true
    → IsKept cm.commands
    → IsKept (update_found o id status result error now cm).commands
unfolding update_found updated
update_found-IsKept none id status result error now cm f k = k
update_found-IsKept (some c) id status result error now cm f k =
    let written =
      modify-IsKept id (updated status result error now) cm.commands k
        (λ i x d. let (same, _) = d in (same, rw f refl)) in
    rw f (
      rw
        (handlers-commands id
          (record cm { commands = modify id (updated status result error now) cm.commands }))
        written)

update-IsKept :
    (id : Text) (status : CommandStatus) (result error : Text) (now : ℕ) (cm : CommandManager)
    → is_final status ≡ true
    → IsKept cm.commands
    → IsKept (update_command_status id status result error now cm).commands
unfolding update_command_status
update-IsKept id status result error now cm f k =
    update_found-IsKept (lookup id cm.commands) id status result error now cm f k

after_sending-IsKept :
    (how : Sending) (id : Text) (now : ℕ) (cm : CommandManager)
    → IsKept cm.commands
    → IsKept (after_sending how id now cm).commands
unfolding after_sending is_final
after_sending-IsKept (marshal_failed e) id now cm k = update-IsKept id failed [] e now cm refl k
after_sending-IsKept (send_failed e) id now cm k = update-IsKept id failed [] e now cm refl k
after_sending-IsKept sent id now cm k =
    modify-IsKept id (λ c. record c { sent_at = some now }) cm.commands k (λ i x d. d)

respond-IsKept :
    (id : Text) (r : Response) (now : ℕ) (cm : CommandManager)
    → IsKept cm.commands
    → IsKept (respond id r now cm).commands
unfolding respond is_final
respond-IsKept id (response_error e) now cm k = update-IsKept id timeout [] e now cm refl k
respond-IsKept id (ack_message ack_success r e) now cm k =
    update-IsKept id completed r [] now cm refl k
respond-IsKept id (ack_message ack_failure r e) now cm k = update-IsKept id failed r e now cm refl k
respond-IsKept id (ack_message ack_timeout r e) now cm k =
    update-IsKept id timeout [] e now cm refl k
respond-IsKept id (ack_message ack_other r e) now cm k =
    update-IsKept id failed [] unknown_ack_status now cm refl k
respond-IsKept id nothing now cm k = k

cancel_as-IsKept :
    (o : Option Command) (text id : Text) (now : ℕ) (cm : CommandManager)
    → IsKept cm.commands
    → IsKept (cancel_as o text id now cm).commands
unfolding cancel_as is_final
cancel_as-IsKept none text id now cm k = k
cancel_as-IsKept (some c) text id now cm k = elim (Bool-cases (is_final c.status)) [
  | inl over ↦ rw over k
  | inr going ↦ rw going (update-IsKept id cancelled [] text now cm refl k)
]

cancel_commands-IsKept :
    (text : Text) (ids : List Text) (now : ℕ) (cm : CommandManager)
    → IsKept cm.commands
    → IsKept (cancel_commands text ids now cm).commands
unfolding cancel_commands
cancel_commands-IsKept text [] now cm k = k
cancel_commands-IsKept text (id ∷ ids) now cm k =
    cancel_commands-IsKept text ids now (cancel_as (lookup id cm.commands) text id now cm)
      (cancel_as-IsKept (lookup id cm.commands) text id now cm k)

delete_each-IsKept : (ids : List Text) (m : Map Command) → IsKept m → IsKept (delete_each ids m)
unfolding delete_each
delete_each-IsKept [] m k = k
delete_each-IsKept (id ∷ ids) m k = delete_each-IsKept ids (delete id m) (delete-IsKept id m k)

step-IsKept : (e : Event) (cm : CommandManager) → IsKept cm.commands → IsKept (step e cm).commands
unfolding step send_command new_command cleanup is_final
step-IsKept (send how id client command_type payload after now) cm k =
    after_sending-IsKept how id now _ (
      insert-IsKept id (new_command id client command_type payload after now) cm.commands k
        (refl, refl))
step-IsKept (answer id r now) cm k = respond-IsKept id r now cm k
step-IsKept (cancel text ids now) cm k = cancel_commands-IsKept text ids now cm k
step-IsKept (clean now) cm k =
    delete_each-IsKept (expired_ids cm.max_command_age now cm.commands) cm.commands k

pub run-IsKept :
    (es : List Event) (cm : CommandManager) → IsKept cm.commands → IsKept (run es cm).commands
unfolding run
run-IsKept [] cm k = k
run-IsKept (e ∷ es) cm k = run-IsKept es (step e cm) (step-IsKept e cm k)
