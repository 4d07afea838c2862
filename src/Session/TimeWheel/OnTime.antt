-- ===== src/Session/TimeWheel/OnTime.antt =====
-- The time wheel of pkg/session/timewheel.go checks a session at the tick at which it expires.
use native.Mathlib.Nat.{mod-add-mod}
use quic_flow.Prelude.{
  ℕ, suc, ◌+◌, ◌%◌, ◌≤◌, ◌<◌, ◌≡◌, refl, sym, ap, ◌∙◌, ◌==◌, if◌then◌else◌, Bool, Bool-cases, true,
  false, not, Option, none, some, List, [], ◌∷◌, keep, arith, inl, inr,
}
use quic_flow.Prelude.Word.{add64, i64_neg, i64_leb_lem}
use quic_flow.Prelude.Text.{Text, text_eq, text_eq_iff}
use quic_flow.Prelude.Map.{
  IsMap, lookup, listed, lookup-insert, lookup-delete, insert-IsMap, delete-IsMap,
}
use quic_flow.Session.TimeWheel.{
  TimeWheel, register, leave_slot, leave_from, forget, update_heartbeat, unregister, advance,
  is_due, expired_clients, timeout_ticks, with_id, without,
}

listed-keep :
    (p : Text → Bool) (j : Text) (ids : List Text)
    → listed j (keep p ids) ≡ (if p j then listed j ids else false)
unfolding listed
listed-keep p j [] = ground arith
listed-keep p j (i ∷ ids) = ground (arith, listed-keep p j ids, text_eq_iff i j)

listed-without :
    (id j : Text) (ids : List Text)
    → listed j (without id ids) ≡ (if text_eq id j then false else listed j ids)
unfolding without
listed-without id j ids =
    ground (arith, listed-keep (λ i. not (text_eq i id)) j ids, text_eq_iff id j, text_eq_iff j id)

listed-with_id :
    (id j : Text) (ids : List Text)
    → listed j (with_id id ids) ≡ (if text_eq id j then true else listed j ids)
unfolding with_id listed
listed-with_id id j ids = ground (arith, listed-without id j ids)

-- Session `j` stands in the slot of its expiry.
pub record IsEntered (tw : TimeWheel) (j : Text) (expiry : ℕ) : Type 0 where
  pub slot : lookup j tw.session_to_slot ≡ some (expiry % tw.slot_size)
  pub inside : listed j (tw.slots (expiry % tw.slot_size)) ≡ true

-- Every session of the map of expiries does, save perhaps those that `p` excepts.
pub record IsWheel (p : Text → Bool) (tw : TimeWheel) : Type 0 where
  pub some_slot : 0 < tw.slot_size
  pub pointer : tw.current ≡ tw.tick % tw.slot_size
  pub slot_map : IsMap tw.session_to_slot
  pub expiry_map : IsMap tw.session_expiry
  pub entered :
      (j : Text) (e : ℕ) → p j ≡ false → lookup j tw.session_expiry ≡ some e → IsEntered tw j e

abbrev pub no_one : Text → Bool
no_one j = false

register-IsEntered :
    (id j : Text) (tw : TimeWheel) (e : ℕ)
    → (text_eq id j ≡ false → lookup j tw.session_expiry ≡ some e → IsEntered tw j e)
    → lookup j (register id tw).session_expiry ≡ some e
    → IsEntered (register id tw) j e
unfolding register
register-IsEntered id j tw e old h =
    let at = add64 tw.tick (timeout_ticks tw) in
    let slot = at % tw.slot_size in
    let e1 = lookup-insert id j at tw.session_expiry in
    let e2 = lookup-insert id j slot tw.session_to_slot in
    let e3 = listed-with_id id j (tw.slots slot) in
    elim (Bool-cases (text_eq id j)) [
      | inl same ↦
          let now : e ≡ at = ground arith in record { slot = ground arith; inside = ground arith }
      | inr other ↦
          let before : lookup j tw.session_expiry ≡ some e = ground arith in
          let was = old other before in
          let s = was.slot in
          let i = was.inside in record { slot = ground arith; inside = ground arith }
    ]

leave_from-IsEntered :
    (id j : Text) (slot : Option ℕ) (tw : TimeWheel) (e : ℕ)
    → text_eq id j ≡ false
    → IsEntered tw j e
    → IsEntered (leave_from id slot tw) j e
unfolding leave_from
leave_from-IsEntered id j none tw e other k = k
leave_from-IsEntered id j (some slot) tw e other k =
    let i = k.inside in
    let l = listed-without id j (tw.slots slot) in record { slot = k.slot; inside = ground arith }

leave_from-IsWheel :
    (id : Text) (slot : Option ℕ) (tw : TimeWheel)
    → IsWheel no_one tw
    → IsWheel (text_eq id) (leave_from id slot tw)
unfolding leave_from
leave_from-IsWheel id none tw k = record {
  some_slot = k.some_slot;
  pointer = k.pointer;
  slot_map = k.slot_map;
  expiry_map = k.expiry_map;
  entered = λ j e other h. k.entered j e refl h;
}
leave_from-IsWheel id (some slot) tw k = record {
  some_slot = k.some_slot;
  pointer = k.pointer;
  slot_map = k.slot_map;
  expiry_map = k.expiry_map;
  entered = λ j e other h. leave_from-IsEntered id j (some slot) tw e other (k.entered j e refl h);
}

register-IsWheel :
    (id : Text) (tw : TimeWheel) → IsWheel (text_eq id) tw → IsWheel no_one (register id tw)
unfolding register
register-IsWheel id tw k =
    let at = add64 tw.tick (timeout_ticks tw) in
    record {
      some_slot = k.some_slot;
      pointer = k.pointer;
      slot_map = insert-IsMap id (at % tw.slot_size) tw.session_to_slot k.slot_map;
      expiry_map = insert-IsMap id at tw.session_expiry k.expiry_map;
      entered = λ j e yes h. register-IsEntered id j tw e (k.entered j e) h;
    }

forget-IsWheel :
    (id : Text) (tw : TimeWheel) → IsWheel (text_eq id) tw → IsWheel no_one (forget id tw)
unfolding forget
forget-IsWheel id tw k = record {
  some_slot = k.some_slot;
  pointer = k.pointer;
  slot_map = delete-IsMap id tw.session_to_slot k.slot_map;
  expiry_map = delete-IsMap id tw.session_expiry k.expiry_map;
  entered = λ j e always h.
      let d1 = lookup-delete id j tw.session_to_slot k.slot_map in
      let d2 = lookup-delete id j tw.session_expiry k.expiry_map in
      let other : text_eq id j ≡ false = ground arith in
      let before : lookup j tw.session_expiry ≡ some e = ground arith in
      let was = k.entered j e other before in
      let s = was.slot in record { slot = ground arith; inside = was.inside };
}

pub new_register-IsWheel :
    (id : Text) (tw : TimeWheel) → IsWheel no_one tw → IsWheel no_one (register id tw)
new_register-IsWheel id tw k = register-IsWheel id tw (record {
  some_slot = k.some_slot;
  pointer = k.pointer;
  slot_map = k.slot_map;
  expiry_map = k.expiry_map;
  entered = λ j e other h. k.entered j e refl h;
})

pub update_heartbeat-IsWheel :
    (id : Text) (tw : TimeWheel) → IsWheel no_one tw → IsWheel no_one (update_heartbeat id tw)
unfolding update_heartbeat leave_slot
update_heartbeat-IsWheel id tw k =
    register-IsWheel id (leave_slot id tw)
      (leave_from-IsWheel id (lookup id tw.session_to_slot) tw k)

pub unregister-IsWheel :
    (id : Text) (tw : TimeWheel) → IsWheel no_one tw → IsWheel no_one (unregister id tw)
unfolding unregister leave_slot
unregister-IsWheel id tw k =
    forget-IsWheel id (leave_slot id tw) (leave_from-IsWheel id (lookup id tw.session_to_slot) tw k)

pub advance-IsWheel :
    (tw : TimeWheel) → suc tw.tick < i64_neg → IsWheel no_one tw → IsWheel no_one (advance tw)
unfolding advance
advance-IsWheel tw bound k =
    let p = k.pointer in
    let m = mod-add-mod tw.tick tw.slot_size 1 in
    let t : add64 tw.tick 1 ≡ tw.tick + 1 = ground arith in
    record {
      some_slot = k.some_slot;
      pointer = ap (λ c. (c + 1) % tw.slot_size) p ∙ m ∙ ap (λ t. t % tw.slot_size) (sym t);
      slot_map = k.slot_map;
      expiry_map = k.expiry_map;
      entered = λ j e always h.
          let was = k.entered j e refl h in record { slot = was.slot; inside = was.inside };
    }

-- With a session in the slot of its expiry, the tick of its expiry finds it, and no earlier one.
pub expired_on_time :
    (tw : TimeWheel) (id : Text) (e : ℕ)
    → IsWheel no_one tw
    → lookup id tw.session_expiry ≡ some e
    → tw.tick ≤ e
    → e < i64_neg
    → listed id (expired_clients tw) ≡ (e == tw.tick)
unfolding expired_clients is_due
expired_on_time tw id e k h later bound =
    let was = k.entered id e refl h in
    let i = was.inside in
    let p = k.pointer in
    let l = listed-keep (is_due tw) id (tw.slots tw.current) in
    let c = i64_leb_lem e tw.tick bound (omega arith) in
    elim (Bool-cases (e == tw.tick)) [
      | inl at ↦ let same : e ≡ tw.tick = ground arith in ground arith
      | inr before ↦ ground arith
    ]
