-- ===== src/Session/TimeWheel.antt =====
-- pkg/session/timewheel.go: the wheel of TimeWheelHeartbeatChecker.
-- A slot, a map with empty values, is the list of its keys; the array of slots is a function of the
-- index, which is always taken modulo the slot count. The tick is an int64 that is not negative, as
-- are the durations.
pub mod Rounds
pub mod OnTime
use quic_flow.Prelude.{
  ℕ, ◌+◌, ◌*◌, ◌/◌, ◌%◌, ◌==◌, if◌then◌else◌, Bool, true, false, not, Option, none, some, List, [],
  ◌∷◌, keep,
}
use quic_flow.Prelude.Word.{add64, i64_leb}
use quic_flow.Prelude.Text.{Text, text_eq}
use quic_flow.Prelude.Map.{Map, lookup, insert, delete}
use quic_flow.Session.Client.{second}

pub record TimeWheel : Type 0 where
  pub slots : ℕ → List Text
  pub slot_size : ℕ
  pub current : ℕ
  pub tick : ℕ
  pub session_to_slot : Map ℕ
  pub session_expiry : Map ℕ
  pub tick_interval : ℕ
  pub heartbeat_timeout : ℕ
  pub max_timeout_count : ℕ  -- int32, as a bit pattern
  pub has_hooks : Bool

abbrev or_default : ℕ → ℕ → ℕ
or_default value default = if value == 0 then default else value

unfoldable pub new_time_wheel : ℕ → ℕ → ℕ → ℕ → Bool → TimeWheel
new_time_wheel size interval timeout max hooks = record {
  slots = λ i. [];
  slot_size = or_default size 60;
  current = 0;
  tick = 0;
  session_to_slot = [];
  session_expiry = [];
  tick_interval = or_default interval second;
  heartbeat_timeout = or_default timeout (45 * second);
  max_timeout_count = or_default max 3;
  has_hooks = hooks;
}

-- slot[id] = struct{}{} and delete(slot, id).
pub without : Text → List Text → List Text
without id ids = keep (λ i. not (text_eq i id)) ids

pub with_id : Text → List Text → List Text
unfolding without
with_id id ids = id ∷ without id ids

abbrev pub set_slot : ℕ → List Text → (ℕ → List Text) → ℕ → List Text
set_slot i ids slots j = if i == j then ids else slots j

-- How many ticks after now a session expires.
abbrev pub timeout_ticks : TimeWheel → ℕ
timeout_ticks tw = tw.heartbeat_timeout / tw.tick_interval

unfoldable pub register : Text → TimeWheel → TimeWheel
unfolding with_id
register id tw =
    let expiry_tick = add64 tw.tick (timeout_ticks tw) in
    let slot = expiry_tick % tw.slot_size in
    record tw {
      session_to_slot = insert id slot tw.session_to_slot;
      session_expiry = insert id expiry_tick tw.session_expiry;
      slots = set_slot slot (with_id id (tw.slots slot)) tw.slots;
    }

-- The first step of UpdateHeartbeat and of Unregister.
leave_from : Text → Option ℕ → TimeWheel → TimeWheel
unfolding without
leave_from id none tw = tw
leave_from id (some slot) tw = record tw {
  slots = set_slot slot (without id (tw.slots slot)) tw.slots;
}

pub leave_slot : Text → TimeWheel → TimeWheel
unfolding leave_from
leave_slot id tw = leave_from id (lookup id tw.session_to_slot) tw

-- The second step of UpdateHeartbeat is the code of Register.
unfoldable pub update_heartbeat : Text → TimeWheel → TimeWheel
unfolding leave_slot register
update_heartbeat id tw = register id (leave_slot id tw)

forget : Text → TimeWheel → TimeWheel
forget id tw = record tw {
  session_to_slot = delete id tw.session_to_slot;
  session_expiry = delete id tw.session_expiry;
}

unfoldable pub unregister : Text → TimeWheel → TimeWheel
unfolding leave_slot forget
unregister id tw = forget id (leave_slot id tw)

-- The pointer of onTick moves to the next slot.
unfoldable pub advance : TimeWheel → TimeWheel
advance tw = record tw { current = (tw.current + 1) % tw.slot_size; tick = add64 tw.tick 1 }

pub is_due : TimeWheel → Text → Bool
is_due tw id = elim (lookup id tw.session_expiry) [
  | none ↦ false
  | some expiry_tick ↦ i64_leb expiry_tick tw.tick
]

-- The clients that onTick finds expired in the slot of its pointer.
unfoldable pub expired_clients : TimeWheel → List Text
unfolding is_due
expired_clients tw = keep (is_due tw) (tw.slots tw.current)
