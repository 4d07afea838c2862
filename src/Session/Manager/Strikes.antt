-- ===== src/Session/Manager/Strikes.antt =====
-- The heartbeat strikes of pkg/session/manager.go over several rounds of the checker.
use mathlib.Core.Path.{ap₂}
use quic_flow.Prelude.{
  ℕ, suc, ◌+◌, ◌≤◌, ◌<◌, ◌≡◌, refl, true, false, Option, none, some, List, [], ◌∷◌, inl, inr, ◌∙◌,
  ap, if◌then◌else◌, arith, Bool-cases, ltb, leb, All, length,
}
use quic_flow.Prelude.Word.{i32_neg, i32_leb_lem}
use quic_flow.Prelude.Text.{Text}
use quic_flow.Prelude.Map.{lookup}
use quic_flow.Session.Client.{
  ClientSession, increment_timeout_count, reset_timeout_count, is_heartbeat_timeout,
  get_time_since_last_heartbeat,
}
use quic_flow.Session.Manager.{SessionManager, run_checks, is_stale, calm}
use quic_flow.Session.Manager.Registry.{IsConsistent}
use quic_flow.Session.Manager.Sweeps.{checked, after_check, AllConnected}
use quic_flow.Session.Manager.Rounds.{check_heartbeats-checked}

-- The session with `n` strikes.
abbrev pub struck : ℕ → ClientSession → ClientSession
struck n s = record s { timeout_count = n }

-- What is left of a session with `n` strikes under the limit `max`.
abbrev outcome : ℕ → ℕ → ClientSession → Option ClientSession
outcome max n s = if ltb n max then some (struck n s) else none

regroup : (n k : ℕ) → n + 1 + k ≡ n + suc k
regroup n k = omega arith

checked_stale :
    (max now : ℕ) (s : ClientSession)
    → max < i32_neg
    → s.timeout_count < max
    → is_stale now s ≡ true
    → checked max now s
      ≡ (if leb max (s.timeout_count + 1) then none else some (struck (s.timeout_count + 1) s))
unfolding checked increment_timeout_count
checked_stale max now s m c h = rw h (ground (arith, i32_leb_lem max (s.timeout_count + 1)))

is_stale-struck :
    (n : ℕ) (s : ClientSession) (ticks : List ℕ)
    → All (λ now. is_stale now s ≡ true) ticks
    → All (λ now. is_stale now (struck n s) ≡ true) ticks
unfolding is_stale get_time_since_last_heartbeat
is_stale-struck n s [] h = tt
is_stale-struck n s (now ∷ ticks) h = (h.0, is_stale-struck n s ticks h.1)

-- The loop always returns, and an id with no session gets none.
run_checks-absent :
    (ticks : List ℕ) (j : Text) (sm : SessionManager)
    → IsConsistent sm
    → AllConnected sm
    → lookup j sm.sessions ≡ none
    → (sm' : SessionManager) × (run_checks ticks sm ≡ some sm') × (lookup j sm'.sessions ≡ none)
unfolding run_checks
run_checks-absent [] j sm v c h = (sm, refl, h)
run_checks-absent (now ∷ ticks) j sm v c h =
    let (w, e, v', c', m, k) = check_heartbeats-checked now sm v c in
    let (sm', f, g) =
      run_checks-absent ticks j w.manager v' c'
        (k j ∙ ap (after_check sm.max_timeout_count now) h) in
    (sm', rw (e, run_checks) f, g)

-- A session silent for more than 15 seconds at each tick gains one strike a tick, and is removed
-- by the tick that brings its strikes to the limit, not before.
pub run_checks_strikes :
    (ticks : List ℕ) (j : Text) (s : ClientSession) (sm : SessionManager)
    → IsConsistent sm
    → AllConnected sm
    → lookup j sm.sessions ≡ some s
    → s.timeout_count < sm.max_timeout_count
    → sm.max_timeout_count < i32_neg
    → All (λ now. is_stale now s ≡ true) ticks
    → (sm' : SessionManager) × (run_checks ticks sm ≡ some sm')
      × (lookup j sm'.sessions ≡ (
          if ltb (s.timeout_count + length ticks) sm.max_timeout_count
          then some (struck (s.timeout_count + length ticks) s)
          else none))
unfolding run_checks
run_checks_strikes [] j s sm v c h m b a = (sm, refl, h ∙ ground arith)
run_checks_strikes (now ∷ ticks) j s sm v c h m b a =
    let max = sm.max_timeout_count in
    let n = s.timeout_count in
    let (w, e, v', c', same, k) = check_heartbeats-checked now sm v c in
    let now_j = k j ∙ ap (after_check max now) h ∙ checked_stale max now s b m a.0 in
    elim (Bool-cases (leb max (n + 1))) [
      | inl last ↦
          let (sm', f, g) = run_checks-absent ticks j w.manager v' c' (rw last at now_j) in
          (sm', rw (e, run_checks) f, ground (arith, g))
      | inr more ↦
          let (sm', f, g) =
            run_checks_strikes ticks j (struck (n + 1) s) w.manager v' c' (rw more at now_j)
              (ground (arith, same)) (rw same b) (is_stale-struck (n + 1) s ticks a.1) in
          (
            sm',
            rw (e, run_checks) f,
            g ∙ ap₂ (λ m k. outcome m k s) same (regroup n (length ticks)),
          )
    ]

-- The configured `heartbeat_timeout` does not delay the removal: a session with no strike, silent
-- for more than 15 seconds at each of `max_timeout_count` ticks, is gone after them, although at
-- the last tick its heartbeat has not timed out by `IsHeartbeatTimeout` of that setting.
pub run_checks-before-timeout :
    (ticks : List ℕ) (last : ℕ) (j : Text) (s : ClientSession) (sm : SessionManager)
    → IsConsistent sm
    → AllConnected sm
    → lookup j sm.sessions ≡ some s
    → s.timeout_count ≡ 0
    → length ticks ≡ sm.max_timeout_count
    → 0 < sm.max_timeout_count
    → sm.max_timeout_count < i32_neg
    → All (λ now. is_stale now s ≡ true) ticks
    → get_time_since_last_heartbeat last s ≤ sm.heartbeat_timeout
    → (sm' : SessionManager) × (run_checks ticks sm ≡ some sm')
      × (lookup j sm'.sessions ≡ none)
      × (is_heartbeat_timeout last sm.heartbeat_timeout s ≡ false)
unfolding is_heartbeat_timeout
run_checks-before-timeout ticks last j s sm v c h z n p b a y =
    let (sm', e, g) = run_checks_strikes ticks j s sm v c h (omega arith) b a in
    (sm', e, ground (arith, g), ground arith)

checked_fresh :
    (max now : ℕ) (s : ClientSession)
    → s.timeout_count < i32_neg
    → is_stale now s ≡ false
    → checked max now s ≡ some (struck 0 s)
unfolding checked calm reset_timeout_count
checked_fresh max now s b h = rw h (ground (arith, i32_leb_lem s.timeout_count 0))

calm_loop :
    (ticks : List ℕ) (j : Text) (s : ClientSession) (sm : SessionManager)
    → IsConsistent sm
    → AllConnected sm
    → lookup j sm.sessions ≡ some (struck 0 s)
    → All (λ t. is_stale t s ≡ false) ticks
    → (sm' : SessionManager) × (run_checks ticks sm ≡ some sm')
      × (lookup j sm'.sessions ≡ some (struck 0 s))
unfolding run_checks is_stale get_time_since_last_heartbeat
calm_loop [] j s sm v c h a = (sm, refl, h)
calm_loop (now ∷ ticks) j s sm v c h a =
    let max = sm.max_timeout_count in
    let (w, e, v', c', same, k) = check_heartbeats-checked now sm v c in
    let (sm', f, g) =
      calm_loop ticks j s w.manager v' c'
        (k j ∙ ap (after_check max now) h ∙ checked_fresh max now (struck 0 s) (omega arith) a.0)
        a.1 in
    (sm', rw (e, run_checks) f, g)

-- A session heard from within 15 seconds of each tick keeps its place, and the first tick sets its
-- strikes to 0.
pub run_checks_fresh :
    (now : ℕ) (ticks : List ℕ) (j : Text) (s : ClientSession) (sm : SessionManager)
    → IsConsistent sm
    → AllConnected sm
    → lookup j sm.sessions ≡ some s
    → s.timeout_count < i32_neg
    → All (λ t. is_stale t s ≡ false) (now ∷ ticks)
    → (sm' : SessionManager) × (run_checks (now ∷ ticks) sm ≡ some sm')
      × (lookup j sm'.sessions ≡ some (struck 0 s))
unfolding run_checks
run_checks_fresh now ticks j s sm v c h b a =
    let max = sm.max_timeout_count in
    let (w, e, v', c', same, k) = check_heartbeats-checked now sm v c in
    let (sm', f, g) =
      calm_loop ticks j s w.manager v' c'
        (k j ∙ ap (after_check max now) h ∙ checked_fresh max now s b a.0) a.1 in
    (sm', rw (e, run_checks) f, g)
