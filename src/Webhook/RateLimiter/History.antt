-- ===== src/Webhook/RateLimiter/History.antt =====
-- pkg/release/webhook/rate_limiter.go under any sequence of requests and cleanups.
use quic_flow.Prelude.{
  ℕ, ◌≤◌, ◌≡◌, refl, if◌then◌else◌, true, false, ◌&&◌, Option, none, some, List, [], ◌∷◌, length,
  keep, length-keep-le, arith, Bool-cases, inl, inr,
}
use quic_flow.Prelude.Text.{Text, text_eq, text_eq_iff, text_eq_refl}
use quic_flow.Prelude.Map.{Map, lookup, insert, IsMap, lookup-insert, insert-IsMap}
use quic_flow.Webhook.RateLimiter.{
  RateLimiter, RequestWindow, empty_window, default_block_time, is_valid, allow_window, window_of,
  allow, clean_window, clean_all, cleanup, new_rate_limiter,
}
use quic_flow.Webhook.RateLimiter.Bound.{
  Tracks, grown, keep-keep, allow_window-Tracks, later-Tracks,
}

-- The window that a cleanup leaves for a key; a deleted one reads as the empty window.
abbrev pub cleaned : RateLimiter → ℕ → RequestWindow → RequestWindow
cleaned rl now w = elim (clean_window rl now w) [ none ↦ empty_window | some w' ↦ w' ]

-- A cleanup drops only what no later time counts.
cleaned_timestamps :
    (rl : RateLimiter) (now t : ℕ) (w : RequestWindow)
    → now ≤ t
    → length (keep (is_valid rl.window t) (cleaned rl now w).timestamps)
      ≡ length (keep (is_valid rl.window t) w.timestamps)
unfolding clean_window
cleaned_timestamps rl now t w e =
    let valid = keep (is_valid rl.window now) w.timestamps in
    ground
      (arith, keep-keep rl.window now t w.timestamps e, length-keep-le (is_valid rl.window t) valid)

cleaned_blocked :
    (rl : RateLimiter) (now : ℕ) (w : RequestWindow)
    → (cleaned rl now w).blocked ≡ true
    → (w.blocked ≡ true) × ((cleaned rl now w).blocked_at ≡ w.blocked_at)
unfolding clean_window
cleaned_blocked rl now w c = ground arith

clean_window-Tracks :
    (rl : RateLimiter) (now : ℕ) (allowed : List ℕ) (w : RequestWindow)
    → Tracks rl now allowed w
    → Tracks rl now allowed (cleaned rl now w)
unfolding clean_window
clean_window-Tracks rl now allowed w k = record {
  past = k.past;
  covered = λ t e. omega (arith, k.covered t e, cleaned_timestamps rl now t w e);
  few = ground (arith, length-keep-le (is_valid rl.window now) w.timestamps, k.few);
  barred = λ c. let (b, e) = cleaned_blocked rl now w c in rw e (k.barred b);
}

pub bind_clean : RateLimiter → ℕ → Option RequestWindow → Option RequestWindow
bind_clean rl now none = none
bind_clean rl now (some w) = clean_window rl now w

pub lookup-clean_all :
    (rl : RateLimiter) (now : ℕ) (j : Text) (m : Map RequestWindow)
    → IsMap m
    → lookup j (clean_all rl now m) ≡ bind_clean rl now (lookup j m)
unfolding lookup clean_all bind_clean
lookup-clean_all rl now j [] u = refl
lookup-clean_all rl now j ((i, w) ∷ m) u =
    ground (arith, lookup-clean_all rl now j m u.1, text_eq_iff i j)

pub clean_all-IsMap :
    (rl : RateLimiter) (now : ℕ) (m : Map RequestWindow) → IsMap m → IsMap (clean_all rl now m)
unfolding clean_all bind_clean
clean_all-IsMap rl now [] u = tt
clean_all-IsMap rl now ((i, w) ∷ m) u =
    ground (arith, lookup-clean_all rl now i m u.1, clean_all-IsMap rl now m u.1)

pub window_of-clean_all :
    (rl : RateLimiter) (now : ℕ) (j : Text) (m : Map RequestWindow)
    → IsMap m
    → window_of j (clean_all rl now m) ≡ cleaned rl now (window_of j m)
unfolding window_of bind_clean clean_window
window_of-clean_all rl now j m u = ground (arith, lookup-clean_all rl now j m u)

-- What happens to a limiter: a request for a key at a time, or a cleanup.
pub data Event : Type 0 where
  requests : Text → ℕ → Event
  cleans : ℕ → Event

abbrev pub time : Event → ℕ
time (requests key now) = now
time (cleans now) = now

-- The limiter, with the times of the requests for one key that were allowed, oldest first.
pub record Watched : Type 0 where
  pub limiter : RateLimiter
  pub allowed : List ℕ

unfoldable pub step : Text → Event → Watched → Watched
unfolding allow cleanup
step key (requests j now) s =
    let (rl, ok, _, _) = allow j now s.limiter in
    record { limiter = rl; allowed = grown now s.allowed (text_eq j key && ok) }
step key (cleans now) s = record s { limiter = cleanup now s.limiter }

unfoldable pub run : Text → List Event → Watched → Watched
unfolding step
run key [] s = s
run key (e ∷ es) s = run key es (step key e s)

-- Times do not run backwards, from `now` to `end`.
abbrev pub Ordered : ℕ → List Event → ℕ → Type 0
Ordered now [] end = now ≤ end
Ordered now (e ∷ es) end = (now ≤ time e) × Ordered (time e) es end

record Keeps (key : Text) (max window now : ℕ) (s : Watched) : Type 0 where
  unique : IsMap s.limiter.requests
  same_max : s.limiter.max_reqs ≡ max
  same_window : s.limiter.window ≡ window
  tracks : Tracks s.limiter now s.allowed (window_of key s.limiter.requests)

-- The stored windows play no part in tracking one of them.
requests-Tracks :
    (rl : RateLimiter) (m : Map RequestWindow) (now : ℕ) (allowed : List ℕ) (w : RequestWindow)
    → Tracks rl now allowed w
    → Tracks (record rl { requests = m }) now allowed w
requests-Tracks rl m now allowed w k = record {
  past = k.past;
  covered = k.covered;
  few = k.few;
  barred = k.barred;
}

pub window_of-insert :
    (j key : Text) (w : RequestWindow) (m : Map RequestWindow)
    → window_of key (insert j w m) ≡ (if text_eq j key then w else window_of key m)
unfolding window_of
window_of-insert j key w m = ground (arith, lookup-insert j key w m)

-- A request of the watched key.
same-Keeps :
    (key : Text) (max window now later : ℕ) (s : Watched)
    → window ≤ default_block_time
    → now ≤ later
    → Keeps key max window now s
    → Keeps key max window later (step key (requests key later) s)
unfolding step allow
same-Keeps key max window now later s b h k =
    let rl = s.limiter in
    let w = window_of key rl.requests in
    let r = allow_window rl later w in
    let m = insert key r.0 rl.requests in
    let self = text_eq_refl key in
    record {
      unique = insert-IsMap key r.0 rl.requests k.unique;
      same_max = k.same_max;
      same_window = k.same_window;
      tracks =
          rw (window_of-insert key key r.0 rl.requests, self)
            (requests-Tracks rl m later _ r.0
              (allow_window-Tracks rl now later s.allowed w (rw k.same_window b) h k.tracks));
    }

-- A request of another key.
other-Keeps :
    (key : Text) (max window now later : ℕ) (j : Text) (s : Watched)
    → text_eq j key ≡ false
    → now ≤ later
    → Keeps key max window now s
    → Keeps key max window later (step key (requests j later) s)
unfolding step allow
other-Keeps key max window now later j s d h k =
    let rl = s.limiter in
    let w = window_of j rl.requests in
    let r = allow_window rl later w in
    let m = insert j r.0 rl.requests in
    record {
      unique = insert-IsMap j r.0 rl.requests k.unique;
      same_max = k.same_max;
      same_window = k.same_window;
      tracks =
          rw (window_of-insert j key r.0 rl.requests, d)
            (requests-Tracks rl m later s.allowed _
              (later-Tracks rl now later s.allowed _ h k.tracks));
    }

step-Keeps :
    (key : Text) (max window now : ℕ) (e : Event) (s : Watched)
    → window ≤ default_block_time
    → now ≤ time e
    → Keeps key max window now s
    → Keeps key max window (time e) (step key e s)
step-Keeps key max window now (requests j later) s b h k = elim (Bool-cases (text_eq j key)) [
  | inl e ↦ rw ((text_eq_iff j key).0 e) (same-Keeps key max window now later s b h k)
  | inr d ↦ other-Keeps key max window now later j s d h k
]
step-Keeps key max window now (cleans later) s b h k =
    unfold step cleanup in
    let rl = s.limiter in
    record {
      unique = clean_all-IsMap rl later rl.requests k.unique;
      same_max = k.same_max;
      same_window = k.same_window;
      tracks = rw (window_of-clean_all rl later key rl.requests k.unique) (
          requests-Tracks rl (clean_all rl later rl.requests) later s.allowed _ (
            clean_window-Tracks rl later s.allowed _
              (later-Tracks rl now later s.allowed _ h k.tracks)));
    }

run-Keeps :
    (key : Text) (max window now end : ℕ) (es : List Event) (s : Watched)
    → window ≤ default_block_time
    → Ordered now es end
    → Keeps key max window now s
    → Keeps key max window end (run key es s)
unfolding run
run-Keeps key max window now end [] s b o k = record {
  unique = k.unique;
  same_max = k.same_max;
  same_window = k.same_window;
  tracks = later-Tracks s.limiter now end s.allowed _ o k.tracks;
}
run-Keeps key max window now end (e ∷ es) s b o k =
    run-Keeps key max window (time e) end es (step key e s) b o.1
      (step-Keeps key max window now e s b o.0 k)

new-Keeps :
    (key : Text) (max window block : ℕ)
    → let rl = new_rate_limiter max window block in
      Keeps key rl.max_reqs rl.window 0 (record { limiter = rl; allowed = [] })
unfolding new_rate_limiter window_of lookup
new-Keeps key max window block = record {
  unique = tt;
  same_max = refl;
  same_window = refl;
  tracks = record { past = tt; covered = λ t e. omega arith; few = omega arith; barred = λ c. cc };
}

-- A new limiter whose window is no longer than the default block time of five minutes: after any
-- requests, for any keys, and cleanups, with times that do not run backwards, no more requests of a
-- key were allowed within the last window than the limit. (The limit and the window are the
-- configured ones, or their defaults.)
pub run_within_quota :
    (key : Text) (es : List Event) (end max window block : ℕ)
    → let rl = new_rate_limiter max window block in
      rl.window ≤ default_block_time
      → Ordered 0 es end
      → length (
          keep
            (is_valid rl.window end)
            (run key es (record { limiter = rl; allowed = [] })).allowed)
        ≤ rl.max_reqs
run_within_quota key es end max window block b o =
    let rl = new_rate_limiter max window block in
    let s : Watched = record { limiter = rl; allowed = [] } in
    let k = run-Keeps key rl.max_reqs rl.window 0 end es s b o (new-Keeps key max window block) in
    omega (
      arith,
      rw k.same_window at (k.tracks.covered end (omega arith)),
      k.tracks.few,
      k.same_max,
      length-keep-le (is_valid rl.window end)
          (window_of key (run key es s).limiter.requests).timestamps,
    )
