-- ===== src/Webhook/RateLimiter.antt =====
-- pkg/release/webhook/rate_limiter.go. Times and durations are in nanoseconds; every time is at
-- least one window after the epoch, so `now.Add(-window)` is compared by adding the window to the
-- other side. `maxReqs` is a positive int below 2 ^ 63.
pub mod Bound
pub mod History
pub mod Blocks
use quic_flow.Prelude.{
  ℕ, ◌+◌, ◌-◌, ◌*◌, ltb, leb, ◌==◌, if◌then◌else◌, Bool, true, false, not, ◌&&◌, Option, none, some,
  List, [], ◌∷◌, ◌++◌, length, keep,
}
use quic_flow.Prelude.Text.{Text}
use quic_flow.Prelude.Map.{Map, lookup, insert, delete}

pub record RequestWindow : Type 0 where
  pub timestamps : List ℕ
  pub blocked : Bool
  pub blocked_at : ℕ

pub record RateLimiter : Type 0 where
  pub requests : Map RequestWindow
  pub max_reqs : ℕ
  pub window : ℕ
  pub clean_tick : ℕ

abbrev pub minute : ℕ
minute = 60000000000

-- DefaultRateLimitConfig.
abbrev pub default_max_requests : ℕ
default_max_requests = 60

abbrev pub default_window : ℕ
default_window = minute

abbrev pub default_block_time : ℕ
default_block_time = 5 * minute

-- A setting that is not positive, here 0, takes its default. The block time is not kept.
unfoldable pub new_rate_limiter : ℕ → ℕ → ℕ → RateLimiter
new_rate_limiter max_requests window block_time =
    let max = if max_requests == 0 then default_max_requests else max_requests in
    let span = if window == 0 then default_window else window in
    record { requests = []; max_reqs = max; window = span; clean_tick = span * 2 }

abbrev pub empty_window : RequestWindow
empty_window = record { timestamps = []; blocked = false; blocked_at = 0 }

-- `ts.After(windowStart)`
abbrev pub is_valid : ℕ → ℕ → ℕ → Bool
is_valid window now ts = ltb now (ts + window)

-- The block that is over: both fields that the code resets.
unblock : RequestWindow → RequestWindow
unblock w = record w { blocked = false; timestamps = [] }

-- The part of `Allow` behind the test of the block.
count_request : RateLimiter → ℕ → RequestWindow → RequestWindow × Bool × ℕ × ℕ
count_request rl now w =
    let valid = keep (is_valid rl.window now) w.timestamps in
    if leb rl.max_reqs (length valid)
    then (
      record { timestamps = valid; blocked = true; blocked_at = now },
      false,
      0,
      now + default_block_time,
    )
    else (
      record w { timestamps = valid ++ (now ∷ []) },
      true,
      rl.max_reqs - length valid - 1,
      now + rl.window,
    )

-- What `Allow` does with the window of its key: the new window, the answer, what remains of the
-- quota, and the time of the reset.
unfoldable pub allow_window : RateLimiter → ℕ → RequestWindow → RequestWindow × Bool × ℕ × ℕ
unfolding unblock count_request
allow_window rl now w =
    if w.blocked
    then (if ltb (now - w.blocked_at) default_block_time
        then (w, false, 0, w.blocked_at + default_block_time)
        else count_request rl now (unblock w))
    else count_request rl now w

-- The window of a key; `Allow` creates a missing one.
unfoldable pub window_of : Text → Map RequestWindow → RequestWindow
window_of key m = elim (lookup key m) [ none ↦ empty_window | some w ↦ w ]

unfoldable pub allow : Text → ℕ → RateLimiter → RateLimiter × Bool × ℕ × ℕ
unfolding window_of allow_window
allow key now rl =
    let (w, allowed, remaining, reset_at) = allow_window rl now (window_of key rl.requests) in
    (record rl { requests = insert key w rl.requests }, allowed, remaining, reset_at)

unfoldable pub get_stats : Text → ℕ → RateLimiter → ℕ × Bool
get_stats key now rl = elim (lookup key rl.requests) [
  | none ↦ (0, false)
  | some w ↦ (length (keep (is_valid rl.window now) w.timestamps), w.blocked)
]

unfoldable pub reset : Text → RateLimiter → RateLimiter
reset key rl = record rl { requests = delete key rl.requests }

-- One round of the loop of `cleanup`; `none` deletes the entry.
unfoldable pub clean_window : RateLimiter → ℕ → RequestWindow → Option RequestWindow
clean_window rl now w =
    let valid = keep (is_valid rl.window now) w.timestamps in
    let over = w.blocked && not (ltb (now - w.blocked_at) default_block_time) in
    let blocked = if over then false else w.blocked in
    if not blocked && length valid == 0
    then none
    else some (record w { timestamps = valid; blocked = blocked })

add_cleaned : Text → Option RequestWindow → Map RequestWindow → Map RequestWindow
add_cleaned key none m = m
add_cleaned key (some w) m = (key, w) ∷ m

pub clean_all : RateLimiter → ℕ → Map RequestWindow → Map RequestWindow
unfolding add_cleaned
clean_all rl now [] = []
clean_all rl now ((key, w) ∷ m) = add_cleaned key (clean_window rl now w) (clean_all rl now m)

unfoldable pub cleanup : ℕ → RateLimiter → RateLimiter
unfolding clean_all
cleanup now rl = record rl { requests = clean_all rl now rl.requests }
