-- ===== src/Webhook/Examples.antt =====
-- Tests and examples for pkg/release/webhook.
use quic_flow.Prelude.{◌*◌, ◌≤◌, ◌≡◌, refl, true, List, [], ◌∷◌, length, keep, arith}
use quic_flow.Prelude.Text.{Text, text_eq}
use quic_flow.Prelude.Map.{lookup, insert}
use quic_flow.Webhook.RateLimiter.{is_valid, minute, new_rate_limiter, window_of}
use quic_flow.Webhook.RateLimiter.History.{Event, requests, cleans, Watched, run, run_within_quota}
use quic_flow.Webhook.RateLimiter.Blocks.{IsBlocked, run_refused}

abbrev k_id : Text
k_id = b'k' ∷ []

-- Two requests a minute: the third is refused.
abbrev burst : List Event
burst = requests k_id 1 ∷ requests k_id 2 ∷ requests k_id 3 ∷ cleans 4 ∷ []

burst_allowed :
    (run k_id burst (record { limiter = new_rate_limiter 2 0 0; allowed = [] })).allowed
    ≡ 1 ∷ 2 ∷ []
unfolding run new_rate_limiter lookup insert text_eq
burst_allowed = refl

run_within_quota_example :
    length (
      keep
        (is_valid (new_rate_limiter 2 0 0).window 9)
        (run k_id burst (record { limiter = new_rate_limiter 2 0 0; allowed = [] })).allowed)
    ≤ (new_rate_limiter 2 0 0).max_reqs
unfolding new_rate_limiter
run_within_quota_example = run_within_quota k_id burst 9 2 0 0 (omega arith) (omega arith)

abbrev barred : Watched
barred = record {
  limiter = record {
    requests = (k_id, record { timestamps = 1 ∷ 2 ∷ []; blocked = true; blocked_at = 3 }) ∷ [];
    max_reqs = 2;
    window = minute;
    clean_tick = 2 * minute;
  };
  allowed = 1 ∷ 2 ∷ [];
}

abbrev retries : List Event
retries = requests k_id (2 * minute) ∷ cleans (3 * minute) ∷ requests k_id (4 * minute) ∷ []

run_refused_example :
    IsBlocked k_id 3 (run k_id retries barred) × ((run k_id retries barred).allowed ≡ 1 ∷ 2 ∷ [])
unfolding window_of lookup text_eq
run_refused_example =
    run_refused k_id 3 3 (5 * minute) retries barred
      (record { unique = (refl, tt); blocked = refl; since = refl }) (omega arith) (omega arith)
