-- ===== src/Webhook/RateLimiter/Blocks.antt =====
-- The block of pkg/release/webhook/rate_limiter.go after a quota is used up.
use quic_flow.Prelude.{
  ℕ, ◌+◌, ◌≤◌, ◌<◌, ◌≡◌, refl, true, false, List, [], ◌∷◌, arith, Bool-cases, inl, inr, ◌∙◌,
}
use quic_flow.Prelude.Text.{Text, text_eq, text_eq_iff, text_eq_refl}
use quic_flow.Prelude.Map.{IsMap, insert-IsMap}
use quic_flow.Webhook.RateLimiter.{
  RateLimiter, RequestWindow, default_block_time, allow_window, window_of, clean_window,
}
use quic_flow.Webhook.RateLimiter.History.{
  Event, requests, cleans, time, Watched, step, run, Ordered, cleaned, clean_all-IsMap,
  window_of-clean_all, window_of-insert,
}

-- The key is blocked since `b`.
pub record IsBlocked (key : Text) (b : ℕ) (s : Watched) : Type 0 where
  pub unique : IsMap s.limiter.requests
  pub blocked : (window_of key s.limiter.requests).blocked ≡ true
  pub since : (window_of key s.limiter.requests).blocked_at ≡ b

cleaned-blocked :
    (rl : RateLimiter) (now b : ℕ) (w : RequestWindow)
    → w.blocked ≡ true
    → w.blocked_at ≡ b
    → now < b + default_block_time
    → ((cleaned rl now w).blocked ≡ true) × ((cleaned rl now w).blocked_at ≡ b)
unfolding clean_window
cleaned-blocked rl now b w h e l = ground arith

refused :
    (rl : RateLimiter) (now b : ℕ) (w : RequestWindow)
    → w.blocked ≡ true
    → w.blocked_at ≡ b
    → now < b + default_block_time
    → allow_window rl now w ≡ (w, false, 0, w.blocked_at + default_block_time)
unfolding allow_window
refused rl now b w h e l = ground arith

-- A request of the blocked key is refused, and changes nothing.
same-IsBlocked :
    (key : Text) (b now : ℕ) (s : Watched)
    → now < b + default_block_time
    → IsBlocked key b s
    → IsBlocked key b (step key (requests key now) s)
      × ((step key (requests key now) s).allowed ≡ s.allowed)
unfolding step
same-IsBlocked key b now s h k =
    let rl = s.limiter in
    let w = window_of key rl.requests in
    let r = refused rl now b w k.blocked k.since h in
    let e = window_of-insert key key w rl.requests in
    rw (r, text_eq_refl key)
      (
        record {
          unique = insert-IsMap key w rl.requests k.unique;
          blocked = rw (e, text_eq_refl key) k.blocked;
          since = rw (e, text_eq_refl key) k.since;
        },
        refl,
      )

other-IsBlocked :
    (key j : Text) (b now : ℕ) (s : Watched)
    → text_eq j key ≡ false
    → IsBlocked key b s
    → IsBlocked key b (step key (requests j now) s)
      × ((step key (requests j now) s).allowed ≡ s.allowed)
unfolding step
other-IsBlocked key j b now s d k =
    let rl = s.limiter in
    let w = (allow_window rl now (window_of j rl.requests)).0 in
    let e = window_of-insert j key w rl.requests in
    (
      record {
        unique = insert-IsMap j w rl.requests k.unique;
        blocked = rw (e, d) k.blocked;
        since = rw (e, d) k.since;
      },
      rw d,
    )

step-IsBlocked :
    (key : Text) (b : ℕ) (e : Event) (s : Watched)
    → time e < b + default_block_time
    → IsBlocked key b s
    → IsBlocked key b (step key e s) × ((step key e s).allowed ≡ s.allowed)
step-IsBlocked key b (cleans now) s h k =
    unfold step in
    let rl = s.limiter in
    let c = cleaned-blocked rl now b (window_of key rl.requests) k.blocked k.since h in
    let e = window_of-clean_all rl now key rl.requests k.unique in
    (
      record {
        unique = clean_all-IsMap rl now rl.requests k.unique;
        blocked = rw e c.0;
        since = rw e c.1;
      },
      refl,
    )
step-IsBlocked key b (requests j now) s h k = elim (Bool-cases (text_eq j key)) [
  | inl e ↦ rw ((text_eq_iff j key).0 e) (same-IsBlocked key b now s h k)
  | inr d ↦ other-IsBlocked key j b now s d k
]

Ordered-le : (now : ℕ) (es : List Event) (end : ℕ) → Ordered now es end → now ≤ end
Ordered-le now [] end o = o
Ordered-le now (e ∷ es) end o = omega (arith, Ordered-le (time e) es end o.1)

-- A key that is blocked since `b` stays blocked, and gets no request allowed, until the default
-- block time of five minutes has passed: whatever requests, for any keys, and cleanups come in
-- between, with times that do not run backwards. The block time of the configuration plays no part.
pub run_refused :
    (key : Text) (b now end : ℕ) (es : List Event) (s : Watched)
    → IsBlocked key b s
    → Ordered now es end
    → end < b + default_block_time
    → IsBlocked key b (run key es s) × ((run key es s).allowed ≡ s.allowed)
unfolding run
run_refused key b now end [] s k o h = (k, refl)
run_refused key b now end (e ∷ es) s k o h =
    let (k', same) = step-IsBlocked key b e s (omega (arith, Ordered-le (time e) es end o.1)) k in
    let (k'', same') = run_refused key b (time e) end es (step key e s) k' o.1 h in
    (k'', same' ∙ same)
