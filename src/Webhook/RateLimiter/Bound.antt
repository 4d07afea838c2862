-- ===== src/Webhook/RateLimiter/Bound.antt =====
-- The quota of pkg/release/webhook/rate_limiter.go over any history of one key.
use quic_flow.Prelude.{
  ℕ, ◌+◌, ◌-◌, ◌≤◌, ◌≡◌, refl, ltb, leb, if◌then◌else◌, Bool, true, false, List, [], ◌∷◌, ◌++◌,
  length, keep, All, length-keep-le, length-append, arith, Bool-cases, inl, inr,
}
use quic_flow.Webhook.RateLimiter.{
  RateLimiter, RequestWindow, default_block_time, is_valid, unblock, count_request, allow_window,
}

-- Tests for a later time pass no more.
pub keep-keep :
    (window now t : ℕ) (xs : List ℕ)
    → now ≤ t
    → keep (is_valid window t) (keep (is_valid window now) xs) ≡ keep (is_valid window t) xs
keep-keep window now t [] h = refl
keep-keep window now t (x ∷ xs) h = ground (arith, keep-keep window now t xs h)

keep-append :
    (window t x : ℕ) (xs : List ℕ)
    → length (keep (is_valid window t) (xs ++ (x ∷ [])))
      ≡ length (keep (is_valid window t) xs) + (if is_valid window t x then 1 else 0)
keep-append window t x [] = ground arith
keep-append window t x (y ∷ xs) = ground (arith, keep-append window t x xs)

-- What lies a window or more before `t` is not counted at `t`.
keep-old :
    (window b t : ℕ) (xs : List ℕ)
    → All (λ a. a ≤ b) xs
    → b + window ≤ t
    → keep (is_valid window t) xs ≡ []
keep-old window b t [] h e = refl
keep-old window b t (x ∷ xs) h e = ground (arith, keep-old window b t xs h.1 e)

All-mono : (b c : ℕ) (xs : List ℕ) → b ≤ c → All (λ a. a ≤ b) xs → All (λ a. a ≤ c) xs
All-mono b c [] e h = tt
All-mono b c (x ∷ xs) e h = (omega arith, All-mono b c xs e h.1)

All-append :
    (b x : ℕ) (xs : List ℕ) → All (λ a. a ≤ b) xs → x ≤ b → All (λ a. a ≤ b) (xs ++ (x ∷ []))
All-append b x [] h e = (e, tt)
All-append b x (y ∷ xs) h e = (h.0, All-append b x xs h.1 e)

-- The window of a key at time `now`, beside all the requests of the key that were allowed.
pub record Tracks (rl : RateLimiter) (now : ℕ) (allowed : List ℕ) (w : RequestWindow) : Type 0 where
  pub past : All (λ a. a ≤ now) allowed
  pub covered :
      (t : ℕ)
      → now ≤ t
      → length (keep (is_valid rl.window t) allowed)
        ≤ length (keep (is_valid rl.window t) w.timestamps)
  pub few : length w.timestamps ≤ rl.max_reqs
  pub barred : w.blocked ≡ true → All (λ a. a ≤ w.blocked_at) allowed

-- The list of allowed requests after an answer.
abbrev pub grown : ℕ → List ℕ → Bool → List ℕ
grown now allowed true = allowed ++ (now ∷ [])
grown now allowed false = allowed

pub later-Tracks :
    (rl : RateLimiter) (now later : ℕ) (allowed : List ℕ) (w : RequestWindow)
    → now ≤ later
    → Tracks rl now allowed w
    → Tracks rl later allowed w
later-Tracks rl now later allowed w h k = record {
  past = All-mono now later allowed h k.past;
  covered = λ t e. k.covered t (omega arith);
  few = k.few;
  barred = k.barred;
}

count_request-Tracks :
    (rl : RateLimiter) (now : ℕ) (allowed : List ℕ) (w : RequestWindow)
    → w.blocked ≡ false
    → Tracks rl now allowed w
    → let (w', ok, _, _) = count_request rl now w in Tracks rl now (grown now allowed ok) w'
unfolding count_request
count_request-Tracks rl now allowed w b k =
    let valid = keep (is_valid rl.window now) w.timestamps in
    elim (Bool-cases (leb rl.max_reqs (length valid))) [
      | inl full ↦ rw full (record {
        past = k.past;
        covered = λ t e. ground (arith, k.covered t e, keep-keep rl.window now t w.timestamps e);
        few = omega (arith, length-keep-le (is_valid rl.window now) w.timestamps, k.few);
        barred = λ _. k.past;
      })
      | inr room ↦ rw room (record {
        past = All-append now now allowed k.past (omega arith);
        covered = λ t e. ground (
          arith,
          k.covered t e,
          keep-keep rl.window now t w.timestamps e,
          keep-append rl.window t now allowed,
          keep-append rl.window t now valid,
        );
        few = ground (arith, length-append valid (now ∷ []));
        barred = λ c. cc;
      })
    ]

-- A block that has lasted long enough leaves nothing to count.
unblock-Tracks :
    (rl : RateLimiter) (now : ℕ) (allowed : List ℕ) (w : RequestWindow)
    → w.blocked ≡ true
    → w.blocked_at + rl.window ≤ now
    → Tracks rl now allowed w
    → Tracks rl now allowed (unblock w)
unfolding unblock
unblock-Tracks rl now allowed w b o k = record {
  past = k.past;
  covered = λ t e. ground (arith, keep-old rl.window w.blocked_at t allowed (k.barred b));
  few = omega arith;
  barred = λ c. cc;
}

allow_window-still :
    (rl : RateLimiter) (now : ℕ) (w : RequestWindow)
    → w.blocked ≡ true
    → ltb (now - w.blocked_at) default_block_time ≡ true
    → allow_window rl now w ≡ (w, false, 0, w.blocked_at + default_block_time)
unfolding allow_window
allow_window-still rl now w b s = ground arith

allow_window-over :
    (rl : RateLimiter) (now : ℕ) (w : RequestWindow)
    → w.blocked ≡ true
    → ltb (now - w.blocked_at) default_block_time ≡ false
    → allow_window rl now w ≡ count_request rl now (unblock w)
unfolding allow_window
allow_window-over rl now w b s = simp (b, s)

allow_window-free :
    (rl : RateLimiter) (now : ℕ) (w : RequestWindow)
    → w.blocked ≡ false
    → allow_window rl now w ≡ count_request rl now w
unfolding allow_window
allow_window-free rl now w b = simp b

-- `Allow` keeps track if the window is no longer than a block.
pub allow_window-Tracks :
    (rl : RateLimiter) (before now : ℕ) (allowed : List ℕ) (w : RequestWindow)
    → rl.window ≤ default_block_time
    → before ≤ now
    → Tracks rl before allowed w
    → let (w', ok, _, _) = allow_window rl now w in Tracks rl now (grown now allowed ok) w'
allow_window-Tracks rl before now allowed w s h k =
    let k' = later-Tracks rl before now allowed w h k in
    elim (Bool-cases w.blocked) [
      | inr free ↦
          rw (allow_window-free rl now w free) (count_request-Tracks rl now allowed w free k')
      | inl held ↦ elim (Bool-cases (ltb (now - w.blocked_at) default_block_time)) [
        | inl still ↦ rw (allow_window-still rl now w held still) k'
        | inr over ↦ rw (allow_window-over rl now w held over) (
            count_request-Tracks rl now allowed (unblock w) (unfold unblock in refl)
              (unblock-Tracks rl now allowed w held (ground arith) k'))
      ]
    ]
