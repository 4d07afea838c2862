-- ===== src/Command/Multi/Landing.antt =====
-- The results of the goroutines of SendCommandToMultiple, as they come in (pkg/command/manager.go).
use quic_flow.Prelude.{
  ℕ, zero, suc, ◌+◌, ◌≡◌, refl, ap, sym, ◌&&◌, not, Bool, true, false, Option, none, some, List, [],
  ◌∷◌, ◌++◌, arith,
}
use quic_flow.Prelude.Text.{Text}
use quic_flow.Command.Manager.{CommandStatus, cancelled}
use quic_flow.Command.Multi.{
  ClientCommandResult, Progress, flying, landed, Launch, Flight, blank, given_up, after_wait,
  after_sending, result_of, is_completed, succeeded, counts_success, one_if, behind, land_one,
  land_at,
}

-- Results of commands that completed; of clients given up before anything was sent to them, which
-- have no command; and all others.
abbrev pub has_completed : ClientCommandResult → Bool
has_completed r = is_completed r.status

unfoldable pub is_cancelled : CommandStatus → Bool
is_cancelled cancelled = true
is_cancelled _ = false

unfoldable pub is_unsent : Option Text → CommandStatus → Bool
unfolding is_cancelled
is_unsent none st = is_cancelled st
is_unsent (some id) st = false

abbrev pub gave_up : ClientCommandResult → Bool
gave_up r = is_unsent r.command_id r.status

abbrev pub has_failed : ClientCommandResult → Bool
has_failed r = not (has_completed r) && not (gave_up r)

abbrev pub tally : (ClientCommandResult → Bool) → List ClientCommandResult → ℕ
tally p [] = 0
tally p (r ∷ rs) = one_if (p r) + tally p rs

-- The results so far.
unfoldable pub landed_with : Progress → List ClientCommandResult → List ClientCommandResult
landed_with flying rs = rs
landed_with (landed r) rs = r ∷ rs

unfoldable pub landings : List Launch → List ClientCommandResult
unfolding landed_with
landings [] = []
landings (l ∷ ls) = landed_with l.progress (landings ls)

unfoldable pub clients_of : List Launch → List Text
clients_of [] = []
clients_of (l ∷ ls) = l.client ∷ clients_of ls

pub result-has_completed :
    (f : Flight) (c : Text) → has_completed (result_of f c) ≡ counts_success f.sent f
unfolding result_of given_up blank after_sending after_wait is_completed counts_success succeeded
result-has_completed f c = ground arith

pub result-gave_up : (f : Flight) (c : Text) → gave_up (result_of f c) ≡ f.done_first
unfolding result_of given_up blank after_sending after_wait is_unsent is_cancelled
result-gave_up f c = ground arith

result-client : (f : Flight) (c : Text) → (result_of f c).client_id ≡ c
unfolding result_of given_up blank after_sending after_wait
result-client f c = ground arith

behind-some :
    (l : Launch) (o : Option (List Launch)) (ls : List Launch)
    → behind l o ≡ some ls
    → (rest : List Launch) × (o ≡ some rest) × (l ∷ rest ≡ ls)
unfolding behind
behind-some l none ls e = absurd (cc e)
behind-some l (some rest) ls e = (rest, refl, cc e)

clients-land_one :
    (f : Flight) (c : Text) (st : Progress) (ls ls' : List Launch)
    → land_one f c st ls ≡ some ls'
    → clients_of ls' ≡ c ∷ clients_of ls
unfolding land_one clients_of
clients-land_one f c flying ls ls' e =
    let back : record { client = c; progress = landed (result_of f c) } ∷ ls ≡ ls' = cc e in
    rw (sym back) refl
clients-land_one f c (landed r) ls ls' e = absurd (cc e)

unfoldable pub IsOwn : Text → Progress → Type 0
IsOwn c flying = Unit
IsOwn c (landed r) = r.client_id ≡ c

-- Every result is that of its own client.
unfoldable pub AreOwn : List Launch → Type 0
unfolding IsOwn
AreOwn [] = Unit
AreOwn (l ∷ ls) = IsOwn l.client l.progress × AreOwn ls

AreOwn-land_one :
    (f : Flight) (c : Text) (st : Progress) (ls ls' : List Launch)
    → AreOwn ls
    → land_one f c st ls ≡ some ls'
    → AreOwn ls'
unfolding land_one AreOwn IsOwn
AreOwn-land_one f c flying ls ls' all e =
    let back : record { client = c; progress = landed (result_of f c) } ∷ ls ≡ ls' = cc e in
    rw (sym back) (result-client f c, all)
AreOwn-land_one f c (landed r) ls ls' all e = absurd (cc e)

module _ (p : ClientCommandResult → Bool) (b : Bool) (f : Flight)
    (same : (c : Text) → p (result_of f c) ≡ b) where
  tally-land_one :
      (c : Text) (st : Progress) (ls ls' : List Launch)
      → land_one f c st ls ≡ some ls'
      → tally p (landings ls') ≡ tally p (landed_with st (landings ls)) + one_if b
  unfolding land_one landings landed_with
  tally-land_one c flying ls ls' e =
      let back : record { client = c; progress = landed (result_of f c) } ∷ ls ≡ ls' = cc e in
      rw (sym back) (rw (same c) (omega arith))
  tally-land_one c (landed r) ls ls' e = absurd (cc e)

  tally-landed_with :
      (st : Progress) (rs rs' : List ClientCommandResult)
      → tally p rs' ≡ tally p rs + one_if b
      → tally p (landed_with st rs') ≡ tally p (landed_with st rs) + one_if b
  unfolding landed_with
  tally-landed_with flying rs rs' e = e
  tally-landed_with (landed r) rs rs' e = omega arith

  -- A goroutine that ends adds its own result.
  pub tally-land_at :
      (n : ℕ) (ls ls' : List Launch)
      → land_at n f ls ≡ some ls'
      → tally p (landings ls') ≡ tally p (landings ls) + one_if b
  unfolding land_at landings
  tally-land_at n [] ls' e = absurd (cc e)
  tally-land_at zero (l ∷ ls) ls' e = tally-land_one l.client l.progress ls ls' e
  tally-land_at (suc n) (l ∷ ls) ls' e =
      let (rest, there, back) = behind-some l (land_at n f ls) ls' e in
      rw (sym back)
        (tally-landed_with l.progress (landings ls) (landings rest) (tally-land_at n ls rest there))

pub clients-land_at :
    (f : Flight) (n : ℕ) (ls ls' : List Launch)
    → land_at n f ls ≡ some ls'
    → clients_of ls' ≡ clients_of ls
unfolding land_at clients_of
clients-land_at f n [] ls' e = absurd (cc e)
clients-land_at f zero (l ∷ ls) ls' e = clients-land_one f l.client l.progress ls ls' e
clients-land_at f (suc n) (l ∷ ls) ls' e =
    let (rest, there, back) = behind-some l (land_at n f ls) ls' e in
    rw (sym back) (ap (λ cs. l.client ∷ cs) (clients-land_at f n ls rest there))

pub AreOwn-land_at :
    (f : Flight) (n : ℕ) (ls ls' : List Launch) → AreOwn ls → land_at n f ls ≡ some ls' → AreOwn ls'
unfolding land_at AreOwn
AreOwn-land_at f n [] ls' own e = absurd (cc e)
AreOwn-land_at f zero (l ∷ ls) ls' (own, all) e = AreOwn-land_one f l.client l.progress ls ls' all e
AreOwn-land_at f (suc n) (l ∷ ls) ls' (own, all) e =
    let (rest, there, back) = behind-some l (land_at n f ls) ls' e in
    rw (sym back) (own, AreOwn-land_at f n ls rest all there)

pub landings-launch :
    (c : Text) (ls : List Launch)
    → landings (ls ++ (record { client = c; progress = flying } ∷ [])) ≡ landings ls
unfolding landings landed_with
landings-launch c [] = refl
landings-launch c (l ∷ ls) = ap (landed_with l.progress) (landings-launch c ls)

pub clients-launch :
    (c : Text) (ls : List Launch)
    → clients_of (ls ++ (record { client = c; progress = flying } ∷ [])) ≡ clients_of ls ++ (c ∷ [])
unfolding clients_of
clients-launch c [] = refl
clients-launch c (l ∷ ls) = ap (λ cs. l.client ∷ cs) (clients-launch c ls)

pub AreOwn-launch :
    (c : Text) (ls : List Launch)
    → AreOwn ls
    → AreOwn (ls ++ (record { client = c; progress = flying } ∷ []))
unfolding AreOwn IsOwn
AreOwn-launch c [] own = (tt, tt)
AreOwn-launch c (l ∷ ls) (own, all) = (own, AreOwn-launch c ls all)
