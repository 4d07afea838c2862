-- ===== src/Release/Engine/Targets.antt =====
-- What running targets does to the results of a release (pkg/release/engine/engine.go).
use quic_flow.Prelude.{
  ◌≡◌, refl, ap, sym, ◌∙◌, if◌then◌else◌, Bool, true, false, ◌||◌, ◌&&◌, Option, none, some, List,
  [], ◌∷◌, ◌++◌, All, arith,
}
use quic_flow.Prelude.Text.{Text, text_eq, text_eq_iff}
use quic_flow.Prelude.Map.{listed, Distinct, listed-append}
use quic_flow.Release.Engine.{
  TargetResult, write_result, begun, ended, has_failed_targets, execute_target, execute_each,
}

abbrev pub ids : List TargetResult → List Text
ids [] = []
ids (r ∷ rs) = r.target_id ∷ ids rs

-- Every target has a result.
abbrev pub HaveResults : List Text → List TargetResult → Type 0
HaveResults ts rs = All (λ t. listed t (ids rs) ≡ true) ts

-- What running the targets of a list makes of one result.
abbrev pub settled : (Text → Option Text) → List Text → TargetResult → TargetResult
settled deploy ts r = if listed r.target_id ts then ended (deploy r.target_id) r else r

abbrev pub settle_all : (Text → Option Text) → List Text → List TargetResult → List TargetResult
settle_all deploy ts [] = []
settle_all deploy ts (r ∷ rs) = settled deploy ts r ∷ settle_all deploy ts rs

-- A write that keeps the id, where the entries have distinct ids.
write_each : Text → (TargetResult → TargetResult) → List TargetResult → List TargetResult
write_each id f [] = []
write_each id f (r ∷ rs) = (if text_eq r.target_id id then f r else r) ∷ write_each id f rs

write_each_absent :
    (id : Text) (f : TargetResult → TargetResult) (rs : List TargetResult)
    → listed id (ids rs) ≡ false
    → write_each id f rs ≡ rs
unfolding write_each listed
write_each_absent id f [] h = refl
write_each_absent id f (r ∷ rs) h = ground (arith, write_each_absent id f rs)

write_result-each :
    (id : Text) (f : TargetResult → TargetResult) (rs : List TargetResult)
    → Distinct (ids rs)
    → write_result id f rs ≡ write_each id f rs
unfolding write_result write_each
write_result-each id f [] u = refl
write_result-each id f (r ∷ rs) (fresh, u) =
    ground
      (arith, write_result-each id f rs u, text_eq_iff r.target_id id, write_each_absent id f rs)

ids-write_each :
    (id : Text) (f : TargetResult → TargetResult) (rs : List TargetResult)
    → ((r : TargetResult) → (f r).target_id ≡ r.target_id)
    → ids (write_each id f rs) ≡ ids rs
unfolding write_each
ids-write_each id f [] same = refl
ids-write_each id f (r ∷ rs) same = ground (arith, ids-write_each id f rs same, same r)

ended-id : (o : Option Text) (r : TargetResult) → (ended o r).target_id ≡ r.target_id
unfolding ended
ended-id none r = refl
ended-id (some e) r = refl

-- Beginning first leaves nothing behind.
ended-begun : (o : Option Text) (r : TargetResult) → ended o (begun r) ≡ ended o r
unfolding ended begun
ended-begun none r = refl
ended-begun (some e) r = refl

ended_twice : (o : Option Text) (r : TargetResult) → ended o (ended o r) ≡ ended o r
unfolding ended
ended_twice none r = refl
ended_twice (some e) r = refl

write_each_twice :
    (id : Text) (o : Option Text) (rs : List TargetResult)
    → write_each id (ended o) (write_each id begun rs) ≡ write_each id (ended o) rs
unfolding write_each begun
write_each_twice id o [] = refl
write_each_twice id o (r ∷ rs) = ground (arith, write_each_twice id o rs, ended-begun o r)

begun-id : (r : TargetResult) → (begun r).target_id ≡ r.target_id
unfolding begun
begun-id r = refl

module _ (deploy : Text → Option Text) where
  execute_target-each :
      (id : Text) (rs : List TargetResult)
      → Distinct (ids rs)
      → execute_target deploy id rs ≡ write_each id (ended (deploy id)) rs
  unfolding execute_target
  execute_target-each id rs u =
      let first = write_result-each id begun rs u in
      let same = ids-write_each id begun rs begun-id in
      let u' : Distinct (ids (write_each id begun rs)) = rw same u in
      rw first (
        write_result-each id (ended (deploy id)) (write_each id begun rs) u'
        ∙ write_each_twice id (deploy id) rs)

  pub ids-execute_target :
      (id : Text) (rs : List TargetResult)
      → Distinct (ids rs)
      → ids (execute_target deploy id rs) ≡ ids rs
  ids-execute_target id rs u =
      ap ids (execute_target-each id rs u)
      ∙ ids-write_each id (ended (deploy id)) rs (ended-id (deploy id))

  settle_all-write :
      (id : Text) (ts : List Text) (rs : List TargetResult)
      → settle_all deploy ts (write_each id (ended (deploy id)) rs) ≡ settle_all deploy (id ∷ ts) rs
  unfolding write_each listed
  settle_all-write id ts [] = refl
  settle_all-write id ts (r ∷ rs) = ground (
    arith,
    settle_all-write id ts rs,
    text_eq_iff r.target_id id,
    text_eq_iff id r.target_id,
    ended-id (deploy id) r,
    ended_twice (deploy id) r,
  )

  settle_all-none : (rs : List TargetResult) → settle_all deploy [] rs ≡ rs
  unfolding listed
  settle_all-none [] = refl
  settle_all-none (r ∷ rs) = ap (λ l. r ∷ l) (settle_all-none rs)

  -- Running targets changes their results, each by how its own deployment goes, and no other.
  pub execute_each-settle :
      (ts : List Text) (rs : List TargetResult)
      → Distinct (ids rs)
      → execute_each deploy ts rs ≡ settle_all deploy ts rs
  unfolding execute_each
  execute_each-settle [] rs u = sym (settle_all-none rs)
  execute_each-settle (id ∷ ts) rs u =
      let same = ids-execute_target id rs u in
      execute_each-settle ts (execute_target deploy id rs) (rw same u)
      ∙ ap (settle_all deploy ts) (execute_target-each id rs u)
      ∙ settle_all-write id ts rs

  pub ids-settle_all :
      (ts : List Text) (rs : List TargetResult) → ids (settle_all deploy ts rs) ≡ ids rs
  ids-settle_all ts [] = refl
  ids-settle_all ts (r ∷ rs) = ground (arith, ids-settle_all ts rs, ended-id (deploy r.target_id) r)

  settle_all_comm :
      (a b : Text) (rs : List TargetResult)
      → settle_all deploy (a ∷ b ∷ []) rs ≡ settle_all deploy (b ∷ a ∷ []) rs
  unfolding listed
  settle_all_comm a b [] = refl
  settle_all_comm a b (r ∷ rs) = ground (arith, settle_all_comm a b rs)

  -- Targets of one batch may be run in either order.
  pub execute_target_comm :
      (a b : Text) (rs : List TargetResult)
      → Distinct (ids rs)
      → execute_each deploy (a ∷ b ∷ []) rs ≡ execute_each deploy (b ∷ a ∷ []) rs
  execute_target_comm a b rs u =
      execute_each-settle (a ∷ b ∷ []) rs u
      ∙ settle_all_comm a b rs
      ∙ sym (execute_each-settle (b ∷ a ∷ []) rs u)

  settle_all-append :
      (ts us : List Text) (rs : List TargetResult)
      → settle_all deploy us (settle_all deploy ts rs) ≡ settle_all deploy (ts ++ us) rs
  settle_all-append ts us [] = refl
  settle_all-append ts us (r ∷ rs) = ground (
    arith,
    settle_all-append ts us rs,
    listed-append r.target_id ts us,
    ended-id (deploy r.target_id) r,
    ended_twice (deploy r.target_id) r,
  )

  -- Whether the deployment to one of the targets fails.
  abbrev pub fails : Text → Bool
  fails t = elim (deploy t) [ none ↦ false | some _ ↦ true ]

  unfoldable pub some_fails : List Text → Bool
  some_fails [] = false
  some_fails (t ∷ ts) = fails t || some_fails ts

  -- Whether a target with a result is in the list and fails.
  broken_by : List Text → List TargetResult → Bool
  broken_by ts [] = false
  broken_by ts (r ∷ rs) = (listed r.target_id ts && fails r.target_id) || broken_by ts rs

  broken_by-none : (rs : List TargetResult) → broken_by [] rs ≡ false
  unfolding broken_by listed
  broken_by-none [] = refl
  broken_by-none (r ∷ rs) = broken_by-none rs

  broken_by-cons :
      (t : Text) (ts : List Text) (rs : List TargetResult)
      → broken_by (t ∷ ts) rs ≡ ((listed t (ids rs) && fails t) || broken_by ts rs)
  unfolding broken_by listed
  broken_by-cons t ts [] = ground arith
  broken_by-cons t ts (r ∷ rs) =
      ground (arith, broken_by-cons t ts rs, text_eq_iff t r.target_id, text_eq_iff r.target_id t)

  broken_by-some_fails :
      (ts : List Text) (rs : List TargetResult)
      → HaveResults ts rs
      → broken_by ts rs ≡ some_fails ts
  unfolding some_fails
  broken_by-some_fails [] rs h = broken_by-none rs
  broken_by-some_fails (t ∷ ts) rs (h, hs) =
      ground (arith, broken_by-cons t ts rs, broken_by-some_fails ts rs hs)

  failed-settled :
      (ts : List Text) (rs : List TargetResult)
      → has_failed_targets rs ≡ false
      → has_failed_targets (settle_all deploy ts rs) ≡ broken_by ts rs
  unfolding has_failed_targets broken_by ended
  failed-settled ts [] h = refl
  failed-settled ts (r ∷ rs) h = ground (arith, failed-settled ts rs)

  -- Targets that have results fail exactly when one of their deployments does.
  pub failed-execute_each :
      (ts : List Text) (rs : List TargetResult)
      → Distinct (ids rs)
      → HaveResults ts rs
      → has_failed_targets rs ≡ false
      → has_failed_targets (execute_each deploy ts rs) ≡ some_fails ts
  failed-execute_each ts rs u h none_failed =
      ap has_failed_targets (execute_each-settle ts rs u)
      ∙ failed-settled ts rs none_failed
      ∙ broken_by-some_fails ts rs h
