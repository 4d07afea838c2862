-- ===== src/Release/Engine/Rolling.antt =====
-- Rolling releases (executeRolling of pkg/release/engine/engine.go): which targets are reached.
use native.Mathlib.Nat.{div-eq_of_lt, add-div_left}
use quic_flow.Prelude.{
  ℕ, zero, suc, ◌+◌, ◌*◌, ◌/◌, ◌≤◌, ◌<◌, ◌≡◌, refl, ap, sym, ◌∙◌, inl, inr, if◌then◌else◌, Bool,
  Bool-cases, true, false, Option, none, some, List, [], ◌∷◌, ◌++◌, length, take, drop, length-drop,
  arith,
}
use quic_flow.Prelude.Bytes.{take-drop}
use quic_flow.Prelude.Text.{Text}
use quic_flow.Prelude.Map.{Distinct}
use quic_flow.Release.Engine.{
  ReleaseStatus, success, failed, TargetResult, Release, has_failed_targets, fail_release,
  complete_release, execute_each, deploy_to, roll, batch_size_of, execute_rolling,
}
use quic_flow.Release.Engine.Targets.{
  ids, settle_all, ids-settle_all, execute_each-settle, fails, some_fails, HaveResults,
  failed-execute_each,
}

-- How many targets are run: up to the end of the batch in which the first one fails.
abbrev pub reached : ℕ → Option ℕ → ℕ → ℕ
reached b none n = n
reached b (some i) n = (i / b + 1) * b

later : ℕ → Option ℕ → Option ℕ
later b none = none
later b (some i) = some (b + i)

later_none : (o : Option ℕ) → later 0 o ≡ o
unfolding later
later_none none = refl
later_none (some i) = ap some (omega arith)

module _ (deploy : Text → Option Text) where
  execute_each-append :
      (xs ys : List Text) (rs : List TargetResult)
      → execute_each deploy (xs ++ ys) rs ≡ execute_each deploy ys (execute_each deploy xs rs)
  unfolding execute_each
  execute_each-append [] ys rs = refl
  execute_each-append (x ∷ xs) ys rs = execute_each-append xs ys _

  execute_each-take-drop :
      (n : ℕ) (ts : List Text) (rs : List TargetResult)
      → execute_each deploy (drop n ts) (execute_each deploy (take n ts) rs)
        ≡ execute_each deploy ts rs
  execute_each-take-drop n ts rs =
      sym (execute_each-append (take n ts) (drop n ts) rs)
      ∙ ap (λ l. execute_each deploy l rs) (take-drop n ts)

  -- Without an automatic rollback all the targets are run, whatever fails.
  roll_manual :
      (fuel b : ℕ) (ts : List Text) (rel : Release)
      → 0 < b
      → length ts ≤ fuel
      → rel.auto_rollback ≡ false
      → roll deploy fuel b ts rel
        ≡ some (complete_release (record rel { results = execute_each deploy ts rel.results }))
  unfolding roll deploy_to complete_release
  roll_manual fuel b [] rel pos enough manual = refl
  roll_manual zero b (t ∷ ts) rel pos enough manual = absurd (omega arith)
  roll_manual (suc fuel) b (t ∷ ts) rel pos enough manual =
      let rs = execute_each deploy (take b (t ∷ ts)) rel.results in
      let rest =
        roll_manual fuel b (drop b (t ∷ ts)) (record rel { results = rs }) pos
          (omega (arith, length-drop b (t ∷ ts))) manual in
      let same = execute_each-take-drop b (t ∷ ts) rel.results in ground arith

  -- The place of the first target whose deployment fails.
  pub first_failed : List Text → Option ℕ
  first_failed [] = none
  first_failed (t ∷ ts) =
      if fails deploy t
      then some 0
      else elim (first_failed ts) [ none ↦ none | some i ↦ some (suc i) ]

  first_failed-take :
      (b : ℕ) (ts : List Text)
      → some_fails deploy (take b ts) ≡ true
      → (i : ℕ) × (first_failed ts ≡ some i) × (i < b)
  unfolding first_failed some_fails
  first_failed-take zero ts h = absurd (ground arith)
  first_failed-take (suc b) [] h = absurd (ground arith)
  first_failed-take (suc b) (t ∷ ts) h = elim (Bool-cases (fails deploy t)) [
    | inl bad ↦ (0, rw bad, omega arith)
    | inr fine ↦
        let (i, e, lt) = first_failed-take b ts (ground arith) in (suc i, rw (fine, e), omega arith)
  ]

  first_failed-drop :
      (b : ℕ) (ts : List Text)
      → some_fails deploy (take b ts) ≡ false
      → first_failed ts ≡ later b (first_failed (drop b ts))
  unfolding first_failed some_fails later
  first_failed-drop zero ts h = ground (arith, later_none (first_failed ts))
  first_failed-drop (suc b) [] h = refl
  first_failed-drop (suc b) (t ∷ ts) h = ground (arith, first_failed-drop b ts)

take_nil : (n : ℕ) → take {A = Text} n [] ≡ []
take_nil zero = refl
take_nil (suc n) = refl

take_add : (b k : ℕ) (ts : List Text) → take (k + b) ts ≡ take b ts ++ take k (drop b ts)
take_add zero k ts = let e : k + 0 ≡ k = omega arith in rw e
take_add (suc b) k [] = take_nil (k + suc b) ∙ sym (take_nil k)
take_add (suc b) k (t ∷ ts) =
    let e : k + suc b ≡ suc (k + b) = omega arith in rw e (ap (λ l. t ∷ l) (take_add b k ts))

All-take :
    (rs : List TargetResult) (n : ℕ) (ts : List Text)
    → HaveResults ts rs
    → HaveResults (take n ts) rs
All-take rs zero ts h = tt
All-take rs (suc n) [] h = tt
All-take rs (suc n) (t ∷ ts) (h, hs) = (h, All-take rs n ts hs)

All-drop :
    (rs : List TargetResult) (n : ℕ) (ts : List Text)
    → HaveResults ts rs
    → HaveResults (drop n ts) rs
All-drop rs zero ts h = h
All-drop rs (suc n) [] h = tt
All-drop rs (suc n) (t ∷ ts) (h, hs) = All-drop rs n ts hs

pub take_all : (ts : List Text) → take (length ts) ts ≡ ts
take_all [] = refl
take_all (t ∷ ts) = ap (λ l. t ∷ l) (take_all ts)

reached_first : (b i n : ℕ) → i < b → reached b (some i) n ≡ b
reached_first b i n lt = let e = div-eq_of_lt lt in rw e (omega arith)

reached_later : (b i n m : ℕ) → 0 < b → reached b (some (b + i)) n ≡ reached b (some i) m + b
reached_later b i n m pos = let e = add-div_left i pos in rw e (grind arith)

abbrev pub status_for : Option ℕ → ReleaseStatus
status_for none = success
status_for (some i) = failed

module _ (deploy : Text → Option Text) where
  -- A release whose run stops at the end of a batch, or not at all.
  stopped : ℕ → Option ℕ → List Text → Release → Release
  stopped b o ts rel = record rel {
    status = status_for o;
    results = execute_each deploy (take (reached b o (length ts)) ts) rel.results;
  }

  stopped-later :
      (b : ℕ) (o : Option ℕ) (ts : List Text) (rel : Release)
      → 0 < b
      → stopped b o
          (drop b ts)
          (record rel { results = execute_each deploy (take b ts) rel.results })
        ≡ stopped b (later b o) ts rel
  unfolding stopped later
  stopped-later b none ts rel pos =
      let e = take_all (drop b ts) in
      let e2 = take_all ts in
      let e3 = execute_each-take-drop deploy b ts rel.results in ground arith
  stopped-later b (some i) ts rel pos =
      let n = reached b (some i) (length (drop b ts)) in
      let e = reached_later b i (length ts) (length (drop b ts)) pos in
      let e2 = take_add b n ts in
      let e3 = execute_each-append deploy (take b ts) (take n (drop b ts)) rel.results in
      let all =
        ap (λ m. execute_each deploy (take m ts) rel.results) e
        ∙ ap (λ l. execute_each deploy l rel.results) e2
        ∙ e3 in
      ap (λ rs. record rel { status = failed; results = rs }) (sym all)

  roll_auto :
      (fuel b : ℕ) (ts : List Text) (rel : Release)
      → 0 < b
      → length ts ≤ fuel
      → rel.auto_rollback ≡ true
      → Distinct (ids rel.results)
      → HaveResults ts rel.results
      → has_failed_targets rel.results ≡ false
      → roll deploy fuel b ts rel ≡ some (stopped b (first_failed deploy ts) ts rel)
  unfolding roll deploy_to complete_release fail_release stopped first_failed execute_each
  roll_auto fuel b [] rel pos enough auto u h none_failed = refl
  roll_auto zero b (t ∷ ts) rel pos enough auto u h none_failed = absurd (omega arith)
  roll_auto (suc fuel) b (t ∷ ts) rel pos enough auto u h none_failed =
      let rs = execute_each deploy (take b (t ∷ ts)) rel.results in
      let now =
        failed-execute_each deploy (take b (t ∷ ts)) rel.results u
          (All-take rel.results b (t ∷ ts) h) none_failed in
      let kept : ids rs ≡ ids rel.results =
        ap ids (execute_each-settle deploy (take b (t ∷ ts)) rel.results u)
        ∙ ids-settle_all deploy (take b (t ∷ ts)) rel.results in
      elim (Bool-cases (some_fails deploy (take b (t ∷ ts)))) [
        | inl bad ↦
            let (i, e, lt) = first_failed-take deploy b (t ∷ ts) bad in
            let e2 = reached_first b i (length (t ∷ ts)) lt in ground arith
        | inr fine ↦
            let e = first_failed-drop deploy b (t ∷ ts) fine in
            let rest =
              roll_auto fuel b (drop b (t ∷ ts)) (record rel { results = rs }) pos
                (omega (arith, length-drop b (t ∷ ts))) auto (rw kept u)
                (rw kept (All-drop rel.results b (t ∷ ts) h)) (now ∙ fine) in
            let e2 = stopped-later b (first_failed deploy (drop b (t ∷ ts))) (t ∷ ts) rel pos in
            simp (now, fine) (rest ∙ ap some (e2 ∙ ap (λ o. stopped b o (t ∷ ts) rel) (sym e)))
      ]

pub batch_size-pos : (rel : Release) → 0 < batch_size_of rel
unfolding batch_size_of
batch_size-pos rel = ground arith

-- What stops the run: with an automatic rollback the first target whose deployment fails.
abbrev pub stopper : (Text → Option Text) → List Text → Bool → Option ℕ
stopper deploy ts true = first_failed deploy ts
stopper deploy ts false = none

-- The release at the end of a rolling run.
abbrev pub rolled : (Text → Option Text) → List Text → Release → Release
rolled deploy ts rel =
    let o = stopper deploy ts rel.auto_rollback in
    record rel {
      status = status_for o;
      results = settle_all deploy (take (reached (batch_size_of rel) o (length ts)) ts) rel.results;
    }

stopped-rolled :
    (deploy : Text → Option Text) (ts : List Text) (rel : Release)
    → Distinct (ids rel.results)
    → stopped deploy (batch_size_of rel) (stopper deploy ts rel.auto_rollback) ts rel
      ≡ rolled deploy ts rel
unfolding stopped
stopped-rolled deploy ts rel u =
    let o = stopper deploy ts rel.auto_rollback in
    ap (λ rs. record rel { status = status_for o; results = rs })
      (execute_each-settle deploy (take (reached (batch_size_of rel) o (length ts)) ts) rel.results
        u)

rolling_by :
    (auto : Bool) (deploy : Text → Option Text) (ts : List Text) (rel : Release)
    → rel.auto_rollback ≡ auto
    → Distinct (ids rel.results)
    → HaveResults ts rel.results
    → has_failed_targets rel.results ≡ false
    → execute_rolling deploy ts rel
      ≡ some (stopped deploy (batch_size_of rel) (stopper deploy ts auto) ts rel)
unfolding execute_rolling stopped complete_release
rolling_by true deploy ts rel e u h none_failed =
    roll_auto deploy (length ts) (batch_size_of rel) ts rel (batch_size-pos rel) (omega arith) e u h
      none_failed
rolling_by false deploy ts rel e u h none_failed =
    roll_manual deploy (length ts) (batch_size_of rel) ts rel (batch_size-pos rel) (omega arith) e
    ∙ ap (λ l. some (record rel { status = success; results = execute_each deploy l rel.results }))
        (sym (take_all ts))

-- A rolling release of targets that have results, none of them failed, always ends. Without an
-- automatic rollback every target is deployed and the release succeeds, whatever fails. With it the
-- run ends with the batch in which the first deployment fails: the release then fails, and the
-- targets of later batches keep their results. Each target reached has the result of its own
-- deployment.
pub execute_rolling_lem :
    (deploy : Text → Option Text) (ts : List Text) (rel : Release)
    → Distinct (ids rel.results)
    → HaveResults ts rel.results
    → has_failed_targets rel.results ≡ false
    → execute_rolling deploy ts rel ≡ some (rolled deploy ts rel)
execute_rolling_lem deploy ts rel u h none_failed =
    rolling_by rel.auto_rollback deploy ts rel refl u h none_failed
    ∙ ap some (stopped-rolled deploy ts rel u)
