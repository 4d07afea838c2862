-- ===== src/Session/Paging.antt =====
-- `ListClientsWithDetailsPaginated` of pkg/session/manager.go (and, over the shards' sessions in
-- turn, of pkg/session/sharded_manager.go). `offset` and `limit` are Go's int: bit patterns of 64
-- bits. `none` is the panic of `make` with a negative capacity.
use quic_flow.Prelude.{
  ℕ, zero, suc, ◌+◌, ◌-◌, ◌≤◌, ◌<◌, ◌≡◌, refl, sym, ap, ◌∙◌, if◌then◌else◌, false, ◌&&◌, ◌||◌,
  Option, none, some, List, [], ◌∷◌, ◌++◌, map, length, take, drop, arith, ltb, leb, Bool-cases,
  inl, inr,
}
use mathlib.Core.List.{append_assoc, append-nil}
use quic_flow.Prelude.Word.{add64, i64_leb, i64_ltb, i64_leb_lem, i64_neg, i64_mod}
use quic_flow.Prelude.Text.{Text}
use quic_flow.Prelude.Map.{Map}
use quic_flow.Session.Client.{ClientSession}
use quic_flow.Session.Manager.{SessionManager, ClientInfoBrief, brief, list_clients_with_details}
use quic_flow.Session.Manager.Registry.{IsConsistent}

-- The callback of `Range` with its two counters and the result.
pub page_loop : ℕ → ℕ → Map ClientSession → ℕ → ℕ → List ClientInfoBrief → List ClientInfoBrief
page_loop offset limit [] skipped collected result = result
page_loop offset limit ((id, s) ∷ rest) skipped collected result =
    let skip = page_loop offset limit rest (add64 skipped 1) collected result in
    let collect =
      page_loop offset limit rest skipped (add64 collected 1) (result ++ (brief s ∷ [])) in
    if i64_ltb skipped offset
    then skip
    else (if i64_ltb 0 limit && i64_leb limit collected then result else collect)

unfoldable pub list_clients_with_details_paginated :
    ℕ → ℕ → SessionManager → Option (List ClientInfoBrief × ℕ)
unfolding page_loop
list_clients_with_details_paginated offset limit sm =
    if i64_leb sm.count offset
    then some ([], sm.count)
    else (if i64_ltb limit 0 || i64_ltb sm.count 0
        then none
        else some (page_loop offset limit sm.sessions 0 0 [], sm.count))

abbrev briefs : Map ClientSession → List ClientInfoBrief
briefs = map (λ e. brief e.1)

-- The page that a positive or zero limit asks for.
abbrev pub page : ℕ → List ClientInfoBrief → List ClientInfoBrief
page zero xs = xs
page (suc limit) xs = take (suc limit) xs

-- The callback on numbers that are not negative.
page_loop_step :
    (offset limit : ℕ) (id : Text) (s : ClientSession) (m : Map ClientSession)
    (skipped collected : ℕ) (result : List ClientInfoBrief)
    → offset < i64_neg
    → limit < i64_neg
    → skipped < i64_neg
    → collected < i64_neg
    → page_loop offset limit ((id, s) ∷ m) skipped collected result ≡ (
        if ltb skipped offset
        then page_loop offset limit m (skipped + 1) collected result
        else (if ltb 0 limit && leb limit collected
            then result
            else page_loop offset limit m skipped (collected + 1) (result ++ (brief s ∷ []))))
unfolding page_loop
page_loop_step offset limit id s m skipped collected result o l k c =
    let small_skipped : add64 skipped 1 ≡ skipped + 1 = omega arith in
    let small_collected : add64 collected 1 ≡ collected + 1 = omega arith in
    rw
      (
        i64_leb_lem offset skipped o k,
        i64_leb_lem limit 0 l (omega arith),
        i64_leb_lem limit collected l c,
        small_skipped,
        small_collected,
      )
      (ground arith)

take_cons :
    (limit collected : ℕ) (x : ClientInfoBrief) (xs : List ClientInfoBrief)
    → collected < limit
    → take (limit - collected) (x ∷ xs) ≡ x ∷ take (limit - (collected + 1)) xs
take_cons limit collected x xs h =
    let e : limit - collected ≡ suc (limit - (collected + 1)) = omega arith in rw e

take_zero : (n : ℕ) (xs : List ClientInfoBrief) → n ≡ 0 → take n xs ≡ []
take_zero zero xs h = refl
take_zero (suc n) xs h = absurd (omega arith)

take_nil : (n : ℕ) → take {A = ClientInfoBrief} n [] ≡ []
take_nil zero = refl
take_nil (suc n) = refl

-- After the skipping, a positive limit.
collect_loop :
    (offset limit : ℕ) (m : Map ClientSession) (collected : ℕ) (result : List ClientInfoBrief)
    → offset < i64_neg
    → limit < i64_neg
    → collected + length m < i64_neg
    → collected ≤ limit
    → 0 < limit
    → page_loop offset limit m offset collected result
      ≡ result ++ take (limit - collected) (briefs m)
unfolding page_loop
collect_loop offset limit [] collected result o l b c p =
    rw (take_nil (limit - collected)) (sym (append-nil result))
collect_loop offset limit ((id, s) ∷ m) collected result o l b c p =
    page_loop_step offset limit id s m offset collected result o l o (omega arith)
    ∙ elim (Bool-cases (leb limit collected)) [
      | inl full ↦
          ground (arith, take_zero (limit - collected) (briefs ((id, s) ∷ m)), append-nil result)
      | inr more ↦ ground (
        arith,
        take_cons limit collected (brief s) (briefs m),
        collect_loop offset limit m (collected + 1) (result ++ (brief s ∷ [])),
        append_assoc result (brief s ∷ []) (take (limit - (collected + 1)) (briefs m)),
      )
    ]

-- After the skipping, no limit.
collect_all :
    (offset : ℕ) (m : Map ClientSession) (collected : ℕ) (result : List ClientInfoBrief)
    → offset < i64_neg
    → collected + length m < i64_neg
    → page_loop offset 0 m offset collected result ≡ result ++ briefs m
unfolding page_loop
collect_all offset [] collected result o b = sym (append-nil result)
collect_all offset ((id, s) ∷ m) collected result o b =
    page_loop_step offset 0 id s m offset collected result o (omega arith) o (omega arith)
    ∙ ground (
      arith,
      collect_all offset m (collected + 1) (result ++ (brief s ∷ [])),
      append_assoc result (brief s ∷ []) (briefs m),
    )

collect-page :
    (offset limit : ℕ) (m : Map ClientSession)
    → offset < i64_neg
    → limit < i64_neg
    → length m < i64_neg
    → page_loop offset limit m offset 0 [] ≡ page limit (briefs m)
collect-page offset zero m o l b = collect_all offset m 0 [] o (omega arith)
collect-page offset (suc limit) m o l b =
    let e : suc limit - 0 ≡ suc limit = omega arith in
    collect_loop offset (suc limit) m 0 [] o l (omega arith) (omega arith) (omega arith)
    ∙ ap (λ n. take n (briefs m)) e

page_nil : (n : ℕ) → page n [] ≡ []
page_nil zero = refl
page_nil (suc n) = refl

drop_all : (n : ℕ) (m : Map ClientSession) → length m ≤ n → drop n (briefs m) ≡ []
drop_all zero [] h = refl
drop_all (suc n) [] h = refl
drop_all zero (e ∷ m) h = absurd (omega arith)
drop_all (suc n) (e ∷ m) h = drop_all n m (omega arith)

-- The skipping.
skip_loop :
    (k offset limit : ℕ) (m : Map ClientSession) (skipped : ℕ)
    → offset < i64_neg
    → limit < i64_neg
    → length m < i64_neg
    → skipped + k ≡ offset
    → page_loop offset limit m skipped 0 [] ≡ page limit (drop k (briefs m))
unfolding page_loop
skip_loop zero offset limit m skipped o l b e =
    let e' : skipped ≡ offset = omega arith in rw e' (collect-page offset limit m o l b)
skip_loop (suc k) offset limit [] skipped o l b e = sym (page_nil limit)
skip_loop (suc k) offset limit ((id, s) ∷ m) skipped o l b e =
    page_loop_step offset limit id s m skipped 0 [] o l (omega arith) (omega arith)
    ∙ ground (arith, skip_loop k offset limit m (skipped + 1))

-- A page of a consistent registry with fewer than 2 ^ 63 sessions, for an offset and a limit that
-- are not negative: the clients' details from `offset` on, at most `limit` of them (all of them
-- for limit 0), beside the number of sessions; none past the end.
pub list_clients_with_details_paginated-page :
    (offset limit : ℕ) (sm : SessionManager)
    → IsConsistent sm
    → length sm.sessions < i64_neg
    → offset < i64_neg
    → limit < i64_neg
    → list_clients_with_details_paginated offset limit sm
      ≡ some (page limit (drop offset (list_clients_with_details sm)), length sm.sessions)
unfolding list_clients_with_details_paginated list_clients_with_details
list_clients_with_details_paginated-page offset limit sm v b o l =
    let e : sm.count ≡ length sm.sessions = omega arith in
    let c : sm.count < i64_neg = omega arith in
    rw
      (
        i64_leb_lem sm.count offset c o,
        i64_leb_lem 0 limit (omega arith) l,
        i64_leb_lem 0 sm.count (omega arith) c,
      )
      (ground (
        arith,
        e,
        drop_all offset sm.sessions,
        page_nil limit,
        skip_loop offset offset limit sm.sessions 0 o l b,
      ))

-- A negative limit panics, unless the offset lies past the end.
pub list_clients_with_details_paginated-negative :
    (offset limit : ℕ) (sm : SessionManager)
    → i64_leb sm.count offset ≡ false
    → i64_neg ≤ limit
    → limit < i64_mod
    → list_clients_with_details_paginated offset limit sm ≡ none
unfolding list_clients_with_details_paginated i64_leb
list_clients_with_details_paginated-negative offset limit sm h n l = rw (h, i64_leb) (ground arith)
