-- ===== src/Dispatcher/Batch/Due.antt =====
-- The responses that are due on the channels of DispatchBatchSync (pkg/dispatcher/dispatcher.go), as
-- lists of at most one response, and lemmas on such lists.
use mathlib.Core.List.{append_assoc}
use quic_flow.Prelude.{
  ℕ, zero, suc, ◌≤◌, ◌≡◌, refl, ap, sym, ◌∙◌, ◌⊎◌, inl, inr, ◌==◌, if◌then◌else◌, Option, none,
  some, List, [], ◌∷◌, ◌++◌, length, length-append, map, arith,
}
use quic_flow.Dispatcher.Queues.{DataMessage, DispatchTask}
use quic_flow.Dispatcher.Workers.{DispatchResponse}

module _ {E : Type 0} (reply : DataMessage → DispatchResponse E) where
  -- The responses to come on channel `i`.
  unfoldable pub on_channel : ℕ → DispatchTask → List (DispatchResponse E)
  on_channel i t = elim t.response_ch [
    | none ↦ []
    | some j ↦ if j == i then reply t.message ∷ [] else []
  ]

  unfoldable pub pending : ℕ → List DispatchTask → List (DispatchResponse E)
  unfolding on_channel
  pending i [] = []
  pending i (t ∷ ts) = on_channel i t ++ pending i ts

  pub pending-append :
      (i : ℕ) (xs ys : List DispatchTask) → pending i (xs ++ ys) ≡ pending i xs ++ pending i ys
  unfolding pending
  pending-append i [] ys = refl
  pending-append i (t ∷ ts) ys =
      ap (λ r. on_channel i t ++ r) (pending-append i ts ys)
      ∙ sym (append_assoc (on_channel i t) (pending i ts) (pending i ys))

  -- The response due for the message at an index.
  unfoldable pub due : Option DataMessage → List (DispatchResponse E)
  due none = []
  due (some m) = reply m ∷ []

  unfoldable pub entry : ℕ → List (Option DataMessage) → List (DispatchResponse E)
  unfolding due
  entry i [] = []
  entry zero (m ∷ ms) = due m
  entry (suc i) (m ∷ ms) = entry i ms

  pub entry_short : (i : ℕ) (ms : List (Option DataMessage)) → length (entry i ms) ≤ 1
  unfolding entry
  entry_short i [] = omega arith
  entry_short zero (none ∷ ms) = omega arith
  entry_short zero (some m ∷ ms) = omega arith
  entry_short (suc i) (m ∷ ms) = entry_short i ms

  pub entry-append :
      (i : ℕ) (ms : List (Option DataMessage)) (m : DataMessage)
      → entry i (ms ++ (some m ∷ [])) ≡ entry i ms ++ (if length ms == i then reply m ∷ [] else [])
  unfolding entry
  entry-append zero [] m = refl
  entry-append (suc i) [] m = ground arith
  entry-append zero (none ∷ ms) m = ground arith
  entry-append zero (some x ∷ ms) m = ground arith
  entry-append (suc i) (x ∷ ms) m = ground (arith, entry-append i ms m)

module _ {A : Type 0} where
  empty : (xs : List A) → length xs ≤ 0 → xs ≡ []
  empty [] h = refl
  empty (x ∷ xs) h = absurd (omega arith)

  -- In a list of one element at most, one that stands in the middle stands alone.
  pub alone :
      (c a b q e : List A) (x : A)
      → c ++ ((a ++ (x ∷ b)) ++ q) ≡ e
      → length e ≤ 1
      → (c ≡ []) × (a ≡ []) × (b ≡ []) × (q ≡ [])
  alone c a b q e x h short =
      let total = ap length h in
      let l1 = length-append c ((a ++ (x ∷ b)) ++ q) in
      let l2 = length-append (a ++ (x ∷ b)) q in
      let l3 = length-append a (x ∷ b) in
      (empty c (grind arith), empty a (grind arith), empty b (grind arith), empty q (grind arith))

  pub front : (c q e : List A) → c ++ q ≡ e → length e ≤ 1 → (c ≡ []) ⊎ (c ≡ e)
  front [] q e h short = inl refl
  front (x ∷ c) q e h short =
      let l = length-append c q in
      let total = ap length h in
      let gone = empty c (grind arith) in let gone2 = empty q (grind arith) in inr (ground arith)

  -- An element of a list whose elements are all given.
  pub given :
      (xs ys : List (Option A)) (m : Option A) (ms : List A)
      → xs ++ (m ∷ ys) ≡ map some ms
      → (x : A) × (m ≡ some x)
  given [] ys m [] e = absurd (ground arith)
  given [] ys m (x ∷ ms) e = (x, ground arith)
  given (y ∷ xs) ys m [] e = absurd (ground arith)
  given (y ∷ xs) ys m (x ∷ ms) e = given xs ys m ms (ground arith)
