-- ===== src/Prelude/Lists.antt =====
-- Lists measured and indexed by native numbers, under the library's names.
use Prim.Native.Nat.{ℕ, zero, suc, ◌+◌, ◌-◌, ◌≤◌, ◌<◌, min}
use mathlib.Core.Path.{◌≡◌, refl, ap}
use mathlib.Core.Option.{Option, none, some}
use mathlib.Core.Bool.{Bool}
use mathlib.Core.List.{List, [], ◌∷◌, ◌++◌}
use native.Mathlib.Omega.{arith}
use quic_flow.Prelude.Tests.{if◌then◌else◌}

module _ {ℓ} {A : Type ℓ} where
  abbrev pub length : List A → ℕ
  length [] = 0
  length (x ∷ xs) = suc (length xs)

  abbrev pub take : ℕ → List A → List A
  take zero xs = []
  take (suc n) [] = []
  take (suc n) (x ∷ xs) = x ∷ take n xs

  abbrev pub drop : ℕ → List A → List A
  drop zero xs = xs
  drop (suc n) [] = []
  drop (suc n) (x ∷ xs) = drop n xs

  abbrev pub get_elem? : List A → ℕ → Option A
  get_elem? [] i = none
  get_elem? (x ∷ xs) zero = some x
  get_elem? (x ∷ xs) (suc i) = get_elem? xs i

  -- A write out of bounds changes nothing.
  abbrev pub set : List A → ℕ → A → List A
  set [] i v = []
  set (x ∷ xs) zero v = v ∷ xs
  set (x ∷ xs) (suc i) v = x ∷ set xs i v

  -- The elements that a Boolean test passes, in order.
  abbrev pub keep : (A → Bool) → List A → List A
  keep p [] = []
  keep p (x ∷ xs) = let rest = keep p xs in if p x then x ∷ rest else rest

  -- Every element has the property.
  abbrev pub All {κ} : (A → Type κ) → List A → Type κ
  All P [] = Unit
  All P (x ∷ xs) = P x × All P xs

  -- What stands at an index begins what is left after dropping that many.
  pub drop-cons :
      (k : ℕ) (x : A) (xs ys : List A)
      → drop k ys ≡ x ∷ xs
      → (get_elem? ys k ≡ some x) × (drop (suc k) ys ≡ xs) × (k < length ys)
  drop-cons zero x xs [] h = ground arith
  drop-cons zero x xs (y ∷ ys) h = ground arith
  drop-cons (suc k) x xs [] h = ground arith
  drop-cons (suc k) x xs (y ∷ ys) h = ground (arith, drop-cons k x xs ys h)

  pub drop-set : (i k : ℕ) (v : A) (xs : List A) → i < k → drop k (set xs i v) ≡ drop k xs
  drop-set i zero v xs h = absurd (omega arith)
  drop-set i (suc k) v [] h = refl
  drop-set zero (suc k) v (x ∷ xs) h = refl
  drop-set (suc i) (suc k) v (x ∷ xs) h = drop-set i k v xs (omega arith)

  pub take-set :
      (i : ℕ) (v : A) (xs : List A)
      → i < length xs
      → take (suc i) (set xs i v) ≡ take i xs ++ (v ∷ [])
  take-set i v [] h = absurd (omega arith)
  take-set zero v (x ∷ xs) h = refl
  take-set (suc i) v (x ∷ xs) h = ap (λ ys. x ∷ ys) (take-set i v xs (omega arith))

  pub length-set : (xs : List A) (i : ℕ) (v : A) → length (set xs i v) ≡ length xs
  length-set [] i v = refl
  length-set (x ∷ xs) zero v = refl
  length-set (x ∷ xs) (suc i) v = ap suc (length-set xs i v)

  pub length-append : (xs ys : List A) → length (xs ++ ys) ≡ length xs + length ys
  length-append [] ys = omega arith
  length-append (x ∷ xs) ys = omega (arith, length-append xs ys)

  pub length-keep-le : (p : A → Bool) (xs : List A) → length (keep p xs) ≤ length xs
  length-keep-le p [] = omega arith
  length-keep-le p (x ∷ xs) = ground (arith, length-keep-le p xs)

  pub keep-append : (p : A → Bool) (xs ys : List A) → keep p (xs ++ ys) ≡ keep p xs ++ keep p ys
  keep-append p [] ys = refl
  keep-append p (x ∷ xs) ys = ground (arith, keep-append p xs ys)

  pub length-drop : (n : ℕ) (xs : List A) → length (drop n xs) ≡ length xs - n
  length-drop zero xs = omega arith
  length-drop (suc n) [] = omega arith
  length-drop (suc n) (x ∷ xs) = omega (arith, length-drop n xs)

  pub length-take : (n : ℕ) (xs : List A) → length (take n xs) ≡ min n (length xs)
  length-take zero xs = omega arith
  length-take (suc n) [] = omega arith
  length-take (suc n) (x ∷ xs) = omega (arith, length-take n xs)

module _ {ℓ} {A : Type ℓ} where
  pub length-map {κ} :
      {B : Type κ} (f : A → B) (xs : List A) → length (mathlib.Core.List.map f xs) ≡ length xs
  length-map f [] = refl
  length-map f (x ∷ xs) = ap suc (length-map f xs)

module _ {A : Type 0} where
  abbrev pub in_front : A → Option (A × List A) → Option (A × List A)
  in_front x none = none
  in_front x (some (y, ys)) = some (y, x ∷ ys)

  -- The element at an index and the others.
  abbrev pub pick : ℕ → List A → Option (A × List A)
  pick k [] = none
  pick zero (x ∷ xs) = some (x, xs)
  pick (suc k) (x ∷ xs) = in_front x (pick k xs)

  abbrev pub Parts : List A → A → List A → Type 0
  Parts xs x rest = (a : List A) × (b : List A) × (xs ≡ a ++ (x ∷ b)) × (rest ≡ a ++ b)

  pick_later :
      (y : A) (ys : List A) (x : A) (rest : List A) (p : Option (A × List A))
      → ((z : A) (others : List A) → p ≡ some (z, others) → Parts ys z others)
      → in_front y p ≡ some (x, rest)
      → Parts (y ∷ ys) x rest
  pick_later y ys x rest none parts e = absurd (ground arith)
  pick_later y ys x rest (some (z, others)) parts e =
      let (a, b, e2, e3) = parts z others refl in (y ∷ a, b, ground arith, ground arith)

  -- The element that is picked stands between those before and those behind it.
  pub pick-Parts :
      (k : ℕ) (xs : List A) (x : A) (rest : List A) → pick k xs ≡ some (x, rest) → Parts xs x rest
  pick-Parts k [] x rest e = absurd (ground arith)
  pick-Parts zero (y ∷ ys) x rest e = ([], ys, ground arith, ground arith)
  pick-Parts (suc k) (y ∷ ys) x rest e = pick_later y ys x rest (pick k ys) (pick-Parts k ys) e

  pub length-pick :
      (k : ℕ) (xs : List A) (x : A) (rest : List A)
      → pick k xs ≡ some (x, rest)
      → length xs ≡ suc (length rest)
  length-pick k xs x rest e =
      let (a, b, e2, e3) = pick-Parts k xs x rest e in
      ground (arith, length-append a (x ∷ b), length-append a b)
