-- ===== src/Prelude/Map.antt =====
-- Go's maps with string keys (map[string]V and sync.Map) as association lists. The order of the
-- entries is one of those in which Go may range over the map.
use Prim.Native.Nat.{ℕ, ◌+◌}
use mathlib.Core.Path.{◌≡◌, refl}
use mathlib.Core.Option
use mathlib.Core.Option.{Option, none, some}
use mathlib.Core.List.{List, [], ◌∷◌, ◌++◌}
use native.Mathlib.Omega.{arith}
use quic_flow.Prelude.Tests.{if◌then◌else◌}
use mathlib.Core.Bool.{Bool, false, ◌||◌}
use quic_flow.Prelude.Lists.{length}
use quic_flow.Prelude.Text.{Text, text_eq, text_eq_iff, text_eq_refl}

abbrev pub Map : Type 0 → Type 0
Map V = List (Text × V)

module _ {V : Type 0} where
  -- m[k], with its `ok`.
  unfoldable pub lookup : Text → Map V → Option V
  lookup k [] = none
  lookup k ((j, v) ∷ m) = if text_eq j k then some v else lookup k m

  -- m[k] = v.
  unfoldable pub insert : Text → V → Map V → Map V
  insert k v [] = (k, v) ∷ []
  insert k v ((j, w) ∷ m) = if text_eq j k then (j, v) ∷ m else (j, w) ∷ insert k v m

  -- delete(m, k).
  unfoldable pub delete : Text → Map V → Map V
  delete k [] = []
  delete k ((j, w) ∷ m) = if text_eq j k then m else (j, w) ∷ delete k m

  -- A write through the pointer that the map holds under k.
  unfoldable pub modify : Text → (V → V) → Map V → Map V
  modify k f [] = []
  modify k f ((j, w) ∷ m) = if text_eq j k then (j, f w) ∷ m else (j, w) ∷ modify k f m

  unfoldable pub keys : Map V → List Text
  keys [] = []
  keys ((j, w) ∷ m) = j ∷ keys m

  -- No key stands twice.
  abbrev pub IsMap : Map V → Type 0
  IsMap [] = Unit
  IsMap ((j, w) ∷ m) = (lookup j m ≡ none) × IsMap m

  pub lookup-insert :
      (k j : Text) (v : V) (m : Map V)
      → lookup j (insert k v m) ≡ (if text_eq k j then some v else lookup j m)
  unfolding lookup insert
  lookup-insert k j v [] = refl
  lookup-insert k j v ((i, w) ∷ m) =
      ground (arith, text_eq_iff k j, text_eq_iff i k, text_eq_iff i j, lookup-insert k j v m)

  pub lookup-insert_self : (k : Text) (v : V) (m : Map V) → lookup k (insert k v m) ≡ some v
  lookup-insert_self k v m = ground (arith, lookup-insert k k v m, text_eq_refl k)

  pub lookup-modify :
      (k j : Text) (f : V → V) (m : Map V)
      → lookup j (modify k f m) ≡ (if text_eq k j then Option.map f (lookup j m) else lookup j m)
  unfolding lookup modify
  lookup-modify k j f [] = ground arith
  lookup-modify k j f ((i, w) ∷ m) =
      ground (arith, text_eq_iff k j, text_eq_iff i k, text_eq_iff i j, lookup-modify k j f m)

  pub lookup-delete :
      (k j : Text) (m : Map V)
      → IsMap m
      → lookup j (delete k m) ≡ (if text_eq k j then none else lookup j m)
  unfolding lookup delete
  lookup-delete k j [] u = ground arith
  lookup-delete k j ((i, w) ∷ m) u =
      ground (arith, text_eq_iff k j, text_eq_iff i k, text_eq_iff i j, lookup-delete k j m u.1)

  pub insert-IsMap : (k : Text) (v : V) (m : Map V) → IsMap m → IsMap (insert k v m)
  unfolding insert lookup
  insert-IsMap k v [] u = (refl, tt)
  insert-IsMap k v ((i, w) ∷ m) u =
      ground
        (arith, text_eq_iff i k, text_eq_iff k i, lookup-insert k i v m, insert-IsMap k v m u.1)

  pub modify-IsMap : (k : Text) (f : V → V) (m : Map V) → IsMap m → IsMap (modify k f m)
  unfolding modify
  modify-IsMap k f [] u = tt
  modify-IsMap k f ((i, w) ∷ m) u = ground (arith, lookup-modify k i f m, modify-IsMap k f m u.1)

  pub delete-IsMap : (k : Text) (m : Map V) → IsMap m → IsMap (delete k m)
  unfolding delete
  delete-IsMap k [] u = tt
  delete-IsMap k ((i, w) ∷ m) u = ground (arith, lookup-delete k i m u.1, delete-IsMap k m u.1)

  -- 1 if the key is there.
  abbrev pub present : Option V → ℕ
  present none = 0
  present (some v) = 1

  pub length-insert :
      (k : Text) (v : V) (m : Map V) → length (insert k v m) + present (lookup k m) ≡ length m + 1
  unfolding insert lookup
  length-insert k v [] = omega arith
  length-insert k v ((i, w) ∷ m) = ground (arith, length-insert k v m)

  pub length-delete : (k : Text) (m : Map V) → length (delete k m) + present (lookup k m) ≡ length m
  unfolding delete lookup
  length-delete k [] = omega arith
  length-delete k ((i, w) ∷ m) = ground (arith, length-delete k m)

  pub length-modify : (k : Text) (f : V → V) (m : Map V) → length (modify k f m) ≡ length m
  unfolding modify
  length-modify k f [] = refl
  length-modify k f ((i, w) ∷ m) = ground (arith, length-modify k f m)

-- The keys that a list of keys holds.
unfoldable pub listed : Text → List Text → Bool
listed j [] = false
listed j (i ∷ ks) = text_eq i j || listed j ks

-- No key is listed twice.
abbrev pub Distinct : List Text → Type 0
Distinct [] = Unit
Distinct (i ∷ ks) = (listed i ks ≡ false) × Distinct ks

module _ {V : Type 0} where
  pub listed-keys-none : (j : Text) (m : Map V) → listed j (keys m) ≡ false → lookup j m ≡ none
  unfolding listed keys lookup
  listed-keys-none j [] h = refl
  listed-keys-none j ((i, v) ∷ m) h = ground (arith, listed-keys-none j m)

  pub none-listed-keys : (j : Text) (m : Map V) → lookup j m ≡ none → listed j (keys m) ≡ false
  unfolding listed keys lookup
  none-listed-keys j [] h = refl
  none-listed-keys j ((i, v) ∷ m) h = ground (arith, none-listed-keys j m)

  pub keys-Distinct : (m : Map V) → IsMap m → Distinct (keys m)
  unfolding keys
  keys-Distinct [] u = tt
  keys-Distinct ((i, v) ∷ m) u = (none-listed-keys i m u.0, keys-Distinct m u.1)

pub listed-append :
    (j : Text) (xs ys : List Text) → listed j (xs ++ ys) ≡ (listed j xs || listed j ys)
unfolding listed
listed-append j [] ys = refl
listed-append j (x ∷ xs) ys = ground (arith, listed-append j xs ys)
