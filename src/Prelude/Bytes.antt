-- ===== src/Prelude/Bytes.antt =====
-- Bytes in a stream: io.ReadFull on a reader that ends after the bytes given, and the big-endian
-- numbers of encoding/binary. A byte is a number below 256.
use Prim.Native.Nat.{ℕ, zero, suc, ◌+◌, ◌*◌, ◌/◌, ◌%◌, ◌<◌}
use mathlib.Core.Path.{◌≡◌, refl, ap}
use mathlib.Core.Bool.{true}
use mathlib.Core.List.{List, [], ◌∷◌, ◌++◌}
use native.Mathlib.Omega.{arith}
use quic_flow.Prelude.Tests.{leb, if◌then◌else◌}
use quic_flow.Prelude.Lists.{length, take, drop}
use quic_flow.Prelude.Text.{Text}

-- The `n` bytes asked for and what is left; io.EOF at the end; io.ErrUnexpectedEOF in the midst,
-- with the bytes read.
pub data ReadFull : Type 0 where
  full : Text → Text → ReadFull
  eof : ReadFull
  unexpected_eof : Text → ReadFull

read_short : Text → ReadFull
read_short [] = eof
read_short (b ∷ s) = unexpected_eof (b ∷ s)

unfoldable pub read_full : ℕ → Text → ReadFull
unfolding read_short
read_full n s = if leb n (length s) then full (take n s) (drop n s) else read_short s

pub take-append {ℓ} : {A : Type ℓ} (xs ys : List A) → take (length xs) (xs ++ ys) ≡ xs
take-append [] ys = refl
take-append (x ∷ xs) ys = ap (λ zs. x ∷ zs) (take-append xs ys)

pub drop-append {ℓ} : {A : Type ℓ} (xs ys : List A) → drop (length xs) (xs ++ ys) ≡ ys
drop-append [] ys = refl
drop-append (x ∷ xs) ys = drop-append xs ys

le-length_append {ℓ} : {A : Type ℓ} (xs ys : List A) → leb (length xs) (length (xs ++ ys)) ≡ true
le-length_append [] ys = ground arith
le-length_append (x ∷ xs) ys = ground (arith, le-length_append xs ys)

-- What was written is what is read.
pub read_full-append : (b rest : Text) → read_full (length b) (b ++ rest) ≡ full b rest
unfolding read_full
read_full-append b rest =
    ground (arith, take-append b rest, drop-append b rest, le-length_append b rest)

-- PutUint32 and PutUint16.
abbrev pub put_u32 : ℕ → Text
put_u32 n = (n / 16777216 % 256) ∷ (n / 65536 % 256) ∷ (n / 256 % 256) ∷ (n % 256) ∷ []

abbrev pub put_u16 : ℕ → Text
put_u16 n = (n / 256 % 256) ∷ (n % 256) ∷ []

-- Uint32 and Uint16, on as many bytes.
unfoldable pub get_u32 : Text → ℕ
get_u32 (a ∷ b ∷ c ∷ d ∷ _) = a * 16777216 + b * 65536 + c * 256 + d
get_u32 _ = 0

unfoldable pub get_u16 : Text → ℕ
get_u16 (a ∷ b ∷ _) = a * 256 + b
get_u16 _ = 0

pub get_u32-put_u32 : (n : ℕ) → n < 4294967296 → get_u32 (put_u32 n) ≡ n
unfolding get_u32
get_u32-put_u32 n h = omega arith

pub get_u16-put_u16 : (n : ℕ) → n < 65536 → get_u16 (put_u16 n) ≡ n
unfolding get_u16
get_u16-put_u16 n h = omega arith

-- All the bytes that a read has seen.
abbrev pub seen : ReadFull → Text
seen (full b rest) = b ++ rest
seen eof = []
seen (unexpected_eof b) = b

pub take-drop {ℓ} : {A : Type ℓ} (n : ℕ) (xs : List A) → take n xs ++ drop n xs ≡ xs
take-drop zero xs = refl
take-drop (suc n) [] = refl
take-drop (suc n) (x ∷ xs) = ap (λ ys. x ∷ ys) (take-drop n xs)

seen_short : (s : Text) → seen (read_short s) ≡ s
unfolding read_short
seen_short [] = refl
seen_short (b ∷ s) = refl

pub seen-read_full : (n : ℕ) (s : Text) → seen (read_full n s) ≡ s
unfolding read_full
seen-read_full n s = ground (arith, take-drop n s, seen_short s)
