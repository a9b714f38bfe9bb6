-- ===== src/ByteUtils/RoundTrip.antt =====
-- byte_utils.go: what the writes put, and that the reads take it back.
use sockety_go.Common.{
  ℕ, ◌+◌, ◌*◌, ◌/◌, ◌^◌, ◌<◌, ◌≡◌, refl, ap, List, ◌∷◌, ◌++◌, arith, bit_or, length, ok, ◌>>=◌,
}
use native.Mathlib.Nat.{mod-eq_of_lt}
use sockety_go.Common.Bits.{bit_or-shift}
use sockety_go.ByteUtils.{byte, shl}
use sockety_go.ByteUtils.ReadBytes
use sockety_go.ByteUtils.WriteBytes
use sockety_go.ByteUtils.Positions.{
  le, index-append, index-append_zero, put-append, put-append_zero, from-append,
}

byte_2 : (v : ℕ) → v / 2 ^ 8 / 256 ≡ v / 2 ^ 16
byte_2 v = omega arith

byte_3 : (v : ℕ) → v / 2 ^ 16 / 256 ≡ v / 2 ^ 24
byte_3 v = omega arith

byte_4 : (v : ℕ) → v / 2 ^ 24 / 256 ≡ v / 2 ^ 32
byte_4 v = omega arith

byte_5 : (v : ℕ) → v / 2 ^ 32 / 256 ≡ v / 2 ^ 40
byte_5 v = omega arith

pub uint16_writes :
    (front : List ℕ) (a b : ℕ) (rest : List ℕ) (v : ℕ)
    → WriteBytes.uint16 (front ++ (a ∷ b ∷ rest)) (length front) v
      ≡ ok (front ++ (le 2 v ++ rest), length front + 2)
unfolding WriteBytes.uint16 le
uint16_writes front a b rest v =
    simp
      (
        index-append,
        put-append_zero front (a ∷ b ∷ rest) (byte v) (omega arith),
        put-append front (byte v ∷ b ∷ rest) 1 (byte (v / 2 ^ 8)) (omega arith),
      )
      (refl)

pub uint24_writes :
    (front : List ℕ) (a b c : ℕ) (rest : List ℕ) (v : ℕ)
    → WriteBytes.uint24 (front ++ (a ∷ b ∷ c ∷ rest)) (length front) v
      ≡ ok (front ++ (le 3 v ++ rest), length front + 3)
unfolding WriteBytes.uint24 le
uint24_writes front a b c rest v =
    simp
      (
        index-append,
        put-append_zero front (a ∷ b ∷ c ∷ rest) (byte v) (omega arith),
        put-append front (byte v ∷ b ∷ c ∷ rest) 1 (byte (v / 2 ^ 8)) (omega arith),
        put-append front (byte v ∷ byte (v / 2 ^ 8) ∷ c ∷ rest) 2 (byte (v / 2 ^ 16)) (omega arith),
      )
      (rw (byte_2 v))

pub uint32_writes :
    (front : List ℕ) (a b c d : ℕ) (rest : List ℕ) (v : ℕ)
    → WriteBytes.uint32 (front ++ (a ∷ b ∷ c ∷ d ∷ rest)) (length front) v
      ≡ ok (front ++ (le 4 v ++ rest), length front + 4)
unfolding WriteBytes.uint32 le
uint32_writes front a b c d rest v =
    simp
      (
        index-append,
        put-append_zero front (a ∷ b ∷ c ∷ d ∷ rest) (byte v) (omega arith),
        put-append front (byte v ∷ b ∷ c ∷ d ∷ rest) 1 (byte (v / 2 ^ 8)) (omega arith),
        put-append front (byte v ∷ byte (v / 2 ^ 8) ∷ c ∷ d ∷ rest) 2 (byte (v / 2 ^ 16))
            (omega arith),
        put-append front (byte v ∷ byte (v / 2 ^ 8) ∷ byte (v / 2 ^ 16) ∷ d ∷ rest) 3
            (byte (v / 2 ^ 24)) (omega arith),
      )
      (rw (byte_2 v, byte_3 v))

pub uint48_writes :
    (front : List ℕ) (a b c d e f : ℕ) (rest : List ℕ) (v : ℕ)
    → WriteBytes.uint48 (front ++ (a ∷ b ∷ c ∷ d ∷ e ∷ f ∷ rest)) (length front) v
      ≡ ok (front ++ (le 6 v ++ rest), length front + 6)
unfolding WriteBytes.uint48 le
uint48_writes front a b c d e f rest v =
    simp
      (
        index-append,
        put-append_zero front (a ∷ b ∷ c ∷ d ∷ e ∷ f ∷ rest) (byte v) (omega arith),
        put-append front (byte v ∷ b ∷ c ∷ d ∷ e ∷ f ∷ rest) 1 (byte (v / 2 ^ 8)) (omega arith),
        put-append front (byte v ∷ byte (v / 2 ^ 8) ∷ c ∷ d ∷ e ∷ f ∷ rest) 2 (byte (v / 2 ^ 16))
            (omega arith),
        put-append front (byte v ∷ byte (v / 2 ^ 8) ∷ byte (v / 2 ^ 16) ∷ d ∷ e ∷ f ∷ rest) 3
            (byte (v / 2 ^ 24)) (omega arith),
        put-append front
            (byte v ∷ byte (v / 2 ^ 8) ∷ byte (v / 2 ^ 16) ∷ byte (v / 2 ^ 24) ∷ e ∷ f ∷ rest) 4
            (byte (v / 2 ^ 32)) (omega arith),
        put-append front
            (byte v
              ∷ byte (v / 2 ^ 8)
              ∷ byte (v / 2 ^ 16)
              ∷ byte (v / 2 ^ 24)
              ∷ byte (v / 2 ^ 32)
              ∷ f
              ∷ rest)
            5 (byte (v / 2 ^ 40)) (omega arith),
      )
      (rw (byte_2 v, byte_3 v, byte_4 v, byte_5 v))

-- A byte that a shift has brought behind the bytes read so far is added to them.
or-shl : (k w a b : ℕ) → a < 2 ^ k → 2 ^ k * b < 2 ^ w → bit_or a (shl w b k) ≡ a + 2 ^ k * b
or-shl k w a b low fits = rw (mod-eq_of_lt fits) (bit_or-shift k a b low)

join16 : (v : ℕ) → v < 2 ^ 16 → bit_or (byte v) (shl 16 (byte (v / 2 ^ 8)) 8) ≡ v
join16 v h = rw (or-shl 8 16 (byte v) (byte (v / 2 ^ 8)) (omega arith) (omega arith)) (omega arith)

pub uint16-le :
    (front rest : List ℕ) (v : ℕ)
    → v < 2 ^ 16
    → ReadBytes.uint16 (front ++ (le 2 v ++ rest)) (length front) ≡ ok v
unfolding ReadBytes.uint16 le
uint16-le front rest v h = simp (from-append, index-append_zero, index-append) (ap ok (join16 v h))

join24 :
    (v : ℕ)
    → v < 2 ^ 24
    → bit_or (bit_or (byte v) (shl 32 (byte (v / 2 ^ 8)) 8)) (shl 32 (byte (v / 2 ^ 16)) 16) ≡ v
join24 v h =
    rw
      (
        or-shl 8 32 (byte v) (byte (v / 2 ^ 8)) (omega arith) (omega arith),
        or-shl 16 32 (byte v + 2 ^ 8 * byte (v / 2 ^ 8)) (byte (v / 2 ^ 16)) (omega arith)
            (omega arith),
      )
      (omega arith)

pub uint24-le :
    (front rest : List ℕ) (v : ℕ)
    → v < 2 ^ 24
    → ReadBytes.uint24 (front ++ (le 3 v ++ rest)) (length front) ≡ ok v
unfolding ReadBytes.uint24 le
uint24-le front rest v h =
    simp (from-append, index-append_zero, index-append, byte_2 v) (ap ok (join24 v h))

join32 :
    (v : ℕ)
    → v < 2 ^ 32
    → bit_or
        (bit_or (bit_or (byte v) (shl 32 (byte (v / 2 ^ 8)) 8)) (shl 32 (byte (v / 2 ^ 16)) 16))
        (shl 32 (byte (v / 2 ^ 24)) 24)
      ≡ v
join32 v h =
    rw
      (
        or-shl 8 32 (byte v) (byte (v / 2 ^ 8)) (omega arith) (omega arith),
        or-shl 16 32 (byte v + 2 ^ 8 * byte (v / 2 ^ 8)) (byte (v / 2 ^ 16)) (omega arith)
            (omega arith),
        or-shl 24 32 (byte v + 2 ^ 8 * byte (v / 2 ^ 8) + 2 ^ 16 * byte (v / 2 ^ 16))
            (byte (v / 2 ^ 24)) (omega arith) (omega arith),
      )
      (omega arith)

pub uint32-le :
    (front rest : List ℕ) (v : ℕ)
    → v < 2 ^ 32
    → ReadBytes.uint32 (front ++ (le 4 v ++ rest)) (length front) ≡ ok v
unfolding ReadBytes.uint32 le
uint32-le front rest v h =
    simp (from-append, index-append_zero, index-append, byte_2 v, byte_3 v) (ap ok (join32 v h))

join48 :
    (v : ℕ)
    → v < 2 ^ 48
    → bit_or
        (bit_or
          (bit_or
            (bit_or (bit_or (byte v) (shl 64 (byte (v / 2 ^ 8)) 8)) (shl 64 (byte (v / 2 ^ 16)) 16))
            (shl 64 (byte (v / 2 ^ 24)) 24))
          (shl 64 (byte (v / 2 ^ 32)) 32))
        (shl 64 (byte (v / 2 ^ 40)) 40)
      ≡ v
join48 v h =
    rw
      (
        or-shl 8 64 (byte v) (byte (v / 2 ^ 8)) (omega arith) (omega arith),
        or-shl 16 64 (byte v + 2 ^ 8 * byte (v / 2 ^ 8)) (byte (v / 2 ^ 16)) (omega arith)
            (omega arith),
        or-shl 24 64 (byte v + 2 ^ 8 * byte (v / 2 ^ 8) + 2 ^ 16 * byte (v / 2 ^ 16))
            (byte (v / 2 ^ 24)) (omega arith) (omega arith),
        or-shl 32 64
            (byte v
              + 2 ^ 8 * byte (v / 2 ^ 8)
              + 2 ^ 16 * byte (v / 2 ^ 16)
              + 2 ^ 24 * byte (v / 2 ^ 24))
            (byte (v / 2 ^ 32)) (omega arith) (omega arith),
        or-shl 40 64
            (byte v
              + 2 ^ 8 * byte (v / 2 ^ 8)
              + 2 ^ 16 * byte (v / 2 ^ 16)
              + 2 ^ 24 * byte (v / 2 ^ 24)
              + 2 ^ 32 * byte (v / 2 ^ 32))
            (byte (v / 2 ^ 40)) (omega arith) (omega arith),
      )
      (omega arith)

pub uint48-le :
    (front rest : List ℕ) (v : ℕ)
    → v < 2 ^ 48
    → ReadBytes.uint48 (front ++ (le 6 v ++ rest)) (length front) ≡ ok v
unfolding ReadBytes.uint48 le
uint48-le front rest v h =
    simp (from-append, index-append_zero, index-append, byte_2 v, byte_3 v, byte_4 v, byte_5 v)
      (ap ok (join48 v h))

-- What writeBytes.Uint16 has put into a slice, readBytes.Uint16 reads back, for 16-bit numbers.
pub uint16-write :
    (front : List ℕ) (a b : ℕ) (rest : List ℕ) (v : ℕ)
    → v < 2 ^ 16
    → (WriteBytes.uint16 (front ++ (a ∷ b ∷ rest)) (length front) v >>= λ w.
        ReadBytes.uint16 w.0 (length front))
      ≡ ok v
uint16-write front a b rest v h = rw (uint16_writes front a b rest v) (uint16-le front rest v h)

-- What writeBytes.Uint24 has put into a slice, readBytes.Uint24 reads back, for 24-bit numbers.
pub uint24-write :
    (front : List ℕ) (a b c : ℕ) (rest : List ℕ) (v : ℕ)
    → v < 2 ^ 24
    → (WriteBytes.uint24 (front ++ (a ∷ b ∷ c ∷ rest)) (length front) v >>= λ w.
        ReadBytes.uint24 w.0 (length front))
      ≡ ok v
uint24-write front a b c rest v h = rw (uint24_writes front a b c rest v) (uint24-le front rest v h)

-- What writeBytes.Uint32 has put into a slice, readBytes.Uint32 reads back, for 32-bit numbers.
pub uint32-write :
    (front : List ℕ) (a b c d : ℕ) (rest : List ℕ) (v : ℕ)
    → v < 2 ^ 32
    → (WriteBytes.uint32 (front ++ (a ∷ b ∷ c ∷ d ∷ rest)) (length front) v >>= λ w.
        ReadBytes.uint32 w.0 (length front))
      ≡ ok v
uint32-write front a b c d rest v h =
    rw (uint32_writes front a b c d rest v) (uint32-le front rest v h)

-- What writeBytes.Uint48 has put into a slice, readBytes.Uint48 reads back, for 48-bit numbers.
pub uint48-write :
    (front : List ℕ) (a b c d e f : ℕ) (rest : List ℕ) (v : ℕ)
    → v < 2 ^ 48
    → (WriteBytes.uint48 (front ++ (a ∷ b ∷ c ∷ d ∷ e ∷ f ∷ rest)) (length front) v >>= λ w.
        ReadBytes.uint48 w.0 (length front))
      ≡ ok v
uint48-write front a b c d e f rest v h =
    rw (uint48_writes front a b c d e f rest v) (uint48-le front rest v h)
