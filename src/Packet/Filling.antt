-- ===== src/Packet/Filling.antt =====
-- packet.go: a packet that is written up to its offset. Every method appends its bytes to the written
-- front, and takes as many off the room behind it.
use sockety_go.Common.{
  ℕ, ◌+◌, ◌-◌, ◌*◌, ◌%◌, ◌^◌, ◌≤◌, ◌<◌, ◌≡◌, ◌⊎◌, inl, inr, refl, ap, ◌∙◌, List, [], ◌∷◌, ◌++◌,
  append_assoc, arith, length, length-append, take, take-append, drop, get_elem?-lt, Result, ok,
  index, in_range,
}
use native.Mathlib.Nat.{mod-eq_of_lt}
use sockety_go.ByteUtils.{copy}
use sockety_go.ByteUtils.WriteBytes
use sockety_go.ByteUtils.Positions.{
  le, length-le, put-append_zero, index-append, from-append, copy-append,
}
use sockety_go.ByteUtils.RoundTrip.{uint16_writes, uint24_writes, uint32_writes, uint48_writes}
use sockety_go.Packet.{Packet, written, uint8, uint16, uint24, uint32, uint48, uint, string, uuid}

abbrev pub filled : List ℕ → List ℕ → Packet
filled front rest = record { b = front ++ rest; o = length front }

-- A write that puts `bs` behind the front, as the filled packet.
written-filled :
    (front bs rest : List ℕ) (r : Result (List ℕ × ℕ)) (k : ℕ)
    → r ≡ ok (front ++ (bs ++ rest), length front + k)
    → length bs ≡ k
    → written r ≡ ok (filled (front ++ bs) rest)
written-filled front bs rest r k e h =
    rw (e, ← append_assoc front bs rest) (ground (arith, length-append front bs))

pub uint8-filled :
    (front : List ℕ) (v : ℕ) (rest : List ℕ)
    → 1 ≤ length rest
    → uint8 (filled front rest) v ≡ ok (filled (front ++ v ∷ []) (drop 1 rest))
unfolding uint8 WriteBytes.uint8
uint8-filled front v [] h = absurd (omega arith)
uint8-filled front v (x ∷ rest) h =
    written-filled front (v ∷ []) rest _ 1 (rw (put-append_zero front (x ∷ rest) v (omega arith)))
      refl

pub uint16-filled :
    (front : List ℕ) (v : ℕ) (rest : List ℕ)
    → 2 ≤ length rest
    → uint16 (filled front rest) v ≡ ok (filled (front ++ le 2 v) (drop 2 rest))
unfolding uint16
uint16-filled front v [] h = absurd (omega arith)
uint16-filled front v (a ∷ []) h = absurd (omega arith)
uint16-filled front v (a ∷ b ∷ rest) h =
    written-filled front (le 2 v) rest _ 2 (uint16_writes front a b rest v) (length-le 2 v)

pub uint24-filled :
    (front : List ℕ) (v : ℕ) (rest : List ℕ)
    → 3 ≤ length rest
    → uint24 (filled front rest) v ≡ ok (filled (front ++ le 3 v) (drop 3 rest))
unfolding uint24
uint24-filled front v [] h = absurd (omega arith)
uint24-filled front v (a ∷ []) h = absurd (omega arith)
uint24-filled front v (a ∷ b ∷ []) h = absurd (omega arith)
uint24-filled front v (a ∷ b ∷ c ∷ rest) h =
    written-filled front (le 3 v) rest _ 3 (uint24_writes front a b c rest v) (length-le 3 v)

pub uint32-filled :
    (front : List ℕ) (v : ℕ) (rest : List ℕ)
    → 4 ≤ length rest
    → uint32 (filled front rest) v ≡ ok (filled (front ++ le 4 v) (drop 4 rest))
unfolding uint32
uint32-filled front v [] h = absurd (omega arith)
uint32-filled front v (a ∷ []) h = absurd (omega arith)
uint32-filled front v (a ∷ b ∷ []) h = absurd (omega arith)
uint32-filled front v (a ∷ b ∷ c ∷ []) h = absurd (omega arith)
uint32-filled front v (a ∷ b ∷ c ∷ d ∷ rest) h =
    written-filled front (le 4 v) rest _ 4 (uint32_writes front a b c d rest v) (length-le 4 v)

pub uint48-filled :
    (front : List ℕ) (v : ℕ) (rest : List ℕ)
    → 6 ≤ length rest
    → uint48 (filled front rest) v ≡ ok (filled (front ++ le 6 v) (drop 6 rest))
unfolding uint48
uint48-filled front v [] h = absurd (omega arith)
uint48-filled front v (a ∷ []) h = absurd (omega arith)
uint48-filled front v (a ∷ b ∷ []) h = absurd (omega arith)
uint48-filled front v (a ∷ b ∷ c ∷ []) h = absurd (omega arith)
uint48-filled front v (a ∷ b ∷ c ∷ d ∷ []) h = absurd (omega arith)
uint48-filled front v (a ∷ b ∷ c ∷ d ∷ e ∷ []) h = absurd (omega arith)
uint48-filled front v (a ∷ b ∷ c ∷ d ∷ e ∷ f ∷ rest) h =
    written-filled front (le 6 v) rest _ 6 (uint48_writes front a b c d e f rest v) (length-le 6 v)

-- The widths that a message uses.
abbrev pub IsWidth : ℕ → Type 0
IsWidth k = (k ≡ 1) ⊎ (k ≡ 2) ⊎ (k ≡ 6)

uint1-filled :
    (front : List ℕ) (v : ℕ) (rest : List ℕ)
    → v < 2 ^ 8
    → 1 ≤ length rest
    → uint (filled front rest) v 1 ≡ ok (filled (front ++ le 1 v) (drop 1 rest))
unfolding uint WriteBytes.uint le
uint1-filled front v rest h room =
    let small : v % 2 ^ 8 ≡ v = mod-eq_of_lt h in
    rw small (unfold uint8 in uint8-filled front v rest room)

uint2-filled :
    (front : List ℕ) (v : ℕ) (rest : List ℕ)
    → v < 2 ^ 16
    → 2 ≤ length rest
    → uint (filled front rest) v 2 ≡ ok (filled (front ++ le 2 v) (drop 2 rest))
unfolding uint WriteBytes.uint
uint2-filled front v rest h room =
    let small : v % 2 ^ 16 ≡ v = mod-eq_of_lt h in
    rw small (unfold uint16 in uint16-filled front v rest room)

uint6-filled :
    (front : List ℕ) (v : ℕ) (rest : List ℕ)
    → 6 ≤ length rest
    → uint (filled front rest) v 6 ≡ ok (filled (front ++ le 6 v) (drop 6 rest))
unfolding uint WriteBytes.uint
uint6-filled front v rest room = unfold uint48 in uint48-filled front v rest room

pub uint-filled :
    (front : List ℕ) (v k : ℕ) (rest : List ℕ)
    → IsWidth k
    → v < 2 ^ (8 * k)
    → k ≤ length rest
    → uint (filled front rest) v k ≡ ok (filled (front ++ le k v) (drop k rest))
uint-filled front v k rest (inl e) h room =
    rw e (uint1-filled front v rest (rw e at h) (omega arith))
uint-filled front v k rest (inr (inl e)) h room =
    rw e (uint2-filled front v rest (rw e at h) (omega arith))
uint-filled front v k rest (inr (inr e)) h room = rw e (uint6-filled front v rest (omega arith))

-- `take` and `copy` at the end of the front.
splice :
    (front rest bs : List ℕ)
    → length bs ≤ length rest
    → take (length front) (front ++ rest) ++ copy rest bs ≡ front ++ (bs ++ drop (length bs) rest)
splice front rest bs h = rw (take-append front rest (length front) refl, copy-append rest bs h)

last_byte :
    (front rest : List ℕ) (k : ℕ)
    → k < length rest
    → (x : ℕ) × (index (front ++ rest) (length front + k) ≡ ok x)
last_byte front rest k h =
    let (x, e) = get_elem?-lt rest k h in (x, index-append front rest k ∙ ap in_range e)

pub uuid-filled :
    (front id rest : List ℕ)
    → length id ≡ 16
    → 16 ≤ length rest
    → uuid (filled front rest) id ≡ ok (filled (front ++ id) (drop 16 rest))
unfolding uuid WriteBytes.uuid
uuid-filled front id rest h room =
    let (x, e) = last_byte front rest 15 room in
    written-filled front id (drop 16 rest) _ 16
      (rw (e, from-append front rest, splice front rest id (omega arith), h)) h

pub string-filled :
    (front bs rest : List ℕ)
    → 0 < length bs
    → length bs ≤ length rest
    → length front + length rest < 2 ^ 64
    → string (filled front rest) bs ≡ ok (filled (front ++ bs) (drop (length bs) rest))
unfolding string WriteBytes.string WriteBytes.bytes
string-filled front bs rest some_byte room fits =
    let (x, e) = last_byte front rest (length bs - 1) (omega arith) in
    let position : (length front + length bs + 2 ^ 64 - 1) % 2 ^ 64
        ≡ length front + (length bs - 1) =
      omega arith in
    written-filled front bs (drop (length bs) rest) _ (length bs)
      (rw (position, e, from-append front rest, splice front rest bs room)) refl
