-- ===== src/Packet/Header.antt =====
-- packet.go, newPacket: the first bytes of a packet, and the room that is left for its content.
use sockety_go.Common.{
  ℕ, suc, ◌+◌, ◌%◌, ◌^◌, ◌≤◌, ◌<◌, ◌≡◌, inl, inr, refl, bit_or, List, [], ◌∷◌, arith, length, ok,
  leb, Bool-cases, if◌then◌else◌,
}
use sockety_go.Constants.{
  packet_size_uint8_bits, packet_size_uint16_bits, packet_size_uint24_bits, packet_size_uint32_bits,
  max_uint8, max_uint16, max_uint24,
}
use native.Mathlib.Nat.{mod-eq_of_lt}
use sockety_go.ByteUtils.{put}
use sockety_go.ByteUtils.Positions.{le, put-append_zero}
use sockety_go.ByteUtils.RoundTrip.{uint16_writes, uint24_writes, uint32_writes}
use sockety_go.BufferPool.{obtain_unsafe, zeros}
use sockety_go.Packet.{new_packet}
use sockety_go.Packet.Filling.{filled}

-- The size's width in the signature, and the size.
unfoldable pub packet_header : ℕ → ℕ → List ℕ
packet_header signature size =
    if leb size max_uint8
    then bit_or signature packet_size_uint8_bits ∷ le 1 size
    else if leb size max_uint16
    then bit_or signature packet_size_uint16_bits ∷ le 2 size
    else if leb size max_uint24
    then bit_or signature packet_size_uint24_bits ∷ le 3 size
    else bit_or signature packet_size_uint32_bits ∷ le 4 size

room2 : (n : ℕ) → zeros (n + 2) ≡ 0 ∷ 0 ∷ zeros n
room2 n = let e : n + 2 ≡ suc (suc n) = omega arith in rw e

room3 : (n : ℕ) → zeros (n + 3) ≡ 0 ∷ 0 ∷ 0 ∷ zeros n
room3 n = let e : n + 3 ≡ suc (suc (suc n)) = omega arith in rw e

room4 : (n : ℕ) → zeros (n + 4) ≡ 0 ∷ 0 ∷ 0 ∷ 0 ∷ zeros n
room4 n = let e : n + 4 ≡ suc (suc (suc (suc n))) = omega arith in rw e

room5 : (n : ℕ) → zeros (n + 5) ≡ 0 ∷ 0 ∷ 0 ∷ 0 ∷ 0 ∷ zeros n
room5 n = let e : n + 5 ≡ suc (suc (suc (suc (suc n)))) = omega arith in rw e

-- The signature goes first.
put_first : (x v : ℕ) (xs : List ℕ) → put (x ∷ xs) 0 v ≡ ok (v ∷ xs)
put_first x v xs = put-append_zero [] (x ∷ xs) v (omega arith)

put_second : (w x v : ℕ) (xs : List ℕ) → put (w ∷ x ∷ xs) 1 v ≡ ok (w ∷ v ∷ xs)
put_second w x v xs = put-append_zero (w ∷ []) (x ∷ xs) v (omega arith)

-- From an empty pooled buffer: the header is written, and there is room for exactly `size` bytes.
pub new_packet-filled :
    (signature size : ℕ)
    → size < 2 ^ 32
    → new_packet [] signature size ≡ ok (filled (packet_header signature size) (zeros size))
unfolding new_packet packet_header obtain_unsafe
new_packet-filled signature size fits = elim (Bool-cases (leb size max_uint8)) [
  | inl e8 ↦
      let small : size % 2 ^ 8 ≡ size = mod-eq_of_lt (ground arith) in
      rw (e8, room2 size, put_first, small, put_second) (unfold le in rw small)
  | inr n8 ↦ elim (Bool-cases (leb size max_uint16)) [
    | inl e16 ↦
        let small : size % 2 ^ 16 ≡ size = mod-eq_of_lt (ground arith) in
        let front : List ℕ = bit_or signature packet_size_uint16_bits ∷ [] in
        rw (n8, e16, room3 size, put_first, small, uint16_writes front 0 0 (zeros size) size)
          (unfold le in refl)
    | inr n16 ↦ elim (Bool-cases (leb size max_uint24)) [
      | inl e24 ↦
          let small : size % 2 ^ 32 ≡ size = mod-eq_of_lt fits in
          let front : List ℕ = bit_or signature packet_size_uint24_bits ∷ [] in
          rw
            (
              n8,
              n16,
              e24,
              room4 size,
              put_first,
              small,
              uint24_writes front 0 0 0 (zeros size) size,
            )
            (unfold le in refl)
      | inr n24 ↦
          let small : size % 2 ^ 32 ≡ size = mod-eq_of_lt fits in
          let front : List ℕ = bit_or signature packet_size_uint32_bits ∷ [] in
          rw
            (
              n8,
              n16,
              n24,
              room5 size,
              put_first,
              small,
              uint32_writes front 0 0 0 0 (zeros size) size,
            )
            (unfold le in refl)
    ]
  ]
]

pub length-packet_header : (signature size : ℕ) → length (packet_header signature size) ≤ 5
unfolding packet_header le
length-packet_header signature size = ground arith
