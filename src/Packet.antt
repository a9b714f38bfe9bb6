-- ===== src/Packet.antt =====
-- packet.go: a packet is a buffer that is written front to back; its first bytes are the signature
-- with the width of the size, and the size.
pub mod Filling
pub mod Header
use sockety_go.Common.{
  ℕ, ◌+◌, ◌%◌, ◌^◌, ◌≡◌, bit_or, Bool, List, ◌==◌, leb, if◌then◌else◌, length, Result, ok, ◌>>=◌,
}
use sockety_go.Constants.{
  max_uint8, max_uint16, max_uint24, packet_size_uint8_bits, packet_size_uint16_bits,
  packet_size_uint24_bits, packet_size_uint32_bits,
}
use sockety_go.ByteUtils.{put}
use sockety_go.ByteUtils.WriteBytes
use sockety_go.BufferPool.{obtain_unsafe}

pub record Packet : Type 0 where
  pub b : List ℕ
  pub o : ℕ

-- `pooled` is what the pool's buffer holds.
unfoldable pub new_packet : List ℕ → ℕ → ℕ → Result Packet
new_packet pooled signature size =
    if leb size max_uint8
    then (do
      b ← put (obtain_unsafe pooled (size + 2)) 0 (bit_or signature packet_size_uint8_bits)
      b ← put b 1 (size % 2 ^ 8)
      ok (record { b = b; o = 2 }))
    else if leb size max_uint16
    then (do
      b ← put (obtain_unsafe pooled (size + 3)) 0 (bit_or signature packet_size_uint16_bits)
      (b, _) ← WriteBytes.uint16 b 1 (size % 2 ^ 16)
      ok (record { b = b; o = 3 }))
    else if leb size max_uint24
    then (do
      b ← put (obtain_unsafe pooled (size + 4)) 0 (bit_or signature packet_size_uint24_bits)
      (b, _) ← WriteBytes.uint24 b 1 (size % 2 ^ 32)
      ok (record { b = b; o = 4 }))
    else (do
      b ← put (obtain_unsafe pooled (size + 5)) 0 (bit_or signature packet_size_uint32_bits)
      (b, _) ← WriteBytes.uint32 b 1 (size % 2 ^ 32)
      ok (record { b = b; o = 5 }))

-- Every writing method replaces the offset, and the buffer's bytes.
abbrev written : Result (List ℕ × ℕ) → Result Packet
written r = do (b, o) ← r; ok (record { b = b; o = o })

unfoldable pub uint8 : Packet → ℕ → Result Packet
uint8 p value = written (WriteBytes.uint8 p.b p.o value)

unfoldable pub uint16 : Packet → ℕ → Result Packet
uint16 p value = written (WriteBytes.uint16 p.b p.o value)

unfoldable pub uint24 : Packet → ℕ → Result Packet
uint24 p value = written (WriteBytes.uint24 p.b p.o value)

unfoldable pub uint32 : Packet → ℕ → Result Packet
uint32 p value = written (WriteBytes.uint32 p.b p.o value)

unfoldable pub uint48 : Packet → ℕ → Result Packet
uint48 p value = written (WriteBytes.uint48 p.b p.o value)

unfoldable pub uint : Packet → ℕ → ℕ → Result Packet
uint p value bytes_length = written (WriteBytes.uint p.b p.o value bytes_length)

unfoldable pub string : Packet → List ℕ → Result Packet
string p value = written (WriteBytes.string p.b p.o value)

unfoldable pub bytes : Packet → List ℕ → Result Packet
bytes p value = written (WriteBytes.bytes p.b p.o value)

unfoldable pub uuid : Packet → List ℕ → Result Packet
uuid p value = written (WriteBytes.uuid p.b p.o value)

-- Every byte has been written.
unfoldable pub valid : Packet → Bool
valid p = length p.b == p.o

unfoldable pub get_bytes : Packet → List ℕ
get_bytes p = p.b
