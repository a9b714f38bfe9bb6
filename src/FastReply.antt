-- ===== src/FastReply.antt =====
-- fast_reply.go: the packet of a fast reply.
pub mod Layout
use sockety_go.Common.{
  ℕ, ◌/◌, ◌%◌, ◌^◌, bit_or, bit_and, List, leb, if◌then◌else◌, Error, fast_reply_code, Result, ok,
  err, ◌>>=◌,
}
use sockety_go.Constants.{
  max_uint4, max_uint12, packet_fast_reply_low_bits, packet_fast_reply_high_bits,
}
use sockety_go.ByteUtils.{byte}
use sockety_go.Packet
use sockety_go.Packet.{Packet, new_packet}

pub record FastReply : Type 0 where
  pub code : ℕ
  pub id : List ℕ

-- `pass`, up to the packet that it gives to WriteStandalone.
unfoldable pub reply_packet : List ℕ → FastReply → Result Packet
reply_packet pooled f =
    if leb f.code max_uint12
    then (if leb f.code max_uint4
        then (new_packet pooled (bit_or packet_fast_reply_low_bits (byte f.code)) 17 >>= λ p.
            Packet.uuid p f.id)
        else (new_packet pooled (bit_or packet_fast_reply_high_bits (byte (f.code / 2 ^ 8))) 18
            >>= λ p. Packet.uint8 p (byte (bit_and f.code 0x00ff)) >>= λ p. Packet.uuid p f.id))
    else err fast_reply_code
