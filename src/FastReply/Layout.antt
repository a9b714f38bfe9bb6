-- ===== src/FastReply/Layout.antt =====
-- fast_reply.go: how the packet of a fast reply is filled.
use sockety_go.Common.{
  ◌/◌, ◌^◌, ◌≤◌, ◌<◌, ◌≡◌, arith, bit_or, bit_and, [], ◌∷◌, ◌++◌, le→leb, lt→leb, length, ok,
}
use sockety_go.Constants.{packet_fast_reply_low_bits, packet_fast_reply_high_bits}
use sockety_go.ByteUtils.{byte}
use sockety_go.BufferPool.{zeros}
use sockety_go.Packet.Filling.{filled, uuid-filled, uint8-filled}
use sockety_go.Packet.Header.{packet_header, new_packet-filled}
use sockety_go.FastReply.{FastReply, reply_packet}

-- For a code up to 15 the packet announces 17 bytes, and has the sixteen of the identifier: its last
-- byte stays free.
pub reply_packet_low :
    (f : FastReply)
    → f.code ≤ 15
    → length f.id ≡ 16
    → reply_packet [] f
      ≡ ok (
          filled
            (packet_header (bit_or packet_fast_reply_low_bits (byte f.code)) 17 ++ f.id)
            (0 ∷ []))
unfolding reply_packet
reply_packet_low f small sized =
    rw
      (
        le→leb f.code 4095 (omega arith),
        le→leb f.code 15 small,
        new_packet-filled (bit_or packet_fast_reply_low_bits (byte f.code)) 17 (omega arith),
      )
      (uuid-filled (packet_header (bit_or packet_fast_reply_low_bits (byte f.code)) 17) f.id
        (zeros 17) sized (omega arith))

-- For a code from 16 to 4095 the packet announces 18 bytes, and has the low byte of the code and the
-- identifier: its last byte stays free.
pub reply_packet_high :
    (f : FastReply)
    → 15 < f.code
    → f.code ≤ 4095
    → length f.id ≡ 16
    → reply_packet [] f
      ≡ ok (
          filled
            ((packet_header (bit_or packet_fast_reply_high_bits (byte (f.code / 2 ^ 8))) 18
                ++ (byte (bit_and f.code 0x00ff) ∷ []))
              ++ f.id)
            (0 ∷ []))
unfolding reply_packet
reply_packet_high f large small sized =
    let header = packet_header (bit_or packet_fast_reply_high_bits (byte (f.code / 2 ^ 8))) 18 in
    let low = byte (bit_and f.code 0x00ff) in
    rw
      (
        le→leb f.code 4095 small,
        lt→leb f.code 15 large,
        new_packet-filled (bit_or packet_fast_reply_high_bits (byte (f.code / 2 ^ 8))) 18
            (omega arith),
        uint8-filled header low (zeros 18) (omega arith),
      )
      (uuid-filled (header ++ (low ∷ [])) f.id (zeros 17) sized (omega arith))
