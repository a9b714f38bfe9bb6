-- ===== src/Parser/Signature.antt =====
-- The signature byte of a Message packet, as the parser takes it apart.
use sockety_go.Common.{
  Bool-cases, le→leb, ℕ, ◌<◌, ◌≡◌, inl, inr, refl, bit_and, bit_or, Bool, true, false, arith, List,
  ◌∷◌, leb, ◌==◌, ◌^◌,
}
use sockety_go.Constants.{
  packet_bitmask, packet_message_bits, packet_size_bitmask, packet_size_uint8_bits,
  packet_size_uint16_bits, packet_size_uint24_bits, expects_response_bits, has_stream_bits,
}
use sockety_go.MessageDraft.{message_signature}
use sockety_go.Packet.Header.{packet_header}
use sockety_go.ByteUtils.Positions.{le}

-- The signature byte `b` spells a message with these flags and this width of its size.
pub record Spells (expects_response has_stream : Bool) (size_bits b : ℕ) : Type 0 where
  pub code : bit_and b packet_bitmask ≡ packet_message_bits
  pub width : bit_and b packet_size_bitmask ≡ size_bits
  pub expects : (bit_and b expects_response_bits == expects_response_bits) ≡ expects_response
  pub streams : (bit_and b has_stream_bits == has_stream_bits) ≡ has_stream

message8-Spells :
    (e h : Bool)
    → Spells e h packet_size_uint8_bits (bit_or (message_signature e h) packet_size_uint8_bits)
unfolding message_signature
message8-Spells true true = record { code = refl; width = refl; expects = refl; streams = refl }
message8-Spells true false = record { code = refl; width = refl; expects = refl; streams = refl }
message8-Spells false true = record { code = refl; width = refl; expects = refl; streams = refl }
message8-Spells false false = record { code = refl; width = refl; expects = refl; streams = refl }

message16-Spells :
    (e h : Bool)
    → Spells e h packet_size_uint16_bits (bit_or (message_signature e h) packet_size_uint16_bits)
unfolding message_signature
message16-Spells true true = record { code = refl; width = refl; expects = refl; streams = refl }
message16-Spells true false = record { code = refl; width = refl; expects = refl; streams = refl }
message16-Spells false true = record { code = refl; width = refl; expects = refl; streams = refl }
message16-Spells false false = record { code = refl; width = refl; expects = refl; streams = refl }

message24-Spells :
    (e h : Bool)
    → Spells e h packet_size_uint24_bits (bit_or (message_signature e h) packet_size_uint24_bits)
unfolding message_signature
message24-Spells true true = record { code = refl; width = refl; expects = refl; streams = refl }
message24-Spells true false = record { code = refl; width = refl; expects = refl; streams = refl }
message24-Spells false true = record { code = refl; width = refl; expects = refl; streams = refl }
message24-Spells false false = record { code = refl; width = refl; expects = refl; streams = refl }

-- The size in the header has one of three widths, which the signature names.
pub data SizedHeader (e h : Bool) (n : ℕ) (header : List ℕ) : Type 0 where
  wide8 :
      (b : ℕ)
      → Spells e h packet_size_uint8_bits b
      → n < 2 ^ 8
      → header ≡ b ∷ le 1 n
      → SizedHeader e h n header
  wide16 :
      (b : ℕ)
      → Spells e h packet_size_uint16_bits b
      → n < 2 ^ 16
      → header ≡ b ∷ le 2 n
      → SizedHeader e h n header
  wide24 :
      (b : ℕ)
      → Spells e h packet_size_uint24_bits b
      → n < 2 ^ 24
      → header ≡ b ∷ le 3 n
      → SizedHeader e h n header

pub message-SizedHeader :
    (e h : Bool) (n : ℕ) → n < 2 ^ 24 → SizedHeader e h n (packet_header (message_signature e h) n)
unfolding packet_header
message-SizedHeader e h n small = elim (Bool-cases (leb n 255)) [
  | inl e8 ↦ wide8 _ (message8-Spells e h) (ground arith) (rw e8)
  | inr n8 ↦ elim (Bool-cases (leb n 65535)) [
    | inl e16 ↦ wide16 _ (message16-Spells e h) (ground arith) (rw (n8, e16))
    | inr n16 ↦
        let e24 : leb n 16777215 ≡ true = le→leb n 16777215 (omega arith) in
        wide24 _ (message24-Spells e h) small (rw (n8, n16, e24))
  ]
]
