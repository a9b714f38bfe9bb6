-- ===== src/Parser/Sizes.antt =====
-- parser.go, getPacketSize: over a stream that has the size, it is read at the width of the signature.
use sockety_go.Common.{
  ℕ, ◌%◌, ◌^◌, ◌<◌, ◌≡◌, refl, ap, ◌∙◌, bit_and, List, ◌∷◌, ◌++◌, arith, Option, Outcome, returned,
}
use sockety_go.Constants.{
  packet_size_bitmask, packet_size_uint8_bits, packet_size_uint16_bits, packet_size_uint24_bits,
}
use sockety_go.ByteUtils.Positions.{le}
use sockety_go.Reader.{BufferedReader, IsStream}
use sockety_go.StreamReader.Complete.{IsAtRest, get_uint8-Yields, get_uint16-Gets, get_uint24-Gets}
use sockety_go.Parser.{Parser, get_packet_size}

module _ {S : Type 0} (r : BufferedReader S) (Good : S → Type 0) (content : S → List ℕ)
    (stream : IsStream r Good content) (from_bytes : List ℕ → Option (List ℕ)) where
  -- A parser that has read up to `left`, with its readers of sizes at rest.
  pub record IsReading (left : List ℕ) (p : Parser S) : Type 0 where
    pub size16_rests : IsAtRest 2 p.packets_size16
    pub size24_rests : IsAtRest 3 p.packets_size24
    pub good : Good p.reader
    pub has_left : content p.reader ≡ left

  -- `q` is `p`, further on in its reader.
  pub record Advanced (left : List ℕ) (p q : Parser S) : Type 0 where
    pub reading : IsReading left q
    pub same_count : q.channels_count ≡ p.channels_count
    pub same_current : q.current_channel ≡ p.current_channel
    pub same_channels : q.channels ≡ p.channels
    pub same_sub : q.sub_size ≡ p.sub_size

  abbrev pub Sizes : Outcome (Parser S) ℕ → ℕ → List ℕ → Parser S → Type 0
  Sizes out n left p = (q : Parser S) × (out ≡ returned n q) × Advanced left p q

  pub packet_size8 :
      (p : Parser S) (b n : ℕ) (tail : List ℕ)
      → bit_and b packet_size_bitmask ≡ packet_size_uint8_bits
      → n < 2 ^ 8
      → IsReading (le 1 n ++ tail) p
      → Sizes (get_packet_size r from_bytes b p) n tail p
  unfolding get_packet_size le
  packet_size8 p b n tail bits small a =
      let exact : n % 256 ≡ n = omega arith in
      let (s, got, left, good) =
        get_uint8-Yields r Good content stream p.reader n tail a.good
          (a.has_left ∙ ap (λ c. c ∷ tail) exact) in
      (
        record p { reader = s },
        rw (bits, got),
        record {
          reading = record {
            size16_rests = a.size16_rests;
            size24_rests = a.size24_rests;
            good = good;
            has_left = left;
          };
          same_count = refl;
          same_current = refl;
          same_channels = refl;
          same_sub = refl;
        },
      )

  pub packet_size16 :
      (p : Parser S) (b n : ℕ) (tail : List ℕ)
      → bit_and b packet_size_bitmask ≡ packet_size_uint16_bits
      → n < 2 ^ 16
      → IsReading (le 2 n ++ tail) p
      → Sizes (get_packet_size r from_bytes b p) n tail p
  unfolding get_packet_size
  packet_size16 p b n tail bits small a =
      let (u, s, got, q, left, good) =
        get_uint16-Gets r Good content stream p.packets_size16 p.reader n tail a.size16_rests a.good
          small a.has_left in
      (
        record p { packets_size16 = u; reader = s },
        rw (bits, got),
        record {
          reading = record {
            size16_rests = q;
            size24_rests = a.size24_rests;
            good = good;
            has_left = left;
          };
          same_count = refl;
          same_current = refl;
          same_channels = refl;
          same_sub = refl;
        },
      )

  pub packet_size24 :
      (p : Parser S) (b n : ℕ) (tail : List ℕ)
      → bit_and b packet_size_bitmask ≡ packet_size_uint24_bits
      → n < 2 ^ 24
      → IsReading (le 3 n ++ tail) p
      → Sizes (get_packet_size r from_bytes b p) n tail p
  unfolding get_packet_size
  packet_size24 p b n tail bits small a =
      let (u, s, got, q, left, good) =
        get_uint24-Gets r Good content stream p.packets_size24 p.reader n tail a.size24_rests a.good
          small a.has_left in
      (
        record p { packets_size24 = u; reader = s },
        rw (bits, got),
        record {
          reading = record {
            size16_rests = a.size16_rests;
            size24_rests = q;
            good = good;
            has_left = left;
          };
          same_count = refl;
          same_current = refl;
          same_channels = refl;
          same_sub = refl;
        },
      )
