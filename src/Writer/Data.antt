-- ===== src/Writer/Data.antt =====
-- writer.go, WriteExternalWithSignatureAtChannel, and parser.go: the parser reads the data packet that the
-- writer has written.
use sockety_go.Common.{
  ℕ, suc, ◌+◌, ◌/◌, ◌^◌, ◌≤◌, ◌<◌, ◌≡◌, refl, ap, subst, ◌∙◌, bit_and, bit_or, List, ◌∷◌, ◌++◌,
  arith, Option, none, some, le→leb, lt→leb, length, length-append, returned, after,
}
use native.Mathlib.Decide.{dec_lt}
use sockety_go.ByteUtils.{byte}
use sockety_go.ByteUtils.Positions.{le}
use sockety_go.Constants.{
  packet_bitmask, packet_data_bits, packet_size_uint8_bits, packet_size_uint16_bits,
  packet_size_uint24_bits,
}
use sockety_go.MessageData.{MessageData}
use sockety_go.MessageData.Queue.{IsSound}
use sockety_go.ParserChannel.{ParserChannel}
use sockety_go.Reader.{BufferedReader, IsStream}
use sockety_go.Parser.{
  Parser, get_packet_size, read_data, read_packet, read_loop, read, sub_data, sub_parser_mode_data,
}
use sockety_go.Parser.Data.{InData, sub_data-Took}
use sockety_go.Parser.DataCalls.{Finished, read_on, after_call, read_on-Finished}
use sockety_go.Parser.Messages.{IsBetween}
use sockety_go.Parser.RoundTrip.{read-read_loop}
use sockety_go.Parser.Sizes.{IsReading, Sizes, packet_size8, packet_size16, packet_size24}
use sockety_go.Writer.{external_header}

-- The header of an external data packet has one of three widths, which its signature names.
data DataHeader (n : ℕ) (header : List ℕ) : Type 0 where
  wide8 :
      n < 2 ^ 8
      → header ≡ bit_or packet_data_bits packet_size_uint8_bits ∷ le 1 n
      → DataHeader n header
  wide16 :
      n < 2 ^ 16
      → header ≡ bit_or packet_data_bits packet_size_uint16_bits ∷ le 2 n
      → DataHeader n header
  wide24 :
      n < 2 ^ 24
      → header ≡ bit_or packet_data_bits packet_size_uint24_bits ∷ le 3 n
      → DataHeader n header

byte_2 : (n : ℕ) → byte (n / 256 / 256) ≡ byte (n / 2 ^ 16)
byte_2 n = omega arith

external-DataHeader : (n : ℕ) → n < 2 ^ 24 → DataHeader n (external_header packet_data_bits n)
unfolding external_header le
external-DataHeader n small = elim (dec_lt 255 n) [
  | no few ↦ wide8 (omega arith) (rw (le→leb n 255 (omega arith)) refl)
  | yes n8 ↦ elim (dec_lt 65535 n) [
    | no few ↦ wide16 (omega arith) (rw (lt→leb n 255 n8, le→leb n 65535 (omega arith)) refl)
    | yes n16 ↦ wide24 small (
        rw (lt→leb n 255 n8, lt→leb n 65535 n16, le→leb n 16777215 (omega arith))
          (rw (byte_2 n) refl))
  ]
]

module _ {S : Type 0} (r : BufferedReader S) (Good : S → Type 0) (content : S → List ℕ)
    (stream : IsStream r Good content) (from_bytes : List ℕ → Option (List ℕ))
    (documented : (bs : List ℕ) → length bs ≡ 16 → from_bytes bs ≡ some bs) where
  data_round :
      (rounds b : ℕ) (p : Parser S) (s : S)
      → r.read_byte p.reader ≡ returned b s
      → bit_and b packet_bitmask ≡ packet_data_bits
      → read_loop r from_bytes (suc rounds) p ≡ read_data r from_bytes b (record p { reader = s })
  unfolding read_loop read_packet
  data_round rounds b p s got code = rw (got, code) refl

  sized_data :
      (b n : ℕ) (p q : Parser S)
      → get_packet_size r from_bytes b p ≡ returned n q
      → read_data r from_bytes b p
        ≡ sub_data r from_bytes (record q { sub_mode = sub_parser_mode_data; sub_size = n })
  unfolding read_data
  sized_data b n p q sized = rw sized refl

  -- A data packet of the current channel: what the first call and the calls after it leave behind.
  sized-Finished :
      (calls rounds ch b k : ℕ) (c : ParserChannel) (d : MessageData) (bytes tail : List ℕ)
      (p : Parser S)
      → bit_and b packet_bitmask ≡ packet_data_bits
      → IsBetween r Good content stream from_bytes documented ch c
          (b ∷ (le k (length bytes) ++ (bytes ++ tail)))
          p
      → c.content ≡ some d
      → IsSound d
      → d.wrote < d.size
      → d.wrote + length bytes ≤ d.size
      → length bytes < calls
      → ((q : Parser S)
          → IsReading r Good content stream from_bytes (le k (length bytes) ++ (bytes ++ tail)) q
          → Sizes r Good content stream from_bytes
              (get_packet_size r from_bytes b q)
              (length bytes)
              (bytes ++ tail)
              q)
      → (u : Parser S) × (after
            (read r from_bytes (suc rounds) p)
            (λ _ q. read_on r Good content stream from_bytes calls (suc rounds) q)
          ≡ returned tt u)
        × Finished r Good content stream from_bytes ch c d bytes tail p u
  sized-Finished calls rounds ch b k c d bytes tail p code between holds sound missing fits fuel
        sizes =
      let (s, got, left, good) =
        stream.serves_byte p.reader b _ between.reading.good between.reading.has_left in
      let p1 : Parser S = record p { reader = s } in
      let (q, sized, adv) = sizes p1 (record {
        size16_rests = between.reading.size16_rests;
        size24_rests = between.reading.size24_rests;
        good = good;
        has_left = left;
      }) in
      let p2 : Parser S = record q { sub_mode = sub_parser_mode_data; sub_size = length bytes } in
      let inside : InData r Good content stream from_bytes ch c d bytes tail p2 = record {
        on_channel_id = adv.same_current ∙ between.on_channel_id;
        channel_is = ap (λ f. f ch) adv.same_channels ∙ between.channel_is;
        holds = holds;
        sound = sound;
        missing = missing;
        fits = fits;
        size_is = refl;
        reading = record {
          size16_rests = adv.reading.size16_rests;
          size24_rests = adv.reading.size24_rests;
          good = adv.reading.good;
          has_left = adv.reading.has_left;
        };
      } in
      let (v, done, t, took) =
        sub_data-Took r Good content stream from_bytes ch c d bytes tail p2 inside in
      let first : read r from_bytes (suc rounds) p ≡ returned none v =
        read-read_loop r Good content stream from_bytes documented (suc rounds) b _ p
          between.no_packet between.reading
        ∙ data_round rounds b p s got code
        ∙ sized_data b (length bytes) p1 q sized
        ∙ done in
      let (u, rest_done, f) =
        after_call r Good content stream from_bytes calls (suc rounds) ch c d bytes tail p2 v inside
          t
          (λ c' d' h more.
            read_on-Finished r Good content stream from_bytes calls (suc rounds) ch c' d' t.rest
              tail v h t.same_mode more
              (omega (arith, ap length t.split, length-append t.taken t.rest)))
          (omega arith) in
      (
        u,
        rw first rest_done,
        record {
          now = f.now;
          grown = f.grown;
          on_channel_id = f.on_channel_id;
          channel_is = f.channel_is;
          no_packet = f.no_packet;
          reading = f.reading;
          same_count = f.same_count ∙ adv.same_count;
          others = λ j ne. f.others j ne ∙ ap (λ g. g j) adv.same_channels;
        },
      )

  -- A parser between two packets, whose current channel waits for data, over a stream that begins with the
  -- header that WriteExternalWithSignatureAtChannel writes for a data packet, and with its bytes: if
  -- these are below 2 ^ 24 in number and no more than is missing of the data, then the calls of `Read`
  -- up to the end of the packet, at most one for each byte and one more, report nothing and put exactly
  -- these bytes into the data, in order. The parser is behind the packet then; its channel is free if
  -- the data is complete and no stream is open, and the other channels are as they were.
  pub read_on-external_header :
      (calls rounds ch : ℕ) (c : ParserChannel) (d : MessageData) (bytes tail : List ℕ)
      (p : Parser S)
      → length bytes < 2 ^ 24
      → IsBetween r Good content stream from_bytes documented ch c
          (external_header packet_data_bits (length bytes) ++ (bytes ++ tail))
          p
      → c.content ≡ some d
      → IsSound d
      → d.wrote < d.size
      → d.wrote + length bytes ≤ d.size
      → length bytes < calls
      → (u : Parser S) × (after
            (read r from_bytes (suc rounds) p)
            (λ _ q. read_on r Good content stream from_bytes calls (suc rounds) q)
          ≡ returned tt u)
        × Finished r Good content stream from_bytes ch c d bytes tail p u
  read_on-external_header calls rounds ch c d bytes tail p small between holds sound missing fits
        fuel =
      go (external_header packet_data_bits (length bytes))
        (external-DataHeader (length bytes) small) between
    where
      go :
          (header : List ℕ)
          → DataHeader (length bytes) header
          → IsBetween r Good content stream from_bytes documented ch c (header ++ (bytes ++ tail)) p
          → (u : Parser S) × (after
                (read r from_bytes (suc rounds) p)
                (λ _ q. read_on r Good content stream from_bytes calls (suc rounds) q)
              ≡ returned tt u)
            × Finished r Good content stream from_bytes ch c d bytes tail p u
      go header (wide8 few e) at =
          sized-Finished calls rounds ch _ 1 c d bytes tail p refl
            (subst
              (λ l.
                IsBetween r Good content stream from_bytes documented ch c (l ++ (bytes ++ tail)) p)
              e at)
            holds sound missing fits fuel
            (λ q a. packet_size8 r Good content stream from_bytes q _ _ _ refl few a)
      go header (wide16 few e) at =
          sized-Finished calls rounds ch _ 2 c d bytes tail p refl
            (subst
              (λ l.
                IsBetween r Good content stream from_bytes documented ch c (l ++ (bytes ++ tail)) p)
              e at)
            holds sound missing fits fuel
            (λ q a. packet_size16 r Good content stream from_bytes q _ _ _ refl few a)
      go header (wide24 few e) at =
          sized-Finished calls rounds ch _ 3 c d bytes tail p refl
            (subst
              (λ l.
                IsBetween r Good content stream from_bytes documented ch c (l ++ (bytes ++ tail)) p)
              e at)
            holds sound missing fits fuel
            (λ q a. packet_size24 r Good content stream from_bytes q _ _ _ refl few a)
