-- ===== src/Parser/Switch.antt =====
-- protocol_utils.go, createSwitchChannelPacket, and how parser.go reads it.
use sockety_go.Common.{
  ℕ, suc, ◌/◌, ◌^◌, ◌<◌, ◌≡◌, ◌≢◌, refl, subst, bit_and, bit_or, Bool, true, false, List, [], ◌∷◌,
  ◌++◌, arith, Option, none, some, ◌==◌, ==_iff, ne→==, lt→leb, leb, inl, inr, Bool-cases, length,
  Outcome, returned, ◌&&◌,
}
use sockety_go.Common.Bits.{in_row, in_row_holds}
use sockety_go.Constants.{packet_bitmask, packet_channel_low_bits, packet_channel_high_bits}
use sockety_go.ByteUtils.{byte, shl}
use sockety_go.ProtocolUtils.{create_switch_channel_packet}
use sockety_go.Reader.{BufferedReader, IsStream}
use sockety_go.ParserChannel.{ParserChannel, new_parser_channel}
use sockety_go.Parser.{Parser, update, channel, switch_low, switch_high, read_loop}
use sockety_go.Parser.Sizes.{IsReading}
use sockety_go.Parser.Messages.{IsBetween}

-- The two bytes of a switch to a channel above 15.
abbrev high_first : ℕ → ℕ
high_first ch = byte (bit_or packet_channel_high_bits (ch / 2 ^ 8))

abbrev high_second : ℕ → ℕ
high_second ch = byte (bit_and ch 0x00ff)

low_table :
    in_row
      (λ ch.
        (bit_and (bit_or packet_channel_low_bits (byte ch)) packet_bitmask
          == packet_channel_low_bits)
        && (bit_and (bit_or packet_channel_low_bits (byte ch)) 0b00001111 == ch))
      0
      16
    ≡ true
unfolding in_row
low_table = refl

high_table :
    in_row
      (λ ch.
        (bit_and (high_first ch) packet_bitmask == packet_channel_high_bits)
        && (bit_or (shl 16 (bit_and (high_first ch) 0b00001111) 8) (high_second ch) == ch))
      0
      4096
    ≡ true
unfolding in_row
high_table = refl

both : (a b : Bool) → (a && b) ≡ true → (a ≡ true) × (b ≡ true)
both true true h = (refl, refl)
both true false h = cc
both false b h = cc

low_byte :
    (ch : ℕ)
    → ch < 16
    → (bit_and (bit_or packet_channel_low_bits (byte ch)) packet_bitmask ≡ packet_channel_low_bits)
      × (bit_and (bit_or packet_channel_low_bits (byte ch)) 0b00001111 ≡ ch)
low_byte ch h =
    let (code, id) = both _ _ (in_row_holds _ 0 16 ch low_table (omega arith) (omega arith)) in
    ((==_iff _ _).0 code, (==_iff _ _).0 id)

high_bytes :
    (ch : ℕ)
    → ch < 4096
    → (bit_and (high_first ch) packet_bitmask ≡ packet_channel_high_bits)
      × (bit_or (shl 16 (bit_and (high_first ch) 0b00001111) 8) (high_second ch) ≡ ch)
high_bytes ch h =
    let (code, id) = both _ _ (in_row_holds _ 0 4096 ch high_table (omega arith) (omega arith)) in
    ((==_iff _ _).0 code, (==_iff _ _).0 id)

-- The channel that a parser turns to: the one that it has, or a new one.
abbrev pub channel_of : Option ParserChannel → ParserChannel
channel_of none = new_parser_channel
channel_of (some c) = c

same : (n : ℕ) → (n == n) ≡ true
same n = (==_iff n n).1 refl

module _ {S : Type 0} (r : BufferedReader S) (Good : S → Type 0) (content : S → List ℕ)
    (stream : IsStream r Good content) (from_bytes : List ℕ → Option (List ℕ))
    (documented : (bs : List ℕ) → length bs ≡ 16 → from_bytes bs ≡ some bs) where
  -- The parser has turned to channel `ch`, and has changed nothing else but its reader: a channel that
  -- was not there before is a new one.
  pub record Turned (ch : ℕ) (left : List ℕ) (p q : Parser S) : Type 0 where
    pub between :
        IsBetween r Good content stream from_bytes documented ch (channel_of (p.channels ch)) left q
    pub same_count : q.channels_count ≡ p.channels_count
    pub others : (j : ℕ) → j ≢ ch → q.channels j ≡ p.channels j
    pub same_sizes :
        (q.sub_mode ≡ p.sub_mode)
        × (q.sub_size ≡ p.sub_size)
        × (q.packets_size32 ≡ p.packets_size32)
        × (q.packets_size16 ≡ p.packets_size16)
        × (q.packets_size24 ≡ p.packets_size24)

  abbrev Turns : ℕ → List ℕ → Parser S → Outcome (Parser S) (Unit {0}) → Type 0
  Turns ch left p out = (q : Parser S) × (out ≡ returned tt q) × Turned ch left p q

  turn_to :
      (o : Option ParserChannel) (ch : ℕ) (p : Parser S) (left : List ℕ)
      → p.channels ch ≡ o
      → ch < p.channels_count
      → p.sub_size ≡ 0
      → IsReading r Good content stream from_bytes left p
      → Turns ch left p (channel ch p)
  unfolding channel
  turn_to none ch p left e allowed no_packet reading =
      let q : Parser S = record p {
        current_channel = some ch;
        channels = update p.channels ch new_parser_channel;
      } in
      (
        q,
        rw (lt→leb p.channels_count ch allowed, e) refl,
        record {
          between = record {
            on_channel_id = refl;
            channel_is = rw (same ch, e) refl;
            no_packet = no_packet;
            reading = record {
              size16_rests = reading.size16_rests;
              size24_rests = reading.size24_rests;
              good = reading.good;
              has_left = reading.has_left;
            };
          };
          same_count = refl;
          others = λ j ne. rw (ne→== j ch ne) refl;
          same_sizes = (refl, refl, refl, refl, refl);
        },
      )
  turn_to (some c) ch p left e allowed no_packet reading =
      let q : Parser S = record p { current_channel = some ch } in
      (
        q,
        rw (lt→leb p.channels_count ch allowed, e) refl,
        record {
          between = record {
            on_channel_id = refl;
            channel_is = rw e refl;
            no_packet = no_packet;
            reading = record {
              size16_rests = reading.size16_rests;
              size24_rests = reading.size24_rests;
              good = reading.good;
              has_left = reading.has_left;
            };
          };
          same_count = refl;
          others = λ j ne. refl;
          same_sizes = (refl, refl, refl, refl, refl);
        },
      )

  channel-Turned :
      (ch : ℕ) (p : Parser S) (left : List ℕ)
      → ch < p.channels_count
      → p.sub_size ≡ 0
      → IsReading r Good content stream from_bytes left p
      → Turns ch left p (channel ch p)
  channel-Turned ch p left = turn_to (p.channels ch) ch p left refl

  abbrev Switches : ℕ → ℕ → List ℕ → Parser S → Type 0
  Switches rounds ch left p =
      (q : Parser S) × (read_loop r from_bytes (suc rounds) p ≡ read_loop r from_bytes rounds q)
      × Turned ch left p q

  low_round :
      (rounds ch b : ℕ) (p q : Parser S) (s : S)
      → r.read_byte p.reader ≡ returned b s
      → bit_and b packet_bitmask ≡ packet_channel_low_bits
      → bit_and b 0b00001111 ≡ ch
      → channel ch (record p { reader = s }) ≡ returned tt q
      → read_loop r from_bytes (suc rounds) p ≡ read_loop r from_bytes rounds q
  unfolding read_loop switch_low
  low_round rounds ch b p q s got code id turned = rw (got, code, id, turned)

  high_round :
      (rounds ch b b2 : ℕ) (p q : Parser S) (s s2 : S)
      → r.read_byte p.reader ≡ returned b s
      → r.read_byte s ≡ returned b2 s2
      → bit_and b packet_bitmask ≡ packet_channel_high_bits
      → bit_or (shl 16 (bit_and b 0b00001111) 8) b2 ≡ ch
      → channel ch (record p { reader = s2 }) ≡ returned tt q
      → read_loop r from_bytes (suc rounds) p ≡ read_loop r from_bytes rounds q
  unfolding read_loop switch_high
  high_round rounds ch b b2 p q s s2 got got2 code id turned = rw (got, code, got2, id, turned)

  -- A parser that has served itself up to `left`, and is otherwise `p`.
  carried :
      {ch : ℕ} {left : List ℕ} {p q : Parser S} (s : S)
      → Turned ch left (record p { reader = s }) q
      → Turned ch left p q
  carried s t = record {
    between = t.between;
    same_count = t.same_count;
    others = t.others;
    same_sizes = t.same_sizes;
  }

  low_switch :
      (rounds ch : ℕ) (p : Parser S) (left : List ℕ)
      → ch < 16
      → ch < p.channels_count
      → p.sub_size ≡ 0
      → IsReading r Good content stream from_bytes
          (bit_or packet_channel_low_bits (byte ch) ∷ left)
          p
      → Switches rounds ch left p
  low_switch rounds ch p left small allowed no_packet reading =
      let (code, id) = low_byte ch small in
      let (s, got, rest, good) = stream.serves_byte p.reader _ left reading.good reading.has_left in
      let p1 : Parser S = record p { reader = s } in
      let (q, turned, t) = channel-Turned ch p1 left allowed no_packet (record {
        size16_rests = reading.size16_rests;
        size24_rests = reading.size24_rests;
        good = good;
        has_left = rest;
      }) in
      (q, low_round rounds ch _ p q s got code id turned, carried s t)

  high_switch :
      (rounds ch : ℕ) (p : Parser S) (left : List ℕ)
      → ch < 4096
      → ch < p.channels_count
      → p.sub_size ≡ 0
      → IsReading r Good content stream from_bytes (high_first ch ∷ (high_second ch ∷ left)) p
      → Switches rounds ch left p
  high_switch rounds ch p left small allowed no_packet reading =
      let (code, id) = high_bytes ch small in
      let (s, got, rest, good) =
        stream.serves_byte p.reader _ (high_second ch ∷ left) reading.good reading.has_left in
      let (s2, got2, rest2, good2) = stream.serves_byte s _ left good rest in
      let p1 : Parser S = record p { reader = s2 } in
      let (q, turned, t) = channel-Turned ch p1 left allowed no_packet (record {
        size16_rests = reading.size16_rests;
        size24_rests = reading.size24_rests;
        good = good2;
        has_left = rest2;
      }) in
      (q, high_round rounds ch _ _ p q s s2 got got2 code id turned, carried s2 t)

  -- The packet that createSwitchChannelPacket makes for a channel below 4096 that the parser has turns the parser,
  -- between two packets, to this channel in one round of its loop, and leaves the stream behind the packet. The
  -- channel is the one that was there, or a new one; the other channels, their number, the mode and the size of
  -- the packet begun, and the readers of sizes are unchanged.
  pub read_loop-create_switch_channel_packet :
      (rounds ch : ℕ) (p : Parser S) (left : List ℕ)
      → ch < 4096
      → ch < p.channels_count
      → p.sub_size ≡ 0
      → IsReading r Good content stream from_bytes (create_switch_channel_packet ch ++ left) p
      → (q : Parser S) × (read_loop r from_bytes (suc rounds) p ≡ read_loop r from_bytes rounds q)
        × Turned ch left p q
  unfolding create_switch_channel_packet
  read_loop-create_switch_channel_packet rounds ch p left small allowed no_packet reading =
      elim (Bool-cases (leb ch 15)) [
        | inl low ↦
            let packet : create_switch_channel_packet ch
                ≡ bit_or packet_channel_low_bits (byte ch) ∷ [] =
              rw low in
            let below : ch < 16 = ground arith in
            low_switch rounds ch p left below allowed no_packet
              (subst (λ l. IsReading r Good content stream from_bytes (l ++ left) p) packet reading)
        | inr high ↦
            let packet : create_switch_channel_packet ch ≡ high_first ch ∷ (high_second ch ∷ []) =
              rw high in
            high_switch rounds ch p left small allowed no_packet
              (subst (λ l. IsReading r Good content stream from_bytes (l ++ left) p) packet reading)
      ]
