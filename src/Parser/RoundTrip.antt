-- ===== src/Parser/RoundTrip.antt =====
-- parser.go, `Read`, on what conn.go writes for a message: the switch to its channel, then its packet.
use sockety_go.Common.{
  ℕ, suc, ◌/◌, ◌^◌, bit_or, bit_and, Bool-cases, leb, inl, inr, ◌<◌, ◌≡◌, refl, sym, ap, subst, ◌∙◌,
  Bool, List, [], ◌∷◌, ◌++◌, append_assoc, arith, Option, some, length, returned, Result, ok, err,
  panic, append-nil,
}
use sockety_go.MessageDraft.{MessageDraft, message_packet, message_signature}
use sockety_go.MessageDraft.Layout.{IsSendable, message_body, message_packet_lem, sent_size_lem}
use sockety_go.Packet.{Packet, get_bytes}
use sockety_go.Packet.Header.{packet_header}
use sockety_go.ByteUtils.{byte}
use sockety_go.Constants.{packet_channel_low_bits, packet_channel_high_bits}
use sockety_go.ProtocolUtils.{create_switch_channel_packet}
use sockety_go.Reader.{BufferedReader, IsStream}
use sockety_go.Parser.{Parser, read_loop, read}
use sockety_go.Parser.Signature.{message-SizedHeader}
use sockety_go.Parser.Sizes.{IsReading}
use sockety_go.Parser.Switch.{channel_of, read_loop-create_switch_channel_packet}
use sockety_go.Parser.Messages.{IsFree, HasRead, drafted_message, read_loop-message}

abbrev bytes_of : Result Packet → List ℕ
bytes_of (ok p) = get_bytes p
bytes_of (err e) = []
bytes_of (panic x) = []

-- The bytes of a message's packet.
pub packet_bytes :
    (d : MessageDraft) (id : List ℕ) (e : Bool) (packet : Packet)
    → IsSendable d id
    → message_packet [] d id e ≡ ok packet
    → get_bytes packet
      ≡ packet_header (message_signature e d.has_stream) (length (message_body d id))
        ++ message_body d id
unfolding get_bytes
packet_bytes d id e packet sendable built =
    let (size, small) = sent_size_lem d id e sendable in
    rw size at
      (sym (ap bytes_of built) ∙ ap bytes_of (message_packet_lem d id e sendable) ∙ append-nil _)

module _ {S : Type 0} (r : BufferedReader S) (Good : S → Type 0) (content : S → List ℕ)
    (stream : IsStream r Good content) (from_bytes : List ℕ → Option (List ℕ))
    (documented : (bs : List ℕ) → length bs ≡ 16 → from_bytes bs ≡ some bs) where
  -- `Read` on a stream with some byte, between two packets, is its loop.
  pub read-read_loop :
      (rounds b : ℕ) (left : List ℕ) (p : Parser S)
      → p.sub_size ≡ 0
      → IsReading r Good content stream from_bytes (b ∷ left) p
      → read r from_bytes rounds p ≡ read_loop r from_bytes rounds p
  unfolding read
  read-read_loop rounds b left p no_packet reading =
      rw (stream.has 1 p.reader reading.good (rw (reading.has_left) (omega arith)), no_packet) refl

  some_byte :
      (ch : ℕ) (left : List ℕ)
      → (b : ℕ) × (rest : List ℕ) × (create_switch_channel_packet ch ++ left ≡ b ∷ rest)
  unfolding create_switch_channel_packet
  some_byte ch left = elim (Bool-cases (leb ch 15)) [
    | inl low ↦ (bit_or packet_channel_low_bits (byte ch), left, rw low refl)
    | inr high ↦ (
      byte (bit_or packet_channel_high_bits (ch / 2 ^ 8)),
      byte (bit_and ch 0x00ff) ∷ left,
      rw high refl,
    )
  ]

  -- Between two packets, a parser over a stream that holds the channel switch and the packet that
  -- `send` writes for a sendable draft returns this draft's message: its identifier, action and
  -- flags, with a data reader where it has data and a stream reader where it has a stream. The channel has to be
  -- one of the parser's, and free. The stream is left behind the packet. The channel is free again where the
  -- draft has neither data nor a stream; else it holds the message, empty data of the announced size, if there
  -- is some, and the stream, and its message reader is idle. The other channels are as they were.
  pub read-message_packet :
      (rounds : ℕ) (d : MessageDraft) (id : List ℕ) (e : Bool) (packet : Packet) (ch : ℕ)
      (p : Parser S) (tail : List ℕ)
      → IsSendable d id
      → message_packet [] d id e ≡ ok packet
      → ch < 4096
      → ch < p.channels_count
      → p.sub_size ≡ 0
      → IsFree (channel_of (p.channels ch))
      → IsReading r Good content stream from_bytes
          (create_switch_channel_packet ch ++ (get_bytes packet ++ tail))
          p
      → (q : Parser S) × (read r from_bytes (suc (suc rounds)) p
          ≡ returned (some (drafted_message d id e)) q)
        × HasRead r Good content stream from_bytes documented ch
            (channel_of (p.channels ch))
            (length d.content)
            (drafted_message d id e)
            tail
            p
            q
  read-message_packet rounds d id e packet ch p tail sendable built small allowed no_packet free
        reading =
      let body = message_body d id in
      let header = packet_header (message_signature e d.has_stream) (length body) in
      let (size, fits) = sent_size_lem d id e sendable in
      let spelled : get_bytes packet ++ tail ≡ header ++ (body ++ tail) =
        ap (λ l. l ++ tail) (packet_bytes d id e packet sendable built)
        ∙ append_assoc header body tail in
      let (first, rest, begins) = some_byte ch (get_bytes packet ++ tail) in
      let begun : IsReading r Good content stream from_bytes (first ∷ rest) p =
        subst (λ l. IsReading r Good content stream from_bytes l p) begins reading in
      let (q, switched, turned) =
        read_loop-create_switch_channel_packet r Good content stream from_bytes documented
          (suc rounds) ch p (header ++ (body ++ tail)) small allowed no_packet
          (subst
            (λ l.
              IsReading r Good content stream from_bytes (create_switch_channel_packet ch ++ l) p)
            spelled reading) in
      let (t, done, h) =
        read_loop-message r Good content stream from_bytes documented rounds d id header e ch
          (channel_of (p.channels ch)) q tail sendable
          (message-SizedHeader e d.has_stream (length body) (rw size at fits)) free
          turned.between in
      (
        t,
        read-read_loop (suc (suc rounds)) first rest p no_packet begun ∙ switched ∙ done,
        record {
          reader = h.reader;
          between = h.between;
          restarted = h.restarted;
          reader_idle = h.reader_idle;
          same_count = h.same_count ∙ turned.same_count;
          others = λ j ne. h.others j ne ∙ turned.others j ne;
        },
      )
