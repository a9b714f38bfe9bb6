-- ===== src/Writer/Delivery.antt =====
-- writer.go and parser.go together: the parser reads what the writer has written.
use sockety_go.Common.{
  ℕ, suc, ◌<◌, ◌≡◌, refl, sym, ap, subst, ◌∙◌, Bool, List, [], ◌∷◌, ◌++◌, append_assoc, Option,
  some, ◌==◌, ==_iff, Bool-cases, inl, inr, length, drop, drop-append, Outcome, returned, M, ok,
}
use sockety_go.ChannelManager.{ChannelManager}
use sockety_go.MessageDraft.{MessageDraft, message_packet, message_signature}
use sockety_go.MessageDraft.Layout.{IsSendable, message_body, sent_size_lem}
use sockety_go.Packet.{Packet, get_bytes}
use sockety_go.Packet.Header.{packet_header}
use sockety_go.ParserChannel.{ParserChannel}
use sockety_go.ByteUtils.Positions.{le}
use sockety_go.Reader.{BufferedReader, IsStream}
use sockety_go.Parser.{Parser, read}
use sockety_go.Parser.Messages.{IsFree, HasRead, drafted_message, read_loop-message}
use sockety_go.Parser.RoundTrip.{packet_bytes, read-read_loop, read-message_packet}
use sockety_go.Parser.Signature.{SizedHeader, wide8, wide16, wide24, message-SizedHeader}
use sockety_go.Parser.Sizes.{IsReading}
use sockety_go.Parser.Switch.{channel_of}
use sockety_go.Writer.{Writer, write_at_channel, write_raw_at_channel}
use sockety_go.Writer.Output.{Accepts, switch_to, write_raw_at_channel-Wrote}

unfoldable pub state_of : {T A : Type 0} → T → Outcome T A → T
state_of t (returned a s) = s
state_of t _ = t

pub append-cancel : (front a b : List ℕ) → front ++ a ≡ front ++ b → a ≡ b
append-cancel front a b e =
    sym (drop-append front a (length front) refl)
    ∙ ap (drop (length front)) e
    ∙ drop-append front b (length front) refl

written :
    {T : Type 0} (write_to : List ℕ → M T (Unit {0})) (channel : ℕ) (packet : Packet)
    (w w' v : Writer T)
    → write_at_channel write_to channel packet w ≡ returned tt w'
    → write_raw_at_channel write_to channel (get_bytes packet) w ≡ returned tt v
    → w' ≡ v
unfolding write_at_channel state_of
written write_to channel packet w w' v wrote e = sym (ap (state_of w) wrote) ∙ ap (state_of w) e

-- What the writer has appended for a packet on a channel.
sent_bytes :
    {T : Type 0} (write_to : List ℕ → M T (Unit {0})) (output : T → List ℕ)
    → Accepts write_to output
    → (channel : ℕ) (packet : Packet) (w w' : Writer T) (sent : List ℕ)
    → write_at_channel write_to channel packet w ≡ returned tt w'
    → output w'.target ≡ output w.target ++ sent
    → sent ≡ switch_to w.channels channel ++ get_bytes packet
unfolding write_at_channel
sent_bytes write_to output a channel packet w w' sent wrote o =
    let (v, e, h) = write_raw_at_channel-Wrote write_to output a channel (get_bytes packet) w in
    let same = written write_to channel packet w w' v wrote e in
    append-cancel (output w.target) sent _
      (sym o ∙ ap (λ (x : Writer _). output x.target) same ∙ h.appended)

-- A header has a first byte.
header_begins :
    (e h : Bool) (n : ℕ) (header rest : List ℕ)
    → SizedHeader e h n header
    → (b : ℕ) × (left : List ℕ) × (header ++ rest ≡ b ∷ left)
header_begins e h n header rest (wide8 b sp small q) = (b, le 1 n ++ rest, ap (λ l. l ++ rest) q)
header_begins e h n header rest (wide16 b sp small q) = (b, le 2 n ++ rest, ap (λ l. l ++ rest) q)
header_begins e h n header rest (wide24 b sp small q) = (b, le 3 n ++ rest, ap (λ l. l ++ rest) q)

module _ {S : Type 0} (r : BufferedReader S) (Good : S → Type 0) (content : S → List ℕ)
    (stream : IsStream r Good content) (from_bytes : List ℕ → Option (List ℕ))
    (documented : (bs : List ℕ) → length bs ≡ 16 → from_bytes bs ≡ some bs) where
  abbrev pub ReadsDraft : ℕ → MessageDraft → List ℕ → Bool → ℕ → Parser S → List ℕ → Type 0
  ReadsDraft rounds d id e ch p tail =
      (q : Parser S) × (read r from_bytes (suc (suc rounds)) p
        ≡ returned (some (drafted_message d id e)) q)
      × HasRead r Good content stream from_bytes documented ch (channel_of (p.channels ch))
          (length d.content) (drafted_message d id e) tail p q

  -- On the current channel the packet comes without a switch.
  read-current :
      (rounds : ℕ) (d : MessageDraft) (id : List ℕ) (e : Bool) (packet : Packet) (ch : ℕ)
      (c : ParserChannel) (p : Parser S) (tail : List ℕ)
      → IsSendable d id
      → message_packet [] d id e ≡ ok packet
      → p.current_channel ≡ some ch
      → p.channels ch ≡ some c
      → p.sub_size ≡ 0
      → IsFree (channel_of (p.channels ch))
      → IsReading r Good content stream from_bytes (get_bytes packet ++ tail) p
      → ReadsDraft rounds d id e ch p tail
  read-current rounds d id e packet ch c p tail sendable built current there no_packet free
        reading =
      let body = message_body d id in
      let header = packet_header (message_signature e d.has_stream) (length body) in
      let (size, fits) = sent_size_lem d id e sendable in
      let sized = message-SizedHeader e d.has_stream (length body) (rw size at fits) in
      let spelled : get_bytes packet ++ tail ≡ header ++ (body ++ tail) =
        ap (λ l. l ++ tail) (packet_bytes d id e packet sendable built)
        ∙ append_assoc header body tail in
      let spelled_reading : IsReading r Good content stream from_bytes (header ++ (body ++ tail))
          p =
        subst (λ l. IsReading r Good content stream from_bytes l p) spelled reading in
      let (first, rest, begins) =
        header_begins e d.has_stream (length body) header (body ++ tail) sized in
      let begun : IsReading r Good content stream from_bytes (first ∷ rest) p =
        subst (λ l. IsReading r Good content stream from_bytes l p) begins spelled_reading in
      let (t, done, h) =
        read_loop-message r Good content stream from_bytes documented (suc rounds) d id header e ch
          (channel_of (p.channels ch)) p tail sendable sized free
          (record {
            on_channel_id = current;
            channel_is = there ∙ ap some (sym (ap channel_of there));
            no_packet = no_packet;
            reading = spelled_reading;
          }) in
      (
        t,
        read-read_loop r Good content stream from_bytes documented (suc (suc rounds)) first rest p
              no_packet begun
            ∙ done,
        h,
      )

  -- With the switch that the writer puts in front of a packet, or without one.
  pub read-switched :
      (rounds : ℕ) (d : MessageDraft) (id : List ℕ) (e : Bool) (packet : Packet) (ch : ℕ)
      (m : ChannelManager) (c : ParserChannel) (p : Parser S) (tail : List ℕ)
      → IsSendable d id
      → message_packet [] d id e ≡ ok packet
      → ch < 4096
      → ch < p.channels_count
      → p.current_channel ≡ some m.current
      → p.channels m.current ≡ some c
      → p.sub_size ≡ 0
      → IsFree (channel_of (p.channels ch))
      → IsReading r Good content stream from_bytes (switch_to m ch ++ (get_bytes packet ++ tail)) p
      → ReadsDraft rounds d id e ch p tail
  unfolding switch_to
  read-switched rounds d id e packet ch m c p tail sendable built small allowed current there
        no_packet free reading =
      elim (Bool-cases (m.current == ch)) [
        | inl on ↦
            let at : m.current ≡ ch = (==_iff _ _).0 on in
            read-current rounds d id e packet ch c p tail sendable built (current ∙ ap some at)
              (ap p.channels (sym at) ∙ there) no_packet free (rw on at reading)
        | inr off ↦
            read-message_packet r Good content stream from_bytes documented rounds d id e packet ch
              p tail sendable built small allowed no_packet free (rw off at reading)
      ]

  -- A parser between two packets whose current channel is the writer's, over a stream that begins with what
  -- WriteAtChannel has appended to an output without errors for the packet of a sendable draft, returns
  -- the message of the draft, with or without a switch in front of it. Afterwards the current channels
  -- of the two are the same again, and the stream is left behind the packet. The channel has to be one of
  -- the parser's, and free there.
  pub read-write_at_channel :
      {T : Type 0} (write_to : List ℕ → M T (Unit {0})) (output : T → List ℕ)
      → Accepts write_to output
      → (rounds : ℕ) (d : MessageDraft) (id : List ℕ) (e : Bool) (packet : Packet) (ch : ℕ)
        (w w' : Writer T) (c : ParserChannel) (p : Parser S) (sent tail : List ℕ)
      → IsSendable d id
      → message_packet [] d id e ≡ ok packet
      → write_at_channel write_to ch packet w ≡ returned tt w'
      → output w'.target ≡ output w.target ++ sent
      → ch < 4096
      → ch < p.channels_count
      → p.current_channel ≡ some w.channels.current
      → p.channels w.channels.current ≡ some c
      → p.sub_size ≡ 0
      → IsFree (channel_of (p.channels ch))
      → IsReading r Good content stream from_bytes (sent ++ tail) p
      → (q : Parser S) × (read r from_bytes (suc (suc rounds)) p
          ≡ returned (some (drafted_message d id e)) q)
        × HasRead r Good content stream from_bytes documented ch
            (channel_of (p.channels ch))
            (length d.content)
            (drafted_message d id e)
            tail
            p
            q
        × (q.current_channel ≡ some w'.channels.current)
  unfolding write_at_channel
  read-write_at_channel write_to output a rounds d id e packet ch w w' c p sent tail sendable built
        wrote o small allowed current there no_packet free reading =
      let exact = sent_bytes write_to output a ch packet w w' sent wrote o in
      let (v, step, h) = write_raw_at_channel-Wrote write_to output a ch (get_bytes packet) w in
      let now : w'.channels.current ≡ ch =
        ap (λ (x : Writer _). x.channels.current) (written write_to ch packet w w' v wrote step)
        ∙ h.now_current in
      let sends : IsReading r Good content stream from_bytes
          (switch_to w.channels ch ++ (get_bytes packet ++ tail)) p =
        subst (λ l. IsReading r Good content stream from_bytes l p)
          (ap (λ l. l ++ tail) exact
            ∙ append_assoc (switch_to w.channels ch) (get_bytes packet) tail)
          reading in
      let (t, done, has) =
        read-switched rounds d id e packet ch w.channels c p tail sendable built small allowed
          current there no_packet free sends in
      (t, done, has, has.between.on_channel_id ∙ ap some (sym now))
