-- ===== src/Send/Delivery.antt =====
-- message_draft.go, writer.go and parser.go together: a message with data, from one side to the other.
use sockety_go.Common.{
  ℕ, suc, ◌^◌, ◌<◌, ◌≡◌, sym, ap, subst, ◌∙◌, Bool, false, List, [], ◌++◌, arith, Option, some,
  ==_iff, inl, length, ok, returned, M,
}
use native.Mathlib.Decide.{ℕ_discrete}
use sockety_go.Constants.{packet_data_bits}
use sockety_go.ChannelManager.Reservation.{lock_of}
use sockety_go.MessageData.{new_message_data, done, received}
use sockety_go.MessageDraft.{MessageDraft, message_packet}
use sockety_go.MessageDraft.Layout.{IsSendable}
use sockety_go.Packet.{Packet, get_bytes}
use sockety_go.MessageReader.RoundTrip.{received_message}
use sockety_go.ParserChannel.{ParserChannel}
use sockety_go.ParserChannel.Delivery.{arrived, arrived_waiting}
use sockety_go.Parser.{Parser}
use sockety_go.Parser.DataCalls.{Finished}
use sockety_go.Parser.Messages.{IsFree, HasRead, drafted_message}
use sockety_go.Parser.Sizes.{IsReading}
use sockety_go.Parser.Switch.{channel_of}
use sockety_go.Reader.{BufferedReader, IsStream}
use sockety_go.Send.{send}
use sockety_go.Send.Output.{sent_bytes, Sent, send-Sent}
use sockety_go.Writer.{Writer, external_header}
use sockety_go.Writer.Data.{read_on-external_header}
use sockety_go.Writer.Delivery.{read-switched, state_of, append-cancel}
use sockety_go.Writer.Output.{Accepts, switch_to}
use sockety_go.Send.Sides.{
  new_message_data-IsSound, no_stream_of, only_data, spell, InStep, completed, completed_lem,
  Exchanged,
}

module _ {S : Type 0} (r : BufferedReader S) (Good : S → Type 0) (content : S → List ℕ)
    (stream : IsStream r Good content) (from_bytes : List ℕ → Option (List ℕ))
    (documented : (bs : List ℕ) → length bs ≡ 16 → from_bytes bs ≡ some bs) where
  -- After the data both sides are in step again.
  InStep-again :
      {T : Type 0} (write_to : List ℕ → M T (Unit {0})) (output : T → List ℕ)
      (a : Accepts write_to output) (d : MessageDraft) (id : List ℕ) (e : Bool) (w v : Writer T)
      (p q u : Parser S) (bytes left all tail : List ℕ)
      → d.has_stream ≡ false
      → 0 < length d.content
      → InStep r Good content stream from_bytes documented w.channels all p
      → (h : Sent write_to output a bytes w v)
      → (has : HasRead r Good content stream from_bytes documented h.channel
          (channel_of (p.channels h.channel))
          (length d.content)
          (drafted_message d id e)
          left
          p
          q)
      → (f : Finished r Good content stream from_bytes h.channel
          (arrived
            (channel_of (p.channels h.channel))
            (length d.content)
            (drafted_message d id e)
            has.reader)
          (new_message_data (length d.content))
          d.content
          tail
          q
          u)
      → f.now.wrote ≡ f.now.size
      → InStep r Good content stream from_bytes documented v.channels tail u
  InStep-again write_to output a d id e w v p q u bytes left all tail no_stream some_data step h has
        f whole =
      record {
        manager = record {
          some_channel = rw h.same_count step.manager.some_channel;
          bounded = rw h.same_count step.manager.bounded;
          current_inside = rw (h.now_current, h.same_count) h.inside;
          one_lock_each = rw (h.same_locks, h.same_count) step.manager.one_lock_each;
        };
        few = omega (arith, h.same_count, f.same_count, has.same_count, step.few);
        on_current = f.on_channel_id ∙ ap some (sym h.now_current);
        current_there = (_, ap u.channels h.now_current ∙ f.channel_is);
        no_packet = f.no_packet;
        all_free = λ j. elim (ℕ_discrete j h.channel) [
          | yes here ↦
              subst IsFree
                (sym (ap (λ i. channel_of (u.channels i)) here ∙ ap channel_of f.channel_is))
                (completed r Good content stream from_bytes documented
                  (channel_of (p.channels h.channel)) (length d.content) (drafted_message d id e)
                  has.reader f.now some_data (no_stream_of d id e no_stream) whole has.restarted
                  has.reader_idle)
          | no away ↦
              subst IsFree (sym (ap channel_of (f.others j away ∙ has.others j away)))
                (step.all_free j)
        ];
        reading = f.reading;
      }

  -- From the writer as `Sent` describes it.
  exchange :
      {T : Type 0} (write_to : List ℕ → M T (Unit {0})) (output : T → List ℕ)
      (a : Accepts write_to output) (rounds calls : ℕ) (data_last : Bool) (d : MessageDraft)
      (id : List ℕ) (e : Bool) (packet : Packet) (w v : Writer T) (p : Parser S)
      (bytes sent tail : List ℕ)
      → IsSendable d id
      → d.has_stream ≡ false
      → 0 < length d.content
      → length d.content < 2 ^ 24
      → message_packet [] d id e ≡ ok packet
      → bytes ≡ external_header packet_data_bits (length d.content) ++ d.content
      → (h : Sent write_to output a (get_bytes packet ++ bytes) w v)
      → sent ≡ switch_to w.channels h.channel ++ (get_bytes packet ++ bytes)
      → InStep r Good content stream from_bytes documented w.channels (sent ++ tail) p
      → length d.content < calls
      → (u : Parser S) × Exchanged r Good content stream from_bytes documented rounds calls d id e p
          u
        × InStep r Good content stream from_bytes documented v.channels tail u
  unfolding new_message_data done received received_message
  exchange write_to output a rounds calls data_last d id e packet w v p bytes sent tail sendable
        no_stream some_data small built only h exact step fuel =
      let ch = h.channel in
      let c = channel_of (p.channels ch) in
      let k = length d.content in
      let m = drafted_message d id e in
      let header = external_header packet_data_bits k in
      let spelled : sent ++ tail
          ≡ switch_to w.channels ch ++ (get_bytes packet ++ (header ++ (d.content ++ tail))) =
        spell sent (switch_to w.channels h.channel) (get_bytes packet) bytes header d.content tail
          exact only in
      let (c0, there) = step.current_there in
      let few = step.few in
      let inside = h.inside in
      let bound = step.manager.bounded in
      let (q, got, has) =
        read-switched r Good content stream from_bytes documented rounds d id e packet ch w.channels
          c0 p (header ++ (d.content ++ tail)) sendable built (omega arith) (omega arith)
          step.on_current there step.no_packet (step.all_free ch)
          (subst (λ l. IsReading r Good content stream from_bytes l p) spelled step.reading) in
      let waiting = arrived_waiting c k m has.reader some_data in
      let (u, rest, f) =
        read_on-external_header r Good content stream from_bytes documented calls (suc rounds) ch
          (arrived c k m has.reader) (new_message_data k) d.content tail q small has.between
          (ap (λ (x : ParserChannel). x.content) waiting)
          (new_message_data-IsSound k (omega arith) some_data) some_data (omega arith) fuel in
      let whole : f.now.wrote ≡ f.now.size = omega (arith, f.grown.counted, f.grown.same_size) in
      (
        u,
        record {
          middle = q;
          now = f.now;
          message_read = got;
          data_read = rest;
          channel = ch;
          on_channel_id = has.between.on_channel_id;
          first_content =
              (_, has.between.channel_is, ap (λ (x : ParserChannel). x.content) waiting);
          last_content = (
            _,
            f.channel_is,
            ap (λ (x : ParserChannel). x.kept_content)
                (completed_lem r Good content stream from_bytes documented c k m has.reader f.now
                  some_data (no_stream_of d id e no_stream) whole),
          );
          unread_is = f.grown.unread_is;
          size_is = f.grown.same_size;
          complete = (==_iff _ _).1 whole;
          closed = f.grown.sound.closed_when ∙ (==_iff _ _).1 whole;
          no_error = f.grown.sound.no_error;
        },
        InStep-again write_to output a d id e w v p q u (get_bytes packet ++ bytes)
            (header ++ (d.content ++ tail)) (sent ++ tail) tail no_stream some_data step h has f
            whole,
      )

  -- A sender and a receiver in step, with some channel of the sender free: when `send` of a sendable draft
  -- with data, of fewer than 2 ^ 24 bytes, and no stream has returned, and the receiver's stream begins
  -- with the bytes that it has written, the receiver reads the message of the draft, and then exactly
  -- its data, in at most one call of `Read` for each byte and two more, with no error. Both sides are in
  -- step again then, and the stream is left behind all that was sent.
  pub read-send :
      {T : Type 0} (write_to : List ℕ → M T (Unit {0})) (output : T → List ℕ)
      → Accepts write_to output
      → (rounds calls other : ℕ) (data_last : Bool) (d : MessageDraft) (id : List ℕ) (e : Bool)
        (packet : Packet) (w w' : Writer T) (p : Parser S) (sent tail : List ℕ)
      → IsSendable d id
      → d.has_stream ≡ false
      → 0 < length d.content
      → length d.content < 2 ^ 24
      → message_packet [] d id e ≡ ok packet
      → other < w.channels.channels_count
      → lock_of w.channels other ≡ some 0
      → send write_to data_last [] d id e w ≡ returned tt w'
      → output w'.target ≡ output w.target ++ sent
      → InStep r Good content stream from_bytes documented w.channels (sent ++ tail) p
      → length d.content < calls
      → (u : Parser S) × Exchanged r Good content stream from_bytes documented rounds calls d id e p
          u
        × InStep r Good content stream from_bytes documented w'.channels tail u
  unfolding state_of
  read-send write_to output a rounds calls other data_last d id e packet w w' p sent tail sendable
        no_stream some_data small built inside free returns o step fuel =
      let (v, done, h) =
        send-Sent write_to output a data_last d id e packet w other sendable (inl some_data) built
          step.manager inside free in
      let same : w' ≡ v = sym (ap (state_of w) returns) ∙ ap (state_of w) done in
      let only : sent_bytes data_last d
          ≡ external_header packet_data_bits (length d.content) ++ d.content =
        only_data data_last d no_stream some_data in
      let exact : sent
          ≡ switch_to w.channels h.channel ++ (get_bytes packet ++ sent_bytes data_last d) =
        append-cancel (output w.target) sent _
          (sym o ∙ ap (λ (x : Writer _). output x.target) same ∙ h.appended) in
      let (u, exchanged, again) =
        exchange write_to output a rounds calls data_last d id e packet w v p
          (sent_bytes data_last d) sent tail sendable no_stream some_data small built only h exact
          step fuel in
      (
        u,
        exchanged,
        subst
            (λ (x : Writer _). InStep r Good content stream from_bytes documented x.channels tail u)
            (sym same) again,
      )
