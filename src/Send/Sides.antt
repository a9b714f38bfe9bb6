-- ===== src/Send/Sides.antt =====
-- message_draft.go, writer.go and parser.go: two sides that are in step, and what a message leaves of that.
use sockety_go.Common.{
  append-nil, lt→ltb, ℕ, suc, ◌^◌, ◌≤◌, ◌<◌, ne→==, ◌≡◌, refl, sym, ap, subst, ◌∙◌, Bool, true,
  false, List, ◌++◌, append_assoc, arith, Option, none, some, ==_iff, length, returned, after,
}
use sockety_go.ChannelManager.{ChannelManager}
use sockety_go.ChannelManager.Reservation.{IsManager}
use sockety_go.MessageData.{MessageData, new_message_data, done, received}
use sockety_go.MessageData.Queue.{unread, IsSound}
use sockety_go.MessageDraft.{MessageDraft}
use sockety_go.MessageReader.{Message, MessageReader}
use sockety_go.MessageReader.Steps.{IsIdle}
use sockety_go.MessageReader.RoundTrip.{received_message}
use sockety_go.ParserChannel.{ParserChannel, maybe_end, data_done, stream_done}
use sockety_go.ParserChannel.Delivery.{arrived, arrived_waiting}
use sockety_go.Parser.{Parser, read}
use sockety_go.Parser.DataCalls.{read_on}
use sockety_go.Parser.Messages.{IsFree, drafted_message}
use sockety_go.Parser.Sizes.{IsReading}
use sockety_go.Parser.Switch.{channel_of}
use sockety_go.Reader.{BufferedReader, IsStream}
use sockety_go.Send.Output.{sent_bytes}
use sockety_go.Constants.{packet_data_bits}
use sockety_go.Writer.{external_header}
use sockety_go.Writer.Output.{external_header_lem}

pub new_message_data-IsSound : (k : ℕ) → k < 2 ^ 64 → 0 < k → IsSound (new_message_data k)
unfolding new_message_data
new_message_data-IsSound k short some_data = record {
  no_error = refl;
  closed_when = sym (ne→== 0 k (omega arith));
  within = omega arith;
  sized = short;
  offset = refl;
}

pub no_stream_of :
    (d : MessageDraft) (id : List ℕ) (e : Bool)
    → d.has_stream ≡ false
    → (drafted_message d id e).stream ≡ none
unfolding received_message
no_stream_of d id e no_stream = rw no_stream refl

-- Of a draft with data and no stream only the data is written, whatever the order.
pub only_data :
    (data_last : Bool) (m : MessageDraft)
    → m.has_stream ≡ false
    → 0 < length m.content
    → sent_bytes data_last m ≡ external_header packet_data_bits (length m.content) ++ m.content
only_data true m no_stream some_data =
    rw
      (
        no_stream,
        lt→ltb 0 (length m.content) some_data,
        sym (external_header_lem packet_data_bits (length m.content)),
      )
      refl
only_data false m no_stream some_data =
    rw
      (
        no_stream,
        lt→ltb 0 (length m.content) some_data,
        sym (external_header_lem packet_data_bits (length m.content)),
      )
      (append-nil _)

pub spell :
    (sent switch packet bytes header body tail : List ℕ)
    → sent ≡ switch ++ (packet ++ bytes)
    → bytes ≡ header ++ body
    → sent ++ tail ≡ switch ++ (packet ++ (header ++ (body ++ tail)))
spell sent switch packet bytes header body tail e b =
    ap (λ l. l ++ tail) (e ∙ ap (λ l. switch ++ (packet ++ l)) b)
    ∙ append_assoc switch (packet ++ (header ++ body)) tail
    ∙ ap (λ l. switch ++ l)
        (append_assoc packet (header ++ body) tail
          ∙ ap (λ l. packet ++ l) (append_assoc header body tail))

module _ {S : Type 0} (r : BufferedReader S) (Good : S → Type 0) (content : S → List ℕ)
    (stream : IsStream r Good content) (from_bytes : List ℕ → Option (List ℕ))
    (documented : (bs : List ℕ) → length bs ≡ 16 → from_bytes bs ≡ some bs) where
  -- The two sides are in step between two messages: the parser is on the writer's current channel, it has all
  -- channels of the writer, each of them free, and `left` is what it has still to read.
  pub record InStep (m : ChannelManager) (left : List ℕ) (p : Parser S) : Type 0 where
    pub manager : IsManager m
    pub few : m.channels_count ≤ p.channels_count
    pub on_current : p.current_channel ≡ some m.current
    pub current_there : (c : ParserChannel) × (p.channels m.current ≡ some c)
    pub no_packet : p.sub_size ≡ 0
    pub all_free : (ch : ℕ) → IsFree (channel_of (p.channels ch))
    pub reading : IsReading r Good content stream from_bytes left p

  -- The channel when the data is complete.
  pub completed_lem :
      (c : ParserChannel) (k : ℕ) (m : Message) (reader : MessageReader) (now : MessageData)
      → 0 < k
      → m.stream ≡ none
      → now.wrote ≡ now.size
      → maybe_end (record (arrived c k m reader) { content = some now }) ≡ record c {
        message = none;
        content = none;
        stream = none;
        message_reader = reader;
        kept_content = some now;
        kept_stream = none;
      }
  unfolding maybe_end data_done stream_done done received
  completed_lem c k m reader now some_data no_stream complete =
      ap (λ (x : ParserChannel). maybe_end (record x { content = some now }))
        (arrived_waiting c k m reader some_data)
      ∙ rw (no_stream, (==_iff _ _).1 complete) refl

  pub completed :
      (c : ParserChannel) (k : ℕ) (m : Message) (reader : MessageReader) (now : MessageData)
      → 0 < k
      → m.stream ≡ none
      → now.wrote ≡ now.size
      → reader.step ≡ 0
      → IsIdle reader
      → IsFree (maybe_end (record (arrived c k m reader) { content = some now }))
  completed c k m reader now some_data no_stream complete restarted idle =
      subst IsFree (sym (completed_lem c k m reader now some_data no_stream complete))
        (record { no_message = refl; no_content = refl; restarted = restarted; reader_idle = idle })

  -- What the receiving side has got of a draft: the calls of `Read` return its message and then nothing. The
  -- data of the message is first that of the parser's channel, which has it still to come; when the calls are
  -- done, the channel has let go of it, and it has the announced size, holds exactly the bytes of the
  -- draft, is complete, and its reader's channel is closed.
  pub record Exchanged (rounds calls : ℕ) (d : MessageDraft) (id : List ℕ) (e : Bool)
      (p u : Parser S) : Type 0 where
    pub middle : Parser S
    pub now : MessageData
    pub message_read :
        read r from_bytes (suc (suc rounds)) p ≡ returned (some (drafted_message d id e)) middle
    pub data_read :
        after
          (read r from_bytes (suc (suc rounds)) middle)
          (λ _ q. read_on r Good content stream from_bytes calls (suc (suc rounds)) q)
        ≡ returned tt u
    pub channel : ℕ
    pub on_channel_id : middle.current_channel ≡ some channel
    pub first_content :
        (c : ParserChannel) × (middle.channels channel ≡ some c)
        × (c.content ≡ (drafted_message d id e).content)
    pub last_content :
        (c : ParserChannel) × (u.channels channel ≡ some c) × (c.kept_content ≡ some now)
    pub unread_is : unread now ≡ d.content
    pub size_is : now.size ≡ length d.content
    pub complete : done now ≡ true
    pub closed : now.closed ≡ true
    pub no_error : now.error ≡ none
