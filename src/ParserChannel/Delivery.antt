-- ===== src/ParserChannel/Delivery.antt =====
-- parser_channel.go, `Process`: over a stream that has the whole packet, the channel delivers the
-- message that was drafted, and is free again unless data or a stream has to follow.
use sockety_go.Common.{
  ℕ, Bool, Bool-cases, inl, inr, ltb→lt, true, ◌<◌, ◌≡◌, refl, ap, ◌∙◌, false, List, ◌++◌, arith,
  Option, none, some, ltb, ◌==◌, if◌then◌else◌, length, returned, ok, lt→ltb, ne→==,
}
use sockety_go.MessageDraft.{MessageDraft}
use sockety_go.MessageDraft.Layout.{IsSendable, message_body}
use sockety_go.MessageData
use sockety_go.MessageData.{MessageData, new_message_data}
use sockety_go.MessageStream
use sockety_go.MessageStream.{MessageStream}
use sockety_go.MessageReader.{Message, MessageReader, Reading}
use sockety_go.MessageReader.Steps.{IsIdle}
use sockety_go.MessageReader.RoundTrip.{received_message, get-message_body}
use sockety_go.Reader.{BufferedReader, IsStream}
use sockety_go.ParserChannel.{
  ParserChannel, Processing, data_done, stream_done, maybe_end, deliver, delivered, process_message,
  process,
}

-- There is no stream to come, or its end is there.
abbrev pub is_over : Option MessageStream → Bool
is_over none = true
is_over (some s) = s.finished

-- The channel when a message `m` has arrived on it, for data of `k` bytes: it is free, or waits for what is to
-- come of the message.
abbrev pub freed : ParserChannel → Message → MessageReader → ParserChannel
freed c m reader = record c {
  message = none;
  content = none;
  stream = none;
  message_reader = reader;
  kept_content = none;
  kept_stream = m.stream;
}

abbrev pub expecting : ParserChannel → Option MessageData → Message → MessageReader → ParserChannel
expecting c content m reader = record c {
  message = some m;
  content = content;
  stream = m.stream;
  message_reader = reader;
}

abbrev pub arrived : ParserChannel → ℕ → Message → MessageReader → ParserChannel
arrived c k m reader =
    if ltb 0 k
    then expecting c (some (new_message_data k)) m reader
    else if is_over m.stream
    then freed c m reader
    else expecting c none m reader

-- Data that is to come keeps the message on the channel.
pub arrived_waiting :
    (c : ParserChannel) (k : ℕ) (m : Message) (reader : MessageReader)
    → 0 < k
    → arrived c k m reader ≡ expecting c (some (new_message_data k)) m reader
arrived_waiting c k m reader some_data = rw (lt→ltb 0 k some_data)

stream_done_lem : (c : ParserChannel) → stream_done c ≡ is_over c.stream
unfolding stream_done MessageStream.done
stream_done_lem c = over c.stream
  where
    over : (o : Option MessageStream) → (elim o [ none ↦ true | some s ↦ s.finished ]) ≡ is_over o
    over none = refl
    over (some s) = refl

ended_waiting :
    (c : ParserChannel) (k : ℕ) (m : Message) (reader : MessageReader)
    → 0 < k
    → maybe_end (expecting c (some (new_message_data k)) m reader)
      ≡ expecting c (some (new_message_data k)) m reader
unfolding maybe_end data_done MessageData.done MessageData.received new_message_data
ended_waiting c k m reader some_data =
    let waits : (0 == k) ≡ false = ne→== 0 k (omega arith) in rw waits

ended_no_data :
    (c : ParserChannel) (m : Message) (reader : MessageReader)
    → maybe_end (expecting c none m reader)
      ≡ (if is_over m.stream then freed c m reader else expecting c none m reader)
unfolding maybe_end data_done
ended_no_data c m reader = rw (stream_done_lem (expecting c none m reader)) refl

ended_arrived :
    (c : ParserChannel) (k : ℕ) (m : Message) (reader : MessageReader)
    → c.content ≡ none
    → maybe_end (expecting c (if ltb 0 k then some (new_message_data k) else c.content) m reader)
      ≡ arrived c k m reader
ended_arrived c k m reader no_data = elim (Bool-cases (ltb 0 k)) [
  | inl some_data ↦ rw some_data (ended_waiting c k m reader (ltb→lt 0 k some_data))
  | inr none_to_come ↦
      rw none_to_come
        (ap (λ o. maybe_end (expecting c o m reader)) no_data ∙ ended_no_data c m reader)
]

delivered_lem :
    {S : Type 0} (r : BufferedReader S) (from_bytes : List ℕ → Option (List ℕ)) (c : ParserChannel)
    (t : Reading S) (k : ℕ) (m : Message)
    → c.content ≡ none
    → t.message ≡ m
    → m.content ≡ some (new_message_data k)
    → delivered r from_bytes t (record c { message = some t.message; message_reader = t.reader })
      ≡ returned (some m) (record { channel = arrived c k m t.reader; source = t.source })
unfolding deliver new_message_data
delivered_lem r from_bytes c t k m no_data e h =
    let at = record c { message = some t.message; message_reader = t.reader } in
    let sized : deliver t.message.content t.message at ≡ ok (arrived c k t.message t.reader) =
      ap (λ o. deliver o t.message at) (ap (λ (n : Message). n.content) e ∙ h)
      ∙ ap ok (ended_arrived c k t.message t.reader no_data) in
    rw (sized, delivered)
      (ap (λ n. returned (some n) (record { channel = arrived c k n t.reader; source = t.source }))
        e)

module _ {S : Type 0} (r : BufferedReader S) (Good : S → Type 0) (content : S → List ℕ)
    (stream : IsStream r Good content) where
  -- What `Process` leaves behind when it has delivered `m`.
  pub record Delivered (c : ParserChannel) (k : ℕ) (m : Message) (tail : List ℕ) (q : Processing S)
      : Type 0 where
    pub reader : MessageReader
    pub channel_is : q.channel ≡ arrived c k m reader
    pub restarted : reader.step ≡ 0
    pub idle : IsIdle reader
    pub good : Good q.source
    pub left : content q.source ≡ tail

  -- Where the channel holds the message `m` and its message reader is idle at its first step, and
  -- the stream begins with the content of a sendable draft's packet, Process returns `m` with the
  -- fields of the draft, where the channel has no data of an earlier message. It is left free where the draft
  -- has no data and the message has no stream that is still open, and else waits with the message, empty
  -- data of the announced size, if there is some, and the stream; its message reader is idle, and the
  -- stream of bytes is left behind the content.
  pub process-message_body :
      (from_bytes : List ℕ → Option (List ℕ))
      → ((bs : List ℕ) → length bs ≡ 16 → from_bytes bs ≡ some bs)
      → (d : MessageDraft) (id : List ℕ) (m : Message) (c : ParserChannel) (s : S) (tail : List ℕ)
      → IsSendable d id
      → c.message ≡ some m
      → c.content ≡ none
      → c.message_reader.step ≡ 0
      → IsIdle c.message_reader
      → Good s
      → content s ≡ message_body d id ++ tail
      → (q : Processing S) × (process r from_bytes (record { channel = c; source = s })
          ≡ returned (some (received_message d id m)) q)
        × Delivered c (length d.content) (received_message d id m) tail q
  unfolding process process_message deliver received_message
  process-message_body from_bytes documented d id m c s tail sendable taken no_data fresh idle good
        e =
      let start : Reading S = record { reader = c.message_reader; message = m; source = s } in
      let (t, got, g) =
        get-message_body r Good content stream from_bytes documented d id start tail sendable fresh
          idle good e in
      (
        record {
          channel = arrived c (length d.content) (received_message d id m) t.reader;
          source = t.source;
        },
        rw taken (
            rw (got, process_message)
              (delivered_lem r from_bytes c t (length d.content) _ no_data g.message_is refl)),
        record {
          reader = t.reader;
          channel_is = refl;
          restarted = g.restarted;
          idle = g.idle;
          good = g.good;
          left = g.left;
        },
      )
