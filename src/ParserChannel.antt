-- ===== src/ParserChannel.antt =====
-- parser_channel.go: what one channel of a connection is receiving. The message that a channel
-- delivers shares its data and its stream with the channel: their state is kept in the channel. When the
-- channel lets go of them, the message still has them: they are then `kept_content` and `kept_stream`, those
-- of the last message that has ended on the channel.
pub mod Delivery
pub mod Data
use sockety_go.Common.{
  ℕ, zero, suc, ◌&&◌, Bool, true, false, not, List, [], Option, none, some, ltb, ◌==◌,
  if◌then◌else◌, Error, not_ready, channel_processing, channel_not_processing, unexpected_data,
  unexpected_stream, not_implemented, nil_dereference, Result, ok, err, Outcome, returned, failed,
  panicked, blocked, stuck, after, M, embed,
}
use sockety_go.MessageData
use sockety_go.MessageData.{MessageData}
use sockety_go.MessageStream
use sockety_go.MessageStream.{MessageStream, new_message_stream}
use sockety_go.MessageReader
use sockety_go.MessageReader.{Message, MessageReader, Reading, new_message_reader}
use sockety_go.Reader.{Read, BufferedReader}

pub record Response : Type 0 where
  pub expects_response : Bool
  pub stream : Option MessageStream

pub record ParserChannel : Type 0 where
  pub message : Option Message
  pub response : Option Response
  pub content : Option MessageData
  pub stream : Option MessageStream
  pub message_reader : MessageReader
  pub kept_content : Option MessageData
  pub kept_stream : Option MessageStream

unfoldable pub new_parser_channel : ParserChannel
new_parser_channel = record {
  message = none;
  response = none;
  content = none;
  stream = none;
  message_reader = new_message_reader;
  kept_content = none;
  kept_stream = none;
}

unfoldable pub data_done : ParserChannel → Bool
data_done p = elim p.content [ none ↦ true | some d ↦ MessageData.done d ]

unfoldable pub stream_done : ParserChannel → Bool
stream_done p = elim p.stream [ none ↦ true | some s ↦ MessageStream.done s ]

unfoldable pub idle : ParserChannel → Bool
idle p = elim p.message [ none ↦ true | some _ ↦ false ]

abbrev new_stream : Bool → Option MessageStream
new_stream has_stream = if has_stream then some new_message_stream else none

unfoldable pub init_message : Bool → Bool → ParserChannel → Result ParserChannel
init_message expects_response has_stream p =
    if not (idle p)
    then err channel_processing
    else ok (record p {
      message = some (record {
        content = none;
        stream = new_stream has_stream;
        id = [];
        action = [];
        total_files_size = 0;
        files_count = 0;
        expects_response = expects_response;
      });
    })

unfoldable pub init_response : Bool → Bool → ParserChannel → Result ParserChannel
init_response expects_response has_stream p =
    if not (idle p)
    then err channel_processing
    else ok (record p {
      response =
          some (record { expects_response = expects_response; stream = new_stream has_stream });
    })

unfoldable pub maybe_end : ParserChannel → ParserChannel
maybe_end p =
    if data_done p && stream_done p
    then record p {
      message = none;
      content = none;
      stream = none;
      kept_content = p.content;
      kept_stream = p.stream;
    }
    else p

-- What the processing methods act on: the channel and the reader that they are given.
pub record Processing (S : Type 0) : Type 0 where
  pub channel : ParserChannel
  pub source : S

-- `err != ErrNotReady`.
abbrev is_not_ready : Error → Bool
is_not_ready not_ready = true
is_not_ready _ = false

-- The end of `processMessage`, with the complete message and its data; a nil data is dereferenced.
unfoldable pub deliver : Option MessageData → Message → ParserChannel → Result ParserChannel
deliver none m p = Result.panic nil_dereference
deliver (some d) m p = ok (
    maybe_end
      (record p { content = if ltb 0 d.size then some d else p.content; stream = m.stream }))

module _ {S : Type 0} (r : BufferedReader S) (from_bytes : List ℕ → Option (List ℕ)) where
  abbrev put_back : ParserChannel → Reading S → Processing S
  put_back p t = record {
    channel = record p { message = some t.message; message_reader = t.reader };
    source = t.source;
  }

  abbrev delivered : Reading S → ParserChannel → Outcome (Processing S) (Option Message)
  delivered t p = elim (deliver t.message.content t.message p) [
    | ok p' ↦ returned (some t.message) (record { channel = p'; source = t.source })
    | err e ↦ failed e (record { channel = p; source = t.source })
    | Result.panic x ↦ panicked x
  ]

  -- With too few bytes for the message there is no result, and no error.
  unfoldable pub process_message : Message → M (Processing S) (Option Message)
  process_message m c =
      let p = c.channel in
      elim (MessageReader.get r from_bytes
        (record { reader = p.message_reader; message = m; source = c.source })) [
          | returned _ t ↦ delivered t (put_back p t).channel
          | failed e t ↦
              if is_not_ready e then returned none (put_back p t) else failed e (put_back p t)
          | panicked x ↦ panicked x
          | blocked ↦ blocked
          | stuck ↦ stuck
        ]

  unfoldable pub process : M (Processing S) (Option Message)
  process c = elim c.channel.message [
    | some m ↦ process_message m c
    | none ↦ elim c.channel.response [
      | some _ ↦ failed not_implemented c
      | none ↦ failed channel_not_processing c
    ]
  ]

  -- One round of the loops below reads this many bytes at most.
  abbrev pub step_size : S → ℕ
  step_size s = let n = r.len s in if ltb 65536 n then 65536 else n

  abbrev pub on_content : M MessageData (Unit {0}) → M (Processing S) (Unit {0})
  on_content m c = elim c.channel.content [
    | none ↦ panicked nil_dereference
    | some d ↦ embed (λ d. record c { channel = record (c.channel) { content = some d } }) (m d)
  ]

  abbrev pub on_stream : M MessageStream (Unit {0}) → M (Processing S) (Unit {0})
  on_stream m c = elim c.channel.stream [
    | none ↦ panicked nil_dereference
    | some s ↦ embed (λ s. record c { channel = record (c.channel) { stream = some s } }) (m s)
  ]

  -- Reads a piece and hands it on; an error of `Read` ends the loop.
  abbrev pub piece : (List ℕ → M (Processing S) (Unit {0})) → M (Processing S) (Unit {0})
  piece hand_on c =
      after (embed (λ s. record c { source = s }) (r.read (step_size c.source) c.source)) λ got c.
        let next = hand_on got.bytes c in elim got.error [ some e ↦ failed e c | none ↦ next ]

  unfoldable pub data_loop : ℕ → M (Processing S) (Unit {0})
  data_loop zero c = stuck
  data_loop (suc rounds) c =
      let more =
        after (piece (λ buf. on_content (MessageData.push buf)) c) (λ _ c. data_loop rounds c) in
      if r.len c.source == 0 then returned tt (record c { channel = maybe_end c.channel }) else more

  unfoldable pub process_data : ℕ → M (Processing S) (Unit {0})
  process_data rounds c =
      if data_done c.channel then failed unexpected_data c else data_loop rounds c

  unfoldable pub stream_loop : ℕ → M (Processing S) (Unit {0})
  stream_loop zero c = stuck
  stream_loop (suc rounds) c =
      let more =
        after (piece (λ buf. on_stream (MessageStream.push buf)) c) (λ _ c. stream_loop rounds c) in
      if r.len c.source == 0 then returned tt c else more

  unfoldable pub process_stream : ℕ → M (Processing S) (Unit {0})
  process_stream rounds c =
      if stream_done c.channel then failed unexpected_stream c else stream_loop rounds c

-- A nil stream is dereferenced.
unfoldable pub end_stream : M ParserChannel (Unit {0})
end_stream p = elim p.stream [
  | none ↦ panicked nil_dereference
  | some s ↦ embed (λ s. maybe_end (record p { stream = some s })) (MessageStream.close s)
]
