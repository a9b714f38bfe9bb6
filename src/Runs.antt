-- ===== src/Runs.antt =====
-- The theorems at concrete inputs: a source that holds a list of bytes, and what a connection reads.
pub mod Sides
pub mod Connections
use sockety_go.Common.{
  limit_out_of_bounds, Panic, panicked, bit_or, M, failed, malformed_size, false, ◌+◌, ℕ, ◌-◌, ◌*◌,
  ◌^◌, ◌⊎◌, inr, ◌≤◌, ◌<◌, ◌≡◌, refl, sym, subst, arith, true, false, List, [], ◌∷◌, ◌++◌, take,
  drop, length, length-take, take-append-drop, ne→==, none, some, eof, ◌==◌, if◌then◌else◌,
  returned, ok, ◌>>=◌,
}
use sockety_go.ByteUtils.ReadBytes
use sockety_go.ByteUtils.WriteBytes
use sockety_go.ByteUtils.RoundTrip.{uint16-write, uint24-write, uint32-write, uint48-write}
use sockety_go.BufferPool.{zeros}
use sockety_go.ByteUtils.Positions.{le}
use sockety_go.ProtocolUtils.{
  get_name_size_flag, get_min_size_bytes, create_switch_channel_packet, create_protocol_header,
}
use sockety_go.ProtocolUtils.Sizes.{get_min_size_bytes_fits}
use sockety_go.MessageDraft.{MessageDraft, message_packet, message_signature, message_flags}
use sockety_go.MessageDraft.Layout.{
  IsSendable, message_body, name_width, data_width, message_packet_lem,
}
use sockety_go.Packet.Filling.{filled}
use sockety_go.Packet.Header.{packet_header}
use sockety_go.BufferedReader.Stream.{IsOpen, buffered, buffered-IsStream}
use sockety_go.Reader.{IsStream}
use sockety_go.StreamReader.{new_unsafe_bytes, get_string}
use sockety_go.StreamReader.Complete.{Gets, get_string-Gets}
use sockety_go.MessageStream.{new_message_stream}
use sockety_go.MessageReader.{Message, Reading, new_message_reader, get}
use sockety_go.MessageReader.RoundTrip.{received_message, Got, get-message_body}
use sockety_go.ParserChannel.{ParserChannel, Processing, new_parser_channel, process}
use sockety_go.ParserChannel.Delivery.{Delivered, process-message_body}
use sockety_go.Parser.{Parser, new_parser, get_default, read, read_header, read_loop}
use sockety_go.ChannelManager.{ChannelManager, is, set_current, reserve}
use sockety_go.ChannelManager.Reservation.{Reservation, reserve-Reservation}
use sockety_go.Writer.{
  Writer, write_raw, unsafe_write_at_channel, write_raw_at_channel, write_at_channel,
}
use sockety_go.Writer.Output.{Accepts, Wrote, write_raw_at_channel-Wrote}
use sockety_go.Writer.Delivery.{read-write_at_channel}
use sockety_go.Constants.{packet_fast_reply_low_bits, packet_fast_reply_high_bits}
use sockety_go.FastReply.{FastReply, reply_packet}
use sockety_go.FastReply.Layout.{reply_packet_low, reply_packet_high}
use sockety_go.MessageData
use sockety_go.MessageData.{MessageData, push}
use sockety_go.MessageData.Queue.{
  IsReceiving, IsOffset, unread, push-unread, push_too_long, read-unread,
}
use sockety_go.Parser.Header.{read_header-create_protocol_header}
use sockety_go.Parser.Sizes.{IsReading, Advanced}
use sockety_go.Parser.Start.{
  Started, new_parser_channel-IsFree, new_unsafe_bytes-IsAtRest, new_parser-Started,
}
use sockety_go.Parser.Switch.{channel_of, Turned, read_loop-create_switch_channel_packet}
use sockety_go.Parser.Messages.{HasRead, drafted_message}
use sockety_go.Parser.RoundTrip.{read-message_packet}
use sockety_go.LimitedReader
use sockety_go.LimitedReader.{Limited, limited, limited-IsLimited, IsWithin, front, may_have}
use sockety_go.Packet.{Packet, get_bytes}
use sockety_go.BufferedReader.{Reply, Buffered}
use sockety_go.BufferedReader.Window.{Delivers, content}

-- A source that has its bytes ready, and then the end of the file.
unfoldable pub ready : List ℕ → ℕ → Reply (List ℕ)
ready q n = record {
  bytes = take n q;
  error = if length q == 0 then some eof else none;
  next = drop n q;
}

pub ready-Delivers : Delivers ready (λ q. q)
unfolding ready
ready-Delivers = record {
  no_error = λ q n some_n some_q. rw (ne→== (length q) 0 (omega arith)) refl;
  some_bytes = λ q n some_n some_q. omega (arith, length-take n q);
  at_most = λ q n. omega (arith, length-take n q);
  in_order = λ q n. take-append-drop n q;
}

uint16-write_example :
    (WriteBytes.uint16 (7 ∷ 0 ∷ 0 ∷ 9 ∷ []) 1 513 >>= λ w. ReadBytes.uint16 w.0 1) ≡ ok 513
uint16-write_example = uint16-write (7 ∷ []) 0 0 (9 ∷ []) 513 (omega arith)

uint24-write_example :
    (WriteBytes.uint24 (7 ∷ 0 ∷ 0 ∷ 0 ∷ 9 ∷ []) 1 70000 >>= λ w. ReadBytes.uint24 w.0 1) ≡ ok 70000
uint24-write_example = uint24-write (7 ∷ []) 0 0 0 (9 ∷ []) 70000 (omega arith)

uint32-write_example :
    (WriteBytes.uint32 (7 ∷ 0 ∷ 0 ∷ 0 ∷ 0 ∷ 9 ∷ []) 1 70000000 >>= λ w. ReadBytes.uint32 w.0 1)
    ≡ ok 70000000
uint32-write_example = uint32-write (7 ∷ []) 0 0 0 0 (9 ∷ []) 70000000 (omega arith)

uint48-write_example :
    (WriteBytes.uint48 (7 ∷ 0 ∷ 0 ∷ 0 ∷ 0 ∷ 0 ∷ 0 ∷ 9 ∷ []) 1 7000000000 >>= λ w.
    ReadBytes.uint48 w.0 1)
    ≡ ok 7000000000
uint48-write_example = uint48-write (7 ∷ []) 0 0 0 0 0 0 (9 ∷ []) 7000000000 (omega arith)

get_min_size_bytes_fits_example :
    (70000 < 2 ^ (8 * 3))
    × ((◌≡◌ {A = ℕ} 3 0) ⊎ (2 ^ (8 * (3 - 1)) ≤ 70000) ⊎ ((◌≡◌ {A = ℕ} 3 6) × (2 ^ 32 ≤ 70000)))
unfolding get_min_size_bytes
get_min_size_bytes_fits_example = get_min_size_bytes_fits 70000 3 refl

-- A draft with data and a stream, in a packet for channel 300.
abbrev pub hello : MessageDraft
hello = record { has_stream = true; action = 104 ∷ 105 ∷ []; content = 1 ∷ 2 ∷ 3 ∷ [] }

abbrev pub hello_id : List ℕ
hello_id = 0 ∷ 1 ∷ 2 ∷ 3 ∷ 4 ∷ 5 ∷ 6 ∷ 7 ∷ 8 ∷ 9 ∷ 10 ∷ 11 ∷ 12 ∷ 13 ∷ 14 ∷ 15 ∷ []

pub hello-IsSendable : IsSendable hello hello_id
hello-IsSendable = record {
  named = omega arith;
  short = omega arith;
  fits = omega arith;
  identified = refl;
}

message_packet_lem_example :
    message_packet [] hello hello_id true
    ≡ ok (filled (packet_header (message_signature true true) 21 ++ message_body hello hello_id) [])
unfolding message_body name_width data_width
message_packet_lem_example = message_packet_lem hello hello_id true hello-IsSendable

-- What the other side writes: the switch and the packet, and a heartbeat behind them.
abbrev wire : List ℕ
wire =
    create_switch_channel_packet 300
    ++ (packet_header (message_signature true true) 21 ++ (message_body hello hello_id ++ (0 ∷ [])))

abbrev pub all_bytes : List ℕ → List ℕ
all_bytes q = q

abbrev pub IsUsable : Buffered (List ℕ) → Type 0
IsUsable = IsOpen ready all_bytes ready-Delivers

abbrev pub to_serve : Buffered (List ℕ) → List ℕ
to_serve = content ready all_bytes ready-Delivers

buffered-IsStream_example : IsStream (buffered ready 0) IsUsable to_serve
buffered-IsStream_example = buffered-IsStream ready all_bytes ready-Delivers 0

abbrev pub stream : IsStream (buffered ready 0) IsUsable to_serve
stream = buffered-IsStream ready all_bytes ready-Delivers 0

-- A reader in the middle of a message packet.
abbrev reader : List ℕ → Buffered (List ℕ)
reader q = record { source = q; at_eof = false; buffer = zeros 16; available = 0; start = 0 }

reader-IsUsable : (q : List ℕ) → IsUsable (reader q)
reader-IsUsable q = (
  record { inside = omega arith; sized = omega arith; short = omega arith; rewound = λ e. refl },
  refl,
)

-- Three bytes of a reader that serves five.
abbrev three_of_five : Limited (Buffered (List ℕ))
three_of_five = record { b = reader (1 ∷ 2 ∷ 3 ∷ 4 ∷ 5 ∷ []); size = 3 }

limited-IsLimited_example :
    IsStream
      (limited (buffered ready 0))
      (IsWithin (buffered ready 0) IsUsable to_serve stream (0 ∷ []))
      (front (buffered ready 0) IsUsable to_serve stream (0 ∷ []))
    × ((may_have (buffered ready 0) 4 three_of_five ≡ false)
        × (LimitedReader.read (buffered ready 0) 4 three_of_five
            ≡ returned (record { bytes = []; error = some limit_out_of_bounds }) three_of_five))
    × ((LimitedReader.len (buffered ready 0) (record three_of_five { size = 0 }) ≡ 0)
        × (LimitedReader.read_byte (buffered ready 0) (record three_of_five { size = 0 })
            ≡ failed limit_out_of_bounds (record three_of_five { size = 0 }))
        × (LimitedReader.preload (buffered ready 0) (record three_of_five { size = 0 })
            ≡ failed eof (record three_of_five { size = 0 })))
limited-IsLimited_example =
    limited-IsLimited (buffered ready 0) IsUsable to_serve stream (0 ∷ []) 4 three_of_five
      (record three_of_five { size = 0 }) (omega arith) refl

pub documented : (bs : List ℕ) → length bs ≡ 16 → some bs ≡ some bs
documented bs h = refl

abbrev expected : Message
expected = record {
  content = none;
  stream = some new_message_stream;
  id = [];
  action = [];
  total_files_size = 0;
  files_count = 0;
  expects_response = true;
}

abbrev body : List ℕ
body = message_body hello hello_id ++ (0 ∷ [])

get-message_body_example :
    (t : Reading (Buffered (List ℕ))) × (get
        (buffered ready 0)
        some
        (record { reader = new_message_reader; message = expected; source = reader body })
      ≡ returned true t)
    × Got
        (buffered ready 0)
        IsUsable
        to_serve
        stream
        (received_message hello hello_id expected)
        (0 ∷ [])
        t
unfolding new_parser_channel new_message_reader
get-message_body_example =
    get-message_body (buffered ready 0) IsUsable to_serve stream some documented hello hello_id
      (record { reader = new_message_reader; message = expected; source = reader body }) (0 ∷ [])
      hello-IsSendable refl new_parser_channel-IsFree.reader_idle (reader-IsUsable body) refl

abbrev waiting : ParserChannel
waiting = record new_parser_channel { message = some expected }

process-message_body_example :
    (q : Processing (Buffered (List ℕ))) × (process
        (buffered ready 0)
        some
        (record { channel = waiting; source = reader body })
      ≡ returned (some (received_message hello hello_id expected)) q)
    × Delivered
        (buffered ready 0)
        IsUsable
        to_serve
        stream
        waiting
        3
        (received_message hello hello_id expected)
        (0 ∷ [])
        q
unfolding new_parser_channel new_message_reader
process-message_body_example =
    process-message_body (buffered ready 0) IsUsable to_serve stream some documented hello hello_id
      expected waiting (reader body) (0 ∷ []) hello-IsSendable refl refl refl
      new_parser_channel-IsFree.reader_idle (reader-IsUsable body) refl

get_string-Gets_example :
    Gets
      (buffered ready 0)
      IsUsable
      to_serve
      stream
      2
      (get_string (buffered ready 0) (new_unsafe_bytes 2, reader (104 ∷ 105 ∷ 0 ∷ [])))
      (104 ∷ 105 ∷ [])
      (0 ∷ [])
get_string-Gets_example =
    get_string-Gets (buffered ready 0) IsUsable to_serve stream 2 (new_unsafe_bytes 2)
      (reader (104 ∷ 105 ∷ 0 ∷ [])) (104 ∷ 105 ∷ []) (0 ∷ []) (omega arith) (omega arith)
      (new_unsafe_bytes-IsAtRest 2 (omega arith)) (reader-IsUsable _) refl refl

-- A parser of that stream, just made.
abbrev made :
    (p : Parser (Buffered (List ℕ))) × (new_parser wire 0 16 ≡ ok p)
    × Started ready all_bytes ready-Delivers some wire (get_default 0 4096) p
made =
    new_parser-Started ready all_bytes ready-Delivers some wire 0 16 (omega arith)
      (inr (omega arith, omega arith))

new_parser-Started_example :
    (p : Parser (Buffered (List ℕ))) × (new_parser wire 0 16 ≡ ok p)
    × Started ready all_bytes ready-Delivers some wire (get_default 0 4096) p
new_parser-Started_example =
    new_parser-Started ready all_bytes ready-Delivers some wire 0 16 (omega arith)
      (inr (omega arith, omega arith))

abbrev pub hello_packet : Packet
hello_packet =
    filled (packet_header (message_signature true true) 21 ++ message_body hello hello_id) []

read-message_packet_example :
    (q : Parser (Buffered (List ℕ))) × (read (buffered ready 0) some 2 made.0
      ≡ returned (some (drafted_message hello hello_id true)) q)
    × HasRead
        (buffered ready 0)
        IsUsable
        to_serve
        stream
        some
        documented
        300
        (channel_of (made.0.channels 300))
        3
        (drafted_message hello hello_id true)
        (0 ∷ [])
        made.0
        q
unfolding message_body name_width data_width get_default get_bytes packet_header message_flags le
    get_name_size_flag
read-message_packet_example =
    read-message_packet (buffered ready 0) IsUsable to_serve stream some documented 0 hello hello_id
      true hello_packet 300 made.0 (0 ∷ []) hello-IsSendable
      (message_packet_lem hello hello_id true hello-IsSendable) (omega arith)
      (subst (λ n. 300 < n) (sym made.2.counted) (omega arith)) made.2.no_packet
      (made.2.all_channels_free 300) made.2.reading

read_loop-create_switch_channel_packet_example :
    (q : Parser (Buffered (List ℕ))) × (read_loop (buffered ready 0) some 1 made.0
      ≡ read_loop (buffered ready 0) some 0 q)
    × Turned
        (buffered ready 0)
        IsUsable
        to_serve
        stream
        some
        documented
        300
        (packet_header (message_signature true true) 21 ++ body)
        made.0
        q
unfolding get_default
read_loop-create_switch_channel_packet_example =
    read_loop-create_switch_channel_packet (buffered ready 0) IsUsable to_serve stream some
      documented 0 300 made.0 (packet_header (message_signature true true) 21 ++ body) (omega arith)
      (subst (λ n. 300 < n) (sym made.2.counted) (omega arith)) made.2.no_packet made.2.reading

-- Three of five bytes of a message's data, of which one is read.
abbrev partly : MessageData
partly = record {
  buf = (1 ∷ 2 ∷ 3 ∷ []) ∷ [];
  buf_offset = 1;
  wrote = 3;
  size = 5;
  error = none;
  closed = false;
}

partly-IsReceiving : IsReceiving partly
partly-IsReceiving = record {
  no_error = refl;
  not_closed = refl;
  missing = omega arith;
  sized = omega arith;
  offset = omega arith;
}

push-unread_example :
    (m' : MessageData) × (push (4 ∷ 5 ∷ []) partly ≡ returned tt m')
    × (unread m' ≡ unread partly ++ (4 ∷ 5 ∷ []))
    × (m'.wrote ≡ 3 + 2)
    × (m'.closed ≡ (m'.wrote == m'.size))
    × (m'.size ≡ 5)
    × (m'.error ≡ none)
    × IsOffset m'.buf_offset m'.buf
push-unread_example = push-unread (4 ∷ 5 ∷ []) partly partly-IsReceiving (omega arith)

push_too_long_example :
    (m' : MessageData) × (push (4 ∷ 5 ∷ 6 ∷ []) partly ≡ failed malformed_size m')
    × (MessageData.read 2 m' ≡ failed malformed_size m')
    × ((x : Panic) × (push (7 ∷ []) m' ≡ panicked x))
push_too_long_example =
    push_too_long (4 ∷ 5 ∷ 6 ∷ []) (7 ∷ []) 2 partly refl (omega arith) (omega arith)

read-unread_example :
    (bs : List ℕ) × (m' : MessageData) × (MessageData.read 1 partly ≡ returned bs m')
    × (unread partly ≡ bs ++ unread m')
    × (length bs ≤ 1)
    × IsOffset m'.buf_offset m'.buf
read-unread_example = read-unread 1 (1 ∷ 2 ∷ 3 ∷ []) [] partly refl refl (omega arith)

-- The header for 300 channels, and a byte behind it.
abbrev header_wire : List ℕ
header_wire = (0b11100010 ∷ 44 ∷ 1 ∷ []) ++ (7 ∷ [])

abbrev made_header :
    (p : Parser (Buffered (List ℕ))) × (new_parser header_wire 0 16 ≡ ok p)
    × Started ready all_bytes ready-Delivers some header_wire (get_default 0 4096) p
made_header =
    new_parser-Started ready all_bytes ready-Delivers some header_wire 0 16 (omega arith)
      (inr (omega arith, omega arith))

read_header-create_protocol_header_example :
    (q : Parser (Buffered (List ℕ))) × (read_header (buffered ready 0) some made_header.0
      ≡ returned 300 q)
    × Advanced (buffered ready 0) IsUsable to_serve stream some (7 ∷ []) made_header.0 q
unfolding create_protocol_header
read_header-create_protocol_header_example =
    read_header-create_protocol_header (buffered ready 0) IsUsable to_serve stream some 300
      (0b11100010 ∷ 44 ∷ 1 ∷ []) (7 ∷ []) made_header.0 (omega arith) (omega arith) refl
      made_header.2.reading

-- A target that keeps all bytes, and a writer on its first channel.
abbrev pub keep : List ℕ → M (List ℕ) (Unit {0})
keep bytes t = returned tt (t ++ bytes)

pub keep-Accepts : Accepts keep all_bytes
keep-Accepts = record { accepted = λ bytes t. (t ++ bytes, refl, refl) }

abbrev first_writer : Writer (List ℕ)
first_writer = record {
  target = [];
  channels = record { channels_count = 4096; current = 0; locks = [] };
}

abbrev sent : List ℕ
sent = create_switch_channel_packet 300 ++ get_bytes hello_packet

abbrev second_writer : Writer (List ℕ)
second_writer = record {
  target = sent;
  channels = record { channels_count = 4096; current = 300; locks = [] };
}

write_raw_at_channel-Wrote_example :
    (w' : Writer (List ℕ)) × (write_raw_at_channel keep 300 (1 ∷ []) first_writer ≡ returned tt w')
    × Wrote keep all_bytes keep-Accepts 300 (1 ∷ []) first_writer w'
write_raw_at_channel-Wrote_example =
    write_raw_at_channel-Wrote keep all_bytes keep-Accepts 300 (1 ∷ []) first_writer

written_lem : write_at_channel keep 300 hello_packet first_writer ≡ returned tt second_writer
unfolding write_at_channel write_raw_at_channel unsafe_write_at_channel write_raw is set_current
written_lem = refl

sent-IsReading :
    IsReading (buffered ready 0) IsUsable to_serve stream some (sent ++ (0 ∷ [])) made.0
unfolding message_body name_width data_width get_default get_bytes packet_header message_flags le
    get_name_size_flag create_switch_channel_packet
sent-IsReading = made.2.reading

read-write_at_channel_example :
    (q : Parser (Buffered (List ℕ))) × (read (buffered ready 0) some 2 made.0
      ≡ returned (some (drafted_message hello hello_id true)) q)
    × HasRead
        (buffered ready 0)
        IsUsable
        to_serve
        stream
        some
        documented
        300
        (channel_of (made.0.channels 300))
        3
        (drafted_message hello hello_id true)
        (0 ∷ [])
        made.0
        q
    × (q.current_channel ≡ some 300)
unfolding name_width data_width get_default
read-write_at_channel_example =
    read-write_at_channel (buffered ready 0) IsUsable to_serve stream some documented keep all_bytes
      keep-Accepts 0 hello hello_id true hello_packet 300 first_writer second_writer
      new_parser_channel made.0 sent (0 ∷ []) hello-IsSendable
      (message_packet_lem hello hello_id true hello-IsSendable) written_lem refl (omega arith)
      (subst (λ n. 300 < n) (sym made.2.counted) (omega arith)) made.2.on_first made.2.first_there
      made.2.no_packet (made.2.all_channels_free 300) sent-IsReading

-- Two channels, of which the current one is in use.
abbrev half_used : ChannelManager
half_used = record { channels_count = 2; current = 1; locks = 0 ∷ 1 ∷ [] }

reserve-Reservation_example : Reservation half_used (reserve half_used)
reserve-Reservation_example = reserve-Reservation half_used (record {
  some_channel = omega arith;
  bounded = omega arith;
  current_inside = omega arith;
  one_lock_each = refl;
})

abbrev yes_reply : FastReply
yes_reply = record { code = 3; id = hello_id }

reply_packet_low_example :
    reply_packet [] yes_reply
    ≡ ok (filled (packet_header (bit_or packet_fast_reply_low_bits 3) 17 ++ hello_id) (0 ∷ []))
reply_packet_low_example = reply_packet_low yes_reply (omega arith) refl

abbrev long_reply : FastReply
long_reply = record { code = 300; id = hello_id }

reply_packet_high_example :
    reply_packet [] long_reply
    ≡ ok (
        filled
          ((packet_header (bit_or packet_fast_reply_high_bits 1) 18 ++ (44 ∷ [])) ++ hello_id)
          (0 ∷ []))
reply_packet_high_example = reply_packet_high long_reply (omega arith) (omega arith) refl
