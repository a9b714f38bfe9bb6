-- ===== src/Parser.antt =====
-- parser.go: packets from a reader. The packet that is being processed is a limited reader over the
-- parser's own reader, `sub_size` bytes long. `currentChannel` is a pointer to an entry of
-- `channels`: here the entry's id, and `none` where `channel` has returned an error.
pub mod Signature
pub mod Sizes
pub mod Messages
pub mod Switch
pub mod Start
pub mod Header
pub mod Data
pub mod DataCalls
pub mod RoundTrip
use sockety_go.Common.{
  ℕ, zero, suc, ◌+◌, ◌%◌, ◌^◌, bit_and, bit_or, Bool, true, false, not, Option, none, some, ltb,
  leb, ◌==◌, if◌then◌else◌, List, Error, eof, invalid_control_bits, invalid_channels,
  invalid_channel_id, go_away_packet, abort_packet, response_packet, continue_packet,
  fast_reply_low_packet, fast_reply_high_packet, file_packet, file_end_packet, unknown_signature,
  nil_dereference, invalid_option, impossible_path, Result, ok, err, panic, ◌>>=◌, Outcome,
  returned, failed, panicked, blocked, stuck, after, M, lift, embed,
}
use sockety_go.Constants.{
  control_byte_constant_bits_bitmask, control_byte_constant_bits, control_byte_channels_bitmask,
  control_byte_channels_single_bits, control_byte_channels_uint8_bits,
  control_byte_channels_uint16_bits, max_channels, default_read_buffer_size, packet_size_bitmask,
  packet_size_uint8_bits, packet_size_uint16_bits, packet_size_uint24_bits, packet_size_uint32_bits,
  packet_bitmask, packet_heartbeat_bits, packet_go_away_bits, packet_abort_bits,
  packet_channel_low_bits, packet_channel_high_bits, packet_message_bits, packet_response_bits,
  packet_continue_bits, packet_fast_reply_low_bits, packet_fast_reply_high_bits, packet_data_bits,
  packet_stream_bits, packet_stream_end_bits, packet_file_bits, packet_file_end_bits,
  expects_response_bits, has_stream_bits,
}
use sockety_go.BufferPool.{zeros}
use sockety_go.ByteUtils.{shl}
use sockety_go.BufferedReader.{Buffered, new_buffered_reader}
use sockety_go.ProtocolUtils.{validate_channels_count}
use sockety_go.Reader.{BufferedReader}
use sockety_go.LimitedReader
use sockety_go.LimitedReader.{Limited, limited}
use sockety_go.MessageReader.{Message}
use sockety_go.ParserChannel.{
  ParserChannel, Processing, new_parser_channel, init_message, process, process_data,
  process_stream, end_stream,
}
use sockety_go.StreamReader.{
  UnsafeBytes, get_uint8, get_uint16, get_uint24, get_uint32, new_uint16, new_uint24, new_uint32,
}

-- subParserModeHeader and the two below it.
abbrev pub sub_parser_mode_header : ℕ
sub_parser_mode_header = 0

abbrev pub sub_parser_mode_data : ℕ
sub_parser_mode_data = 1

abbrev pub sub_parser_mode_stream : ℕ
sub_parser_mode_stream = 2

pub record Parser (S : Type 0) : Type 0 where
  pub channels_count : ℕ
  pub current_channel : Option ℕ
  pub channels : ℕ → Option ParserChannel
  pub reader : S
  pub sub_size : ℕ
  pub sub_mode : ℕ
  pub packets_size16 : UnsafeBytes
  pub packets_size24 : UnsafeBytes
  pub packets_size32 : UnsafeBytes

abbrev pub update : (ℕ → Option ParserChannel) → ℕ → ParserChannel → ℕ → Option ParserChannel
update channels id c j = if j == id then some c else channels j

-- utils.go, getDefault.
unfoldable pub get_default : ℕ → ℕ → ℕ
get_default value default_value = if value == 0 then default_value else value

unfoldable pub new_parser : {Q : Type 0} → Q → ℕ → ℕ → Result (Parser (Buffered Q))
new_parser source channels buffer_size =
    let count = get_default channels max_channels in
    let buffer = zeros (get_default buffer_size default_read_buffer_size) in
    elim (validate_channels_count count) [
      | ok _ ↦ new_buffered_reader source buffer >>= λ reader. ok (record {
        channels_count = count;
        current_channel = some 0;
        channels = update (λ _. none) 0 new_parser_channel;
        reader = reader;
        sub_size = 0;
        sub_mode = sub_parser_mode_header;
        packets_size16 = new_uint16;
        packets_size24 = new_uint24;
        packets_size32 = new_uint32;
      })
      | err _ ↦ panic invalid_option
      | panic x ↦ panic x
    ]

module _ {S : Type 0} where
  abbrev pub on_reader : {A : Type 0} → M S A → M (Parser S) A
  on_reader m p = embed (λ s. record p { reader = s }) (m p.reader)

  unfoldable pub channel : ℕ → M (Parser S) (Unit {0})
  channel id p =
      if leb p.channels_count id
      then failed invalid_channel_id (record p { current_channel = none })
      else (elim (p.channels id) [
        | some _ ↦ returned tt (record p { current_channel = some id })
        | none ↦ returned tt (record p {
          current_channel = some id;
          channels = update p.channels id new_parser_channel;
        })
      ])

  -- A method of the current channel.
  abbrev pub on_channel : {A : Type 0} → (ℕ → ParserChannel → Outcome (Parser S) A) → M (Parser S) A
  on_channel f p = elim p.current_channel [
    | none ↦ panicked nil_dereference
    | some id ↦ elim (p.channels id) [ none ↦ panicked nil_dereference | some c ↦ f id c ]
  ]

  -- A method of the current channel on the packet.
  abbrev pub on_sub : {A : Type 0} → M (Processing (Limited S)) A → M (Parser S) A
  on_sub m p =
      on_channel
        (λ id c.
          embed
            (λ q. record p {
              channels = update p.channels id q.channel;
              reader = q.source.b;
              sub_size = q.source.size;
            })
            (m (record { channel = c; source = record { b = p.reader; size = p.sub_size } })))
        p

module _ {S : Type 0} (r : BufferedReader S) (from_bytes : List ℕ → Option (List ℕ)) where
  -- The reader of this number is made for the call.
  abbrev header_uint16 : M (Parser S) ℕ
  header_uint16 p = embed (λ us. record p { reader = us.1 }) (get_uint16 r (new_uint16, p.reader))

  abbrev checked_channels : ℕ → Parser S → Outcome (Parser S) ℕ
  checked_channels v p = if ltb max_channels v then failed invalid_channels p else returned v p

  -- The number of channels that the other side accepts.
  unfoldable pub read_header : M (Parser S) ℕ
  read_header p = after (on_reader r.read_byte p) λ header p.
      let size = bit_and header control_byte_channels_bitmask in
      if not (bit_and header control_byte_constant_bits_bitmask == control_byte_constant_bits)
      then failed invalid_control_bits p
      else if size == control_byte_channels_single_bits
      then returned 1 p
      else if size == control_byte_channels_uint8_bits
      then on_reader (get_uint8 r) p
      else if size == control_byte_channels_uint16_bits
      then after (header_uint16 p) checked_channels
      else returned max_channels p

  unfoldable pub get_packet_size : ℕ → M (Parser S) ℕ
  get_packet_size signature p =
      let bits = bit_and signature packet_size_bitmask in
      if bits == packet_size_uint8_bits
      then on_reader (get_uint8 r) p
      else if bits == packet_size_uint16_bits
      then embed (λ us. record p { packets_size16 = us.0; reader = us.1 })
          (get_uint16 r (p.packets_size16, p.reader))
      else if bits == packet_size_uint24_bits
      then embed (λ us. record p { packets_size24 = us.0; reader = us.1 })
          (get_uint24 r (p.packets_size24, p.reader))
      else if bits == packet_size_uint32_bits
      then embed (λ us. record p { packets_size32 = us.0; reader = us.1 })
          (get_uint32 r (p.packets_size32, p.reader))
      else panicked impossible_path

  abbrev nothing : Outcome (Parser S) (Unit {0}) → Outcome (Parser S) (Option Message)
  nothing out = after out (λ _ p. returned none p)

  -- A round of the channel's loops takes a byte of the packet at least.
  unfoldable pub sub_data : M (Parser S) (Option Message)
  sub_data p = nothing (on_sub (process_data (limited r) from_bytes (suc p.sub_size)) p)

  unfoldable pub sub_stream : M (Parser S) (Option Message)
  sub_stream p = nothing (on_sub (process_stream (limited r) from_bytes (suc p.sub_size)) p)

  -- The rest of a packet that an earlier call has begun.
  unfoldable pub read_sub : M (Parser S) (Option Message)
  read_sub p =
      let sub : Limited S = record { b = p.reader; size = p.sub_size } in
      let loaded =
        if LimitedReader.len r sub == 0
        then embed (λ l. record p { reader = l.b; sub_size = l.size }) (LimitedReader.preload r sub)
        else returned tt p in
      after loaded λ _ p.
        if p.sub_mode == sub_parser_mode_header
        then on_sub (process (limited r) from_bytes) p
        else if p.sub_mode == sub_parser_mode_data
        then sub_data p
        else if p.sub_mode == sub_parser_mode_stream
        then sub_stream p
        else panicked impossible_path

  -- `a & b == b`.
  abbrev has_bits : ℕ → ℕ → Bool
  has_bits signature bits = bit_and signature bits == bits

  unfoldable pub read_message : ℕ → M (Parser S) (Option Message)
  read_message signature p =
      let expects_response = has_bits signature expects_response_bits in
      let has_stream = has_bits signature has_stream_bits in
      after (get_packet_size signature p) λ size p.
        on_channel
          (λ id c. elim (init_message expects_response has_stream c) [
            | err e ↦ failed e p
            | panic x ↦ panicked x
            | ok c' ↦ on_sub (process (limited r) from_bytes) (record p {
              channels = update p.channels id c';
              sub_mode = sub_parser_mode_header;
              sub_size = size;
            })
          ])
          p

  unfoldable pub read_data : ℕ → M (Parser S) (Option Message)
  read_data signature p =
      after (get_packet_size signature p)
        λ size p. sub_data (record p { sub_mode = sub_parser_mode_data; sub_size = size })

  unfoldable pub read_stream : ℕ → M (Parser S) (Option Message)
  read_stream signature p =
      after (get_packet_size signature p)
        λ size p. sub_stream (record p { sub_mode = sub_parser_mode_stream; sub_size = size })

  unfoldable pub read_stream_end : M (Parser S) (Option Message)
  read_stream_end p = nothing (
      on_channel
        (λ id c. embed (λ c. record p { channels = update p.channels id c }) (end_stream c)) p)

  -- The channel of a switch packet, from one byte or two.
  unfoldable pub switch_low : ℕ → M (Parser S) (Unit {0})
  switch_low signature = channel (bit_and signature 0b00001111)

  unfoldable pub switch_high : ℕ → M (Parser S) (Unit {0})
  switch_high signature p =
      after (on_reader r.read_byte p)
        λ next. channel (bit_or (shl 16 (bit_and signature 0b00001111) 8) next)

  -- The packets that end the call.
  unfoldable pub read_packet : ℕ → M (Parser S) (Option Message)
  read_packet signature p =
      let code = bit_and signature packet_bitmask in
      if code == packet_go_away_bits
      then failed go_away_packet p
      else if code == packet_abort_bits
      then failed abort_packet p
      else if code == packet_message_bits
      then read_message signature p
      else if code == packet_response_bits
      then failed response_packet p
      else if code == packet_continue_bits
      then failed continue_packet p
      else if code == packet_fast_reply_low_bits
      then failed fast_reply_low_packet p
      else if code == packet_fast_reply_high_bits
      then failed fast_reply_high_packet p
      else if code == packet_data_bits
      then read_data signature p
      else if code == packet_stream_bits
      then read_stream signature p
      else if code == packet_stream_end_bits
      then read_stream_end p
      else if code == packet_file_bits
      then failed file_packet p
      else if code == packet_file_end_bits
      then failed file_end_packet p
      else failed (unknown_signature signature) p

  -- Heartbeats and switches of the channel go before the packet that ends the call.
  unfoldable pub read_loop : ℕ → M (Parser S) (Option Message)
  read_loop zero p = stuck
  read_loop (suc rounds) p = after (on_reader r.read_byte p) λ signature p.
      let code = bit_and signature packet_bitmask in
      let heartbeat = read_loop rounds p in
      let low = after (switch_low signature p) (λ _ p. read_loop rounds p) in
      let high = after (switch_high signature p) (λ _ p. read_loop rounds p) in
      if code == packet_heartbeat_bits
      then heartbeat
      else if code == packet_channel_low_bits
      then low
      else if code == packet_channel_high_bits
      then high
      else read_packet signature p

  unfoldable pub read : ℕ → M (Parser S) (Option Message)
  read rounds p =
      let loop = read_loop rounds p in
      if r.may_have 1 p.reader
      then (if ltb 0 p.sub_size then read_sub p else loop)
      else failed eof p
