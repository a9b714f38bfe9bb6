-- ===== src/Parser/Start.antt =====
-- parser.go, NewParser: a new parser is between two packets, with every channel free.
use sockety_go.Common.{
  ℕ, zero, suc, ◌^◌, ◌≤◌, ◌<◌, ◌≡◌, ◌⊎◌, inl, inr, refl, ap, false, List, arith, Option, none, some,
  ◌==◌, if◌then◌else◌, length, ok, Bool-cases,
}
use sockety_go.BufferPool.{zeros}
use sockety_go.ProtocolUtils.{validate_channels_count, validate_read_buffer_size}
use sockety_go.BufferedReader.{Reply, Buffered, new_buffered_reader}
use sockety_go.BufferedReader.Window.{Delivers, content}
use sockety_go.BufferedReader.Stream.{IsOpen, buffered, buffered-IsStream}
use sockety_go.StreamReader.{new_unsafe_bytes, new_uint16, new_uint24, new_uint32}
use sockety_go.StreamReader.Complete.{IsAtRest}
use sockety_go.MessageReader.{new_message_reader}
use sockety_go.ParserChannel.{new_parser_channel}
use sockety_go.Parser.{Parser, new_parser, get_default, update, sub_parser_mode_header}
use sockety_go.Parser.Sizes.{IsReading}
use sockety_go.Parser.Switch.{channel_of}
use sockety_go.Parser.Messages.{IsFree}

length-zeros : (n : ℕ) → length (zeros n) ≡ n
length-zeros zero = refl
length-zeros (suc n) = ap suc (length-zeros n)

pub new_unsafe_bytes-IsAtRest : (k : ℕ) → k < 2 ^ 16 → IsAtRest k (new_unsafe_bytes k)
unfolding new_unsafe_bytes
new_unsafe_bytes-IsAtRest k small = record {
  none_read = refl;
  sized = refl;
  fits = omega (arith, length-zeros k);
  short = omega (arith, length-zeros k);
}

pub new_parser_channel-IsFree : IsFree new_parser_channel
unfolding new_parser_channel new_message_reader new_unsafe_bytes
new_parser_channel-IsFree = record {
  no_message = refl;
  no_content = refl;
  restarted = refl;
  reader_idle = record {
    uuid_rests = new_unsafe_bytes-IsAtRest 16 (omega arith);
    action_size16_rests = new_unsafe_bytes-IsAtRest 2 (omega arith);
    action_rests = new_unsafe_bytes-IsAtRest 16 (omega arith);
    data_size16_rests = new_unsafe_bytes-IsAtRest 2 (omega arith);
    data_size48_rests = new_unsafe_bytes-IsAtRest 6 (omega arith);
  };
}

-- A buffer of the default size, or one that the validation accepts.
abbrev pub IsBufferSize : ℕ → Type 0
IsBufferSize size = (size ≡ 0) ⊎ ((16 ≤ size) × (size < 2 ^ 64))

default_size :
    (size : ℕ) → IsBufferSize size → (16 ≤ get_default size 4096) × (get_default size 4096 < 2 ^ 64)
unfolding get_default
default_size size h = ground arith

default_count :
    (count : ℕ) → count ≤ 4096 → validate_channels_count (get_default count 4096) ≡ ok tt
unfolding get_default validate_channels_count
default_count count h = ground arith

buffer_accepted : (size : ℕ) → 16 ≤ size → validate_read_buffer_size size ≡ ok tt
unfolding validate_read_buffer_size
buffer_accepted size h = ground arith

every_channel-IsFree :
    (ch : ℕ) → IsFree (channel_of (if ch == 0 then some new_parser_channel else none))
every_channel-IsFree ch = elim (Bool-cases (ch == 0)) [
  | inl first ↦ rw first new_parser_channel-IsFree
  | inr later ↦ rw later new_parser_channel-IsFree
]

module _ {Q : Type 0} (source : Q → ℕ → Reply Q) (pending : Q → List ℕ)
    (d : Delivers source pending) (from_bytes : List ℕ → Option (List ℕ)) where
  -- A parser between two packets that has all its channels free, and all of the source to read.
  pub record Started (q : Q) (count : ℕ) (p : Parser (Buffered Q)) : Type 0 where
    pub reading :
        IsReading
          (buffered source 0)
          (IsOpen source pending d)
          (content source pending d)
          (buffered-IsStream source pending d 0)
          from_bytes
          (pending q)
          p
    pub no_packet : p.sub_size ≡ 0
    pub on_first : p.current_channel ≡ some 0
    pub first_there : p.channels 0 ≡ some new_parser_channel
    pub all_channels_free : (ch : ℕ) → IsFree (channel_of (p.channels ch))
    pub counted : p.channels_count ≡ count

  -- For at most 4096 channels, and a buffer of the default size or one from 16 bytes on, NewParser
  -- returns a parser that has all of the source to read, no packet begun, each channel free, and as
  -- many channels as asked for, or 4096 for 0.
  pub new_parser-Started :
      (q : Q) (channels size : ℕ)
      → channels ≤ 4096
      → IsBufferSize size
      → (p : Parser (Buffered Q)) × (new_parser q channels size ≡ ok p)
        × Started q (get_default channels 4096) p
  unfolding new_parser new_buffered_reader
  new_parser-Started q channels size few sized =
      let (large, short) = default_size size sized in
      let n = length-zeros (get_default size 4096) in
      let accepted : validate_read_buffer_size (length (zeros (get_default size 4096))) ≡ ok tt =
        buffer_accepted _ (omega (arith, n)) in
      let p : Parser (Buffered Q) = record {
        channels_count = get_default channels 4096;
        current_channel = some 0;
        channels = update (λ _. none) 0 new_parser_channel;
        reader = record {
          source = q;
          at_eof = false;
          buffer = zeros (get_default size 4096);
          available = 0;
          start = 0;
        };
        sub_size = 0;
        sub_mode = sub_parser_mode_header;
        packets_size16 = new_uint16;
        packets_size24 = new_uint24;
        packets_size32 = new_uint32;
      } in
      (
        p,
        rw (default_count channels few, new_parser) (rw (accepted, new_buffered_reader) refl),
        record {
          reading = record {
            size16_rests = new_unsafe_bytes-IsAtRest 2 (omega arith);
            size24_rests = new_unsafe_bytes-IsAtRest 3 (omega arith);
            good = (
              record {
                inside = omega (arith, n);
                sized = omega (arith, n);
                short = omega (arith, n);
                rewound = λ e. refl;
              },
              refl,
            );
            has_left = refl;
          };
          no_packet = refl;
          on_first = refl;
          first_there = refl;
          all_channels_free = every_channel-IsFree;
          counted = refl;
        },
      )
