-- ===== src/Runs/Sides.antt =====
-- The theorems on both sides of a connection at concrete inputs.
use sockety_go.Common.{
  ℕ, ◌≤◌, ◌≡◌, inl, inr, refl, sym, subst, arith, true, false, List, [], ◌∷◌, ◌++◌, none, some, ok,
  Error, external, already_sent, returned, failed, stuck, M,
}
use sockety_go.BufferedReader.{Buffered}
use sockety_go.BufferedReader.Stream.{buffered}
use sockety_go.ChannelManager.Reservation.{IsManager, lock_of}
use sockety_go.MessageDraft.{MessageDraft, message_packet, message_signature}
use sockety_go.MessageDraft.Layout.{
  IsSendable, message_body, name_width, data_width, message_packet_lem,
}
use sockety_go.Packet.{Packet, get_bytes}
use sockety_go.Packet.Filling.{filled}
use sockety_go.Packet.Header.{packet_header}
use sockety_go.Parser.{Parser, new_parser, get_default}
use sockety_go.Parser.Start.{Started, new_parser-Started}
use sockety_go.Send.{send}
use sockety_go.Send.Output.{sent_bytes, Sent, send-Sent}
use sockety_go.Send.Delivery.{read-send}
use sockety_go.Send.Sides.{InStep, Exchanged}
use sockety_go.Send.Failure.{Refuses, send-fails}
use sockety_go.StreamWriter
use sockety_go.StreamWriter.{StreamWriter, read_from}
use sockety_go.StreamWriter.Lifetime.{
  opened, finished, send_pieces, stream_packets, read_from-stuck, send_pieces-Streamed,
}
use sockety_go.Request.{UserMove, user_write, user_close, create, request_send}
use sockety_go.Request.Moves.{run_bytes}
use sockety_go.Request.Stream.{settled_request, Follows, request_send-Sent, stream_of-request_send}
use sockety_go.Writer.{Writer}
use sockety_go.Writer.Output.{switch_to}
use sockety_go.Writer.Sequence.{Streamed}
use sockety_go.Runs.{
  ready, ready-Delivers, all_bytes, IsUsable, to_serve, stream, documented, keep, keep-Accepts,
  hello, hello_id, hello-IsSendable, hello_packet,
}

-- A writer with two channels, on its first, and a draft with data only.
abbrev pub two_channels : Writer (List ℕ)
two_channels = record {
  target = [];
  channels = record { channels_count = 2; current = 0; locks = 0 ∷ 0 ∷ [] };
}

pub two_channels-IsManager : IsManager two_channels.channels
two_channels-IsManager = record {
  some_channel = omega arith;
  bounded = omega arith;
  current_inside = omega arith;
  one_lock_each = refl;
}

abbrev pub note : MessageDraft
note = record { has_stream = false; action = 104 ∷ 105 ∷ []; content = 1 ∷ 2 ∷ 3 ∷ [] }

pub note-IsSendable : IsSendable note hello_id
note-IsSendable = record {
  named = omega arith;
  short = omega arith;
  fits = omega arith;
  identified = refl;
}

abbrev note_packet : Packet
note_packet =
    filled (packet_header (message_signature true false) 21 ++ message_body note hello_id) []

pub note_packet_lem : message_packet [] note hello_id true ≡ ok note_packet
unfolding message_body name_width data_width
note_packet_lem = message_packet_lem note hello_id true note-IsSendable

send-Sent_example :
    (w' : Writer (List ℕ)) × (send keep false [] note hello_id true two_channels ≡ returned tt w')
    × Sent keep all_bytes keep-Accepts
        (get_bytes note_packet ++ sent_bytes false note)
        two_channels
        w'
send-Sent_example =
    send-Sent keep all_bytes keep-Accepts false note hello_id true note_packet two_channels 0
      note-IsSendable (inl (omega arith)) note_packet_lem two_channels-IsManager (omega arith) refl

-- The same call, its output, and a new parser of it with a heartbeat behind.
abbrev sent_note :
    (w' : Writer (List ℕ)) × (send keep false [] note hello_id true two_channels ≡ returned tt w')
    × Sent keep all_bytes keep-Accepts
        (get_bytes note_packet ++ sent_bytes false note)
        two_channels
        w'
sent_note =
    send-Sent keep all_bytes keep-Accepts false note hello_id true note_packet two_channels 0
      note-IsSendable (inl (omega arith)) note_packet_lem two_channels-IsManager (omega arith) refl

abbrev note_wire : List ℕ
note_wire =
    switch_to two_channels.channels sent_note.2.channel
    ++ (get_bytes note_packet ++ sent_bytes false note)

abbrev pub note_parser :
    (p : Parser (Buffered (List ℕ))) × (new_parser (note_wire ++ (0 ∷ [])) 0 16 ≡ ok p)
    × Started ready all_bytes ready-Delivers some (note_wire ++ (0 ∷ [])) (get_default 0 4096) p
note_parser =
    new_parser-Started ready all_bytes ready-Delivers some (note_wire ++ (0 ∷ [])) 0 16
      (omega arith) (inr (omega arith, omega arith))

note_parser-InStep :
    InStep
      (buffered ready 0)
      IsUsable
      to_serve
      stream
      some
      documented
      two_channels.channels
      (note_wire ++ (0 ∷ []))
      note_parser.0
unfolding get_default
note_parser-InStep = record {
  manager = two_channels-IsManager;
  few = subst (λ n. 2 ≤ n) (sym note_parser.2.counted) (omega arith);
  on_current = note_parser.2.on_first;
  current_there = (_, note_parser.2.first_there);
  no_packet = note_parser.2.no_packet;
  all_free = note_parser.2.all_channels_free;
  reading = note_parser.2.reading;
}

read-send_example :
    (u : Parser (Buffered (List ℕ))) × Exchanged
      (buffered ready 0)
      IsUsable
      to_serve
      stream
      some
      documented
      0
      4
      note
      hello_id
      true
      note_parser.0
      u
    × InStep
        (buffered ready 0)
        IsUsable
        to_serve
        stream
        some
        documented
        sent_note.0.channels
        (0 ∷ [])
        u
read-send_example =
    read-send (buffered ready 0) IsUsable to_serve stream some documented keep all_bytes
      keep-Accepts 0 4 0 false note hello_id true note_packet two_channels sent_note.0 note_parser.0
      note_wire (0 ∷ []) note-IsSendable refl (omega arith) (omega arith) note_packet_lem
      (omega arith) refl sent_note.1 sent_note.2.appended note_parser-InStep (omega arith)

-- What the receiver of the note gets.
pub exchanged :
    (u : Parser (Buffered (List ℕ))) × Exchanged
      (buffered ready 0)
      IsUsable
      to_serve
      stream
      some
      documented
      0
      4
      note
      hello_id
      true
      note_parser.0
      u
    × InStep
        (buffered ready 0)
        IsUsable
        to_serve
        stream
        some
        documented
        sent_note.0.channels
        (0 ∷ [])
        u
exchanged =
    read-send (buffered ready 0) IsUsable to_serve stream some documented keep all_bytes
      keep-Accepts 0 4 0 false note hello_id true note_packet two_channels sent_note.0 note_parser.0
      note_wire (0 ∷ []) note-IsSendable refl (omega arith) (omega arith) note_packet_lem
      (omega arith) refl sent_note.1 sent_note.2.appended note_parser-InStep (omega arith)

-- A target that refuses all writes.
abbrev refuse : List ℕ → M (List ℕ) (Unit {0})
refuse bytes t = failed (external 7) t

refuse-Refuses : Refuses refuse
refuse-Refuses bytes t = (external 7, t, refl)

send-fails_example :
    (channel : ℕ) × (x : Error) × (u : Writer (List ℕ)) × (send refuse false [] note hello_id true
        two_channels
      ≡ failed x u)
    × (lock_of two_channels.channels channel ≡ some 0)
    × (lock_of u.channels channel ≡ some 1)
send-fails_example =
    send-fails refuse refuse-Refuses false note hello_id true note_packet two_channels 0
      note-IsSendable (inl (omega arith)) note_packet_lem two_channels-IsManager (omega arith) refl

send_pieces-Streamed_example :
    (w' : Writer (List ℕ)) × (send_pieces keep
        ((4 ∷ []) ∷ (5 ∷ 6 ∷ []) ∷ [])
        (opened 1 two_channels none)
      ≡ returned tt (finished 1 w' none))
    × Streamed keep all_bytes keep-Accepts 1
        (stream_packets ((4 ∷ []) ∷ (5 ∷ 6 ∷ []) ∷ []))
        two_channels
        w'
send_pieces-Streamed_example =
    send_pieces-Streamed keep all_bytes keep-Accepts ((4 ∷ []) ∷ (5 ∷ 6 ∷ []) ∷ []) 1 two_channels

-- The same writer with its first channel in use.
abbrev held_writer : Writer (List ℕ)
held_writer = record two_channels {
  channels = record { channels_count = 2; current = 0; locks = 1 ∷ 0 ∷ [] };
}

read_from-stuck_example : read_from keep (λ f g. g) 5 (opened 1 two_channels none) ≡ stuck
read_from-stuck_example =
    read_from-stuck keep (λ f g. g) (λ f g s. refl) 5 (opened 1 two_channels none)

-- The application writes a piece to the stream and closes it.
abbrev piece_then_close : List UserMove
piece_then_close = user_write (4 ∷ []) ∷ user_close ∷ []

request_send-Sent_example :
    (channel : ℕ) × (w' : Writer (List ℕ)) × (request_send keep 1 piece_then_close false []
        (create hello hello_id two_channels)
      ≡ returned tt (settled_request hello hello_id channel w'))
    × (request_send keep 1 piece_then_close false [] (settled_request hello hello_id channel w')
        ≡ failed already_sent (settled_request hello hello_id channel w'))
    × Sent keep all_bytes keep-Accepts
        (get_bytes hello_packet ++ run_bytes hello 1 piece_then_close)
        two_channels
        w'
unfolding message_body name_width data_width
request_send-Sent_example =
    request_send-Sent keep all_bytes keep-Accepts 1 piece_then_close false hello hello_id
      hello_packet two_channels 0 refl hello-IsSendable refl
      (message_packet_lem hello hello_id true hello-IsSendable) two_channels-IsManager (omega arith)
      refl

stream_of-request_send_example :
    Follows refuse
      (send refuse false [] note hello_id true two_channels)
      (request_send refuse 0 [] false [] (create note hello_id two_channels))
stream_of-request_send_example =
    stream_of-request_send refuse 0 [] false note hello_id two_channels refl
