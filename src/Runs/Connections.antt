-- ===== src/Runs/Connections.antt =====
-- The theorems on connections and servers at concrete inputs.
use sockety_go.Common.{
  ℕ, ◌+◌, ◌≡◌, inl, inr, refl, arith, Bool, true, false, List, [], ◌∷◌, ◌++◌, none, some,
  server_closed, already_listening, nil_dereference, send_on_closed_channel, returned, failed,
  panicked, after, M,
}
use sockety_go.DoneSignal.{new_done_signal, load}
use sockety_go.Parser.{get_default}
use sockety_go.Parser.Messages.{drafted_message}
use sockety_go.ProtocolUtils.{create_protocol_header}
use sockety_go.Conn.{
  ConnOptions, Conn, fresh, new_conn, offers, offer, ctx_cancel, after_read, handle_read,
}
use sockety_go.Conn.Steps.{reads, sends, World, at, Step, Reach, starts, later, handler_offers}
use sockety_go.Conn.{mark_connection_as_closed}
use sockety_go.Conn.Marks.{Closed, mark_connection_as_closed-Closed, Closes}
use sockety_go.Conn.Life.{IsLive}
use sockety_go.Conn.Reachable.{Reach-IsLive, Reach-panics}
use sockety_go.Conn.Handshake.{Connected, new_conn-Connected}
use sockety_go.Conn.Agreement.{AreInStep, new_conn-InStep}
use sockety_go.Network.{tcp, validate_network, same_text}
use sockety_go.Server.{
  Server, new_server, done, is_cancelled, handle_close, handle_connection, accept, listen_context,
  close,
}
use sockety_go.Server.{Raw, accept_connection}
use sockety_go.Server.Accepting.{handed_over, accept_connection-Connected}
use sockety_go.Server.Lifecycle.{
  listening, stopped, ended, close-listen_context, handle_close-relisten,
}
use sockety_go.Runs.{ready, ready-Delivers, all_bytes, documented, keep, keep-Accepts, hello_id}
use sockety_go.Runs.Sides.{two_channels, note, note_parser, exchanged}

abbrev few_options : ConnOptions
few_options = record {
  channels = 2;
  write_channels = 0;
  buffered_messages = 0;
  read_buffer_size = 16;
}

abbrev more_options : ConnOptions
more_options = record {
  channels = 300;
  write_channels = 7;
  buffered_messages = 0;
  read_buffer_size = 0;
}

abbrev few_header : List ℕ
few_header = 0b11100001 ∷ 2 ∷ []

abbrev more_header : List ℕ
more_header = 0b11100010 ∷ 44 ∷ 1 ∷ []

new_conn-Connected_example :
    (c : Conn (List ℕ) (List ℕ)) × (u : List ℕ) × (new_conn ready some 0 keep false
        (more_header ++ (9 ∷ []))
        (some few_options)
        []
      ≡ returned c u)
    × Connected ready all_bytes ready-Delivers some keep all_bytes keep-Accepts 2 300 4096
        few_header
        (9 ∷ [])
        []
        u
        c
unfolding create_protocol_header get_default
new_conn-Connected_example =
    new_conn-Connected ready all_bytes ready-Delivers some keep all_bytes keep-Accepts false
      (more_header ++ (9 ∷ [])) few_options [] 300 more_header few_header (9 ∷ []) (omega arith)
      (omega arith) (inr (omega arith, omega arith)) (omega arith) (omega arith) refl refl refl

new_conn-InStep_example :
    (c : Conn (List ℕ) (List ℕ)) × (c2 : Conn (List ℕ) (List ℕ)) × (new_conn ready some 0 keep false
        (more_header ++ (9 ∷ []))
        (some few_options)
        []
      ≡ returned c c.w.target)
    × (new_conn ready some 0 keep false (few_header ++ (8 ∷ [])) (some more_options) []
        ≡ returned c2 c2.w.target)
    × (c.w.target ≡ few_header)
    × (c2.w.target ≡ more_header)
    × AreInStep ready all_bytes ready-Delivers some documented keep all_bytes keep-Accepts
        c.w.channels
        (8 ∷ [])
        c2.p
    × AreInStep ready all_bytes ready-Delivers some documented keep all_bytes keep-Accepts
        c2.w.channels
        (9 ∷ [])
        c.p
unfolding create_protocol_header get_default
new_conn-InStep_example =
    new_conn-InStep ready all_bytes ready-Delivers some documented keep all_bytes keep-Accepts false
      false (more_header ++ (9 ∷ [])) (few_header ++ (8 ∷ [])) few_options more_options [] []
      few_header more_header (9 ∷ []) (8 ∷ []) (omega arith) (omega arith)
      (inr (omega arith, omega arith)) (omega arith) (omega arith) (inl refl) (λ e. omega arith)
      (λ e. omega arith) refl refl refl refl

-- A Close that succeeds.
abbrev closing : M (List ℕ) (Unit {0})
closing t = returned tt t

closing-Closes : Closes closing
closing-Closes t = inl (t, refl)

abbrev never : ℕ → Bool
never e = false

abbrev Reached : World (List ℕ) (List ℕ) → Type 0
Reached x = Reach ready some 0 closing never x

abbrev cancelled : Conn (List ℕ) (List ℕ)
cancelled = fresh two_channels note_parser.0 true 0

Reach-IsLive_example : IsLive cancelled
Reach-IsLive_example =
    Reach-IsLive ready some 0 closing never closing-Closes {x = at cancelled reads true}
      (starts two_channels note_parser.0 true 0)

abbrev Steps : World (List ℕ) (List ℕ) → World (List ℕ) (List ℕ) → Type 0
Steps x y = Step ready some 0 closing never x y

-- A connection that reads.
abbrev reading : Conn (List ℕ) (List ℕ)
reading = fresh two_channels note_parser.0 false 0

reading-IsLive : IsLive reading
reading-IsLive =
    Reach-IsLive ready some 0 closing never closing-Closes {x = at reading reads true}
      (starts two_channels note_parser.0 false 0)

mark_connection_as_closed-Closed_example :
    (c : Conn (List ℕ) (List ℕ)) × (mark_connection_as_closed closing reading ≡ returned tt c)
    × Closed reading c
mark_connection_as_closed-Closed_example =
    mark_connection_as_closed-Closed closing closing-Closes reading reading-IsLive.0
      reading-IsLive.1

-- A connection that has read the message of the note, and waits to send it.
abbrev got_note : Conn (List ℕ) (List ℕ)
got_note = fresh two_channels exchanged.1.middle false 0

got_note_lem :
    handle_read ready some 0 closing never 2 (fresh two_channels note_parser.0 false 0)
    ≡ returned (offers (drafted_message note hello_id true)) got_note
unfolding handle_read after_read fresh new_done_signal load
got_note_lem = rw (exchanged.1.message_read, after_read) refl

Reach-panics_example :
    (u : Conn (List ℕ) (List ℕ)) × Steps
      (at got_note (sends (drafted_message note hello_id true)) true)
      (at (ctx_cancel got_note) (sends (drafted_message note hello_id true)) true)
    × Steps
        (at (ctx_cancel got_note) (sends (drafted_message note hello_id true)) true)
        (at u (sends (drafted_message note hello_id true)) false)
    × (offer (drafted_message note hello_id true) u ≡ panicked send_on_closed_channel)
Reach-panics_example =
    Reach-panics ready some 0 closing never closing-Closes {c = got_note}
      (drafted_message note hello_id true)
      (later (starts two_channels note_parser.0 false 0)
        (handler_offers 2 (drafted_message note hello_id true) got_note_lem))

-- A network whose listeners are numbers.
abbrev listen_on : List ℕ → List ℕ → M ℕ ℕ
listen_on network address n = returned n (n + 1)

abbrev close_listener : ℕ → M ℕ (Unit {0})
close_listener l n = returned tt n

abbrev idle : Server ℕ ℕ (List ℕ) (List ℕ)
idle = new_server 0 few_options

abbrev stops : Server ℕ ℕ (List ℕ) (List ℕ)
stops = stopped listen_on close_listener idle 1

abbrev runs : Server ℕ ℕ (List ℕ) (List ℕ)
runs = listening listen_on close_listener idle false 1 0

abbrev stops_ended : Server ℕ ℕ (List ℕ) (List ℕ)
stops_ended = ended listen_on close_listener stops

close-listen_context_example :
    (listen_context listen_on false tcp [] idle ≡ returned tt runs)
    × (listen_context listen_on false tcp [] runs ≡ failed already_listening runs)
    × (close close_listener runs ≡ returned tt stops)
    × (is_cancelled stops.ctx stops ≡ true)
    × (done stops ≡ true)
    × (handle_close 0 stops ≡ returned tt stops_ended)
    × (accept true none stops_ended ≡ failed server_closed stops_ended)
    × (accept false none stops_ended ≡ returned none stops_ended)
    × (close close_listener stops ≡ panicked nil_dereference)
unfolding new_server validate_network same_text
close-listen_context_example =
    close-listen_context listen_on close_listener idle false tcp [] 1 1 0 refl refl refl refl

handle_close-relisten_example :
    (again : Server ℕ ℕ (List ℕ) (List ℕ)) × (after
        (listen_context listen_on false tcp [] idle)
        (λ _ u.
          after
            (close close_listener u)
            λ _ u. after (listen_context listen_on false tcp [] u) λ _ u. handle_close 0 u)
      ≡ returned tt again)
    × (again.listener ≡ some 1)
    × (done again ≡ false)
    × (handle_connection got_note again ≡ panicked send_on_closed_channel)
unfolding new_server validate_network same_text
handle_close-relisten_example =
    handle_close-relisten listen_on close_listener idle false tcp [] 1 1 2 0 1 got_note refl refl
      refl refl refl

-- A listener that yields a connection with a header for 300 channels, and a server with a waiting receive.
abbrev incoming : Raw (List ℕ) (List ℕ)
incoming = record { read_half = more_header ++ (9 ∷ []); write_half = [] }

abbrev accept_on : ℕ → M ℕ (Raw (List ℕ) (List ℕ))
accept_on l n = returned incoming n

abbrev awaiting : Server ℕ ℕ (List ℕ) (List ℕ)
awaiting = record runs {
  conn_ch = record { capacity = 0; sent = []; receives = 1; closed = false };
}

accept_connection-Connected_example :
    (c : Conn (List ℕ) (List ℕ)) × (accept_connection ready some 0 keep never accept_on 0 awaiting
      ≡ returned true (
          handed_over ready all_bytes ready-Delivers some keep all_bytes keep-Accepts never
            accept_on c awaiting))
    × Connected ready all_bytes ready-Delivers some keep all_bytes keep-Accepts 2 300 4096
        few_header
        (9 ∷ [])
        []
        c.w.target
        c
unfolding create_protocol_header get_default new_server
accept_connection-Connected_example =
    accept_connection-Connected ready all_bytes ready-Delivers some keep all_bytes keep-Accepts
      never accept_on 0 incoming 0 1 awaiting 300 more_header few_header (9 ∷ []) refl refl refl
      refl refl (omega arith) (omega arith) (inr (omega arith, omega arith)) (omega arith)
      (omega arith) refl refl refl
