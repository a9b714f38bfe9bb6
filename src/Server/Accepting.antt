-- ===== src/Server/Accepting.antt =====
-- server.go, acceptConnections: a round of it on a connection whose other side sends its header.
use sockety_go.Common.{
  ℕ, ◌≤◌, ◌<◌, ◌≡◌, refl, sym, ap, subst, Bool, true, false, List, [], ◌∷◌, ◌++◌, Option, some,
  get_elem?, ok, returned, M,
}
use sockety_go.BufferedReader.{Reply}
use sockety_go.BufferedReader.Window.{Delivers}
use sockety_go.Conn.{Conn, new_conn}
use sockety_go.Conn.Handshake.{count_of, Connected, new_conn-Connected}
use sockety_go.GoChannel
use sockety_go.GoChannel.{has_room}
use sockety_go.Parser.Header.{announced}
use sockety_go.Parser.Start.{IsBufferSize}
use sockety_go.ProtocolUtils.{create_protocol_header}
use sockety_go.Writer.Output.{Accepts}
use sockety_go.Server.{Server, Raw, is_cancelled, handle_connection, serve, accept_connection}

module _ {N L Q T : Type 0} (source : Q → ℕ → Reply Q) (pending : Q → List ℕ)
    (d : Delivers source pending) (from_bytes : List ℕ → Option (List ℕ))
    (write_to : List ℕ → M T (Unit {0})) (output : T → List ℕ) (a : Accepts write_to output)
    (names_closed : ℕ → Bool) (accept_on : L → M N (Raw Q T)) where
  -- The server when the connection has been received from its channel.
  abbrev pub handed_over : Conn Q T → Server N L Q T → Server N L Q T
  handed_over c s = record s { conn_ch = record (s.conn_ch) { sent = s.conn_ch.sent ++ (c ∷ []) } }

  handle_connection_lem :
      (c : Conn Q T) (s : Server N L Q T)
      → s.conn_ch.closed ≡ false
      → has_room s.conn_ch ≡ true
      → handle_connection c s ≡ returned tt (handed_over c s)
  unfolding handle_connection GoChannel.send
  handle_connection_lem c s still_open room = rw (still_open, room) refl

  serve_lem :
      (i : ℕ) (raw : Raw Q T) (c : Conn Q T) (u : T) (s : Server N L Q T)
      → get_elem? s.contexts i ≡ some false
      → new_conn source from_bytes 0 write_to false raw.read_half
          (some s.conn_options)
          raw.write_half
        ≡ returned c u
      → s.conn_ch.closed ≡ false
      → has_room s.conn_ch ≡ true
      → serve source from_bytes 0 write_to names_closed accept_on i raw s
        ≡ returned tt (handed_over c s)
  unfolding serve
  serve_lem i raw c u s running got still_open room =
      rw (serve, is_cancelled, running, got) (handle_connection_lem c s still_open room)

  accept_connection_lem :
      (i : ℕ) (raw : Raw Q T) (l : L) (c : Conn Q T) (u : T) (n : N) (s : Server N L Q T)
      → get_elem? s.contexts i ≡ some false
      → s.listener ≡ some l
      → accept_on l s.network ≡ returned raw n
      → new_conn source from_bytes 0 write_to false raw.read_half
          (some s.conn_options)
          raw.write_half
        ≡ returned c u
      → s.conn_ch.closed ≡ false
      → has_room s.conn_ch ≡ true
      → accept_connection source from_bytes 0 write_to names_closed accept_on i s
        ≡ returned true (handed_over c (record s { network = n }))
  unfolding accept_connection
  accept_connection_lem i raw l c u n s running listens got made still_open room =
      subst
        (λ x.
          accept_connection source from_bytes 0 write_to names_closed accept_on i x
          ≡ returned true (handed_over c (record x { network = n })))
        (sym (ap (λ k. record s { listener = k }) listens))
        (rw
          (
            accept_connection,
            is_cancelled,
            running,
            got,
            serve_lem i raw c u (record s { network = n; listener = some l }) running made
                still_open room,
          )
          refl)

  -- A round of `acceptConnections` of a server that listens, whose listener yields a connection with the header
  -- of its other side, for 1 to 4096 channels, while a receive waits: the server makes a connection of it,
  -- with its own header written and the header of the other side read, sends it, and goes on. The
  -- context is not cancelled, the target returns no errors, and the options are of at most 4096 channels, with a
  -- buffer of the default size or of 16 bytes or more.
  pub accept_connection-Connected :
      (i : ℕ) (raw : Raw Q T) (l : L) (n : N) (s : Server N L Q T) (peer : ℕ)
      (header own left : List ℕ)
      → get_elem? s.contexts i ≡ some false
      → s.listener ≡ some l
      → accept_on l s.network ≡ returned raw n
      → s.conn_ch.closed ≡ false
      → has_room s.conn_ch ≡ true
      → s.conn_options.channels ≤ 4096
      → s.conn_options.write_channels ≤ 4096
      → IsBufferSize s.conn_options.read_buffer_size
      → 0 < peer
      → peer ≤ 4096
      → create_protocol_header peer ≡ ok header
      → create_protocol_header (count_of s.conn_options.channels) ≡ ok own
      → pending raw.read_half ≡ header ++ left
      → (c : Conn Q T) × (accept_connection source from_bytes 0 write_to names_closed accept_on i s
          ≡ returned true (handed_over c (record s { network = n })))
        × Connected source pending d from_bytes write_to output a
            (count_of s.conn_options.channels)
            (announced peer)
            (count_of s.conn_options.write_channels)
            own
            left
            raw.write_half
            c.w.target
            c
  accept_connection-Connected i raw l n s peer header own left running listens got still_open room
        few few_written sized some_channels bounded made own_made begins =
      let (c, u, e, h) =
        new_conn-Connected source pending d from_bytes write_to output a false raw.read_half
          s.conn_options raw.write_half peer header own left few few_written sized some_channels
          bounded made own_made begins in
      (
        c,
        accept_connection_lem i raw l c u n s running listens got e still_open room,
        subst
            (λ k.
              Connected source pending d from_bytes write_to output a
                (count_of s.conn_options.channels) (announced peer)
                (count_of s.conn_options.write_channels) own left raw.write_half k c)
            (sym h.target_is) h,
      )
