-- ===== src/StreamWriter/Lifetime.antt =====
-- message_stream_writer.go: a stream from its first byte to its end, and after it.
use sockety_go.Common.{
  ℕ, zero, suc, ◌≡◌, refl, List, [], ◌∷◌, ◌++◌, Option, none, some, length, Error, stream_closed,
  returned, failed, stuck, after, M,
}
use sockety_go.Constants.{packet_stream_bits, packet_stream_end_bits}
use sockety_go.DoneSignal
use sockety_go.DoneSignal.{new_done_signal}
use sockety_go.DoneSignal.Once.{shut}
use sockety_go.FifoMutex
use sockety_go.FifoMutex.{new_fifo_mutex}
use sockety_go.Writer.{Writer, write_external_with_signature_at_channel, write_raw_at_channel}
use sockety_go.Packet.Header.{packet_header}
use sockety_go.Writer.Output.{Accepts, write_raw_at_channel-Wrote, write_external-Wrote}
use sockety_go.Writer.Sequence.{Streamed, joined_output}
use sockety_go.StreamWriter.{StreamWriter, write, write_open, close, close_open, read_from}

-- The two states of a stream that no call is in, once `send` has unlocked it.
abbrev pub opened : {T : Type 0} → ℕ → Writer T → Option Error → StreamWriter T
opened channel w e = record {
  channel = channel;
  writer = w;
  done = new_done_signal;
  mu = new_fifo_mutex 1;
  err = e;
}

abbrev pub finished : {T : Type 0} → ℕ → Writer T → Option Error → StreamWriter T
finished channel w e = record {
  channel = channel;
  writer = w;
  done = shut;
  mu = new_fifo_mutex 1;
  err = e;
}

-- The packet of a piece of the stream, and all packets of a stream.
abbrev pub piece_packet : List ℕ → List ℕ
piece_packet p = packet_header packet_stream_bits (length p) ++ p

abbrev pub stream_packets : List (List ℕ) → List ℕ
stream_packets [] = packet_stream_end_bits ∷ []
stream_packets (p ∷ ps) = piece_packet p ++ stream_packets ps

module _ {T : Type 0} (write_to : List ℕ → M T (Unit {0})) where
  -- Each piece is written, then the stream is closed; the first error ends this.
  abbrev pub send_pieces : List (List ℕ) → M (StreamWriter T) (Unit {0})
  send_pieces [] s = close write_to s
  send_pieces (p ∷ ps) s = after (write write_to p s) (λ _ s. send_pieces ps s)

  -- After the end of the stream nothing more is written: `Write` fails, and `Close` does nothing.
  write-finished :
      (p : List ℕ) (channel : ℕ) (w : Writer T) (e : Option Error)
      → (write write_to p (finished channel w e) ≡ failed stream_closed (finished channel w e))
        × (close write_to (finished channel w e) ≡ returned tt (finished channel w e))
  unfolding write close DoneSignal.load FifoMutex.lock FifoMutex.unlock new_fifo_mutex
  write-finished p channel w e = (refl, refl)

  pub write_goes :
      (p : List ℕ) (channel : ℕ) (w w' : Writer T) (e : Option Error)
      → write_external_with_signature_at_channel write_to channel packet_stream_bits p w
        ≡ returned tt w'
      → write write_to p (opened channel w e) ≡ returned (length p) (opened channel w' e)
  unfolding write write_open DoneSignal.load new_done_signal FifoMutex.lock FifoMutex.unlock
      new_fifo_mutex
  write_goes p channel w w' e h = rw (h, write_open) refl

  pub close_goes :
      (channel : ℕ) (w w' : Writer T) (e : Option Error)
      → write_raw_at_channel write_to channel (packet_stream_end_bits ∷ []) w ≡ returned tt w'
      → close write_to (opened channel w e) ≡ returned tt (finished channel w' e)
  unfolding close close_open DoneSignal.load DoneSignal.close DoneSignal.close_ch new_done_signal
      FifoMutex.lock FifoMutex.unlock new_fifo_mutex
  close_goes channel w w' e h = rw (h, close_open) refl

  -- An error of the connection, in `Write` and in `Close`.
  pub write-fails :
      (p : List ℕ) (channel : ℕ) (w w' : Writer T) (e : Option Error) (x : Error)
      → write_external_with_signature_at_channel write_to channel packet_stream_bits p w
        ≡ failed x w'
      → write write_to p (opened channel w e) ≡ failed x (finished channel w' (some x))
  unfolding write write_open DoneSignal.load DoneSignal.close DoneSignal.close_ch new_done_signal
      FifoMutex.lock FifoMutex.unlock new_fifo_mutex
  write-fails p channel w w' e x h = rw (h, write_open) refl

  pub close-fails :
      (channel : ℕ) (w w' : Writer T) (e : Option Error) (x : Error)
      → write_raw_at_channel write_to channel (packet_stream_end_bits ∷ []) w ≡ failed x w'
      → close write_to (opened channel w e) ≡ failed x (opened channel w' (some x))
  unfolding close close_open DoneSignal.load new_done_signal FifoMutex.lock FifoMutex.unlock
      new_fifo_mutex
  close-fails channel w w' e x h = rw (h, close_open) refl

  -- io.Copy calls the `ReadFrom` of its target, if the source has no `WriteTo`: then `ReadFrom` of a stream
  -- calls itself, to any depth, and never returns.
  pub read_from-stuck :
      (copy : (List ℕ → M (StreamWriter T) ℕ) → M (StreamWriter T) ℕ → M (StreamWriter T) ℕ)
      → ((f : List ℕ → M (StreamWriter T) ℕ) (g : M (StreamWriter T) ℕ) (s : StreamWriter T)
          → copy f g s ≡ g s)
      → (depth : ℕ) (s : StreamWriter T) → read_from write_to copy depth s ≡ stuck
  unfolding read_from
  read_from-stuck copy reads_from zero s = refl
  read_from-stuck copy reads_from (suc depth) s =
      rw
        (
          reads_from (write write_to) (read_from write_to copy depth) s,
          read_from-stuck copy reads_from depth s,
        )
        refl

module _ {T : Type 0} (write_to : List ℕ → M T (Unit {0})) (output : T → List ℕ)
    (a : Accepts write_to output) where
  -- On a target without errors the pieces of a stream are written as one packet each, in order, on the
  -- channel of the stream, and then the packet of its end; one switch goes before them where the
  -- writer is on another channel. The stream is finished then: its mutex is free, and who waits for
  -- `Done` goes on.
  pub send_pieces-Streamed :
      (pieces : List (List ℕ)) (channel : ℕ) (w : Writer T)
      → (w' : Writer T) × (send_pieces write_to pieces (opened channel w none)
          ≡ returned tt (finished channel w' none))
        × Streamed write_to output a channel (stream_packets pieces) w w'
  send_pieces-Streamed [] channel w =
      let (v, e, h) =
        write_raw_at_channel-Wrote write_to output a channel (packet_stream_end_bits ∷ []) w in
      (
        v,
        close_goes write_to channel w v none e,
        record { appended = h.appended; now_current = h.now_current },
      )
  send_pieces-Streamed (p ∷ pieces) channel w =
      let (v, e, h) = write_external-Wrote write_to output a channel packet_stream_bits p w in
      let (u, rest, g) = send_pieces-Streamed pieces channel v in
      (
        u,
        rw (write_goes write_to p channel w v none e) rest,
        joined_output write_to output a channel (piece_packet p) (stream_packets pieces) w v u h g,
      )
