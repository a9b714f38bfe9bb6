-- ===== src/Send.antt =====
-- message_draft.go, from the packet on: `send`, and requests. `send` starts a goroutine that writes the data,
-- and one that waits for the end of the stream; each write holds the writer's mutex, so that the writes
-- come in some order, which is an argument here.
pub mod Output
pub mod Sides
pub mod Delivery
pub mod Failure
use sockety_go.Common.{
  ℕ, Bool, true, false, not, ◌&&◌, List, [], ◌∷◌, ◌++◌, Option, none, some, ltb, ◌==◌,
  if◌then◌else◌, length, Error, already_sent, Outcome, returned, failed, panicked, blocked, stuck,
  after, M, lift, embed,
}
use sockety_go.Constants.{packet_data_bits, packet_stream_end_bits}
use sockety_go.DoneSignal
use sockety_go.DoneSignal.{DoneSignal, new_done_signal}
use sockety_go.FifoMutex
use sockety_go.MessageDraft.{MessageDraft, message_packet}
use sockety_go.Packet.{Packet}
use sockety_go.ProtocolUtils.{get_data_size_bytes}
use sockety_go.StreamWriter
use sockety_go.StreamWriter.{StreamWriter, new_stream_writer, on_mu, error_of}
use sockety_go.Writer.{
  Writer, obtain_channel, release_channel, write, write_at_channel, write_raw_at_channel,
  write_external_with_signature_at_channel,
}

-- What is written after the message's packet, if nobody writes to the stream.
pub data Part : Type 0 where
  data_part end_part : Part

-- The parts of a draft, with the data written before the end of the stream, or after it.
unfoldable pub parts : Bool → ℕ → Bool → List Part
parts data_last data_size_bytes has_stream =
    let written = if ltb 0 data_size_bytes then data_part ∷ [] else [] in
    let ended = if has_stream then end_part ∷ [] else [] in
    if data_last then ended ++ written else written ++ ended

-- The state of `send`: `final_error` is finalErr.
pub record Sending (W : Type 0) : Type 0 where
  pub writer : W
  pub final_error : Option Error

-- A write whose error is kept for the end.
abbrev pub noted : {W : Type 0} → Outcome W (Unit {0}) → M (Sending W) (Unit {0})
noted (returned _ w) s = returned tt (record s { writer = w })
noted (failed e w) s = returned tt (record { writer = w; final_error = some e })
noted (panicked x) s = panicked x
noted blocked s = blocked
noted stuck s = stuck

-- The result of `send`.
abbrev pub final : {W : Type 0} → M (Sending W) (Unit {0})
final s = elim s.final_error [ none ↦ returned tt s | some e ↦ failed e s ]

abbrev pub writer_of : {W : Type 0} → Outcome (Sending W) (Unit {0}) → Outcome W (Unit {0})
writer_of (returned a s) = returned a s.writer
writer_of (failed e s) = failed e s.writer
writer_of (panicked x) = panicked x
writer_of blocked = blocked
writer_of stuck = stuck

module _ {T : Type 0} (write_to : List ℕ → M T (Unit {0})) where
  unfoldable pub run_part : ℕ → MessageDraft → Part → M (Sending (Writer T)) (Unit {0})
  run_part channel m data_part s =
      noted
        (write_external_with_signature_at_channel write_to channel packet_data_bits m.content
          s.writer)
        s
  run_part channel m end_part s =
      noted (write_raw_at_channel write_to channel (packet_stream_end_bits ∷ []) s.writer) s

  unfoldable pub run_parts : ℕ → MessageDraft → List Part → M (Sending (Writer T)) (Unit {0})
  run_parts channel m [] s = returned tt s
  run_parts channel m (part ∷ rest) s =
      after (run_part channel m part s) λ _ s. run_parts channel m rest s

  -- `wg.Wait()`, the release, and the result.
  unfoldable pub finish : ℕ → M (Sending (Writer T)) (Unit {0})
  finish channel s =
      after (embed (λ w. record s { writer = w }) (release_channel channel s.writer)) λ _ s. final s

  -- After the channel is known.
  unfoldable pub send_on : ℕ → Packet → MessageDraft → List Part → M (Writer T) (Unit {0})
  send_on channel p m ps w = after (write_at_channel write_to channel p w) λ _ w. writer_of (
      after (run_parts channel m ps (record { writer = w; final_error = none }))
        λ _ s. finish channel s)

  -- `send` with no stream writer and no channel: a stream is simulated by its end.
  unfoldable pub send : Bool → List ℕ → MessageDraft → List ℕ → Bool → M (Writer T) (Unit {0})
  send data_last pooled m id expects_response w =
      after (lift (message_packet pooled m id expects_response) w) λ p w.
        after (lift (get_data_size_bytes (length m.content)) w) λ data_size_bytes w.
          if (data_size_bytes == 0) && not m.has_stream
          then write write_to p w
          else (after (obtain_channel w)
              λ channel w. send_on channel p m (parts data_last data_size_bytes m.has_stream) w)

  -- `pass`; uuid.New is the argument `id`.
  unfoldable pub pass : Bool → List ℕ → MessageDraft → List ℕ → M (Writer T) (Unit {0})
  pass data_last pooled m id w = send data_last pooled m id false w
