-- ===== src/Request.antt =====
-- message_draft.go, messageRequest, and `send` with a stream writer. While `send` waits, its goroutine writes the
-- data, if there is some, and the application writes to the stream and closes it: `moves` are those of the
-- application, in order, and `data_at` says when the data is written.
pub mod Moves
pub mod Stream
pub mod Failure
use sockety_go.Common.{
  ℕ, zero, suc, ltb, Bool, true, false, List, [], ◌∷◌, Option, none, some, if◌then◌else◌, length,
  Error, already_sent, Outcome, returned, failed, panicked, blocked, stuck, after, M, lift, embed,
}
use sockety_go.Constants.{packet_data_bits}
use sockety_go.DoneSignal
use sockety_go.DoneSignal.{DoneSignal, new_done_signal}
use sockety_go.FifoMutex
use sockety_go.MessageDraft.{MessageDraft, message_packet}
use sockety_go.Packet.{Packet}
use sockety_go.ProtocolUtils.{get_data_size_bytes}
use sockety_go.Send.{Sending, noted, final, writer_of, send}
use sockety_go.StreamWriter
use sockety_go.StreamWriter.{StreamWriter, new_stream_writer, on_mu, on_writer, error_of}
use sockety_go.Writer.{
  Writer, obtain_channel, release_channel, write_at_channel,
  write_external_with_signature_at_channel,
}

-- What the application does with the stream.
pub data UserMove : Type 0 where
  user_write : List ℕ → UserMove
  user_close : UserMove

pub data Move : Type 0 where
  write_data : Move
  by_user : UserMove → Move

-- The goroutine of the data is started if there is some data, writes it once, and is waited for: here its write
-- comes after the first `data_at` moves of the application, or after all of them.
unfoldable pub scheduled : Bool → ℕ → List UserMove → List Move
scheduled false data_at [] = []
scheduled false data_at (move ∷ rest) = by_user move ∷ scheduled false data_at rest
scheduled true data_at [] = write_data ∷ []
scheduled true zero (move ∷ rest) = write_data ∷ by_user move ∷ scheduled false 0 rest
scheduled true (suc n) (move ∷ rest) = by_user move ∷ scheduled true n rest

-- `m.stream` holds the writer while it exists.
pub record Request (T : Type 0) : Type 0 where
  pub id : List ℕ
  pub m : MessageDraft
  pub writer : Writer T
  pub sent : Bool
  pub initiated : DoneSignal
  pub done : DoneSignal
  pub stream : Option (StreamWriter T)

unfoldable pub create : {T : Type 0} → MessageDraft → List ℕ → Writer T → Request T
create m id writer = record {
  id = id;
  m = m;
  writer = writer;
  sent = false;
  initiated = new_done_signal;
  done = new_done_signal;
  stream = none;
}

-- What the application gets of its call is its own business.
abbrev pub heard : {W A : Type 0} → Outcome W A → M (Sending W) (Unit {0})
heard (returned a w) s = returned tt (record s { writer = w })
heard (failed e w) s = returned tt (record s { writer = w })
heard (panicked x) s = panicked x
heard blocked s = blocked
heard stuck s = stuck

module _ {T : Type 0} where
  -- `<-m.initiated.Get()` if it is not initiated yet.
  unfoldable pub stream_of : M (Request T) (Option (StreamWriter T))
  stream_of q =
      if DoneSignal.load q.initiated
      then returned q.stream q
      else if DoneSignal.get q.initiated
      then returned q.stream q
      else blocked

  -- `err := send(…); m.done.Close(); return err`.
  abbrev pub settled : Outcome (Request T) (Unit {0}) → Outcome (Request T) (Unit {0})
  settled (returned a q) =
      after (embed (λ d. record q { done = d }) (DoneSignal.close q.done)) λ _ q. returned tt q
  settled (failed e q) =
      after (embed (λ d. record q { done = d }) (DoneSignal.close q.done)) λ _ q. failed e q
  settled (panicked x) = panicked x
  settled blocked = blocked
  settled stuck = stuck

module _ {T : Type 0} (write_to : List ℕ → M T (Unit {0})) where
  unfoldable pub run_move : ℕ → MessageDraft → Move → M (Sending (StreamWriter T)) (Unit {0})
  run_move channel m write_data s =
      noted
        (on_writer
          (write_external_with_signature_at_channel write_to channel packet_data_bits m.content)
          s.writer)
        s
  run_move channel m (by_user (user_write p)) s = heard (StreamWriter.write write_to p s.writer) s
  run_move channel m (by_user user_close) s = heard (StreamWriter.close write_to s.writer) s

  unfoldable pub run_moves : ℕ → MessageDraft → List Move → M (Sending (StreamWriter T)) (Unit {0})
  run_moves channel m [] s = returned tt s
  run_moves channel m (move ∷ rest) s =
      after (run_move channel m move s) λ _ s. run_moves channel m rest s

  -- The goroutine that waits for the stream, `wg.Wait()`, the release, and the result.
  unfoldable pub finish_stream : ℕ → M (Sending (StreamWriter T)) (Unit {0})
  finish_stream channel s =
      let ended = after (embed (λ w. record s { writer = w }) (error_of s.writer)) λ err s.
        after (embed (λ w. record s { writer = w }) (on_writer (release_channel channel) s.writer))
          λ _ s. final (elim err [ none ↦ s | some e ↦ record s { final_error = some e } ]) in
      if DoneSignal.get s.writer.done then ended else blocked

  -- `send` on a stream, from the writing of the packet on.
  unfoldable pub send_stream :
      ℕ → Packet → MessageDraft → ℕ → ℕ → List UserMove → M (StreamWriter T) (Unit {0})
  send_stream channel p m data_size_bytes data_at moves s =
      after (on_writer (write_at_channel write_to channel p) s) λ _ s.
        after (on_mu FifoMutex.unlock s) λ _ s. writer_of (
          after
            (run_moves channel m (scheduled (ltb 0 data_size_bytes) data_at moves)
              (record { writer = s; final_error = none }))
            λ _ s. finish_stream channel s)

  abbrev pub on_stream :
      Request T → M (StreamWriter T) (Unit {0}) → StreamWriter T → Outcome (Request T) (Unit {0})
  on_stream q m s = embed (λ s. record q { stream = some s; writer = s.writer }) (m s)

  -- With a stream: the channel is obtained first, and the stream is there before anything is written.
  unfoldable pub send_with_stream : ℕ → List UserMove → List ℕ → M (Request T) (Unit {0})
  send_with_stream data_at moves pooled q =
      after (embed (λ w. record q { writer = w }) (obtain_channel q.writer)) λ channel q.
        elim (new_stream_writer channel q.writer) [
          | returned _ s ↦
              after
                (embed (λ d. record q { stream = some s; initiated = d })
                  (DoneSignal.close q.initiated))
                λ _ q. settled (
                  after (lift (message_packet pooled q.m q.id true) q) λ p q.
                    after (lift (get_data_size_bytes (length q.m.content)) q) λ data_size_bytes q.
                      on_stream q (send_stream channel p q.m data_size_bytes data_at moves) s)
          | failed e s ↦ failed e q
          | panicked x ↦ panicked x
          | blocked ↦ blocked
          | stuck ↦ stuck
        ]

  unfoldable pub send_without_stream : Bool → List ℕ → M (Request T) (Unit {0})
  send_without_stream data_last pooled q =
      settled (
        embed (λ w. record q { writer = w })
          (send write_to data_last pooled q.m q.id true q.writer))

  -- `Send`: the mutex is tried, and never given back.
  unfoldable pub request_send : ℕ → List UserMove → Bool → List ℕ → M (Request T) (Unit {0})
  request_send data_at moves data_last pooled q =
      if q.sent
      then failed already_sent q
      else if q.m.has_stream
      then send_with_stream data_at moves pooled (record q { sent = true })
      else send_without_stream data_last pooled (record q { sent = true })
