-- ===== src/StreamWriter.antt =====
-- message_stream_writer.go: the stream of a request. Its methods act on it and on the connection's writer.
pub mod Lifetime
use sockety_go.Common.{
  ℕ, zero, suc, Bool, true, false, List, [], ◌∷◌, Option, none, some, if◌then◌else◌, length, Error,
  stream_closed, Outcome, returned, failed, panicked, blocked, stuck, after, M, embed,
}
use sockety_go.Constants.{packet_stream_bits, packet_stream_end_bits}
use sockety_go.DoneSignal
use sockety_go.DoneSignal.{DoneSignal, new_done_signal}
use sockety_go.FifoMutex
use sockety_go.FifoMutex.{FifoMutex, new_fifo_mutex}
use sockety_go.Writer.{Writer, write_external_with_signature_at_channel, write_raw_at_channel}

pub record StreamWriter (T : Type 0) : Type 0 where
  pub channel : ℕ
  pub writer : Writer T
  pub done : DoneSignal
  pub mu : FifoMutex
  pub err : Option Error

module _ {T : Type 0} where
  abbrev pub on_mu : M FifoMutex (Unit {0}) → M (StreamWriter T) (Unit {0})
  on_mu m s = embed (λ f. record s { mu = f }) (m s.mu)

  abbrev pub on_done : {A : Type 0} → M DoneSignal A → M (StreamWriter T) A
  on_done m s = embed (λ d. record s { done = d }) (m s.done)

  abbrev pub on_writer : {A : Type 0} → M (Writer T) A → M (StreamWriter T) A
  on_writer m s = embed (λ w. record s { writer = w }) (m s.writer)

  -- The stream is locked until `send` has written its message.
  unfoldable pub new_stream_writer : ℕ → Writer T → Outcome (StreamWriter T) (Unit {0})
  new_stream_writer channel writer = on_mu FifoMutex.lock (record {
    channel = channel;
    writer = writer;
    done = new_done_signal;
    mu = new_fifo_mutex 1;
    err = none;
  })

  unfoldable pub error_of : M (StreamWriter T) (Option Error)
  error_of s =
      after (on_mu FifoMutex.lock s)
        λ _ s. after (on_mu FifoMutex.unlock s) λ _ s'. returned s.err s'

module _ {T : Type 0} (write_to : List ℕ → M T (Unit {0})) where
  -- `Write` with the mutex, of a stream that is not closed.
  unfoldable pub write_open : List ℕ → M (StreamWriter T) ℕ
  write_open p s =
      elim (on_writer
        (write_external_with_signature_at_channel write_to s.channel packet_stream_bits p) s) [
          | returned _ s ↦ after (on_mu FifoMutex.unlock s) (λ _ s. returned (length p) s)
          | failed e s ↦
              after (on_done DoneSignal.close (record s { err = some e }))
                λ _ s. after (on_mu FifoMutex.unlock s) λ _ s. failed e s
          | panicked x ↦ panicked x
          | blocked ↦ blocked
          | stuck ↦ stuck
        ]

  unfoldable pub write : List ℕ → M (StreamWriter T) ℕ
  write p s = after (on_mu FifoMutex.lock s) λ _ s.
      if DoneSignal.load s.done
      then after (on_mu FifoMutex.unlock s) (λ _ s. failed stream_closed s)
      else write_open p s

  -- `Close` with the mutex, of a stream that is not closed: after an error the stream is not done.
  unfoldable pub close_open : M (StreamWriter T) (Unit {0})
  close_open s =
      elim (on_writer (write_raw_at_channel write_to s.channel (packet_stream_end_bits ∷ [])) s) [
        | returned _ s ↦
            after (on_done DoneSignal.close s)
              λ _ s. after (on_mu FifoMutex.unlock s) λ _ s. returned tt s
        | failed e s ↦
            after (on_mu FifoMutex.unlock (record s { err = some e })) (λ _ s. failed e s)
        | panicked x ↦ panicked x
        | blocked ↦ blocked
        | stuck ↦ stuck
      ]

  unfoldable pub close : M (StreamWriter T) (Unit {0})
  close s = after (on_mu FifoMutex.lock s) λ _ s.
      if DoneSignal.load s.done
      then after (on_mu FifoMutex.unlock s) (λ _ s. returned tt s)
      else close_open s

  -- `copy` is io.Copy into this stream: what it calls is `Write`, or the stream's own `ReadFrom`.
  unfoldable pub read_from :
      ((List ℕ → M (StreamWriter T) ℕ) → M (StreamWriter T) ℕ → M (StreamWriter T) ℕ)
      → ℕ
      → M (StreamWriter T) ℕ
  read_from copy zero s = stuck
  read_from copy (suc depth) s =
      after (copy write (read_from copy depth) s)
        λ written s. after (close s) λ _ s. returned written s
