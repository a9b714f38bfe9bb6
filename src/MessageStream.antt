-- ===== src/MessageStream.antt =====
-- message_stream.go: the stream of a message, a queue of received pieces without a known size. The
-- mutex is in the state: `Read` leaves it locked at the end of the stream.
use sockety_go.Common.{
  ℕ, ◌+◌, ◌-◌, ◌%◌, ◌^◌, Bool, true, false, List, [], ◌∷◌, ◌++◌, ltb, if◌then◌else◌, length, take,
  drop, eof, send_on_closed_channel, returned, failed, panicked, blocked, M,
}

pub record MessageStream : Type 0 where
  pub buf : List (List ℕ)
  pub buf_offset : ℕ
  pub wrote : ℕ
  pub locked : Bool
  pub finished : Bool

unfoldable pub new_message_stream : MessageStream
new_message_stream = record {
  buf = [];
  buf_offset = 0;
  wrote = 0;
  locked = false;
  finished = false;
}

-- `putOptional` panics where the channel is closed.
unfoldable pub push : List ℕ → M MessageStream (Unit {0})
push p m =
    if m.locked
    then blocked
    else if m.finished
    then panicked send_on_closed_channel
    else returned tt (record m { buf = m.buf ++ (p ∷ []); wrote = (m.wrote + length p) % 2 ^ 64 })

-- The first call closes the channel, the others do nothing.
unfoldable pub close : M MessageStream (Unit {0})
close m = returned tt (record m { finished = true })

unfoldable pub read_piece : ℕ → List ℕ → List (List ℕ) → M MessageStream (List ℕ)
read_piece size piece pieces m =
    if ltb size (length piece - m.buf_offset)
    then returned (take size (drop m.buf_offset piece))
        (record m { buf_offset = m.buf_offset + size })
    else returned (drop m.buf_offset piece) (record m { buf_offset = 0; buf = pieces })

-- The return at the end of the stream does not unlock.
unfoldable pub read : ℕ → M MessageStream (List ℕ)
read size m = if m.locked then blocked else (elim m.buf [
  | [] ↦ if m.finished then failed eof (record m { locked = true }) else blocked
  | piece ∷ pieces ↦ read_piece size piece pieces m
])

unfoldable pub received : MessageStream → ℕ
received m = m.wrote

unfoldable pub done : MessageStream → Bool
done m = m.finished
