-- ===== src/MessageData.antt =====
-- message_data.go: the data of a message, a queue of received pieces that the application reads. The
-- channel `ch` only wakes a waiting reader; what matters of it is whether it is closed. The methods
-- hold the mutex throughout, and are single steps.
pub mod Queue
use sockety_go.Common.{
  ℕ, ◌+◌, ◌-◌, ◌%◌, ◌^◌, Bool, true, false, List, [], ◌∷◌, ◌++◌, Option, none, some, ltb, ◌==◌,
  if◌then◌else◌, length, take, drop, Error, eof, malformed_size, close_of_closed_channel,
  send_on_closed_channel, Outcome, returned, failed, panicked, blocked, after, M,
}

pub record MessageData : Type 0 where
  pub buf : List (List ℕ)
  pub buf_offset : ℕ
  pub wrote : ℕ
  pub size : ℕ
  pub error : Option Error
  pub closed : Bool

unfoldable pub new_message_data : ℕ → MessageData
new_message_data size = record {
  buf = [];
  buf_offset = 0;
  wrote = 0;
  size = size;
  error = none;
  closed = false;
}

-- `close(m.ch)`.
unfoldable pub close_ch : M MessageData (Unit {0})
close_ch m =
    if m.closed then panicked close_of_closed_channel else returned tt (record m { closed = true })

-- `putOptional(m.ch, struct{}{})`: it wakes a waiting reader, if there is one.
unfoldable pub wake : M MessageData (Unit {0})
wake m = if m.closed then panicked send_on_closed_channel else returned tt m

unfoldable pub push : List ℕ → M MessageData (Unit {0})
push p m =
    let wrote = (m.wrote + length p) % 2 ^ 64 in
    let m' = record m { buf = m.buf ++ (p ∷ []); wrote = wrote } in
    if ltb m.size wrote
    then after (close_ch (record m { error = some malformed_size }))
        (λ _ m. failed malformed_size m)
    else if wrote == m.size
    then close_ch m'
    else wake m'

-- `Read` into a slice of `size` bytes, with pieces in the queue.
unfoldable pub read_piece : ℕ → List ℕ → List (List ℕ) → M MessageData (List ℕ)
read_piece size piece pieces m =
    if ltb size (length piece - m.buf_offset)
    then returned (take size (drop m.buf_offset piece))
        (record m { buf_offset = m.buf_offset + size })
    else returned (drop m.buf_offset piece) (record m { buf_offset = 0; buf = pieces })

unfoldable pub read : ℕ → M MessageData (List ℕ)
read size m = elim m.error [
  | some e ↦ failed e m
  | none ↦ elim m.buf [
    | [] ↦ if m.size == m.wrote then failed eof m else blocked
    | piece ∷ pieces ↦ read_piece size piece pieces m
  ]
]

unfoldable pub received : MessageData → ℕ
received m = m.wrote

unfoldable pub done : MessageData → Bool
done m = received m == m.size
