-- ===== src/GoChannel.antt =====
-- Go channels, as conn.go, server.go and utils.go use them; putOptional and createReadChannel of utils.go.
use sockety_go.Common.{
  ℕ, ◌+◌, Bool, true, false, List, [], ◌∷◌, ◌++◌, ltb, if◌then◌else◌, length,
  close_of_closed_channel, send_on_closed_channel, Outcome, returned, panicked, blocked, after, M,
}

-- `sent` are all values that were sent, in order; `receives` counts the receives that were begun, of which the
-- first ones get these values. A send goes on when there is room for it in the buffer, or a receive waits.
pub record GoChannel (A : Type 0) : Type 0 where
  pub capacity : ℕ
  pub sent : List A
  pub receives : ℕ
  pub closed : Bool

module _ {A : Type 0} where
  unfoldable pub make : ℕ → GoChannel A
  make capacity = record { capacity = capacity; sent = []; receives = 0; closed = false }

  abbrev pub has_room : GoChannel A → Bool
  has_room ch = ltb (length ch.sent) (ch.receives + ch.capacity)

  unfoldable pub send : A → M (GoChannel A) (Unit {0})
  send v ch =
      if ch.closed
      then panicked send_on_closed_channel
      else if has_room ch
      then returned tt (record ch { sent = ch.sent ++ (v ∷ []) })
      else blocked

  -- `close(ch)`.
  unfoldable pub close : M (GoChannel A) (Unit {0})
  close ch =
      if ch.closed
      then panicked close_of_closed_channel
      else returned tt (record ch { closed = true })

  -- A receive begins.
  unfoldable pub receive : GoChannel A → GoChannel A
  receive ch = record ch { receives = ch.receives + 1 }

  -- A `select` with a default.
  unfoldable pub put_optional : A → M (GoChannel A) (Unit {0})
  put_optional v ch =
      if ch.closed
      then panicked send_on_closed_channel
      else if has_room ch
      then returned tt (record ch { sent = ch.sent ++ (v ∷ []) })
      else returned tt ch

  unfoldable pub create_read_channel : A → Outcome (GoChannel A) (Unit {0})
  create_read_channel v = after (send v (make 1)) λ _ ch. close ch
