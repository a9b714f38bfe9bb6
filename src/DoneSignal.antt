-- ===== src/DoneSignal.antt =====
-- internal/done_signal/done_signal.go: a flag, and a Go channel that is closed with it.
pub mod Once
use sockety_go.Common.{
  Bool, true, false, if◌then◌else◌, close_of_closed_channel, Outcome, returned, panicked, after, M,
}

-- `closed` says whether the Go channel `ch` is.
pub record DoneSignal : Type 0 where
  pub closed : Bool
  pub done : Bool

unfoldable pub new_done_signal : DoneSignal
new_done_signal = record { closed = false; done = false }

-- A receive from `Get` goes on when the channel is closed.
unfoldable pub get : DoneSignal → Bool
get s = s.closed

unfoldable pub load : DoneSignal → Bool
load s = s.done

unfoldable pub load_unsafe : DoneSignal → Bool
load_unsafe s = s.done

-- `close(s.ch)`.
unfoldable pub close_ch : M DoneSignal (Unit {0})
close_ch s =
    if s.closed then panicked close_of_closed_channel else returned tt (record s { closed = true })

-- The flag is swapped first.
unfoldable pub close : M DoneSignal Bool
close s =
    if s.done
    then returned false s
    else after (close_ch (record s { done = true })) (λ _ s. returned true s)
