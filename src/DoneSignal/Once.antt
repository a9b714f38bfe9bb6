-- ===== src/DoneSignal/Once.antt =====
-- internal/done_signal/done_signal.go: the channel is closed once.
use sockety_go.Common.{◌≡◌, refl, Bool, true, false, not, returned}
use sockety_go.DoneSignal.{DoneSignal, new_done_signal, load, close, close_ch}

-- The channel is closed exactly when the flag is set.
abbrev pub IsConsistent : DoneSignal → Type 0
IsConsistent s = s.closed ≡ s.done

pub new_done_signal-IsConsistent : IsConsistent new_done_signal
unfolding new_done_signal
new_done_signal-IsConsistent = refl

-- What a call of `Close` leaves behind.
abbrev pub shut : DoneSignal
shut = record { closed = true; done = true }

close_cases :
    (closed done : Bool)
    → closed ≡ done
    → close (record { closed = closed; done = done }) ≡ returned (not done) shut
unfolding close close_ch
close_cases true true e = refl
close_cases true false e = cc
close_cases false true e = cc
close_cases false false e = refl

-- `Close` of a consistent signal never panics. It reports whether it is the first, and leaves the flag
-- set and the channel closed.
pub close-shut : (s : DoneSignal) → IsConsistent s → close s ≡ returned (not (load s)) shut
unfolding load
close-shut s consistent = close_cases s.closed s.done consistent
