-- ===== src/Conn/Signals.antt =====
-- conn.go, markAsDone: the channels of a connection are closed with its signal.
use sockety_go.Common.{◌≡◌, inl, inr, refl, sym, ap, ◌∙◌, true, false, Bool-cases, returned}
use sockety_go.DoneSignal
use sockety_go.DoneSignal.{DoneSignal}
use sockety_go.DoneSignal.Once.{IsConsistent, shut, close-shut}
use sockety_go.GoChannel
use sockety_go.GoChannel.{GoChannel}
use sockety_go.Conn.{Conn, ctx_cancel, close_channels, mark_as_done}

close_open :
    {A : Type 0} (ch : GoChannel A)
    → ch.closed ≡ false
    → GoChannel.close ch ≡ returned tt (record ch { closed = true })
unfolding GoChannel.close
close_open ch still_open = rw still_open refl

pub signal-shut : (s : DoneSignal) → IsConsistent s → DoneSignal.load s ≡ true → s ≡ shut
unfolding DoneSignal.load
signal-shut s consistent set = rw (consistent, set) refl

module _ {Q T : Type 0} where
  -- The three channels are closed exactly when the connection is done; then its context is cancelled, and it
  -- is closed.
  pub record IsSound (c : Conn Q T) : Type 0 where
    pub read_consistent : IsConsistent c.read_done
    pub closed_consistent : IsConsistent c.closed
    pub done_consistent : IsConsistent c.done
    pub messages_with : c.messages.closed ≡ DoneSignal.load c.done
    pub fast_replies_with : c.fast_replies.closed ≡ DoneSignal.load c.done
    pub responses_with : c.responses.closed ≡ DoneSignal.load c.done
    pub cancelled : DoneSignal.load c.done ≡ true → c.ctx_done ≡ true
    pub after_closed : DoneSignal.load c.done ≡ true → DoneSignal.load c.closed ≡ true

  -- What `markAsDone` leaves behind.
  pub record Ended (c c' : Conn Q T) : Type 0 where
    pub same_parser : c'.p ≡ c.p
    pub same_writer : c'.w ≡ c.w
    pub same_read_done : c'.read_done ≡ c.read_done
    pub same_closed : c'.closed ≡ c.closed
    pub now_done : c'.done ≡ shut
    pub now_cancelled : c'.ctx_done ≡ true
    pub messages_closed : c'.messages.closed ≡ true
    pub fast_replies_closed : c'.fast_replies.closed ≡ true
    pub responses_closed : c'.responses.closed ≡ true
    pub same_messages : c'.messages.sent ≡ c.messages.sent

  close_channels_lem :
      (c : Conn Q T)
      → c.messages.closed ≡ false
      → c.fast_replies.closed ≡ false
      → c.responses.closed ≡ false
      → close_channels c
        ≡ returned tt (record c {
          messages = record (c.messages) { closed = true };
          fast_replies = record (c.fast_replies) { closed = true };
          responses = record (c.responses) { closed = true };
        })
  unfolding close_channels
  close_channels_lem c m f r =
      rw (close_open c.messages m, close_open c.fast_replies f, close_open c.responses r) refl

  pub mark_as_done-Ended :
      (c : Conn Q T) → IsSound c → (c' : Conn Q T) × (mark_as_done c ≡ returned tt c') × Ended c c'
  unfolding mark_as_done ctx_cancel
  mark_as_done-Ended c sound = elim (Bool-cases (DoneSignal.load c.done)) [
    | inl before ↦ (
      record c { done = shut },
      rw (close-shut c.done sound.done_consistent, before) refl,
      record {
        same_parser = refl;
        same_writer = refl;
        same_read_done = refl;
        same_closed = refl;
        now_done = refl;
        now_cancelled = sound.cancelled before;
        messages_closed = sound.messages_with ∙ before;
        fast_replies_closed = sound.fast_replies_with ∙ before;
        responses_closed = sound.responses_with ∙ before;
        same_messages = refl;
      },
    )
    | inr first ↦ (
      record c {
        done = shut;
        ctx_done = true;
        messages = record (c.messages) { closed = true };
        fast_replies = record (c.fast_replies) { closed = true };
        responses = record (c.responses) { closed = true };
      },
      rw (close-shut c.done sound.done_consistent, first)
          (close_channels_lem (record c { done = shut; ctx_done = true })
            (sound.messages_with ∙ first) (sound.fast_replies_with ∙ first)
            (sound.responses_with ∙ first)),
      record {
        same_parser = refl;
        same_writer = refl;
        same_read_done = refl;
        same_closed = refl;
        now_done = refl;
        now_cancelled = refl;
        messages_closed = refl;
        fast_replies_closed = refl;
        responses_closed = refl;
        same_messages = refl;
      },
    )
  ]

  pub Ended-IsSound :
      (c c' : Conn Q T) → IsSound c → Ended c c' → DoneSignal.load c.closed ≡ true → IsSound c'
  unfolding DoneSignal.load
  Ended-IsSound c c' sound e closed = record {
    read_consistent = rw e.same_read_done sound.read_consistent;
    closed_consistent = rw e.same_closed sound.closed_consistent;
    done_consistent = rw e.now_done refl;
    messages_with = e.messages_closed ∙ sym (ap DoneSignal.load e.now_done);
    fast_replies_with = e.fast_replies_closed ∙ sym (ap DoneSignal.load e.now_done);
    responses_with = e.responses_closed ∙ sym (ap DoneSignal.load e.now_done);
    cancelled = λ _. e.now_cancelled;
    after_closed = λ _. ap DoneSignal.load e.same_closed ∙ closed;
  }
