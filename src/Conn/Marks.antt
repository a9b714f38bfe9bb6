-- ===== src/Conn/Marks.antt =====
-- conn.go, markReadAsDone, markConnectionAsClosed, Close and watchEnd: a connection ends once.
use sockety_go.Common.{
  if_true, ◌≡◌, ◌⊎◌, inl, inr, refl, sym, ap, ◌∙◌, Bool, true, false, Bool-cases, not, ◌&&◌, Error,
  returned, failed, M,
}
use sockety_go.DoneSignal
use sockety_go.DoneSignal.{DoneSignal}
use sockety_go.DoneSignal.Once.{shut, close-shut}
use sockety_go.Conn.{
  Conn, ctx_cancel, mark_read_as_done, swap_closed, close, mark_connection_as_closed, watch_end,
}
use sockety_go.Conn.Signals.{IsSound, Ended, signal-shut, mark_as_done-Ended, Ended-IsSound}

module _ {Q T : Type 0} where
  -- Between two calls a connection that is closed is done.
  abbrev pub IsSettled : Conn Q T → Type 0
  IsSettled c = DoneSignal.load c.closed ≡ DoneSignal.load c.done

  -- What a call that closes the connection leaves behind; `read_done` may be open still.
  pub record Closed (c c' : Conn Q T) : Type 0 where
    pub sound : IsSound c'
    pub now_closed : c'.closed ≡ shut
    pub now_done : c'.done ≡ shut
    pub same_read_done : c'.read_done ≡ c.read_done
    pub same_parser : c'.p ≡ c.p
    pub same_messages : c'.messages.sent ≡ c.messages.sent

  closed-IsSound : (c : Conn Q T) → IsSound c → IsSound (record c { closed = shut })
  unfolding DoneSignal.load
  closed-IsSound c sound = record {
    read_consistent = sound.read_consistent;
    closed_consistent = refl;
    done_consistent = sound.done_consistent;
    messages_with = sound.messages_with;
    fast_replies_with = sound.fast_replies_with;
    responses_with = sound.responses_with;
    cancelled = sound.cancelled;
    after_closed = λ _. refl;
  }

  pub swap_closed-Closed :
      (c : Conn Q T)
      → IsSound c
      → IsSettled c
      → (c' : Conn Q T) × (swap_closed c ≡ returned tt c') × Closed c c'
  unfolding swap_closed DoneSignal.load
  swap_closed-Closed c sound settled = elim (Bool-cases (DoneSignal.load c.closed)) [
    | inl before ↦ (
      record c { closed = shut },
      rw (close-shut c.closed sound.closed_consistent, before) refl,
      record {
        sound = closed-IsSound c sound;
        now_closed = refl;
        now_done = signal-shut c.done sound.done_consistent (sym settled ∙ before);
        same_read_done = refl;
        same_parser = refl;
        same_messages = refl;
      },
    )
    | inr first ↦
        let (c', e, ended) =
          mark_as_done-Ended (record c { closed = shut }) (closed-IsSound c sound) in
        (
          c',
          rw (close-shut c.closed sound.closed_consistent, first) e,
          record {
            sound =
                Ended-IsSound (record c { closed = shut }) c' (closed-IsSound c sound) ended refl;
            now_closed = ended.same_closed;
            now_done = ended.now_done;
            same_read_done = ended.same_read_done;
            same_parser = ended.same_parser;
            same_messages = ended.same_messages;
          },
        )
  ]

  read-IsSound : (c : Conn Q T) → IsSound c → IsSound (record c { read_done = shut })
  read-IsSound c sound = record {
    read_consistent = refl;
    closed_consistent = sound.closed_consistent;
    done_consistent = sound.done_consistent;
    messages_with = sound.messages_with;
    fast_replies_with = sound.fast_replies_with;
    responses_with = sound.responses_with;
    cancelled = sound.cancelled;
    after_closed = sound.after_closed;
  }

  -- What `markReadAsDone` leaves behind.
  pub record ReadMarked (c c' : Conn Q T) : Type 0 where
    pub sound : IsSound c'
    pub settled : IsSettled c'
    pub now_read_done : c'.read_done ≡ shut
    pub same_closed : c'.closed ≡ c.closed
    pub same_done : c'.done ≡ c.done
    pub same_parser : c'.p ≡ c.p
    pub same_messages : c'.messages.sent ≡ c.messages.sent

  not_ended :
      (c : Conn Q T) → IsSound c → IsSettled c → ReadMarked c (record c { read_done = shut })
  not_ended c sound settled = record {
    sound = read-IsSound c sound;
    settled = settled;
    now_read_done = refl;
    same_closed = refl;
    same_done = refl;
    same_parser = refl;
    same_messages = refl;
  }

  read-Ended :
      (c c' : Conn Q T)
      → IsSound c
      → IsSettled c
      → DoneSignal.load c.closed ≡ true
      → Ended (record c { read_done = shut }) c'
      → ReadMarked c c'
  unfolding DoneSignal.load
  read-Ended c c' sound settled closed ended = record {
    sound = Ended-IsSound (record c { read_done = shut }) c' (read-IsSound c sound) ended closed;
    settled =
        ap DoneSignal.load ended.same_closed ∙ closed ∙ sym (ap DoneSignal.load ended.now_done);
    now_read_done = ended.same_read_done;
    same_closed = ended.same_closed;
    same_done =
        ended.now_done ∙ sym (signal-shut c.done sound.done_consistent (sym settled ∙ closed));
    same_parser = ended.same_parser;
    same_messages = ended.same_messages;
  }

  pub mark_read_as_done-ReadMarked :
      (c : Conn Q T)
      → IsSound c
      → IsSettled c
      → (c' : Conn Q T) × (mark_read_as_done c ≡ returned tt c') × ReadMarked c c'
  unfolding mark_read_as_done
  mark_read_as_done-ReadMarked c sound settled =
      elim (Bool-cases (not (DoneSignal.load c.read_done) && DoneSignal.load c.closed)) [
        | inr none_left ↦ (
          record c { read_done = shut },
          rw (close-shut c.read_done sound.read_consistent, none_left) refl,
          not_ended c sound settled,
        )
        | inl both ↦
            let (c', e, ended) =
              mark_as_done-Ended (record c { read_done = shut }) (read-IsSound c sound) in
            (
              c',
              rw (close-shut c.read_done sound.read_consistent, both) e,
              read-Ended c c' sound settled
                  (second (not (DoneSignal.load c.read_done)) (DoneSignal.load c.closed) both)
                  ended,
            )
      ]
    where
      second : (a b : Bool) → (a && b) ≡ true → b ≡ true
      second true b e = e
      second false b e = cc

-- `Close` of the connection below returns, with an error or without.
abbrev pub Closes : {T : Type 0} → M T (Unit {0}) → Type 0
Closes {T} close_to =
    (t : T)
    → ((t' : T) × (close_to t ≡ returned tt t'))
      ⊎ ((x : Error) × (t' : T) × (close_to t ≡ failed x t'))

module _ {Q T : Type 0} (close_to : M T (Unit {0})) (closes : Closes close_to) where
  -- `Close` cancels the context, and leaves its target as it may be.
  abbrev cancelled_at : Conn Q T → T → Conn Q T
  cancelled_at c t = record c { ctx_done = true; w = record (c.w) { target = t } }

  cancelled-IsSound : (c : Conn Q T) (t : T) → IsSound c → IsSound (cancelled_at c t)
  cancelled-IsSound c t sound = record {
    read_consistent = sound.read_consistent;
    closed_consistent = sound.closed_consistent;
    done_consistent = sound.done_consistent;
    messages_with = sound.messages_with;
    fast_replies_with = sound.fast_replies_with;
    responses_with = sound.responses_with;
    cancelled = λ _. refl;
    after_closed = sound.after_closed;
  }

  Closed-after : (c c' : Conn Q T) (t : T) → Closed (cancelled_at c t) c' → Closed c c'
  Closed-after c c' t h = record {
    sound = h.sound;
    now_closed = h.now_closed;
    now_done = h.now_done;
    same_read_done = h.same_read_done;
    same_parser = h.same_parser;
    same_messages = h.same_messages;
  }

  -- Where Close of the connection below returns, with an error or without, `markConnectionAsClosed` of a
  -- connection whose signals and channels agree, and which is done if it is closed, returns with the
  -- connection closed and done, and its three channels closed. Whether reading is done it neither
  -- asks nor changes.
  pub mark_connection_as_closed-Closed :
      (c : Conn Q T)
      → IsSound c
      → IsSettled c
      → (c' : Conn Q T) × (mark_connection_as_closed close_to c ≡ returned tt c') × Closed c c'
  unfolding mark_connection_as_closed close ctx_cancel
  mark_connection_as_closed-Closed c sound settled = elim (closes c.w.target) [
    | inl (t, e) ↦
        let (c', e2, h) =
          swap_closed-Closed (cancelled_at c t) (cancelled-IsSound c t sound) settled in
        (c', rw (e, mark_connection_as_closed) e2, Closed-after c c' t h)
    | inr (x, t, e) ↦
        let (c', e2, h) =
          swap_closed-Closed (cancelled_at c t) (cancelled-IsSound c t sound) settled in
        (c', rw (e, mark_connection_as_closed) e2, Closed-after c c' t h)
  ]

  -- Once its context is cancelled, `watchEnd` of a sound connection returns, without a panic: reading is done,
  -- the connection is closed and done, and nothing else is sent on its channels, which are closed.
  pub watch_end-IsSound :
      (c : Conn Q T)
      → IsSound c
      → IsSettled c
      → c.ctx_done ≡ true
      → (c' : Conn Q T) × (watch_end close_to c ≡ returned tt c')
        × IsSound c'
        × (c'.read_done ≡ shut)
        × (c'.closed ≡ shut)
        × (c'.done ≡ shut)
        × (c'.messages.closed ≡ true)
        × (c'.messages.sent ≡ c.messages.sent)
  unfolding watch_end DoneSignal.load
  watch_end-IsSound c sound settled cancelled =
      let (v, e, h) = mark_connection_as_closed-Closed c sound settled in
      let (u, e2, g) =
        mark_read_as_done-ReadMarked v h.sound
          (ap DoneSignal.load h.now_closed ∙ sym (ap DoneSignal.load h.now_done)) in
      (
        u,
        if_true cancelled _ _ ∙ rw e e2,
        g.sound,
        g.now_read_done,
        g.same_closed ∙ h.now_closed,
        g.same_done ∙ h.now_done,
        g.sound.messages_with ∙ ap DoneSignal.load (g.same_done ∙ h.now_done),
        g.same_messages ∙ h.same_messages,
      )
