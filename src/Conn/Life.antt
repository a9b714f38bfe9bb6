-- ===== src/Conn/Life.antt =====
-- conn.go: what holds of a connection at any time of its life, and how it may end.
use sockety_go.Common.{
  ℕ, ◌+◌, ◌++◌, ◌∷◌, [], ltb, length, ◌≡◌, ◌⊎◌, inl, inr, refl, sym, ap, subst, ◌∙◌, Bool, true,
  Bool-cases, if_true, if_false, List, Option, Error, Panic, send_on_closed_channel, Outcome,
  returned, failed, panicked, blocked, stuck, after, M, embed,
}
use sockety_go.BufferedReader.{Reply, Buffered}
use sockety_go.DoneSignal
use sockety_go.DoneSignal.{DoneSignal, new_done_signal}
use sockety_go.DoneSignal.Once.{shut}
use sockety_go.GoChannel
use sockety_go.GoChannel.{GoChannel}
use sockety_go.MessageReader.{Message}
use sockety_go.Parser.{Parser}
use sockety_go.Writer.{Writer}
use sockety_go.Conn.{
  Conn, fresh, Next, ends, ctx_cancel, mark_connection_as_closed, mark_read_as_done, offer, close,
  watch_end, is_end, after_read, handle_read,
}
use sockety_go.Conn.Marks.{
  IsSettled, Closes, Closed, mark_read_as_done-ReadMarked, mark_connection_as_closed-Closed,
  watch_end-IsSound,
}
use sockety_go.Conn.Signals.{IsSound}

-- A connection that has ended.
abbrev pub IsOver : {Q T : Type 0} → Conn Q T → Type 0
IsOver c = (c.read_done ≡ shut) × (c.closed ≡ shut) × (c.done ≡ shut) × (c.messages.closed ≡ true)

-- The invariant of a connection.
abbrev pub IsLive : {Q T : Type 0} → Conn Q T → Type 0
IsLive c = IsSound c × IsSettled c

pub returned-inj : {S A : Type 0} {a b : A} {s t : S} → returned a s ≡ returned b t → s ≡ t
returned-inj e = cc

module _ {Q T : Type 0} where
  pub fresh-IsLive :
      (w : Writer T) (p : Parser (Buffered Q)) (parent_done : Bool) (n : ℕ)
      → IsLive (fresh w p parent_done n)
  unfolding fresh new_done_signal DoneSignal.load GoChannel.make
  fresh-IsLive w p parent_done n = (
    record {
      read_consistent = refl;
      closed_consistent = refl;
      done_consistent = refl;
      messages_with = refl;
      fast_replies_with = refl;
      responses_with = refl;
      cancelled = λ e. cc;
      after_closed = λ e. cc;
    },
    refl,
  )

  -- What does not touch the signals keeps the invariant.
  pub kept :
      (c : Conn Q T) (w : Writer T) (p : Parser (Buffered Q)) (ctx_done : Bool)
      (messages : GoChannel Message)
      → messages.closed ≡ c.messages.closed
      → (c.ctx_done ≡ true → ctx_done ≡ true)
      → IsLive c
      → IsLive (record c { w = w; p = p; ctx_done = ctx_done; messages = messages })
  kept c w p ctx_done messages same more (sound, settled) = (
    record {
      read_consistent = sound.read_consistent;
      closed_consistent = sound.closed_consistent;
      done_consistent = sound.done_consistent;
      messages_with = same ∙ sound.messages_with;
      fast_replies_with = sound.fast_replies_with;
      responses_with = sound.responses_with;
      cancelled = λ e. more (sound.cancelled e);
      after_closed = sound.after_closed;
    },
    settled,
  )

  marked-IsLive : (c c' : Conn Q T) → Closed c c' → IsLive c'
  unfolding DoneSignal.load
  marked-IsLive c c' h =
      (h.sound, ap DoneSignal.load h.now_closed ∙ sym (ap DoneSignal.load h.now_done))

  pub offer-IsLive :
      (item : Message) (c c' : Conn Q T) → IsLive c → offer item c ≡ returned tt c' → IsLive c'
  unfolding offer GoChannel.send
  offer-IsLive item c c' live e = elim (Bool-cases c.messages.closed) [
    | inl shut_now ↦ absurd (not_sent (sym (ap out (if_true shut_now _ _)) ∙ e))
    | inr opened ↦
        elim (Bool-cases
          (ltb (length c.messages.sent) (c.messages.receives + c.messages.capacity))) [
            | inl room ↦
                subst IsLive
                  (returned-inj (sym (ap out (if_false opened _ _ ∙ if_true room _ _)) ∙ e))
                  (kept c c.w c.p c.ctx_done
                    (record (c.messages) { sent = c.messages.sent ++ (item ∷ []) }) refl (λ d. d)
                    live)
            | inr full ↦
                absurd (not_blocked (sym (ap out (if_false opened _ _ ∙ if_false full _ _)) ∙ e))
          ]
  ]
    where
      out : Outcome (GoChannel Message) (Unit {0}) → Outcome (Conn Q T) (Unit {0})
      out o = embed (λ ch. record c { messages = ch }) o

      not_sent : ¬ (out (panicked send_on_closed_channel) ≡ returned tt c')
      not_sent e = cc

      not_blocked : ¬ (out blocked ≡ returned tt c')
      not_blocked e = cc

  pub close-IsLive :
      (close_to : M T (Unit {0})) (c c' : Conn Q T)
      → Closes close_to
      → IsLive c
      → (close close_to c ≡ returned tt c') ⊎ ((e : Error) × (close close_to c ≡ failed e c'))
      → IsLive c'
  unfolding close ctx_cancel
  close-IsLive close_to c c' closes live out = elim (closes c.w.target) [
    | inl (t, e) ↦ elim out [
      | inl e2 ↦
          subst IsLive (returned-inj (sym (ap (embed (put c)) e) ∙ e2)) (closed_live c t live)
      | inr (x, e2) ↦ absurd (apart (ap (embed (put c)) e) e2)
    ]
    | inr (y, t, e) ↦ elim out [
      | inl e2 ↦ absurd (apart e2 (ap (embed (put c)) e))
      | inr (x, e2) ↦ subst IsLive (failed-inj (ap (embed (put c)) e) e2) (closed_live c t live)
    ]
  ]
    where
      put : Conn Q T → T → Conn Q T
      put c t = record c { ctx_done = true; w = record (c.w) { target = t } }

      closed_live : (c : Conn Q T) (t : T) → IsLive c → IsLive (put c t)
      closed_live c t live =
          kept c (record (c.w) { target = t }) c.p true c.messages refl (λ d. refl) live

      apart :
          {x : Error} {a b : Conn Q T} {o : Outcome (Conn Q T) (Unit {0})}
          → o ≡ returned tt a
          → ¬ (o ≡ failed x b)
      apart e f = cc

      failed-inj :
          {x y : Error} {a b : Conn Q T} {o : Outcome (Conn Q T) (Unit {0})}
          → o ≡ failed x a
          → o ≡ failed y b
          → a ≡ b
      failed-inj e f = cc

module _ {Q T : Type 0} (source : Q → ℕ → Reply Q) (from_bytes : List ℕ → Option (List ℕ))
    (spare : ℕ) (close_to : M T (Unit {0})) (names_closed : ℕ → Bool)
    (closes : Closes close_to) where
  -- Where the context is cancelled, or the source has ended, the connection ends.
  pub both_marked :
      (c : Conn Q T)
      → IsLive c
      → (c' : Conn Q T) × (after
            (mark_connection_as_closed close_to c)
            (λ _ c. after (mark_read_as_done c) λ _ c. returned ends c)
          ≡ returned ends c')
        × IsLive c'
        × IsOver c'
  unfolding DoneSignal.load
  both_marked c (sound, settled) =
      let (v, e, h) = mark_connection_as_closed-Closed close_to closes c sound settled in
      let (live, even) = marked-IsLive c v h in
      let (u, e2, g) = mark_read_as_done-ReadMarked v live even in
      (
        u,
        rw (e, e2) refl,
        (g.sound, g.settled),
        (
          g.now_read_done,
          g.same_closed ∙ h.now_closed,
          g.same_done ∙ h.now_done,
          g.sound.messages_with ∙ ap DoneSignal.load (g.same_done ∙ h.now_done),
        ),
      )

  marked_both :
      (c : Conn Q T)
      → IsLive c
      → (c' : Conn Q T) × (after
            (mark_read_as_done c)
            (λ _ c. after (mark_connection_as_closed close_to c) λ _ c. returned ends c)
          ≡ returned ends c')
        × IsLive c'
  marked_both c (sound, settled) =
      let (v, e, g) = mark_read_as_done-ReadMarked c sound settled in
      let (u, e2, h) = mark_connection_as_closed-Closed close_to closes v g.sound g.settled in
      (u, rw (e, e2) refl, marked-IsLive v u h)

  after_read-IsLive :
      (out : Outcome (Parser (Buffered Q)) (Option Message)) (c c' : Conn Q T) (n : Next)
      → IsLive c
      → after_read source from_bytes spare close_to names_closed out c ≡ returned n c'
      → IsLive c'
  unfolding after_read
  after_read-IsLive (returned v p) c c' n live e = elim (Bool-cases (DoneSignal.load c.done)) [
    | inl stopped ↦
        subst IsLive (returned-inj (sym (if_true stopped _ _) ∙ e))
          (kept c c.w p c.ctx_done c.messages refl (λ d. d) live)
    | inr on ↦
        subst IsLive (returned-inj (sym (if_false on _ _) ∙ e))
          (kept c c.w p c.ctx_done c.messages refl (λ d. d) live)
  ]
  after_read-IsLive (failed x p) c c' n live e = elim (Bool-cases (is_end names_closed x)) [
    | inl stopped ↦
        let (u, e2, now_live) =
          marked_both (record c { p = p })
            (kept c c.w p c.ctx_done c.messages refl (λ d. d) live) in
        subst IsLive (returned-inj (sym (if_true stopped _ _ ∙ e2) ∙ e)) now_live
    | inr on ↦ absurd (not_panicked (sym (if_false on _ _) ∙ e))
  ]
    where
      not_panicked : {x : Panic} {n : Next} {d : Conn Q T} → ¬ (panicked x ≡ returned n d)
      not_panicked e = cc
  after_read-IsLive (panicked x) c c' n live e = cc
  after_read-IsLive blocked c c' n live e = cc
  after_read-IsLive stuck c c' n live e = cc

  pub handle_read-IsLive :
      (rounds : ℕ) (c c' : Conn Q T) (n : Next)
      → IsLive c
      → handle_read source from_bytes spare close_to names_closed rounds c ≡ returned n c'
      → IsLive c'
  unfolding handle_read
  handle_read-IsLive rounds c c' n live e = elim (Bool-cases c.ctx_done) [
    | inl cancelled ↦
        let (u, e2, now_live, over) = both_marked c live in
        subst IsLive (returned-inj (sym (if_true cancelled _ _ ∙ e2) ∙ e)) now_live
    | inr running ↦ after_read-IsLive _ c c' n live (sym (if_false running _ _) ∙ e)
  ]

  pub watch_end-IsLive :
      (c c' : Conn Q T) → IsLive c → watch_end close_to c ≡ returned tt c' → IsLive c'
  unfolding watch_end DoneSignal.load
  watch_end-IsLive c c' (sound, settled) e = elim (Bool-cases c.ctx_done) [
    | inl cancelled ↦
        let (u, e2, now_sound, r, closed, done, m, k) =
          watch_end-IsSound close_to closes c sound settled cancelled in
        subst IsLive (returned-inj (sym e2 ∙ e))
          (now_sound, ap DoneSignal.load closed ∙ sym (ap DoneSignal.load done))
    | inr running ↦ absurd (not_blocked (if_false running _ _) e)
  ]
    where
      not_blocked : {o : Outcome (Conn Q T) (Unit {0})} → o ≡ blocked → ¬ (o ≡ returned tt c')
      not_blocked e f = cc
