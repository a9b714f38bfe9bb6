-- ===== src/Conn/Reachable.antt =====
-- conn.go: a connection in any order of its goroutines' steps, and of those around it.
use sockety_go.Common.{
  ℕ, ◌≡◌, refl, ap, Bool, true, false, if_true, List, Option, send_on_closed_channel, panicked, M,
  embed,
}
use sockety_go.BufferedReader.{Reply}
use sockety_go.GoChannel
use sockety_go.GoChannel.{GoChannel}
use sockety_go.MessageReader.{Message}
use sockety_go.Conn.{Conn, ends, goes_on, offers, ctx_cancel, offer}
use sockety_go.Conn.Steps.{
  sends, World, at, Step, watches, handler_ends, handler_goes_on, handler_offers, handler_sends,
  user_closes, user_receives, user_writes, bytes_move, parent_ends, Reach, starts, later,
}
use sockety_go.Conn.Marks.{Closes, watch_end-IsSound}
use sockety_go.DoneSignal
use sockety_go.Conn.Life.{
  IsLive, kept, fresh-IsLive, offer-IsLive, close-IsLive, handle_read-IsLive, watch_end-IsLive,
}

module _ {Q T : Type 0} (source : Q → ℕ → Reply Q) (from_bytes : List ℕ → Option (List ℕ))
    (spare : ℕ) (close_to : M T (Unit {0})) (names_closed : ℕ → Bool)
    (closes : Closes close_to) where
  abbrev Steps : World Q T → World Q T → Type 0
  Steps x y = Step source from_bytes spare close_to names_closed x y

  pub Step-IsLive : {x y : World Q T} → Steps x y → IsLive x.conn → IsLive y.conn
  unfolding ctx_cancel GoChannel.receive
  Step-IsLive (watches {c} {c'} e) live =
      watch_end-IsLive source from_bytes spare close_to names_closed closes c c' live e
  Step-IsLive (handler_ends {c} {c'} rounds e) live =
      handle_read-IsLive source from_bytes spare close_to names_closed closes rounds c c' ends live
        e
  Step-IsLive (handler_goes_on {c} {c'} rounds e) live =
      handle_read-IsLive source from_bytes spare close_to names_closed closes rounds c c' goes_on
        live e
  Step-IsLive (handler_offers {c} {c'} rounds item e) live =
      handle_read-IsLive source from_bytes spare close_to names_closed closes rounds c c'
        (offers item) live e
  Step-IsLive (handler_sends {c} {c'} item e) live = offer-IsLive item c c' live e
  Step-IsLive (user_closes {c} {c'} e) live = close-IsLive close_to c c' closes live e
  Step-IsLive (user_receives {c}) live =
      kept c c.w c.p c.ctx_done (GoChannel.receive c.messages) refl (λ d. d) live
  Step-IsLive (user_writes {c} w) live = kept c w c.p c.ctx_done c.messages refl (λ d. d) live
  Step-IsLive (bytes_move {c} p) live = kept c c.w p c.ctx_done c.messages refl (λ d. d) live
  Step-IsLive (parent_ends {c}) live = kept c c.w c.p true c.messages refl (λ d. refl) live

  abbrev Reached : World Q T → Type 0
  Reached x = Reach source from_bytes spare close_to names_closed x

  -- In every world that a new connection comes to, whatever its goroutines, the application and the network
  -- do, where Close of the connection below returns: the messages, the fast replies and the responses are closed
  -- exactly when the connection is done; then its context is cancelled, and it is closed.
  pub Reach-IsLive : {x : World Q T} → Reached x → IsLive x.conn
  Reach-IsLive (starts w p parent_done n) = fresh-IsLive w p parent_done n
  Reach-IsLive (later before step) = Step-IsLive step (Reach-IsLive before)

  -- From every such world in which `handle` waits to send a message and `watchEnd` still runs, two steps lead on,
  -- whatever the room for the message: the parent's context ends, and `watchEnd` closes the channel of the
  -- messages. The send, if it has not taken place in between, panics then.
  pub Reach-panics :
      {c : Conn Q T} (item : Message)
      → Reached (at c (sends item) true)
      → (u : Conn Q T) × Steps (at c (sends item) true) (at (ctx_cancel c) (sends item) true)
        × Steps (at (ctx_cancel c) (sends item) true) (at u (sends item) false)
        × (offer item u ≡ panicked send_on_closed_channel)
  unfolding offer GoChannel.send ctx_cancel
  Reach-panics {c} item reached =
      let (sound, settled) =
        Step-IsLive (parent_ends {c = c} {h = sends item} {b = true}) (Reach-IsLive reached) in
      let (u, e, now_sound, r, closed, done, m, k) =
        watch_end-IsSound close_to closes (ctx_cancel c) sound settled refl in
      (u, parent_ends, watches e, ap (embed (λ ch. record u { messages = ch })) (if_true m _ _))
