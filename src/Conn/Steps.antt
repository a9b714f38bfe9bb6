-- ===== src/Conn/Steps.antt =====
-- conn.go: a connection and its goroutines as a step relation.
use sockety_go.Common.{ℕ, ◌≡◌, ◌⊎◌, Bool, true, false, List, Option, Error, returned, failed, M}
use sockety_go.BufferedReader.{Reply, Buffered}
use sockety_go.GoChannel
use sockety_go.GoChannel.{GoChannel}
use sockety_go.MessageReader.{Message}
use sockety_go.Parser.{Parser}
use sockety_go.Writer.{Writer}
use sockety_go.Conn.{
  Conn, ends, goes_on, offers, ctx_cancel, offer, close, watch_end, handle_read, fresh,
}

-- The goroutine of `handle`: in its round, in the send of a message, or at its end.
pub data Handler : Type 0 where
  reads gone : Handler
  sends : Message → Handler

-- A connection with its goroutines; `watching` is that of `watchEnd`.
pub record World (Q T : Type 0) : Type 0 where
  pub conn : Conn Q T
  pub handler : Handler
  pub watching : Bool

abbrev pub at : {Q T : Type 0} → Conn Q T → Handler → Bool → World Q T
at c h watching = record { conn = c; handler = h; watching = watching }

module _ {Q T : Type 0} (source : Q → ℕ → Reply Q) (from_bytes : List ℕ → Option (List ℕ))
    (spare : ℕ) (close_to : M T (Unit {0})) (names_closed : ℕ → Bool) where
  -- The goroutines' steps, and those of the application, of the network below and of the parent's context.
  pub data Step : World Q T → World Q T → Type 0 where
    watches :
        {c c' : Conn Q T} {h : Handler}
        → watch_end close_to c ≡ returned tt c'
        → Step (at c h true) (at c' h false)
    handler_ends :
        {c c' : Conn Q T} {b : Bool} (rounds : ℕ)
        → handle_read source from_bytes spare close_to names_closed rounds c ≡ returned ends c'
        → Step (at c reads b) (at c' gone b)
    handler_goes_on :
        {c c' : Conn Q T} {b : Bool} (rounds : ℕ)
        → handle_read source from_bytes spare close_to names_closed rounds c ≡ returned goes_on c'
        → Step (at c reads b) (at c' reads b)
    handler_offers :
        {c c' : Conn Q T} {b : Bool} (rounds : ℕ) (item : Message)
        → handle_read source from_bytes spare close_to names_closed rounds c
          ≡ returned (offers item) c'
        → Step (at c reads b) (at c' (sends item) b)
    handler_sends :
        {c c' : Conn Q T} {b : Bool} (item : Message)
        → offer item c ≡ returned tt c'
        → Step (at c (sends item) b) (at c' reads b)
    user_closes :
        {c c' : Conn Q T} {h : Handler} {b : Bool}
        → (close close_to c ≡ returned tt c') ⊎ ((e : Error) × (close close_to c ≡ failed e c'))
        → Step (at c h b) (at c' h b)
    user_receives :
        {c : Conn Q T} {h : Handler} {b : Bool}
        → Step (at c h b) (at (record c { messages = GoChannel.receive c.messages }) h b)
    user_writes :
        {c : Conn Q T} {h : Handler} {b : Bool} (w : Writer T)
        → Step (at c h b) (at (record c { w = w }) h b)
    -- Bytes arrive, or the application takes bytes off a message.
    bytes_move :
        {c : Conn Q T} {h : Handler} {b : Bool} (p : Parser (Buffered Q))
        → Step (at c h b) (at (record c { p = p }) h b)
    parent_ends : {c : Conn Q T} {h : Handler} {b : Bool} → Step (at c h b) (at (ctx_cancel c) h b)

  -- The worlds that a new connection comes to.
  pub data Reach : World Q T → Type 0 where
    starts :
        (w : Writer T) (p : Parser (Buffered Q)) (parent_done : Bool) (buffered_messages : ℕ)
        → Reach (at (fresh w p parent_done buffered_messages) reads true)
    later : {x y : World Q T} → Reach x → Step x y → Reach y
