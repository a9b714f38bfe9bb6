-- ===== src/Conn.antt =====
-- conn.go: a connection, its handshake, and how its two goroutines end it. The two directions of the connection
-- below are separate: `source` is read, and `write_to` and `close_to` act on the target.
pub mod Steps
pub mod Signals
pub mod Marks
pub mod Life
pub mod Reachable
pub mod Handshake
pub mod Agreement
use sockety_go.Common.{
  ℕ, ◌≡◌, ◌⊎◌, Bool, true, false, not, ◌&&◌, List, Option, none, some, ltb, if◌then◌else◌, Error,
  eof, external, protocol_error, Outcome, returned, failed, panicked, blocked, stuck, after, M,
  lift, embed,
}
use sockety_go.Constants.{max_channels, default_read_buffer_size}
use sockety_go.BufferedReader.{Reply, Buffered}
use sockety_go.BufferedReader.Stream.{buffered}
use sockety_go.DoneSignal
use sockety_go.DoneSignal.{DoneSignal, new_done_signal}
use sockety_go.FastReply.{FastReply}
use sockety_go.GoChannel
use sockety_go.GoChannel.{GoChannel}
use sockety_go.MessageDraft.{MessageDraft}
use sockety_go.MessageReader.{Message}
use sockety_go.Request.{Request, create}
use sockety_go.Send.{pass}
use sockety_go.Parser.{Parser, get_default, new_parser, read_header, read}
use sockety_go.ProtocolUtils.{create_protocol_header, validate_channels_count}
use sockety_go.Writer.{Writer, new_writer}

-- The timeout is not used.
pub record ConnOptions : Type 0 where
  pub channels : ℕ
  pub write_channels : ℕ
  pub buffered_messages : ℕ
  pub read_buffer_size : ℕ

abbrev pub no_options : ConnOptions
no_options = record {
  channels = 0;
  write_channels = 0;
  buffered_messages = 0;
  read_buffer_size = 0;
}

abbrev pub options_of : Option ConnOptions → ConnOptions
options_of none = no_options
options_of (some o) = o

-- `ctx_done` says whether the context is cancelled. A response has no content.
pub record Conn (Q T : Type 0) : Type 0 where
  pub w : Writer T
  pub p : Parser (Buffered Q)
  pub ctx_done : Bool
  pub read_done : DoneSignal
  pub closed : DoneSignal
  pub done : DoneSignal
  pub messages : GoChannel Message
  pub fast_replies : GoChannel FastReply
  pub responses : GoChannel (Unit {0})

-- The connection when its goroutines start.
unfoldable pub fresh : {Q T : Type 0} → Writer T → Parser (Buffered Q) → Bool → ℕ → Conn Q T
fresh w p parent_done buffered_messages = record {
  w = w;
  p = p;
  ctx_done = parent_done;
  read_done = new_done_signal;
  closed = new_done_signal;
  done = new_done_signal;
  messages = GoChannel.make buffered_messages;
  fast_replies = GoChannel.make 0;
  responses = GoChannel.make 0;
}

-- What a round of `handle` comes to before it sends.
pub data Next : Type 0 where
  ends goes_on : Next
  offers : Message → Next

module _ {Q T : Type 0} where
  abbrev pub on_closed : {A : Type 0} → M DoneSignal A → M (Conn Q T) A
  on_closed m c = embed (λ d. record c { closed = d }) (m c.closed)

  abbrev pub on_read_done : {A : Type 0} → M DoneSignal A → M (Conn Q T) A
  on_read_done m c = embed (λ d. record c { read_done = d }) (m c.read_done)

  abbrev pub on_done : {A : Type 0} → M DoneSignal A → M (Conn Q T) A
  on_done m c = embed (λ d. record c { done = d }) (m c.done)

  unfoldable pub ctx_cancel : Conn Q T → Conn Q T
  ctx_cancel c = record c { ctx_done = true }

  unfoldable pub close_channels : M (Conn Q T) (Unit {0})
  close_channels c =
      after (embed (λ ch. record c { messages = ch }) (GoChannel.close c.messages)) λ _ c.
        after (embed (λ ch. record c { fast_replies = ch }) (GoChannel.close c.fast_replies))
          λ _ c. embed (λ ch. record c { responses = ch }) (GoChannel.close c.responses)

  unfoldable pub mark_as_done : M (Conn Q T) (Unit {0})
  mark_as_done c =
      after (on_done DoneSignal.close c)
        λ first c. if not first then returned tt c else close_channels (ctx_cancel c)

  unfoldable pub mark_read_as_done : M (Conn Q T) (Unit {0})
  mark_read_as_done c =
      after (on_read_done DoneSignal.close c)
        λ first c. if first && DoneSignal.load c.closed then mark_as_done c else returned tt c

  -- `c.closed.Close() && c.closed.Load()`.
  unfoldable pub swap_closed : M (Conn Q T) (Unit {0})
  swap_closed c =
      after (on_closed DoneSignal.close c)
        λ first c. if first && DoneSignal.load c.closed then mark_as_done c else returned tt c

  -- `c.messages <- item`.
  unfoldable pub offer : Message → M (Conn Q T) (Unit {0})
  offer item c = embed (λ ch. record c { messages = ch }) (GoChannel.send item c.messages)

-- `Request` and `Pass` of a draft, which is the package's only producer with data; the identifier is uuid.New's.
unfoldable pub request : {Q T : Type 0} → MessageDraft → List ℕ → Conn Q T → Request T
request m id c = create m id c.w

unfoldable pub pass_draft :
    {Q T : Type 0}
    → (List ℕ → M T (Unit {0}))
    → Bool
    → List ℕ
    → MessageDraft
    → List ℕ
    → M (Conn Q T) (Unit {0})
pass_draft write_to data_last pooled m id c =
    embed (λ w. record c { w = w }) (pass write_to data_last pooled m id c.w)

-- `close_to` is the Close of the connection below.
module _ {Q T : Type 0} (close_to : M T (Unit {0})) where
  unfoldable pub close : M (Conn Q T) (Unit {0})
  close c =
      let cancelled : Conn Q T = ctx_cancel c in
      let w : Writer T = cancelled.w in
      embed (λ t. record cancelled { w = record w { target = t } }) (close_to w.target)

  -- The error of `Close` is dropped.
  unfoldable pub mark_connection_as_closed : M (Conn Q T) (Unit {0})
  mark_connection_as_closed c = elim (close c) [
    | returned _ c ↦ swap_closed c
    | failed _ c ↦ swap_closed c
    | panicked x ↦ panicked x
    | blocked ↦ blocked
    | stuck ↦ stuck
  ]

  unfoldable pub watch_end : M (Conn Q T) (Unit {0})
  watch_end c =
      if c.ctx_done
      then after (mark_connection_as_closed c) (λ _ c. mark_read_as_done c)
      else blocked

-- `names_closed` says whether the text of an error from outside contains that of net.ErrClosed.
abbrev pub is_end : (ℕ → Bool) → Error → Bool
is_end names_closed eof = true
is_end names_closed (external e) = names_closed e
is_end names_closed other = false

module _ {Q T : Type 0} (source : Q → ℕ → Reply Q) (from_bytes : List ℕ → Option (List ℕ))
    (spare : ℕ) (close_to : M T (Unit {0})) (names_closed : ℕ → Bool) where
  abbrev ended : M (Conn Q T) Next
  ended c =
      after (mark_read_as_done c)
        λ _ c. after (mark_connection_as_closed close_to c) λ _ c. returned ends c

  abbrev handled : Option Message → Next
  handled none = goes_on
  handled (some item) = offers item

  -- What follows the parser's `Read` in a round.
  unfoldable pub after_read : Outcome (Parser (Buffered Q)) (Option Message) → M (Conn Q T) Next
  after_read (returned v p) c =
      let c : Conn Q T = record c { p = p } in
      if DoneSignal.load c.done then returned ends c else returned (handled v) c
  after_read (failed e p) c =
      let c : Conn Q T = record c { p = p } in
      if is_end names_closed e then ended c else panicked (protocol_error e)
  after_read (panicked x) c = panicked x
  after_read blocked c = blocked
  after_read stuck c = stuck

  -- A round of `handle` up to the send; the parser gives out no responses and no fast replies.
  unfoldable pub handle_read : ℕ → M (Conn Q T) Next
  handle_read rounds c =
      if c.ctx_done
      then (after (mark_connection_as_closed close_to c)
          λ _ c. after (mark_read_as_done c) λ _ c. returned ends c)
      else after_read (read (buffered source spare) from_bytes rounds c.p) c

module _ {Q T : Type 0} (source : Q → ℕ → Reply Q) (from_bytes : List ℕ → Option (List ℕ))
    (spare : ℕ) (write_to : List ℕ → M T (Unit {0})) where
  -- The parser's outcome, in a call that has the target as its state.
  abbrev pub beside : {P A : Type 0} → T → Outcome P A → Outcome T (A × P)
  beside t (returned a p) = returned (a, p) t
  beside t (failed e p) = failed e t
  beside t (panicked x) = panicked x
  beside t blocked = blocked
  beside t stuck = stuck

  -- `parent_done` says whether the parent's context is cancelled.
  unfoldable pub new_conn : Bool → Q → Option ConnOptions → M T (Conn Q T)
  new_conn parent_done q options t =
      let o : ConnOptions = options_of options in
      let read_channels = get_default o.channels max_channels in
      let write_channels = get_default o.write_channels max_channels in
      let read_buffer_size = get_default o.read_buffer_size default_read_buffer_size in
      after (lift (validate_channels_count read_channels) t) λ _ t.
        after (lift (validate_channels_count write_channels) t) λ _ t.
          after (lift (new_parser q read_channels read_buffer_size) t) λ p t.
            after (lift (create_protocol_header read_channels) t) λ header t.
              after (write_to header t) λ _ t.
                after (beside t (read_header (buffered source spare) from_bytes p))
                  λ (channels, p) t.
                    after
                      (lift
                        (new_writer t
                          (if ltb channels write_channels then channels else write_channels))
                        t)
                      λ w t. returned (fresh w p parent_done o.buffered_messages) t
