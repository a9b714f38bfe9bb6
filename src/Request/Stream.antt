-- ===== src/Request/Stream.antt =====
-- message_draft.go, `send` with a stream writer: what is written, in whatever order the data and the pieces of
-- the stream come.
use sockety_go.Common.{
  sym, ltb, length, subst, Outcome, embed, panicked, stuck, if_true, if_false, ℕ, ◌<◌, ◌≡◌, refl,
  ap, ◌∙◌, Bool, true, false, List, [], ◌++◌, none, some, set, get_elem?, ok, already_sent,
  returned, failed, blocked, M,
}
use sockety_go.ChannelManager.{release}
use sockety_go.ChannelManager.Reservation.{IsManager, lock_of, lock_of-set}
use sockety_go.MessageDraft.{message_packet}
use sockety_go.Send.Output.{Sent, Sent-released, holding, obtain_lem}
use sockety_go.Writer.{obtain_channel}
use sockety_go.Request.{send_with_stream}
use sockety_go.DoneSignal.{load}
use sockety_go.DoneSignal
use sockety_go.DoneSignal.{new_done_signal}
use sockety_go.DoneSignal.Once.{shut}
use sockety_go.FifoMutex
use sockety_go.FifoMutex.{new_fifo_mutex}
use sockety_go.MessageDraft.{MessageDraft}
use sockety_go.Packet.{Packet, get_bytes}
use sockety_go.Send.{send}
use sockety_go.StreamWriter.{StreamWriter, new_stream_writer, error_of}
use sockety_go.StreamWriter.Lifetime.{opened, finished}
use sockety_go.Writer.{Writer, release_channel, write_at_channel}
use sockety_go.Writer.Output.{Accepts, switch_to, write_raw_at_channel-Wrote}
use sockety_go.Request.{
  Request, create, stream_of, run_moves, finish_stream, send_stream, send_without_stream,
  request_send,
}
use sockety_go.Request.Moves.{
  IsRun, run_bytes, moves_bytes, scheduled-IsOrder, scheduled_bytes, waiting, run_moves-Followed,
}
use sockety_go.MessageDraft.Layout.{IsSendable, data_width, data_width_lem}
use sockety_go.ProtocolUtils.{get_data_size_bytes}
use sockety_go.Request.{UserMove, scheduled, settled}

-- What a request without a stream is after `Send`, whatever came of it.
abbrev sent_request : {T : Type 0} → MessageDraft → List ℕ → Writer T → Request T
sent_request m id w = record (create m id w) { sent = true; done = shut }

settled_sent :
    {T : Type 0} (m : MessageDraft) (id : List ℕ) (w : Writer T)
    (out : Outcome (Writer T) (Unit {0}))
    → settled (embed (λ v. record (create m id w) { sent = true; writer = v }) out)
      ≡ embed (sent_request m id) out
unfolding create DoneSignal.close DoneSignal.close_ch new_done_signal
settled_sent m id w (returned a v) = refl
settled_sent m id w (failed e v) = refl
settled_sent m id w (panicked x) = refl
settled_sent m id w blocked = refl
settled_sent m id w stuck = refl

-- A request `q` that is done, whose Stream waits for ever, and which refuses a second `Send`.
abbrev pub Stranded : {T : Type 0} → (List ℕ → M T (Unit {0})) → Request T → Type 0
Stranded write_to q =
    (DoneSignal.get q.done ≡ true)
    × (stream_of q ≡ blocked)
    × (request_send write_to 0 [] false [] q ≡ failed already_sent q)

-- What `Send` makes of the end of `send`.
abbrev pub Follows :
    {T : Type 0}
    → (List ℕ → M T (Unit {0}))
    → Outcome (Writer T) (Unit {0})
    → Outcome (Request T) (Unit {0})
    → Type 0
Follows {T} write_to (returned a v) out =
    (q : Request T) × (out ≡ returned tt q) × (q.writer ≡ v) × Stranded write_to q
Follows {T} write_to (failed e v) out =
    (q : Request T) × (out ≡ failed e q) × (q.writer ≡ v) × Stranded write_to q
Follows write_to (panicked x) out = out ≡ panicked x
Follows write_to blocked out = out ≡ blocked
Follows write_to stuck out = out ≡ stuck

settled-Follows :
    {T : Type 0} (write_to : List ℕ → M T (Unit {0})) (m : MessageDraft) (id : List ℕ)
    (w : Writer T) (out : Outcome (Writer T) (Unit {0}))
    → Follows write_to out (embed (sent_request m id) out)
unfolding create stream_of request_send load DoneSignal.get new_done_signal
settled-Follows write_to m id w (returned a v) =
    (sent_request m id v, refl, refl, (refl, refl, refl))
settled-Follows write_to m id w (failed e v) = (sent_request m id v, refl, refl, (refl, refl, refl))
settled-Follows write_to m id w (panicked x) = refl
settled-Follows write_to m id w blocked = refl
settled-Follows write_to m id w stuck = refl

-- `Send` of a new request without a stream returns where `send` of its draft returns, with the same error or none
-- and the writer that it leaves, and panics or waits for ever where `send` does. Where it returns, with an error
-- or without, the request is done and refuses a second `Send`; but `Stream` of it waits for ever.
pub stream_of-request_send :
    {T : Type 0} (write_to : List ℕ → M T (Unit {0})) (data_at : ℕ) (moves : List UserMove)
    (data_last : Bool) (m : MessageDraft) (id : List ℕ) (w : Writer T)
    → m.has_stream ≡ false
    → Follows write_to
        (send write_to data_last [] m id true w)
        (request_send write_to data_at moves data_last [] (create m id w))
unfolding request_send create send_without_stream
stream_of-request_send write_to data_at moves data_last m id w no_stream =
    subst (Follows write_to (send write_to data_last [] m id true w))
      (sym (if_false no_stream _ _ ∙ settled_sent m id w (send write_to data_last [] m id true w)))
      (settled-Follows write_to m id w (send write_to data_last [] m id true w))

-- The stream before `send` has written the message.
abbrev pub locked : {T : Type 0} → ℕ → Writer T → StreamWriter T
locked channel w = record {
  channel = channel;
  writer = w;
  done = new_done_signal;
  mu = record { concurrent = 1; held = 1 };
  err = none;
}

abbrev pub released : {T : Type 0} → ℕ → Writer T → Writer T
released channel u = record u {
  channels = record (u.channels) { locks = set u.channels.locks channel 0 };
}

-- What a request with a stream is after `Send`.
abbrev pub settled_request : {T : Type 0} → MessageDraft → List ℕ → ℕ → Writer T → Request T
settled_request m id channel w = record {
  id = id;
  m = m;
  writer = w;
  sent = true;
  initiated = shut;
  done = shut;
  stream = some (finished channel w none);
}

module _ {T : Type 0} (write_to : List ℕ → M T (Unit {0})) (output : T → List ℕ)
    (a : Accepts write_to output) where
  finish_stream_lem :
      (channel : ℕ) (u : Writer T)
      → get_elem? u.channels.locks channel ≡ some 1
      → finish_stream write_to channel (waiting (finished channel u none))
        ≡ returned tt (waiting (finished channel (released channel u) none))
  unfolding finish_stream release_channel release error_of DoneSignal.get FifoMutex.lock
      FifoMutex.unlock new_fifo_mutex
  finish_stream_lem channel u held = rw held refl

  send_stream_lem :
      (channel : ℕ) (p : Packet) (m : MessageDraft) (size data_at : ℕ) (moves : List UserMove)
      (w v u : Writer T)
      → write_at_channel write_to channel p w ≡ returned tt v
      → run_moves write_to channel m
          (scheduled (ltb 0 size) data_at moves)
          (waiting (opened channel v none))
        ≡ returned tt (waiting (finished channel u none))
      → get_elem? u.channels.locks channel ≡ some 1
      → send_stream write_to channel p m size data_at moves (locked channel w)
        ≡ returned tt (finished channel (released channel u) none)
  unfolding send_stream FifoMutex.unlock new_fifo_mutex
  send_stream_lem channel p m size data_at moves w v u e e2 held =
      rw (e, e2, finish_stream_lem channel u held) refl

  with_stream_lem :
      (channel : ℕ) (packet : Packet) (m : MessageDraft) (id : List ℕ) (size data_at : ℕ)
      (moves : List UserMove) (w v w' : Writer T)
      → message_packet [] m id true ≡ ok packet
      → get_data_size_bytes (length m.content) ≡ ok size
      → obtain_channel w ≡ returned channel v
      → send_stream write_to channel packet m size data_at moves (locked channel v)
        ≡ returned tt (finished channel w' none)
      → send_with_stream write_to data_at moves [] (record (create m id w) { sent = true })
        ≡ returned tt (settled_request m id channel w')
  unfolding create send_with_stream new_stream_writer DoneSignal.close DoneSignal.close_ch
      new_done_signal FifoMutex.lock new_fifo_mutex
  with_stream_lem channel packet m id size data_at moves w v w' built sized got sent =
      rw (got, built, sized, sent) refl

  request_send_lem :
      (m : MessageDraft) (id : List ℕ) (data_at : ℕ) (moves : List UserMove) (data_last : Bool)
      (w : Writer T)
      → m.has_stream ≡ true
      → request_send write_to data_at moves data_last [] (create m id w)
        ≡ send_with_stream write_to data_at moves [] (record (create m id w) { sent = true })
  unfolding request_send create
  request_send_lem m id data_at moves data_last w has = if_true has _ _

  -- On a target without errors and with some channel free, `Send` of a new request of a sendable draft with a
  -- stream, while the application writes to the stream and then closes it, once, returns on some channel
  -- that was free, and releases it: what is written is one switch to this channel, if it is not the
  -- current one, the message, and then the packets of the stream's pieces and of its end, in order,
  -- and among them, before the piece `data_at` or behind them all, one packet with the data, if and only if the
  -- draft has some: `Send` does not return without it. The request is done, its stream is finished, and a
  -- second `Send` is refused.
  pub request_send-Sent :
      (data_at : ℕ) (moves : List UserMove) (data_last : Bool) (m : MessageDraft) (id : List ℕ)
      (packet : Packet) (w : Writer T) (other : ℕ)
      → IsRun moves
      → IsSendable m id
      → m.has_stream ≡ true
      → message_packet [] m id true ≡ ok packet
      → IsManager w.channels
      → other < w.channels.channels_count
      → lock_of w.channels other ≡ some 0
      → (channel : ℕ) × (w' : Writer T) × (request_send write_to data_at moves data_last []
            (create m id w)
          ≡ returned tt (settled_request m id channel w'))
        × (request_send write_to data_at moves data_last [] (settled_request m id channel w')
            ≡ failed already_sent (settled_request m id channel w'))
        × Sent write_to output a (get_bytes packet ++ run_bytes m data_at moves) w w'
  unfolding write_at_channel switch_to request_send
  request_send-Sent data_at moves data_last m id packet w other run sendable has built manager
        inside free =
      let size = data_width (length m.content) in
      let all_moves = scheduled (ltb 0 size) data_at moves in
      let (channel, in_range, was_free, got) = obtain_lem write_to w other manager inside free in
      let (v, e, h) =
        write_raw_at_channel-Wrote write_to output a channel (get_bytes packet)
          (holding write_to w channel) in
      let (u, e2, g) =
        run_moves-Followed write_to output a channel m all_moves false v
          (scheduled-IsOrder (ltb 0 size) data_at moves run) h.now_current in
      let taken : u.channels.locks ≡ set w.channels.locks channel 1 = g.same_locks ∙ h.same_locks in
      let held : get_elem? u.channels.locks channel ≡ some 1 =
        ap (λ l. get_elem? l channel) taken ∙ lock_of-set w.channels.locks channel 0 1 was_free in
      (
        channel,
        released channel u,
        request_send_lem m id data_at moves data_last w has
            ∙ with_stream_lem channel packet m id size data_at moves w (holding write_to w channel)
                (released channel u) built (data_width_lem (length m.content) sendable.fits) got
                (send_stream_lem channel packet m size data_at moves (holding write_to w channel) v
                  u e e2 held),
        refl,
        subst (λ l. Sent write_to output a (get_bytes packet ++ l) w (released channel u))
            (scheduled_bytes m data_at moves)
            (Sent-released write_to output a channel (get_bytes packet) (moves_bytes m all_moves) w
              v u in_range was_free h g),
      )
