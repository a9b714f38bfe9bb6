-- ===== src/Server.antt =====
-- server.go. The listeners of package net are parameters: `listen_on` opens one, `accept_on` yields the two
-- directions of the next connection, `close_listener` closes it; the network is their state.
pub mod Lifecycle
pub mod Accepting
use sockety_go.Common.{
  ℕ, Bool, true, false, not, ◌&&◌, List, [], ◌∷◌, ◌++◌, Option, none, some, set, get_elem?,
  if◌then◌else◌, length, Error, external, server_closed, already_listening, nil_dereference,
  Outcome, returned, failed, panicked, blocked, stuck, after, M, lift, embed,
}
use sockety_go.BufferedReader.{Reply}
use sockety_go.Conn.{ConnOptions, Conn, new_conn, is_end}
use sockety_go.GoChannel
use sockety_go.GoChannel.{GoChannel}
use sockety_go.Network.{validate_network}

-- `contexts` are those of all calls of ListenContext, each with whether it is cancelled; `ctx` is the last one's
-- place. `handled` are the errors that the handler was called with.
pub record Server (N L Q T : Type 0) : Type 0 where
  pub network : N
  pub conn_options : ConnOptions
  pub handled : List Error
  pub conn_ch : GoChannel (Conn Q T)
  pub contexts : List Bool
  pub ctx : Option ℕ
  pub listener : Option L

-- The channel that NewServer makes and closes.
unfoldable pub closed_channel : {A : Type 0} → GoChannel A
closed_channel = record (GoChannel.make 0) { closed = true }

module _ {N L Q T : Type 0} where
  unfoldable pub new_server : N → ConnOptions → Server N L Q T
  new_server network options = record {
    network = network;
    conn_options = options;
    handled = [];
    conn_ch = closed_channel;
    contexts = [];
    ctx = none;
    listener = none;
  }

  abbrev on_network : {A : Type 0} → M N A → M (Server N L Q T) A
  on_network m s = embed (λ n. record s { network = n }) (m s.network)

  -- The context of a call of ListenContext.
  abbrev pub is_cancelled : Option ℕ → Server N L Q T → Bool
  is_cancelled none s = false
  is_cancelled (some i) s = elim (get_elem? s.contexts i) [ none ↦ false | some b ↦ b ]

  abbrev pub cancel : Option ℕ → Server N L Q T → Server N L Q T
  cancel none s = s
  cancel (some i) s = record s { contexts = set s.contexts i true }

  -- Whether a receive from `Done` goes on.
  unfoldable pub done : Server N L Q T → Bool
  done s = elim s.listener [ none ↦ true | some _ ↦ is_cancelled s.ctx s ]

  unfoldable pub handle_server_error : Error → Server N L Q T → Server N L Q T
  handle_server_error e s = record s { handled = s.handled ++ (e ∷ []) }

  unfoldable pub handle_connection : Conn Q T → M (Server N L Q T) (Unit {0})
  handle_connection c s = embed (λ ch. record s { conn_ch = ch }) (GoChannel.send c s.conn_ch)

  -- The goroutine of the context at `i`: it closes the channel that the server has by then.
  unfoldable pub handle_close : ℕ → M (Server N L Q T) (Unit {0})
  handle_close i s =
      if is_cancelled (some i) s
      then embed (λ ch. record s { conn_ch = ch }) (GoChannel.close s.conn_ch)
      else blocked

  -- `select` of Done and Next: `waiting` is the connection that a goroutine offers, and a closed channel yields a
  -- nil one; where both are ready, `prefers_done` is the choice.
  unfoldable pub accept : Bool → Option (Conn Q T) → M (Server N L Q T) (Option (Conn Q T))
  accept prefers_done waiting s =
      let next : Outcome (Server N L Q T) (Option (Conn Q T)) = elim waiting [
        | some c ↦ returned (some c) (record s { conn_ch = GoChannel.receive s.conn_ch })
        | none ↦ if s.conn_ch.closed then returned none s else blocked
      ] in
      let next_ready : Bool = elim waiting [ some c ↦ true | none ↦ s.conn_ch.closed ] in
      if done s
      then (if prefers_done
          then failed server_closed s
          else if next_ready
          then next
          else failed server_closed s)
      else next

module _ {N L Q T : Type 0} (listen_on : List ℕ → List ℕ → M N L) where
  -- ListenContext, up to the start of its goroutines; `parent_done` is the parent's context.
  unfoldable pub listen_context : Bool → List ℕ → List ℕ → M (Server N L Q T) (Unit {0})
  listen_context parent_done network address s = after (lift (validate_network network) s) λ _ s.
      elim s.listener [
        | some _ ↦ failed already_listening s
        | none ↦
            let s : Server N L Q T = record s {
              contexts = s.contexts ++ (parent_done ∷ []);
              ctx = some (length s.contexts);
              conn_ch = GoChannel.make 0;
            } in
            after (on_network (listen_on network address) s)
              λ l s. returned tt (record s { listener = some l })
      ]

  unfoldable pub listen : List ℕ → List ℕ → M (Server N L Q T) (Unit {0})
  listen network address s = listen_context false network address s

module _ {N L Q T : Type 0} (close_listener : L → M N (Unit {0})) where
  -- The pointer is dereferenced before it is compared with nil.
  unfoldable pub close : M (Server N L Q T) (Unit {0})
  close s = elim s.listener [
    | none ↦ panicked nil_dereference
    | some l ↦ elim (on_network (close_listener l) s) [
      | returned _ s ↦ returned tt (record (cancel s.ctx s) { listener = none })
      | failed e s ↦ failed e (record (cancel s.ctx s) { listener = none })
      | panicked x ↦ panicked x
      | blocked ↦ blocked
      | stuck ↦ stuck
    ]
  ]

-- What `Accept` of a listener yields: the two directions of a connection.
pub record Raw (Q T : Type 0) : Type 0 where
  pub read_half : Q
  pub write_half : T

module _ {N L Q T : Type 0} (source : Q → ℕ → Reply Q) (from_bytes : List ℕ → Option (List ℕ))
    (spare : ℕ) (write_to : List ℕ → M T (Unit {0})) (names_closed : ℕ → Bool)
    (accept_on : L → M N (Raw Q T)) where
  -- Whether the text of an error from outside contains that of net.ErrClosed.
  abbrev is_closed_error : Error → Bool
  is_closed_error (external e) = names_closed e
  is_closed_error other = false

  -- `NewConn` on the accepted connection, in the server's context.
  unfoldable pub serve : ℕ → Raw Q T → M (Server N L Q T) (Unit {0})
  serve i raw s =
      elim (new_conn source from_bytes spare write_to (is_cancelled (some i) s) raw.read_half
        (some s.conn_options) raw.write_half) [
          | returned c _ ↦ handle_connection c s
          | failed e _ ↦ returned tt (handle_server_error e s)
          | panicked x ↦ panicked x
          | blocked ↦ blocked
          | stuck ↦ stuck
        ]

  -- A round of `acceptConnections` for the context at `i`, in one step, so that the listener is still there after
  -- an error; the result says whether there is another round.
  unfoldable pub accept_connection : ℕ → M (Server N L Q T) Bool
  accept_connection i s = if is_cancelled (some i) s then returned false s else elim s.listener [
    | none ↦ returned false s
    | some l ↦ elim (on_network (accept_on l) s) [
      | returned raw s ↦ after (serve i raw s) (λ _ s. returned true s)
      | failed e s ↦ returned false (if is_closed_error e then s else handle_server_error e s)
      | panicked x ↦ panicked x
      | blocked ↦ blocked
      | stuck ↦ stuck
    ]
  ]
