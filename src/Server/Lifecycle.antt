-- ===== src/Server/Lifecycle.antt =====
-- server.go, ListenContext, Close and handleClose: a server that listens, is closed, and listens again.
use sockety_go.Common.{
  ℕ, ◌≡◌, refl, ap, Bool, true, false, List, [], ◌∷◌, ◌++◌, none, some, get_elem?, set, length, ok,
  send_on_closed_channel, server_closed, already_listening, nil_dereference, returned, failed,
  panicked, after, M,
}
use sockety_go.Conn.{Conn}
use sockety_go.GoChannel
use sockety_go.GoChannel.{GoChannel}
use sockety_go.Network.{validate_network}
use sockety_go.Server.{
  Server, is_cancelled, done, handle_connection, handle_close, accept, listen_context, close,
}

get_last : (l : List Bool) (b : Bool) → get_elem? (l ++ (b ∷ [])) (length l) ≡ some b
get_last [] b = refl
get_last (a ∷ l) b = get_last l b

set_last : (l : List Bool) (b c : Bool) → set (l ++ (b ∷ [])) (length l) c ≡ l ++ (c ∷ [])
set_last [] b c = refl
set_last (a ∷ l) b c = ap (λ k. a ∷ k) (set_last l b c)

get_before_last :
    (l : List Bool) (b c : Bool) → get_elem? ((l ++ (b ∷ [])) ++ (c ∷ [])) (length l) ≡ some b
get_before_last [] b c = refl
get_before_last (a ∷ l) b c = get_before_last l b c

module _ {N L Q T : Type 0} (listen_on : List ℕ → List ℕ → M N L)
    (close_listener : L → M N (Unit {0})) where
  -- The server after ListenContext, and after Close.
  abbrev pub listening : Server N L Q T → Bool → N → L → Server N L Q T
  listening s parent_done n l = record s {
    network = n;
    contexts = s.contexts ++ (parent_done ∷ []);
    ctx = some (length s.contexts);
    conn_ch = GoChannel.make 0;
    listener = some l;
  }

  abbrev pub stopped : Server N L Q T → N → Server N L Q T
  stopped s n = record s {
    network = n;
    contexts = s.contexts ++ (true ∷ []);
    ctx = some (length s.contexts);
    conn_ch = GoChannel.make 0;
    listener = none;
  }

  listen_lem :
      (s : Server N L Q T) (parent_done : Bool) (network address : List ℕ) (n : N) (l : L)
      → s.listener ≡ none
      → validate_network network ≡ ok tt
      → listen_on network address s.network ≡ returned l n
      → listen_context listen_on parent_done network address s
        ≡ returned tt (listening s parent_done n l)
  unfolding listen_context
  listen_lem s parent_done network address n l idle known got = rw (known, idle, got) refl

  close_lem :
      (s : Server N L Q T) (parent_done : Bool) (n n' : N) (l : L)
      → close_listener l n ≡ returned tt n'
      → close close_listener (listening s parent_done n l) ≡ returned tt (stopped s n')
  unfolding close
  close_lem s parent_done n n' l shut = rw (close, shut, set_last s.contexts parent_done true) refl

  -- A server whose channel the goroutine of the last context has closed.
  abbrev pub ended : Server N L Q T → Server N L Q T
  ended s = record s { conn_ch = record (s.conn_ch) { closed = true } }

  ended_lem :
      (s : Server N L Q T) (i : ℕ)
      → get_elem? s.contexts i ≡ some true
      → s.conn_ch.closed ≡ false
      → handle_close i s ≡ returned tt (ended s)
  unfolding handle_close GoChannel.close
  ended_lem s i cancelled still_open = rw (handle_close, is_cancelled, cancelled, still_open) refl

  -- A server that is idle listens, where it gets a listener; a second call is refused. `Close` ends this: its
  -- context is cancelled, and `Done` goes on. Then the goroutine of the context closes the channel of
  -- connections, and `Accept` returns either the error that the server is closed, or a nil
  -- connection without an error, as `select` chooses. A second `Close` panics.
  pub close-listen_context :
      (s : Server N L Q T) (parent_done : Bool) (network address : List ℕ) (n n' : N) (l : L)
      → s.listener ≡ none
      → validate_network network ≡ ok tt
      → listen_on network address s.network ≡ returned l n
      → close_listener l n ≡ returned tt n'
      → (listen_context listen_on parent_done network address s
          ≡ returned tt (listening s parent_done n l))
        × (listen_context listen_on parent_done network address (listening s parent_done n l)
            ≡ failed already_listening (listening s parent_done n l))
        × (close close_listener (listening s parent_done n l) ≡ returned tt (stopped s n'))
        × (is_cancelled (stopped s n').ctx (stopped s n') ≡ true)
        × (done (stopped s n') ≡ true)
        × (handle_close (length s.contexts) (stopped s n') ≡ returned tt (ended (stopped s n')))
        × (accept true none (ended (stopped s n')) ≡ failed server_closed (ended (stopped s n')))
        × (accept false none (ended (stopped s n')) ≡ returned none (ended (stopped s n')))
        × (close close_listener (stopped s n') ≡ panicked nil_dereference)
  unfolding listen_context close done handle_close accept GoChannel.make GoChannel.close
  close-listen_context s parent_done network address n n' l idle known got shut = (
    listen_lem s parent_done network address n l idle known got,
    rw known refl,
    close_lem s parent_done n n' l shut,
    rw (is_cancelled, get_last s.contexts true) refl,
    refl,
    rw (handle_close, is_cancelled, get_last s.contexts true) refl,
    refl,
    refl,
    refl,
  )

  -- Where a server is closed and listens again before the goroutine of its first context has closed the
  -- channel, this goroutine closes the new one: the server still listens and is not done, but the
  -- first connection that it accepts makes it panic.
  pub handle_close-relisten :
      (s : Server N L Q T) (parent_done : Bool) (network address : List ℕ) (n n' m : N) (l k : L)
      (c : Conn Q T)
      → s.listener ≡ none
      → validate_network network ≡ ok tt
      → listen_on network address s.network ≡ returned l n
      → close_listener l n ≡ returned tt n'
      → listen_on network address n' ≡ returned k m
      → (again : Server N L Q T) × (after
            (listen_context listen_on parent_done network address s)
            (λ _ u. after (close close_listener u) λ _ u.
              after
                (listen_context listen_on false network address u)
                λ _ u. handle_close (length s.contexts) u)
          ≡ returned tt again)
        × (again.listener ≡ some k)
        × (done again ≡ false)
        × (handle_connection c again ≡ panicked send_on_closed_channel)
  unfolding handle_connection done GoChannel.send GoChannel.make
  handle_close-relisten s parent_done network address n n' m l k c idle known got shut got2 =
      let again : Server N L Q T = listening (stopped s n') false m k in
      (
        ended again,
        rw
            (
              listen_lem s parent_done network address n l idle known got,
              close_lem s parent_done n n' l shut,
            )
            (rw (listen_lem (stopped s n') false network address m k refl known got2)
              (ended_lem again (length s.contexts) (get_before_last s.contexts true false) refl)),
        refl,
        rw (done, is_cancelled, get_last (s.contexts ++ (true ∷ [])) false) refl,
        refl,
      )
