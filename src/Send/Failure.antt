-- ===== src/Send/Failure.antt =====
-- message_draft.go, `send`, when the message itself cannot be written.
use sockety_go.Common.{
  ℕ, ◌<◌, ◌≡◌, refl, ap, ◌∙◌, arith, Bool, true, false, Bool-cases, inl, inr, List, [], some,
  get_elem?, length, ok, Error, failed, M,
}
use sockety_go.ChannelManager.{ChannelManager, is, set_current}
use sockety_go.ChannelManager.Reservation.{IsManager, lock_of, lock_of-set}
use sockety_go.MessageDraft.{MessageDraft, message_packet}
use sockety_go.MessageDraft.Layout.{IsSendable, data_width_lem}
use sockety_go.ProtocolUtils.{create_switch_channel_packet}
use sockety_go.Packet.{Packet, get_bytes}
use sockety_go.Writer.{
  Writer, write_at_channel, write_raw_at_channel, write_raw, unsafe_write_at_channel,
}
use sockety_go.Send.{send_on, send}
use sockety_go.Send.Output.{IsLong, holding, obtain_lem, slow_track, send_lem}

module _ {T : Type 0} (write_to : List ℕ → M T (Unit {0})) where
  -- A target that refuses every write, as a connection that is broken or closed.
  abbrev pub Refuses : Type 0
  Refuses = (bytes : List ℕ) (t : T) → (x : Error) × (t' : T) × (write_to bytes t ≡ failed x t')

module _ {T : Type 0} (write_to : List ℕ → M T (Unit {0})) (refuses : Refuses write_to) where
  set_current-locks : (channel : ℕ) (c : ChannelManager) → (set_current channel c).locks ≡ c.locks
  unfolding set_current
  set_current-locks channel c = ground arith

  write_at_channel-fails :
      (channel : ℕ) (p : Packet) (w : Writer T)
      → (x : Error) × (u : Writer T) × (write_at_channel write_to channel p w ≡ failed x u)
        × (u.channels.locks ≡ w.channels.locks)
  unfolding write_at_channel write_raw_at_channel unsafe_write_at_channel write_raw
  write_at_channel-fails channel p w = elim (Bool-cases (is channel w.channels)) [
    | inl current ↦ at_once current (refuses (get_bytes p) w.target)
    | inr away ↦ switching away (refuses (create_switch_channel_packet channel) w.target)
  ]
    where
      at_once :
          is channel w.channels ≡ true
          → (x : Error) × (t : T) × (write_to (get_bytes p) w.target ≡ failed x t)
          → (x : Error) × (u : Writer T) × (write_at_channel write_to channel p w ≡ failed x u)
            × (u.channels.locks ≡ w.channels.locks)
      at_once current (x, t, e) = (x, record w { target = t }, rw (current, e) refl, refl)

      switching :
          is channel w.channels ≡ false
          → (x : Error) × (t : T) × (write_to (create_switch_channel_packet channel) w.target
              ≡ failed x t)
          → (x : Error) × (u : Writer T) × (write_at_channel write_to channel p w ≡ failed x u)
            × (u.channels.locks ≡ w.channels.locks)
      switching away (x, t, e) = (
        x,
        record { target = t; channels = set_current channel w.channels },
        rw (away, e) refl,
        set_current-locks channel w.channels,
      )

  -- On a target that refuses every write, with some channel free, `send` of a sendable draft that has data or a
  -- stream returns an error, and some channel whose lock was free has its lock taken when it returns.
  pub send-fails :
      (data_last : Bool) (m : MessageDraft) (id : List ℕ) (expects_response : Bool)
      (packet : Packet) (w : Writer T) (other : ℕ)
      → IsSendable m id
      → IsLong m
      → message_packet [] m id expects_response ≡ ok packet
      → IsManager w.channels
      → other < w.channels.channels_count
      → lock_of w.channels other ≡ some 0
      → (channel : ℕ) × (x : Error) × (u : Writer T) × (send write_to data_last [] m id
            expects_response w
          ≡ failed x u)
        × (lock_of w.channels channel ≡ some 0)
        × (lock_of u.channels channel ≡ some 1)
  unfolding send_on
  send-fails data_last m id expects packet w other sendable long built manager inside free =
      let (channel, in_range, was_free, got) = obtain_lem write_to w other manager inside free in
      let (x, u, e, same_locks) =
        write_at_channel-fails channel packet (holding write_to w channel) in
      (
        channel,
        x,
        u,
        send_lem write_to data_last m id expects packet w (holding write_to w channel) channel built
              (data_width_lem (length m.content) sendable.fits) (slow_track m long) got
            ∙ rw e refl,
        was_free,
        ap (λ l. get_elem? l channel) same_locks
            ∙ lock_of-set w.channels.locks channel 0 1 was_free,
      )
