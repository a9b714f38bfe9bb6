-- ===== src/Send/Output.antt =====
-- message_draft.go, `send`: what it writes, and the channel that it uses meanwhile.
use sockety_go.Common.{
  ℕ, ◌<◌, ◌≡◌, ◌⊎◌, inl, inr, refl, ap, ◌∙◌, Bool, true, false, not, ◌&&◌, List, [], ◌∷◌, ◌++◌,
  append_assoc, append-nil, subst, ltb, if◌then◌else◌, arith, none, some, set, get_elem?, ◌==◌,
  length, ok, returned, M,
}
use sockety_go.Constants.{packet_data_bits, packet_stream_end_bits}
use sockety_go.ChannelManager.{release}
use sockety_go.ChannelManager.Reservation.{IsManager, lock_of, reserve-free, set-set, lock_of-set}
use sockety_go.MessageDraft.{MessageDraft, message_packet}
use sockety_go.MessageDraft.Layout.{IsSendable, data_width, data_width_lem}
use sockety_go.Packet.{Packet, get_bytes}
use sockety_go.ProtocolUtils.{get_data_size_bytes}
use sockety_go.Writer.{Writer, obtain_channel, release_channel, write_at_channel}
use sockety_go.Packet.Header.{packet_header}
use sockety_go.Writer.Output.{
  Accepts, switch_to, Wrote, write_raw_at_channel-Wrote, write_external-Wrote,
}
use sockety_go.Writer.Sequence.{Followed, Wrote-Followed, Followed-none, Followed-append}
use sockety_go.Send.{Part, data_part, end_part, parts, run_part, run_parts, finish, send_on, send}

-- The packets of the parts.
abbrev pub part_bytes : MessageDraft → Part → List ℕ
part_bytes m data_part = packet_header packet_data_bits (length m.content) ++ m.content
part_bytes m end_part = packet_stream_end_bits ∷ []

abbrev pub parts_bytes : MessageDraft → List Part → List ℕ
parts_bytes m [] = []
parts_bytes m (part ∷ rest) = part_bytes m part ++ parts_bytes m rest

-- The parts of a draft.
abbrev pub parts_of : Bool → MessageDraft → List Part
parts_of data_last m = parts data_last (data_width (length m.content)) m.has_stream

-- What is written behind the packet of a message: the data, if there is some, in one packet, and the end of the
-- stream, if there is one.
abbrev pub data_bytes : MessageDraft → List ℕ
data_bytes m =
    if ltb 0 (length m.content)
    then packet_header packet_data_bits (length m.content) ++ m.content
    else []

abbrev pub end_bytes : MessageDraft → List ℕ
end_bytes m = if m.has_stream then packet_stream_end_bits ∷ [] else []

abbrev pub sent_bytes : Bool → MessageDraft → List ℕ
sent_bytes data_last m =
    if data_last then end_bytes m ++ data_bytes m else data_bytes m ++ end_bytes m

pub width_when : (n : ℕ) → ltb 0 (data_width n) ≡ ltb 0 n
unfolding data_width
width_when n = ground arith

parts_cases :
    (m : MessageDraft) (data_last some_data some_end : Bool)
    → parts_bytes m (
        if data_last
        then (if some_end then end_part ∷ [] else []) ++ (if some_data then data_part ∷ [] else [])
        else (if some_data then data_part ∷ [] else []) ++ (if some_end then end_part ∷ [] else []))
      ≡ (if data_last
          then (if some_end then packet_stream_end_bits ∷ [] else [])
            ++ (if some_data
                then packet_header packet_data_bits (length m.content) ++ m.content
                else [])
          else (if some_data
              then packet_header packet_data_bits (length m.content) ++ m.content
              else [])
            ++ (if some_end then packet_stream_end_bits ∷ [] else []))
parts_cases m true true true = ap (λ l. packet_stream_end_bits ∷ l) (append-nil _)
parts_cases m true true false = append-nil _
parts_cases m true false true = refl
parts_cases m true false false = refl
parts_cases m false true true = refl
parts_cases m false true false = refl
parts_cases m false false true = refl
parts_cases m false false false = refl

parts_bytes_lem :
    (data_last : Bool) (m : MessageDraft)
    → parts_bytes m (parts_of data_last m) ≡ sent_bytes data_last m
unfolding parts
parts_bytes_lem data_last m =
    rw (width_when (length m.content))
      (parts_cases m data_last (ltb 0 (length m.content)) m.has_stream)

-- There is more to send than the packet.
abbrev pub IsLong : MessageDraft → Type 0
IsLong m = (0 < length m.content) ⊎ (m.has_stream ≡ true)

pub width_positive : (n : ℕ) → 0 < n → (data_width n == 0) ≡ false
unfolding data_width
width_positive n some_data = ground arith

pub slow_track :
    (m : MessageDraft)
    → IsLong m
    → ((data_width (length m.content) == 0) && not m.has_stream) ≡ false
slow_track m (inl some_data) = rw (width_positive (length m.content) some_data) refl
slow_track m (inr some_stream) = rw some_stream (and_false (data_width (length m.content) == 0))
  where
    and_false : (b : Bool) → (b && false) ≡ false
    and_false true = refl
    and_false false = refl

module _ {T : Type 0} (write_to : List ℕ → M T (Unit {0})) where
  -- The writer with the lock of a channel taken.
  abbrev pub holding : Writer T → ℕ → Writer T
  holding w channel = record w {
    channels = record (w.channels) { locks = set w.channels.locks channel 1 };
  }

  pub obtain_lem :
      (w : Writer T) (other : ℕ)
      → IsManager w.channels
      → other < w.channels.channels_count
      → lock_of w.channels other ≡ some 0
      → (channel : ℕ) × (channel < w.channels.channels_count)
        × (lock_of w.channels channel ≡ some 0)
        × (obtain_channel w ≡ returned channel (holding w channel))
  unfolding obtain_channel
  obtain_lem w other m inside free =
      let (channel, in_range, was_free, e) = reserve-free w.channels other m inside free in
      (channel, in_range, was_free, rw e refl)

  pub send_lem :
      (data_last : Bool) (m : MessageDraft) (id : List ℕ) (expects_response : Bool)
      (packet : Packet) (w v : Writer T) (channel : ℕ)
      → message_packet [] m id expects_response ≡ ok packet
      → get_data_size_bytes (length m.content) ≡ ok (data_width (length m.content))
      → ((data_width (length m.content) == 0) && not m.has_stream) ≡ false
      → obtain_channel w ≡ returned channel v
      → send write_to data_last [] m id expects_response w
        ≡ send_on write_to channel packet m (parts_of data_last m) v
  unfolding send
  send_lem data_last m id expects packet w v channel built sized slow got =
      rw (built, sized, slow, got) refl

module _ {T : Type 0} (write_to : List ℕ → M T (Unit {0})) (output : T → List ℕ)
    (a : Accepts write_to output) where
  run_part-Followed :
      (channel : ℕ) (m : MessageDraft) (part : Part) (w : Writer T)
      → w.channels.current ≡ channel
      → (w' : Writer T) × (run_part write_to channel m part
            (record { writer = w; final_error = none })
          ≡ returned tt (record { writer = w'; final_error = none }))
        × Followed write_to output a channel (part_bytes m part) w w'
  unfolding run_part
  run_part-Followed channel m data_part w current =
      let (v, e, h) = write_external-Wrote write_to output a channel packet_data_bits m.content w in
      (v, rw e refl, Wrote-Followed write_to output a channel _ w v current h)
  run_part-Followed channel m end_part w current =
      let (v, e, h) =
        write_raw_at_channel-Wrote write_to output a channel (packet_stream_end_bits ∷ []) w in
      (v, rw e refl, Wrote-Followed write_to output a channel _ w v current h)

  run_parts-Followed :
      (channel : ℕ) (m : MessageDraft) (ps : List Part) (w : Writer T)
      → w.channels.current ≡ channel
      → (w' : Writer T) × (run_parts write_to channel m ps
            (record { writer = w; final_error = none })
          ≡ returned tt (record { writer = w'; final_error = none }))
        × Followed write_to output a channel (parts_bytes m ps) w w'
  unfolding run_parts
  run_parts-Followed channel m [] w current =
      (w, refl, Followed-none write_to output a channel w current)
  run_parts-Followed channel m (part ∷ rest) w current =
      let (v, e, h) = run_part-Followed channel m part w current in
      let (u, e2, g) = run_parts-Followed channel m rest v h.now_current in
      (
        u,
        rw e e2,
        Followed-append write_to output a channel (part_bytes m part) (parts_bytes m rest) w v u h
            g,
      )

  -- What a finished `send` leaves behind: its bytes behind a switch, on a channel that was free, and is again.
  pub record Sent (bytes : List ℕ) (w w' : Writer T) : Type 0 where
    pub channel : ℕ
    pub inside : channel < w.channels.channels_count
    pub was_free : lock_of w.channels channel ≡ some 0
    pub appended : output w'.target ≡ output w.target ++ (switch_to w.channels channel ++ bytes)
    pub now_current : w'.channels.current ≡ channel
    pub same_locks : w'.channels.locks ≡ w.channels.locks
    pub same_count : w'.channels.channels_count ≡ w.channels.channels_count

  finish_lem :
      (channel : ℕ) (w : Writer T)
      → get_elem? w.channels.locks channel ≡ some 1
      → finish write_to channel (record { writer = w; final_error = none })
        ≡ returned tt (record {
          writer = record w {
            channels = record (w.channels) { locks = set w.channels.locks channel 0 };
          };
          final_error = none;
        })
  unfolding finish release_channel release
  finish_lem channel w held = rw held refl

  send_on_lem :
      (channel : ℕ) (p : Packet) (m : MessageDraft) (ps : List Part) (w v u : Writer T)
      → write_at_channel write_to channel p w ≡ returned tt v
      → run_parts write_to channel m ps (record { writer = v; final_error = none })
        ≡ returned tt (record { writer = u; final_error = none })
      → get_elem? u.channels.locks channel ≡ some 1
      → send_on write_to channel p m ps w
        ≡ returned tt
            (record u { channels = record (u.channels) { locks = set u.channels.locks channel 0 } })
  unfolding send_on
  send_on_lem channel p m ps w v u e e2 held = rw (e, e2, finish_lem channel u held) refl

  -- The packet on the obtained channel, what follows it there, and the release.
  pub Sent-released :
      (channel : ℕ) (packet rest : List ℕ) (w v u : Writer T)
      → channel < w.channels.channels_count
      → lock_of w.channels channel ≡ some 0
      → Wrote write_to output a channel packet (holding write_to w channel) v
      → Followed write_to output a channel rest v u
      → Sent
          (packet ++ rest)
          w
          (record u { channels = record (u.channels) { locks = set u.channels.locks channel 0 } })
  unfolding switch_to
  Sent-released channel packet rest w v u inside free h g = record {
    channel = channel;
    inside = inside;
    was_free = free;
    appended =
        g.appended
        ∙ ap (λ l. l ++ rest) h.appended
        ∙ append_assoc (output w.target) (switch_to w.channels channel ++ packet) rest
        ∙ ap (λ l. output w.target ++ l) (append_assoc (switch_to w.channels channel) packet rest);
    now_current = g.now_current;
    same_locks =
        ap (λ l. set l channel 0) (g.same_locks ∙ h.same_locks)
        ∙ set-set w.channels.locks channel 0 1 free;
    same_count = g.same_count ∙ h.same_count;
  }

  -- Over a channel that was free and has just been obtained.
  send_on-Sent :
      (channel : ℕ) (p : Packet) (m : MessageDraft) (ps : List Part) (w : Writer T)
      → channel < w.channels.channels_count
      → lock_of w.channels channel ≡ some 0
      → (w' : Writer T) × (send_on write_to channel p m ps (holding write_to w channel)
          ≡ returned tt w')
        × Sent (get_bytes p ++ parts_bytes m ps) w w'
  unfolding write_at_channel switch_to
  send_on-Sent channel p m ps w inside free =
      let (v, e, h) =
        write_raw_at_channel-Wrote write_to output a channel (get_bytes p)
          (holding write_to w channel) in
      let (u, e2, g) = run_parts-Followed channel m ps v h.now_current in
      let taken : u.channels.locks ≡ set w.channels.locks channel 1 = g.same_locks ∙ h.same_locks in
      let held : get_elem? u.channels.locks channel ≡ some 1 =
        ap (λ l. get_elem? l channel) taken ∙ lock_of-set w.channels.locks channel 0 1 free in
      (
        record u { channels = record (u.channels) { locks = set u.channels.locks channel 0 } },
        send_on_lem channel p m ps (holding write_to w channel) v u e e2 held,
        Sent-released channel (get_bytes p) (parts_bytes m ps) w v u inside free h g,
      )

  -- On a target without errors, `send` of a sendable draft that has data or a stream, with some channel free,
  -- takes a free channel and releases it in the end. It appends one switch to this channel, if it is not
  -- the current one, the packet of the message, and behind it the data in one packet, if there is
  -- any, and the end of the stream, if there is one, in either order. Nothing else changes but the
  -- current channel.
  pub send-Sent :
      (data_last : Bool) (m : MessageDraft) (id : List ℕ) (expects_response : Bool)
      (packet : Packet) (w : Writer T) (other : ℕ)
      → IsSendable m id
      → IsLong m
      → message_packet [] m id expects_response ≡ ok packet
      → IsManager w.channels
      → other < w.channels.channels_count
      → lock_of w.channels other ≡ some 0
      → (w' : Writer T) × (send write_to data_last [] m id expects_response w ≡ returned tt w')
        × Sent (get_bytes packet ++ sent_bytes data_last m) w w'
  send-Sent data_last m id expects packet w other sendable long built manager inside free =
      let (channel, in_range, was_free, got) = obtain_lem write_to w other manager inside free in
      let (w', sent, h) =
        send_on-Sent channel packet m (parts_of data_last m) w in_range was_free in
      (
        w',
        send_lem write_to data_last m id expects packet w (holding write_to w channel) channel built
              (data_width_lem (length m.content) sendable.fits) (slow_track m long) got
            ∙ sent,
        subst (λ l. Sent (get_bytes packet ++ l) w w') (parts_bytes_lem data_last m) h,
      )
