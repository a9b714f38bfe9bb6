-- ===== src/Writer/Output.antt =====
-- writer.go: what a write on a channel appends to the output.
use sockety_go.Common.{
  ℕ, leb, ◌/◌, ◌^◌, arith, length, ◌≡◌, refl, ap, ◌∙◌, List, [], ◌++◌, append_assoc, ◌==◌, ==_iff,
  if◌then◌else◌, Bool-cases, inl, inr, returned, M,
}
use sockety_go.ProtocolUtils.{create_switch_channel_packet}
use sockety_go.ByteUtils.{byte}
use sockety_go.ByteUtils.Positions.{le}
use sockety_go.Constants.{max_uint8, max_uint16, max_uint24}
use sockety_go.Packet.Header.{packet_header}
use sockety_go.ChannelManager.{ChannelManager, is, set_current}
use sockety_go.Writer.{
  Writer, write_raw, unsafe_write_at_channel, write_raw_at_channel, external_header,
  write_external_with_signature_at_channel,
}

-- A target that takes all that is written, in order: an io.Writer that returns no error.
pub record Accepts {T : Type 0} (write_to : List ℕ → M T (Unit {0})) (output : T → List ℕ)
    : Type 0 where
  pub accepted :
      (bytes : List ℕ) (t : T)
      → (t' : T) × (write_to bytes t ≡ returned tt t') × (output t' ≡ output t ++ bytes)

-- The switch that goes before a packet on a channel.
unfoldable pub switch_to : ChannelManager → ℕ → List ℕ
switch_to c channel = if c.current == channel then [] else create_switch_channel_packet channel

byte_2 : (n : ℕ) → byte (n / 256 / 256) ≡ byte (n / 2 ^ 16)
byte_2 n = omega arith

byte_3 : (n : ℕ) → byte (n / 256 / 256 / 256) ≡ byte (n / 2 ^ 24)
byte_3 n = omega arith

-- The header that is made for an external packet is laid out as that of any packet.
pub external_header_lem :
    (signature size : ℕ) → external_header signature size ≡ packet_header signature size
unfolding external_header packet_header le
external_header_lem signature size = elim (Bool-cases (leb size max_uint8)) [
  | inl e8 ↦ rw e8 refl
  | inr n8 ↦ elim (Bool-cases (leb size max_uint16)) [
    | inl e16 ↦ rw (n8, e16) refl
    | inr n16 ↦ elim (Bool-cases (leb size max_uint24)) [
      | inl e24 ↦ rw (n8, n16, e24, byte_2 size) refl
      | inr n24 ↦ rw (n8, n16, n24, byte_2 size, byte_3 size) refl
    ]
  ]
]

regroup : (a b c d : List ℕ) → (a ++ (b ++ c)) ++ d ≡ a ++ (b ++ (c ++ d))
regroup a b c d = append_assoc a (b ++ c) d ∙ ap (λ l. a ++ l) (append_assoc b c d)

module _ {T : Type 0} (write_to : List ℕ → M T (Unit {0})) (output : T → List ℕ)
    (a : Accepts write_to output) where
  pub record Wrote (channel : ℕ) (bytes : List ℕ) (w w' : Writer T) : Type 0 where
    pub appended : output w'.target ≡ output w.target ++ (switch_to w.channels channel ++ bytes)
    pub now_current : w'.channels.current ≡ channel
    pub same_locks : w'.channels.locks ≡ w.channels.locks
    pub same_count : w'.channels.channels_count ≡ w.channels.channels_count

  raw_step :
      (bytes : List ℕ) (w : Writer T) (t : T)
      → write_to bytes w.target ≡ returned tt t
      → write_raw write_to bytes w ≡ returned tt (record w { target = t })
  unfolding write_raw
  raw_step bytes w t e = rw e refl

  -- On a target without errors a write on a channel succeeds. It appends the switch to the channel,
  -- unless this one is the current channel, and then the bytes. The channel is the current one from
  -- then on, and no lock is touched.
  pub write_raw_at_channel-Wrote :
      (channel : ℕ) (bytes : List ℕ) (w : Writer T)
      → (w' : Writer T) × (write_raw_at_channel write_to channel bytes w ≡ returned tt w')
        × Wrote channel bytes w w'
  unfolding write_raw_at_channel unsafe_write_at_channel is set_current switch_to
  write_raw_at_channel-Wrote channel bytes w = elim (Bool-cases (w.channels.current == channel)) [
    | inl on ↦
        let (t, e, o) = a.accepted bytes w.target in
        (
          record w { target = t },
          rw on (raw_step bytes w t e),
          record {
            appended = rw on o;
            now_current = (==_iff _ _).0 on;
            same_locks = refl;
            same_count = refl;
          },
        )
    | inr off ↦
        let (t, e, o) = a.accepted (create_switch_channel_packet channel) w.target in
        let (t2, e2, o2) = a.accepted bytes t in
        let turned : Writer T = record w { channels = record (w.channels) { current = channel } } in
        (
          record turned { target = t2 },
          rw off (
              rw (raw_step (create_switch_channel_packet channel) turned t e)
                (raw_step bytes (record turned { target = t }) t2 e2)),
          record {
            appended = rw off (
                o2
                ∙ ap (λ l. l ++ bytes) o
                ∙ append_assoc (output w.target) (create_switch_channel_packet channel) bytes);
            now_current = refl;
            same_locks = refl;
            same_count = refl;
          },
        )
  ]

  -- An external packet is a packet's header and its bytes, on its channel.
  pub write_external-Wrote :
      (channel signature : ℕ) (bytes : List ℕ) (w : Writer T)
      → (w' : Writer T) × (write_external_with_signature_at_channel write_to channel signature bytes
            w
          ≡ returned tt w')
        × Wrote channel (packet_header signature (length bytes) ++ bytes) w w'
  unfolding write_external_with_signature_at_channel write_raw_at_channel
  write_external-Wrote channel signature bytes w =
      let header = external_header signature (length bytes) in
      let laid_out : header ≡ packet_header signature (length bytes) =
        external_header_lem signature (length bytes) in
      let (v, e, h) = write_raw_at_channel-Wrote channel header w in
      let (t, e2, o) = a.accepted bytes v.target in
      (
        record v { target = t },
        rw e (raw_step bytes v t e2),
        record {
          appended =
              o
              ∙ ap (λ l. l ++ bytes) h.appended
              ∙ regroup (output w.target) (switch_to w.channels channel) header bytes
              ∙ ap (λ l. output w.target ++ (switch_to w.channels channel ++ (l ++ bytes)))
                  laid_out;
          now_current = h.now_current;
          same_locks = h.same_locks;
          same_count = h.same_count;
        },
      )
