-- ===== src/Writer.antt =====
-- writer.go: packets to a target, which is an io.Writer, a parameter: its state, and what `Write` answers.
-- The methods are those of one goroutine, which takes and releases the mutexes in each of them.
pub mod Output
pub mod Sequence
pub mod Delivery
pub mod Data
use sockety_go.Common.{
  ℕ, ◌+◌, ◌/◌, ◌^◌, bit_or, Bool, true, false, List, [], ◌∷◌, Option, none, some, leb, ◌==◌,
  if◌then◌else◌, length, Error, Result, ok, err, panic, ◌>>=◌, invalid_option, Outcome, returned,
  failed, panicked, blocked, stuck, after, M, lift, embed,
}
use sockety_go.Constants.{
  max_uint8, max_uint16, max_uint24, max_channels, packet_size_uint8_bits, packet_size_uint16_bits,
  packet_size_uint24_bits, packet_size_uint32_bits,
}
use sockety_go.ByteUtils.{byte}
use sockety_go.ProtocolUtils.{create_switch_channel_packet, validate_channels_count}
use sockety_go.Packet.{Packet, get_bytes}
use sockety_go.ChannelManager.{
  ChannelManager, new_channel_manager, is, set_current, reserve, get_free, release,
}
use sockety_go.Parser.{get_default}

pub record Writer (T : Type 0) : Type 0 where
  pub target : T
  pub channels : ChannelManager

unfoldable pub new_writer : {T : Type 0} → T → ℕ → Result (Writer T)
new_writer target channels =
    let count = get_default channels max_channels in
    elim (validate_channels_count count) [
      | ok _ ↦ new_channel_manager count >>= λ m. ok (record { target = target; channels = m })
      | err _ ↦ panic invalid_option
      | panic x ↦ panic x
    ]

module _ {T : Type 0} where
  abbrev on_channels : {A : Type 0} → M ChannelManager A → M (Writer T) A
  on_channels m w = embed (λ c. record w { channels = c }) (m w.channels)

  unfoldable pub obtain_channel : M (Writer T) ℕ
  obtain_channel = on_channels reserve

  unfoldable pub release_channel : ℕ → M (Writer T) (Unit {0})
  release_channel channel = on_channels (release channel)

-- The header of an external packet.
unfoldable pub external_header : ℕ → ℕ → List ℕ
external_header signature size =
    if leb size max_uint8
    then bit_or signature packet_size_uint8_bits ∷ byte size ∷ []
    else if leb size max_uint16
    then bit_or signature packet_size_uint16_bits ∷ byte size ∷ byte (size / 2 ^ 8) ∷ []
    else if leb size max_uint24
    then bit_or signature packet_size_uint24_bits
      ∷ byte size
      ∷ byte (size / 2 ^ 8)
      ∷ byte (size / 2 ^ 16)
      ∷ []
    else bit_or signature packet_size_uint32_bits
      ∷ byte size
      ∷ byte (size / 2 ^ 8)
      ∷ byte (size / 2 ^ 16)
      ∷ byte (size / 2 ^ 24)
      ∷ []

module _ {T : Type 0} (write_to : List ℕ → M T (Unit {0})) where
  -- `WriteRaw`, and `unsafeWriteRaw` without the mutex.
  unfoldable pub write_raw : List ℕ → M (Writer T) (Unit {0})
  write_raw bytes w = embed (λ t. record w { target = t }) (write_to bytes w.target)

  unfoldable pub unsafe_write_at_channel : ℕ → List ℕ → M (Writer T) (Unit {0})
  unsafe_write_at_channel channel bytes w =
      if is channel w.channels
      then write_raw bytes w
      else (after
          (write_raw (create_switch_channel_packet channel)
            (record w { channels = set_current channel w.channels }))
          λ _ w. write_raw bytes w)

  unfoldable pub write_standalone : Packet → M (Writer T) (Unit {0})
  write_standalone p = write_raw (get_bytes p)

  unfoldable pub write : Packet → M (Writer T) (Unit {0})
  write p w =
      after (on_channels get_free w) λ channel w. unsafe_write_at_channel channel (get_bytes p) w

  unfoldable pub write_raw_at_channel : ℕ → List ℕ → M (Writer T) (Unit {0})
  write_raw_at_channel channel bytes = unsafe_write_at_channel channel bytes

  unfoldable pub write_at_channel : ℕ → Packet → M (Writer T) (Unit {0})
  write_at_channel channel p = write_raw_at_channel channel (get_bytes p)

  -- After an error of the write the channel is released, which may panic in turn.
  unfoldable pub write_and_obtain_channel : Packet → M (Writer T) ℕ
  write_and_obtain_channel p w = after (obtain_channel w) λ channel w.
      elim (unsafe_write_at_channel channel (get_bytes p) w) [
        | returned _ w ↦ returned channel w
        | failed e w ↦ after (release_channel channel w) (λ _ w. failed e w)
        | panicked x ↦ panicked x
        | blocked ↦ blocked
        | stuck ↦ stuck
      ]

  unfoldable pub write_and_release_channel : ℕ → Packet → M (Writer T) (Unit {0})
  write_and_release_channel channel p w = elim (unsafe_write_at_channel channel (get_bytes p) w) [
    | returned _ w ↦ release_channel channel w
    | failed e w ↦ after (release_channel channel w) (λ _ w. failed e w)
    | panicked x ↦ panicked x
    | blocked ↦ blocked
    | stuck ↦ stuck
  ]

  unfoldable pub write_external_with_signature_at_channel : ℕ → ℕ → List ℕ → M (Writer T) (Unit {0})
  write_external_with_signature_at_channel channel signature bytes w =
      after (unsafe_write_at_channel channel (external_header signature (length bytes)) w)
        λ _ w. write_raw bytes w
