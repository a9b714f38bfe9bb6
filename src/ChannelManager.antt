-- ===== src/ChannelManager.antt =====
-- channel_manager.go: the channels that are in use. The lock of a channel is 0 or 1. The Go channel
-- `released` is never made: a receive from it waits for ever, and a send to it in a `select` with a
-- default is skipped.
pub mod Reservation
use sockety_go.Common.{
  ℕ, zero, suc, ◌+◌, ◌%◌, ◌^◌, Bool, true, false, List, set, replicate, Option, ◌==◌, if◌then◌else◌,
  Result, ok, err, panic, invalid_option, index, Outcome, returned, blocked, after, M, lift,
}
use sockety_go.ProtocolUtils.{validate_channels_count}

pub record ChannelManager : Type 0 where
  pub channels_count : ℕ
  pub current : ℕ
  pub locks : List ℕ

unfoldable pub new_channel_manager : ℕ → Result ChannelManager
new_channel_manager channels_count = elim (validate_channels_count channels_count) [
  | ok _ ↦
      ok (record {
        channels_count = channels_count;
        current = 0;
        locks = replicate channels_count 0;
      })
  | err _ ↦ panic invalid_option
  | panic x ↦ panic x
]

-- `CompareAndSwapUint32(&c.locks[channel], 0, 1)`.
unfoldable pub obtain_lock : ℕ → M ChannelManager Bool
obtain_lock channel c = after (lift (index c.locks channel) c) λ value c.
    if value == 0
    then returned true (record c { locks = set c.locks channel 1 })
    else returned false c

unfoldable pub is_temporarily_free : ℕ → M ChannelManager Bool
is_temporarily_free channel c =
    after (lift (index c.locks channel) c) λ value c. returned (value == 0) c

unfoldable pub is : ℕ → ChannelManager → Bool
is channel c = c.current == channel

unfoldable pub set_current : ℕ → ChannelManager → ChannelManager
set_current channel c = if c.current == channel then c else record c { current = channel }

-- `(uint16(c.current) + i) % c.channelsCount`.
unfoldable pub candidate : ChannelManager → ℕ → ℕ
candidate c i = ((c.current + i) % 2 ^ 16) % c.channels_count

-- The loop of `Reserve` and `GetFree` with `left` rounds to go, then the wait for a released channel.
unfoldable pub first_channel : (ℕ → M ChannelManager Bool) → ℕ → ℕ → M ChannelManager ℕ
first_channel test zero i c = blocked
first_channel test (suc left) i c =
    after (test (candidate c i) c)
      λ free c'. if free then returned (candidate c i) c' else first_channel test left (suc i) c'

unfoldable pub reserve : M ChannelManager ℕ
reserve c = first_channel obtain_lock c.channels_count 0 c

unfoldable pub get_free : M ChannelManager ℕ
get_free c = first_channel is_temporarily_free c.channels_count 0 c

unfoldable pub release : ℕ → M ChannelManager (Unit {0})
release channel c =
    after (lift (index c.locks channel) c)
      λ _ c. returned tt (record c { locks = set c.locks channel 0 })
