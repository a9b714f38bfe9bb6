-- ===== src/ProtocolUtils.antt =====
-- protocol_utils.go: the connection header, the switch-channel packet, checks of options, and the
-- widths and flags of the numbers in a message. Sizes are lengths, so never below 0.
pub mod Sizes
use sockety_go.Common.{
  ℕ, ◌+◌, ◌/◌, ◌%◌, ◌^◌, bit_and, bit_or, List, [], ◌∷◌, ltb, leb, ◌==◌, if◌then◌else◌, ◌||◌,
  Result, ok, err, panic, channels_count, read_buffer_size, invalid_channels_count, empty_name,
  too_big, ◌>>=◌,
}
use sockety_go.Constants.{
  control_byte_constant_bits, control_byte_channels_single_bits, control_byte_channels_uint8_bits,
  control_byte_channels_uint16_bits, control_byte_channels_max_bits, max_channels,
  min_read_buffer_size, max_uint4, max_uint8, max_uint16, max_uint24, max_uint32, max_uint48,
  packet_channel_low_bits, packet_channel_high_bits, name_size_uint8_bits, name_size_uint16_bits,
  data_size_none_bits, data_size_uint8_bits, data_size_uint16_bits, data_size_uint48_bits,
  files_count_none_bits, files_count_uint8_bits, files_count_uint16_bits, files_count_uint24_bits,
  file_size_uint16_bits, file_size_uint24_bits, file_size_uint32_bits, file_size_uint48_bits,
}
use sockety_go.ByteUtils.{byte}

unfoldable pub create_protocol_header : ℕ → Result (List ℕ)
create_protocol_header channels =
    if channels == 0 || ltb max_channels channels
    then panic invalid_channels_count
    else if channels == 1
    then ok (bit_or control_byte_constant_bits control_byte_channels_single_bits ∷ [])
    else if leb channels 256
    then ok
        (bit_or control_byte_constant_bits control_byte_channels_uint8_bits ∷ byte channels ∷ [])
    else if ltb channels max_channels
    then ok (
        bit_or control_byte_constant_bits control_byte_channels_uint16_bits
        ∷ byte (bit_and channels 0x00ff)
        ∷ byte (channels / 2 ^ 8)
        ∷ [])
    else ok (bit_or control_byte_constant_bits control_byte_channels_max_bits ∷ [])

unfoldable pub create_switch_channel_packet : ℕ → List ℕ
create_switch_channel_packet channel =
    if leb channel max_uint4
    then bit_or packet_channel_low_bits (byte channel) ∷ []
    else byte (bit_or packet_channel_high_bits (channel / 2 ^ 8))
      ∷ byte (bit_and channel 0x00ff)
      ∷ []

unfoldable pub validate_channels_count : ℕ → Result (Unit {0})
validate_channels_count count =
    if ltb count 1 || ltb max_channels count then err channels_count else ok tt

unfoldable pub validate_read_buffer_size : ℕ → Result (Unit {0})
validate_read_buffer_size size =
    if ltb size min_read_buffer_size then err read_buffer_size else ok tt

unfoldable pub get_min_size_bytes : ℕ → Result ℕ
get_min_size_bytes size =
    if size == 0
    then ok 0
    else if leb size max_uint8
    then ok 1
    else if leb size max_uint16
    then ok 2
    else if leb size max_uint24
    then ok 3
    else if leb size max_uint32
    then ok 4
    else if leb size max_uint48
    then ok 6
    else panic too_big

unfoldable pub get_name_size_bytes : ℕ → Result ℕ
get_name_size_bytes size = do
  n ← get_min_size_bytes size
  if n == 0
      then panic empty_name
      else if n == 1
      then ok 1
      else if n == 2
      then ok 2
      else panic too_big

unfoldable pub get_data_size_bytes : ℕ → Result ℕ
get_data_size_bytes size = do
  n ← get_min_size_bytes size
  if n == 0
      then ok 0
      else if n == 1
      then ok 1
      else if n == 2
      then ok 2
      else if n == 3 || (n == 4 || n == 6)
      then ok 6
      else panic too_big

unfoldable pub get_files_count_bytes : ℕ → Result ℕ
get_files_count_bytes size = do
  n ← get_min_size_bytes size
  if n == 0
      then ok 0
      else if n == 1
      then ok 1
      else if n == 2
      then ok 2
      else if n == 3
      then ok 3
      else panic too_big

unfoldable pub get_files_size_bytes : ℕ → ℕ → Result ℕ
get_files_size_bytes size files_count =
    let sized = do
      n ← get_min_size_bytes size
      if n == 0 || (n == 1 || n == 2)
          then ok 2
          else if n == 3
          then ok 3
          else if n == 4
          then ok 4
          else if n == 6
          then ok 6
          else panic too_big
    in if files_count == 0 then ok 0 else sized

unfoldable pub get_name_size_flag : ℕ → ℕ
get_name_size_flag bytes = if bytes == 1 then name_size_uint8_bits else name_size_uint16_bits

unfoldable pub get_data_size_flag : ℕ → ℕ
get_data_size_flag bytes =
    if bytes == 0
    then data_size_none_bits
    else if bytes == 1
    then data_size_uint8_bits
    else if bytes == 2
    then data_size_uint16_bits
    else data_size_uint48_bits

unfoldable pub get_files_count_flag : ℕ → ℕ
get_files_count_flag bytes =
    if bytes == 0
    then files_count_none_bits
    else if bytes == 1
    then files_count_uint8_bits
    else if bytes == 2
    then files_count_uint16_bits
    else files_count_uint24_bits

unfoldable pub get_files_size_flag : ℕ → ℕ
get_files_size_flag bytes =
    if bytes == 0 || bytes == 2
    then file_size_uint16_bits
    else if bytes == 3
    then file_size_uint24_bits
    else if bytes == 4
    then file_size_uint32_bits
    else file_size_uint48_bits
