-- ===== src/Constants.antt =====
-- constants.go: the limits and the bit patterns of the protocol. MaxChannels is maxChannelId + 1.
use Prim.Native.Nat.{ℕ, ◌+◌}

abbrev pub max_uint4 : ℕ
max_uint4 = 15

abbrev pub max_uint8 : ℕ
max_uint8 = 255

abbrev pub max_uint12 : ℕ
max_uint12 = 4095

abbrev pub max_uint16 : ℕ
max_uint16 = 65_535

abbrev pub max_uint24 : ℕ
max_uint24 = 16_777_215

abbrev pub max_uint32 : ℕ
max_uint32 = 4_294_967_295

abbrev pub max_uint48 : ℕ
max_uint48 = 281_474_976_710_655

abbrev pub max_channel_id : ℕ
max_channel_id = max_uint12

abbrev pub max_channels : ℕ
max_channels = max_channel_id + 1

abbrev pub min_read_buffer_size : ℕ
min_read_buffer_size = 16

abbrev pub default_read_buffer_size : ℕ
default_read_buffer_size = 4_096

abbrev pub control_byte_constant_bits_bitmask : ℕ
control_byte_constant_bits_bitmask = 0b11111100

abbrev pub control_byte_constant_bits : ℕ
control_byte_constant_bits = 0b11100000

abbrev pub control_byte_channels_bitmask : ℕ
control_byte_channels_bitmask = 0b00000011

abbrev pub control_byte_channels_single_bits : ℕ
control_byte_channels_single_bits = 0b00000000

abbrev pub control_byte_channels_uint8_bits : ℕ
control_byte_channels_uint8_bits = 0b00000001

abbrev pub control_byte_channels_uint16_bits : ℕ
control_byte_channels_uint16_bits = 0b00000010

abbrev pub control_byte_channels_max_bits : ℕ
control_byte_channels_max_bits = 0b00000011

abbrev pub packet_bitmask : ℕ
packet_bitmask = 0b11110000

abbrev pub packet_heartbeat_bits : ℕ
packet_heartbeat_bits = 0b10100000

abbrev pub packet_go_away_bits : ℕ
packet_go_away_bits = 0b10110000

abbrev pub packet_abort_bits : ℕ
packet_abort_bits = 0b10010000

abbrev pub packet_channel_low_bits : ℕ
packet_channel_low_bits = 0b00000000

abbrev pub packet_channel_high_bits : ℕ
packet_channel_high_bits = 0b00010000

abbrev pub packet_fast_reply_low_bits : ℕ
packet_fast_reply_low_bits = 0b00110000

abbrev pub packet_fast_reply_high_bits : ℕ
packet_fast_reply_high_bits = 0b01000000

abbrev pub packet_data_bits : ℕ
packet_data_bits = 0b11100000

abbrev pub packet_file_bits : ℕ
packet_file_bits = 0b11000000

abbrev pub packet_file_end_bits : ℕ
packet_file_end_bits = 0b11010000

abbrev pub packet_stream_bits : ℕ
packet_stream_bits = 0b01110000

abbrev pub packet_stream_end_bits : ℕ
packet_stream_end_bits = 0b10000000

abbrev pub packet_message_bits : ℕ
packet_message_bits = 0b00100000

abbrev pub packet_response_bits : ℕ
packet_response_bits = 0b01010000

abbrev pub packet_continue_bits : ℕ
packet_continue_bits = 0b01100000

abbrev pub packet_size_bitmask : ℕ
packet_size_bitmask = 0b00001100

abbrev pub packet_size_uint8_bits : ℕ
packet_size_uint8_bits = 0b00000000

abbrev pub packet_size_uint16_bits : ℕ
packet_size_uint16_bits = 0b00000100

abbrev pub packet_size_uint24_bits : ℕ
packet_size_uint24_bits = 0b00001000

abbrev pub packet_size_uint32_bits : ℕ
packet_size_uint32_bits = 0b00001100

abbrev pub has_stream_bits : ℕ
has_stream_bits = 0b00000010

abbrev pub expects_response_bits : ℕ
expects_response_bits = 0b00000001

abbrev pub index_size_bitmask : ℕ
index_size_bitmask = 0b00000011

abbrev pub index_size_first_bits : ℕ
index_size_first_bits = 0b00000000

abbrev pub index_size_uint8_bits : ℕ
index_size_uint8_bits = 0b00000001

abbrev pub index_size_uint16_bits : ℕ
index_size_uint16_bits = 0b00000010

abbrev pub index_size_uint24_bits : ℕ
index_size_uint24_bits = 0b00000011

abbrev pub data_size_bitmask : ℕ
data_size_bitmask = 0b11000000

abbrev pub data_size_none_bits : ℕ
data_size_none_bits = 0b00000000

abbrev pub data_size_uint8_bits : ℕ
data_size_uint8_bits = 0b01000000

abbrev pub data_size_uint16_bits : ℕ
data_size_uint16_bits = 0b10000000

abbrev pub data_size_uint48_bits : ℕ
data_size_uint48_bits = 0b11000000

abbrev pub files_count_bitmask : ℕ
files_count_bitmask = 0b00110000

abbrev pub files_count_none_bits : ℕ
files_count_none_bits = 0b00000000

abbrev pub files_count_uint8_bits : ℕ
files_count_uint8_bits = 0b00010000

abbrev pub files_count_uint16_bits : ℕ
files_count_uint16_bits = 0b00100000

abbrev pub files_count_uint24_bits : ℕ
files_count_uint24_bits = 0b00110000

abbrev pub file_size_bitmask : ℕ
file_size_bitmask = 0b00001100

abbrev pub file_size_uint16_bits : ℕ
file_size_uint16_bits = 0b00000000

abbrev pub file_size_uint24_bits : ℕ
file_size_uint24_bits = 0b00000100

abbrev pub file_size_uint32_bits : ℕ
file_size_uint32_bits = 0b00001000

abbrev pub file_size_uint48_bits : ℕ
file_size_uint48_bits = 0b00001100

abbrev pub name_size_bitmask : ℕ
name_size_bitmask = 0b00000010

abbrev pub name_size_uint8_bits : ℕ
name_size_uint8_bits = 0b00000000

abbrev pub name_size_uint16_bits : ℕ
name_size_uint16_bits = 0b00000010
