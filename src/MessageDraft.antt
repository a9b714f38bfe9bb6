-- ===== src/MessageDraft.antt =====
-- message_draft.go: drafts of messages, and the Message packet that `send` builds from one. A string
-- and a byte slice are lists of bytes, an identifier is its sixteen bytes.
pub mod Layout
use sockety_go.Common.{
  ℕ, ◌+◌, ◌%◌, ◌^◌, bit_or, Bool, true, false, List, [], length, ◌==◌, ltb, if◌then◌else◌, Result,
  ok, ◌>>=◌,
}
use sockety_go.Constants.{packet_message_bits, expects_response_bits, has_stream_bits}
use sockety_go.ProtocolUtils.{
  get_name_size_bytes, get_data_size_bytes, get_files_count_bytes, get_files_size_bytes,
  get_name_size_flag, get_data_size_flag, get_files_count_flag, get_files_size_flag,
}
use sockety_go.Packet
use sockety_go.Packet.{Packet, new_packet}

-- `content` is the field Data.
pub record MessageDraft : Type 0 where
  pub has_stream : Bool
  pub action : List ℕ
  pub content : List ℕ

unfoldable pub new_message_draft : List ℕ → MessageDraft
new_message_draft action = record { has_stream = false; action = action; content = [] }

unfoldable pub raw_data : MessageDraft → List ℕ → MessageDraft
raw_data m content = record m { content = content }

unfoldable pub stream : MessageDraft → MessageDraft
stream m = record m { has_stream = true }

-- As in the source, `NoStream` sets the flag too.
unfoldable pub no_stream : MessageDraft → MessageDraft
no_stream m = record m { has_stream = true }

-- `send`: the signature of the Message packet.
unfoldable pub message_signature : Bool → Bool → ℕ
message_signature expects_response has_stream =
    let signature : ℕ = packet_message_bits in
    let signature =
      if expects_response then bit_or signature expects_response_bits else signature in
    if has_stream then bit_or signature has_stream_bits else signature

-- `send`: the flags, from the widths of the four numbers.
unfoldable pub message_flags : ℕ → ℕ → ℕ → ℕ → ℕ
message_flags action_size_bytes data_size_bytes files_count_bytes total_files_size_bytes =
    bit_or
      (bit_or (bit_or (get_name_size_flag action_size_bytes) (get_data_size_flag data_size_bytes))
        (get_files_count_flag files_count_bytes))
      (get_files_size_flag total_files_size_bytes)

-- `send`, up to the point where the packet is built; the draft has no files, as in the source.
unfoldable pub message_packet : List ℕ → MessageDraft → List ℕ → Bool → Result Packet
message_packet pooled m id expects_response = do
  let action_size = length m.action
  action_size_bytes ← get_name_size_bytes action_size
  let data_size = length m.content
  data_size_bytes ← get_data_size_bytes data_size
  let files_count : ℕ = 0
  files_count_bytes ← get_files_count_bytes files_count
  let total_files_size : ℕ = 0
  total_files_size_bytes ← get_files_size_bytes total_files_size files_count
  let flags =
      message_flags action_size_bytes data_size_bytes files_count_bytes total_files_size_bytes
  let message_size =
      17 + action_size_bytes + action_size + data_size_bytes + files_count_bytes
      + total_files_size_bytes
  p ← new_packet pooled (message_signature expects_response m.has_stream) message_size
  p ← Packet.uint8 p flags
  p ← Packet.uuid p id
  p ← Packet.uint p action_size action_size_bytes
  p ← Packet.string p m.action
  p ← if data_size_bytes == 0 then ok p else Packet.uint p data_size data_size_bytes
  let files = (do
    p ← Packet.uint p files_count files_count_bytes
    Packet.uint p total_files_size total_files_size_bytes)
  if ltb 0 files_count then files else ok p
