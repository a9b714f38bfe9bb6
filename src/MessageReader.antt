-- ===== src/MessageReader.antt =====
-- message_reader.go: reading the fields of a Message packet, from the step where the last call ended.
pub mod Steps
pub mod ActionSteps
pub mod DataSteps
pub mod RoundTrip
use sockety_go.Common.{
  ℕ, ◌+◌, ◌%◌, ◌^◌, bit_and, Bool, true, List, [], Option, none, some, ◌==◌, if◌then◌else◌, Error,
  Outcome, returned, after, M, embed,
}
use sockety_go.Constants.{
  name_size_bitmask, name_size_uint8_bits, name_size_uint16_bits, data_size_bitmask,
  data_size_none_bits, data_size_uint8_bits, data_size_uint16_bits, data_size_uint48_bits,
  files_count_bitmask, files_count_none_bits, files_count_uint8_bits, files_count_uint16_bits,
  files_count_uint24_bits, file_size_bitmask, file_size_uint16_bits, file_size_uint24_bits,
  file_size_uint32_bits, file_size_uint48_bits,
}
use sockety_go.MessageData.{MessageData, new_message_data}
use sockety_go.MessageStream.{MessageStream}
use sockety_go.Reader.{BufferedReader}
use sockety_go.StreamReader.{
  UnsafeBytes, new_unsafe_bytes, resize, get_uint8, get_uint16, get_uint24, get_uint32, get_uint48,
  get_uuid, get_string, new_uint16, new_uint24, new_uint32, new_uint48, new_uuid,
}

-- parser_channel.go, message. `none` is a nil pointer.
pub record Message : Type 0 where
  pub content : Option MessageData
  pub stream : Option MessageStream
  pub id : List ℕ
  pub action : List ℕ
  pub total_files_size : ℕ
  pub files_count : ℕ
  pub expects_response : Bool

-- messageReaderStep.
abbrev pub step_flags : ℕ
step_flags = 0

abbrev pub step_uuid : ℕ
step_uuid = 1

abbrev pub step_action_size : ℕ
step_action_size = 2

abbrev pub step_action : ℕ
step_action = 3

abbrev pub step_data_size : ℕ
step_data_size = 4

abbrev pub step_files_count : ℕ
step_files_count = 5

abbrev pub step_files_size : ℕ
step_files_size = 6

-- The readers of one byte keep nothing, and are left out.
pub record MessageReader : Type 0 where
  pub step : ℕ
  pub flags : ℕ
  pub uuid_reader : UnsafeBytes
  pub action_size16_reader : UnsafeBytes
  pub action_reader : UnsafeBytes
  pub data_size16_reader : UnsafeBytes
  pub data_size48_reader : UnsafeBytes
  pub files_count16_reader : UnsafeBytes
  pub files_count24_reader : UnsafeBytes
  pub files_size16_reader : UnsafeBytes
  pub files_size24_reader : UnsafeBytes
  pub files_size32_reader : UnsafeBytes
  pub files_size48_reader : UnsafeBytes

unfoldable pub new_message_reader : MessageReader
new_message_reader = record {
  step = step_flags;
  flags = 0;
  uuid_reader = new_uuid;
  action_size16_reader = new_uint16;
  action_reader = new_unsafe_bytes 16;
  data_size16_reader = new_uint16;
  data_size48_reader = new_uint48;
  files_count16_reader = new_uint16;
  files_count24_reader = new_uint24;
  files_size16_reader = new_uint16;
  files_size24_reader = new_uint24;
  files_size32_reader = new_uint32;
  files_size48_reader = new_uint48;
}

-- What `Get` acts on: the reader, the message that it fills, and the source.
pub record Reading (S : Type 0) : Type 0 where
  pub reader : MessageReader
  pub message : Message
  pub source : S

module _ {S : Type 0} where
  abbrev pub on_source : {A : Type 0} → M S A → M (Reading S) A
  on_source m t = embed (λ s. record t { source = s }) (m t.source)

  -- A call of one of the reader's own readers.
  abbrev pub on_bytes :
      {A : Type 0}
      → (MessageReader → UnsafeBytes)
      → (UnsafeBytes → MessageReader → MessageReader)
      → M (UnsafeBytes × S) A
      → M (Reading S) A
  on_bytes get put m t =
      embed (λ us. record t { reader = put us.0 t.reader; source = us.1 })
        (m (get t.reader, t.source))

  abbrev pub go_to : ℕ → Reading S → Reading S
  go_to step t = record t { reader = record (t.reader) { step = step } }

  abbrev pub with_message : Message → Reading S → Reading S
  with_message m t = record t { message = m }

module _ {S : Type 0} (r : BufferedReader S) where
  unfoldable pub read_flags : M (Reading S) (Unit {0})
  read_flags t =
      if t.reader.step == step_flags
      then after (on_source (get_uint8 r) t) (λ flags t.
        returned tt (record t { reader = record (t.reader) { flags = flags; step = step_uuid } }))
      else returned tt t

  -- `from_bytes` is the uuid package's FromBytes.
  unfoldable pub read_uuid : (List ℕ → Option (List ℕ)) → M (Reading S) (Unit {0})
  read_uuid from_bytes t =
      if t.reader.step == step_uuid
      then after
          (on_bytes (λ p. p.uuid_reader) (λ u p. record p { uuid_reader = u })
            (get_uuid r from_bytes) t)
          (λ id t.
            returned tt (go_to step_action_size (with_message (record (t.message) { id = id }) t)))
      else returned tt t

  abbrev resize_action : ℕ → Reading S → Outcome (Reading S) (Unit {0})
  resize_action size t =
      let p = t.reader in
      returned tt (
        go_to step_action
          (record t { reader = record p { action_reader = resize size p.action_reader } }))

  unfoldable pub read_action_size : M (Reading S) (Unit {0})
  read_action_size t =
      let size_bits = bit_and t.reader.flags name_size_bitmask in
      if t.reader.step == step_action_size
      then if size_bits == name_size_uint8_bits
        then after (on_source (get_uint8 r) t) resize_action
        else if size_bits == name_size_uint16_bits
        then after
            (on_bytes (λ p. p.action_size16_reader) (λ u p. record p { action_size16_reader = u })
              (get_uint16 r) t)
            resize_action
        else returned tt (go_to step_action t)
      else returned tt t

  unfoldable pub read_action : M (Reading S) (Unit {0})
  read_action t =
      if t.reader.step == step_action
      then after
          (on_bytes (λ p. p.action_reader) (λ u p. record p { action_reader = u }) (get_string r) t)
          (λ action t.
            returned tt
              (go_to step_data_size (with_message (record (t.message) { action = action }) t)))
      else returned tt t

  abbrev data_sized : ℕ → Reading S → Outcome (Reading S) (Unit {0})
  data_sized size t = returned tt (
      go_to step_files_count
        (with_message (record (t.message) { content = some (new_message_data size) }) t))

  unfoldable pub read_data_size : M (Reading S) (Unit {0})
  read_data_size t =
      let size_bits = bit_and t.reader.flags data_size_bitmask in
      if t.reader.step == step_data_size
      then if size_bits == data_size_none_bits
        then data_sized 0 t
        else if size_bits == data_size_uint8_bits
        then after (on_source (get_uint8 r) t) data_sized
        else if size_bits == data_size_uint16_bits
        then after
            (on_bytes (λ p. p.data_size16_reader) (λ u p. record p { data_size16_reader = u })
              (get_uint16 r) t)
            data_sized
        else if size_bits == data_size_uint48_bits
        then after
            (on_bytes (λ p. p.data_size48_reader) (λ u p. record p { data_size48_reader = u })
              (get_uint48 r) t)
            data_sized
        else returned tt (go_to step_files_count t)
      else returned tt t

  abbrev files_counted : ℕ → Reading S → Outcome (Reading S) (Unit {0})
  files_counted count t =
      returned tt
        (go_to step_files_size (with_message (record (t.message) { files_count = count }) t))

  -- Without files the step stays where it is.
  unfoldable pub read_files_count : M (Reading S) (Unit {0})
  read_files_count t =
      let size_bits = bit_and t.reader.flags files_count_bitmask in
      if t.reader.step == step_files_count
      then if size_bits == files_count_none_bits
        then returned tt
            (with_message (record (t.message) { files_count = 0; total_files_size = 0 }) t)
        else if size_bits == files_count_uint8_bits
        then after (on_source (get_uint8 r) t) files_counted
        else if size_bits == files_count_uint16_bits
        then after
            (on_bytes (λ p. p.files_count16_reader) (λ u p. record p { files_count16_reader = u })
              (get_uint16 r) t)
            files_counted
        else if size_bits == files_count_uint24_bits
        then after
            (on_bytes (λ p. p.files_count24_reader) (λ u p. record p { files_count24_reader = u })
              (get_uint24 r) t)
            files_counted
        else returned tt t
      else returned tt t

  abbrev files_sized : ℕ → Reading S → Outcome (Reading S) (Unit {0})
  files_sized size t = returned tt (with_message (record (t.message) { total_files_size = size }) t)

  unfoldable pub read_files_size : M (Reading S) (Unit {0})
  read_files_size t =
      let size_bits = bit_and t.reader.flags file_size_bitmask in
      if t.reader.step == step_files_size
      then if size_bits == file_size_uint16_bits
        then after
            (on_bytes (λ p. p.files_size16_reader) (λ u p. record p { files_size16_reader = u })
              (get_uint16 r) t)
            files_sized
        else if size_bits == file_size_uint24_bits
        then after
            (on_bytes (λ p. p.files_size24_reader) (λ u p. record p { files_size24_reader = u })
              (get_uint24 r) t)
            files_sized
        else if size_bits == file_size_uint32_bits
        then after
            (on_bytes (λ p. p.files_size32_reader) (λ u p. record p { files_size32_reader = u })
              (get_uint32 r) t)
            files_sized
        else if size_bits == file_size_uint48_bits
        then after
            (on_bytes (λ p. p.files_size48_reader) (λ u p. record p { files_size48_reader = u })
              (get_uint48 r) t)
            files_sized
        else returned tt t
      else returned tt t

  -- `Get`: the message is complete when it returns.
  unfoldable pub get : (List ℕ → Option (List ℕ)) → M (Reading S) Bool
  get from_bytes t = after (read_flags t) λ _ t. after (read_uuid from_bytes t) λ _ t.
      after (read_action_size t) λ _ t. after (read_action t) λ _ t. after (read_data_size t) λ _ t.
        after (read_files_count t)
          λ _ t. after (read_files_size t) λ _ t. returned true (go_to step_flags t)
