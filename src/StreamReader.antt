-- ===== src/StreamReader.antt =====
-- stream_reader.go: readers of numbers, identifiers and strings that may be called again where the
-- source had too few bytes. A reader keeps what it has got so far.
pub mod Complete
use sockety_go.Common.{
  ℕ, ◌+◌, ◌-◌, ◌%◌, ◌^◌, Bool, true, false, not, List, [], ◌++◌, Option, none, some, ltb,
  if◌then◌else◌, length, take, drop, Error, not_ready, Outcome, returned, failed, panicked, blocked,
  stuck, after, M, lift,
}
use sockety_go.BufferPool.{zeros}
use sockety_go.ByteUtils.{copy}
use sockety_go.ByteUtils.ReadBytes
use sockety_go.Reader.{Read, BufferedReader}

-- streamReaderUnsafeBytes. The capacity of its buffer is taken to be its length.
pub record UnsafeBytes : Type 0 where
  pub buffer : List ℕ
  pub offset : ℕ
  pub size : ℕ

unfoldable pub new_unsafe_bytes : ℕ → UnsafeBytes
new_unsafe_bytes size = record { buffer = zeros size; offset = 0; size = size }

-- The length is cut to a uint16, as in the source.
unfoldable pub resize : ℕ → UnsafeBytes → UnsafeBytes
resize size u =
    let current = length u.buffer % 2 ^ 16 in
    record u {
      buffer = if ltb current size then u.buffer ++ zeros (size - current) else u.buffer;
      size = size;
    }

module _ {S : Type 0} (r : BufferedReader S) where
  unfoldable pub get_uint8 : M S ℕ
  get_uint8 s = if r.may_have 1 s then r.read_byte s else failed not_ready s

  -- What `Get` does with the answer of `Read`: it goes into the buffer, and is counted.
  unfoldable pub took : UnsafeBytes → Read → S → Outcome (UnsafeBytes × S) (List ℕ)
  took u got s =
      let o = (u.offset + length got.bytes % 2 ^ 16) % 2 ^ 16 in
      let u' = record u {
        buffer = take u.offset u.buffer ++ copy (drop u.offset u.buffer) got.bytes;
        offset = o;
      } in
      elim got.error [
        | some e ↦ failed e (u', s)
        | none ↦
            if ltb o u.size
            then failed not_ready (u', s)
            else returned u'.buffer (record u' { offset = 0 }, s)
      ]

  -- `s.size - s.offset` is a uint16. `Read` gets a slice of the buffer, whose bounds are checked.
  unfoldable pub get_bytes : M (UnsafeBytes × S) (List ℕ)
  get_bytes (u, s) =
      let missing = (u.size + 2 ^ 16 - u.offset) % 2 ^ 16 in
      let end = if r.may_have missing s then u.size else u.offset + r.len s in
      let reading = after (lift (ReadBytes.slice u.buffer u.offset end) (u, s)) λ target _.
        let got : Outcome (UnsafeBytes × S) (List ℕ) = elim (r.read (length target) s) [
          | returned got s' ↦ took u got s'
          | failed e s' ↦ failed e (u, s')
          | panicked p ↦ panicked p
          | blocked ↦ blocked
          | stuck ↦ stuck
        ] in
        got in
      if r.may_have 1 s then reading else failed not_ready (u, s)

  unfoldable pub get_uint16 : M (UnsafeBytes × S) ℕ
  get_uint16 s = after (get_bytes s) λ bytes s. lift (ReadBytes.uint16 bytes 0) s

  unfoldable pub get_uint24 : M (UnsafeBytes × S) ℕ
  get_uint24 s = after (get_bytes s) λ bytes s. lift (ReadBytes.uint24 bytes 0) s

  unfoldable pub get_uint32 : M (UnsafeBytes × S) ℕ
  get_uint32 s = after (get_bytes s) λ bytes s. lift (ReadBytes.uint32 bytes 0) s

  unfoldable pub get_uint48 : M (UnsafeBytes × S) ℕ
  get_uint48 s = after (get_bytes s) λ bytes s. lift (ReadBytes.uint48 bytes 0) s

  -- `from_bytes` is the uuid package's FromBytes.
  unfoldable pub get_uuid : (List ℕ → Option (List ℕ)) → M (UnsafeBytes × S) (List ℕ)
  get_uuid from_bytes s = after (get_bytes s) λ bytes s. lift (ReadBytes.uuid from_bytes bytes 0) s

  -- The string is the buffer's front, at the time of the call.
  unfoldable pub get_string : M (UnsafeBytes × S) (List ℕ)
  get_string s = after (get_bytes s) λ bytes s. lift (ReadBytes.string bytes 0 s.0.size) s

-- The readers by their widths; the one for uint32 has a buffer of three bytes, as in the source.
abbrev pub new_uint16 : UnsafeBytes
new_uint16 = new_unsafe_bytes 2

abbrev pub new_uint24 : UnsafeBytes
new_uint24 = new_unsafe_bytes 3

abbrev pub new_uint32 : UnsafeBytes
new_uint32 = new_unsafe_bytes 3

abbrev pub new_uint48 : UnsafeBytes
new_uint48 = new_unsafe_bytes 6

abbrev pub new_uuid : UnsafeBytes
new_uuid = new_unsafe_bytes 16
