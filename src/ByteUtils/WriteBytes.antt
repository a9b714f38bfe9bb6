-- ===== src/ByteUtils/WriteBytes.antt =====
-- byte_utils.go, writeBytes. `Byte` is `Uint8` under another name.
use sockety_go.Common.{
  ℕ, ◌+◌, ◌-◌, ◌/◌, ◌%◌, ◌^◌, List, ◌++◌, ◌==◌, if◌then◌else◌, length, take, Result, ok, panic,
  unsupported_uint, ◌>>=◌, index,
}
use sockety_go.ByteUtils.{byte, from, put, copy}

unfoldable pub uint8 : List ℕ → ℕ → ℕ → Result (List ℕ × ℕ)
uint8 b o value = do c ← put b o value; ok (c, o + 1)

-- `copy` behind a check of the last byte; `nextOffset - 1` wraps at 0.
unfoldable pub bytes : List ℕ → ℕ → List ℕ → Result (List ℕ × ℕ)
bytes b o value = do
  let next_offset = o + length value
  _ ← index b ((next_offset + 2 ^ 64 - 1) % 2 ^ 64)
  c ← from b o
  ok (take o b ++ copy c value, next_offset)

-- encoding/binary's little-endian writes; each looks at the last byte first.
unfoldable pub uint16 : List ℕ → ℕ → ℕ → Result (List ℕ × ℕ)
uint16 b o value = do
  _ ← index b (o + 1)
  b ← put b o (byte value)
  b ← put b (o + 1) (byte (value / 2 ^ 8))
  ok (b, o + 2)

unfoldable pub uint24 : List ℕ → ℕ → ℕ → Result (List ℕ × ℕ)
uint24 b o value = do
  _ ← index b (o + 2)
  b ← put b o (byte value)
  b ← put b (o + 1) (byte (value / 2 ^ 8))
  b ← put b (o + 2) (byte (value / 2 ^ 16))
  ok (b, o + 3)

unfoldable pub uint32 : List ℕ → ℕ → ℕ → Result (List ℕ × ℕ)
uint32 b o value = do
  _ ← index b (o + 3)
  b ← put b o (byte value)
  b ← put b (o + 1) (byte (value / 2 ^ 8))
  b ← put b (o + 2) (byte (value / 2 ^ 16))
  b ← put b (o + 3) (byte (value / 2 ^ 24))
  ok (b, o + 4)

unfoldable pub uint48 : List ℕ → ℕ → ℕ → Result (List ℕ × ℕ)
uint48 b o value = do
  _ ← index b (o + 5)
  b ← put b o (byte value)
  b ← put b (o + 1) (byte (value / 2 ^ 8))
  b ← put b (o + 2) (byte (value / 2 ^ 16))
  b ← put b (o + 3) (byte (value / 2 ^ 24))
  b ← put b (o + 4) (byte (value / 2 ^ 32))
  b ← put b (o + 5) (byte (value / 2 ^ 40))
  ok (b, o + 6)

unfoldable pub uint : List ℕ → ℕ → ℕ → ℕ → Result (List ℕ × ℕ)
uint b o value bytes_length =
    if bytes_length == 1
    then uint8 b o (value % 2 ^ 8)
    else if bytes_length == 2
    then uint16 b o (value % 2 ^ 16)
    else if bytes_length == 3
    then uint24 b o (value % 2 ^ 32)
    else if bytes_length == 4
    then uint32 b o (value % 2 ^ 32)
    else if bytes_length == 6
    then uint48 b o value
    else panic unsupported_uint

-- The sixteen bytes of the identifier, behind a check of the last.
unfoldable pub uuid : List ℕ → ℕ → List ℕ → Result (List ℕ × ℕ)
uuid b o value = do _ ← index b (o + 15); c ← from b o; ok (take o b ++ copy c value, o + 16)

unfoldable pub string : List ℕ → ℕ → List ℕ → Result (List ℕ × ℕ)
string b o value = bytes b o value
