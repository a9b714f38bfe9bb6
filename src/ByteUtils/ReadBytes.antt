-- ===== src/ByteUtils/ReadBytes.antt =====
-- byte_utils.go, readBytes.
use sockety_go.Common.{
  ℕ, ◌+◌, ◌-◌, ◌&&◌, bit_or, List, Option, some, none, leb, if◌then◌else◌, length, take, drop,
  Result, ok, panic, index_out_of_range, impossible_path, ◌>>=◌, index,
}
use sockety_go.ByteUtils.{shl, from}

unfoldable pub uint8 : List ℕ → ℕ → Result ℕ
uint8 b o = index b o

-- encoding/binary's little-endian reads, on the slice from the offset on.
unfoldable pub uint16 : List ℕ → ℕ → Result ℕ
uint16 b o = do
  c ← from b o
  _ ← index c 1
  c0 ← index c 0
  c1 ← index c 1
  ok (bit_or c0 (shl 16 c1 8))

unfoldable pub uint24 : List ℕ → ℕ → Result ℕ
uint24 b o = do
  _ ← index b (o + 2)
  c0 ← index b o
  c1 ← index b (o + 1)
  c2 ← index b (o + 2)
  ok (bit_or (bit_or c0 (shl 32 c1 8)) (shl 32 c2 16))

unfoldable pub uint32 : List ℕ → ℕ → Result ℕ
uint32 b o = do
  c ← from b o
  _ ← index c 3
  c0 ← index c 0
  c1 ← index c 1
  c2 ← index c 2
  c3 ← index c 3
  ok (bit_or (bit_or (bit_or c0 (shl 32 c1 8)) (shl 32 c2 16)) (shl 32 c3 24))

unfoldable pub uint48 : List ℕ → ℕ → Result ℕ
uint48 b o = do
  _ ← index b (o + 5)
  c0 ← index b o
  c1 ← index b (o + 1)
  c2 ← index b (o + 2)
  c3 ← index b (o + 3)
  c4 ← index b (o + 4)
  c5 ← index b (o + 5)
  let low = bit_or (bit_or c0 (shl 64 c1 8)) (shl 64 c2 16)
  ok (bit_or (bit_or (bit_or low (shl 64 c3 24)) (shl 64 c4 32)) (shl 64 c5 40))

-- `b[from:to]`.
unfoldable pub slice : List ℕ → ℕ → ℕ → Result (List ℕ)
slice b low high =
    if leb low high && leb high (length b)
    then ok (take (high - low) (drop low b))
    else panic index_out_of_range

-- `b[o:bytesLength]`, as the bytes of the string; its last argument is the end of the slice.
unfoldable pub string : List ℕ → ℕ → ℕ → Result (List ℕ)
string b o bytes_length = slice b o bytes_length

-- `from_bytes` is the uuid package's FromBytes, `none` its error.
unfoldable pub uuid : (List ℕ → Option (List ℕ)) → List ℕ → ℕ → Result (List ℕ)
uuid from_bytes b o = do
  c ← slice b o (o + 16)
  elim (from_bytes c) [ some id ↦ ok id | none ↦ panic impossible_path ]
