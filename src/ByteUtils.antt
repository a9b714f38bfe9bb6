-- ===== src/ByteUtils.antt =====
-- byte_utils.go: fixed-width numbers, byte strings and identifiers in a byte slice. A slice is the
-- list of its bytes; a write returns the new slice with the next offset, and the runtime's bounds
-- checks are panics. `offset` is a uint64 that no slice's length comes near, so it does not wrap.
pub mod ReadBytes
pub mod Positions
pub mod RoundTrip
pub mod WriteBytes
use sockety_go.Common.{
  ℕ, zero, suc, ◌+◌, ◌-◌, ◌*◌, ◌/◌, ◌%◌, ◌^◌, ◌≡◌, refl, bit_or, List, [], ◌∷◌, ◌++◌, Option, some,
  none, ltb, leb, ◌==◌, if◌then◌else◌, length, take, drop, set, Result, ok, err, panic,
  index_out_of_range, unsupported_uint, ◌>>=◌, index,
}

-- `byte(v)`.
abbrev pub byte : ℕ → ℕ
byte v = v % 256

-- `v << k` on a type of `w` bits.
abbrev pub shl : ℕ → ℕ → ℕ → ℕ
shl w v k = 2 ^ k * v % 2 ^ w

-- `b[o:]`.
unfoldable pub from : List ℕ → ℕ → Result (List ℕ)
from b o = if leb o (length b) then ok (drop o b) else panic index_out_of_range

-- `b[i] = v`.
unfoldable pub put : List ℕ → ℕ → ℕ → Result (List ℕ)
put b i v = if ltb i (length b) then ok (set b i v) else panic index_out_of_range

-- `copy(dst, src)`: as many bytes as fit.
unfoldable pub copy : List ℕ → List ℕ → List ℕ
copy [] src = []
copy (x ∷ dst) [] = x ∷ dst
copy (x ∷ dst) (y ∷ src) = y ∷ copy dst src
