-- ===== src/ProtocolUtils/Sizes.antt =====
-- protocol_utils.go: the width that is chosen for a size is wide enough for it.
use sockety_go.Common.{ℕ, ◌*◌, ◌^◌, ◌≤◌, ◌<◌, ◌-◌, ◌≡◌, ◌⊎◌, arith, ok}
use sockety_go.ProtocolUtils.{get_min_size_bytes}

-- A width that getMinSizeBytes returns holds the size. It is 0, or one byte less does not hold the size,
-- or it is 6 and the size takes more than 32 bits.
pub get_min_size_bytes_fits :
    (size k : ℕ)
    → get_min_size_bytes size ≡ ok k
    → (size < 2 ^ (8 * k)) × ((k ≡ 0) ⊎ (2 ^ (8 * (k - 1)) ≤ size) ⊎ ((k ≡ 6) × (2 ^ 32 ≤ size)))
unfolding get_min_size_bytes
get_min_size_bytes_fits size k e = ground arith
