-- ===== src/BufferPool.antt =====
-- internal/buffer_pool: the buffers of package bytebufferpool. What its `Get` hands out is a
-- parameter; the package documents an empty buffer.
use sockety_go.Common.{ℕ, List, ◌++◌, replicate}

-- `make([]byte, size)`.
abbrev pub zeros : ℕ → List ℕ
zeros size = replicate size 0

unfoldable pub obtain_unsafe : List ℕ → ℕ → List ℕ
obtain_unsafe pooled size = pooled ++ zeros size
