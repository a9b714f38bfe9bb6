-- ===== src/BufferedReader.antt =====
-- buffered_reader.go, bufferedReader: a window of a buffer over a source. The source is an io.Reader,
-- a parameter: its state, and what one `Read` into a slice of a given length answers.
pub mod Window
pub mod Stream
use sockety_go.Common.{
  ℕ, zero, suc, ◌+◌, ◌-◌, ◌%◌, ◌^◌, Bool, true, false, List, [], ◌++◌, Option, none, some, ltb, leb,
  ◌==◌, if◌then◌else◌, length, take, drop, Error, eof, Result, ok, err, panic, invalid_option,
  Outcome, returned, failed, panicked, blocked, stuck, after, M, lift, index,
}
use sockety_go.ByteUtils.{from, copy}
use sockety_go.ByteUtils.ReadBytes
use sockety_go.ProtocolUtils.{validate_read_buffer_size}
use sockety_go.Reader.{Read}

-- What `Read` answers: the bytes that it put in the slice, its error, and the source's next state.
pub record Reply (Q : Type 0) : Type 0 where
  pub bytes : List ℕ
  pub error : Option Error
  pub next : Q

-- bufferedReader.
pub record Buffered (Q : Type 0) : Type 0 where
  pub source : Q
  pub at_eof : Bool
  pub buffer : List ℕ
  pub available : ℕ
  pub start : ℕ

module _ {Q : Type 0} where
  unfoldable pub new_buffered_reader : Q → List ℕ → Result (Buffered Q)
  new_buffered_reader source buffer = elim (validate_read_buffer_size (length buffer)) [
    | ok _ ↦
        ok (record { source = source; at_eof = false; buffer = buffer; available = 0; start = 0 })
    | err _ ↦ panic invalid_option
    | panic p ↦ panic p
  ]

  -- `available` wraps below 0, as a uint64.
  unfoldable pub collect : ℕ → Buffered Q → Buffered Q
  collect size b =
      let left = (b.available + 2 ^ 64 - size) % 2 ^ 64 in
      record b { available = left; start = if left == 0 then 0 else b.start + size }

  unfoldable pub len : Buffered Q → ℕ
  len b = b.available

  unfoldable pub may_have : ℕ → Buffered Q → Bool
  may_have size b = if b.at_eof then leb size b.available else true

module _ {Q : Type 0} (source : Q → ℕ → Reply Q) where
  -- The bytes of the answer are in the buffer, also if they come with an error.
  unfoldable pub load_bytes : M (Buffered Q) (Unit {0})
  load_bytes b =
      let position = b.start + b.available in
      after (lift (from b.buffer position) b) λ room b.
        let reply = source b.source (length room) in
        let b' = record b {
          source = reply.next;
          buffer = take position b.buffer ++ copy room reply.bytes;
        } in
        elim reply.error [
          | some e ↦ failed e b'
          | none ↦ returned tt (record b' { available = b.available + length reply.bytes })
        ]

  unfoldable pub preload : M (Buffered Q) (Unit {0})
  preload b =
      if ltb 0 b.available then returned tt b else if b.at_eof then failed eof b else load_bytes b

  -- `for b.available < size { loadBytes }`.
  unfoldable pub load_until : ℕ → ℕ → M (Buffered Q) (Unit {0})
  load_until zero size b = stuck
  load_until (suc rounds) size b =
      let more = after (load_bytes b) (λ _ b'. load_until rounds size b') in
      if ltb b.available size then more else returned tt b

  -- The buffer is rotated to its front where the room behind the start is too small.
  unfoldable pub ensure : ℕ → ℕ → M (Buffered Q) (Unit {0})
  ensure rounds size b =
      if ltb ((length b.buffer + 2 ^ 64 - b.start) % 2 ^ 64) size
      then load_until rounds size
          (record b { buffer = drop b.start b.buffer ++ take b.start b.buffer; start = 0 })
      else load_until rounds size b

  unfoldable pub read_byte : ℕ → M (Buffered Q) ℕ
  read_byte rounds b =
      after (ensure rounds 1 b)
        λ _ b. after (lift (index b.buffer b.start) b) λ result b. returned result (collect 1 b)

  -- One round of `Read`'s loop: `left` bytes are missing, `out` is what the target holds.
  unfoldable pub read_loop : ℕ → ℕ → List ℕ → M (Buffered Q) Read
  read_loop zero left out b = stuck
  read_loop (suc rounds) left out b =
      let all =
        after (lift (ReadBytes.slice b.buffer b.start (b.start + left)) b)
          λ chunk b. returned (record { bytes = out ++ chunk; error = none }) (collect left b) in
      let load_next = λ (left' : ℕ) (out' : List ℕ) (b' : Buffered Q).
        let loaded : Outcome (Buffered Q) Read = elim (load_bytes b') [
          | returned _ b'' ↦ read_loop rounds left' out' b''
          | failed e b'' ↦ returned (record { bytes = out'; error = some e }) b''
          | panicked p ↦ panicked p
          | blocked ↦ blocked
          | stuck ↦ stuck
        ] in
        loaded in
      let part =
        after (lift (ReadBytes.slice b.buffer b.start (b.start + b.available)) b)
          λ chunk b. load_next (left - b.available) (out ++ chunk) (collect b.available b) in
      if left == 0
      then returned (record { bytes = out; error = none }) b
      else if leb left b.available
      then all
      else if ltb 0 b.available
      then part
      else load_next left out b

  -- Every round but the first takes a byte from a source that answers with bytes; `spare` are the
  -- rounds that it may answer with none.
  unfoldable pub read : ℕ → ℕ → M (Buffered Q) Read
  read spare size b = read_loop (size + 2 + spare) size [] b
