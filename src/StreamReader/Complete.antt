-- ===== src/StreamReader/Complete.antt =====
-- stream_reader.go, over a stream that has all the bytes: a reader at rest returns the number that
-- the bytes spell, takes just these bytes, and is at rest again.
use sockety_go.Common.{
  length-replicate, lt→ltb, ℕ, ◌+◌, ◌-◌, ◌%◌, ◌^◌, ◌≤◌, ◌<◌, ◌≡◌, refl, ap, ◌∙◌, List, [], ◌∷◌,
  ◌++◌, arith, Option, none, some, le→ltb, le→leb, length, length-append, length-take, length-drop,
  take, drop, take-append, drop-append, Outcome, returned, after, lift, Result, ok,
}
use native.Mathlib.Decide.{dec_lt}
use sockety_go.BufferPool.{zeros}
use sockety_go.ByteUtils.ReadBytes
use sockety_go.ByteUtils.Positions.{le, length-le, copy-append}
use sockety_go.ByteUtils.RoundTrip.{uint16-le, uint24-le, uint48-le}
use sockety_go.Reader.{BufferedReader, IsStream, Yields}
use sockety_go.StreamReader.{
  UnsafeBytes, resize, get_uint8, took, get_bytes, get_uint16, get_uint24, get_uint48, get_uuid,
  get_string,
}

-- A reader of `k` bytes between two calls: nothing of the next value is read yet.
abbrev pub rest : List ℕ → ℕ → UnsafeBytes
rest buffer k = record { buffer = buffer; offset = 0; size = k }

pub record IsAtRest (k : ℕ) (u : UnsafeBytes) : Type 0 where
  pub none_read : u.offset ≡ 0
  pub sized : u.size ≡ k
  pub fits : k ≤ length u.buffer
  pub short : length u.buffer < 2 ^ 16

pub IsAtRest-rest : (k : ℕ) (u : UnsafeBytes) → IsAtRest k u → u ≡ rest u.buffer k
IsAtRest-rest k u q = λ i. record { buffer = u.buffer; offset = q.none_read i; size = q.sized i }

pub resize-IsAtRest :
    (k n : ℕ) (u : UnsafeBytes) → IsAtRest k u → n < 2 ^ 16 → IsAtRest n (resize n u)
unfolding resize
resize-IsAtRest k n u q small =
    let exact : length u.buffer % 2 ^ 16 ≡ length u.buffer = omega (arith, q.short) in
    rw exact (elim (dec_lt (length u.buffer) n) [
      | yes grow ↦
          let grown : length (u.buffer ++ zeros (n - length u.buffer)) ≡ n = omega (
            arith,
            length-append u.buffer (zeros (n - length u.buffer)),
            length-replicate {0} {A = ℕ} (n - length u.buffer) 0,
          ) in
          rw (lt→ltb (length u.buffer) n grow) (record {
            none_read = q.none_read;
            sized = refl;
            fits = rw grown (omega arith);
            short = rw grown small;
          })
      | no enough ↦
          rw (le→ltb (length u.buffer) n (omega arith))
            (record { none_read = q.none_read; sized = refl; fits = omega arith; short = q.short })
    ])

module _ {S : Type 0} (r : BufferedReader S) (Good : S → Type 0) (content : S → List ℕ)
    (stream : IsStream r Good content) where
  -- A call that returns `a`, leaves the reader at rest, and the stream with `left`.
  abbrev pub Gets {ℓ} : {A : Type ℓ} → ℕ → Outcome (UnsafeBytes × S) A → A → List ℕ → Type ℓ
  Gets k out a left =
      (u : UnsafeBytes) × (s : S) × (out ≡ returned a (u, s))
      × IsAtRest k u
      × (content s ≡ left)
      × Good s

  get_bytes-rest :
      (buffer : List ℕ) (k : ℕ) (s s' : S)
      → 0 < k
      → k < 2 ^ 16
      → k ≤ length buffer
      → k ≤ length (content s)
      → Good s
      → r.read k s ≡ returned (record { bytes = take k (content s); error = none }) s'
      → get_bytes r (rest buffer k, s)
        ≡ returned
            (take k (content s) ++ drop k buffer)
            (rest (take k (content s) ++ drop k buffer) k, s')
  unfolding get_bytes took ReadBytes.slice
  get_bytes-rest buffer k s s' some_byte small fits enough good got =
      let missing : (k + 2 ^ 16 - 0) % 2 ^ 16 ≡ k = omega arith in
      let width : length (take k (content s)) ≡ k = omega (arith, length-take k (content s)) in
      let target : length (take (k - 0) buffer) ≡ k = omega (arith, length-take (k - 0) buffer) in
      let all : (0 + k % 2 ^ 16) % 2 ^ 16 ≡ k = omega arith in
      rw
        (
          missing,
          stream.has 1 s good (omega arith),
          stream.has k s good enough,
          le→leb 0 k (omega arith),
          le→leb k (length buffer) fits,
          target,
          got,
          width,
          all,
          le→ltb k k (omega arith),
        )
        (rw (copy-append buffer (take k (content s)) (omega (arith, width)), width))

  length-new :
      (buffer xs : List ℕ) (k : ℕ)
      → length xs ≡ k
      → k ≤ length buffer
      → length (xs ++ drop k buffer) ≡ length buffer
  length-new buffer xs k h fits =
      omega (arith, length-append xs (drop k buffer), length-drop k buffer)

  -- The next `k` bytes, in front of what the buffer held behind them.
  pub get_bytes-Gets :
      (k : ℕ) (u : UnsafeBytes) (s : S) (xs tail : List ℕ)
      → 0 < k
      → k < 2 ^ 16
      → IsAtRest k u
      → Good s
      → content s ≡ xs ++ tail
      → length xs ≡ k
      → Gets k (get_bytes r (u, s)) (xs ++ drop k u.buffer) tail
  get_bytes-Gets k u s xs tail some_byte small q good e width =
      let enough : k ≤ length (content s) = rw e (omega (arith, length-append xs tail)) in
      let (s', got, left, good') = stream.serves k s good enough in
      let front : take k (content s) ≡ xs = rw e (take-append xs tail k width) in
      (
        rest (xs ++ drop k u.buffer) k,
        s',
        ap (λ w. get_bytes r (w, s)) (IsAtRest-rest k u q)
            ∙ get_bytes-rest u.buffer k s s' some_byte small q.fits enough good got
            ∙ ap (λ bs. returned (bs ++ drop k u.buffer) (rest (bs ++ drop k u.buffer) k, s'))
                front,
        record {
          none_read = refl;
          sized = refl;
          fits = rw (length-new u.buffer xs k width q.fits) q.fits;
          short = rw (length-new u.buffer xs k width q.fits) q.short;
        },
        left ∙ rw e (drop-append xs tail k width),
        good',
      )

  -- A result computed from the bytes, by a function that looks at their front alone.
  Gets-lift {ℓ} :
      {A : Type ℓ} (k : ℕ) (out : Outcome (UnsafeBytes × S) (List ℕ)) (bytes left : List ℕ)
      (f : List ℕ → Result A) (a : A)
      → Gets k out bytes left
      → f bytes ≡ ok a
      → Gets k (after out (λ bs t. lift (f bs) t)) a left
  Gets-lift k out bytes left f a (u, s, e, q, l, g) h = (u, s, rw (e, h), q, l, g)

  pub get_uint8-Yields :
      (s : S) (x : ℕ) (xs : List ℕ)
      → Good s
      → content s ≡ x ∷ xs
      → Yields Good content (get_uint8 r s) x xs
  unfolding get_uint8
  get_uint8-Yields s x xs good e =
      rw (stream.has 1 s good (rw e (omega arith))) (stream.serves_byte s x xs good e)

  pub get_uint16-Gets :
      (u : UnsafeBytes) (s : S) (v : ℕ) (tail : List ℕ)
      → IsAtRest 2 u
      → Good s
      → v < 2 ^ 16
      → content s ≡ le 2 v ++ tail
      → Gets 2 (get_uint16 r (u, s)) v tail
  unfolding get_uint16
  get_uint16-Gets u s v tail q good h e =
      Gets-lift 2 _ _ tail (λ bs. ReadBytes.uint16 bs 0) v
        (get_bytes-Gets 2 u s (le 2 v) tail (omega arith) (omega arith) q good e (length-le 2 v))
        (uint16-le [] (drop 2 u.buffer) v h)

  pub get_uint24-Gets :
      (u : UnsafeBytes) (s : S) (v : ℕ) (tail : List ℕ)
      → IsAtRest 3 u
      → Good s
      → v < 2 ^ 24
      → content s ≡ le 3 v ++ tail
      → Gets 3 (get_uint24 r (u, s)) v tail
  unfolding get_uint24
  get_uint24-Gets u s v tail q good h e =
      Gets-lift 3 _ _ tail (λ bs. ReadBytes.uint24 bs 0) v
        (get_bytes-Gets 3 u s (le 3 v) tail (omega arith) (omega arith) q good e (length-le 3 v))
        (uint24-le [] (drop 3 u.buffer) v h)

  pub get_uint48-Gets :
      (u : UnsafeBytes) (s : S) (v : ℕ) (tail : List ℕ)
      → IsAtRest 6 u
      → Good s
      → v < 2 ^ 48
      → content s ≡ le 6 v ++ tail
      → Gets 6 (get_uint48 r (u, s)) v tail
  unfolding get_uint48
  get_uint48-Gets u s v tail q good h e =
      Gets-lift 6 _ _ tail (λ bs. ReadBytes.uint48 bs 0) v
        (get_bytes-Gets 6 u s (le 6 v) tail (omega arith) (omega arith) q good e (length-le 6 v))
        (uint48-le [] (drop 6 u.buffer) v h)

  pub get_uuid-Gets :
      (from_bytes : List ℕ → Option (List ℕ)) (u : UnsafeBytes) (s : S) (id tail : List ℕ)
      → ((bs : List ℕ) → length bs ≡ 16 → from_bytes bs ≡ some bs)
      → IsAtRest 16 u
      → Good s
      → length id ≡ 16
      → content s ≡ id ++ tail
      → Gets 16 (get_uuid r from_bytes (u, s)) id tail
  unfolding get_uuid ReadBytes.uuid ReadBytes.slice
  get_uuid-Gets from_bytes u s id tail documented q good h e =
      let room = length-append id (drop 16 u.buffer) in
      Gets-lift 16 _ _ tail (λ bs. ReadBytes.uuid from_bytes bs 0) id
        (get_bytes-Gets 16 u s id tail (omega arith) (omega arith) q good e h)
        (rw (
          le→leb 16 (length (id ++ drop 16 u.buffer)) (omega (arith, room)),
          take-append id (drop 16 u.buffer) 16 h,
          documented id h,
        ))

  -- A string reader at rest with a size `k` between 1 and 65535, over a stream that begins with a
  -- text of `k` bytes, returns this text in one call, is at rest again, and leaves the stream behind
  -- the text.
  pub get_string-Gets :
      (k : ℕ) (u : UnsafeBytes) (s : S) (text tail : List ℕ)
      → 0 < k
      → k < 2 ^ 16
      → IsAtRest k u
      → Good s
      → length text ≡ k
      → content s ≡ text ++ tail
      → Gets k (get_string r (u, s)) text tail
  unfolding get_string ReadBytes.string ReadBytes.slice
  get_string-Gets k u s text tail some_byte small q good h e =
      let (u', s', got, q', left, good') =
        get_bytes-Gets k u s text tail some_byte small q good e h in
      let room = length-append text (drop k u.buffer) in
      let whole : k - 0 ≡ k = omega arith in
      (
        u',
        s',
        rw (
          got,
          q'.sized,
          le→leb 0 k (omega arith),
          le→leb k (length (text ++ drop k u.buffer)) (omega (arith, room)),
          whole,
          take-append text (drop k u.buffer) k h,
        ),
        q',
        left,
        good',
      )
