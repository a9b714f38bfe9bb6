-- ===== src/BufferedReader/Stream.antt =====
-- buffered_reader.go: over a source that delivers, a bufferedReader serves the source's bytes in
-- order, each once, whatever pieces the source delivers them in.
use sockety_go.Common.{
  get_elem?, min, ℕ, zero, suc, ◌+◌, ◌-◌, ◌%◌, ◌^◌, ◌≤◌, ◌<◌, ◌≡◌, refl, sym, ap, ap₂, ◌∙◌, false,
  List, [], ◌∷◌, ◌++◌, append-nil, append_assoc, arith, none, some, length, length-append, take,
  drop, take-take, take-append_le, take-append_ge, drop-append_le, drop-append_ge, Outcome,
  returned, after, ltb, le→leb, lt→leb, le→ltb, lt→ltb, ok, ◌==◌, ne→==,
}
use native.Mathlib.Decide.{dec_lt}
use sockety_go.Reader.{Yields-along, Read, BufferedReader, Yields, IsStream}
use sockety_go.ByteUtils.ReadBytes
use sockety_go.BufferedReader.{
  Reply, Buffered, collect, len, may_have, load_bytes, preload, load_until, ensure, read_byte,
  read_loop, read,
}
use sockety_go.BufferedReader.Window.{
  Delivers, window, IsReady, length-window, collect-Collected, content, Loaded, load_bytes-Loaded,
}

-- bufferedReader as a BufferedReader.
unfoldable pub buffered : {Q : Type 0} → (Q → ℕ → Reply Q) → ℕ → BufferedReader (Buffered Q)
buffered source spare = record {
  len = len;
  may_have = may_have;
  read_byte = read_byte source (2 + spare);
  read = read source spare;
  preload = preload source;
}

-- The first byte of a window is the buffer's byte at its start.
get_elem?-window :
    (xs p : List ℕ) (n a x : ℕ) (rest : List ℕ)
    → 0 < a
    → n + a ≤ length xs
    → take a (drop n xs) ++ p ≡ x ∷ rest
    → get_elem? xs n ≡ some x
get_elem?-window [] p n zero x rest some_there h e = absurd (omega arith)
get_elem?-window [] p n (suc a) x rest some_there h e = absurd (omega arith)
get_elem?-window (y ∷ ys) p zero zero x rest some_there h e = absurd (omega arith)
get_elem?-window (y ∷ ys) p zero (suc a) x rest some_there h e = ground arith
get_elem?-window (y ∷ ys) p (suc n) a x rest some_there h e =
    get_elem?-window ys p n a x rest some_there (omega arith) e

module _ {Q : Type 0} (source : Q → ℕ → Reply Q) (pending : Q → List ℕ)
    (d : Delivers source pending) where
  abbrev served : Buffered Q → List ℕ
  served = content source pending d

  -- A good state of the reader: its window lies in its buffer, and no end of file was seen.
  abbrev pub IsOpen : Buffered Q → Type 0
  IsOpen b = IsReady b × (b.at_eof ≡ false)

  slice-window :
      (b : Buffered Q) (k : ℕ)
      → IsReady b
      → k ≤ b.available
      → ReadBytes.slice b.buffer b.start (b.start + k) ≡ ok (take k (window b))
  unfolding ReadBytes.slice
  slice-window b k r h =
      let width : b.start + k - b.start ≡ k = omega arith in
      rw (
        le→leb b.start (b.start + k) (omega arith),
        le→leb (b.start + k) (length b.buffer) (omega (arith, r.inside)),
        width,
        take-take k b.available (drop b.start b.buffer) h,
      )

  -- What one `Read` must leave behind.
  abbrev Reads : ℕ → List ℕ → Buffered Q → Outcome (Buffered Q) Read → Type 0
  Reads n out b r =
      Yields IsOpen served r (record { bytes = out ++ take n (served b); error = none })
        (drop n (served b))

  read_all :
      (rounds left : ℕ) (out : List ℕ) (b : Buffered Q)
      → IsOpen b
      → 0 < left
      → left ≤ b.available
      → Reads left out b (read_loop source (suc rounds) left out b)
  unfolding read_loop
  read_all rounds left out b (r, e) some_left h =
      let c = collect-Collected left b h r in
      let enough : left ≤ length (window b) = omega (arith, length-window b r) in
      let more : (left == 0) ≡ false = ne→== left 0 (omega arith) in
      (
        collect left b,
        rw (
          more,
          le→leb left b.available h,
          slice-window b left r h,
          take-append_le left (window b) (pending b.source) enough,
        ),
        rw (
          c.window_dropped,
          c.same_source,
          drop-append_le left (window b) (pending b.source) enough,
        ),
        (c.ready, c.same_eof ∙ e),
      )

  -- With an empty window, a round loads and goes on from what was loaded.
  next_round :
      (rounds left : ℕ) (out : List ℕ) (b c : Buffered Q)
      → 0 < left
      → b.available ≡ 0
      → load_bytes source b ≡ returned tt c
      → read_loop source (suc rounds) left out b ≡ read_loop source rounds left out c
  unfolding read_loop
  next_round rounds left out b c some_left empty loaded =
      let more : (left == 0) ≡ false = ne→== left 0 (omega arith) in
      rw (more, lt→leb left b.available (omega arith), le→ltb 0 b.available (omega arith), loaded)

  -- With less in the window than is missing, a round takes it, loads, and goes on.
  part_round :
      (rounds left : ℕ) (out : List ℕ) (b c : Buffered Q)
      → IsReady b
      → 0 < b.available
      → b.available < left
      → load_bytes source (collect b.available b) ≡ returned tt c
      → read_loop source (suc rounds) left out b
        ≡ read_loop source rounds (left - b.available) (out ++ window b) c
  unfolding read_loop
  part_round rounds left out b c r some_there h loaded =
      let more : (left == 0) ≡ false = ne→== left 0 (omega arith) in
      rw
        (
          more,
          lt→leb left b.available h,
          lt→ltb 0 b.available some_there,
          slice-window b b.available r (omega arith),
          take-take b.available b.available (drop b.start b.buffer) (omega arith),
        )
        (rw (loaded, after))

  served_empty : (b : Buffered Q) → b.available ≡ 0 → served b ≡ pending b.source
  served_empty b empty = rw empty

  split_out :
      (left : ℕ) (out : List ℕ) (b : Buffered Q)
      → IsReady b
      → b.available ≤ left
      → out ++ take left (served b)
        ≡ (out ++ window b) ++ take (left - b.available) (pending b.source)
  split_out left out b r h =
      let width = length-window b r in
      rw (take-append_ge left (window b) (pending b.source) (omega arith), width, append_assoc out)

  -- What a round is left to prove once the window is empty.
  read_loop-Loaded :
      (rounds left : ℕ) (out : List ℕ) (b c : Buffered Q)
      → ((c : Buffered Q)
          → IsOpen c
          → left ≤ length (served c)
          → left + 1 < rounds + min 1 c.available
          → Reads left out c (read_loop source rounds left out c))
      → Loaded source pending d b c
      → b.at_eof ≡ false
      → left ≤ length (pending b.source)
      → left < rounds
      → 0 < left
      → Yields IsOpen served
          (read_loop source rounds left out c)
          (record { bytes = out ++ take left (pending b.source); error = none })
          (drop left (pending b.source))
  read_loop-Loaded rounds left out b c again l e enough fuel some_left =
      rw l.same_content at
        (again c (l.ready, l.same_eof ∙ e) (rw l.same_content enough) (omega (arith, l.some_bytes)))

  read_loop-Reads :
      (rounds left : ℕ) (out : List ℕ) (b : Buffered Q)
      → IsOpen b
      → left ≤ length (served b)
      → left + 1 < rounds + min 1 b.available
      → Reads left out b (read_loop source rounds left out b)
  read_loop-Reads zero left out b open_b enough fuel = absurd (omega arith)
  read_loop-Reads (suc rounds) left out b (r, e) enough fuel =
      let again = λ (n : ℕ) (o : List ℕ) (c : Buffered Q). read_loop-Reads rounds n o c in
      let width = length-window b r in
      let total = length-append (window b) (pending b.source) in
      elim (dec_lt 0 left) [
        | no none_left ↦
            let z : left ≡ 0 = omega arith in
            rw z (b, unfold read_loop in rw append-nil, refl, (r, e))
        | yes some_left ↦ elim (dec_lt b.available left) [
          | no fits ↦ read_all rounds left out b (r, e) some_left (omega arith)
          | yes part ↦ elim (dec_lt 0 b.available) [
            | no nothing ↦
                let empty : b.available ≡ 0 = omega arith in
                let (c, l) = load_bytes-Loaded source pending d b r empty (omega arith) in
                Yields-along IsOpen served (next_round rounds left out b c some_left empty l.loaded)
                  (ap (λ p. record { bytes = out ++ take left p; error = none })
                    (served_empty b empty))
                  (ap (drop left) (served_empty b empty))
                  (read_loop-Loaded rounds left out b c (again left out) l e (omega arith)
                    (omega arith) some_left)
            | yes some_there ↦
                let k = collect-Collected b.available b (omega arith) r in
                let b' = collect b.available b in
                let (c, l) =
                  load_bytes-Loaded source pending d b' k.ready (omega (arith, k.available_less))
                    (rw k.same_source (omega arith)) in
                let left' = left - b.available in
                Yields-along IsOpen served
                  (part_round rounds left out b c r some_there part l.loaded)
                  (ap (λ bs. record { bytes = bs; error = none })
                    (split_out left out b r (omega arith)
                      ∙ ap (λ p. (out ++ window b) ++ take left' p)
                          (ap pending (sym k.same_source))))
                  (drop-append_ge left (window b) (pending b.source) (omega (arith, width))
                    ∙ ap₂ (λ n q. drop n (pending q)) (ap (λ n. left - n) width)
                        (sym k.same_source))
                  (read_loop-Loaded rounds left' (out ++ window b) b' c
                    (again left' (out ++ window b)) l (k.same_eof ∙ e)
                    (rw k.same_source (omega arith)) (omega arith) (omega arith))
          ]
        ]
      ]

  -- `ensure(1)` never rotates the buffer, and leaves a byte in the window.
  no_rotation :
      (b : Buffered Q) → IsReady b → ltb ((length b.buffer + 2 ^ 64 - b.start) % 2 ^ 64) 1 ≡ false
  no_rotation b r =
      let exact : (length b.buffer + 2 ^ 64 - b.start) % 2 ^ 64 ≡ length b.buffer - b.start =
        omega (arith, r.inside, r.short) in
      rw exact (
        le→ltb _ _ (elim (dec_lt b.start (length b.buffer)) [
          | yes h ↦ omega arith
          | no h ↦
              let empty : b.available ≡ 0 = omega (arith, r.inside) in
              absurd (omega (arith, r.sized, r.rewound empty))
        ]))

  ensure_one :
      (rounds : ℕ) (b : Buffered Q)
      → IsOpen b
      → 0 < length (served b)
      → (c : Buffered Q) × (ensure source (2 + rounds) 1 b ≡ returned tt c)
        × IsOpen c
        × (0 < c.available)
        × (served c ≡ served b)
  unfolding ensure load_until
  ensure_one rounds b (r, e) more = elim (dec_lt 0 b.available) [
    | yes some_there ↦
        (b, rw (no_rotation b r, two, le→ltb b.available 1 some_there), (r, e), some_there, refl)
    | no nothing ↦
        let empty : b.available ≡ 0 = omega arith in
        let (c, l) =
          load_bytes-Loaded source pending d b r empty (rw (served_empty b empty) at more) in
        (
          c,
          rw (
            no_rotation b r,
            two,
            lt→ltb b.available 1 (omega arith),
            l.loaded,
            le→ltb c.available 1 l.some_bytes,
          ),
          (l.ready, l.same_eof ∙ e),
          l.some_bytes,
          l.same_content ∙ sym (served_empty b empty),
        )
  ]
    where
      two : 2 + rounds ≡ suc (suc rounds)
      two = omega arith

  read_byte-Yields :
      (rounds : ℕ) (b : Buffered Q) (x : ℕ) (xs : List ℕ)
      → IsOpen b
      → served b ≡ x ∷ xs
      → Yields IsOpen served (read_byte source (2 + rounds) b) x xs
  unfolding read_byte
  read_byte-Yields rounds b x xs open_b e =
      let (c, ensured, (r, not_eof), some_there, same) =
        ensure_one rounds b open_b (rw e (omega arith)) in
      let first : served c ≡ x ∷ xs = same ∙ e in
      let byte_there : get_elem? c.buffer c.start ≡ some x =
        get_elem?-window c.buffer (pending c.source) c.start c.available x xs some_there r.inside
          first in
      let k = collect-Collected 1 c some_there r in
      let one : 1 ≤ length (window c) = omega (arith, length-window c r) in
      (
        collect 1 c,
        rw (ensured, byte_there),
        rw (k.window_dropped, k.same_source)
            (sym (drop-append_le 1 (window c) (pending c.source) one) ∙ ap (drop 1) first),
        (k.ready, k.same_eof ∙ not_eof),
      )

  preload_empty :
      (b : Buffered Q) → b.available ≡ 0 → b.at_eof ≡ false → preload source b ≡ load_bytes source b
  unfolding preload
  preload_empty b empty e = rw (le→ltb 0 b.available (omega arith), e) refl

  preload-Loaded :
      (b : Buffered Q)
      → IsOpen b
      → 0 < length (served b)
      → (c : Buffered Q) × (preload source b ≡ returned tt c)
        × (served c ≡ served b)
        × IsOpen c
        × (0 < len c)
  unfolding preload len
  preload-Loaded b (r, e) more = elim (dec_lt 0 b.available) [
    | yes some_there ↦ (b, rw (lt→ltb 0 b.available some_there) refl, refl, (r, e), some_there)
    | no none_there ↦
        let empty : b.available ≡ 0 = omega arith in
        let total = length-append (window b) (pending b.source) in
        let (c, l) =
          load_bytes-Loaded source pending d b r empty (omega (arith, total, length-window b r)) in
        (
          c,
          preload_empty b empty e ∙ l.loaded,
          l.same_content ∙ sym (served_empty b empty),
          (l.ready, l.same_eof ∙ e),
          l.some_bytes,
        )
  ]

  -- A bufferedReader over a source that delivers is a stream of the bytes to come: it serves them in
  -- order, each once, however they are cut into pieces and wherever the window stands in the buffer.
  pub buffered-IsStream : (spare : ℕ) → IsStream (buffered source spare) IsOpen served
  unfolding buffered may_have read len
  buffered-IsStream spare = record {
    has = λ n b open_b h. rw open_b.1;
    serves_byte = λ b x xs open_b e. read_byte-Yields spare b x xs open_b e;
    serves = λ n b open_b h. read_loop-Reads (n + 2 + spare) n [] b open_b h (omega arith);
    len_within =
        λ b (r, e). omega (arith, length-window b r, length-append (window b) (pending b.source));
    preloads = λ b open_b more. preload-Loaded b open_b more;
  }
