-- ===== src/BufferedReader/Window.antt =====
-- buffered_reader.go: what the window of the buffer holds, and what `collect` and `loadBytes` do to it.
use sockety_go.Common.{
  ℕ, suc, ◌+◌, ◌-◌, ◌%◌, ◌^◌, ◌≤◌, ◌<◌, ◌≡◌, inl, inr, refl, sym, ap, ◌∙◌, List, [], ◌∷◌, ◌++◌,
  arith, none, length, take, drop, take-append, length-take, length-drop, drop-drop, drop-take,
  returned, le→leb, ok, ◌==◌, Bool-cases, ==_iff,
}
use sockety_go.ByteUtils.{from, copy}
use sockety_go.ByteUtils.Positions.{copy-append}
use sockety_go.BufferedReader.{Reply, Buffered, collect, load_bytes}

from_zero : (b : List ℕ) → from b 0 ≡ ok b
unfolding from
from_zero b = rw (le→leb 0 (length b) (omega arith))

length-copy : (dst src : List ℕ) → length (copy dst src) ≡ length dst
unfolding copy
length-copy [] src = refl
length-copy (x ∷ dst) [] = refl
length-copy (x ∷ dst) (y ∷ src) = ap suc (length-copy dst src)

-- What an io.Reader over a stream answers while there are bytes to come: some of them, in order, at
-- most as many as asked for, and no error. `pending` is all that the source has yet to deliver.
pub record Delivers {Q : Type 0} (source : Q → ℕ → Reply Q) (pending : Q → List ℕ) : Type 0 where
  pub no_error : (q : Q) (n : ℕ) → 0 < n → 0 < length (pending q) → (source q n).error ≡ none
  pub some_bytes : (q : Q) (n : ℕ) → 0 < n → 0 < length (pending q) → 0 < length (source q n).bytes
  pub at_most : (q : Q) (n : ℕ) → length (source q n).bytes ≤ n
  pub in_order : (q : Q) (n : ℕ) → (source q n).bytes ++ pending (source q n).next ≡ pending q

module _ {Q : Type 0} where
  abbrev pub window : Buffered Q → List ℕ
  window b = take b.available (drop b.start b.buffer)

  pub record IsReady (b : Buffered Q) : Type 0 where
    pub inside : b.start + b.available ≤ length b.buffer
    pub sized : 16 ≤ length b.buffer
    pub short : length b.buffer < 2 ^ 64
    pub rewound : (b.available ≡ 0) → (b.start ≡ 0)

  pub length-window : (b : Buffered Q) → IsReady b → length (window b) ≡ b.available
  length-window b r = omega (
    arith,
    r.inside,
    length-take b.available (drop b.start b.buffer),
    length-drop b.start b.buffer,
  )

  -- `collect k` takes k bytes off the window.
  pub record Collected (k : ℕ) (b c : Buffered Q) : Type 0 where
    pub ready : IsReady c
    pub window_dropped : window c ≡ drop k (window b)
    pub available_less : c.available + k ≡ b.available
    pub same_source : c.source ≡ b.source
    pub same_eof : c.at_eof ≡ b.at_eof

  pub collect-Collected :
      (k : ℕ) (b : Buffered Q) → k ≤ b.available → IsReady b → Collected k b (collect k b)
  unfolding collect
  collect-Collected k b h r =
      let exact : (b.available + 2 ^ 64 - k) % 2 ^ 64 ≡ b.available - k =
        omega (arith, r.inside, r.short) in
      let later : drop k (window b) ≡ take (b.available - k) (drop (b.start + k) b.buffer) =
        drop-take k b.available (drop b.start b.buffer)
        ∙ ap (take (b.available - k)) (drop-drop k b.start b.buffer) in
      rw exact (elim (Bool-cases (b.available - k == 0)) [
        | inl e ↦
            let z : b.available - k ≡ 0 = (==_iff _ 0).0 e in
            rw (e, z)
              (record {
                ready = record {
                  inside = omega (arith, r.sized);
                  sized = r.sized;
                  short = r.short;
                  rewound = λ _. refl;
                };
                window_dropped = sym (rw z at later);
                available_less = omega arith;
                same_source = refl;
                same_eof = refl;
              })
        | inr e ↦ rw e (record {
          ready = record {
            inside = omega (arith, r.inside);
            sized = r.sized;
            short = r.short;
            rewound = λ z. cc ((==_iff _ 0).1 z);
          };
          window_dropped = sym later;
          available_less = omega arith;
          same_source = refl;
          same_eof = refl;
        })
      ])

module _ {Q : Type 0} (source : Q → ℕ → Reply Q) (pending : Q → List ℕ)
    (d : Delivers source pending) where
  -- What the reader has yet to serve: its window, then what the source has yet to deliver.
  abbrev pub content : Buffered Q → List ℕ
  content b = window b ++ pending b.source

  pub record Loaded (b c : Buffered Q) : Type 0 where
    pub loaded : load_bytes source b ≡ returned tt c
    pub ready : IsReady c
    pub some_bytes : 0 < c.available
    pub same_content : content c ≡ pending b.source
    pub same_eof : c.at_eof ≡ b.at_eof

  -- With nothing in the window a load fills it from its front, with some of the bytes to come.
  pub load_bytes-Loaded :
      (b : Buffered Q)
      → IsReady b
      → b.available ≡ 0
      → 0 < length (pending b.source)
      → (c : Buffered Q) × Loaded b c
  unfolding load_bytes
  load_bytes-Loaded b r empty more =
      let reply = source b.source (length b.buffer) in
      let room : 0 < length b.buffer = omega (arith, r.sized) in
      let fits : length reply.bytes ≤ length b.buffer = d.at_most b.source (length b.buffer) in
      let refilled : copy b.buffer reply.bytes ≡ reply.bytes ++ drop (length reply.bytes) b.buffer =
        copy-append b.buffer reply.bytes fits in
      let position : b.start + b.available ≡ 0 = omega (arith, r.rewound empty) in
      let counted : b.available + length reply.bytes ≡ length reply.bytes = omega arith in
      let length_kept : length (copy b.buffer reply.bytes) ≡ length b.buffer =
        length-copy b.buffer reply.bytes in
      let c : Buffered Q = record b {
        source = reply.next;
        buffer = copy b.buffer reply.bytes;
        available = b.available + length reply.bytes;
      } in
      (
        c,
        record {
          loaded =
              rw (position, from_zero b.buffer, d.no_error b.source (length b.buffer) room more)
                (rw position);
          ready = record {
            inside = omega (arith, length_kept, r.rewound empty);
            sized = rw length_kept r.sized;
            short = rw length_kept r.short;
            rewound = λ _. r.rewound empty;
          };
          some_bytes = omega (arith, d.some_bytes b.source (length b.buffer) room more);
          same_content =
              rw
                (
                  counted,
                  r.rewound empty,
                  refilled,
                  take-append reply.bytes (drop (length reply.bytes) b.buffer) (length reply.bytes)
                      refl,
                )
                (d.in_order b.source (length b.buffer));
          same_eof = refl;
        },
      )
