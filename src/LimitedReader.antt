-- ===== src/LimitedReader.antt =====
-- buffered_reader.go, limitedBufferedReader: at most `size` more bytes of another reader, which it
-- shares with whoever else holds it.
use sockety_go.Common.{
  true, false, ℕ, zero, suc, ◌-◌, ◌+◌, ◌≤◌, ◌≡◌, refl, sym, ap, ◌∙◌, ◌&&◌, Bool, List, [], ◌∷◌,
  none, some, ltb, leb, ◌==◌, if◌then◌else◌, le→leb, le→ltb, ne→==, returned, ◌<◌, length, take,
  drop, take-take, drop-drop, length-drop, drop-take, length-take, eof, limit_out_of_bounds,
  Outcome, failed, after, M, embed, arith,
}
use sockety_go.Reader.{Read, BufferedReader, IsStream, Yields}

pub record Limited (S : Type 0) : Type 0 where
  pub b : S
  pub size : ℕ

module _ {S : Type 0} (r : BufferedReader S) where
  abbrev inner : Limited S → S → Limited S
  inner l s = record l { b = s }

  unfoldable pub collect : ℕ → M (Limited S) (Unit {0})
  collect size l =
      if ltb l.size size
      then failed limit_out_of_bounds l
      else returned tt (record l { size = l.size - size })

  unfoldable pub len : Limited S → ℕ
  len l = let n = r.len l.b in if ltb n l.size then n else l.size

  unfoldable pub may_have : ℕ → Limited S → Bool
  may_have size l = leb size l.size && r.may_have size l.b

  unfoldable pub read_byte : M (Limited S) ℕ
  read_byte l = after (collect 1 l) λ _ l. embed (inner l) (r.read_byte l.b)

  -- An error of `collect` is `Read`'s error, with nothing read.
  unfoldable pub read : ℕ → M (Limited S) Read
  read n l = elim (collect n l) [
    | returned _ l' ↦ embed (inner l') (r.read n l'.b)
    | failed e l' ↦ returned (record { bytes = []; error = some e }) l'
    | Outcome.panicked p ↦ Outcome.panicked p
    | Outcome.blocked ↦ Outcome.blocked
    | Outcome.stuck ↦ Outcome.stuck
  ]

  unfoldable pub preload : M (Limited S) (Unit {0})
  preload l = if l.size == 0 then failed eof l else embed (inner l) (r.preload l.b)

  -- limitBufferedReader, as a BufferedReader.
  unfoldable pub limited : BufferedReader (Limited S)
  limited = record {
    len = len;
    may_have = may_have;
    read_byte = read_byte;
    read = read;
    preload = preload;
  }

module _ {S : Type 0} (r : BufferedReader S) (Good : S → Type 0) (content : S → List ℕ)
    (stream : IsStream r Good content) (rest : List ℕ) where
  -- A good limit does not reach beyond what the reader has to serve; `rest` is what lies behind it.
  abbrev pub IsWithin : Limited S → Type 0
  IsWithin l = Good l.b × (l.size ≤ length (content l.b)) × (drop l.size (content l.b) ≡ rest)

  abbrev pub front : Limited S → List ℕ
  front l = take l.size (content l.b)

  pub length-front : (l : Limited S) → IsWithin l → length (front l) ≡ l.size
  length-front l good = omega (arith, good, length-take l.size (content l.b))

  -- What `n` bytes less in both leave behind.
  passed :
      (n : ℕ) (l : Limited S) (s : S)
      → IsWithin l
      → n ≤ l.size
      → content s ≡ drop n (content l.b)
      → Good s
      → (take (l.size - n) (content s) ≡ drop n (front l))
        × IsWithin (record { b = s; size = l.size - n })
  passed n l s (good, within, behind) h e g =
      let sum : n + (l.size - n) ≡ l.size = omega arith in
      (
        rw (e, drop-take n l.size (content l.b)),
        (
          g,
          rw e (omega (arith, length-drop n (content l.b))),
          rw (e, drop-drop (l.size - n) n (content l.b), sum) behind,
        ),
      )

  first :
      (n : ℕ) (c : List ℕ) (x : ℕ) (xs : List ℕ)
      → take n c ≡ x ∷ xs
      → (1 ≤ n) × ((zs : List ℕ) × (c ≡ x ∷ zs))
  first zero c x xs e = cc
  first (suc n) [] x xs e = cc
  first (suc n) (y ∷ c) x xs e = (omega arith, (c, ground arith))

  serves_byte :
      (l : Limited S) (x : ℕ) (xs : List ℕ)
      → IsWithin l
      → front l ≡ x ∷ xs
      → Yields IsWithin front (read_byte r l) x xs
  unfolding read_byte collect
  serves_byte l x xs (good, within, behind) e =
      let (some_left, (zs, at_head)) = first l.size (content l.b) x xs e in
      let (s, got, left, g) = stream.serves_byte l.b x zs good at_head in
      let (remaining, ready) =
        passed 1 l s (good, within, behind) some_left (left ∙ ap (drop 1) (sym at_head)) g in
      (
        record { b = s; size = l.size - 1 },
        rw (le→ltb l.size 1 some_left, got),
        remaining ∙ ap (drop 1) e,
        ready,
      )

  read_within :
      (n : ℕ) (l : Limited S) (got : Read) (s : S)
      → n ≤ l.size
      → r.read n l.b ≡ returned got s
      → read r n l ≡ returned got (record { b = s; size = l.size - n })
  unfolding read collect
  read_within n l got s h e =
      let fits : ltb l.size n ≡ false = le→ltb l.size n h in rw (fits, read, collect) (rw e)

  serves :
      (n : ℕ) (l : Limited S)
      → IsWithin l
      → n ≤ length (front l)
      → Yields IsWithin front
          (read r n l)
          (record { bytes = take n (front l); error = none })
          (drop n (front l))
  serves n l (good, within, behind) h =
      let some_left : n ≤ l.size = rw (length-front l (good, within, behind)) at h in
      let (s, got, left, g) = stream.serves n l.b good (omega arith) in
      let (remaining, ready) = passed n l s (good, within, behind) some_left left g in
      (
        record { b = s; size = l.size - n },
        read_within n l _ s some_left got
            ∙ ap
                (λ bs.
                  returned (record { bytes = bs; error = none })
                    (record { b = s; size = l.size - n }))
                (sym (take-take n l.size (content l.b) some_left)),
        remaining,
        ready,
      )

  preloads :
      (l : Limited S)
      → IsWithin l
      → 0 < length (front l)
      → (m : Limited S) × (preload r l ≡ returned tt m)
        × (front m ≡ front l)
        × IsWithin m
        × (0 < len r m)
  unfolding preload len
  preloads l good more =
      let total = length-front l good in
      let (s, loaded, same, ready, some_there) =
        stream.preloads l.b good.0 (omega (arith, good, total)) in
      let there : (l.size == 0) ≡ false = ne→== l.size 0 (omega arith) in
      (
        inner r l s,
        rw (there, loaded) refl,
        ap (take l.size) same,
        (ready, rw same (good.1), ap (drop l.size) same ∙ good.2),
        ground arith,
      )

  -- A limited reader, up to its size, is a stream of the first `size` bytes of its reader's.
  pub limited-IsStream : IsStream (limited r) IsWithin front
  unfolding limited may_have len
  limited-IsStream = record {
    has = λ n l good h.
        let some_left : n ≤ l.size = rw (length-front l good) at h in
        rw (le→leb n l.size some_left) (stream.has n l.b good.0 (omega (arith, good)));
    serves_byte = serves_byte;
    serves = serves;
    len_within = λ l good. ground (arith, length-front l good, stream.len_within l.b good.0);
    preloads = preloads;
  }

  -- What a limited reader `l` says to `n` bytes that are more than its limit.
  abbrev Refuses : ℕ → Limited S → Type 0
  Refuses n l =
      (may_have r n l ≡ false)
      × (read r n l ≡ returned (record { bytes = []; error = some limit_out_of_bounds }) l)

  -- What a limited reader `l` with nothing left says.
  abbrev Empty : Limited S → Type 0
  Empty l =
      (len r l ≡ 0) × (read_byte r l ≡ failed limit_out_of_bounds l) × (preload r l ≡ failed eof l)

  refuses : (n : ℕ) (l : Limited S) → l.size < n → Refuses n l
  unfolding may_have read collect
  refuses n l h =
      let over : ltb l.size n ≡ true = ground arith in
      let short : leb n l.size ≡ false = ground arith in (rw short refl, rw (over, read) refl)

  empty : (l : Limited S) → l.size ≡ 0 → Empty l
  unfolding len read_byte preload collect
  empty l e = (ground arith, rw e refl, rw e refl)

  -- A limited reader on a reader that is a stream is a stream of the first `size` bytes of the reader's, and
  -- leaves those behind them to the reader. It has no more: to more bytes than its size MayHave says no, and Read
  -- returns ErrLimitOutOfBounds with no byte and changes nothing, wherever the reader stands. With nothing left its
  -- length is 0, ReadByte fails with ErrLimitOutOfBounds and Preload with io.EOF, and nothing changes.
  pub limited-IsLimited :
      (n : ℕ) (l spent : Limited S)
      → l.size < n
      → spent.size ≡ 0
      → IsStream (limited r) IsWithin front × Refuses n l × Empty spent
  limited-IsLimited n l spent h e = (limited-IsStream, refuses n l h, empty spent e)
