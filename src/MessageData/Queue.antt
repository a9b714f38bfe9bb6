-- ===== src/MessageData/Queue.antt =====
-- message_data.go: the pieces in the queue as the bytes that are still to be read.
use sockety_go.Common.{
  ℕ, ◌+◌, ◌-◌, ◌%◌, ◌^◌, ◌≤◌, ◌<◌, ◌≡◌, refl, sym, ap, subst, ◌∙◌, true, false, List, [], ◌∷◌, ◌++◌,
  append-nil, append_assoc, arith, none, some, ltb, ◌==◌, if◌then◌else◌, length, length-append,
  take, drop, take-append-drop, drop-append_le, drop-drop, length-take, length-drop, Bool-cases,
  inl, inr, lt→ltb, le→ltb, ltb→lt, ne→==, malformed_size, Panic, close_of_closed_channel,
  send_on_closed_channel, if_false, returned, failed, panicked, blocked, eof,
}
use sockety_go.MessageData.{MessageData, close_ch, wake, push, read, read_piece}

-- The bytes of the pieces, in order.
abbrev pub joined : List (List ℕ) → List ℕ
joined [] = []
joined (piece ∷ pieces) = piece ++ joined pieces

joined-append : (xs : List (List ℕ)) (p : List ℕ) → joined (xs ++ (p ∷ [])) ≡ joined xs ++ p
joined-append [] p = append-nil p
joined-append (x ∷ xs) p =
    ap (λ l. x ++ l) (joined-append xs p) ∙ sym (append_assoc x (joined xs) p)

-- What is received and not yet read.
abbrev pub unread : MessageData → List ℕ
unread m = drop m.buf_offset (joined m.buf)

-- The offset lies in the first piece, if there is one.
abbrev pub IsOffset : ℕ → List (List ℕ) → Type 0
IsOffset offset [] = offset ≡ 0
IsOffset offset (piece ∷ pieces) = offset ≤ length piece

-- The data is being received: some of it is missing.
pub record IsReceiving (m : MessageData) : Type 0 where
  pub no_error : m.error ≡ none
  pub not_closed : m.closed ≡ false
  pub missing : m.wrote < m.size
  pub sized : m.size < 2 ^ 64
  pub offset : IsOffset m.buf_offset m.buf

IsOffset-append :
    (o : ℕ) (buf : List (List ℕ)) (p : List ℕ) → IsOffset o buf → IsOffset o (buf ++ (p ∷ []))
IsOffset-append o [] p h = omega arith
IsOffset-append o (x ∷ xs) p h = h

IsOffset-zero : (buf : List (List ℕ)) → IsOffset 0 buf
IsOffset-zero [] = refl
IsOffset-zero (x ∷ xs) = omega arith

offset_within : (o : ℕ) (buf : List (List ℕ)) → IsOffset o buf → o ≤ length (joined buf)
offset_within o [] h = omega arith
offset_within o (x ∷ xs) h = omega (arith, length-append x (joined xs))

-- The data of a message at any time before a piece that is too long.
pub record IsSound (m : MessageData) : Type 0 where
  pub no_error : m.error ≡ none
  pub closed_when : m.closed ≡ (m.wrote == m.size)
  pub within : m.wrote ≤ m.size
  pub sized : m.size < 2 ^ 64
  pub offset : IsOffset m.buf_offset m.buf

-- `m'` is `m` with the bytes `p` behind those that are still to be read.
pub record Grown (p : List ℕ) (m m' : MessageData) : Type 0 where
  pub sound : IsSound m'
  pub unread_is : unread m' ≡ unread m ++ p
  pub counted : m'.wrote ≡ m.wrote + length p
  pub same_size : m'.size ≡ m.size

pub IsSound-IsReceiving : (m : MessageData) → IsSound m → m.wrote < m.size → IsReceiving m
IsSound-IsReceiving m s missing = record {
  no_error = s.no_error;
  not_closed = s.closed_when ∙ ne→== m.wrote m.size (omega arith);
  missing = missing;
  sized = s.sized;
  offset = s.offset;
}

pub Grown-none : (m : MessageData) → IsSound m → Grown [] m m
Grown-none m s = record {
  sound = s;
  unread_is = sym (append-nil (unread m));
  counted = omega arith;
  same_size = refl;
}

pub Grown-append :
    (p q : List ℕ) (m m' m'' : MessageData) → Grown p m m' → Grown q m' m'' → Grown (p ++ q) m m''
Grown-append p q m m' m'' g h = record {
  sound = h.sound;
  unread_is = h.unread_is ∙ ap (λ l. l ++ q) g.unread_is ∙ append_assoc (unread m) p q;
  counted = omega (arith, g.counted, h.counted, length-append p q);
  same_size = h.same_size ∙ g.same_size;
}

wake_open : (m : MessageData) → m.closed ≡ false → wake m ≡ returned tt m
unfolding wake
wake_open m still_open = if_false still_open _ _

-- A piece that is not too long is behind the bytes that are still to be read. The data is complete, and
-- its channel closed, exactly when all the announced bytes are there.
pub push-unread :
    (p : List ℕ) (m : MessageData)
    → IsReceiving m
    → m.wrote + length p ≤ m.size
    → (m' : MessageData) × (push p m ≡ returned tt m')
      × (unread m' ≡ unread m ++ p)
      × (m'.wrote ≡ m.wrote + length p)
      × (m'.closed ≡ (m'.wrote == m'.size))
      × (m'.size ≡ m.size)
      × (m'.error ≡ none)
      × IsOffset m'.buf_offset m'.buf
unfolding push close_ch
push-unread p m h fits =
    let wrote : (m.wrote + length p) % 2 ^ 64 ≡ m.wrote + length p = omega (arith, h.sized) in
    let added : unread (record m { buf = m.buf ++ (p ∷ []) }) ≡ unread m ++ p =
      ap (drop m.buf_offset) (joined-append m.buf p)
      ∙ drop-append_le m.buf_offset (joined m.buf) p (offset_within m.buf_offset m.buf h.offset) in
    let placed = IsOffset-append m.buf_offset m.buf p h.offset in
    rw (wrote, le→ltb m.size (m.wrote + length p) fits)
      (elim (Bool-cases (m.wrote + length p == m.size)) [
        | inl all ↦ (
          record m { buf = m.buf ++ (p ∷ []); wrote = m.wrote + length p; closed = true },
          rw (all, h.not_closed) refl,
          added,
          refl,
          sym all,
          refl,
          h.no_error,
          placed,
        )
        | inr part ↦ (
          record m { buf = m.buf ++ (p ∷ []); wrote = m.wrote + length p },
          rw part (
              wake_open (record m { buf = m.buf ++ (p ∷ []); wrote = m.wrote + length p })
                h.not_closed),
          added,
          refl,
          h.not_closed ∙ sym part,
          refl,
          h.no_error,
          placed,
        )
      ])

pub push-Grown :
    (p : List ℕ) (m : MessageData)
    → IsSound m
    → m.wrote < m.size
    → m.wrote + length p ≤ m.size
    → (m' : MessageData) × (push p m ≡ returned tt m') × Grown p m m'
push-Grown p m s missing fits =
    let (m', pushed, unread_is, counted, closed, same_size, no_error, offset) =
      push-unread p m (IsSound-IsReceiving m s missing) fits in
    (
      m',
      pushed,
      record {
        sound = record {
          no_error = no_error;
          closed_when = closed;
          within = omega (arith, counted, same_size);
          sized = omega (arith, same_size, s.sized);
          offset = offset;
        };
        unread_is = unread_is;
        counted = counted;
        same_size = same_size;
      },
    )

-- The data after a piece that was too long.
abbrev pub malformed : MessageData → MessageData
malformed m = record m { error = some malformed_size; closed = true }

close_ch_open :
    (m : MessageData) → m.closed ≡ false → close_ch m ≡ returned tt (record m { closed = true })
unfolding close_ch
close_ch_open m still_open = if_false still_open _ _

first_too_long :
    (p : List ℕ) (m : MessageData)
    → m.closed ≡ false
    → m.wrote + length p < 2 ^ 64
    → m.size < m.wrote + length p
    → push p m ≡ failed malformed_size (malformed m)
unfolding push
first_too_long p m still_open short long =
    let wrote : (m.wrote + length p) % 2 ^ 64 ≡ m.wrote + length p = omega arith in
    rw
      (
        wrote,
        lt→ltb m.size (m.wrote + length p) long,
        close_ch_open (record m { error = some malformed_size }) still_open,
      )
      refl

-- Each of the three ends of `push` meets the closed channel.
push-malformed : (q : List ℕ) (m : MessageData) → (x : Panic) × (push q (malformed m) ≡ panicked x)
unfolding push close_ch wake
push-malformed q m = elim (Bool-cases (ltb m.size ((m.wrote + length q) % 2 ^ 64))) [
  | inl long ↦ (close_of_closed_channel, rw long refl)
  | inr short ↦ elim (Bool-cases ((m.wrote + length q) % 2 ^ 64 == m.size)) [
    | inl all ↦ (close_of_closed_channel, rw (short, all) refl)
    | inr part ↦ (send_on_closed_channel, rw (short, part) refl)
  ]
]

-- A piece that exceeds the announced size, on data whose channel is not closed, is refused with an error;
-- every later read returns this error, and every later push, of whatever piece, panics on the closed
-- channel in place of an error.
pub push_too_long :
    (p q : List ℕ) (n : ℕ) (m : MessageData)
    → m.closed ≡ false
    → m.wrote + length p < 2 ^ 64
    → m.size < m.wrote + length p
    → (m' : MessageData) × (push p m ≡ failed malformed_size m')
      × (read n m' ≡ failed malformed_size m')
      × ((x : Panic) × (push q m' ≡ panicked x))
unfolding read
push_too_long p q n m still_open short long =
    (malformed m, first_too_long p m still_open short long, refl, push-malformed q m)

-- What Read does where there is no error and some piece.
some_piece :
    (n : ℕ) (piece : List ℕ) (pieces : List (List ℕ)) (m : MessageData)
    → m.error ≡ none
    → m.buf ≡ piece ∷ pieces
    → read n m ≡ read_piece n piece pieces m
unfolding read
some_piece n piece pieces m fine e =
    ap
      (λ o. elim o [
        | some x ↦ failed x m
        | none ↦ elim m.buf [
          | [] ↦ if m.size == m.wrote then failed eof m else blocked
          | p ∷ ps ↦ read_piece n p ps m
        ]
      ])
      fine
    ∙ ap
        (λ b. elim b [
          | [] ↦ if m.size == m.wrote then failed eof m else blocked
          | p ∷ ps ↦ read_piece n p ps m
        ])
        e

-- With some piece in the queue, Read takes bytes off the front of those still to be read, at most as many
-- as asked for, and leaves the rest.
pub read-unread :
    (n : ℕ) (piece : List ℕ) (pieces : List (List ℕ)) (m : MessageData)
    → m.error ≡ none
    → m.buf ≡ piece ∷ pieces
    → m.buf_offset ≤ length piece
    → (bs : List ℕ) × (m' : MessageData) × (read n m ≡ returned bs m')
      × (unread m ≡ bs ++ unread m')
      × (length bs ≤ n)
      × IsOffset m'.buf_offset m'.buf
unfolding read_piece
read-unread n piece pieces m fine e within =
    let here : unread m ≡ drop m.buf_offset piece ++ joined pieces =
      ap (λ b. drop m.buf_offset (joined b)) e
      ∙ drop-append_le m.buf_offset piece (joined pieces) within in
    let step = some_piece n piece pieces m fine e in
    elim (Bool-cases (ltb n (length piece - m.buf_offset))) [
      | inl part ↦
          let shorter : n < length piece - m.buf_offset = ltb→lt n _ part in
          let later : unread (record m { buf_offset = m.buf_offset + n })
              ≡ drop n (drop m.buf_offset piece) ++ joined pieces =
            ap (λ b. drop (m.buf_offset + n) (joined b)) e
            ∙ drop-append_le (m.buf_offset + n) piece (joined pieces) (omega arith)
            ∙ ap (λ l. l ++ joined pieces) (sym (drop-drop n m.buf_offset piece)) in
          (
            take n (drop m.buf_offset piece),
            record m { buf_offset = m.buf_offset + n },
            step ∙ rw part refl,
            here
                ∙ ap (λ l. l ++ joined pieces) (sym (take-append-drop n (drop m.buf_offset piece)))
                ∙ append_assoc (take n (drop m.buf_offset piece)) (drop n (drop m.buf_offset piece))
                    (joined pieces)
                ∙ ap (λ l. take n (drop m.buf_offset piece) ++ l) (sym later),
            omega (arith, length-take n (drop m.buf_offset piece)),
            subst (IsOffset (m.buf_offset + n)) (sym e) (omega arith),
          )
      | inr all ↦ (
        drop m.buf_offset piece,
        record m { buf_offset = 0; buf = pieces },
        step ∙ rw all refl,
        here,
        ground (arith, length-drop m.buf_offset piece),
        IsOffset-zero pieces,
      )
    ]
