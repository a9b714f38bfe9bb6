-- ===== src/Parser/Data.antt =====
-- parser.go, `Read`, on a data packet: what can be had of it goes to the data of the current channel's
-- message, and the next calls go on with the rest.
use sockety_go.Common.{
  ℕ, suc, ◌+◌, ◌≤◌, ◌<◌, ◌≡◌, ◌≢◌, refl, sym, ap, ◌∙◌, Bool-cases, true, false, List, ◌++◌, arith,
  Option, none, some, ◌==◌, ne→==, lt→ltb, length, length-append, drop, take-append, drop-append,
  take-append-drop, inl, inr, returned,
}
use sockety_go.MessageData.{MessageData}
use sockety_go.MessageData.Queue.{IsSound, Grown}
use sockety_go.LimitedReader
use sockety_go.LimitedReader.{Limited, limited, IsWithin, front, length-front, limited-IsStream}
use sockety_go.Reader.{BufferedReader, IsStream}
use sockety_go.ParserChannel.{ParserChannel, maybe_end, process_data}
use sockety_go.ParserChannel.Data.{process_data-Receives}
use sockety_go.Parser.{Parser, update, sub_data, read_sub, read, sub_parser_mode_data}
use sockety_go.Parser.Messages.{on_sub_lem, same}
use sockety_go.Parser.Sizes.{IsReading}

module _ {S : Type 0} (r : BufferedReader S) (Good : S → Type 0) (content : S → List ℕ)
    (stream : IsStream r Good content) (from_bytes : List ℕ → Option (List ℕ)) where
  -- The parser is in a data packet on channel `ch`, with `left` still to come of it, and `tail` behind it.
  pub record InData (ch : ℕ) (c : ParserChannel) (d : MessageData) (left tail : List ℕ)
      (p : Parser S) : Type 0 where
    pub on_channel_id : p.current_channel ≡ some ch
    pub channel_is : p.channels ch ≡ some c
    pub holds : c.content ≡ some d
    pub sound : IsSound d
    pub missing : d.wrote < d.size
    pub fits : d.wrote + length left ≤ d.size
    pub size_is : p.sub_size ≡ length left
    pub reading : IsReading r Good content stream from_bytes (left ++ tail) p

  -- `q` is `p` with some bytes of the packet in the data, and `rest` still to come.
  pub record Took (ch : ℕ) (c : ParserChannel) (d : MessageData) (left tail : List ℕ)
      (p q : Parser S) : Type 0 where
    pub taken : List ℕ
    pub rest : List ℕ
    pub now : MessageData
    pub split : left ≡ taken ++ rest
    pub grown : Grown taken d now
    pub on_channel_id : q.current_channel ≡ some ch
    pub channel_is : q.channels ch ≡ some (maybe_end (record c { content = some now }))
    pub size_is : q.sub_size ≡ length rest
    pub same_mode : q.sub_mode ≡ p.sub_mode
    pub reading : IsReading r Good content stream from_bytes (rest ++ tail) q
    pub same_count : q.channels_count ≡ p.channels_count
    pub others : (j : ℕ) → j ≢ ch → q.channels j ≡ p.channels j

  abbrev sub_of : Parser S → Limited S
  sub_of p = record { b = p.reader; size = p.sub_size }

  sub-IsWithin :
      (ch : ℕ) (c : ParserChannel) (d : MessageData) (left tail : List ℕ) (p : Parser S)
      → InData ch c d left tail p
      → IsWithin r Good content stream tail (sub_of p)
        × (front r Good content stream tail (sub_of p) ≡ left)
  sub-IsWithin ch c d left tail p h = (
    (
      h.reading.good,
      rw (h.size_is, h.reading.has_left) (omega (arith, length-append left tail)),
      rw (h.size_is, h.reading.has_left) (drop-append left tail (length left) refl),
    ),
    rw (h.size_is, h.reading.has_left) (take-append left tail (length left) refl),
  )

  pub sub_data-Took :
      (ch : ℕ) (c : ParserChannel) (d : MessageData) (left tail : List ℕ) (p : Parser S)
      → InData ch c d left tail p
      → (q : Parser S) × (sub_data r from_bytes p ≡ returned none q)
        × (t : Took ch c d left tail p q) × (0 < LimitedReader.len r (sub_of p)
            → 0 < length t.taken)
  unfolding sub_data limited
  sub_data-Took ch c d left tail p h =
      let (within, whole) = sub-IsWithin ch c d left tail p h in
      let (x, done, got) =
        process_data-Receives (limited r) (IsWithin r Good content stream tail)
          (front r Good content stream tail) (limited-IsStream r Good content stream tail)
          from_bytes (suc p.sub_size) (record { channel = c; source = sub_of p }) d h.holds h.sound
          h.missing within (rw whole h.fits) (rw whole (omega (arith, h.size_is))) in
      let q : Parser S = record p {
        channels = update p.channels ch x.channel;
        reader = x.source.b;
        sub_size = x.source.size;
      } in
      (
        q,
        rw
            (on_sub_lem (process_data (limited r) from_bytes (suc p.sub_size)) p ch c tt x
              h.on_channel_id h.channel_is done)
            refl,
        record {
          taken = got.taken;
          rest = front r Good content stream tail x.source;
          now = got.now;
          split = sym whole ∙ got.split;
          grown = got.grown;
          on_channel_id = h.on_channel_id;
          channel_is = rw (same ch) (ap some got.channel_is);
          size_is = sym (length-front r Good content stream tail x.source got.good);
          same_mode = refl;
          reading = record {
            size16_rests = h.reading.size16_rests;
            size24_rests = h.reading.size24_rests;
            good = got.good.0;
            has_left =
                sym (take-append-drop x.source.size (content x.source.b))
                ∙ ap (λ l. front r Good content stream tail x.source ++ l) got.good.2;
          };
          same_count = refl;
          others = λ j ne. rw (ne→== j ch ne) refl;
        },
        got.some_taken,
      )

  at_limited : Parser S → Limited S → Parser S
  at_limited p l = record p { reader = l.b; sub_size = l.size }

  -- Some of the packet is there, or the parser waits for some.
  ready_sub :
      (p : Parser S)
      → p.sub_mode ≡ sub_parser_mode_data
      → (LimitedReader.len r (sub_of p) == 0) ≡ false
      → read_sub r from_bytes p ≡ sub_data r from_bytes p
  unfolding read_sub
  ready_sub p mode some_there = rw (some_there, mode) refl

  waiting_sub :
      (p : Parser S) (l : Limited S)
      → p.sub_mode ≡ sub_parser_mode_data
      → (LimitedReader.len r (sub_of p) == 0) ≡ true
      → LimitedReader.preload r (sub_of p) ≡ returned tt l
      → read_sub r from_bytes p ≡ sub_data r from_bytes (at_limited p l)
  unfolding read_sub at_limited
  waiting_sub p l mode none_there loaded = rw (none_there, loaded, mode) refl

  in_packet :
      (rounds : ℕ) (p : Parser S)
      → r.may_have 1 p.reader ≡ true
      → 0 < p.sub_size
      → read r from_bytes rounds p ≡ read_sub r from_bytes p
  unfolding read
  in_packet rounds p there in_sub = rw (there, lt→ltb 0 p.sub_size in_sub) refl

  loaded-InData :
      (ch : ℕ) (c : ParserChannel) (d : MessageData) (left tail : List ℕ) (p : Parser S)
      (l : Limited S)
      → InData ch c d left tail p
      → front r Good content stream tail l ≡ left
      → IsWithin r Good content stream tail l
      → InData ch c d left tail (at_limited p l)
  unfolding at_limited
  loaded-InData ch c d left tail p l h whole within = record {
    on_channel_id = h.on_channel_id;
    channel_is = h.channel_is;
    holds = h.holds;
    sound = h.sound;
    missing = h.missing;
    fits = h.fits;
    size_is = sym (length-front r Good content stream tail l within) ∙ ap length whole;
    reading = record {
      size16_rests = h.reading.size16_rests;
      size24_rests = h.reading.size24_rests;
      good = within.0;
      has_left =
          sym (take-append-drop l.size (content l.b))
          ∙ ap (λ x. x ++ drop l.size (content l.b)) whole
          ∙ ap (λ x. left ++ x) within.2;
    };
  }

  -- What the parser has taken since it loaded, it has taken since before.
  Took-loaded :
      (ch : ℕ) (c : ParserChannel) (d : MessageData) (left tail : List ℕ) (p : Parser S)
      (l : Limited S) (q : Parser S)
      → Took ch c d left tail (at_limited p l) q
      → Took ch c d left tail p q
  unfolding at_limited
  Took-loaded ch c d left tail p l q t = record {
    taken = t.taken;
    rest = t.rest;
    now = t.now;
    split = t.split;
    grown = t.grown;
    on_channel_id = t.on_channel_id;
    channel_is = t.channel_is;
    size_is = t.size_is;
    same_mode = t.same_mode;
    reading = t.reading;
    same_count = t.same_count;
    others = t.others;
  }

  -- One call in the middle of a data packet takes some byte of it at least.
  pub read-Took :
      (rounds ch : ℕ) (c : ParserChannel) (d : MessageData) (left tail : List ℕ) (p : Parser S)
      → InData ch c d left tail p
      → p.sub_mode ≡ sub_parser_mode_data
      → 0 < length left
      → (q : Parser S) × (read r from_bytes rounds p ≡ returned none q)
        × (t : Took ch c d left tail p q) × (0 < length t.taken)
  unfolding limited at_limited Took-loaded
  read-Took rounds ch c d left tail p h mode some_left =
      let (within, whole) = sub-IsWithin ch c d left tail p h in
      let there : r.may_have 1 p.reader ≡ true =
        stream.has 1 p.reader h.reading.good
          (rw h.reading.has_left (omega (arith, length-append left tail))) in
      let begun = in_packet rounds p there (omega (arith, h.size_is)) in
      elim (Bool-cases (LimitedReader.len r (sub_of p) == 0)) [
        | inr some_there ↦
            let (q, done, t, took) = sub_data-Took ch c d left tail p h in
            (q, begun ∙ ready_sub p mode some_there ∙ done, t, took (ground arith))
        | inl none_there ↦
            let limited_stream = limited-IsStream r Good content stream tail in
            let (l, loaded, kept, within', now_there) =
              limited_stream.preloads (sub_of p) within (rw whole some_left) in
            let (q, done, t, took) =
              sub_data-Took ch c d left tail (at_limited p l)
                (loaded-InData ch c d left tail p l h (kept ∙ whole) within') in
            (
              q,
              begun ∙ waiting_sub p l mode none_there loaded ∙ done,
              Took-loaded ch c d left tail p l q t,
              took now_there,
            )
      ]
