-- ===== src/Parser/DataCalls.antt =====
-- parser.go: several calls of `Read` on the packet of a message's data.
use sockety_go.Common.{
  ℕ, zero, suc, ◌+◌, ◌<◌, ◌≡◌, ◌≢◌, refl, sym, ap, subst, ◌∙◌, Bool-cases, false, List, [], ◌∷◌,
  ◌++◌, append-nil, arith, Option, none, some, ◌==◌, ==_iff, ne→==, if◌then◌else◌, length,
  length-append, inl, inr, Outcome, returned, after, M,
}
use sockety_go.MessageData.{MessageData}
use sockety_go.MessageData.Queue.{Grown, Grown-append}
use sockety_go.Reader.{BufferedReader, IsStream}
use sockety_go.ParserChannel.{ParserChannel, maybe_end}
use sockety_go.ParserChannel.Data.{missing_data}
use sockety_go.Parser.{Parser, read, sub_parser_mode_data}
use sockety_go.Parser.Sizes.{IsReading}
use sockety_go.Parser.Data.{InData, Took, read-Took}

module _ {S : Type 0} (r : BufferedReader S) (Good : S → Type 0) (content : S → List ℕ)
    (stream : IsStream r Good content) (from_bytes : List ℕ → Option (List ℕ)) where
  -- What is not complete keeps its channel.
  maybe_end-missing :
      (c : ParserChannel) (now : MessageData)
      → now.wrote < now.size
      → maybe_end (record c { content = some now }) ≡ record c { content = some now }
  unfolding maybe_end
  maybe_end-missing c now missing =
      rw
        (missing_data r Good content stream from_bytes (record c { content = some now }) now refl
          missing)
        refl

  -- With bytes still to come of the packet, the parser is in it as before.
  Took-InData :
      (ch : ℕ) (c : ParserChannel) (d : MessageData) (left tail : List ℕ) (p q : Parser S)
      → InData r Good content stream from_bytes ch c d left tail p
      → (t : Took r Good content stream from_bytes ch c d left tail p q) → 0 < length t.rest
      → InData r Good content stream from_bytes ch
          (record c { content = some t.now })
          t.now
          t.rest
          tail
          q
  Took-InData ch c d left tail p q h t more =
      let total : length left ≡ length t.taken + length t.rest =
        ap length t.split ∙ length-append t.taken t.rest in
      let missing : t.now.wrote < t.now.size =
        omega (arith, t.grown.counted, t.grown.same_size, h.fits) in
      record {
        on_channel_id = t.on_channel_id;
        channel_is = t.channel_is ∙ ap some (maybe_end-missing c t.now missing);
        holds = refl;
        sound = t.grown.sound;
        missing = missing;
        fits = omega (arith, t.grown.counted, t.grown.same_size, h.fits);
        size_is = t.size_is;
        reading = t.reading;
      }

  -- The parser is behind the packet: all bytes of the packet are in the data, and the channel is free if the
  -- data is complete and no stream is open.
  pub record Finished (ch : ℕ) (c : ParserChannel) (d : MessageData) (left tail : List ℕ)
      (p q : Parser S) : Type 0 where
    pub now : MessageData
    pub grown : Grown left d now
    pub on_channel_id : q.current_channel ≡ some ch
    pub channel_is : q.channels ch ≡ some (maybe_end (record c { content = some now }))
    pub no_packet : q.sub_size ≡ 0
    pub reading : IsReading r Good content stream from_bytes tail q
    pub same_count : q.channels_count ≡ p.channels_count
    pub others : (j : ℕ) → j ≢ ch → q.channels j ≡ p.channels j

  Took-Finished :
      (ch : ℕ) (c : ParserChannel) (d : MessageData) (left tail : List ℕ) (p q : Parser S)
      → (t : Took r Good content stream from_bytes ch c d left tail p q) → t.rest ≡ []
      → Finished ch c d left tail p q
  Took-Finished ch c d left tail p q t all = record {
    now = t.now;
    grown =
        subst (λ l. Grown l d t.now)
          (sym (t.split ∙ ap (λ l. t.taken ++ l) all ∙ append-nil t.taken)) t.grown;
    on_channel_id = t.on_channel_id;
    channel_is = t.channel_is;
    no_packet = t.size_is ∙ ap length all;
    reading = subst (λ l. IsReading r Good content stream from_bytes (l ++ tail) q) all t.reading;
    same_count = t.same_count;
    others = t.others;
  }

  Finished-later :
      (ch : ℕ) (c : ParserChannel) (d : MessageData) (left tail : List ℕ) (p q u : Parser S)
      → (t : Took r Good content stream from_bytes ch c d left tail p q)
      → Finished ch (record c { content = some t.now }) t.now t.rest tail q u
      → Finished ch c d left tail p u
  Finished-later ch c d left tail p q u t v = record {
    now = v.now;
    grown =
        subst (λ l. Grown l d v.now) (sym t.split)
          (Grown-append t.taken t.rest d t.now v.now t.grown v.grown);
    on_channel_id = v.on_channel_id;
    channel_is = v.channel_is;
    no_packet = v.no_packet;
    reading = v.reading;
    same_count = v.same_count ∙ t.same_count;
    others = λ j ne. v.others j ne ∙ t.others j ne;
  }

  -- The calls of the connection's `handle` while `Read` has nothing to report, up to the packet's end.
  abbrev pub read_on : ℕ → ℕ → M (Parser S) (Unit {0})
  read_on zero rounds p = Outcome.stuck
  read_on (suc calls) rounds p =
      let more = after (read r from_bytes rounds p) (λ _ q. read_on calls rounds q) in
      if p.sub_size == 0 then returned tt p else more

  nil_of_length : (l : List ℕ) → length l ≡ 0 → l ≡ []
  nil_of_length [] e = refl
  nil_of_length (x ∷ l) e = absurd (omega arith)

  -- After what a call has taken: the packet is at its end, or the next calls take the rest.
  pub after_call :
      (calls rounds ch : ℕ) (c : ParserChannel) (d : MessageData) (left tail : List ℕ)
      (p q : Parser S)
      → InData r Good content stream from_bytes ch c d left tail p
      → (t : Took r Good content stream from_bytes ch c d left tail p q)
      → ((c' : ParserChannel) (d' : MessageData)
          → InData r Good content stream from_bytes ch c' d' t.rest tail q
          → 0 < length t.rest
          → (u : Parser S) × (read_on calls rounds q ≡ returned tt u)
            × Finished ch c' d' t.rest tail q u)
      → 0 < calls
      → (u : Parser S) × (read_on calls rounds q ≡ returned tt u) × Finished ch c d left tail p u
  after_call zero rounds ch c d left tail p q h t again some_calls = absurd (omega arith)
  after_call (suc calls) rounds ch c d left tail p q h t again some_calls =
      elim (Bool-cases (length t.rest == 0)) [
        | inl all ↦
            let none_left : t.rest ≡ [] = nil_of_length t.rest ((==_iff _ _).0 all) in
            let ended : q.sub_size ≡ 0 = t.size_is ∙ ap length none_left in
            (q, rw ended refl, Took-Finished ch c d left tail p q t none_left)
        | inr more ↦
            let (u, done, v) =
              again _ _ (Took-InData ch c d left tail p q h t (ground arith)) (ground arith) in
            (u, done, Finished-later ch c d left tail p q u t v)
      ]

  read_on_step :
      (calls rounds : ℕ) (p q : Parser S)
      → (p.sub_size == 0) ≡ false
      → read r from_bytes rounds p ≡ returned none q
      → read_on (suc calls) rounds p ≡ read_on calls rounds q
  read_on_step calls rounds p q in_sub done = rw (in_sub, done) refl

  -- In the middle of a data packet, the further calls of `Read`, at most as many as the packet has bytes
  -- left, report nothing and put the rest of the packet into the data; the parser is behind the packet
  -- then, and the other channels are as they were.
  pub read_on-Finished :
      (calls rounds ch : ℕ) (c : ParserChannel) (d : MessageData) (left tail : List ℕ)
      (p : Parser S)
      → InData r Good content stream from_bytes ch c d left tail p
      → p.sub_mode ≡ sub_parser_mode_data
      → 0 < length left
      → length left < calls
      → (u : Parser S) × (read_on calls rounds p ≡ returned tt u) × Finished ch c d left tail p u
  read_on-Finished zero rounds ch c d left tail p h mode some_left fuel = absurd (omega arith)
  read_on-Finished (suc calls) rounds ch c d left tail p h mode some_left fuel =
      let (q, done, t, took) =
        read-Took r Good content stream from_bytes rounds ch c d left tail p h mode some_left in
      let total : length left ≡ length t.taken + length t.rest =
        ap length t.split ∙ length-append t.taken t.rest in
      let in_sub : (p.sub_size == 0) ≡ false = ne→== p.sub_size 0 (omega (arith, h.size_is)) in
      let (u, rest_done, f) =
        after_call calls rounds ch c d left tail p q h t
          (λ c' d' h' more.
            read_on-Finished calls rounds ch c' d' t.rest tail q h' (t.same_mode ∙ mode) more
              (omega arith))
          (omega arith) in
      (u, read_on_step calls rounds p q in_sub done ∙ rest_done, f)
