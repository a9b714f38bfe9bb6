-- ===== src/ParserChannel/Data.antt =====
-- parser_channel.go, `ProcessData`: the bytes of a data packet go to the queue of the message's data.
use sockety_go.Common.{
  ℕ, zero, suc, ◌+◌, ◌≤◌, ◌<◌, ◌≡◌, refl, sym, ap, ◌∙◌, Bool-cases, true, false, List, [], ◌++◌,
  append_assoc, arith, Option, none, some, ◌==◌, ==_iff, ne→==, length, length-append, length-take,
  length-drop, take, drop, take-append-drop, inl, inr, Outcome, returned,
}
use sockety_go.MessageData
use sockety_go.MessageData.{MessageData, push}
use sockety_go.MessageData.Queue.{IsSound, Grown, Grown-none, Grown-append, push-Grown}
use sockety_go.ParserChannel.{
  ParserChannel, Processing, data_done, maybe_end, data_loop, process_data, step_size,
}
use sockety_go.Reader.{BufferedReader, IsStream}

module _ {S : Type 0} (r : BufferedReader S) (Good : S → Type 0) (content : S → List ℕ)
    (stream : IsStream r Good content) (from_bytes : List ℕ → Option (List ℕ)) where
  -- A loop over the packet has taken some bytes off its front and put them into the data, and has left
  -- nothing that could be had without waiting.
  pub record Received (c : Processing S) (d : MessageData) (q : Processing S) : Type 0 where
    pub taken : List ℕ
    pub now : MessageData
    pub grown : Grown taken d now
    pub channel_is : q.channel ≡ maybe_end (record (c.channel) { content = some now })
    pub split : content c.source ≡ taken ++ content q.source
    pub good : Good q.source
    pub none_left : r.len q.source ≡ 0
    pub some_taken : 0 < r.len c.source → 0 < length taken

  step-le :
      (s : S)
      → Good s
      → 0 < r.len s
      → (0 < step_size r from_bytes s) × (step_size r from_bytes s ≤ length (content s))
  step-le s good some_there = ground (arith, stream.len_within s good)

  -- One round that gets a piece and hands it on.
  data_round :
      (rounds : ℕ) (c : Processing S) (d d' : MessageData) (bytes : List ℕ) (s : S)
      → (r.len c.source == 0) ≡ false
      → r.read (step_size r from_bytes c.source) c.source
        ≡ returned (record { bytes = bytes; error = none }) s
      → c.channel.content ≡ some d
      → push bytes d ≡ returned tt d'
      → data_loop r from_bytes (suc rounds) c
        ≡ data_loop r from_bytes rounds
            (record { channel = record (c.channel) { content = some d' }; source = s })
  unfolding data_loop
  data_round rounds c d d' bytes s some_there got holds pushed =
      rw (some_there, got, holds, pushed) refl

  data_end :
      (rounds : ℕ) (c : Processing S)
      → (r.len c.source == 0) ≡ true
      → data_loop r from_bytes (suc rounds) c
        ≡ returned tt (record c { channel = maybe_end c.channel })
  unfolding data_loop
  data_end rounds c none_there = rw none_there refl

  with_same :
      (c : ParserChannel) (d : MessageData)
      → c.content ≡ some d
      → maybe_end c ≡ maybe_end (record c { content = some d })
  with_same c d e = ap (λ o. maybe_end (record c { content = o })) e

  abbrev Receives : Processing S → MessageData → Outcome (Processing S) (Unit {0}) → Type 0
  Receives c d out = (q : Processing S) × (out ≡ returned tt q) × Received c d q

  -- A piece, and what follows it.
  Received-piece :
      (c : Processing S) (d d' : MessageData) (n : ℕ) (s : S) (q : Processing S)
      → 0 < n
      → n ≤ length (content c.source)
      → content s ≡ drop n (content c.source)
      → Grown (take n (content c.source)) d d'
      → Received (record { channel = record (c.channel) { content = some d' }; source = s }) d' q
      → Received c d q
  Received-piece c d d' n s q positive enough left grown h =
      let bytes = take n (content c.source) in
      record {
        taken = bytes ++ h.taken;
        now = h.now;
        grown = Grown-append bytes h.taken d d' h.now grown h.grown;
        channel_is = h.channel_is;
        split =
            sym (take-append-drop n (content c.source))
            ∙ ap (λ l. bytes ++ l) (sym left ∙ h.split)
            ∙ sym (append_assoc bytes h.taken (content q.source));
        good = h.good;
        none_left = h.none_left;
        some_taken =
            λ there. omega (arith, length-append bytes h.taken, length-take n (content c.source));
      }

  data_loop-Receives :
      (rounds : ℕ) (c : Processing S) (d : MessageData)
      → c.channel.content ≡ some d
      → IsSound d
      → Good c.source
      → d.wrote + length (content c.source) ≤ d.size
      → length (content c.source) < rounds
      → Receives c d (data_loop r from_bytes rounds c)
  data_loop-Receives zero c d holds sound good fits fuel = absurd (omega arith)
  data_loop-Receives (suc rounds) c d holds sound good fits fuel =
      elim (Bool-cases (r.len c.source == 0)) [
        | inl none_there ↦ (
          record c { channel = maybe_end c.channel },
          data_end rounds c none_there,
          record {
            taken = [];
            now = d;
            grown = Grown-none d sound;
            channel_is = with_same c.channel d holds;
            split = refl;
            good = good;
            none_left = (==_iff _ _).0 none_there;
            some_taken = λ h. absurd (ground arith);
          },
        )
        | inr some_there ↦
            let n = step_size r from_bytes c.source in
            let (positive, enough) = step-le c.source good (ground arith) in
            let (s, got, left, good') = stream.serves n c.source good enough in
            let bytes = take n (content c.source) in
            let size : length bytes ≡ n = omega (arith, length-take n (content c.source)) in
            let rest = length-drop n (content c.source) in
            let shrunk : length (content s) ≡ length (drop n (content c.source)) = ap length left in
            let (d', pushed, grown) = push-Grown bytes d sound (omega arith) (omega arith) in
            let c' : Processing S = record {
              channel = record (c.channel) { content = some d' };
              source = s;
            } in
            let (q, done, h) =
              data_loop-Receives rounds c' d' refl grown.sound good'
                (omega (arith, grown.counted, grown.same_size)) (omega arith) in
            (
              q,
              data_round rounds c d d' bytes s some_there got holds pushed ∙ done,
              Received-piece c d d' n s q positive enough left grown h,
            )
      ]

  pub missing_data :
      (c : ParserChannel) (d : MessageData)
      → c.content ≡ some d
      → d.wrote < d.size
      → data_done c ≡ false
  unfolding data_done MessageData.done MessageData.received
  missing_data c d holds missing = rw holds (ne→== d.wrote d.size (omega arith))

  process_data_lem :
      (rounds : ℕ) (c : Processing S)
      → data_done c.channel ≡ false
      → process_data r from_bytes rounds c ≡ data_loop r from_bytes rounds c
  unfolding process_data
  process_data_lem rounds c waits = rw waits refl

  -- ProcessData, on a channel that waits for data, over a stream that has no more than is missing of the
  -- data, and with one round more than the stream has bytes: it takes all that can be had without waiting,
  -- in order, off the stream and puts it behind what is still to be read of the data. When the data is
  -- complete, and no stream is open, the channel is free.
  pub process_data-Receives :
      (rounds : ℕ) (c : Processing S) (d : MessageData)
      → c.channel.content ≡ some d
      → IsSound d
      → d.wrote < d.size
      → Good c.source
      → d.wrote + length (content c.source) ≤ d.size
      → length (content c.source) < rounds
      → (q : Processing S) × (process_data r from_bytes rounds c ≡ returned tt q) × Received c d q
  process_data-Receives rounds c d holds sound missing good fits fuel =
      let (q, done, h) = data_loop-Receives rounds c d holds sound good fits fuel in
      (q, process_data_lem rounds c (missing_data c.channel d holds missing) ∙ done, h)
