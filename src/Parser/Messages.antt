-- ===== src/Parser/Messages.antt =====
-- parser.go, `Read`, on a Message packet that message_draft.go has built.
use sockety_go.Common.{
  ℕ, suc, ◌≡◌, ◌≢◌, refl, sym, ap, ap₂, subst, ◌∙◌, embed, bit_and, Bool, true, List, [], ◌∷◌, ◌++◌,
  append-nil, arith, Option, none, some, ◌==◌, ==_iff, ne→==, if◌then◌else◌, length, length-append,
  take, take-append, drop-append, length-take, Outcome, returned, M, ok,
}
use sockety_go.Constants.{
  expects_response_bits, has_stream_bits, packet_bitmask, packet_message_bits,
}
use sockety_go.ByteUtils.Positions.{le}
use sockety_go.LimitedReader.{Limited, limited, IsWithin, front, limited-IsStream}
use sockety_go.MessageDraft.{MessageDraft}
use sockety_go.MessageDraft.Layout.{IsSendable, message_body}
use sockety_go.MessageReader.{Message, MessageReader}
use sockety_go.MessageReader.Steps.{IsIdle}
use sockety_go.MessageReader.RoundTrip.{received_message}
use sockety_go.MessageStream.{new_message_stream}
use sockety_go.Reader.{BufferedReader, IsStream}
use sockety_go.ParserChannel.{ParserChannel, Processing, idle, init_message, process}
use sockety_go.ParserChannel.Delivery.{arrived, process-message_body}
use sockety_go.Parser.{
  Parser, on_channel, on_sub, update, sub_parser_mode_header, get_packet_size, read_message,
  read_packet, read_loop,
}
use sockety_go.Parser.Signature.{Spells, SizedHeader, wide8, wide16, wide24}
use sockety_go.Parser.Sizes.{IsReading, Advanced, Sizes, packet_size8, packet_size16, packet_size24}

-- The message of a draft, as a receiver sees it.
abbrev pub drafted_message : MessageDraft → List ℕ → Bool → Message
drafted_message d id expects_response = received_message d id (record {
  content = none;
  stream = if d.has_stream then some new_message_stream else none;
  id = [];
  action = [];
  total_files_size = 0;
  files_count = 0;
  expects_response = expects_response;
})

-- A channel that waits for a packet.
pub record IsFree (c : ParserChannel) : Type 0 where
  pub no_message : c.message ≡ none
  pub no_content : c.content ≡ none
  pub restarted : c.message_reader.step ≡ 0
  pub reader_idle : IsIdle c.message_reader

pub same : (n : ℕ) → (n == n) ≡ true
same n = (==_iff n n).1 refl

abbrev fresh_message : Bool → Bool → Message
fresh_message expects_response has_stream = record {
  content = none;
  stream = if has_stream then some new_message_stream else none;
  id = [];
  action = [];
  total_files_size = 0;
  files_count = 0;
  expects_response = expects_response;
}

init_message-idle :
    (e h : Bool) (c : ParserChannel)
    → c.message ≡ none
    → init_message e h c ≡ ok (record c { message = some (fresh_message e h) })
unfolding init_message idle
init_message-idle e h c free = rw free

pub on_channel_lem :
    {S A : Type 0} (f : ℕ → ParserChannel → Outcome (Parser S) A) (p : Parser S) (ch : ℕ)
    (c : ParserChannel)
    → p.current_channel ≡ some ch
    → p.channels ch ≡ some c
    → on_channel f p ≡ f ch c
on_channel_lem f p ch c current at_ch = rw (current, at_ch)

pub on_sub_lem :
    {S A : Type 0} (m : M (Processing (Limited S)) A) (p : Parser S) (ch : ℕ) (c : ParserChannel)
    (a : A) (x : Processing (Limited S))
    → p.current_channel ≡ some ch
    → p.channels ch ≡ some c
    → m (record { channel = c; source = record { b = p.reader; size = p.sub_size } }) ≡ returned a x
    → on_sub m p
      ≡ returned a (record p {
        channels = update p.channels ch x.channel;
        reader = x.source.b;
        sub_size = x.source.size;
      })
on_sub_lem m p ch c a x current at_ch e =
    on_channel_lem _ p ch c current at_ch
    ∙ ap
        (embed (λ q. record p {
          channels = update p.channels ch q.channel;
          reader = q.source.b;
          sub_size = q.source.size;
        }))
        e

module _ {S : Type 0} (r : BufferedReader S) (Good : S → Type 0) (content : S → List ℕ)
    (stream : IsStream r Good content) (from_bytes : List ℕ → Option (List ℕ))
    (documented : (bs : List ℕ) → length bs ≡ 16 → from_bytes bs ≡ some bs) where
  -- The parser between two packets, on channel `id`.
  pub record IsBetween (ch : ℕ) (c : ParserChannel) (left : List ℕ) (p : Parser S) : Type 0 where
    pub on_channel_id : p.current_channel ≡ some ch
    pub channel_is : p.channels ch ≡ some c
    pub no_packet : p.sub_size ≡ 0
    pub reading : IsReading r Good content stream from_bytes left p

  -- After the message: the parser stands behind the packet, on the same channel, which is free, or holds what
  -- is to come of the message, as `arrived` says; the other channels are as they were.
  pub record HasRead (ch : ℕ) (c : ParserChannel) (k : ℕ) (m : Message) (tail : List ℕ)
      (p q : Parser S) : Type 0 where
    pub reader : MessageReader
    pub between : IsBetween ch (arrived c k m reader) tail q
    pub restarted : reader.step ≡ 0
    pub reader_idle : IsIdle reader
    pub same_count : q.channels_count ≡ p.channels_count
    pub others : (j : ℕ) → j ≢ ch → q.channels j ≡ p.channels j

  abbrev Within : List ℕ → Limited S → Type 0
  Within tail = IsWithin r Good content stream tail

  packet_front :
      (s : S) (body tail : List ℕ)
      → Good s
      → content s ≡ body ++ tail
      → Within tail (record { b = s; size = length body })
        × (take (length body) (content s) ≡ body ++ [])
  packet_front s body tail good e = (
    (
      good,
      rw e (omega (arith, length-append body tail)),
      rw e (drop-append body tail (length body) refl),
    ),
    rw e (take-append body tail (length body) refl ∙ sym (append-nil body)),
  )

  -- A limited reader that has served all leaves the rest.
  packet_end :
      (l : Limited S) (tail : List ℕ)
      → Within tail l
      → take l.size (content l.b) ≡ []
      → (l.size ≡ 0) × (content l.b ≡ tail)
  packet_end l tail (good, inside, behind) e =
      let z : l.size ≡ 0 = omega (arith, length-take l.size (content l.b), ap length e) in
      (z, rw z at behind)

  read_message-Reads :
      (d : MessageDraft) (id : List ℕ) (expects_response : Bool) (bits b ch : ℕ) (c : ParserChannel)
      (p q : Parser S) (tail : List ℕ)
      → IsSendable d id
      → Spells expects_response d.has_stream bits b
      → p.current_channel ≡ some ch
      → p.channels ch ≡ some c
      → IsFree c
      → get_packet_size r from_bytes b p ≡ returned (length (message_body d id)) q
      → Advanced r Good content stream from_bytes (message_body d id ++ tail) p q
      → (t : Parser S) × (read_message r from_bytes b p
          ≡ returned (some (drafted_message d id expects_response)) t)
        × HasRead ch c (length d.content) (drafted_message d id expects_response) tail p t
  unfolding read_message
  read_message-Reads d id expects bits b ch c p q tail sendable spells current at_ch free sized
        adv =
      let body = message_body d id in
      let fresh : Message = fresh_message expects d.has_stream in
      let c' : ParserChannel = record c { message = some fresh } in
      let s = q.reader in
      let (inside, whole) = packet_front s body tail adv.reading.good adv.reading.has_left in
      let (x, processed, dv) =
        process-message_body (limited r) (Within tail) (front r Good content stream tail)
          (limited-IsStream r Good content stream tail) from_bytes documented d id fresh c'
          (record { b = s; size = length body }) [] sendable refl free.no_content free.restarted
          free.reader_idle inside whole in
      let (spent, behind) = packet_end x.source tail dv.good dv.left in
      let t : Parser S = record q {
        channels = update (update q.channels ch c') ch x.channel;
        reader = x.source.b;
        sub_size = x.source.size;
        sub_mode = sub_parser_mode_header;
      } in
      let current' : q.current_channel ≡ some ch = adv.same_current ∙ current in
      let at_ch' : q.channels ch ≡ some c = ap (λ f. f ch) adv.same_channels ∙ at_ch in
      let opened : init_message (bit_and b expects_response_bits == expects_response_bits)
            (bit_and b has_stream_bits == has_stream_bits) c
          ≡ ok c' =
        ap₂ (λ e h. init_message e h c) spells.expects spells.streams
        ∙ init_message-idle expects d.has_stream c free.no_message in
      let begun : Parser S = record q {
        channels = update q.channels ch c';
        sub_mode = sub_parser_mode_header;
        sub_size = length body;
      } in
      (
        t,
        rw (sized, on_channel_lem _ q ch c current' at_ch', opened)
            (on_sub_lem (process (limited r) from_bytes) begun ch c' _ x current' (rw (same ch))
              processed),
        record {
          reader = dv.reader;
          between = record {
            on_channel_id = current';
            channel_is = rw (same ch) (ap some dv.channel_is);
            no_packet = spent;
            reading = record {
              size16_rests = adv.reading.size16_rests;
              size24_rests = adv.reading.size24_rests;
              good = dv.good.0;
              has_left = behind;
            };
          };
          restarted = dv.restarted;
          reader_idle = dv.idle;
          same_count = adv.same_count;
          others = λ j ne. rw (ne→== j ch ne) (ap (λ f. f j) adv.same_channels);
        },
      )

  abbrev Returns :
      Outcome (Parser S) (Option Message)
      → ℕ
      → ParserChannel
      → ℕ
      → Message
      → List ℕ
      → Parser S
      → Type 0
  Returns out ch c k m tail p =
      (t : Parser S) × (out ≡ returned (some m) t) × HasRead ch c k m tail p t

  -- One round of the loop on the signature byte of a message.
  message_round :
      (rounds b : ℕ) (p : Parser S) (s : S)
      → r.read_byte p.reader ≡ returned b s
      → bit_and b packet_bitmask ≡ packet_message_bits
      → read_loop r from_bytes (suc rounds) p
        ≡ read_message r from_bytes b (record p { reader = s })
  unfolding read_loop read_packet
  message_round rounds b p s got code = rw (got, code)

  sized_message :
      (rounds : ℕ) (d : MessageDraft) (id : List ℕ) (e : Bool) (bits b k ch : ℕ) (c : ParserChannel)
      (p : Parser S) (tail : List ℕ)
      → IsSendable d id
      → Spells e d.has_stream bits b
      → IsFree c
      → IsBetween ch c (b ∷ (le k (length (message_body d id)) ++ (message_body d id ++ tail))) p
      → ((q : Parser S)
          → IsReading r Good content stream from_bytes
              (le k (length (message_body d id)) ++ (message_body d id ++ tail))
              q
          → Sizes r Good content stream from_bytes
              (get_packet_size r from_bytes b q)
              (length (message_body d id))
              (message_body d id ++ tail)
              q)
      → Returns
          (read_loop r from_bytes (suc rounds) p)
          ch
          c
          (length d.content)
          (drafted_message d id e)
          tail
          p
  sized_message rounds d id e bits b k ch c p tail sendable spells free between sizes =
      let (s, got, left, good) =
        stream.serves_byte p.reader b _ between.reading.good between.reading.has_left in
      let p1 : Parser S = record p { reader = s } in
      let (q, sized, adv) = sizes p1 (record {
        size16_rests = between.reading.size16_rests;
        size24_rests = between.reading.size24_rests;
        good = good;
        has_left = left;
      }) in
      let (t, done, h) =
        read_message-Reads d id e bits b ch c p1 q tail sendable spells between.on_channel_id
          between.channel_is free sized adv in
      (
        t,
        message_round rounds b p s got spells.code ∙ done,
        record {
          reader = h.reader;
          between = h.between;
          restarted = h.restarted;
          reader_idle = h.reader_idle;
          same_count = h.same_count;
          others = h.others;
        },
      )

  pub read_loop-message :
      (rounds : ℕ) (d : MessageDraft) (id header : List ℕ) (e : Bool) (ch : ℕ) (c : ParserChannel)
      (p : Parser S) (tail : List ℕ)
      → IsSendable d id
      → SizedHeader e d.has_stream (length (message_body d id)) header
      → IsFree c
      → IsBetween ch c (header ++ (message_body d id ++ tail)) p
      → Returns
          (read_loop r from_bytes (suc rounds) p)
          ch
          c
          (length d.content)
          (drafted_message d id e)
          tail
          p
  read_loop-message rounds d id header e ch c p tail sendable (wide8 b sp small h) free between =
      sized_message rounds d id e _ b 1 ch c p tail sendable sp free
        (subst (λ l. IsBetween ch c (l ++ (message_body d id ++ tail)) p) h between)
        (λ q a. packet_size8 r Good content stream from_bytes q b _ _ sp.width small a)
  read_loop-message rounds d id header e ch c p tail sendable (wide16 b sp small h) free between =
      sized_message rounds d id e _ b 2 ch c p tail sendable sp free
        (subst (λ l. IsBetween ch c (l ++ (message_body d id ++ tail)) p) h between)
        (λ q a. packet_size16 r Good content stream from_bytes q b _ _ sp.width small a)
  read_loop-message rounds d id header e ch c p tail sendable (wide24 b sp small h) free between =
      sized_message rounds d id e _ b 3 ch c p tail sendable sp free
        (subst (λ l. IsBetween ch c (l ++ (message_body d id ++ tail)) p) h between)
        (λ q a. packet_size24 r Good content stream from_bytes q b _ _ sp.width small a)
