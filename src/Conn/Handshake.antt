-- ===== src/Conn/Handshake.antt =====
-- conn.go, NewConn: the headers of both sides, and what is agreed by them.
use sockety_go.Common.{
  ℕ, zero, suc, ◌≤◌, ◌<◌, ◌≡◌, refl, sym, ap, subst, ◌∙◌, Bool, List, ◌++◌, arith, Option, some,
  ltb, if◌then◌else◌, replicate, get_elem?, length, ok, returned, M,
}
use sockety_go.BufferedReader.{Reply, Buffered}
use sockety_go.BufferedReader.Window.{Delivers, content}
use sockety_go.BufferedReader.Stream.{IsOpen, buffered, buffered-IsStream}
use sockety_go.ChannelManager.{ChannelManager, new_channel_manager}
use sockety_go.ChannelManager.Reservation.{IsManager}
use sockety_go.Parser.{Parser, get_default, new_parser, read_header}
use sockety_go.Parser.Header.{announced, read_header-create_protocol_header}
use sockety_go.Parser.Messages.{IsFree}
use sockety_go.Parser.Sizes.{IsReading}
use sockety_go.Parser.Start.{IsBufferSize, new_parser-Started}
use sockety_go.Parser.Switch.{channel_of}
use sockety_go.ParserChannel.{new_parser_channel}
use sockety_go.ProtocolUtils.{create_protocol_header, validate_channels_count}
use sockety_go.Writer.{Writer, new_writer}
use sockety_go.Writer.Output.{Accepts}
use sockety_go.Conn.{ConnOptions, Conn, fresh, new_conn}

-- The number of channels of an option, and of a writer by the peer's header and the own limit.
abbrev pub count_of : ℕ → ℕ
count_of channels = get_default channels 4096

abbrev pub agreed : ℕ → ℕ → ℕ
agreed header limit = get_default (if ltb header limit then header else limit) 4096

pub count_bounds : (n : ℕ) → n ≤ 4096 → (0 < count_of n) × (count_of n ≤ 4096)
unfolding get_default
count_bounds n few = ground arith

count_valid : (n : ℕ) → 0 < n → n ≤ 4096 → validate_channels_count n ≡ ok tt
unfolding validate_channels_count
count_valid n some_channels few = ground arith

count_twice : (n : ℕ) → 0 < n → get_default n 4096 ≡ n
unfolding get_default
count_twice n some_channels = ground arith

size_of : (n : ℕ) → IsBufferSize n → IsBufferSize (get_default n 4096)
unfolding get_default
size_of n h = ground arith

pub agreed_bounds :
    (header limit : ℕ)
    → header ≤ 4096
    → limit ≤ 4096
    → (0 < agreed header limit) × (agreed header limit ≤ 4096)
unfolding get_default
agreed_bounds header limit a b = ground arith

pub announced_few : (c : ℕ) → c ≤ 4096 → announced c ≤ 4096
announced_few c few = ground arith

locks_free : (n c : ℕ) → c < n → get_elem? {A = ℕ} (replicate n 0) c ≡ some 0
locks_free zero c h = absurd (omega (arith, h))
locks_free (suc n) zero h = refl
locks_free (suc n) (suc c) h = locks_free n c (omega arith)

-- The channels of a new writer.
abbrev pub new_channels : ℕ → ChannelManager
new_channels n = record { channels_count = n; current = 0; locks = replicate n 0 }

new_writer_lem :
    {T : Type 0} (t : T) (header limit : ℕ)
    → header ≤ 4096
    → limit ≤ 4096
    → new_writer t (if ltb header limit then header else limit)
      ≡ ok (record { target = t; channels = new_channels (agreed header limit) })
unfolding new_writer new_channel_manager
new_writer_lem t header limit a b =
    let (some_channels, few) = agreed_bounds header limit a b in
    let valid : validate_channels_count (agreed header limit) ≡ ok tt =
      count_valid (agreed header limit) some_channels few in
    rw (valid, new_writer) (rw (valid, new_channel_manager) refl)

pub new_channels-IsManager : (n : ℕ) → 0 < n → n ≤ 4096 → IsManager (new_channels n)
new_channels-IsManager n some_channels few = record {
  some_channel = some_channels;
  bounded = few;
  current_inside = some_channels;
  one_lock_each = length-replicate n;
}
  where
    length-replicate : (n : ℕ) → length {A = ℕ} (replicate n 0) ≡ n
    length-replicate zero = refl
    length-replicate (suc n) = ap suc (length-replicate n)

module _ {Q T : Type 0} (source : Q → ℕ → Reply Q) (pending : Q → List ℕ)
    (d : Delivers source pending) (from_bytes : List ℕ → Option (List ℕ))
    (write_to : List ℕ → M T (Unit {0})) (output : T → List ℕ) (a : Accepts write_to output) where
  abbrev Reads : List ℕ → Parser (Buffered Q) → Type 0
  Reads left p =
      IsReading (buffered source 0) (IsOpen source pending d) (content source pending d)
        (buffered-IsStream source pending d 0) from_bytes left p

  -- A new connection, with `n` channels to read, the peer's header and the own limit, and `left` to read.
  pub record Connected (n header limit : ℕ) (own left : List ℕ) (t u : T) (c : Conn Q T)
      : Type 0 where
    pub target_is : c.w.target ≡ u
    pub written : output c.w.target ≡ output t ++ own
    pub channels_are : c.w.channels ≡ new_channels (agreed header limit)
    pub reading : Reads left c.p
    pub no_packet : c.p.sub_size ≡ 0
    pub on_first : c.p.current_channel ≡ some 0
    pub first_there : c.p.channels 0 ≡ some new_parser_channel
    pub all_free : (ch : ℕ) → IsFree (channel_of (c.p.channels ch))
    pub counted : c.p.channels_count ≡ n

  new_conn_lem :
      (parent_done : Bool) (q : Q) (o : ConnOptions) (t u : T) (header : ℕ) (own : List ℕ)
      (p p' : Parser (Buffered Q)) (w : Writer T)
      → validate_channels_count (count_of o.channels) ≡ ok tt
      → validate_channels_count (count_of o.write_channels) ≡ ok tt
      → new_parser q (count_of o.channels) (get_default o.read_buffer_size 4096) ≡ ok p
      → create_protocol_header (count_of o.channels) ≡ ok own
      → write_to own t ≡ returned tt u
      → read_header (buffered source 0) from_bytes p ≡ returned header p'
      → new_writer u
          (if ltb header (count_of o.write_channels) then header else count_of o.write_channels)
        ≡ ok w
      → new_conn source from_bytes 0 write_to parent_done q (some o) t
        ≡ returned (fresh w p' parent_done o.buffered_messages) u
  unfolding new_conn
  new_conn_lem parent_done q o t u header own p p' w e1 e2 e3 e4 e5 e6 e7 =
      rw (e1, e2, e3, e4, e5, e6, e7) refl

  -- With up to 4096 channels to read and to write, and a buffer of the default size or one from 16 bytes on,
  -- NewConn over a source that begins with a header for 1 to 4096 channels writes its own header and
  -- returns a connection. Its parser is between two packets, on channel 0, with every channel free,
  -- and has read just the header; its writer has as many free channels as the header announces, or
  -- the own limit if that is less, but 4096 if the header is for 256 channels.
  pub new_conn-Connected :
      (parent_done : Bool) (q : Q) (o : ConnOptions) (t : T) (peer : ℕ) (header own left : List ℕ)
      → o.channels ≤ 4096
      → o.write_channels ≤ 4096
      → IsBufferSize o.read_buffer_size
      → 0 < peer
      → peer ≤ 4096
      → create_protocol_header peer ≡ ok header
      → create_protocol_header (count_of o.channels) ≡ ok own
      → pending q ≡ header ++ left
      → (c : Conn Q T) × (u : T) × (new_conn source from_bytes 0 write_to parent_done q (some o) t
          ≡ returned c u)
        × Connected
            (count_of o.channels)
            (announced peer)
            (count_of o.write_channels)
            own
            left
            t
            u
            c
  unfolding fresh
  new_conn-Connected parent_done q o t peer header own left few few_written sized some_channels
        bounded made own_made begins =
      let (positive, below) = count_bounds o.channels few in
      let (write_positive, write_below) = count_bounds o.write_channels few_written in
      let (p, e3, started) =
        new_parser-Started source pending d from_bytes q (count_of o.channels)
          (get_default o.read_buffer_size 4096) below (size_of o.read_buffer_size sized) in
      let (u, e5, out) = a.accepted own t in
      let (p', e6, further) =
        read_header-create_protocol_header (buffered source 0) (IsOpen source pending d)
          (content source pending d) (buffered-IsStream source pending d 0) from_bytes peer header
          left p some_channels bounded made (subst (λ l. Reads l p) begins started.reading) in
      let w : Writer T = record {
        target = u;
        channels = new_channels (agreed (announced peer) (count_of o.write_channels));
      } in
      (
        fresh w p' parent_done o.buffered_messages,
        u,
        new_conn_lem parent_done q o t u (announced peer) own p p' w (count_valid _ positive below)
            (count_valid _ write_positive write_below) e3 own_made e5 e6
            (new_writer_lem u (announced peer) (count_of o.write_channels)
              (announced_few peer bounded) write_below),
        record {
          target_is = refl;
          written = out;
          channels_are = refl;
          reading = further.reading;
          no_packet = further.same_sub ∙ started.no_packet;
          on_first = further.same_current ∙ started.on_first;
          first_there = ap (λ f. f 0) further.same_channels ∙ started.first_there;
          all_free = λ ch.
              subst (λ f. IsFree (channel_of (f ch))) (sym further.same_channels)
                (started.all_channels_free ch);
          counted =
              further.same_count ∙ started.counted ∙ count_twice (count_of o.channels) positive;
        },
      )
