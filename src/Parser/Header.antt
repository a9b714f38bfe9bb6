-- ===== src/Parser/Header.antt =====
-- parser.go, ReadHeader, on what createProtocolHeader of protocol_utils.go makes.
use sockety_go.Common.{
  ℕ, ◌≤◌, ◌<◌, ◌≡◌, refl, sym, ap, subst, ◌∙◌, bit_and, true, List, [], ◌∷◌, ◌++◌, arith, Option,
  ◌==◌, ==_iff, ne→==, le→ltb, lt→ltb, le→leb, lt→leb, if◌then◌else◌, Result, ok, err, panic,
  Outcome, returned, ◌≢◌,
}
use native.Mathlib.Decide.{dec_lt}
use sockety_go.Common.Bits.{in_row, in_row_holds}
use sockety_go.ByteUtils.{byte}
use sockety_go.ByteUtils.Positions.{le}
use sockety_go.ProtocolUtils.{create_protocol_header}
use sockety_go.Reader.{BufferedReader, IsStream}
use sockety_go.StreamReader.{new_unsafe_bytes}
use sockety_go.StreamReader.Complete.{get_uint8-Yields, get_uint16-Gets}
use sockety_go.Parser.{Parser, read_header}
use sockety_go.Parser.Sizes.{IsReading, Advanced}
use sockety_go.Parser.Start.{new_unsafe_bytes-IsAtRest}

-- The four forms of a header.
single_lem : create_protocol_header 1 ≡ ok (0b11100000 ∷ [])
unfolding create_protocol_header
single_lem = refl

all_lem : create_protocol_header 4096 ≡ ok (0b11100011 ∷ [])
unfolding create_protocol_header
all_lem = refl

byte_lem : (c : ℕ) → 1 < c → c ≤ 256 → create_protocol_header c ≡ ok (0b11100001 ∷ byte c ∷ [])
unfolding create_protocol_header
byte_lem c some_channels few =
    rw
      (
        ne→== c 0 (omega arith),
        le→ltb 4096 c (omega arith),
        ne→== c 1 (omega arith),
        le→leb c 256 few,
      )
      refl

low_byte_table : in_row (λ c. byte (bit_and c 0x00ff) == byte c) 0 4096 ≡ true
unfolding in_row
low_byte_table = refl

uint16_lem : (c : ℕ) → 256 < c → c < 4096 → create_protocol_header c ≡ ok (0b11100010 ∷ le 2 c)
unfolding create_protocol_header le
uint16_lem c many few =
    let low : byte (bit_and c 0x00ff) ≡ byte c =
      (==_iff _ _).0 (in_row_holds _ 0 4096 c low_byte_table (omega arith) (omega arith)) in
    rw
      (
        ne→== c 0 (omega arith),
        le→ltb 4096 c (omega arith),
        ne→== c 1 (omega arith),
        lt→leb c 256 many,
        lt→ltb c 4096 few,
        low,
      )
      refl

abbrev bytes_of : Result (List ℕ) → List ℕ
bytes_of (ok bs) = bs
bytes_of (err e) = []
bytes_of (panic x) = []

-- One byte cannot say 256: it says 0.
abbrev pub announced : ℕ → ℕ
announced c = if c == 256 then 0 else c

announced_few : (c : ℕ) → c ≤ 256 → byte c ≡ announced c
announced_few c few = ground arith

pub announced_else : (c : ℕ) → c ≢ 256 → announced c ≡ c
announced_else c other = rw (ne→== c 256 other) refl

module _ {S : Type 0} (r : BufferedReader S) (Good : S → Type 0) (content : S → List ℕ)
    (stream : IsStream r Good content) (from_bytes : List ℕ → Option (List ℕ)) where
  abbrev Headed : Outcome (Parser S) ℕ → ℕ → List ℕ → Parser S → Type 0
  Headed out n tail p =
      (q : Parser S) × (out ≡ returned n q) × Advanced r Good content stream from_bytes tail p q

  moved :
      (p : Parser S) (s : S) (before tail : List ℕ)
      → IsReading r Good content stream from_bytes before p
      → content s ≡ tail
      → Good s
      → Advanced r Good content stream from_bytes tail p (record p { reader = s })
  moved p s before tail a left good = record {
    reading = record {
      size16_rests = a.size16_rests;
      size24_rests = a.size24_rests;
      good = good;
      has_left = left;
    };
    same_count = refl;
    same_current = refl;
    same_channels = refl;
    same_sub = refl;
  }

  read_single :
      (p : Parser S) (tail : List ℕ)
      → IsReading r Good content stream from_bytes (0b11100000 ∷ tail) p
      → Headed (read_header r from_bytes p) 1 tail p
  unfolding read_header
  read_single p tail a =
      let (s, got, left, good) = stream.serves_byte p.reader _ tail a.good a.has_left in
      (record p { reader = s }, rw got refl, moved p s _ tail a left good)

  read_all :
      (p : Parser S) (tail : List ℕ)
      → IsReading r Good content stream from_bytes (0b11100011 ∷ tail) p
      → Headed (read_header r from_bytes p) 4096 tail p
  unfolding read_header
  read_all p tail a =
      let (s, got, left, good) = stream.serves_byte p.reader _ tail a.good a.has_left in
      (record p { reader = s }, rw got refl, moved p s _ tail a left good)

  read_few :
      (c : ℕ) (p : Parser S) (tail : List ℕ)
      → IsReading r Good content stream from_bytes (0b11100001 ∷ (c ∷ tail)) p
      → Headed (read_header r from_bytes p) c tail p
  unfolding read_header
  read_few c p tail a =
      let (s, got, left, good) = stream.serves_byte p.reader _ (c ∷ tail) a.good a.has_left in
      let (s2, got2, left2, good2) = get_uint8-Yields r Good content stream s c tail good left in
      (record p { reader = s2 }, rw (got, got2) refl, moved p s2 _ tail a left2 good2)

  read_many :
      (c : ℕ) (p : Parser S) (tail : List ℕ)
      → c < 4096
      → IsReading r Good content stream from_bytes (0b11100010 ∷ (le 2 c ++ tail)) p
      → Headed (read_header r from_bytes p) c tail p
  unfolding read_header
  read_many c p tail few a =
      let (s, got, left, good) = stream.serves_byte p.reader _ (le 2 c ++ tail) a.good a.has_left in
      let (u, s2, got2, rests, left2, good2) =
        get_uint16-Gets r Good content stream (new_unsafe_bytes 2) s c tail
          (new_unsafe_bytes-IsAtRest 2 (omega arith)) good (omega arith) left in
      (
        record p { reader = s2 },
        rw (got, got2, le→ltb 4096 c (omega arith)) refl,
        moved p s2 _ tail a left2 good2,
      )

  -- The header is what its form says.
  formed :
      {out : Outcome (Parser S) ℕ} (c n : ℕ) (header form tail : List ℕ) (p : Parser S)
      → create_protocol_header c ≡ ok header
      → create_protocol_header c ≡ ok form
      → announced c ≡ n
      → IsReading r Good content stream from_bytes (header ++ tail) p
      → (IsReading r Good content stream from_bytes (form ++ tail) p → Headed out n tail p)
      → Headed out (announced c) tail p
  formed {out} c n header form tail p made shape says a read =
      let same_bytes : header ≡ form = sym (ap bytes_of made) ∙ ap bytes_of shape in
      subst (λ k. Headed out k tail p) (sym says)
        (read (subst (λ h. IsReading r Good content stream from_bytes (h ++ tail) p) same_bytes a))

  -- A header for 1 to 4096 channels is read as the number of channels that it was made for, and the stream
  -- is left behind it; but a header for 256 channels is read as 0.
  pub read_header-create_protocol_header :
      (c : ℕ) (header tail : List ℕ) (p : Parser S)
      → 0 < c
      → c ≤ 4096
      → create_protocol_header c ≡ ok header
      → IsReading r Good content stream from_bytes (header ++ tail) p
      → (q : Parser S) × (read_header r from_bytes p ≡ returned (announced c) q)
        × Advanced r Good content stream from_bytes tail p q
  read_header-create_protocol_header c header tail p some_channels few made a = elim (dec_lt c 2) [
    | yes below ↦
        let one : c ≡ 1 = omega arith in
        formed c 1 header _ tail p made (ap create_protocol_header one ∙ single_lem)
          (announced_else c (λ e. omega arith) ∙ one) a (read_single p tail)
    | no several ↦ elim (dec_lt c 4096) [
      | no above ↦
          let all : c ≡ 4096 = omega arith in
          formed c 4096 header _ tail p made (ap create_protocol_header all ∙ all_lem)
            (announced_else c (λ e. omega arith) ∙ all) a (read_all p tail)
      | yes less ↦ elim (dec_lt 256 c) [
        | no small ↦
            formed c (byte c) header _ tail p made (byte_lem c (omega arith) (omega arith))
              (sym (announced_few c (omega arith))) a (read_few (byte c) p tail)
        | yes large ↦
            formed c c header _ tail p made (uint16_lem c large (omega arith))
              (announced_else c (λ e. omega arith)) a (read_many c p tail (omega arith))
      ]
    ]
  ]
