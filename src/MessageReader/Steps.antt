-- ===== src/MessageReader/Steps.antt =====
-- message_reader.go, `Get`: the steps over a stream that has all the bytes. First the flags and the
-- identifier.
use sockety_go.Common.{ℕ, ◌≡◌, refl, ap, List, ◌∷◌, ◌++◌, Option, some, length, Outcome, returned}
use sockety_go.Reader.{BufferedReader, IsStream}
use sockety_go.StreamReader.Complete.{IsAtRest, get_uint8-Yields, get_uuid-Gets}
use sockety_go.MessageReader.{Message, MessageReader, Reading, read_flags, read_uuid}

-- The readers that a message without files uses, between two messages.
pub record IsIdle (p : MessageReader) : Type 0 where
  pub uuid_rests : IsAtRest 16 p.uuid_reader
  pub action_size16_rests : IsAtRest 2 p.action_size16_reader
  pub action_rests : IsAtRest p.action_reader.size p.action_reader
  pub data_size16_rests : IsAtRest 2 p.data_size16_reader
  pub data_size48_rests : IsAtRest 6 p.data_size48_reader

module _ {S : Type 0} (r : BufferedReader S) (Good : S → Type 0) (content : S → List ℕ)
    (stream : IsStream r Good content) where
  -- Before a step: what was read so far, and what is left to read.
  pub record At (step flags : ℕ) (m : Message) (left : List ℕ) (t : Reading S) : Type 0 where
    pub at_step : t.reader.step ≡ step
    pub has_flags : t.reader.flags ≡ flags
    pub idle : IsIdle t.reader
    pub filled : t.message ≡ m
    pub good : Good t.source
    pub has_left : content t.source ≡ left

  abbrev pub Reaches : Outcome (Reading S) (Unit {0}) → (Reading S → Type 0) → Type 0
  Reaches out P = (t : Reading S) × (out ≡ returned tt t) × P t

  pub read_flags-At :
      (t : Reading S) (old flags : ℕ) (m : Message) (tail : List ℕ)
      → At 0 old m (flags ∷ tail) t
      → Reaches (read_flags r t) (At 1 flags m tail)
  unfolding read_flags
  read_flags-At t old flags m tail a =
      let (s, got, left, good) =
        get_uint8-Yields r Good content stream t.source flags tail a.good a.has_left in
      (
        record {
          reader = record (t.reader) { flags = flags; step = 1 };
          message = t.message;
          source = s;
        },
        rw (a.at_step, got),
        record {
          at_step = refl;
          has_flags = refl;
          idle = record {
            uuid_rests = a.idle.uuid_rests;
            action_size16_rests = a.idle.action_size16_rests;
            action_rests = a.idle.action_rests;
            data_size16_rests = a.idle.data_size16_rests;
            data_size48_rests = a.idle.data_size48_rests;
          };
          filled = a.filled;
          good = good;
          has_left = left;
        },
      )

  pub read_uuid-At :
      (from_bytes : List ℕ → Option (List ℕ))
      → ((bs : List ℕ) → length bs ≡ 16 → from_bytes bs ≡ some bs)
      → (t : Reading S) (flags : ℕ) (m : Message) (id tail : List ℕ) → length id ≡ 16
      → At 1 flags m (id ++ tail) t
      → Reaches (read_uuid r from_bytes t) (At 2 flags (record m { id = id }) tail)
  unfolding read_uuid
  read_uuid-At from_bytes documented t flags m id tail h a =
      let (u, s, got, q, left, good) =
        get_uuid-Gets r Good content stream from_bytes t.reader.uuid_reader t.source id tail
          documented a.idle.uuid_rests a.good h a.has_left in
      (
        record {
          reader = record (t.reader) { uuid_reader = u; step = 2 };
          message = record (t.message) { id = id };
          source = s;
        },
        rw (a.at_step, got),
        record {
          at_step = refl;
          has_flags = a.has_flags;
          idle = record {
            uuid_rests = q;
            action_size16_rests = a.idle.action_size16_rests;
            action_rests = a.idle.action_rests;
            data_size16_rests = a.idle.data_size16_rests;
            data_size48_rests = a.idle.data_size48_rests;
          };
          filled = ap (λ (n : Message). record n { id = id }) a.filled;
          good = good;
          has_left = left;
        },
      )
