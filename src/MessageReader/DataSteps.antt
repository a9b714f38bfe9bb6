-- ===== src/MessageReader/DataSteps.antt =====
-- message_reader.go, `Get`: the steps of the data and of the files, of which there are none.
use sockety_go.Common.{
  ℕ, ◌%◌, ◌^◌, ◌<◌, ◌≡◌, refl, ap, ◌∙◌, bit_and, List, ◌∷◌, ◌++◌, arith, some, returned,
}
use sockety_go.Constants.{
  data_size_bitmask, files_count_bitmask, data_size_none_bits, data_size_uint8_bits,
  data_size_uint16_bits, data_size_uint48_bits, files_count_none_bits,
}
use sockety_go.ByteUtils.Positions.{le}
use sockety_go.MessageData.{new_message_data}
use sockety_go.Reader.{BufferedReader, IsStream}
use sockety_go.StreamReader.Complete.{get_uint8-Yields, get_uint16-Gets, get_uint48-Gets}
use sockety_go.MessageReader.{Message, Reading, read_data_size, read_files_count, read_files_size}
use sockety_go.MessageReader.Steps.{At, Reaches}

abbrev pub with_data : ℕ → Message → Message
with_data n m = record m { content = some (new_message_data n) }

abbrev pub without_files : Message → Message
without_files m = record m { files_count = 0; total_files_size = 0 }

module _ {S : Type 0} (r : BufferedReader S) (Good : S → Type 0) (content : S → List ℕ)
    (stream : IsStream r Good content) where
  abbrev Before : ℕ → ℕ → Message → List ℕ → Reading S → Type 0
  Before = At r Good content stream

  pub data_size0-At :
      (t : Reading S) (flags : ℕ) (m : Message) (tail : List ℕ)
      → bit_and flags data_size_bitmask ≡ data_size_none_bits
      → Before 4 flags m tail t
      → Reaches r Good content stream (read_data_size r t) (Before 5 flags (with_data 0 m) tail)
  unfolding read_data_size
  data_size0-At t flags m tail bits a = (
    record {
      reader = record (t.reader) { step = 5 };
      message = record (t.message) { content = some (new_message_data 0) };
      source = t.source;
    },
    rw (a.at_step, a.has_flags, bits),
    record {
      at_step = refl;
      has_flags = a.has_flags;
      idle = record {
        uuid_rests = a.idle.uuid_rests;
        action_size16_rests = a.idle.action_size16_rests;
        action_rests = a.idle.action_rests;
        data_size16_rests = a.idle.data_size16_rests;
        data_size48_rests = a.idle.data_size48_rests;
      };
      filled = ap (λ (p : Message). record p { content = some (new_message_data 0) }) a.filled;
      good = a.good;
      has_left = a.has_left;
    },
  )

  pub data_size8-At :
      (t : Reading S) (flags : ℕ) (m : Message) (n : ℕ) (tail : List ℕ)
      → bit_and flags data_size_bitmask ≡ data_size_uint8_bits
      → n < 2 ^ 8
      → Before 4 flags m (le 1 n ++ tail) t
      → Reaches r Good content stream (read_data_size r t) (Before 5 flags (with_data n m) tail)
  unfolding read_data_size le
  data_size8-At t flags m n tail bits small a =
      let exact : n % 256 ≡ n = omega arith in
      let (s, got, left, good) =
        get_uint8-Yields r Good content stream t.source n tail a.good
          (a.has_left ∙ ap (λ b. b ∷ tail) exact) in
      (
        record {
          reader = record (t.reader) { step = 5 };
          message = record (t.message) { content = some (new_message_data n) };
          source = s;
        },
        rw (a.at_step, a.has_flags, bits, got),
        record {
          at_step = refl;
          has_flags = a.has_flags;
          idle = record {
            uuid_rests = a.idle.uuid_rests;
            action_size16_rests = a.idle.action_size16_rests;
            action_rests = a.idle.action_rests;
            data_size16_rests = a.idle.data_size16_rests;
            data_size48_rests = a.idle.data_size48_rests;
          };
          filled = ap (λ (p : Message). record p { content = some (new_message_data n) }) a.filled;
          good = good;
          has_left = left;
        },
      )

  pub data_size16-At :
      (t : Reading S) (flags : ℕ) (m : Message) (n : ℕ) (tail : List ℕ)
      → bit_and flags data_size_bitmask ≡ data_size_uint16_bits
      → n < 2 ^ 16
      → Before 4 flags m (le 2 n ++ tail) t
      → Reaches r Good content stream (read_data_size r t) (Before 5 flags (with_data n m) tail)
  unfolding read_data_size
  data_size16-At t flags m n tail bits small a =
      let (u, s, got, q, left, good) =
        get_uint16-Gets r Good content stream t.reader.data_size16_reader t.source n tail
          a.idle.data_size16_rests a.good small a.has_left in
      (
        record {
          reader = record (t.reader) { data_size16_reader = u; step = 5 };
          message = record (t.message) { content = some (new_message_data n) };
          source = s;
        },
        rw (a.at_step, a.has_flags, bits, got),
        record {
          at_step = refl;
          has_flags = a.has_flags;
          idle = record {
            uuid_rests = a.idle.uuid_rests;
            action_size16_rests = a.idle.action_size16_rests;
            action_rests = a.idle.action_rests;
            data_size16_rests = q;
            data_size48_rests = a.idle.data_size48_rests;
          };
          filled = ap (λ (p : Message). record p { content = some (new_message_data n) }) a.filled;
          good = good;
          has_left = left;
        },
      )

  pub data_size48-At :
      (t : Reading S) (flags : ℕ) (m : Message) (n : ℕ) (tail : List ℕ)
      → bit_and flags data_size_bitmask ≡ data_size_uint48_bits
      → n < 2 ^ 48
      → Before 4 flags m (le 6 n ++ tail) t
      → Reaches r Good content stream (read_data_size r t) (Before 5 flags (with_data n m) tail)
  unfolding read_data_size
  data_size48-At t flags m n tail bits small a =
      let (u, s, got, q, left, good) =
        get_uint48-Gets r Good content stream t.reader.data_size48_reader t.source n tail
          a.idle.data_size48_rests a.good small a.has_left in
      (
        record {
          reader = record (t.reader) { data_size48_reader = u; step = 5 };
          message = record (t.message) { content = some (new_message_data n) };
          source = s;
        },
        rw (a.at_step, a.has_flags, bits, got),
        record {
          at_step = refl;
          has_flags = a.has_flags;
          idle = record {
            uuid_rests = a.idle.uuid_rests;
            action_size16_rests = a.idle.action_size16_rests;
            action_rests = a.idle.action_rests;
            data_size16_rests = a.idle.data_size16_rests;
            data_size48_rests = q;
          };
          filled = ap (λ (p : Message). record p { content = some (new_message_data n) }) a.filled;
          good = good;
          has_left = left;
        },
      )

  pub no_files-At :
      (t : Reading S) (flags : ℕ) (m : Message) (tail : List ℕ)
      → bit_and flags files_count_bitmask ≡ files_count_none_bits
      → Before 5 flags m tail t
      → Reaches r Good content stream (read_files_count r t) (Before 5 flags (without_files m) tail)
  unfolding read_files_count
  no_files-At t flags m tail bits a = (
    record t { message = record (t.message) { files_count = 0; total_files_size = 0 } },
    rw (a.at_step, a.has_flags, bits),
    record {
      at_step = a.at_step;
      has_flags = a.has_flags;
      idle = a.idle;
      filled = ap (λ (p : Message). record p { files_count = 0; total_files_size = 0 }) a.filled;
      good = a.good;
      has_left = a.has_left;
    },
  )

  pub no_files_size :
      (t : Reading S) (flags : ℕ) (m : Message) (tail : List ℕ)
      → Before 5 flags m tail t
      → read_files_size r t ≡ returned tt t
  unfolding read_files_size
  no_files_size t flags m tail a = rw a.at_step
