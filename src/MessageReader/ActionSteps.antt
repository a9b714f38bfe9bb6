-- ===== src/MessageReader/ActionSteps.antt =====
-- message_reader.go, `Get`: the steps of the action.
use sockety_go.Common.{
  ℕ, ◌%◌, ◌^◌, ◌<◌, ◌≡◌, refl, sym, subst, ap, ◌∙◌, bit_and, List, ◌∷◌, ◌++◌, arith, length,
}
use sockety_go.Constants.{name_size_bitmask, name_size_uint8_bits, name_size_uint16_bits}
use sockety_go.ByteUtils.Positions.{le}
use sockety_go.Reader.{BufferedReader, IsStream}
use sockety_go.StreamReader.{resize}
use sockety_go.StreamReader.Complete.{
  IsAtRest, resize-IsAtRest, get_uint8-Yields, get_uint16-Gets, get_string-Gets,
}
use sockety_go.MessageReader.{Message, Reading, read_action_size, read_action}
use sockety_go.MessageReader.Steps.{IsIdle, At, Reaches}

module _ {S : Type 0} (r : BufferedReader S) (Good : S → Type 0) (content : S → List ℕ)
    (stream : IsStream r Good content) where
  abbrev Before : ℕ → ℕ → Message → List ℕ → Reading S → Type 0
  Before = At r Good content stream

  -- What the step after the length of the action finds: the string's reader has that size.
  abbrev pub Sized : ℕ → ℕ → Message → List ℕ → Reading S → Type 0
  Sized n flags m tail t = Before 3 flags m tail t × (t.reader.action_reader.size ≡ n)

  pub action_size8-At :
      (t : Reading S) (flags : ℕ) (m : Message) (n : ℕ) (tail : List ℕ)
      → bit_and flags name_size_bitmask ≡ name_size_uint8_bits
      → n < 2 ^ 8
      → Before 2 flags m (le 1 n ++ tail) t
      → Reaches r Good content stream (read_action_size r t) (Sized n flags m tail)
  unfolding read_action_size le
  action_size8-At t flags m n tail bits small a =
      let exact : n % 256 ≡ n = omega arith in
      let (s, got, left, good) =
        get_uint8-Yields r Good content stream t.source n tail a.good
          (a.has_left ∙ ap (λ b. b ∷ tail) exact) in
      (
        record {
          reader = record (t.reader) { action_reader = resize n t.reader.action_reader; step = 3 };
          message = t.message;
          source = s;
        },
        rw (a.at_step, a.has_flags, bits, got),
        (
          record {
            at_step = refl;
            has_flags = a.has_flags;
            idle = resized t n a.idle (omega arith);
            filled = a.filled;
            good = good;
            has_left = left;
          },
          unfold resize in refl,
        ),
      )
    where
      resized :
          (t : Reading S) (n : ℕ)
          → IsIdle t.reader
          → n < 2 ^ 16
          → IsIdle (record (t.reader) { action_reader = resize n t.reader.action_reader; step = 3 })
      resized t n i h = record {
        uuid_rests = i.uuid_rests;
        action_size16_rests = i.action_size16_rests;
        action_rests =
            unfold resize in
            resize-IsAtRest t.reader.action_reader.size n t.reader.action_reader i.action_rests h;
        data_size16_rests = i.data_size16_rests;
        data_size48_rests = i.data_size48_rests;
      }

  pub action_size16-At :
      (t : Reading S) (flags : ℕ) (m : Message) (n : ℕ) (tail : List ℕ)
      → bit_and flags name_size_bitmask ≡ name_size_uint16_bits
      → n < 2 ^ 16
      → Before 2 flags m (le 2 n ++ tail) t
      → Reaches r Good content stream (read_action_size r t) (Sized n flags m tail)
  unfolding read_action_size
  action_size16-At t flags m n tail bits small a =
      let (u, s, got, q, left, good) =
        get_uint16-Gets r Good content stream t.reader.action_size16_reader t.source n tail
          a.idle.action_size16_rests a.good small a.has_left in
      (
        record {
          reader = record (t.reader) {
            action_size16_reader = u;
            action_reader = resize n t.reader.action_reader;
            step = 3;
          };
          message = t.message;
          source = s;
        },
        rw (a.at_step, a.has_flags, bits, got),
        (
          record {
            at_step = refl;
            has_flags = a.has_flags;
            idle = record {
              uuid_rests = a.idle.uuid_rests;
              action_size16_rests = q;
              action_rests =
                  unfold resize in
                  resize-IsAtRest t.reader.action_reader.size n t.reader.action_reader
                    a.idle.action_rests small;
              data_size16_rests = a.idle.data_size16_rests;
              data_size48_rests = a.idle.data_size48_rests;
            };
            filled = a.filled;
            good = good;
            has_left = left;
          },
          unfold resize in refl,
        ),
      )

  pub read_action-At :
      (t : Reading S) (flags : ℕ) (m : Message) (n : ℕ) (action tail : List ℕ)
      → 0 < n
      → n < 2 ^ 16
      → length action ≡ n
      → Sized n flags m (action ++ tail) t
      → Reaches r Good content stream
          (read_action r t)
          (Before 4 flags (record m { action = action }) tail)
  unfolding read_action
  read_action-At t flags m n action tail some_byte small h (a, sized) =
      let (u, s, got, q, left, good) =
        get_string-Gets r Good content stream n t.reader.action_reader t.source action tail
          some_byte small (subst (λ k. IsAtRest k t.reader.action_reader) sized a.idle.action_rests)
          a.good h a.has_left in
      (
        record {
          reader = record (t.reader) { action_reader = u; step = 4 };
          message = record (t.message) { action = action };
          source = s;
        },
        rw (a.at_step, got),
        record {
          at_step = refl;
          has_flags = a.has_flags;
          idle = record {
            uuid_rests = a.idle.uuid_rests;
            action_size16_rests = a.idle.action_size16_rests;
            action_rests = subst (λ k. IsAtRest k u) (sym q.sized) q;
            data_size16_rests = a.idle.data_size16_rests;
            data_size48_rests = a.idle.data_size48_rests;
          };
          filled = ap (λ (p : Message). record p { action = action }) a.filled;
          good = good;
          has_left = left;
        },
      )
