-- ===== src/MessageReader/RoundTrip.antt =====
-- message_reader.go, `Get`, reads back what message_draft.go wrote.
use sockety_go.Common.{
  ℕ, ◌^◌, ◌<◌, ◌≡◌, ◌⊎◌, inl, inr, refl, subst, ◌∙◌, bit_and, true, List, ◌∷◌, ◌++◌, arith, Option,
  some, append_assoc, length, returned,
}
use sockety_go.Constants.{
  name_size_bitmask, data_size_bitmask, files_count_bitmask, files_count_none_bits,
}
use sockety_go.ByteUtils.Positions.{le}
use sockety_go.Reader.{BufferedReader, IsStream}
use sockety_go.MessageReader.{Message, Reading, go_to, read_action_size, read_data_size, get}
use sockety_go.MessageReader.Steps.{IsIdle, At, Reaches, read_flags-At, read_uuid-At}
use sockety_go.MessageReader.ActionSteps.{Sized, action_size8-At, action_size16-At, read_action-At}
use sockety_go.MessageReader.DataSteps.{
  with_data, without_files, data_size0-At, data_size8-At, data_size16-At, data_size48-At,
  no_files-At, no_files_size,
}
use sockety_go.ProtocolUtils.{
  get_name_size_flag, get_data_size_flag, get_files_count_flag, get_files_size_flag,
}
use sockety_go.MessageDraft.{MessageDraft, message_flags}
use sockety_go.MessageDraft.Layout.{
  name_width, data_width, name_width-IsWidth, data_width_cases, IsSendable, message_body,
}

-- The flags give back the widths that they were made from.
abbrev Tells : ℕ → ℕ → Type 0
Tells a d =
    (bit_and (message_flags a d 0 0) name_size_bitmask ≡ get_name_size_flag a)
    × (bit_and (message_flags a d 0 0) data_size_bitmask ≡ get_data_size_flag d)
    × (bit_and (message_flags a d 0 0) files_count_bitmask ≡ files_count_none_bits)

message_flags-Tells :
    (a d : ℕ) → (a ≡ 1) ⊎ (a ≡ 2) → (d ≡ 0) ⊎ (d ≡ 1) ⊎ (d ≡ 2) ⊎ (d ≡ 6) → Tells a d
unfolding message_flags get_name_size_flag get_data_size_flag get_files_count_flag
    get_files_size_flag
message_flags-Tells a d (inl p) (inl q) = rw (p, q) (refl, refl, refl)
message_flags-Tells a d (inl p) (inr (inl q)) = rw (p, q) (refl, refl, refl)
message_flags-Tells a d (inl p) (inr (inr (inl q))) = rw (p, q) (refl, refl, refl)
message_flags-Tells a d (inl p) (inr (inr (inr q))) = rw (p, q) (refl, refl, refl)
message_flags-Tells a d (inr p) (inl q) = rw (p, q) (refl, refl, refl)
message_flags-Tells a d (inr p) (inr (inl q)) = rw (p, q) (refl, refl, refl)
message_flags-Tells a d (inr p) (inr (inr (inl q))) = rw (p, q) (refl, refl, refl)
message_flags-Tells a d (inr p) (inr (inr (inr q))) = rw (p, q) (refl, refl, refl)

flags-Tells : (n k : ℕ) → n < 2 ^ 16 → k < 2 ^ 48 → Tells (name_width n) (data_width k)
flags-Tells n k short fits =
    message_flags-Tells (name_width n) (data_width k) (ground (arith, name_width-IsWidth n short))
      (ground (arith, data_width_cases k fits))

-- What the receiver makes of a draft: all fields of the message but those of its stream.
unfoldable pub received_message : MessageDraft → List ℕ → Message → Message
received_message d id m =
    without_files (with_data (length d.content) (record m { id = id; action = d.action }))

module _ {S : Type 0} (r : BufferedReader S) (Good : S → Type 0) (content : S → List ℕ)
    (stream : IsStream r Good content) where
  abbrev Before : ℕ → ℕ → Message → List ℕ → Reading S → Type 0
  Before = At r Good content stream

  action_size-At :
      (t : Reading S) (flags : ℕ) (m : Message) (n : ℕ) (tail : List ℕ)
      → bit_and flags name_size_bitmask ≡ get_name_size_flag (name_width n)
      → n < 2 ^ 16
      → Before 2 flags m (le (name_width n) n ++ tail) t
      → Reaches r Good content stream
          (read_action_size r t)
          (Sized r Good content stream n flags m tail)
  unfolding get_name_size_flag
  action_size-At t flags m n tail bits short a = elim (name_width-IsWidth n short) [
    | inl (e, h) ↦
        action_size8-At r Good content stream t flags m n tail (bits ∙ rw e) h
          (subst (λ k. Before 2 flags m (le k n ++ tail) t) e a)
    | inr (e, h) ↦
        action_size16-At r Good content stream t flags m n tail (bits ∙ rw e) h
          (subst (λ k. Before 2 flags m (le k n ++ tail) t) e a)
  ]

  data_size-At :
      (t : Reading S) (flags : ℕ) (m : Message) (n : ℕ) (tail : List ℕ)
      → bit_and flags data_size_bitmask ≡ get_data_size_flag (data_width n)
      → n < 2 ^ 48
      → Before 4 flags m (le (data_width n) n ++ tail) t
      → Reaches r Good content stream (read_data_size r t) (Before 5 flags (with_data n m) tail)
  unfolding get_data_size_flag
  data_size-At t flags m n tail bits fits a =
      let at =
        λ (k : ℕ) (e : data_width n ≡ k). subst (λ j. Before 4 flags m (le j n ++ tail) t) e a in
      elim (data_width_cases n fits) [
        | inl (e, z) ↦
            rw z (
              data_size0-At r Good content stream t flags m tail (bits ∙ rw e)
                (unfold le in at 0 e))
        | inr (inl (e, _, h)) ↦
            data_size8-At r Good content stream t flags m n tail (bits ∙ rw e) h (at 1 e)
        | inr (inr (inl (e, _, h))) ↦
            data_size16-At r Good content stream t flags m n tail (bits ∙ rw e) h (at 2 e)
        | inr (inr (inr (e, _, h))) ↦
            data_size48-At r Good content stream t flags m n tail (bits ∙ rw e) h (at 6 e)
      ]

  -- What `Get` leaves behind when it has returned a message.
  pub record Got (m : Message) (tail : List ℕ) (t : Reading S) : Type 0 where
    pub message_is : t.message ≡ m
    pub restarted : t.reader.step ≡ 0
    pub idle : IsIdle t.reader
    pub good : Good t.source
    pub left : content t.source ≡ tail

  -- An idle message reader at its first step, over a stream that begins with the content of a
  -- sendable draft's packet, reads all of it in one call: the message gets the identifier, the
  -- action, and a data reader where there is data; the reader is idle at its first step again, and
  -- the stream is left behind the content. `from_bytes` accepts sixteen bytes.
  pub get-message_body :
      (from_bytes : List ℕ → Option (List ℕ))
      → ((bs : List ℕ) → length bs ≡ 16 → from_bytes bs ≡ some bs)
      → (d : MessageDraft) (id : List ℕ) (t : Reading S) (tail : List ℕ) → IsSendable d id
      → t.reader.step ≡ 0
      → IsIdle t.reader
      → Good t.source
      → content t.source ≡ message_body d id ++ tail
      → (t' : Reading S) × (get r from_bytes t ≡ returned true t')
        × Got (received_message d id t.message) tail t'
  unfolding get message_body received_message
  get-message_body from_bytes documented d id t tail s fresh idle good e =
      let n = length d.action in
      let k = length d.content in
      let flags = message_flags (name_width n) (data_width k) 0 0 in
      let (name_bits, data_bits, files_bits) = flags-Tells n k s.short s.fits in
      let rest4 = le (data_width k) k ++ tail in
      let rest3 = d.action ++ rest4 in
      let rest2 = le (name_width n) n ++ rest3 in
      let regroup : message_body d id ++ tail ≡ flags ∷ (id ++ rest2) = simp append_assoc in
      let a0 : Before 0 t.reader.flags t.message (flags ∷ (id ++ rest2)) t = record {
        at_step = fresh;
        has_flags = refl;
        idle = idle;
        filled = refl;
        good = good;
        has_left = e ∙ regroup;
      } in
      let (t1, e1, a1) =
        read_flags-At r Good content stream t t.reader.flags flags t.message (id ++ rest2) a0 in
      let m1 = record (t.message) { id = id } in
      let (t2, e2, a2) =
        read_uuid-At r Good content stream from_bytes documented t1 flags t.message id rest2
          s.identified a1 in
      let (t3, e3, a3) = action_size-At t2 flags m1 n rest3 name_bits s.short a2 in
      let m2 = record m1 { action = d.action } in
      let (t4, e4, a4) =
        read_action-At r Good content stream t3 flags m1 n d.action rest4 s.named s.short refl a3 in
      let (t5, e5, a5) = data_size-At t4 flags m2 k tail data_bits s.fits a4 in
      let (t6, e6, a6) =
        no_files-At r Good content stream t5 flags (with_data k m2) tail files_bits a5 in
      let e7 =
        no_files_size r Good content stream t6 flags (without_files (with_data k m2)) tail a6 in
      (
        go_to 0 t6,
        rw (e1, e2, e3, e4, e5, e6, e7),
        record {
          message_is = a6.filled;
          restarted = refl;
          idle = record {
            uuid_rests = a6.idle.uuid_rests;
            action_size16_rests = a6.idle.action_size16_rests;
            action_rests = a6.idle.action_rests;
            data_size16_rests = a6.idle.data_size16_rests;
            data_size48_rests = a6.idle.data_size48_rests;
          };
          good = a6.good;
          left = a6.has_left;
        },
      )
