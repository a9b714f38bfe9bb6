-- ===== src/MessageDraft/Layout.antt =====
-- message_draft.go, `send`: which bytes the Message packet holds.
use sockety_go.Common.{
  ℕ, ◌+◌, ◌*◌, ◌^◌, ◌≤◌, ◌<◌, ◌≡◌, ◌⊎◌, inl, inr, refl, Bool, false, List, [], ◌∷◌, ◌++◌,
  append-nil, append_assoc, arith, length, length-append, length-drop, length-replicate, drop,
  drop_all, leb, ◌==◌, if◌then◌else◌, ok,
}
use sockety_go.ProtocolUtils.{
  get_min_size_bytes, get_name_size_bytes, get_data_size_bytes, get_files_count_bytes,
  get_files_size_bytes,
}
use sockety_go.ByteUtils.Positions.{le, length-le}
use sockety_go.BufferPool.{zeros}
use sockety_go.Packet
use sockety_go.Packet.{Packet, valid}
use sockety_go.Packet.Filling.{
  filled, IsWidth, uint8-filled, uuid-filled, uint-filled, string-filled,
}
use sockety_go.Packet.Header.{packet_header, length-packet_header, new_packet-filled}
use sockety_go.MessageDraft.{MessageDraft, message_signature, message_flags, message_packet}

-- The widths of the two lengths.
unfoldable pub name_width : ℕ → ℕ
name_width n = if leb n 255 then 1 else 2

unfoldable pub data_width : ℕ → ℕ
data_width n = if n == 0 then 0 else if leb n 255 then 1 else if leb n 65535 then 2 else 6

-- What the sender asks of a draft and of an identifier.
pub record IsSendable (m : MessageDraft) (id : List ℕ) : Type 0 where
  pub named : 0 < length m.action
  pub short : length m.action < 2 ^ 16
  pub fits : length m.content < 2 ^ 48
  pub identified : length id ≡ 16

-- The content of the packet: flags, identifier, action with its length, length of the data.
unfoldable pub message_body : MessageDraft → List ℕ → List ℕ
message_body m id =
    let a = name_width (length m.action) in
    let d = data_width (length m.content) in
    message_flags a d 0 0
    ∷ (id ++ (le a (length m.action) ++ (m.action ++ le d (length m.content))))

name_width_lem : (n : ℕ) → 0 < n → n < 2 ^ 16 → get_name_size_bytes n ≡ ok (name_width n)
unfolding get_name_size_bytes get_min_size_bytes name_width
name_width_lem n some_byte short = ground arith

pub data_width_lem : (n : ℕ) → n < 2 ^ 48 → get_data_size_bytes n ≡ ok (data_width n)
unfolding get_data_size_bytes get_min_size_bytes data_width
data_width_lem n fits = ground arith

pub name_width-IsWidth :
    (n : ℕ) → n < 2 ^ 16 → ((name_width n ≡ 1) × (n < 2 ^ 8)) ⊎ ((name_width n ≡ 2) × (n < 2 ^ 16))
unfolding name_width
name_width-IsWidth n short = ground arith

pub data_width_cases :
    (n : ℕ)
    → n < 2 ^ 48
    → ((data_width n ≡ 0) × (n ≡ 0))
      ⊎ ((data_width n ≡ 1) × (0 < n) × (n < 2 ^ 8))
      ⊎ ((data_width n ≡ 2) × (0 < n) × (n < 2 ^ 16))
      ⊎ ((data_width n ≡ 6) × (0 < n) × (n < 2 ^ 48))
unfolding data_width
data_width_cases n fits = ground arith

-- The length of the data is written only where it has a width.
data_size-filled :
    (front : List ℕ) (v k : ℕ) (rest : List ℕ)
    → ((k ≡ 0) ⊎ (IsWidth k × (v < 2 ^ (8 * k))))
    → k ≤ length rest
    → (if k == 0 then ok (filled front rest) else Packet.uint (filled front rest) v k)
      ≡ ok (filled (front ++ le k v) (drop k rest))
data_size-filled front v k rest (inl e) room = rw e (unfold le in rw append-nil)
data_size-filled front v k rest (inr (inl e, h)) room =
    let some_width : (k == 0) ≡ false = ground arith in
    rw some_width (uint-filled front v k rest (inl e) h room)
data_size-filled front v k rest (inr (inr e, h)) room =
    let some_width : (k == 0) ≡ false = ground arith in
    rw some_width (uint-filled front v k rest (inr e) h room)

name_fits : (n : ℕ) → n < 2 ^ 16 → IsWidth (name_width n) × (n < 2 ^ (8 * name_width n))
name_fits n short = elim (name_width-IsWidth n short) [
  | inl (e, h) ↦ rw e (inl refl, h)
  | inr (e, h) ↦ rw e (inr (inl refl), h)
]

data_fits :
    (n : ℕ)
    → n < 2 ^ 48
    → ((data_width n ≡ 0) ⊎ (IsWidth (data_width n) × (n < 2 ^ (8 * data_width n))))
data_fits n fits = elim (data_width_cases n fits) [
  | inl (e, _) ↦ inl e
  | inr (inl (e, _, h)) ↦ inr (rw e (inl refl, h))
  | inr (inr (inl (e, _, h))) ↦ inr (rw e (inr (inl refl), h))
  | inr (inr (inr (e, _, h))) ↦ inr (rw e (inr (inr refl), h))
]

no_files : (get_files_count_bytes 0 ≡ ok 0) × (get_files_size_bytes 0 0 ≡ ok 0)
unfolding get_files_count_bytes get_files_size_bytes get_min_size_bytes
no_files = (refl, refl)

length-zeros : (n : ℕ) → length (zeros n) ≡ n
length-zeros n = length-replicate n 0

module _ (m : MessageDraft) (id : List ℕ) (expects_response : Bool) (s : IsSendable m id) where
  abbrev a : ℕ
  a = name_width (length m.action)

  abbrev d : ℕ
  d = data_width (length m.content)

  abbrev sent_size : ℕ
  sent_size = 17 + a + length m.action + d + 0 + 0

  abbrev header : List ℕ
  header = packet_header (message_signature expects_response m.has_stream) sent_size

  widths : (a ≤ 2) × (d ≤ 6)
  unfolding name_width data_width
  widths = ground arith

  -- The written fronts, and the rooms behind them.
  abbrev front1 : List ℕ
  front1 = header ++ message_flags a d 0 0 ∷ []

  abbrev front2 : List ℕ
  front2 = front1 ++ id

  abbrev front3 : List ℕ
  front3 = front2 ++ le a (length m.action)

  abbrev front4 : List ℕ
  front4 = front3 ++ m.action

  abbrev room1 : List ℕ
  room1 = drop 1 (zeros sent_size)

  abbrev room2 : List ℕ
  room2 = drop 16 room1

  abbrev room3 : List ℕ
  room3 = drop a room2

  abbrev room4 : List ℕ
  room4 = drop (length m.action) room3

  rooms :
      (length room1 ≡ 16 + a + length m.action + d)
      × (length room2 ≡ a + length m.action + d)
      × (length room3 ≡ length m.action + d)
      × (length room4 ≡ d)
  rooms = omega (
    arith,
    length-zeros sent_size,
    length-drop 1 (zeros sent_size),
    length-drop 16 room1,
    length-drop a room2,
    length-drop (length m.action) room3,
  )

  front3_short : length front3 ≤ 24
  front3_short = omega (
    arith,
    widths,
    s.identified,
    length-append front2 (le a (length m.action)),
    length-le a (length m.action),
    length-append front1 id,
    length-append header (message_flags a d 0 0 ∷ []),
    length-packet_header (message_signature expects_response m.has_stream) sent_size,
  )

  -- For a sendable draft send builds its packet without an error or a panic. The packet is the
  -- header and the content, and it is filled to the last byte.
  pub message_packet_lem :
      message_packet [] m id expects_response ≡ ok (filled (header ++ message_body m id) [])
  unfolding message_packet message_body
  message_packet_lem =
      let n : ℕ = length m.action in
      let (aw, af) = name_fits n s.short in
      let full : drop d room4 ≡ [] = drop_all room4 d (omega (arith, rooms)) in
      rw
        (
          name_width_lem n s.named s.short,
          data_width_lem (length m.content) s.fits,
          no_files.0,
          no_files.1,
          new_packet-filled _ sent_size (omega (arith, widths, s.short)),
          uint8-filled header (message_flags a d 0 0) (zeros sent_size)
              (omega (arith, length-zeros sent_size)),
          uuid-filled front1 id room1 s.identified (omega (arith, rooms)),
          uint-filled front2 n a room2 aw af (omega (arith, rooms)),
          string-filled front3 m.action room3 s.named (omega (arith, rooms))
              (omega (arith, rooms, front3_short, widths, s.short)),
          data_size-filled front4 (length m.content) d room4 (data_fits (length m.content) s.fits)
              (omega (arith, rooms)),
          full,
        )
        (simp append_assoc)

  -- The size in the header is the length of the body.
  pub sent_size_lem : (sent_size ≡ length (message_body m id)) × (sent_size < 2 ^ 24)
  unfolding message_body
  sent_size_lem = (
    omega (
      arith,
      s.identified,
      length-append id (le a (length m.action) ++ (m.action ++ le d (length m.content))),
      length-append (le a (length m.action)) (m.action ++ le d (length m.content)),
      length-append m.action (le d (length m.content)),
      length-le a (length m.action),
      length-le d (length m.content),
    ),
    omega (arith, widths, s.short),
  )
