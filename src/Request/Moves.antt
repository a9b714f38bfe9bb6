-- ===== src/Request/Moves.antt =====
-- message_draft.go, `send` with a stream writer: the data and the pieces of the stream, in any order.
use sockety_go.Common.{
  zero, suc, ltb, sym, ap, ◌∙◌, append_assoc, take, drop, Bool-cases, inl, inr, ℕ, ◌≡◌, refl, Bool,
  true, false, List, [], ◌∷◌, ◌++◌, none, length, returned, M,
}
use sockety_go.Constants.{packet_data_bits, packet_stream_bits, packet_stream_end_bits}
use sockety_go.MessageDraft.{MessageDraft}
use sockety_go.Send.{Sending}
use sockety_go.StreamWriter.{StreamWriter}
use sockety_go.StreamWriter.Lifetime.{opened, finished, piece_packet, write_goes, close_goes}
use sockety_go.Writer.{Writer, write_raw_at_channel, write_external_with_signature_at_channel}
use sockety_go.Packet.Header.{packet_header}
use sockety_go.Writer.Output.{Accepts, write_raw_at_channel-Wrote, write_external-Wrote}
use sockety_go.Writer.Sequence.{Followed, Wrote-Followed, Followed-none, Followed-append}
use sockety_go.MessageDraft.Layout.{data_width}
use sockety_go.Send.Output.{data_bytes, width_when}
use sockety_go.Request.{
  UserMove, Move, write_data, by_user, user_write, user_close, scheduled, run_move, run_moves,
}

-- The application writes until it closes the stream, once.
abbrev pub IsRun : List UserMove → Type 0
IsRun [] = true ≡ false
IsRun (user_write p ∷ rest) = IsRun rest
IsRun (user_close ∷ rest) = rest ≡ []

-- The packets of the application's moves.
abbrev pub user_bytes : List UserMove → List ℕ
user_bytes [] = []
user_bytes (user_write p ∷ rest) = piece_packet p ++ user_bytes rest
user_bytes (user_close ∷ rest) = (packet_stream_end_bits ∷ []) ++ user_bytes rest

-- All that is written, with the data behind the first `data_at` moves.
abbrev pub run_bytes : MessageDraft → ℕ → List UserMove → List ℕ
run_bytes m data_at moves =
    user_bytes (take data_at moves) ++ (data_bytes m ++ user_bytes (drop data_at moves))

-- The same with the data, whose place is anywhere.
abbrev pub IsOrder : Bool → List Move → Type 0
IsOrder closed [] = closed ≡ true
IsOrder closed (write_data ∷ rest) = IsOrder closed rest
IsOrder false (by_user (user_write p) ∷ rest) = IsOrder false rest
IsOrder true (by_user (user_write p) ∷ rest) = true ≡ false
IsOrder false (by_user user_close ∷ rest) = IsOrder true rest
IsOrder true (by_user user_close ∷ rest) = true ≡ false

abbrev pub moves_bytes : MessageDraft → List Move → List ℕ
moves_bytes m [] = []
moves_bytes m (write_data ∷ rest) =
    (packet_header packet_data_bits (length m.content) ++ m.content) ++ moves_bytes m rest
moves_bytes m (by_user (user_write p) ∷ rest) = piece_packet p ++ moves_bytes m rest
moves_bytes m (by_user user_close ∷ rest) = (packet_stream_end_bits ∷ []) ++ moves_bytes m rest

pub scheduled-IsOrder :
    (some_data : Bool) (data_at : ℕ) (moves : List UserMove)
    → IsRun moves
    → IsOrder false (scheduled some_data data_at moves)
unfolding scheduled
scheduled-IsOrder some_data data_at [] run = cc
scheduled-IsOrder false data_at (user_write p ∷ rest) run = scheduled-IsOrder false data_at rest run
scheduled-IsOrder false data_at (user_close ∷ []) run = refl
scheduled-IsOrder false data_at (user_close ∷ (x ∷ l)) run = cc
scheduled-IsOrder true zero (user_write p ∷ rest) run = scheduled-IsOrder false 0 rest run
scheduled-IsOrder true zero (user_close ∷ []) run = refl
scheduled-IsOrder true zero (user_close ∷ (x ∷ l)) run = cc
scheduled-IsOrder true (suc n) (user_write p ∷ rest) run = scheduled-IsOrder true n rest run
scheduled-IsOrder true (suc n) (user_close ∷ []) run = refl
scheduled-IsOrder true (suc n) (user_close ∷ (x ∷ l)) run = cc

no_data_bytes :
    (m : MessageDraft) (data_at : ℕ) (moves : List UserMove)
    → moves_bytes m (scheduled false data_at moves) ≡ user_bytes moves
unfolding scheduled
no_data_bytes m data_at [] = refl
no_data_bytes m data_at (user_write p ∷ rest) =
    ap (λ l. piece_packet p ++ l) (no_data_bytes m data_at rest)
no_data_bytes m data_at (user_close ∷ rest) =
    ap (λ l. packet_stream_end_bits ∷ l) (no_data_bytes m data_at rest)

split_bytes :
    (n : ℕ) (moves : List UserMove)
    → user_bytes moves ≡ user_bytes (take n moves) ++ user_bytes (drop n moves)
split_bytes zero moves = refl
split_bytes (suc n) [] = refl
split_bytes (suc n) (user_write p ∷ rest) =
    ap (λ l. piece_packet p ++ l) (split_bytes n rest) ∙ sym (append_assoc (piece_packet p) _ _)
split_bytes (suc n) (user_close ∷ rest) = ap (λ l. packet_stream_end_bits ∷ l) (split_bytes n rest)

with_data_bytes :
    (m : MessageDraft) (data_at : ℕ) (moves : List UserMove)
    → moves_bytes m (scheduled true data_at moves)
      ≡ user_bytes (take data_at moves)
        ++ ((packet_header packet_data_bits (length m.content) ++ m.content)
            ++ user_bytes (drop data_at moves))
unfolding scheduled
with_data_bytes m zero [] = refl
with_data_bytes m (suc n) [] = refl
with_data_bytes m zero (user_write p ∷ rest) =
    ap
      (λ l.
        (packet_header packet_data_bits (length m.content) ++ m.content) ++ (piece_packet p ++ l))
      (no_data_bytes m 0 rest)
with_data_bytes m zero (user_close ∷ rest) =
    ap
      (λ l.
        (packet_header packet_data_bits (length m.content) ++ m.content)
        ++ (packet_stream_end_bits ∷ l))
      (no_data_bytes m 0 rest)
with_data_bytes m (suc n) (user_write p ∷ rest) =
    ap (λ l. piece_packet p ++ l) (with_data_bytes m n rest)
    ∙ sym (append_assoc (piece_packet p) _ _)
with_data_bytes m (suc n) (user_close ∷ rest) =
    ap (λ l. packet_stream_end_bits ∷ l) (with_data_bytes m n rest)

pub scheduled_bytes :
    (m : MessageDraft) (data_at : ℕ) (moves : List UserMove)
    → moves_bytes m (scheduled (ltb 0 (data_width (length m.content))) data_at moves)
      ≡ run_bytes m data_at moves
scheduled_bytes m data_at moves =
    rw (width_when (length m.content)) (elim (Bool-cases (ltb 0 (length m.content))) [
      | inl some_data ↦ rw some_data (with_data_bytes m data_at moves)
      | inr no_data ↦ rw no_data (no_data_bytes m data_at moves ∙ split_bytes data_at moves)
    ])

-- The stream before and after its end.
abbrev pub stage : {T : Type 0} → Bool → ℕ → Writer T → StreamWriter T
stage false channel w = opened channel w none
stage true channel w = finished channel w none

abbrev pub waiting : {T : Type 0} → StreamWriter T → Sending (StreamWriter T)
waiting s = record { writer = s; final_error = none }

module _ {T : Type 0} (write_to : List ℕ → M T (Unit {0})) (output : T → List ℕ)
    (a : Accepts write_to output) where
  abbrev pub Runs : ℕ → MessageDraft → List Move → Bool → Writer T → Type 0
  Runs channel m moves closed w =
      (w' : Writer T) × (run_moves write_to channel m moves (waiting (stage closed channel w))
        ≡ returned tt (waiting (finished channel w' none)))
      × Followed write_to output a channel (moves_bytes m moves) w w'

  data_goes :
      (closed : Bool) (channel : ℕ) (m : MessageDraft) (w v : Writer T)
      → write_external_with_signature_at_channel write_to channel packet_data_bits m.content w
        ≡ returned tt v
      → run_move write_to channel m write_data (waiting (stage closed channel w))
        ≡ returned tt (waiting (stage closed channel v))
  unfolding run_move
  data_goes true channel m w v e = rw e refl
  data_goes false channel m w v e = rw e refl

  piece_goes :
      (channel : ℕ) (m : MessageDraft) (p : List ℕ) (w v : Writer T)
      → write_external_with_signature_at_channel write_to channel packet_stream_bits p w
        ≡ returned tt v
      → run_move write_to channel m (by_user (user_write p)) (waiting (opened channel w none))
        ≡ returned tt (waiting (opened channel v none))
  unfolding run_move
  piece_goes channel m p w v e = rw (write_goes write_to p channel w v none e) refl

  end_goes :
      (channel : ℕ) (m : MessageDraft) (w v : Writer T)
      → write_raw_at_channel write_to channel (packet_stream_end_bits ∷ []) w ≡ returned tt v
      → run_move write_to channel m (by_user user_close) (waiting (opened channel w none))
        ≡ returned tt (waiting (finished channel v none))
  unfolding run_move
  end_goes channel m w v e = rw (close_goes write_to channel w v none e) refl

  pub run_moves-Followed :
      (channel : ℕ) (m : MessageDraft) (moves : List Move) (closed : Bool) (w : Writer T)
      → IsOrder closed moves
      → w.channels.current ≡ channel
      → Runs channel m moves closed w
  unfolding run_moves
  run_moves-Followed channel m [] true w ended current =
      (w, refl, Followed-none write_to output a channel w current)
  run_moves-Followed channel m [] false w ended current = cc
  run_moves-Followed channel m (write_data ∷ rest) closed w run current =
      let (v, e, h) = write_external-Wrote write_to output a channel packet_data_bits m.content w in
      let (u, e2, g) = run_moves-Followed channel m rest closed v run h.now_current in
      (
        u,
        rw (data_goes closed channel m w v e) e2,
        Followed-append write_to output a channel _ (moves_bytes m rest) w v u
            (Wrote-Followed write_to output a channel _ w v current h) g,
      )
  run_moves-Followed channel m (by_user (user_write p) ∷ rest) false w run current =
      let (v, e, h) = write_external-Wrote write_to output a channel packet_stream_bits p w in
      let (u, e2, g) = run_moves-Followed channel m rest false v run h.now_current in
      (
        u,
        rw (piece_goes channel m p w v e) e2,
        Followed-append write_to output a channel _ (moves_bytes m rest) w v u
            (Wrote-Followed write_to output a channel _ w v current h) g,
      )
  run_moves-Followed channel m (by_user (user_write p) ∷ rest) true w run current = cc
  run_moves-Followed channel m (by_user user_close ∷ rest) false w run current =
      let (v, e, h) =
        write_raw_at_channel-Wrote write_to output a channel (packet_stream_end_bits ∷ []) w in
      let (u, e2, g) = run_moves-Followed channel m rest true v run h.now_current in
      (
        u,
        rw (end_goes channel m w v e) e2,
        Followed-append write_to output a channel _ (moves_bytes m rest) w v u
            (Wrote-Followed write_to output a channel _ w v current h) g,
      )
  run_moves-Followed channel m (by_user user_close ∷ rest) true w run current = cc
