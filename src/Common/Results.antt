-- ===== src/Common/Results.antt =====
-- Go's ways to return, for functions that keep no state: a value, an error, or a panic.
use mathlib.Core.Option.{Option, none, some}
use mathlib.Core.List.{List}
use Prim.Native.Nat.{ℕ}
use sockety_go.Common.Lists.{get_elem?}

-- The errors of the package's `errors.New` and `fmt.Errorf` calls, and those of a reader or writer.
pub data Error : Type 0 where
  eof not_ready : Error
  channels_count read_buffer_size : Error
  invalid_control_bits invalid_channels invalid_channel_id : Error
  limit_out_of_bounds : Error
  channel_processing channel_not_processing : Error
  unexpected_data unexpected_stream malformed_size not_implemented : Error
  go_away_packet abort_packet response_packet continue_packet : Error
  fast_reply_low_packet fast_reply_high_packet file_packet file_end_packet : Error
  unknown_signature : ℕ → Error
  fast_reply_code stream_closed already_sent : Error
  server_closed already_listening not_listening : Error
  external : ℕ → Error

-- Why a goroutine panics: the runtime's reasons, then the package's own `panic` calls.
pub data Panic : Type 0 where
  index_out_of_range nil_dereference close_of_closed_channel : Panic
  invalid_channels_count unsupported_uint invalid_size empty_name too_big : Panic
  impossible_path invalid_option unsupported_network unsupported_producer : Panic
  send_on_closed_channel : Panic
  protocol_error : Error → Panic

pub data Result {ℓ} (A : Type ℓ) : Type ℓ where
  ok : A → Result A
  err : Error → Result A
  panic : Panic → Result A

infixl 5 ◌>>=◌
abbrev pub ◌>>=◌ {ℓ κ} : {A : Type ℓ} {B : Type κ} → Result A → (A → Result B) → Result B
ok a >>= f = f a
err e >>= f = err e
panic p >>= f = panic p

-- The runtime's bounds check.
abbrev pub in_range {ℓ} : {A : Type ℓ} → Option A → Result A
in_range (some a) = ok a
in_range none = panic index_out_of_range

-- `b[i]`.
abbrev pub index {ℓ} : {A : Type ℓ} → List A → ℕ → Result A
index b i = in_range (get_elem? b i)
