-- ===== src/Network.antt =====
-- utils.go, validateNetwork, and dial.go. The dialler of package net is a parameter: it yields the two directions
-- of a connection, and the setting of the delay may fail.
use sockety_go.Common.{
  ℕ, Bool, true, false, ◌&&◌, ◌||◌, List, [], ◌∷◌, Option, none, some, ◌==◌, if◌then◌else◌,
  unsupported_network, Error, Result, ok, panic, returned, failed, panicked, blocked, stuck, after,
  M, lift,
}
use sockety_go.BufferedReader.{Reply}
use sockety_go.Conn.{ConnOptions, Conn, new_conn}

-- Strings are compared byte by byte.
unfoldable pub same_text : List ℕ → List ℕ → Bool
same_text [] [] = true
same_text [] (b ∷ t) = false
same_text (a ∷ s) [] = false
same_text (a ∷ s) (b ∷ t) = (a == b) && same_text s t

-- "tcp", "tcp4", "tcp6" and "unix".
abbrev pub tcp : List ℕ
tcp = 116 ∷ 99 ∷ 112 ∷ []

abbrev pub tcp4 : List ℕ
tcp4 = 116 ∷ 99 ∷ 112 ∷ 52 ∷ []

abbrev pub tcp6 : List ℕ
tcp6 = 116 ∷ 99 ∷ 112 ∷ 54 ∷ []

abbrev pub unix : List ℕ
unix = 117 ∷ 110 ∷ 105 ∷ 120 ∷ []

unfoldable pub validate_network : List ℕ → Result (Unit {0})
validate_network network =
    if same_text network tcp
      || same_text network tcp4
      || same_text network tcp6
      || same_text network unix
    then ok tt
    else panic unsupported_network

-- What the dialler yields: the connection, and, for a TCP connection, what SetNoDelay answers.
pub record Dialled (Q T : Type 0) : Type 0 where
  pub read_half : Q
  pub write_half : T
  pub no_delay : Option (Option Error)

module _ {N Q T : Type 0} (source : Q → ℕ → Reply Q) (from_bytes : List ℕ → Option (List ℕ))
    (spare : ℕ) (write_to : List ℕ → M T (Unit {0}))
    (dial_network : List ℕ → List ℕ → M N (Dialled Q T)) where
  -- `NewConn` on what was dialled.
  abbrev wrapped : Bool → Option ConnOptions → Dialled Q T → M N (Conn Q T)
  wrapped ctx_done options tcp n =
      elim (new_conn source from_bytes spare write_to ctx_done tcp.read_half options
        tcp.write_half) [
          | returned c _ ↦ returned c n
          | failed e _ ↦ failed e n
          | panicked x ↦ panicked x
          | blocked ↦ blocked
          | stuck ↦ stuck
        ]

  -- `DialContext`; `ctx_done` says whether the context is cancelled once the dialler has returned.
  unfoldable pub dial_context : Bool → List ℕ → List ℕ → Option ConnOptions → M N (Conn Q T)
  dial_context ctx_done network address options n = after (lift (validate_network network) n) λ _ n.
      after (dial_network network address n) λ tcp n. elim tcp.no_delay [
        | none ↦ wrapped ctx_done options tcp n
        | some answer ↦ elim answer [ none ↦ wrapped ctx_done options tcp n | some e ↦ failed e n ]
      ]

  -- The background context is never cancelled.
  unfoldable pub dial : List ℕ → List ℕ → Option ConnOptions → M N (Conn Q T)
  dial network address options = dial_context false network address options
