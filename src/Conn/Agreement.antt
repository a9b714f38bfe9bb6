-- ===== src/Conn/Agreement.antt =====
-- conn.go, NewConn, on both sides of a connection.
use sockety_go.Common.{
  ℕ, ◌≤◌, ◌<◌, ◌≡◌, ◌≢◌, sym, ap, subst, ◌∙◌, List, ◌++◌, arith, Bool, Option, some, length, ok,
  returned, M,
}
use sockety_go.BufferedReader.{Reply, Buffered}
use sockety_go.BufferedReader.Window.{Delivers, content}
use sockety_go.BufferedReader.Stream.{IsOpen, buffered, buffered-IsStream}
use sockety_go.ChannelManager.{ChannelManager}
use sockety_go.Parser.{Parser, get_default}
use sockety_go.Parser.Header.{announced, announced_else}
use sockety_go.Parser.Start.{IsBufferSize}
use sockety_go.ProtocolUtils.{create_protocol_header}
use sockety_go.Writer.Output.{Accepts}
use sockety_go.Send.Sides.{InStep}
use sockety_go.Conn.{ConnOptions, Conn, new_conn}
use sockety_go.Conn.Handshake.{
  count_of, agreed, agreed_bounds, announced_few, count_bounds, new_channels-IsManager, Connected,
  new_conn-Connected,
}

agreed_few : (n limit : ℕ) → 0 < n → 0 < limit → n ≢ 256 → agreed (announced n) limit ≤ n
unfolding get_default
agreed_few n limit some_channels some_limit other =
    subst (λ k. agreed k limit ≤ n) (sym (announced_else n other))
      (below n limit some_channels some_limit)
  where
    below : (n limit : ℕ) → 0 < n → 0 < limit → agreed n limit ≤ n
    below n limit a b = ground arith

module _ {Q T : Type 0} (source : Q → ℕ → Reply Q) (pending : Q → List ℕ)
    (d : Delivers source pending) (from_bytes : List ℕ → Option (List ℕ))
    (documented : (bs : List ℕ) → length bs ≡ 16 → from_bytes bs ≡ some bs)
    (write_to : List ℕ → M T (Unit {0})) (output : T → List ℕ) (a : Accepts write_to output) where
  abbrev pub AreInStep : ChannelManager → List ℕ → Parser (Buffered Q) → Type 0
  AreInStep m left p =
      InStep (buffered source 0) (IsOpen source pending d) (content source pending d)
        (buffered-IsStream source pending d 0) from_bytes documented m left p

  -- The writer of one side, and the parser of the other.
  in_step_from :
      (n limit k h l : ℕ) (own own2 left left2 : List ℕ) (t t2 u u2 : T) (c c2 : Conn Q T)
      → 0 < n
      → n ≤ 4096
      → 0 < limit
      → limit ≤ 4096
      → n ≢ 256
      → Connected source pending d from_bytes write_to output a k (announced n) limit own left t u c
      → Connected source pending d from_bytes write_to output a n h l own2 left2 t2 u2 c2
      → AreInStep c.w.channels left2 c2.p
  in_step_from n limit k h l own own2 left left2 t t2 u u2 c c2 some_channels bounded some_limit
        limited other side side2 =
      let (positive, below) = agreed_bounds (announced n) limit (announced_few n bounded) limited in
      subst (λ m. AreInStep m left2 c2.p) (sym side.channels_are)
        (record {
          manager = new_channels-IsManager (agreed (announced n) limit) positive below;
          few =
              subst (λ k. agreed (announced n) limit ≤ k) (sym side2.counted)
                (agreed_few n limit some_channels some_limit other);
          on_current = side2.on_first;
          current_there = (_, side2.first_there);
          no_packet = side2.no_packet;
          all_free = side2.all_free;
          reading = side2.reading;
        })

  -- Where each side of a connection reads the header that the other writes, and neither has 256 channels to read,
  -- NewConn of both sides returns, and in both directions the writer of one side and the parser of the
  -- other are in step: the parser has each channel of the writer, free, and stands right behind the
  -- header, on the writer's current channel.
  pub new_conn-InStep :
      (parent_done parent_done2 : Bool) (q q2 : Q) (o o2 : ConnOptions) (t t2 : T)
      (own own2 left left2 : List ℕ)
      → o.channels ≤ 4096
      → o.write_channels ≤ 4096
      → IsBufferSize o.read_buffer_size
      → o2.channels ≤ 4096
      → o2.write_channels ≤ 4096
      → IsBufferSize o2.read_buffer_size
      → count_of o.channels ≢ 256
      → count_of o2.channels ≢ 256
      → create_protocol_header (count_of o.channels) ≡ ok own
      → create_protocol_header (count_of o2.channels) ≡ ok own2
      → pending q ≡ own2 ++ left
      → pending q2 ≡ own ++ left2
      → (c : Conn Q T) × (c2 : Conn Q T) × (new_conn source from_bytes 0 write_to parent_done q
            (some o)
            t
          ≡ returned c c.w.target)
        × (new_conn source from_bytes 0 write_to parent_done2 q2 (some o2) t2
            ≡ returned c2 c2.w.target)
        × (output c.w.target ≡ output t ++ own)
        × (output c2.w.target ≡ output t2 ++ own2)
        × AreInStep c.w.channels left2 c2.p
        × AreInStep c2.w.channels left c.p
  new_conn-InStep parent_done parent_done2 q q2 o o2 t t2 own own2 left left2 few few_written sized
        few2 few_written2 sized2 other other2 made made2 begins begins2 =
      let (positive, below) = count_bounds o.channels few in
      let (positive2, below2) = count_bounds o2.channels few2 in
      let (limit_positive, limit_below) = count_bounds o.write_channels few_written in
      let (limit_positive2, limit_below2) = count_bounds o2.write_channels few_written2 in
      let (c, u, e, side) =
        new_conn-Connected source pending d from_bytes write_to output a parent_done q o t
          (count_of o2.channels) own2 own left few few_written sized positive2 below2 made2 made
          begins in
      let (c2, u2, e2, side2) =
        new_conn-Connected source pending d from_bytes write_to output a parent_done2 q2 o2 t2
          (count_of o.channels) own own2 left2 few2 few_written2 sized2 positive below made made2
          begins2 in
      (
        c,
        c2,
        e ∙ ap (returned c) (sym side.target_is),
        e2 ∙ ap (returned c2) (sym side2.target_is),
        side.written,
        side2.written,
        in_step_from (count_of o2.channels) (count_of o.write_channels) _ _ _ own own2 left left2 t
            t2 u u2 c c2 positive2 below2 limit_positive limit_below other2 side side2,
        in_step_from (count_of o.channels) (count_of o2.write_channels) _ _ _ own2 own left2 left t2
            t u2 u c2 c positive below limit_positive2 limit_below2 other side2 side,
      )
