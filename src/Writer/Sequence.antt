-- ===== src/Writer/Sequence.antt =====
-- writer.go: several writes on one channel, one after the other.
use sockety_go.Common.{
  ℕ, ◌≡◌, refl, sym, ap, ◌∙◌, List, [], ◌++◌, append_assoc, append-nil, ==_iff, M,
}
use sockety_go.Writer.{Writer}
use sockety_go.Writer.Output.{Accepts, switch_to, Wrote}

module _ {T : Type 0} (write_to : List ℕ → M T (Unit {0})) (output : T → List ℕ)
    (a : Accepts write_to output) where
  -- What several writes have written on a channel.
  pub record Streamed (channel : ℕ) (bytes : List ℕ) (w w' : Writer T) : Type 0 where
    pub appended : output w'.target ≡ output w.target ++ (switch_to w.channels channel ++ bytes)
    pub now_current : w'.channels.current ≡ channel

  -- On the current channel there is no further switch.
  no_switch :
      (channel : ℕ) (w : Writer T)
      → w.channels.current ≡ channel
      → switch_to w.channels channel ≡ []
  unfolding switch_to
  no_switch channel w e = rw ((==_iff w.channels.current channel).1 e) refl

  pub joined_output :
      (channel : ℕ) (b c : List ℕ) (w v u : Writer T)
      → Wrote write_to output a channel b w v
      → Streamed channel c v u
      → Streamed channel (b ++ c) w u
  joined_output channel b c w v u first next = record {
    appended =
        next.appended
        ∙ ap (λ l. output v.target ++ (l ++ c)) (no_switch channel v first.now_current)
        ∙ ap (λ l. l ++ c) first.appended
        ∙ append_assoc (output w.target) (switch_to w.channels channel ++ b) c
        ∙ ap (λ l. output w.target ++ l) (append_assoc (switch_to w.channels channel) b c);
    now_current = next.now_current;
  }

  -- What writes on the current channel have appended to the output.
  pub record Followed (channel : ℕ) (bytes : List ℕ) (w w' : Writer T) : Type 0 where
    pub appended : output w'.target ≡ output w.target ++ bytes
    pub now_current : w'.channels.current ≡ channel
    pub same_locks : w'.channels.locks ≡ w.channels.locks
    pub same_count : w'.channels.channels_count ≡ w.channels.channels_count

  pub Wrote-Followed :
      (channel : ℕ) (bytes : List ℕ) (w w' : Writer T)
      → w.channels.current ≡ channel
      → Wrote write_to output a channel bytes w w'
      → Followed channel bytes w w'
  Wrote-Followed channel bytes w w' current h = record {
    appended = h.appended ∙ ap (λ l. output w.target ++ (l ++ bytes)) (no_switch channel w current);
    now_current = h.now_current;
    same_locks = h.same_locks;
    same_count = h.same_count;
  }

  pub Followed-none :
      (channel : ℕ) (w : Writer T) → w.channels.current ≡ channel → Followed channel [] w w
  Followed-none channel w current = record {
    appended = sym (append-nil (output w.target));
    now_current = current;
    same_locks = refl;
    same_count = refl;
  }

  pub Followed-append :
      (channel : ℕ) (b c : List ℕ) (w v u : Writer T)
      → Followed channel b w v
      → Followed channel c v u
      → Followed channel (b ++ c) w u
  Followed-append channel b c w v u first next = record {
    appended = next.appended ∙ ap (λ l. l ++ c) first.appended ∙ append_assoc (output w.target) b c;
    now_current = next.now_current;
    same_locks = next.same_locks ∙ first.same_locks;
    same_count = next.same_count ∙ first.same_count;
  }
