-- ===== src/ChannelManager/Reservation.antt =====
-- channel_manager.go, Reserve: what it returns, and when it waits.
use sockety_go.Common.{
  ℕ, zero, suc, ◌+◌, ◌-◌, ◌%◌, ◌^◌, ◌≤◌, ◌<◌, ◌≡◌, ◌≢◌, refl, sym, ap, ◌∙◌, subst, arith, true,
  false, set, Option, none, some, ◌==◌, ==_iff, Bool-cases, inl, inr, ◌⊎◌, List, [], ◌∷◌, length,
  get_elem?, get_elem?-lt, ne→==, Outcome, returned, blocked,
}
use native.Mathlib.Nat.{mod-lt, mod-eq_of_lt, add-mod_right}
use mathlib.Core.Bool.{true≢false}
use native.Mathlib.Decide.{dec_lt}
use sockety_go.ChannelManager.{ChannelManager, obtain_lock, candidate, first_channel, reserve}

pub record IsManager (c : ChannelManager) : Type 0 where
  pub some_channel : 0 < c.channels_count
  pub bounded : c.channels_count ≤ 4096
  pub current_inside : c.current < c.channels_count
  pub one_lock_each : length c.locks ≡ c.channels_count

abbrev pub lock_of : ChannelManager → ℕ → Option ℕ
lock_of c channel = get_elem? c.locks channel

-- How a reservation ends: with a channel that was free, whose lock is taken and which is all that
-- changes, or, where each channel is in use, never.
pub data Reservation (c : ChannelManager) : Outcome ChannelManager ℕ → Type 0 where
  reserved :
      (channel : ℕ)
      → channel < c.channels_count
      → lock_of c channel ≡ some 0
      → Reservation c (returned channel (record c { locks = set c.locks channel 1 }))
  waits :
      ((channel : ℕ) → channel < c.channels_count → lock_of c channel ≢ some 0)
      → Reservation c blocked

candidate-lt : (c : ChannelManager) (i : ℕ) → IsManager c → candidate c i < c.channels_count
unfolding candidate
candidate-lt c i m = mod-lt _ m.some_channel

wrap : (n x : ℕ) → (x + n) % n ≡ x % n
wrap n x = add-mod_right x n

-- Each channel is a candidate of some round.
round_of :
    (c : ChannelManager) (channel : ℕ)
    → IsManager c
    → channel < c.channels_count
    → (i : ℕ) × (i < c.channels_count) × (candidate c i ≡ channel)
unfolding candidate
round_of c channel m inside = elim (dec_lt channel c.current) [
  | no behind ↦
      let word : (c.current + (channel - c.current)) % 2 ^ 16 ≡ channel =
        omega (arith, m.bounded) in
      (channel - c.current, omega arith, rw word (mod-eq_of_lt inside))
  | yes before ↦
      let word : (c.current + (channel + c.channels_count - c.current)) % 2 ^ 16
          ≡ channel + c.channels_count =
        omega (arith, m.bounded, m.current_inside) in
      (
        channel + c.channels_count - c.current,
        omega (arith, m.current_inside),
        rw word (wrap c.channels_count channel ∙ mod-eq_of_lt inside),
      )
]

take_free :
    (ch : ℕ) (c : ChannelManager)
    → lock_of c ch ≡ some 0
    → obtain_lock ch c ≡ returned true (record c { locks = set c.locks ch 1 })
unfolding obtain_lock
take_free ch c e = rw e refl

leave_busy :
    (ch v : ℕ) (c : ChannelManager)
    → lock_of c ch ≡ some v
    → v ≢ 0
    → obtain_lock ch c ≡ returned false c
unfolding obtain_lock
leave_busy ch v c e busy = rw (e, ne→== v 0 busy) refl

value_of : Option ℕ → ℕ
value_of none = 0
value_of (some v) = v

-- The loop from round `i` on, where the earlier rounds have found no free channel.
first_channel-Reservation :
    (left i : ℕ) (c : ChannelManager)
    → IsManager c
    → i + left ≡ c.channels_count
    → ((j : ℕ) → j < i → lock_of c (candidate c j) ≢ some 0)
    → Reservation c (first_channel obtain_lock left i c)
unfolding first_channel value_of
first_channel-Reservation zero i c m all tried = waits (λ channel inside.
    let (j, in_time, e) = round_of c channel m inside in
    subst (λ x. lock_of c x ≢ some 0) e (tried j (omega arith)))
first_channel-Reservation (suc left) i c m all tried =
    let ch = candidate c i in
    let (v, e) = get_elem?-lt c.locks ch (omega (arith, candidate-lt c i m, m.one_lock_each)) in
    elim (Bool-cases (v == 0)) [
      | inl free ↦
          let at : lock_of c ch ≡ some 0 = e ∙ ap some ((==_iff v 0).0 free) in
          let round : first_channel obtain_lock (suc left) i c
              ≡ returned ch (record c { locks = set c.locks ch 1 }) =
            rw (take_free ch c at) refl in
          subst (Reservation c) (sym round) (reserved ch (candidate-lt c i m) at)
      | inr busy ↦
          let used : v ≢ 0 = λ z. true≢false (sym ((==_iff v 0).1 z) ∙ busy) in
          let round : first_channel obtain_lock (suc left) i c
              ≡ first_channel obtain_lock left (suc i) c =
            rw (leave_busy ch v c e used) refl in
          subst (Reservation c) (sym round) (
            first_channel-Reservation left (suc i) c m (omega arith)
              (λ j early. not_free j early v e used))
    ]
  where
    not_free :
        (j : ℕ)
        → j < suc i
        → (v : ℕ) → lock_of c (candidate c i) ≡ some v
        → v ≢ 0
        → lock_of c (candidate c j) ≢ some 0
    not_free j early v e used free = elim (dec_lt j i) [
      | yes before ↦ tried j before free
      | no here ↦
          let same : i ≡ j = omega arith in
          used (ap value_of (sym e ∙ ap (λ k. lock_of c (candidate c k)) same ∙ free))
    ]

-- Reserve, with one lock for each of at most 4096 channels: it takes the lock of a free channel and nothing
-- else, or waits for ever, which it does only if every channel is in use.
pub reserve-Reservation : (c : ChannelManager) → IsManager c → Reservation c (reserve c)
unfolding reserve
reserve-Reservation c m =
    first_channel-Reservation c.channels_count 0 c m (omega arith)
      (λ j none_yet. absurd (omega arith))

-- The two ends as equations.
pub reserved-or-waits :
    (c : ChannelManager) (out : Outcome ChannelManager ℕ)
    → Reservation c out
    → ((channel : ℕ) × (channel < c.channels_count)
        × (lock_of c channel ≡ some 0)
        × (out ≡ returned channel (record c { locks = set c.locks channel 1 })))
      ⊎ ((channel : ℕ) → channel < c.channels_count → lock_of c channel ≢ some 0)
reserved-or-waits c out (reserved channel inside free) = inl (channel, inside, free, refl)
reserved-or-waits c out (waits full) = inr full

-- With some channel free, Reserve returns.
pub reserve-free :
    (c : ChannelManager) (other : ℕ)
    → IsManager c
    → other < c.channels_count
    → lock_of c other ≡ some 0
    → (channel : ℕ) × (channel < c.channels_count)
      × (lock_of c channel ≡ some 0)
      × (reserve c ≡ returned channel (record c { locks = set c.locks channel 1 }))
reserve-free c other m inside free =
    elim (reserved-or-waits c (reserve c) (reserve-Reservation c m)) [
      | inl got ↦ got
      | inr full ↦ absurd (full other inside free)
    ]

value_of_lem : {a b : ℕ} → some a ≡ some b → a ≡ b
unfolding value_of
value_of_lem e = ap value_of e

-- A lock that is taken and given back is as before.
pub set-set : (l : List ℕ) (i v w : ℕ) → get_elem? l i ≡ some v → set (set l i w) i v ≡ l
set-set [] i v w e = refl
set-set (x ∷ l) zero v w e = ap (λ y. y ∷ l) (sym (value_of_lem e))
set-set (x ∷ l) (suc i) v w e = ap (λ m. x ∷ m) (set-set l i v w e)

pub lock_of-set :
    (l : List ℕ) (i v w : ℕ) → get_elem? l i ≡ some v → get_elem? (set l i w) i ≡ some w
lock_of-set [] i v w e = cc
lock_of-set (x ∷ l) zero v w e = refl
lock_of-set (x ∷ l) (suc i) v w e = lock_of-set l i v w e
