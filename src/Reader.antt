-- ===== src/Reader.antt =====
-- The interface BufferedReader of buffered_reader.go, which is also streamReaderSource of
-- stream_reader.go: what the readers of numbers, messages and packets use. The methods act on a
-- state of type `S`.
use sockety_go.Common.{
  sym, ap, ◌∙◌, ℕ, ◌≤◌, ◌<◌, ◌≡◌, Bool, true, List, ◌∷◌, Option, none, length, take, drop, Error,
  Outcome, returned, M,
}

-- `Read` returns its count with an error, and the bytes that it has put in front of the target.
pub record Read : Type 0 where
  pub bytes : List ℕ
  pub error : Option Error

pub record BufferedReader (S : Type 0) : Type 0 where
  pub len : S → ℕ
  pub may_have : ℕ → S → Bool
  pub read_byte : M S ℕ
  pub read : ℕ → M S Read
  pub preload : M S (Unit {0})

-- A method returns `a`, and leaves a good state whose content is `rest`.
abbrev pub Yields {ℓ} :
    {S : Type 0} {A : Type ℓ} → (S → Type 0) → (S → List ℕ) → Outcome S A → A → List ℕ → Type ℓ
Yields {S} Good content r a rest = (t : S) × (r ≡ returned a t) × (content t ≡ rest) × Good t

pub Yields-along {ℓ} :
    {S : Type 0} {A : Type ℓ} (Good : S → Type 0) (content : S → List ℕ) {r r' : Outcome S A}
    {a a' : A} {rest rest' : List ℕ}
    → r ≡ r'
    → a ≡ a'
    → rest ≡ rest'
    → Yields Good content r' a' rest'
    → Yields Good content r a rest
Yields-along Good content p q w (t, e, c, g) =
    (t, p ∙ e ∙ ap (λ b. returned b t) (sym q), c ∙ sym w, g)

-- The contract that the clients rely on: in a good state the methods serve the bytes of `content`
-- in order, each once.
pub record IsStream {S : Type 0} (r : BufferedReader S) (Good : S → Type 0) (content : S → List ℕ)
    : Type 0 where
  pub has : (n : ℕ) (s : S) → Good s → n ≤ length (content s) → r.may_have n s ≡ true
  pub serves_byte :
      (s : S) (x : ℕ) (xs : List ℕ)
      → Good s
      → content s ≡ x ∷ xs
      → Yields Good content (r.read_byte s) x xs
  pub serves :
      (n : ℕ) (s : S)
      → Good s
      → n ≤ length (content s)
      → Yields Good content
          (r.read n s)
          (record { bytes = take n (content s); error = none })
          (drop n (content s))
  -- `Len` is what can be had without waiting; `Preload` waits for some of it.
  pub len_within : (s : S) → Good s → r.len s ≤ length (content s)
  pub preloads :
      (s : S)
      → Good s
      → 0 < length (content s)
      → (t : S) × (r.preload s ≡ returned tt t) × (content t ≡ content s) × Good t × (0 < r.len t)
