-- ===== src/Common/Outcomes.antt =====
-- Go's ways to return, for methods that change state: the state after an error is kept.
use sockety_go.Common.Results.{Error, Panic, Result, ok, err, panic}

-- `blocked` is a goroutine that waits, and goes on only if another one acts; `stuck` is no Go outcome,
-- but a loop of the model that has used up its rounds.
pub data Outcome {ℓ κ} (S : Type ℓ) (A : Type κ) : Type (ℓ ⊔ κ) where
  returned : A → S → Outcome S A
  failed : Error → S → Outcome S A
  panicked : Panic → Outcome S A
  blocked : Outcome S A
  stuck : Outcome S A

abbrev pub after {ℓ κ μ} :
    {S : Type ℓ} {A : Type κ} {B : Type μ} → Outcome S A → (A → S → Outcome S B) → Outcome S B
after (returned a s) f = f a s
after (failed e s) f = failed e s
after (panicked p) f = panicked p
after blocked f = blocked
after stuck f = stuck

abbrev pub M {ℓ κ} : Type ℓ → Type κ → Type (ℓ ⊔ κ)
M S A = S → Outcome S A

-- A stateless result inside a method.
abbrev pub lift {ℓ κ} : {S : Type ℓ} {A : Type κ} → Result A → M S A
lift (ok a) s = returned a s
lift (err e) s = failed e s
lift (panic p) s = panicked p

-- An outcome on a part of the state, put back into the whole.
abbrev pub embed {ℓ κ μ} :
    {S : Type ℓ} {T : Type κ} {A : Type μ} → (T → S) → Outcome T A → Outcome S A
embed put (returned a t) = returned a (put t)
embed put (failed e t) = failed e (put t)
embed put (panicked p) = panicked p
embed put blocked = blocked
embed put stuck = stuck
