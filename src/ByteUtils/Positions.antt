-- ===== src/ByteUtils/Positions.antt =====
-- Reads and writes behind a front of the slice, for byte_utils.go: they see what follows the front.
use sockety_go.Common.{
  ℕ, zero, suc, ◌+◌, ◌/◌, ◌≤◌, ◌<◌, ◌≡◌, refl, ap, ◌∙◌, List, [], ◌∷◌, ◌++◌, arith, length,
  length-append, drop-append, get_elem?, set, drop, ok, index, in_range,
}
use sockety_go.ByteUtils.{byte, from, put, copy}

-- The bytes of a number, lowest first.
unfoldable pub le : ℕ → ℕ → List ℕ
le zero v = []
le (suc k) v = byte v ∷ le k (v / 256)

pub length-le : (k v : ℕ) → length (le k v) ≡ k
unfolding le
length-le zero v = refl
length-le (suc k) v = ap suc (length-le k (v / 256))

suc-add : (n i : ℕ) → suc n + i ≡ suc (n + i)
suc-add n i = omega arith

pub get_elem?-append :
    (front xs : List ℕ) (i : ℕ) → get_elem? (front ++ xs) (length front + i) ≡ get_elem? xs i
get_elem?-append [] xs i = let e : 0 + i ≡ i = omega arith in rw e
get_elem?-append (x ∷ front) xs i = rw (suc-add (length front) i) (get_elem?-append front xs i)

set-append :
    (front xs : List ℕ) (i v : ℕ) → set (front ++ xs) (length front + i) v ≡ front ++ set xs i v
set-append [] xs i v = let e : 0 + i ≡ i = omega arith in rw e
set-append (x ∷ front) xs i v = rw (suc-add (length front) i) (ap (◌∷◌ x) (set-append front xs i v))

pub index-append : (front xs : List ℕ) (i : ℕ) → index (front ++ xs) (length front + i) ≡ index xs i
index-append front xs i = ap in_range (get_elem?-append front xs i)

pub put-append :
    (front xs : List ℕ) (i v : ℕ)
    → i < length xs
    → put (front ++ xs) (length front + i) v ≡ ok (front ++ set xs i v)
unfolding put
put-append front xs i v h = ground (arith, set-append front xs i v, length-append front xs)

-- The offset itself, written as a position behind the front.
pub index-append_zero : (front xs : List ℕ) → index (front ++ xs) (length front) ≡ index xs 0
index-append_zero front xs =
    let e : length front ≡ length front + 0 = omega arith in
    ap (index (front ++ xs)) e ∙ index-append front xs 0

pub put-append_zero :
    (front xs : List ℕ) (v : ℕ)
    → 0 < length xs
    → put (front ++ xs) (length front) v ≡ ok (front ++ set xs 0 v)
put-append_zero front xs v h =
    let e : length front ≡ length front + 0 = omega arith in
    ap (λ i. put (front ++ xs) i v) e ∙ put-append front xs 0 v h

pub from-append : (front xs : List ℕ) → from (front ++ xs) (length front) ≡ ok xs
unfolding from
from-append front xs =
    ground (arith, length-append front xs, drop-append front xs (length front) refl)

pub copy-append :
    (xs src : List ℕ) → length src ≤ length xs → copy xs src ≡ src ++ drop (length src) xs
unfolding copy
copy-append [] [] h = refl
copy-append [] (y ∷ src) h = absurd (omega arith)
copy-append (x ∷ xs) [] h = refl
copy-append (x ∷ xs) (y ∷ src) h = ap (◌∷◌ y) (copy-append xs src (omega arith))
