-- ===== src/Abi/Bytes.antt =====
-- Byte strings: `to_be_bytes` of the unsigned integers and `chunks_exact(32)` with its remainder.
use fork_perun_rs.Base.{
  ℕ, zero, suc, ◌+◌, ◌*◌, ◌/◌, ◌%◌, ◌^◌, ◌≤◌, ◌<◌, ◌≡◌, refl, sym, ap, ◌∙◌, List, [], ◌∷◌, ◌++◌,
  arith, length, take, drop, replicate, All, length-append, length-take, length-drop,
}
use mathlib.Core.Path.{ap₂}
use mathlib.Core.List.{append_assoc, append-nil}
use native.Mathlib.Nat.{pow-suc}

-- `n.to_be_bytes()` of a w-byte integer; what does not fit in w bytes is cut off.
unfoldable pub be_bytes : ℕ → ℕ → List ℕ
be_bytes zero n = []
be_bytes (suc w) n = be_bytes w (n / 256) ++ n % 256 ∷ []

-- The number that a big-endian byte string stands for, after a number read so far.
unfoldable pub from_be_after : ℕ → List ℕ → ℕ
from_be_after acc [] = acc
from_be_after acc (b ∷ bs) = from_be_after (acc * 256 + b) bs

unfoldable pub from_be : List ℕ → ℕ
unfolding from_be_after
from_be bs = from_be_after 0 bs

abbrev pub IsByte : ℕ → Type 0
IsByte b = b < 256

-- Slots of the encoding are 32 bytes.
abbrev pub slot_size : ℕ
slot_size = 32

-- The first k chunks of `v.chunks_exact(32)`.
unfoldable pub chunks : ℕ → List ℕ → List (List ℕ)
chunks zero v = []
chunks (suc k) v = take slot_size v ∷ chunks k (drop slot_size v)

-- `chunks_exact(32)` yields as many chunks as fit.
unfoldable pub chunks_exact : List ℕ → List (List ℕ)
unfolding chunks
chunks_exact v = chunks (length v / slot_size) v

-- `chunks_exact(32).remainder()`.
unfoldable pub remainder : List ℕ → List ℕ
remainder v = drop (slot_size * (length v / slot_size)) v

-- All the bytes of a list of slots, in order.
unfoldable pub flatten : List (List ℕ) → List ℕ
flatten [] = []
flatten (s ∷ ss) = s ++ flatten ss

pub length-be_bytes : (w n : ℕ) → length (be_bytes w n) ≡ w
unfolding be_bytes
length-be_bytes zero n = refl
length-be_bytes (suc w) n =
    omega
      (arith, length-append {0} (be_bytes w (n / 256)) (n % 256 ∷ []), length-be_bytes w (n / 256))

from_be_after-append :
    (acc : ℕ) (xs ys : List ℕ)
    → from_be_after acc (xs ++ ys) ≡ from_be_after (from_be_after acc xs) ys
unfolding from_be_after
from_be_after-append acc [] ys = refl
from_be_after-append acc (x ∷ xs) ys = from_be_after-append (acc * 256 + x) xs ys

-- Reading back what `to_be_bytes` wrote gives the number, if it fits.
pub from_be-be_bytes : (w n : ℕ) → n < 256 ^ w → from_be (be_bytes w n) ≡ n
unfolding from_be be_bytes
from_be-be_bytes zero n h = omega arith
from_be-be_bytes (suc w) n h =
    from_be_after-append 0 (be_bytes w (n / 256)) (n % 256 ∷ [])
    ∙ omega (arith, from_be-be_bytes w (n / 256) (omega (arith, pow-suc 256 w)))

-- Zero bytes in front change nothing.
pub from_be-zeros : (k : ℕ) (bs : List ℕ) → from_be (replicate k 0 ++ bs) ≡ from_be bs
unfolding from_be
from_be-zeros zero bs = refl
from_be-zeros (suc k) bs = from_be-zeros k bs

pub length-chunks : (k : ℕ) (v : List ℕ) → length (chunks k v) ≡ k
unfolding chunks
length-chunks zero v = refl
length-chunks (suc k) v = ap suc (length-chunks k (drop slot_size v))

-- Each chunk has 32 bytes.
pub chunks-IsSlot :
    (k : ℕ) (v : List ℕ) → slot_size * k ≤ length v → All (λ s. length s ≡ slot_size) (chunks k v)
unfolding chunks
chunks-IsSlot zero v h = tt
chunks-IsSlot (suc k) v h = (
  length-take slot_size v (omega arith),
  chunks-IsSlot k (drop slot_size v) (omega (arith, length-drop slot_size v)),
)

pub take-append {ℓ} :
    {A : Type ℓ} (n : ℕ) (xs ys : List A) → n ≤ length xs → take n (xs ++ ys) ≡ take n xs
take-append zero xs ys h = refl
take-append (suc n) [] ys h = absurd (omega arith)
take-append (suc n) (x ∷ xs) ys h = ap (◌∷◌ x) (take-append n xs ys (omega arith))

pub drop-append {ℓ} :
    {A : Type ℓ} (n : ℕ) (xs ys : List A) → n ≤ length xs → drop n (xs ++ ys) ≡ drop n xs ++ ys
drop-append zero xs ys h = refl
drop-append (suc n) [] ys h = absurd (omega arith)
drop-append (suc n) (x ∷ xs) ys h = drop-append n xs ys (omega arith)

drop_nil {ℓ} : {A : Type ℓ} (n : ℕ) → drop {A = A} n [] ≡ []
drop_nil zero = refl
drop_nil (suc n) = refl

pub drop-drop {ℓ} :
    {A : Type ℓ} (m n k : ℕ) (xs : List A) → k ≡ n + m → drop m (drop n xs) ≡ drop k xs
drop-drop m zero k xs e = ap (λ j. drop j xs) (omega arith)
drop-drop m (suc n) zero xs e = absurd (omega arith)
drop-drop m (suc n) (suc k) [] e = drop_nil m
drop-drop m (suc n) (suc k) (x ∷ xs) e = drop-drop m n k xs (omega arith)

-- Cutting a padded byte string: the whole chunks, then those of the remainder with the padding.
pub chunks-append :
    (q c k : ℕ) (v z : List ℕ)
    → slot_size * q ≤ length v
    → k ≡ q + c
    → chunks k (v ++ z) ≡ chunks q v ++ chunks c (drop (slot_size * q) v ++ z)
unfolding chunks
chunks-append zero c k v z h e = ap (λ j. chunks j (v ++ z)) (omega arith)
chunks-append (suc q) c zero v z h e = absurd (omega arith)
chunks-append (suc q) c (suc k) v z h e =
    rw (take-append slot_size v z (omega arith), drop-append slot_size v z (omega arith))
      (ap (◌∷◌ (take slot_size v)) (
        rw
          (chunks-append q c k (drop slot_size v) z (omega (arith, length-drop slot_size v))
            (omega arith))
          (rw (drop-drop (slot_size * q) slot_size (slot_size * suc q) v (omega arith)))))

-- One chunk of exactly 32 bytes.
pub chunks_one : (v : List ℕ) → length v ≡ slot_size → chunks 1 v ≡ v ∷ []
unfolding chunks
chunks_one v h = ap (λ s. s ∷ []) (take_all slot_size v h)
  where
    take_all : (n : ℕ) (xs : List ℕ) → length xs ≡ n → take n xs ≡ xs
    take_all zero [] e = refl
    take_all zero (x ∷ xs) e = absurd (omega arith)
    take_all (suc n) [] e = absurd (omega arith)
    take_all (suc n) (x ∷ xs) e = ap (◌∷◌ x) (take_all n xs (omega arith))

-- A number of l = k + w bytes in its high and its low part.
pub be_bytes-append :
    (l k w h n m : ℕ)
    → l ≡ k + w
    → n < 256 ^ w
    → m ≡ h * 256 ^ w + n
    → be_bytes l m ≡ be_bytes k h ++ be_bytes w n
unfolding be_bytes
be_bytes-append l k zero h n m el lt e =
    let same_bytes : l ≡ k = omega (arith, el) in
    let same_number : m ≡ h = omega arith in
    ap₂ be_bytes same_bytes same_number ∙ sym (append-nil (be_bytes k h))
be_bytes-append zero k (suc w) h n m el lt e = absurd (omega arith)
be_bytes-append (suc l) k (suc w) h n m el lt e =
    rw
      (be_bytes-append l k w h (n / 256) (m / 256) (omega arith) (omega (arith, pow-suc 256 w))
        high)
      (rw low (append_assoc (be_bytes k h) (be_bytes w (n / 256)) (n % 256 ∷ [])))
  where
    shifted : m ≡ h * 256 ^ w * 256 + n
    shifted = e ∙ omega (arith, ap (λ (t : ℕ). h * t) (pow-suc 256 w))

    high : m / 256 ≡ h * 256 ^ w + n / 256
    high = omega (arith, shifted)

    low : m % 256 ≡ n % 256
    low = omega (arith, shifted)

replicate_snoc {ℓ} : {A : Type ℓ} (k : ℕ) (a : A) → replicate k a ++ a ∷ [] ≡ a ∷ replicate k a
replicate_snoc zero a = refl
replicate_snoc (suc k) a = ap (◌∷◌ a) (replicate_snoc k a)

pub be_bytes-zero : (k : ℕ) → be_bytes k 0 ≡ replicate k 0
unfolding be_bytes
be_bytes-zero zero = refl
be_bytes-zero (suc k) = rw (be_bytes-zero k) (replicate_snoc k 0)

-- All bytes 0xff are the largest number of k bytes.
pub be_bytes-ones : (k n : ℕ) → n + 1 ≡ 256 ^ k → be_bytes k n ≡ replicate k 255
unfolding be_bytes
be_bytes-ones zero n e = refl
be_bytes-ones (suc k) n e =
    rw (be_bytes-ones k (n / 256) (omega (arith, pow-suc 256 k)))
      (ap (λ b. replicate k 255 ++ b ∷ []) low ∙ replicate_snoc k 255)
  where
    low : n % 256 ≡ 255
    low = omega (arith, pow-suc 256 k)
