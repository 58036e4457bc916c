-- ===== src/Abi/Words.antt =====
-- The slots that src/abiencode/ser.rs writes for numbers and byte strings, against those of the
-- specification.
use mathlib.Core.List.{append-nil}
use fork_perun_rs.Base.{
  ℕ, ◌+◌, ◌-◌, ◌*◌, ◌/◌, ◌^◌, ◌<◌, ◌≡◌, ◌≢◌, ◌∙◌, refl, sym, ap, true, false, List, [], ◌∷◌, ◌++◌,
  arith, length, replicate, ◌==◌, if◌then◌else◌, inl, inr, Bool-cases, length-append,
  length-replicate, length-drop, ltb→lt, ==_iff,
}
use fork_perun_rs.Abi.Bytes.{
  slot_size, be_bytes, length-be_bytes, be_bytes-append, be_bytes-zero, be_bytes-ones, chunks,
  chunks_exact, remainder, chunks-append, chunks_one, length-chunks,
}
use fork_perun_rs.Abi.Value.{
  int, IntType, i8, i16, i32, i64, i128, int_bytes, UintType, u8, u16, u32, u64, u128, uint_bytes,
}
use fork_perun_rs.Abi.Ser.{is_negative, padded_size}
use fork_perun_rs.Abi.Spec.{word, int_word, slots_for, padded, size, is_encodable}
use fork_perun_rs.Abi.Passes.{right_aligned, usize_slot, int_slot, chunk_slots}

-- A number that fits in w bytes, with zeros in front.
pub right_aligned-word :
    (w k x : ℕ) → slot_size ≡ k + w → x < 256 ^ w → right_aligned 0 (be_bytes w x) ≡ word x
right_aligned-word w k x e lt =
    rw (length-be_bytes w x)
      (ap (λ z. z ++ be_bytes w x) zeros ∙ sym (be_bytes-append 32 k w 0 x x e lt (omega arith)))
  where
    zeros : replicate (slot_size - w) 0 ≡ be_bytes k 0
    zeros = ap (λ j. replicate j 0) (omega arith) ∙ sym (be_bytes-zero k)

-- Below 2^64 a length or an offset is written as a uint256.
pub usize_slot-word : (n : ℕ) → n < 2 ^ 64 → usize_slot n ≡ word n
usize_slot-word n h = right_aligned-word 8 24 n refl h

pub uint-word :
    (t : UintType) (x : ℕ)
    → x < 256 ^ uint_bytes t
    → right_aligned 0 (be_bytes (uint_bytes t) x) ≡ word x
uint-word u8 x h = right_aligned-word 1 31 x refl h
uint-word u16 x h = right_aligned-word 2 30 x refl h
uint-word u32 x h = right_aligned-word 4 28 x refl h
uint-word u64 x h = right_aligned-word 8 24 x refl h
uint-word u128 x h = right_aligned-word 16 16 x refl h

-- A negative number of w bytes, with its sign in front.
negative-word :
    (w k ones x m : ℕ)
    → slot_size ≡ k + w
    → x < 256 ^ w
    → ones + 1 ≡ 256 ^ k
    → m ≡ ones * 256 ^ w + x
    → right_aligned 0xff (be_bytes w x) ≡ word m
negative-word w k ones x m e lt full em =
    rw (length-be_bytes w x)
      (ap (λ z. z ++ be_bytes w x) signs ∙ sym (be_bytes-append 32 k w ones x m e lt em))
  where
    signs : replicate (slot_size - w) 0xff ≡ be_bytes k ones
    signs = ap (λ j. replicate j 0xff) (omega arith) ∙ sym (be_bytes-ones k ones full)

signed-word :
    (w k : ℕ) (t : IntType) (x : ℕ) (low : ℕ)
    → slot_size ≡ k + w
    → x < 256 ^ w
    → low ≡ 256 ^ k - 1
    → 0 < 256 ^ k
    → 2 ^ 256 - 2 ^ (8 * int_bytes t) ≡ low * 256 ^ w
    → right_aligned (if is_negative t x then 0xff else 0x00) (be_bytes w x) ≡ int_word t x
signed-word w k t x low e lt el pos full = elim (Bool-cases (is_negative t x)) [
  | inl minus ↦ rw minus (negative-word w k low x _ e lt (omega arith) (ap (λ (n : ℕ). n + x) full))
  | inr plus ↦ rw plus (right_aligned-word w k x e lt)
]

-- Signed integers are sign-extended to 32 bytes; a nonnegative i128 too.
pub int_slot-word :
    (t : IntType) (x : ℕ) → is_encodable (int t x) ≡ true → int_slot t x ≡ int_word t x
unfolding is_encodable
int_slot-word i8 x h =
    signed-word 1 31 i8 x (256 ^ 31 - 1) refl (ltb→lt x _ h) refl (omega arith) refl
int_slot-word i16 x h =
    signed-word 2 30 i16 x (256 ^ 30 - 1) refl (ltb→lt x _ h) refl (omega arith) refl
int_slot-word i32 x h =
    signed-word 4 28 i32 x (256 ^ 28 - 1) refl (ltb→lt x _ h) refl (omega arith) refl
int_slot-word i64 x h =
    signed-word 8 24 i64 x (256 ^ 24 - 1) refl (ltb→lt x _ h) refl (omega arith) refl
int_slot-word i128 x h =
    right_aligned-word 16 16 x refl (omega (arith, ltb→lt x (2 ^ 127) h)) ∙ rw plus
  where
    plus : is_negative i128 x ≡ false
    plus = ground (arith, ltb→lt x (2 ^ 127) h)

module _ (v : List ℕ) where
  length-left : length (remainder v) ≡ length v - slot_size * (length v / slot_size)
  unfolding remainder
  length-left = length-drop (slot_size * (length v / slot_size)) v

  padded_whole : length (remainder v) ≡ 0 → padded v ≡ chunks_exact v
  unfolding chunks_exact chunks
  padded_whole e =
      chunks-append (length v / slot_size) 0 (slots_for (length v)) v _ (omega arith)
        (omega (arith, length-left, e))
      ∙ append-nil _

  padded_rest :
      length (remainder v) ≢ 0
      → padded v
        ≡ chunks_exact v ++ (remainder v ++ replicate (slot_size - length (remainder v)) 0) ∷ []
  unfolding chunks_exact remainder
  padded_rest ne =
      chunks-append (length v / slot_size) 1 (slots_for (length v)) v _ (omega arith)
        (omega (arith, length-left, ne))
      ∙ ap (λ c. chunks (length v / slot_size) v ++ c)
          (chunks_one _ full ∙ ap (λ j. (remainder v ++ replicate j 0) ∷ []) zeros)
    where
      left : length (remainder v) ≡ length v - slot_size * (length v / slot_size)
      left = length-left

      zeros : slot_size * slots_for (length v) - length v ≡ slot_size - length (remainder v)
      zeros = omega (arith, left, ne)

      full :
          length (remainder v ++ replicate (slot_size * slots_for (length v) - length v) 0)
          ≡ slot_size
      full =
          length-append (remainder v) _
          ∙ omega (
            arith,
            left,
            ne,
            length-replicate {0} (slot_size * slots_for (length v) - length v) (ℕ.zero),
          )

-- The bytes of a string in whole slots, the last one padded with zeros.
pub chunk_slots-padded : (v : List ℕ) → chunk_slots v ≡ padded v
unfolding chunk_slots
chunk_slots-padded v = elim (Bool-cases (length (remainder v) == 0)) [
  | inl whole ↦
      rw whole (append-nil _ ∙ sym (padded_whole v ((==_iff (length (remainder v)) 0).0 whole)))
  | inr rest ↦ rw rest (sym (padded_rest v (λ e. ground arith)))
]

pub padded_size_lem : (v : List ℕ) → padded_size v ≡ size (padded v)
padded_size_lem v = rw (length-chunks (slots_for (length v)) _) (ground arith)
