-- ===== src/Abi/Refinement.antt =====
-- The closed forms of the four passes of src/abiencode/ser.rs against the specification.
use mathlib.Core.Path.{ap₂}
use mathlib.Core.List.{append-nil}
use fork_perun_rs.Base.{
  ℕ, ◌+◌, ◌-◌, ◌*◌, ◌^◌, ◌<◌, ◌≡◌, ◌∙◌, refl, ap, true, false, List, [], ◌∷◌, ◌++◌, some, none,
  arith, length, replicate, if◌then◌else◌, inl, inr, Bool-cases, and_left, and_right, ltb→lt,
  ==_iff,
}
use fork_perun_rs.Abi.Bytes.{slot_size, length-chunks}
use fork_perun_rs.Abi.Ser.{usize_max}
use fork_perun_rs.Abi.Value.{
  Value, bool, int, uint, str, bytes, newtype_struct, seq, tuple, tuple_struct, struct, Items, nil,
  cons, count, unit_struct,
}
use fork_perun_rs.Abi.Spec.{
  is_announced, is_dynamic, slots_for, word, padded, size, encode, heads_size, heads, tails,
  is_encodable, is_encodable_items,
}
use fork_perun_rs.Abi.Passes.{
  is_pushed, head_bytes, next_offset, head_slots, head_slots_items, tail_slots, tail_slots_items,
  usize_slot, chunk_slots,
}
use fork_perun_rs.Abi.Words.{usize_slot-word, chunk_slots-padded}
use fork_perun_rs.Abi.Static.{pushed-dynamic, static-head_slots, static-tail_slots}
use fork_perun_rs.Abi.Sizes.{size-append, size-heads, bytes-size, head_bytes_items-size}

abbrev pub limit : ℕ
limit = 2 ^ 64

abbrev pub Encodes : Value → Type 0
Encodes v = size (encode v) < limit → head_slots v (head_bytes v) ++ tail_slots v ≡ encode v

static-Encodes : (v : Value) → is_encodable v ≡ true → is_dynamic v ≡ false → Encodes v
static-Encodes v h s _ =
    ap₂ ◌++◌ (static-head_slots v h s (head_bytes v)) (static-tail_slots v s)
    ∙ append-nil (encode v)

next_offset_lem :
    (v : Value) (r offset offset' : ℕ)
    → offset ≡ offset' + r
    → next_offset v offset ≡ (if is_dynamic v then offset' + size (encode v) else offset') + r
next_offset_lem v r offset offset' e = rw (pushed-dynamic v) (elim (Bool-cases (is_dynamic v)) [
  | inl d ↦ rw d (omega (arith, bytes-size v))
  | inr s ↦ rw s e
])

size-tails :
    (v : Value) (vs : Items)
    → size (tails (cons v vs)) ≡ (if is_dynamic v then size (encode v) else 0) + size (tails vs)
unfolding encode
size-tails v vs = elim (Bool-cases (is_dynamic v)) [
  | inl d ↦ rw d (size-append (encode v) (tails vs))
  | inr s ↦ rw s (omega arith)
]

rest_fits :
    (v : Value) (vs : Items) (offset : ℕ)
    → offset + size (tails (cons v vs)) < limit
    → (if is_dynamic v then offset + size (encode v) else offset) + size (tails vs) < limit
rest_fits v vs offset fits = ground (arith, size-tails v vs)

item_head :
    (v : Value) (r offset offset' : ℕ)
    → is_encodable v ≡ true
    → offset ≡ offset' + r
    → offset' < limit
    → (if is_pushed v then usize_slot (offset - r) ∷ [] else head_slots v usize_max)
      ≡ (if is_dynamic v then word offset' ∷ [] else encode v)
item_head v r offset offset' h e fits = rw (pushed-dynamic v) (elim (Bool-cases (is_dynamic v)) [
  | inl d ↦
      rw d (ap (λ n. usize_slot n ∷ []) same ∙ ap (λ w. w ∷ []) (usize_slot-word offset' fits))
  | inr s ↦ rw s (static-head_slots v h s usize_max)
])
  where
    same : offset - r ≡ offset'
    same = omega arith

-- The head of the items, with offsets counted from behind the length of a sequence.
heads-refines :
    (vs : Items) (r offset offset' : ℕ)
    → is_encodable_items vs ≡ true
    → offset ≡ offset' + r
    → offset' + size (tails vs) < limit
    → head_slots_items r vs offset ≡ heads vs offset'
unfolding head_slots encode is_encodable
heads-refines nil r offset offset' h e fits = refl
heads-refines (cons v vs) r offset offset' h e fits =
    ap₂ ◌++◌ (item_head v r offset offset' (and_left _ _ h) e (omega arith)) (
      heads-refines vs r (next_offset v offset)
        (if is_dynamic v then offset' + size (encode v) else offset') (and_right _ _ h)
        (next_offset_lem v r offset offset' e) (rest_fits v vs offset' fits))

item_tail :
    (v : Value)
    → Encodes v
    → (if is_dynamic v then size (encode v) else 0) < limit
    → (if is_pushed v then head_slots v (head_bytes v) ++ tail_slots v else [])
      ≡ (if is_dynamic v then encode v else [])
item_tail v run fits =
    rw (pushed-dynamic v)
      (elim (Bool-cases (is_dynamic v)) [ inl d ↦ rw d (run (rw d at fits)) | inr s ↦ rw s ])

-- A tuple, struct or sequence behind its length, from its heads and its tails.
composite :
    (vs : Items) (r offset : ℕ)
    → offset ≡ heads_size vs + r
    → is_encodable_items vs ≡ true
    → (size (tails vs) < limit → tail_slots_items vs ≡ tails vs)
    → size (heads vs (heads_size vs) ++ tails vs) < limit
    → head_slots_items r vs offset ++ tail_slots_items vs ≡ heads vs (heads_size vs) ++ tails vs
composite vs r offset e h run fits =
    ap₂ ◌++◌ (heads-refines vs r _ (heads_size vs) h e (omega (arith, parts)))
      (run (omega (arith, parts)))
  where
    parts : heads_size vs + size (tails vs) < limit
    parts =
        omega
          (arith, size-append (heads vs (heads_size vs)) (tails vs), size-heads vs (heads_size vs))

newtype-Encodes :
    (v : Value)
    → is_encodable v ≡ true
    → Encodes v
    → size ((if is_dynamic v then word slot_size ∷ [] else []) ++ encode v) < limit
    → (if is_pushed v
          then usize_slot ((0 + (if is_pushed v then slot_size else head_bytes v)) - 0) ∷ []
          else head_slots v usize_max)
        ++ (if is_pushed v then head_slots v (head_bytes v) ++ tail_slots v else [])
      ≡ (if is_dynamic v then word slot_size ∷ [] else []) ++ encode v
newtype-Encodes v h run fits = rw (pushed-dynamic v) (elim (Bool-cases (is_dynamic v)) [
  | inl d ↦
      rw d (ap₂ ◌∷◌ (usize_slot-word slot_size (omega arith)) (run (omega (arith, rw d at fits))))
  | inr s ↦ rw s (append-nil _ ∙ static-head_slots v h s usize_max)
])

string_encodes :
    (v : List ℕ)
    → size (word (length v) ∷ padded v) < limit
    → usize_slot (length v) ∷ chunk_slots v ≡ word (length v) ∷ padded v
string_encodes v fits = ap₂ ◌∷◌ (usize_slot-word (length v) short) (chunk_slots-padded v)
  where
    short : length v < limit
    short = omega (
      arith,
      length-chunks (slots_for (length v))
          (v ++ replicate (slot_size * slots_for (length v) - length v) 0),
    )

length_word :
    (k : ℕ) (vs : Items) → is_announced (some k) (count vs) ≡ true → usize_slot k ≡ word (count vs)
length_word k vs h = ap usize_slot same ∙ usize_slot-word (count vs) (ltb→lt _ _ (and_right _ _ h))
  where
    same : k ≡ count vs
    same = (==_iff k (count vs)).0 (and_left _ _ h)

mutual
  unfolding is_dynamic head_slots tail_slots head_bytes encode is_encodable

  pub encodes : (v : Value) → is_encodable v ≡ true → Encodes v
  encodes (bool b) h fits = static-Encodes (bool b) h refl fits
  encodes (int t x) h fits = static-Encodes (int t x) h refl fits
  encodes (uint t x) h fits = static-Encodes (uint t x) h refl fits
  encodes (str x) h fits = string_encodes x fits
  encodes (bytes x) h fits = static-Encodes (bytes x) h refl fits
  encodes (unit_struct name) h fits = refl
  encodes (newtype_struct v) h fits = newtype-Encodes v h (encodes v h) fits
  encodes (seq (some k) vs) h fits = ap₂ ◌∷◌ (length_word k vs (and_left _ _ h)) (
      composite vs slot_size _ (omega (arith, head_bytes_items-size vs)) (and_right _ _ h)
        (tails-refine vs (and_right _ _ h)) (omega arith))
  encodes (seq none vs) h fits = cc
  encodes (tuple vs) h fits =
      composite vs 0 _ (omega (arith, head_bytes_items-size vs)) h (tails-refine vs h) fits
  encodes (tuple_struct vs) h fits =
      composite vs 0 _ (omega (arith, head_bytes_items-size vs)) h (tails-refine vs h) fits
  encodes (struct vs) h fits =
      composite vs 0 _ (omega (arith, head_bytes_items-size vs)) h (tails-refine vs h) fits
  encodes _ h fits = refl

  tails-refine :
      (vs : Items)
      → is_encodable_items vs ≡ true
      → size (tails vs) < limit
      → tail_slots_items vs ≡ tails vs
  tails-refine nil h fits = refl
  tails-refine (cons v vs) h fits =
      ap₂ ◌++◌ (item_tail v (encodes v (and_left _ _ h)) (omega (arith, size-tails v vs)))
        (tails-refine vs (and_right _ _ h) (omega (arith, size-tails v vs)))
