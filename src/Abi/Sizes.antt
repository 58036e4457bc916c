-- ===== src/Abi/Sizes.antt =====
-- The size passes of src/abiencode/ser.rs against the size of the encoding.
use fork_perun_rs.Base.{
  ℕ, ◌+◌, ◌≡◌, refl, List, [], ◌∷◌, ◌++◌, arith, if◌then◌else◌, inl, inr, Bool-cases, length-append,
}
use fork_perun_rs.Abi.Bytes.{slot_size}
use fork_perun_rs.Abi.Value.{
  Value, bool, int, uint, str, bytes, newtype_struct, seq, tuple, tuple_struct, struct, Items, nil,
  cons,
}
use fork_perun_rs.Abi.Spec.{is_dynamic, size, encode, heads_size, heads, tails, word}
use fork_perun_rs.Abi.Passes.{is_pushed, head_bytes, head_bytes_items, tail_bytes, tail_bytes_items}
use fork_perun_rs.Abi.Words.{padded_size_lem}
use fork_perun_rs.Abi.Static.{pushed-dynamic, static-tail_bytes}

pub size-append : (xs ys : List (List ℕ)) → size (xs ++ ys) ≡ size xs + size ys
size-append xs ys = omega (arith, length-append {0} xs ys)

-- The heads of some items take the space that the first offset leaves for them.
pub size-heads : (vs : Items) (offset : ℕ) → size (heads vs offset) ≡ heads_size vs
unfolding encode
size-heads nil offset = refl
size-heads (cons v vs) offset = elim (Bool-cases (is_dynamic v)) [
  | inl d ↦ rw d (omega (arith, size-heads vs (offset + size (encode v))))
  | inr s ↦ rw s (omega (arith, size-append (encode v) (heads vs offset), size-heads vs offset))
]

-- What an item adds to the head and to the tail.
item_head :
    (v : Value)
    → head_bytes v + tail_bytes v ≡ size (encode v)
    → (if is_pushed v then slot_size else head_bytes v)
      ≡ (if is_dynamic v then slot_size else size (encode v))
item_head v h = rw (pushed-dynamic v) (elim (Bool-cases (is_dynamic v)) [
  | inl d ↦ rw d
  | inr s ↦ rw s (omega (arith, static-tail_bytes v s))
])

item_tail :
    (v : Value)
    → head_bytes v + tail_bytes v ≡ size (encode v)
    → (if is_pushed v then head_bytes v else 0) + tail_bytes v
      ≡ size (if is_dynamic v then encode v else [])
item_tail v h = rw (pushed-dynamic v) (elim (Bool-cases (is_dynamic v)) [
  | inl d ↦ rw d h
  | inr s ↦ rw s (omega (arith, static-tail_bytes v s))
])

newtype_size :
    (v : Value)
    → head_bytes v + tail_bytes v ≡ size (encode v)
    → (0 + (if is_pushed v then slot_size else head_bytes v))
        + ((if is_pushed v then head_bytes v else 0) + tail_bytes v)
      ≡ size ((if is_dynamic v then word slot_size ∷ [] else []) ++ encode v)
newtype_size v h = rw (pushed-dynamic v) (elim (Bool-cases (is_dynamic v)) [
  | inl d ↦ rw d (omega (arith, h))
  | inr s ↦ rw s (omega (arith, h))
])

composite :
    (vs : Items) (h t : ℕ)
    → h ≡ heads_size vs
    → t ≡ size (tails vs)
    → h + t ≡ size (heads vs (heads_size vs) ++ tails vs)
composite vs h t eh et =
    omega (arith, size-append (heads vs (heads_size vs)) (tails vs), size-heads vs (heads_size vs))

mutual
  unfolding head_bytes tail_bytes encode

  pub bytes-size : (v : Value) → head_bytes v + tail_bytes v ≡ size (encode v)
  bytes-size (bool _) = refl
  bytes-size (int _ _) = refl
  bytes-size (uint _ _) = refl
  bytes-size (str v) = omega (arith, padded_size_lem v)
  bytes-size (bytes v) = omega (arith, padded_size_lem v)
  bytes-size (newtype_struct v) = newtype_size v (bytes-size v)
  bytes-size (seq _ vs) =
      omega (arith, composite vs _ _ (head_bytes_items-size vs) (tail_bytes_items-size vs))
  bytes-size (tuple vs) = composite vs _ _ (head_bytes_items-size vs) (tail_bytes_items-size vs)
  bytes-size (tuple_struct vs) =
      composite vs _ _ (head_bytes_items-size vs) (tail_bytes_items-size vs)
  bytes-size (struct vs) = composite vs _ _ (head_bytes_items-size vs) (tail_bytes_items-size vs)
  bytes-size _ = refl

  pub head_bytes_items-size : (vs : Items) → head_bytes_items vs ≡ heads_size vs
  head_bytes_items-size nil = refl
  head_bytes_items-size (cons v vs) =
      omega (arith, item_head v (bytes-size v), head_bytes_items-size vs)

  pub tail_bytes_items-size : (vs : Items) → tail_bytes_items vs ≡ size (tails vs)
  tail_bytes_items-size nil = refl
  tail_bytes_items-size (cons v vs) = omega (
    arith,
    item_tail v (bytes-size v),
    tail_bytes_items-size vs,
    size-append (if is_dynamic v then encode v else []) (tails vs),
  )
