-- ===== src/Abi/Passes.antt =====
-- What each pass of the serializer computes, in closed form: the size of the head, whether the
-- value is dynamic, the size of the tail, and the slots of the head and of the tail.
use fork_perun_rs.Base.{
  ℕ, ◌+◌, ◌-◌, Bool, not, ◌&&◌, Option, some, none, List, [], ◌∷◌, ◌++◌, length, replicate, ◌==◌,
  if◌then◌else◌,
}
use fork_perun_rs.Abi.Bytes.{be_bytes, slot_size, chunks_exact, remainder}
use fork_perun_rs.Abi.Value.{
  IntType, i128, int_bytes, uint_bytes, Value, bool, int, uint, str, bytes, newtype_struct, seq,
  tuple, tuple_struct, struct, Items, nil, cons,
}
use fork_perun_rs.Abi.Spec.{is_marker, is_dynamic}
use fork_perun_rs.Abi.Ser.{usize_bytes, usize_max, is_negative, padded_size}

-- The head holds an offset in place of the value.
abbrev pub is_pushed : Value → Bool
is_pushed v = is_dynamic v && not (is_marker v)

unfoldable mutual
  pub head_bytes : Value → ℕ
  head_bytes (bool _) = slot_size
  head_bytes (int _ _) = slot_size
  head_bytes (uint _ _) = slot_size
  head_bytes (bytes v) = padded_size v
  head_bytes (newtype_struct v) = 0 + (if is_pushed v then slot_size else head_bytes v)
  head_bytes (seq _ vs) = slot_size + head_bytes_items vs
  head_bytes (tuple vs) = head_bytes_items vs
  head_bytes (tuple_struct vs) = head_bytes_items vs
  head_bytes (struct vs) = head_bytes_items vs
  head_bytes _ = 0

  pub head_bytes_items : Items → ℕ
  head_bytes_items nil = 0
  head_bytes_items (cons v vs) =
      (if is_pushed v then slot_size else head_bytes v) + head_bytes_items vs

unfoldable mutual
  pub tail_bytes : Value → ℕ
  tail_bytes (str v) = slot_size + padded_size v
  tail_bytes (newtype_struct v) = (if is_pushed v then head_bytes v else 0) + tail_bytes v
  tail_bytes (seq _ vs) = tail_bytes_items vs
  tail_bytes (tuple vs) = tail_bytes_items vs
  tail_bytes (tuple_struct vs) = tail_bytes_items vs
  tail_bytes (struct vs) = tail_bytes_items vs
  tail_bytes _ = 0

  pub tail_bytes_items : Items → ℕ
  tail_bytes_items nil = 0
  tail_bytes_items (cons v vs) =
      ((if is_pushed v then head_bytes v else 0) + tail_bytes v) + tail_bytes_items vs

-- The offset that the next pushed item gets.
abbrev pub next_offset : Value → ℕ → ℕ
next_offset v offset = if is_pushed v then offset + head_bytes v + tail_bytes v else offset

unfoldable pub offset_after_items : Items → ℕ → ℕ
offset_after_items nil offset = offset
offset_after_items (cons v vs) offset = offset_after_items vs (next_offset v offset)

unfoldable pub offset_after : Value → ℕ → ℕ
unfolding offset_after_items
offset_after (newtype_struct v) offset = next_offset v offset
offset_after (seq _ vs) offset = offset_after_items vs offset
offset_after (tuple vs) offset = offset_after_items vs offset
offset_after (tuple_struct vs) offset = offset_after_items vs offset
offset_after (struct vs) offset = offset_after_items vs offset
offset_after _ offset = offset

-- A slot with bytes at its right end.
abbrev pub right_aligned : ℕ → List ℕ → List ℕ
right_aligned filler v = replicate (slot_size - length v) filler ++ v

abbrev pub usize_slot : ℕ → List ℕ
usize_slot n = right_aligned 0 (be_bytes usize_bytes n)

abbrev pub int_slot : IntType → ℕ → List ℕ
int_slot i128 v = right_aligned 0 (be_bytes 16 v)
int_slot t v = right_aligned (if is_negative t v then 0xff else 0x00) (be_bytes (int_bytes t) v)

-- The slots of a byte string, as the loop over its chunks writes them.
unfoldable pub chunk_slots : List ℕ → List (List ℕ)
chunk_slots v =
    chunks_exact v
    ++ (if length (remainder v) == 0
        then []
        else (remainder v ++ replicate (slot_size - length (remainder v)) 0) ∷ [])

abbrev pub length_slot : Option ℕ → List (List ℕ)
length_slot (some n) = usize_slot n ∷ []
length_slot none = []

unfoldable mutual
  pub head_slots : Value → ℕ → List (List ℕ)
  head_slots (bool v) offset = right_aligned 0 (be_bytes 1 (if v then 1 else 0)) ∷ []
  head_slots (int t v) offset = int_slot t v ∷ []
  head_slots (uint t v) offset = right_aligned 0 (be_bytes (uint_bytes t) v) ∷ []
  head_slots (bytes v) offset = chunk_slots v
  head_slots (newtype_struct v) offset =
      if is_pushed v then usize_slot (offset - 0) ∷ [] else head_slots v usize_max
  head_slots (seq n vs) offset = length_slot n ++ head_slots_items slot_size vs offset
  head_slots (tuple vs) offset = head_slots_items 0 vs offset
  head_slots (tuple_struct vs) offset = head_slots_items 0 vs offset
  head_slots (struct vs) offset = head_slots_items 0 vs offset
  head_slots _ offset = []

  pub head_slots_items : ℕ → Items → ℕ → List (List ℕ)
  head_slots_items r nil offset = []
  head_slots_items r (cons v vs) offset =
      (if is_pushed v then usize_slot (offset - r) ∷ [] else head_slots v usize_max)
      ++ head_slots_items r vs (next_offset v offset)

unfoldable mutual
  pub tail_slots : Value → List (List ℕ)
  tail_slots (str v) = usize_slot (length v) ∷ chunk_slots v
  tail_slots (newtype_struct v) =
      if is_pushed v then head_slots v (head_bytes v) ++ tail_slots v else []
  tail_slots (seq _ vs) = tail_slots_items vs
  tail_slots (tuple vs) = tail_slots_items vs
  tail_slots (tuple_struct vs) = tail_slots_items vs
  tail_slots (struct vs) = tail_slots_items vs
  tail_slots _ = []

  pub tail_slots_items : Items → List (List ℕ)
  tail_slots_items nil = []
  tail_slots_items (cons v vs) =
      (if is_pushed v then head_slots v (head_bytes v) ++ tail_slots v else [])
      ++ tail_slots_items vs
