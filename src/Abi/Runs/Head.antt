-- ===== src/Abi/Runs/Head.antt =====
-- The head pass of src/abiencode/ser.rs and its closed form.
use mathlib.Core.List.{append_assoc, append-nil}
use fork_perun_rs.Base.{
  ℕ, ◌-◌, ◌≡◌, ◌∙◌, sym, ap, true, List, [], ◌∷◌, ◌++◌, none, some, ok, arith, length, ◌≤◌,
  if◌then◌else◌, inl, inr, Bool-cases, and_left, and_right,
}
use fork_perun_rs.Abi.Bytes.{slot_size, be_bytes, length-be_bytes}
use fork_perun_rs.Abi.Value.{
  i8, i16, i32, i64, i128, u8, u16, u32, u64, u128, UintType, Value, bool, int, uint, f32, f64,
  char, str, bytes, option_none, option_some, unit, unit_struct, unit_variant, newtype_struct,
  newtype_variant, seq, tuple, tuple_struct, tuple_variant, map, struct, struct_variant, Items, nil,
  cons, uint_bytes,
}
use fork_perun_rs.Abi.Ser.{
  usize_max, head, slots, serialize, serialize_items, serialize_tuple_element, serialize_bool,
  serialize_int, serialize_uint, serialize_str, serialize_bytes, serialize_unit_struct,
  serialize_seq,
}
use fork_perun_rs.Abi.Spec.{is_marker, is_dynamic, is_encodable, is_encodable_items}
use fork_perun_rs.Abi.Passes.{
  is_pushed, head_bytes, tail_bytes, next_offset, offset_after, offset_after_items, head_slots,
  head_slots_items, usize_slot,
}
use fork_perun_rs.Abi.Writes.{at, write-right, write-signed, write_chunks_lem, usize_fits}
use fork_perun_rs.Abi.Element.{element-head_pushed, element-head_inline}
use fork_perun_rs.Abi.Runs.TailSize.{sizes_of, get_tail_size_of, tail_size-run}

uint_fits : (t : UintType) (x : ℕ) → length (be_bytes (uint_bytes t) x) ≤ slot_size
uint_fits u8 x = omega (arith, length-be_bytes 1 x)
uint_fits u16 x = omega (arith, length-be_bytes 2 x)
uint_fits u32 x = omega (arith, length-be_bytes 4 x)
uint_fits u64 x = omega (arith, length-be_bytes 8 x)
uint_fits u128 x = omega (arith, length-be_bytes 16 x)

abbrev pub HeadRun : Value → Type 0
HeadRun v =
    (out : List (List ℕ)) (offset : ℕ)
    → serialize v (at (slots out) (head offset))
      ≡ ok (at (slots (out ++ head_slots v offset)) (head (offset_after v offset)))

-- The slots that one item adds to the head of the value around it.
abbrev pub element_slots : ℕ → Value → ℕ → List (List ℕ)
element_slots r v offset =
    if is_pushed v then usize_slot (offset - r) ∷ [] else head_slots v usize_max

element_head-run :
    (v : Value)
    → is_encodable v ≡ true
    → HeadRun v
    → (r : ℕ) (out : List (List ℕ)) (offset : ℕ)
    → serialize_tuple_element (serialize v) r (at (slots out) (head offset))
      ≡ ok (at (slots (out ++ element_slots r v offset)) (head (next_offset v offset)))
element_head-run v h run r out offset = elim (Bool-cases (is_pushed v)) [
  | inl push ↦
      element-head_pushed (serialize v) (head_bytes v) (tail_bytes v) (is_dynamic v) (is_marker v)
        (sizes_of v h) (get_tail_size_of v (tail_size-run v h)) out offset r push
      ∙ rw push
  | inr inline ↦
      element-head_inline (serialize v) (head_bytes v) 0 (is_dynamic v) (is_marker v) (sizes_of v h)
        out (head_slots v usize_max) offset r (head (offset_after v usize_max)) inline
        (run out usize_max)
      ∙ rw inline
]

mutual
  unfolding serialize serialize_bool serialize_int serialize_uint serialize_str serialize_bytes
      serialize_unit_struct serialize_seq is_encodable head_slots offset_after

  pub head-run : (v : Value) → is_encodable v ≡ true → HeadRun v
  head-run (bool b) h out offset =
      write-right _ out _ (omega (arith, length-be_bytes 1 (if b then 1 else 0)))
  head-run (int i8 x) h out offset = write-signed _ out _ _ (omega (arith, length-be_bytes 1 x))
  head-run (int i16 x) h out offset = write-signed _ out _ _ (omega (arith, length-be_bytes 2 x))
  head-run (int i32 x) h out offset = write-signed _ out _ _ (omega (arith, length-be_bytes 4 x))
  head-run (int i64 x) h out offset = write-signed _ out _ _ (omega (arith, length-be_bytes 8 x))
  head-run (int i128 x) h out offset = write-right _ out _ (omega (arith, length-be_bytes 16 x))
  head-run (uint t x) h out offset = write-right _ out _ (uint_fits t x)
  head-run (str x) h out offset = ap (λ o. ok (at (slots o) (head offset))) (sym (append-nil out))
  head-run (bytes x) h out offset = write_chunks_lem x out (head offset)
  head-run (unit_struct name) h out offset =
      rw h (ap (λ o. ok (at (slots o) (head offset))) (sym (append-nil out)))
  head-run (newtype_struct v) h out offset = element_head-run v h (head-run v h) 0 out offset
  head-run (seq (some k) vs) h out offset = rw (write-right _ out (head offset) (usize_fits k)) (
      head_items-run vs (and_right _ _ h) slot_size (out ++ usize_slot k ∷ []) offset
      ∙ ap (λ o. ok (at (slots o) (head (offset_after_items vs offset)))) (append_assoc out _ _))
  head-run (seq none vs) h out offset = cc
  head-run (tuple vs) h out offset = head_items-run vs h 0 out offset
  head-run (tuple_struct vs) h out offset = head_items-run vs h 0 out offset
  head-run (struct vs) h out offset = head_items-run vs h 0 out offset
  head-run f32 h out offset = cc
  head-run f64 h out offset = cc
  head-run char h out offset = cc
  head-run option_none h out offset = cc
  head-run (option_some v) h out offset = cc
  head-run unit h out offset = cc
  head-run unit_variant h out offset = cc
  head-run (newtype_variant v) h out offset = cc
  head-run (tuple_variant vs) h out offset = cc
  head-run (map vs) h out offset = cc
  head-run (struct_variant vs) h out offset = cc

  pub head_items-run :
      (vs : Items)
      → is_encodable_items vs ≡ true
      → (r : ℕ) (out : List (List ℕ)) (offset : ℕ)
      → serialize_items r vs (at (slots out) (head offset))
        ≡ ok
            (at (slots (out ++ head_slots_items r vs offset)) (head (offset_after_items vs offset)))
  head_items-run nil h r out offset =
      ap (λ o. ok (at (slots o) (head offset))) (sym (append-nil out))
  head_items-run (cons v vs) h r out offset =
      rw (element_head-run v (and_left _ _ h) (head-run v (and_left _ _ h)) r out offset) (
        head_items-run vs (and_right _ _ h) r (out ++ element_slots r v offset)
          (next_offset v offset)
        ∙ ap (λ o. ok (at (slots o) (head (offset_after_items vs (next_offset v offset)))))
            (append_assoc out _ _))
