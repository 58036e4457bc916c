-- ===== src/Abi/Runs/Tail.antt =====
-- The tail pass of src/abiencode/ser.rs and its closed form.
use mathlib.Core.List.{append_assoc, append-nil}
use fork_perun_rs.Base.{
  ℕ, ◌≡◌, ◌∙◌, sym, ap, true, List, [], ◌∷◌, ◌++◌, ok, length, if◌then◌else◌, inl, inr, Bool-cases,
  and_left, and_right,
}
use fork_perun_rs.Abi.Bytes.{slot_size}
use fork_perun_rs.Abi.Value.{
  i8, i16, i32, i64, i128, Value, bool, int, uint, f32, f64, char, str, bytes, option_none,
  option_some, unit, unit_struct, unit_variant, newtype_struct, newtype_variant, seq, tuple,
  tuple_struct, tuple_variant, map, struct, struct_variant, Items, nil, cons,
}
use fork_perun_rs.Abi.Ser.{
  Ser, head, tail, slots, serialize, serialize_items, serialize_tuple_element, serialize_bool,
  serialize_int, serialize_uint, serialize_str, serialize_bytes, serialize_unit_struct,
  serialize_seq,
}
use fork_perun_rs.Abi.Spec.{is_marker, is_dynamic, is_encodable, is_encodable_items}
use fork_perun_rs.Abi.Passes.{
  is_pushed, head_bytes, offset_after, head_slots, usize_slot, tail_slots, tail_slots_items,
}
use fork_perun_rs.Abi.Writes.{at, write-right, write_chunks_lem, usize_fits}
use fork_perun_rs.Abi.Element.{element-tail_inline, element-tail_pushed}
use fork_perun_rs.Abi.Runs.TailSize.{sizes_of}
use fork_perun_rs.Abi.Runs.Head.{head-run}

abbrev pub TailRun : Value → Type 0
TailRun v =
    (out : List (List ℕ))
    → serialize v (at (slots out) tail) ≡ ok (at (slots (out ++ tail_slots v)) tail)

-- The slots that one item adds to the tail of the value around it.
abbrev pub element_tail : Value → List (List ℕ)
element_tail v = if is_pushed v then head_slots v (head_bytes v) ++ tail_slots v else []

element_tail-run :
    (v : Value)
    → is_encodable v ≡ true
    → TailRun v
    → (r : ℕ) (out : List (List ℕ))
    → serialize_tuple_element (serialize v) r (at (slots out) tail)
      ≡ ok (at (slots (out ++ element_tail v)) tail)
element_tail-run v h run r out = elim (Bool-cases (is_pushed v)) [
  | inl push ↦
      element-tail_pushed (serialize v) (head_bytes v) 0 (is_dynamic v) (is_marker v) (sizes_of v h)
        out (head_slots v (head_bytes v)) (tail_slots v) r (head (offset_after v (head_bytes v)))
        tail push (head-run v h out (head_bytes v)) (run (out ++ head_slots v (head_bytes v)))
      ∙ rw push (ap (λ o. ok (at (slots o) tail)) (append_assoc out _ _))
  | inr inline ↦
      element-tail_inline (serialize v) (head_bytes v) 0 (is_dynamic v) (is_marker v) (sizes_of v h)
        (slots out) r inline
      ∙ rw inline (ap (λ o. ok (at (slots o) tail)) (sym (append-nil out)))
]

nothing :
    (out : List (List ℕ))
    → ◌≡◌ {A = Ser} (ok (at (slots out) tail)) (ok (at (slots (out ++ [])) tail))
nothing out = ap (λ o. ok (at (slots o) tail)) (sym (append-nil out))

mutual
  unfolding serialize serialize_bool serialize_int serialize_uint serialize_str serialize_bytes
      serialize_unit_struct serialize_seq is_encodable tail_slots

  pub tail-run : (v : Value) → is_encodable v ≡ true → TailRun v
  tail-run (bool b) h out = nothing out
  tail-run (int i8 x) h out = nothing out
  tail-run (int i16 x) h out = nothing out
  tail-run (int i32 x) h out = nothing out
  tail-run (int i64 x) h out = nothing out
  tail-run (int i128 x) h out = nothing out
  tail-run (uint t x) h out = nothing out
  tail-run (str x) h out = rw (write-right _ out tail (usize_fits (length x))) (
      write_chunks_lem x (out ++ usize_slot (length x) ∷ []) tail
      ∙ ap (λ o. ok (at (slots o) tail)) (append_assoc out _ _))
  tail-run (bytes x) h out = nothing out
  tail-run (unit_struct name) h out = rw h (nothing out)
  tail-run (newtype_struct v) h out = element_tail-run v h (tail-run v h) 0 out
  tail-run (seq k vs) h out = tail_items-run vs (and_right _ _ h) slot_size out
  tail-run (tuple vs) h out = tail_items-run vs h 0 out
  tail-run (tuple_struct vs) h out = tail_items-run vs h 0 out
  tail-run (struct vs) h out = tail_items-run vs h 0 out
  tail-run f32 h out = cc
  tail-run f64 h out = cc
  tail-run char h out = cc
  tail-run option_none h out = cc
  tail-run (option_some v) h out = cc
  tail-run unit h out = cc
  tail-run unit_variant h out = cc
  tail-run (newtype_variant v) h out = cc
  tail-run (tuple_variant vs) h out = cc
  tail-run (map vs) h out = cc
  tail-run (struct_variant vs) h out = cc

  pub tail_items-run :
      (vs : Items)
      → is_encodable_items vs ≡ true
      → (r : ℕ) (out : List (List ℕ))
      → serialize_items r vs (at (slots out) tail)
        ≡ ok (at (slots (out ++ tail_slots_items vs)) tail)
  tail_items-run nil h r out = nothing out
  tail_items-run (cons v vs) h r out =
      rw (element_tail-run v (and_left _ _ h) (tail-run v (and_left _ _ h)) r out) (
        tail_items-run vs (and_right _ _ h) r (out ++ element_tail v)
        ∙ ap (λ o. ok (at (slots o) tail)) (append_assoc out _ _))
