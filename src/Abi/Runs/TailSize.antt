-- ===== src/Abi/Runs/TailSize.antt =====
-- The tail-size pass of src/abiencode/ser.rs and its closed form.
use fork_perun_rs.Base.{ℕ, ◌+◌, ◌≡◌, ◌∙◌, ap, true, ok, arith, and_left, and_right}
use fork_perun_rs.Abi.Bytes.{slot_size}
use fork_perun_rs.Abi.Value.{
  i8, i16, i32, i64, i128, Value, bool, int, uint, f32, f64, char, str, bytes, option_none,
  option_some, unit, unit_struct, unit_variant, newtype_struct, newtype_variant, seq, tuple,
  tuple_struct, tuple_variant, map, struct, struct_variant, Items, nil, cons,
}
use fork_perun_rs.Abi.Ser.{
  tail_size, Writer, no_writer, compute_size, get_tail_size, serialize, serialize_items,
  serialize_bool, serialize_int, serialize_uint, serialize_str, serialize_bytes,
  serialize_unit_struct, serialize_seq,
}
use fork_perun_rs.Abi.Spec.{is_marker, is_dynamic, is_encodable, is_encodable_items}
use fork_perun_rs.Abi.Passes.{head_bytes, tail_bytes, tail_bytes_items}
use fork_perun_rs.Abi.Writes.{at}
use fork_perun_rs.Abi.Element.{element-tail_size}
use fork_perun_rs.Abi.Runs.HeadSize.{compute_size_of, sizes-run}

pub sizes_of :
    (v : Value)
    → is_encodable v ≡ true
    → compute_size (serialize v) ≡ ok (head_bytes v, is_dynamic v, is_marker v)
sizes_of v h = compute_size_of v (sizes-run v h)

pub get_tail_size_of :
    (v : Value)
    → ((w : Writer) (n : ℕ)
        → serialize v (at w (tail_size n)) ≡ ok (at w (tail_size (n + tail_bytes v))))
    → get_tail_size (serialize v) ≡ ok (tail_bytes v)
unfolding get_tail_size
get_tail_size_of v run = rw (run no_writer 0) (ap ok (omega arith))

mutual
  unfolding serialize serialize_bool serialize_int serialize_uint serialize_str serialize_bytes
      serialize_unit_struct serialize_seq is_encodable tail_bytes

  pub tail_size-run :
      (v : Value)
      → is_encodable v ≡ true
      → (w : Writer) (n : ℕ)
      → serialize v (at w (tail_size n)) ≡ ok (at w (tail_size (n + tail_bytes v)))
  tail_size-run (bool b) h w n = ground arith
  tail_size-run (int i8 x) h w n = ground arith
  tail_size-run (int i16 x) h w n = ground arith
  tail_size-run (int i32 x) h w n = ground arith
  tail_size-run (int i64 x) h w n = ground arith
  tail_size-run (int i128 x) h w n = ground arith
  tail_size-run (uint t x) h w n = ground arith
  tail_size-run (str x) h w n = ground arith
  tail_size-run (bytes x) h w n = ground arith
  tail_size-run (unit_struct name) h w n = rw h (ground arith)
  tail_size-run (newtype_struct v) h w n =
      element-tail_size (serialize v) (head_bytes v) (tail_bytes v) (is_dynamic v) (is_marker v)
        (sizes_of v h) (get_tail_size_of v (tail_size-run v h)) w n 0
      ∙ ground arith
  tail_size-run (seq k vs) h w n = tail_size_items-run vs (and_right _ _ h) slot_size w n
  tail_size-run (tuple vs) h w n = tail_size_items-run vs h 0 w n
  tail_size-run (tuple_struct vs) h w n = tail_size_items-run vs h 0 w n
  tail_size-run (struct vs) h w n = tail_size_items-run vs h 0 w n
  tail_size-run f32 h w n = cc
  tail_size-run f64 h w n = cc
  tail_size-run char h w n = cc
  tail_size-run option_none h w n = cc
  tail_size-run (option_some v) h w n = cc
  tail_size-run unit h w n = cc
  tail_size-run unit_variant h w n = cc
  tail_size-run (newtype_variant v) h w n = cc
  tail_size-run (tuple_variant vs) h w n = cc
  tail_size-run (map vs) h w n = cc
  tail_size-run (struct_variant vs) h w n = cc

  pub tail_size_items-run :
      (vs : Items)
      → is_encodable_items vs ≡ true
      → (r : ℕ) (w : Writer) (n : ℕ)
      → serialize_items r vs (at w (tail_size n)) ≡ ok (at w (tail_size (n + tail_bytes_items vs)))
  tail_size_items-run nil h r w n = ground arith
  tail_size_items-run (cons v vs) h r w n =
      rw
        (element-tail_size (serialize v) (head_bytes v) (tail_bytes v) (is_dynamic v) (is_marker v)
          (sizes_of v (and_left _ _ h)) (get_tail_size_of v (tail_size-run v (and_left _ _ h))) w n
          r)
        (tail_size_items-run vs (and_right _ _ h) r w _ ∙ ground arith)
