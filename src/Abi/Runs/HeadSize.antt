-- ===== src/Abi/Runs/HeadSize.antt =====
-- The head-size pass of src/abiencode/ser.rs and its closed form.
use fork_perun_rs.Base.{
  ℕ, ◌+◌, ◌≡◌, ◌∙◌, ap, Bool, true, false, ◌||◌, ok, arith, and_left, and_right,
}
use fork_perun_rs.Abi.Bytes.{slot_size}
use fork_perun_rs.Abi.Value.{
  i8, i16, i32, i64, i128, Value, bool, int, uint, f32, f64, char, str, bytes, option_none,
  option_some, unit, unit_struct, unit_variant, newtype_struct, newtype_variant, seq, tuple,
  tuple_struct, tuple_variant, map, struct, struct_variant, Items, nil, cons,
}
use fork_perun_rs.Abi.Ser.{
  head_size, Writer, no_writer, compute_size, serialize, serialize_items, serialize_bool,
  serialize_int, serialize_uint, serialize_str, serialize_bytes, serialize_unit_struct,
  serialize_seq,
}
use fork_perun_rs.Abi.Spec.{
  is_marker, is_dynamic, is_dynamic_items, is_encodable, is_encodable_items,
}
use fork_perun_rs.Abi.Passes.{head_bytes, head_bytes_items}
use fork_perun_rs.Abi.Writes.{at}
use fork_perun_rs.Abi.Element.{element-head_size}

-- What the head-size pass leaves behind.
abbrev pub SizesRun : Value → Type 0
SizesRun v =
    (w : Writer) (n : ℕ) (d f : Bool)
    → serialize v (at w (head_size n d f))
      ≡ ok (at w (head_size (n + head_bytes v) (d || is_dynamic v) (f || is_marker v)))

pub compute_size_of :
    (v : Value)
    → SizesRun v
    → compute_size (serialize v) ≡ ok (head_bytes v, is_dynamic v, is_marker v)
unfolding compute_size
compute_size_of v run =
    rw (run no_writer 0 false false) (ap (λ n. ok (n, is_dynamic v, is_marker v)) (omega arith))

mutual
  unfolding serialize serialize_bool serialize_int serialize_uint serialize_str serialize_bytes
      serialize_unit_struct serialize_seq is_encodable is_dynamic head_bytes

  pub sizes-run : (v : Value) → is_encodable v ≡ true → SizesRun v
  sizes-run (bool b) h w n d f = ground arith
  sizes-run (int i8 x) h w n d f = ground arith
  sizes-run (int i16 x) h w n d f = ground arith
  sizes-run (int i32 x) h w n d f = ground arith
  sizes-run (int i64 x) h w n d f = ground arith
  sizes-run (int i128 x) h w n d f = ground arith
  sizes-run (uint t x) h w n d f = ground arith
  sizes-run (str x) h w n d f = ground arith
  sizes-run (bytes x) h w n d f = ground arith
  sizes-run (unit_struct name) h w n d f = rw h (ground arith)
  sizes-run (newtype_struct v) h w n d f =
      element-head_size (serialize v) (head_bytes v) 0 (is_dynamic v) (is_marker v)
        (compute_size_of v (sizes-run v h)) w n 0 d f
      ∙ ground arith
  sizes-run (seq k vs) h w n d f =
      sizes_items-run vs (and_right _ _ h) slot_size w (n + slot_size) true f ∙ ground arith
  sizes-run (tuple vs) h w n d f = sizes_items-run vs h 0 w n d f ∙ ground arith
  sizes-run (tuple_struct vs) h w n d f = sizes_items-run vs h 0 w n d f ∙ ground arith
  sizes-run (struct vs) h w n d f = sizes_items-run vs h 0 w n d f ∙ ground arith
  sizes-run f32 h w n d f = cc
  sizes-run f64 h w n d f = cc
  sizes-run char h w n d f = cc
  sizes-run option_none h w n d f = cc
  sizes-run (option_some v) h w n d f = cc
  sizes-run unit h w n d f = cc
  sizes-run unit_variant h w n d f = cc
  sizes-run (newtype_variant v) h w n d f = cc
  sizes-run (tuple_variant vs) h w n d f = cc
  sizes-run (map vs) h w n d f = cc
  sizes-run (struct_variant vs) h w n d f = cc

  pub sizes_items-run :
      (vs : Items)
      → is_encodable_items vs ≡ true
      → (r : ℕ) (w : Writer) (n : ℕ) (d f : Bool)
      → serialize_items r vs (at w (head_size n d f))
        ≡ ok (at w (head_size (n + head_bytes_items vs) (d || is_dynamic_items vs) f))
  sizes_items-run nil h r w n d f = ground arith
  sizes_items-run (cons v vs) h r w n d f =
      rw
        (element-head_size (serialize v) (head_bytes v) 0 (is_dynamic v) (is_marker v)
          (compute_size_of v (sizes-run v (and_left _ _ h))) w n r d f)
        (sizes_items-run vs (and_right _ _ h) r w _ _ f ∙ ground arith)
