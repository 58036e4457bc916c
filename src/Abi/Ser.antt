-- ===== src/Abi/Ser.antt =====
-- The serializer of src/abiencode/ser.rs: four passes over one value. A `Serialize`
-- implementation is the function that it is: from a serializer to the serializer after it.
use text.Mathlib.Text.{◌==◌ as str_eq}
use fork_perun_rs.Base.{
  ℕ, ◌+◌, ◌-◌, ◌*◌, ◌^◌, ◌%◌, String, Bool, true, false, not, ◌&&◌, ◌||◌, Option, List, [], ◌∷◌,
  ◌++◌, Outcome, ok, err, panic, ◌>>=◌, unwrap, length, replicate, ltb, leb, ◌==◌, if◌then◌else◌,
}
use fork_perun_rs.Abi.Bytes.{be_bytes, slot_size, chunks_exact, remainder}
use fork_perun_rs.Abi.Value.{
  IntType, i8, i16, i32, i64, i128, int_bytes, UintType, u8, uint_bytes, Value, bool, int, uint,
  f32, f64, char, str, bytes, option_none, option_some, unit, unit_struct, unit_variant,
  newtype_struct, newtype_variant, seq, tuple, tuple_struct, tuple_variant, map, struct,
  struct_variant, Items, nil, cons,
}

pub data Error : Type 0 where
  type_not_representable : String → Error
  type_not_yet_supported : String → Error

pub data Pass : Type 0 where
  head_size : ℕ → Bool → Bool → Pass
  head : ℕ → Pass
  tail_size : ℕ → Pass
  tail : Pass

-- The writer: `NoWriter`, or one that keeps the slots written to it.
pub data Writer : Type 0 where
  no_writer : Writer
  slots : List (List ℕ) → Writer

pub record Serializer : Type 0 where
  pub writer : Writer
  pub pass : Pass

abbrev pub Ser : Type 0
Ser = Outcome Error Serializer

-- `impl Serialize for T`, at one value.
abbrev pub Serialize : Type 0
Serialize = Serializer → Ser

abbrev pub mark_dynamic_name : String
mark_dynamic_name = ":$&_DYNAMIC"

-- `usize` has eight bytes.
abbrev pub usize_bytes : ℕ
usize_bytes = 8

abbrev pub usize_max : ℕ
usize_max = 2 ^ 64 - 1

abbrev write_to : Writer → List ℕ → Outcome Error Writer
write_to no_writer slot = panic
write_to (slots out) slot = ok (slots (out ++ slot ∷ []))

unfoldable pub write : List ℕ → Serialize
write slot s = do w ← write_to s.writer slot; ok (record s { writer = w })

unfoldable pub write_all : List (List ℕ) → Serialize
unfolding write
write_all [] s = ok s
write_all (c ∷ cs) s = do s' ← write c s; write_all cs s'

unfoldable pub write_left_aligned_slice : List ℕ → Serialize
unfolding write
write_left_aligned_slice v s =
    if ltb slot_size (length v) then panic else write (v ++ replicate (slot_size - length v) 0) s

unfoldable pub write_right_aligned : List ℕ → Serialize
unfolding write
write_right_aligned v s =
    if ltb slot_size (length v) then panic else write (replicate (slot_size - length v) 0 ++ v) s

unfoldable pub write_signed : Bool → List ℕ → Serialize
unfolding write
write_signed negative v s =
    let filler : ℕ = if negative then 0xff else 0x00 in
    if ltb slot_size (length v)
    then panic
    else write (replicate (slot_size - length v) filler ++ v) s

-- The loop over the chunks of a byte string, and its remainder.
unfoldable pub write_chunks : List ℕ → Serialize
unfolding write_all write_left_aligned_slice chunks_exact remainder
write_chunks v s = do
  s' ← write_all (chunks_exact v) s
  if length (remainder v) == 0 then ok s' else write_left_aligned_slice (remainder v) s'

abbrev read_head_size : Pass → Outcome Error (ℕ × Bool × Bool)
read_head_size (head_size size is_dynamic is_fake_dynamic) = ok (size, is_dynamic, is_fake_dynamic)
read_head_size _ = panic

unfoldable pub compute_size : Serialize → Outcome Error (ℕ × Bool × Bool)
compute_size value = do
  s ← value (record { writer = no_writer; pass = head_size 0 false false })
  read_head_size s.pass

abbrev read_tail_size : Pass → Outcome Error ℕ
read_tail_size (tail_size size) = ok size
read_tail_size _ = panic

unfoldable pub get_tail_size : Serialize → Outcome Error ℕ
get_tail_size value = do
  s ← value (record { writer = no_writer; pass = tail_size 0 })
  read_tail_size s.pass

-- `Serializer::serialize`: the value goes to the same writer, in a pass of its own.
unfoldable pub serialize_in : Serialize → Pass → Serialize
serialize_in value pass s = do
  inner ← value (record { writer = s.writer; pass = pass })
  ok (record s { writer = inner.writer })

-- The match of `serialize_tuple_element` on the pass.
element_in : Pass → Serialize → ℕ → Serialize
element_in (head_size size is_dynamic fake) value offset_reduction s = do
  sizes ← compute_size value
  let (element_size, is_dyn, is_fake_dynamic) = sizes
  ok (record s {
    pass =
        head_size (size + (if is_dyn && not is_fake_dynamic then slot_size else element_size))
          (is_dynamic || (is_dyn || is_fake_dynamic)) fake;
  })
element_in (head offset) value offset_reduction s = do
  sizes ← compute_size value
  let (field_head_size, is_dyn, is_fake_dynamic) = sizes
  if is_dyn && not is_fake_dynamic
      then (do
        s' ← write_right_aligned (be_bytes usize_bytes (offset - offset_reduction)) s
        n ← get_tail_size value
        ok (record s' { pass = head (offset + field_head_size + n) }))
      else serialize_in value (head usize_max) s
element_in (tail_size size) value offset_reduction s = do
  sizes ← compute_size value
  let (field_head_size, is_dyn, is_fake_dynamic) = sizes
  field_tail_size ← get_tail_size value
  ok (record s {
    pass =
        tail_size
          (size + (if is_dyn && not is_fake_dynamic then field_head_size else 0) + field_tail_size);
  })
element_in tail value offset_reduction s = do
  sizes ← compute_size value
  let (field_head_size, is_dyn, is_fake_dynamic) = sizes
  if is_dyn && not is_fake_dynamic
      then (do s' ← serialize_in value (head field_head_size) s; serialize_in value tail s')
      else ok s

unfoldable pub serialize_tuple_element : Serialize → ℕ → Serialize
unfolding element_in
serialize_tuple_element value offset_reduction s = element_in s.pass value offset_reduction s

-- The integers: 32 bytes in the head, nothing in the tail.
abbrev slot_in : Pass → Serialize → Serialize
slot_in (head_size size d f) put s = ok (record s { pass = head_size (size + slot_size) d f })
slot_in (head _) put s = put s
slot_in (tail_size _) put s = ok s
slot_in tail put s = ok s

-- `v < 0`, of a two's complement bit pattern.
abbrev pub is_negative : IntType → ℕ → Bool
is_negative t v = leb (2 ^ (8 * int_bytes t - 1)) v

unfoldable pub serialize_int : IntType → ℕ → Serialize
serialize_int i8 v s = slot_in s.pass (write_signed (is_negative i8 v) (be_bytes 1 v)) s
serialize_int i16 v s = slot_in s.pass (write_signed (is_negative i16 v) (be_bytes 2 v)) s
serialize_int i32 v s = slot_in s.pass (write_signed (is_negative i32 v) (be_bytes 4 v)) s
serialize_int i64 v s = slot_in s.pass (write_signed (is_negative i64 v) (be_bytes 8 v)) s
serialize_int i128 v s = slot_in s.pass (write_right_aligned (be_bytes 16 v)) s

unfoldable pub serialize_uint : UintType → ℕ → Serialize
serialize_uint t v s = slot_in s.pass (write_right_aligned (be_bytes (uint_bytes t) v)) s

unfoldable pub serialize_bool : Bool → Serialize
serialize_bool v = serialize_uint u8 (if v then 1 else 0)

-- The bytes of a string or byte string without the part that does not fill a slot, and a slot
-- for that part.
abbrev pub padded_size : List ℕ → ℕ
padded_size v = let r = length v % slot_size in (length v - r) + (if r == 0 then 0 else slot_size)

str_in : Pass → List ℕ → Serialize
str_in (head_size size _ f) v s = ok (record s { pass = head_size size true f })
str_in (head _) v s = ok s
str_in (tail_size size) v s =
    ok (record s { pass = tail_size (size + (slot_size + padded_size v)) })
str_in tail v s = do s' ← write_right_aligned (be_bytes usize_bytes (length v)) s; write_chunks v s'

unfoldable pub serialize_str : List ℕ → Serialize
unfolding str_in
serialize_str v s = str_in s.pass v s

bytes_in : Pass → List ℕ → Serialize
bytes_in (head_size size d f) v s = ok (record s { pass = head_size (size + padded_size v) d f })
bytes_in (head _) v s = write_chunks v s
bytes_in (tail_size _) v s = ok s
bytes_in tail v s = ok s

unfoldable pub serialize_bytes : List ℕ → Serialize
unfolding bytes_in
serialize_bytes v s = bytes_in s.pass v s

abbrev mark_in : Pass → Pass
mark_in (head_size size d _) = head_size size d true
mark_in pass = pass

unfoldable pub serialize_unit_struct : String → Serialize
serialize_unit_struct name s =
    if str_eq name mark_dynamic_name
    then ok (record s { pass = mark_in s.pass })
    else err (type_not_representable "unit struct")

seq_in : Pass → Option ℕ → Serialize
seq_in (head_size n _ f) size s = ok (record s { pass = head_size (n + slot_size) true f })
seq_in (head _) size s = do n ← unwrap size; write_right_aligned (be_bytes usize_bytes n) s
seq_in (tail_size _) size s = ok s
seq_in tail size s = ok s

unfoldable pub serialize_seq : Option ℕ → Serialize
unfolding seq_in
serialize_seq size s = seq_in s.pass size s

-- `value.serialize(serializer)`, and the calls of `serialize_element` or `serialize_field` that a
-- derived implementation makes for the items.
unfoldable mutual
  pub serialize : Value → Serialize
  serialize (bool v) s = serialize_bool v s
  serialize (int t v) s = serialize_int t v s
  serialize (uint t v) s = serialize_uint t v s
  serialize f32 s = err (type_not_representable "f32")
  serialize f64 s = err (type_not_representable "f64")
  serialize char s = err (type_not_yet_supported "char")
  serialize (str v) s = serialize_str v s
  serialize (bytes v) s = serialize_bytes v s
  serialize option_none s = err (type_not_representable "none")
  serialize (option_some _) s = err (type_not_representable "some")
  serialize unit s = err (type_not_representable "unit")
  serialize (unit_struct name) s = serialize_unit_struct name s
  serialize unit_variant s = err (type_not_representable "unit variant (enum)")
  serialize (newtype_struct v) s = serialize_tuple_element (serialize v) 0 s
  serialize (newtype_variant _) s = err (type_not_representable "newtype variant (enum)")
  serialize (seq size vs) s = do s' ← serialize_seq size s; serialize_items slot_size vs s'
  serialize (tuple vs) s = serialize_items 0 vs s
  serialize (tuple_struct vs) s = serialize_items 0 vs s
  serialize (tuple_variant _) s = err (type_not_representable "struct variant")
  serialize (map _) s = err (type_not_representable "map")
  serialize (struct vs) s = serialize_items 0 vs s
  serialize (struct_variant _) s = err (type_not_representable "struct variant")

  pub serialize_items : ℕ → Items → Serialize
  serialize_items reduction nil s = ok s
  serialize_items reduction (cons v vs) s = do
    s' ← serialize_tuple_element (serialize v) reduction s
    serialize_items reduction vs s'

-- `to_writer_internal`, on a writer that has already got `out`.
unfoldable pub to_writer_internal : Value → Bool → List (List ℕ) → Outcome Error (List (List ℕ))
to_writer_internal value include_outer_struct out = do
  sizes ← compute_size (serialize value)
  let (size, is_dynamic, _) = sizes
  let start : Serializer = record { writer = slots out; pass = head size }
  s ←
      if is_dynamic && include_outer_struct
      then write_right_aligned (be_bytes usize_bytes slot_size) start
      else ok start
  s' ← serialize value s
  done ← if is_dynamic then serialize value (record s' { pass = tail }) else ok s'
  elim done.writer [ no_writer ↦ panic | slots written ↦ ok written ]

-- The slots that `to_writer` passes to its writer, in order.
unfoldable pub to_writer : Value → Outcome Error (List (List ℕ))
to_writer value = to_writer_internal value true []

unfoldable pub to_fnargs_writer : Value → Outcome Error (List (List ℕ))
to_fnargs_writer value = to_writer_internal value false []
