-- ===== src/Abi/Spec.antt =====
-- The ABI encoding as the Solidity documentation specifies it, by recursion on the value and with
-- no passes: the encoding of a tuple is the heads of its items and then their tails, where the
-- head of a static item is its encoding and that of a dynamic one the offset of its tail.
use text.Mathlib.Text.{◌==◌ as str_eq}
use fork_perun_rs.Base.{
  ℕ, ◌+◌, ◌-◌, ◌*◌, ◌/◌, ◌^◌, Bool, true, false, ◌&&◌, ◌||◌, Option, none, some, List, [], ◌∷◌,
  ◌++◌, length, replicate, ltb, ◌==◌, if◌then◌else◌,
}
use fork_perun_rs.Abi.Bytes.{be_bytes, slot_size, chunks}
use fork_perun_rs.Abi.Value.{
  IntType, i128, int_bytes, uint_bytes, Value, bool, int, uint, str, bytes, unit_struct,
  newtype_struct, seq, tuple, tuple_struct, struct, Items, nil, cons, count,
}
use fork_perun_rs.Abi.Ser.{mark_dynamic_name, is_negative}

-- The marker that makes the tuple around it dynamic.
abbrev pub is_marker : Value → Bool
is_marker (unit_struct name) = str_eq name mark_dynamic_name
is_marker _ = false

unfoldable mutual
  pub is_dynamic : Value → Bool
  is_dynamic (str _) = true
  is_dynamic (seq _ _) = true
  is_dynamic (newtype_struct v) = is_dynamic v || is_marker v
  is_dynamic (tuple vs) = is_dynamic_items vs
  is_dynamic (tuple_struct vs) = is_dynamic_items vs
  is_dynamic (struct vs) = is_dynamic_items vs
  is_dynamic _ = false

  pub is_dynamic_items : Items → Bool
  is_dynamic_items nil = false
  is_dynamic_items (cons v vs) = (is_dynamic v || is_marker v) || is_dynamic_items vs

-- uint256
abbrev pub word : ℕ → List ℕ
word n = be_bytes slot_size n

-- int256, of a two's complement pattern of fewer bytes: the sign is extended.
abbrev pub int_word : IntType → ℕ → List ℕ
int_word t v = word (if is_negative t v then 2 ^ 256 - 2 ^ (8 * int_bytes t) + v else v)

abbrev pub slots_for : ℕ → ℕ
slots_for n = (n + 31) / slot_size

-- A byte string, padded with zeros on the right to whole slots.
abbrev pub padded : List ℕ → List (List ℕ)
padded v =
    chunks (slots_for (length v)) (v ++ replicate (slot_size * slots_for (length v) - length v) 0)

abbrev pub size : List (List ℕ) → ℕ
size slots = slot_size * length slots

unfoldable mutual
  pub encode : Value → List (List ℕ)
  encode (bool v) = word (if v then 1 else 0) ∷ []
  encode (int t v) = int_word t v ∷ []
  encode (uint _ v) = word v ∷ []
  encode (str v) = word (length v) ∷ padded v
  encode (bytes v) = padded v
  encode (newtype_struct v) = (if is_dynamic v then word slot_size ∷ [] else []) ++ encode v
  encode (seq _ vs) = word (count vs) ∷ (heads vs (heads_size vs) ++ tails vs)
  encode (tuple vs) = heads vs (heads_size vs) ++ tails vs
  encode (tuple_struct vs) = heads vs (heads_size vs) ++ tails vs
  encode (struct vs) = heads vs (heads_size vs) ++ tails vs
  encode _ = []

  pub heads_size : Items → ℕ
  heads_size nil = 0
  heads_size (cons v vs) = (if is_dynamic v then slot_size else size (encode v)) + heads_size vs

  -- The tail of the next dynamic item begins at the offset.
  pub heads : Items → ℕ → List (List ℕ)
  heads nil offset = []
  heads (cons v vs) offset =
      (if is_dynamic v then word offset ∷ [] else encode v)
      ++ heads vs (if is_dynamic v then offset + size (encode v) else offset)

  pub tails : Items → List (List ℕ)
  tails nil = []
  tails (cons v vs) = (if is_dynamic v then encode v else []) ++ tails vs

-- `abi.encode(value)`: the value is the only argument.
unfoldable pub abi_encode : Value → List (List ℕ)
abi_encode v = if is_dynamic v then word slot_size ∷ encode v else encode v

-- A length is a `usize`.
abbrev pub is_announced : Option ℕ → ℕ → Bool
is_announced none n = false
is_announced (some m) n = m == n && ltb n (2 ^ 64)

-- A value that Solidity can represent: no floats, characters, options, enums or maps, every number
-- in the range of its type, no negative i128, and each sequence announced with its length.
unfoldable mutual
  pub is_encodable : Value → Bool
  is_encodable (bool _) = true
  is_encodable (int i128 v) = ltb v (2 ^ 127)
  is_encodable (int t v) = ltb v (256 ^ int_bytes t)
  is_encodable (uint t v) = ltb v (256 ^ uint_bytes t)
  is_encodable (str _) = true
  is_encodable (bytes _) = true
  is_encodable (unit_struct name) = str_eq name mark_dynamic_name
  is_encodable (newtype_struct v) = is_encodable v
  is_encodable (seq n vs) = is_announced n (count vs) && is_encodable_items vs
  is_encodable (tuple vs) = is_encodable_items vs
  is_encodable (tuple_struct vs) = is_encodable_items vs
  is_encodable (struct vs) = is_encodable_items vs
  is_encodable _ = false

  pub is_encodable_items : Items → Bool
  is_encodable_items nil = true
  is_encodable_items (cons v vs) = is_encodable v && is_encodable_items vs
