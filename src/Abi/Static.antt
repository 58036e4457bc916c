-- ===== src/Abi/Static.antt =====
-- Static values in the closed forms of the passes of src/abiencode/ser.rs.
use mathlib.Core.Path.{ap₂}
use mathlib.Core.List.{append-nil}
use fork_perun_rs.Base.{
  ℕ, ◌≡◌, ◌∙◌, refl, sym, ap, Bool, true, false, not, ◌&&◌, ◌||◌, List, [], ◌∷◌, ◌++◌, arith,
  and_left, and_right, ltb→lt,
}
use fork_perun_rs.Abi.Value.{
  Value, bool, int, uint, str, bytes, unit_struct, newtype_struct, seq, tuple, tuple_struct, struct,
  Items, nil, cons,
}
use fork_perun_rs.Abi.Ser.{usize_max}
use fork_perun_rs.Abi.Spec.{
  is_marker, is_dynamic, is_dynamic_items, encode, heads_size, heads, tails, is_encodable,
  is_encodable_items,
}
use fork_perun_rs.Abi.Passes.{
  is_pushed, tail_bytes, tail_bytes_items, head_slots, head_slots_items, tail_slots,
  tail_slots_items,
}
use fork_perun_rs.Abi.Words.{uint-word, int_slot-word, chunk_slots-padded, right_aligned-word}

and_true : (b : Bool) → b && not false ≡ b
and_true b = ground arith

-- The marker is not dynamic itself.
pub pushed-dynamic : (v : Value) → is_pushed v ≡ is_dynamic v
unfolding is_dynamic
pushed-dynamic (unit_struct name) = refl
pushed-dynamic (str _) = refl
pushed-dynamic (newtype_struct v) = and_true _
pushed-dynamic (tuple vs) = and_true _
pushed-dynamic (tuple_struct vs) = and_true _
pushed-dynamic (struct vs) = and_true _
pushed-dynamic _ = refl

or_left : (a b c : Bool) → (a || b) || c ≡ false → a ≡ false
or_left a b c h = ground arith

or_right : (a c : Bool) → a || c ≡ false → c ≡ false
or_right a c h = ground arith

or_first : (a b : Bool) → a || b ≡ false → a ≡ false
or_first a b h = ground arith

pub static_pushed : (v : Value) → is_dynamic v ≡ false → is_pushed v ≡ false
static_pushed v s = pushed-dynamic v ∙ s

mutual
  unfolding is_dynamic tail_bytes

  pub static-tail_bytes : (v : Value) → is_dynamic v ≡ false → tail_bytes v ≡ 0
  static-tail_bytes (newtype_struct v) s =
      rw (static_pushed v (or_first _ _ s))
        (rw (static-tail_bytes v (or_first _ _ s)) (omega arith))
  static-tail_bytes (seq _ vs) s = cc
  static-tail_bytes (str _) s = cc
  static-tail_bytes (tuple vs) s = static-tail_bytes_items vs s
  static-tail_bytes (tuple_struct vs) s = static-tail_bytes_items vs s
  static-tail_bytes (struct vs) s = static-tail_bytes_items vs s
  static-tail_bytes _ s = refl

  static-tail_bytes_items : (vs : Items) → is_dynamic_items vs ≡ false → tail_bytes_items vs ≡ 0
  static-tail_bytes_items nil s = refl
  static-tail_bytes_items (cons v vs) s = rw (static_pushed v (or_left _ _ _ s)) (
      omega
        (arith, static-tail_bytes v (or_left _ _ _ s), static-tail_bytes_items vs (or_right _ _ s)))

mutual
  unfolding is_dynamic tail_slots

  pub static-tail_slots : (v : Value) → is_dynamic v ≡ false → tail_slots v ≡ []
  static-tail_slots (newtype_struct v) s = rw (static_pushed v (or_first _ _ s))
  static-tail_slots (seq _ vs) s = cc
  static-tail_slots (str _) s = cc
  static-tail_slots (tuple vs) s = static-tail_slots_items vs s
  static-tail_slots (tuple_struct vs) s = static-tail_slots_items vs s
  static-tail_slots (struct vs) s = static-tail_slots_items vs s
  static-tail_slots _ s = refl

  static-tail_slots_items : (vs : Items) → is_dynamic_items vs ≡ false → tail_slots_items vs ≡ []
  static-tail_slots_items nil s = refl
  static-tail_slots_items (cons v vs) s =
      rw (static_pushed v (or_left _ _ _ s)) (static-tail_slots_items vs (or_right _ _ s))

pub static-tails : (vs : Items) → is_dynamic_items vs ≡ false → tails vs ≡ []
unfolding encode is_dynamic
static-tails nil s = refl
static-tails (cons v vs) s =
    rw (or_left (is_dynamic v) (is_marker v) _ s) (static-tails vs (or_right _ _ s))

no_tails :
    (vs : Items) → is_dynamic_items vs ≡ false → (out : List (List ℕ)) → out ++ tails vs ≡ out
no_tails vs s out = rw (static-tails vs s) (append-nil out)

mutual
  unfolding is_dynamic head_slots encode is_encodable

  -- The head of a static value is its encoding, at any offset.
  pub static-head_slots :
      (v : Value)
      → is_encodable v ≡ true
      → is_dynamic v ≡ false
      → (offset : ℕ) → head_slots v offset ≡ encode v
  static-head_slots (bool b) h s offset =
      ap (λ w. w ∷ []) (right_aligned-word 1 31 _ refl (ground arith))
  static-head_slots (int t x) h s offset = ap (λ w. w ∷ []) (int_slot-word t x h)
  static-head_slots (uint t x) h s offset = ap (λ w. w ∷ []) (uint-word t x (ltb→lt x _ h))
  static-head_slots (bytes x) h s offset = chunk_slots-padded x
  static-head_slots (newtype_struct v) h s offset =
      rw (static_pushed v (or_first _ _ s), or_first (is_dynamic v) (is_marker v) s)
        (static-head_slots v h (or_first _ _ s) usize_max)
  static-head_slots (seq _ vs) h s offset = cc
  static-head_slots (str _) h s offset = cc
  static-head_slots (tuple vs) h s offset =
      static-head_slots_items vs h s 0 offset (heads_size vs) ∙ sym (no_tails vs s _)
  static-head_slots (tuple_struct vs) h s offset =
      static-head_slots_items vs h s 0 offset (heads_size vs) ∙ sym (no_tails vs s _)
  static-head_slots (struct vs) h s offset =
      static-head_slots_items vs h s 0 offset (heads_size vs) ∙ sym (no_tails vs s _)
  static-head_slots _ h s offset = refl

  pub static-head_slots_items :
      (vs : Items)
      → is_encodable_items vs ≡ true
      → is_dynamic_items vs ≡ false
      → (r offset offset' : ℕ) → head_slots_items r vs offset ≡ heads vs offset'
  static-head_slots_items nil h s r offset offset' = refl
  static-head_slots_items (cons v vs) h s r offset offset' =
      rw (static_pushed v (or_left _ _ _ s), or_left (is_dynamic v) (is_marker v) _ s)
        (ap₂ ◌++◌ (static-head_slots v (and_left _ _ h) (or_left _ _ _ s) usize_max)
          (static-head_slots_items vs (and_right _ _ h) (or_right _ _ s) r offset offset'))
