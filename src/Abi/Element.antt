-- ===== src/Abi/Element.antt =====
-- One item of a sequence, tuple or struct, in each pass, for any `Serialize` implementation whose
-- passes are known.
use fork_perun_rs.Base.{
  ℕ, ◌+◌, ◌-◌, ◌≡◌, Bool, true, false, not, ◌&&◌, ◌||◌, List, [], ◌∷◌, ◌++◌, ok, if◌then◌else◌,
}
use fork_perun_rs.Abi.Bytes.{slot_size, be_bytes}
use fork_perun_rs.Abi.Ser.{
  Pass, head_size, head, tail_size, tail, Writer, slots, Serialize, usize_bytes, usize_max,
  compute_size, get_tail_size, serialize_in, serialize_tuple_element,
}
use fork_perun_rs.Abi.Passes.{usize_slot}
use fork_perun_rs.Abi.Writes.{at, write-right, usize_fits}

module _ (value : Serialize) (h t : ℕ) (dyn mark : Bool)
    (sizes : compute_size value ≡ ok (h, dyn, mark)) where
  pub element-head_size :
      (w : Writer) (n r : ℕ) (d f : Bool)
      → serialize_tuple_element value r (at w (head_size n d f))
        ≡ ok (
            at w
              (head_size (n + (if dyn && not mark then slot_size else h)) (d || (dyn || mark)) f))
  unfolding serialize_tuple_element
  element-head_size w n r d f = rw sizes

  module _ (tails : get_tail_size value ≡ ok t) where
    pub element-tail_size :
        (w : Writer) (n r : ℕ)
        → serialize_tuple_element value r (at w (tail_size n))
          ≡ ok (at w (tail_size (n + (if dyn && not mark then h else 0) + t)))
    unfolding serialize_tuple_element
    element-tail_size w n r = rw sizes (rw tails)

    pub element-head_pushed :
        (out : List (List ℕ)) (offset r : ℕ)
        → dyn && not mark ≡ true
        → serialize_tuple_element value r (at (slots out) (head offset))
          ≡ ok (at (slots (out ++ usize_slot (offset - r) ∷ [])) (head (offset + h + t)))
    unfolding serialize_tuple_element
    element-head_pushed out offset r push = rw sizes (
        rw push (
          rw
            (write-right (be_bytes usize_bytes (offset - r)) out (head offset)
              (usize_fits (offset - r)))
            (rw tails)))

  pub element-head_inline :
      (out xs : List (List ℕ)) (offset r : ℕ) (p : Pass)
      → dyn && not mark ≡ false
      → value (at (slots out) (head usize_max)) ≡ ok (at (slots (out ++ xs)) p)
      → serialize_tuple_element value r (at (slots out) (head offset))
        ≡ ok (at (slots (out ++ xs)) (head offset))
  unfolding serialize_tuple_element serialize_in
  element-head_inline out xs offset r p inline run = rw sizes (rw inline (rw run))

  pub element-tail_inline :
      (w : Writer) (r : ℕ)
      → dyn && not mark ≡ false
      → serialize_tuple_element value r (at w tail) ≡ ok (at w tail)
  unfolding serialize_tuple_element
  element-tail_inline w r inline = rw sizes (rw inline)

  pub element-tail_pushed :
      (out xs ys : List (List ℕ)) (r : ℕ) (p q : Pass)
      → dyn && not mark ≡ true
      → value (at (slots out) (head h)) ≡ ok (at (slots (out ++ xs)) p)
      → value (at (slots (out ++ xs)) tail) ≡ ok (at (slots (out ++ xs ++ ys)) q)
      → serialize_tuple_element value r (at (slots out) tail)
        ≡ ok (at (slots (out ++ xs ++ ys)) tail)
  unfolding serialize_tuple_element serialize_in
  element-tail_pushed out xs ys r p q push run_head run_tail =
      rw sizes (rw push (rw run_head (rw run_tail)))
