-- ===== src/Abi/Correct.antt =====
-- `to_writer` and `to_fnargs_writer` of src/abiencode/ser.rs against the specification.
use mathlib.Core.List.{append_assoc}
use fork_perun_rs.Base.{
  ℕ, ◌<◌, ◌≡◌, ◌∙◌, ap, Bool, true, false, List, [], ◌∷◌, ◌++◌, ok, arith, inl, inr, Bool-cases,
}
use fork_perun_rs.Abi.Bytes.{slot_size}
use fork_perun_rs.Abi.Value.{Value}
use fork_perun_rs.Abi.Ser.{head, to_writer, to_fnargs_writer, to_writer_internal}
use fork_perun_rs.Abi.Spec.{is_dynamic, size, word, encode, abi_encode, is_encodable}
use fork_perun_rs.Abi.Passes.{head_bytes, head_slots, tail_slots, usize_slot}
use fork_perun_rs.Abi.Words.{usize_slot-word}
use fork_perun_rs.Abi.Writes.{write-right, usize_fits}
use fork_perun_rs.Abi.Static.{static-head_slots}
use fork_perun_rs.Abi.Refinement.{limit, encodes}
use fork_perun_rs.Abi.Runs.TailSize.{sizes_of}
use fork_perun_rs.Abi.Runs.Head.{head-run}
use fork_perun_rs.Abi.Runs.Tail.{tail-run}

module _ (v : Value) (h : is_encodable v ≡ true) (fits : size (encode v) < limit) where
  -- The head pass and then the tail pass, of a dynamic value.
  both_passes :
      (out : List (List ℕ)) → out ++ head_slots v (head_bytes v) ++ tail_slots v ≡ out ++ encode v
  both_passes out = append_assoc out _ _ ∙ ap (λ e. out ++ e) (encodes v h fits)

  internal_static :
      (outer : Bool) (out : List (List ℕ))
      → is_dynamic v ≡ false
      → to_writer_internal v outer out ≡ ok (out ++ encode v)
  unfolding to_writer_internal
  internal_static outer out s = rw (sizes_of v h) (
      rw s (
        rw (head-run v h out (head_bytes v))
          (ap (λ e. ok (out ++ e)) (static-head_slots v h s (head_bytes v)))))

  internal_outer :
      (out : List (List ℕ))
      → is_dynamic v ≡ true
      → to_writer_internal v true out ≡ ok (out ++ word slot_size ∷ [] ++ encode v)
  unfolding to_writer_internal
  internal_outer out d = rw (sizes_of v h) (
      rw d (
        rw (write-right _ out (head (head_bytes v)) (usize_fits slot_size)) (
          rw (head-run v h (out ++ usize_slot slot_size ∷ []) (head_bytes v)) (
            rw (tail-run v h (out ++ usize_slot slot_size ∷ [] ++ head_slots v (head_bytes v)))
              (ap ok (both_passes _) ∙ ap (λ w. ok (out ++ w ∷ [] ++ encode v)) outer_word)))))
    where
      outer_word : usize_slot slot_size ≡ word slot_size
      outer_word = usize_slot-word slot_size (omega arith)

  internal_inner :
      (out : List (List ℕ))
      → is_dynamic v ≡ true
      → to_writer_internal v false out ≡ ok (out ++ encode v)
  unfolding to_writer_internal
  internal_inner out d = rw (sizes_of v h) (
      rw d (
        rw (head-run v h out (head_bytes v))
          (rw (tail-run v h (out ++ head_slots v (head_bytes v))) (ap ok (both_passes out)))))

  -- For an encodable value whose encoding is shorter than 2^64 bytes, `to_writer` succeeds and
  -- passes exactly the slots of the ABI encoding to its writer, in order.
  pub to_writer-abi_encode : to_writer v ≡ ok (abi_encode v)
  unfolding to_writer abi_encode
  to_writer-abi_encode = elim (Bool-cases (is_dynamic v)) [
    | inl d ↦ rw d (internal_outer [] d)
    | inr s ↦ rw s (internal_static true [] s)
  ]

  -- For an encodable value whose encoding is shorter than 2^64 bytes, `to_fnargs_writer` succeeds
  -- and writes the encoding without the outer offset.
  pub to_fnargs_writer-encode : to_fnargs_writer v ≡ ok (encode v)
  unfolding to_fnargs_writer
  to_fnargs_writer-encode = elim (Bool-cases (is_dynamic v)) [
    | inl d ↦ internal_inner [] d
    | inr s ↦ internal_static false [] s
  ]
