-- ===== src/Abi/Negative.antt =====
-- `serialize_i128` of src/abiencode/ser.rs, for negative numbers.
use fork_perun_rs.Base.{
  ℕ, ◌+◌, ◌-◌, ◌^◌, ◌≤◌, ◌<◌, ◌≡◌, ◌≢◌, ◌∙◌, refl, ap, [], ◌∷◌, ok, arith, true, length,
}
use fork_perun_rs.Abi.Bytes.{be_bytes, from_be, from_be-be_bytes, length-be_bytes}
use fork_perun_rs.Abi.Value.{int, i128}
use fork_perun_rs.Abi.Ser.{
  head, is_negative, to_writer, to_writer_internal, compute_size, serialize, serialize_int,
}
use fork_perun_rs.Abi.Spec.{word, int_word}
use fork_perun_rs.Abi.Passes.{right_aligned}
use fork_perun_rs.Abi.Words.{right_aligned-word}
use fork_perun_rs.Abi.Writes.{write-right}

module _ (v : ℕ) (negative : 2 ^ 127 ≤ v) (bound : v < 2 ^ 128) where
  fits : length (be_bytes 16 v) ≤ 32
  fits = omega (arith, length-be_bytes 16 v)

  written : to_writer (int i128 v) ≡ ok (right_aligned 0 (be_bytes 16 v) ∷ [])
  unfolding to_writer to_writer_internal compute_size serialize serialize_int
  written = rw (write-right (be_bytes 16 v) [] (head 32) fits)

  minus : is_negative i128 v ≡ true
  minus = ground arith

  extended : from_be (int_word i128 v) ≡ 2 ^ 256 - 2 ^ 128 + v
  extended = rw minus (from_be-be_bytes 32 (2 ^ 256 - 2 ^ 128 + v) (omega arith))

  -- A negative i128, given by its two's complement pattern, is written without an error as the
  -- uint256 of the pattern, which is not its int256: the sign is not extended.
  pub to_writer-negative_i128 :
      (to_writer (int i128 v) ≡ ok (word v ∷ [])) × (word v ≢ int_word i128 v)
  to_writer-negative_i128 = (
    written ∙ ap (λ w. ok (w ∷ [])) (right_aligned-word 16 16 v refl (omega arith)),
    λ same. absurd (omega (arith, from_be-be_bytes 32 v (omega arith), extended, ap from_be same)),
  )
