-- ===== src/Abi/Writes.antt =====
-- The slots that the writing helpers of the serializer pass on.
use mathlib.Core.List.{append_assoc, append-nil}
use fork_perun_rs.Base.{
  ℕ, ◌-◌, ◌*◌, ◌/◌, ◌≤◌, ◌≡◌, ◌∙◌, sym, ap, Bool, List, [], ◌∷◌, ◌++◌, ok, arith, length, replicate,
  ◌==◌, if◌then◌else◌, inl, inr, Bool-cases, length-drop,
}
use fork_perun_rs.Abi.Bytes.{slot_size, be_bytes, length-be_bytes, chunks_exact, remainder}
use fork_perun_rs.Abi.Ser.{
  Pass, Writer, slots, Serializer, usize_bytes, write, write_all, write_left_aligned_slice,
  write_right_aligned, write_signed, write_chunks,
}
use fork_perun_rs.Abi.Passes.{right_aligned, chunk_slots}

abbrev pub at : Writer → Pass → Serializer
at w p = record { writer = w; pass = p }

pub usize_fits : (n : ℕ) → length (be_bytes usize_bytes n) ≤ slot_size
usize_fits n = omega (arith, length-be_bytes 8 n)

module _ (v : List ℕ) (out : List (List ℕ)) (p : Pass) where
  pub write-right :
      length v ≤ slot_size
      → write_right_aligned v (at (slots out) p) ≡ ok (at (slots (out ++ right_aligned 0 v ∷ [])) p)
  unfolding write_right_aligned write
  write-right h = ground arith

  pub write-signed :
      (negative : Bool)
      → length v ≤ slot_size
      → write_signed negative v (at (slots out) p)
        ≡ ok (at (slots (out ++ right_aligned (if negative then 0xff else 0x00) v ∷ [])) p)
  unfolding write_signed write
  write-signed negative h = ground arith

  write-left :
      length v ≤ slot_size
      → write_left_aligned_slice v (at (slots out) p)
        ≡ ok (at (slots (out ++ (v ++ replicate (slot_size - length v) 0) ∷ [])) p)
  unfolding write_left_aligned_slice write
  write-left h = ground arith

write_all_lem :
    (cs out : List (List ℕ)) (p : Pass)
    → write_all cs (at (slots out) p) ≡ ok (at (slots (out ++ cs)) p)
unfolding write_all write
write_all_lem [] out p = ap (λ o. ok (at (slots o) p)) (sym (append-nil out))
write_all_lem (c ∷ cs) out p =
    write_all_lem cs (out ++ c ∷ []) p
    ∙ ap (λ o. ok (at (slots o) p)) (append_assoc out (c ∷ []) cs)

length-remainder : (v : List ℕ) → length (remainder v) ≤ slot_size
unfolding remainder
length-remainder v = omega (arith, length-drop (slot_size * (length v / slot_size)) v)

pub write_chunks_lem :
    (v : List ℕ) (out : List (List ℕ)) (p : Pass)
    → write_chunks v (at (slots out) p) ≡ ok (at (slots (out ++ chunk_slots v)) p)
unfolding write_chunks chunk_slots
write_chunks_lem v out p =
    rw (write_all_lem (chunks_exact v) out p) (elim (Bool-cases (length (remainder v) == 0)) [
      | inl whole ↦
          rw whole (ap (λ o. ok (at (slots (out ++ o)) p)) (sym (append-nil (chunks_exact v))))
      | inr rest ↦ rw rest (
          write-left (remainder v) (out ++ chunks_exact v) p (length-remainder v)
          ∙ ap (λ o. ok (at (slots o) p)) (append_assoc out (chunks_exact v) _))
    ])
