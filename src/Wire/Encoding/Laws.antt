-- ===== src/Wire/Encoding/Laws.antt =====
-- The bytes of src/wire/encoding.rs.
use fork_perun_rs.Base.{
  ◌<◌, ◌≡◌, ◌∙◌, refl, sym, Bool, true, false, not, ◌++◌, Outcome, ok, panic, ltb, lt→ltb, ltb→lt,
  if◌then◌else◌,
}
use fork_perun_rs.Base.Inversion.{ok-injective, ok≢panic}
use fork_perun_rs.Abi.Bytes.{be_bytes}
use fork_perun_rs.Types.{Bytes}
use fork_perun_rs.Wire.Encoding.{Codec, IsEncodable, EncodeError, length_bound, encode_msg}

unasserted-ok :
    {A : Type 0} (holds : Bool) (r : Outcome EncodeError A) {a : A}
    → (if not holds then panic else r) ≡ ok a
    → holds ≡ true
unasserted-ok true r h = refl
unasserted-ok false r {a} h = absurd (ok≢panic a (sym h))

module _ {T : Type 0} (codec : Codec T) (msg : T) where
  pub ok-encode_msg :
      (e : IsEncodable codec msg)
      → codec.encoded_len msg < length_bound
      → encode_msg codec msg ≡ ok (be_bytes 2 (codec.encoded_len msg) ++ e.bytes)
  unfolding encode_msg
  ok-encode_msg e small = rw (lt→ltb (codec.encoded_len msg) length_bound small) (rw e.encoded)

  pub encode_msg-ok :
      (frame : Bytes) (e : IsEncodable codec msg)
      → encode_msg codec msg ≡ ok frame
      → (codec.encoded_len msg < length_bound)
        × (frame ≡ be_bytes 2 (codec.encoded_len msg) ++ e.bytes)
  unfolding encode_msg
  encode_msg-ok frame e h =
      let small =
        ltb→lt (codec.encoded_len msg) length_bound
          (unasserted-ok (ltb (codec.encoded_len msg) length_bound) _ h) in
      (small, ok-injective _ _ (sym h ∙ ok-encode_msg e small))
