-- ===== src/Tests/Crates.antt =====
-- Crates for the tests: a hash that is a number, and signatures that name their key.
use fork_perun_rs.Base.{
  ℕ, ◌+◌, ◌-◌, ◌<◌, ◌≡◌, List, [], ◌∷◌, ◌++◌, Option, none, some, get_elem?, le→not_ltb, arith,
  replicate, ltb, leb, if◌then◌else◌, refl,
}
use fork_perun_rs.Abi.Bytes.{be_bytes, from_be, length-be_bytes}
use fork_perun_rs.External.{External, IsLawful, u256_bound}

abbrev pub first_byte : List ℕ → ℕ
first_byte [] = 0
first_byte (b ∷ bs) = b

abbrev test_hash : List ℕ → List ℕ
test_hash bs = be_bytes 32 (from_be bs)

abbrev test_signature : List ℕ → List ℕ → List ℕ
test_signature key digest = first_byte key ∷ replicate 64 0

abbrev test_point : List ℕ → List ℕ
test_point sig = 4 ∷ replicate 63 0 ++ first_byte sig ∷ []

abbrev test_parse : Option ℕ → List ℕ → Option (List ℕ)
test_parse none sig = none
test_parse (some v) sig = if ltb v 4 then some sig else none

abbrev pub test_crates : External
test_crates = record {
  keccak256 = test_hash;
  sha3_256 = test_hash;
  sign_prehash = test_signature;
  signature_from_bytes = λ sig. test_parse (get_elem? sig 64) sig;
  recover_verifying_key = λ sig digest. some (test_point sig);
  verifying_key = λ key. test_point (test_signature key []);
  u256_add = λ a b. if ltb (a + b) u256_bound then some (a + b) else none;
  u256_sub = λ a b. if leb b a then some (a - b) else none;
  u256_from_big_endian = λ bs. some (from_be bs);
  u256_to_big_endian = λ n. be_bytes 32 n;
}

pub test_crates-IsLawful : IsLawful test_crates
test_crates-IsLawful = record {
  adds = λ a b. refl;
  subtracts = λ a b. refl;
  writes_big_endian = λ n. refl;
  reads_big_endian = λ bs h. refl;
  keccak_size = λ bs. length-be_bytes 32 (from_be bs);
  sha3_size = λ bs. length-be_bytes 32 (from_be bs);
  signature_size = λ key digest. refl;
  recovery_id = λ key digest v h. small v h;
  signature_accepted = λ key digest. refl;
  malformed_rejected = λ bs v h large. rw h (rw (le→not_ltb v 4 large));
  signer_recovered = λ key digest. refl;
  point_size = λ key. refl;
}
  where
    small : (v : ℕ) → some 0 ≡ some v → v < 4
    small v h = ground arith
