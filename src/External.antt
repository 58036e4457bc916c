-- ===== src/External.antt =====
-- What the program takes from other crates: the hash functions of sha3, the ECDSA of k256, and the
-- 256-bit integers of uint. They are parameters; `IsLawful` states what their documentation says.
use fork_perun_rs.Base.{
  ℕ, ◌+◌, ◌-◌, ◌^◌, ◌≤◌, ◌<◌, ◌≡◌, List, Option, none, some, length, get_elem?, ltb, leb,
  if◌then◌else◌,
}
use fork_perun_rs.Abi.Bytes.{be_bytes, from_be}

pub record External : Type 0 where
  -- sha3: Keccak256 and Sha3_256 of a byte string.
  pub keccak256 : List ℕ → List ℕ
  pub sha3_256 : List ℕ → List ℕ
  -- k256: the signature (r, s and v) of a digest under a key; the check of the 65 bytes of a
  -- signature; the public key of a signature of a digest, and that of a key, as encoded points.
  pub sign_prehash : List ℕ → List ℕ → List ℕ
  pub signature_from_bytes : List ℕ → Option (List ℕ)
  pub recover_verifying_key : List ℕ → List ℕ → Option (List ℕ)
  pub verifying_key : List ℕ → List ℕ
  -- uint: `none` stands for a panic.
  pub u256_add : ℕ → ℕ → Option ℕ
  pub u256_sub : ℕ → ℕ → Option ℕ
  pub u256_from_big_endian : List ℕ → Option ℕ
  pub u256_to_big_endian : ℕ → List ℕ

abbrev pub u256_bound : ℕ
u256_bound = 2 ^ 256

pub record IsLawful (x : External) : Type 0 where
  -- Arithmetic panics on overflow.
  pub adds : (a b : ℕ) → x.u256_add a b ≡ (if ltb (a + b) u256_bound then some (a + b) else none)
  pub subtracts : (a b : ℕ) → x.u256_sub a b ≡ (if leb b a then some (a - b) else none)
  pub writes_big_endian : (n : ℕ) → x.u256_to_big_endian n ≡ be_bytes 32 n
  pub reads_big_endian :
      (bs : List ℕ) → length bs ≤ 32 → x.u256_from_big_endian bs ≡ some (from_be bs)
  pub keccak_size : (bs : List ℕ) → length (x.keccak256 bs) ≡ 32
  pub sha3_size : (bs : List ℕ) → length (x.sha3_256 bs) ≡ 32
  -- A signature has 65 bytes, the last of which is a recovery id below 4.
  pub signature_size : (key digest : List ℕ) → length (x.sign_prehash key digest) ≡ 65
  pub recovery_id :
      (key digest : List ℕ) (v : ℕ) → get_elem? (x.sign_prehash key digest) 64 ≡ some v → v < 4
  pub signature_accepted :
      (key digest : List ℕ)
      → x.signature_from_bytes (x.sign_prehash key digest) ≡ some (x.sign_prehash key digest)
  -- Bytes with a larger one are no signature.
  pub malformed_rejected :
      (bs : List ℕ) (v : ℕ) → get_elem? bs 64 ≡ some v → 4 ≤ v → x.signature_from_bytes bs ≡ none
  -- The public key of a signature is that of the key that made it.
  pub signer_recovered :
      (key digest : List ℕ)
      → x.recover_verifying_key (x.sign_prehash key digest) digest ≡ some (x.verifying_key key)
  pub point_size : (key : List ℕ) → length (x.verifying_key key) ≡ 65
