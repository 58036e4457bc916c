-- ===== src/Sig.antt =====
-- src/sig.rs and src/sig/k256.rs: Ethereum signatures. Bytes wrap as in a release build.
pub mod Roundtrip
pub mod Secp256k1
pub mod Malformed
use fork_perun_rs.Base.{
  ℕ, ◌+◌, ◌-◌, ◌%◌, List, [], ◌∷◌, ◌++◌, Option, none, some, Outcome, ok, err, panic, ◌>>=◌, ok_or,
  unwrap, length, drop, set, get_elem?, ◌==◌, if◌then◌else◌,
}
use fork_perun_rs.External.{External}
use fork_perun_rs.Types.{Bytes, Hash, Address, Signature}

-- `k256::ecdsa::Error` has no content.
pub data Error : Type 0 where
  ecdsa : Error

pub record Signer : Type 0 where
  pub key : Bytes
  pub addr : Address

-- `Address::from(VerifyingKey)`: the last 20 bytes of the hash of the point without its tag.
unfoldable pub address_from : External → Bytes → Address
address_from x point = drop (32 - 20) (x.keccak256 (drop 1 point))

abbrev pub private_key_bytes : Bytes
private_key_bytes =
    0x24 ∷ 0x4F ∷ 0xFC ∷ 0x73 ∷ 0xC4 ∷ 0x48 ∷ 0xB5 ∷ 0x6D ∷ 0xDB ∷ 0xA6 ∷ 0xA7 ∷ 0xBF ∷ 0xA8 ∷ 0xD5
    ∷ 0x8E ∷ 0xD3 ∷ 0x60 ∷ 0x12 ∷ 0x61 ∷ 0x1D ∷ 0xA8 ∷ 0x3D ∷ 0x4C ∷ 0xB8 ∷ 0x30 ∷ 0x25 ∷ 0xEA
    ∷ 0x12 ∷ 0xAC ∷ 0xCF ∷ 0x49 ∷ 0xFE ∷ []

signer_of : External → Bytes → Signer
unfolding address_from
signer_of x key = record { key = key; addr = address_from x (x.verifying_key key) }

-- `Signer::new`: the random numbers that it is given are not used.
unfoldable pub new_signer : External → List ℕ → Signer
unfolding signer_of
new_signer x rng = signer_of x private_key_bytes

-- "\x19Ethereum Signed Message:\n32"
abbrev pub eth_prefix : Bytes
eth_prefix =
    0x19 ∷ 0x45 ∷ 0x74 ∷ 0x68 ∷ 0x65 ∷ 0x72 ∷ 0x65 ∷ 0x75 ∷ 0x6d ∷ 0x20 ∷ 0x53 ∷ 0x69 ∷ 0x67 ∷ 0x6e
    ∷ 0x65 ∷ 0x64 ∷ 0x20 ∷ 0x4d ∷ 0x65 ∷ 0x73 ∷ 0x73 ∷ 0x61 ∷ 0x67 ∷ 0x65 ∷ 0x3a ∷ 0x0a ∷ 0x33
    ∷ 0x32 ∷ []

unfoldable pub hash_to_eth_signed_msg_hash : External → Hash → Hash
hash_to_eth_signed_msg_hash x hash = x.keccak256 (eth_prefix ++ hash)

-- `bytes[64] = f(bytes[64])`, of a byte string that must have 65 bytes.
unfoldable pub at_v {ℓ} : {E : Type ℓ} → (ℕ → ℕ) → Bytes → Outcome E Bytes
at_v f sig = do v ← unwrap (get_elem? sig 64); ok (set sig 64 (f v))

abbrev pub add_27 : ℕ → ℕ
add_27 v = (v + 27) % 256

abbrev pub sub_27 : ℕ → ℕ
sub_27 v = (v + 256 - 27) % 256

unfoldable pub sign_eth {ℓ} : {E : Type ℓ} → External → Signer → Hash → Outcome E Signature
unfolding at_v
sign_eth x signer msg =
    let hash = hash_to_eth_signed_msg_hash x msg in
    let sig = x.sign_prehash signer.key hash in if length sig == 65 then at_v add_27 sig else panic

unfoldable pub recover_signer : External → Hash → Signature → Outcome Error Address
unfolding at_v
recover_signer x msg eth_sig = do
  let hash = hash_to_eth_signed_msg_hash x msg
  sig_bytes ← at_v sub_27 eth_sig
  sig ← unwrap (x.signature_from_bytes sig_bytes)
  point ← ok_or (x.recover_verifying_key sig hash) ecdsa
  ok (address_from x point)
