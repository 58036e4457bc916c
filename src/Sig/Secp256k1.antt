-- ===== src/Sig/Secp256k1.antt =====
-- src/sig/secp256k1.rs: the same signatures by the secp256k1 crate, which is a parameter. `none` stands
-- for each of its errors. Its `Signer::new` names a variable that is not there and does not compile.
use fork_perun_rs.Base.{
  ℕ, ◌+◌, ◌%◌, ◌≤◌, ◌<◌, ◌≡◌, ◌∙◌, ap, [], ◌∷◌, ◌++◌, Option, none, some, Outcome, ok, ◌>>=◌, ok_or,
  unwrap, length, take, take-append_length, get_elem?, get_elem?-append_last, sym, arith,
}
use fork_perun_rs.External.{External}
use fork_perun_rs.Types.{Bytes, Hash, Address, Signature, signature_new}
use fork_perun_rs.Sig.{hash_to_eth_signed_msg_hash, address_from, sub_27}

pub record Secp256k1 : Type 1 where
  pub RecoverableSignature : Type 0
  -- Of a digest, under a key.
  pub sign_ecdsa_recoverable : Hash → Bytes → RecoverableSignature
  -- The recovery id, and r and s.
  pub serialize_compact : RecoverableSignature → ℕ × Bytes
  pub recovery_id_from_i32 : ℕ → Option ℕ
  pub from_compact : Bytes → ℕ → Option RecoverableSignature
  -- Public keys are their uncompressed bytes.
  pub recover_ecdsa : Hash → RecoverableSignature → Option Bytes
  pub public_key : Bytes → Bytes

-- What the documentation of the crate says.
pub record IsLawfulSecp (c : Secp256k1) : Type 0 where
  pub compact_size : (sig : c.RecoverableSignature) → length (c.serialize_compact sig).1 ≡ 64
  pub id_bound : (sig : c.RecoverableSignature) → (c.serialize_compact sig).0 < 4
  pub id_accepted : (v : ℕ) → v < 4 → c.recovery_id_from_i32 v ≡ some v
  pub id_rejected : (v : ℕ) → 4 ≤ v → c.recovery_id_from_i32 v ≡ none
  pub compact_read :
      (sig : c.RecoverableSignature)
      → c.from_compact (c.serialize_compact sig).1 (c.serialize_compact sig).0 ≡ some sig
  pub signer_recovered :
      (digest : Hash) (key : Bytes)
      → c.recover_ecdsa digest (c.sign_ecdsa_recoverable digest key) ≡ some (c.public_key key)

pub data Error : Type 0 where
  secp256k1 : Error

module _ (c : Secp256k1) (x : External) where
  unfoldable pub sign_eth : Bytes → Hash → Signature
  unfolding signature_new
  sign_eth sk msg =
      let hash = hash_to_eth_signed_msg_hash x msg in
      let sig = c.sign_ecdsa_recoverable hash sk in
      let (v, rs) = c.serialize_compact sig in signature_new rs ((27 + v) % 256)

  unfoldable pub recover_signer : Hash → Signature → Outcome Error Address
  recover_signer hash eth_sig = do
    let digest = hash_to_eth_signed_msg_hash x hash
    let rs = take 64 eth_sig
    v ← unwrap (get_elem? eth_sig 64)
    recid ← ok_or (c.recovery_id_from_i32 (sub_27 v)) secp256k1
    sig ← ok_or (c.from_compact rs recid) secp256k1
    pk ← ok_or (c.recover_ecdsa digest sig) secp256k1
    ok (address_from x pk)

  -- For a lawful crate, a signature is recovered to the address of the key that made it.
  pub recover_secp-sign :
      (sk : Bytes) (msg : Hash)
      → IsLawfulSecp c
      → recover_signer msg (sign_eth sk msg) ≡ ok (address_from x (c.public_key sk))
  unfolding sign_eth recover_signer signature_new
  recover_secp-sign sk msg lawful = rw last_v (
      rw (wrapped v (lawful.id_bound sig)) (
        rw (lawful.id_accepted v (lawful.id_bound sig))
          (rw first_rs (rw (lawful.compact_read sig) (rw (lawful.signer_recovered digest sk))))))
    where
      digest : Hash
      digest = hash_to_eth_signed_msg_hash x msg

      sig : c.RecoverableSignature
      sig = c.sign_ecdsa_recoverable digest sk

      v : ℕ
      v = (c.serialize_compact sig).0

      rs : Bytes
      rs = (c.serialize_compact sig).1

      last_v : get_elem? (rs ++ ((27 + v) % 256) ∷ []) 64 ≡ some ((27 + v) % 256)
      last_v =
          ap (get_elem? (rs ++ ((27 + v) % 256) ∷ [])) (sym (lawful.compact_size sig))
          ∙ get_elem?-append_last rs ((27 + v) % 256)

      first_rs : take 64 (rs ++ ((27 + v) % 256) ∷ []) ≡ rs
      first_rs =
          ap (λ n. take n (rs ++ ((27 + v) % 256) ∷ [])) (sym (lawful.compact_size sig))
          ∙ take-append_length rs (((27 + v) % 256) ∷ [])

      wrapped : (v : ℕ) → v < 4 → sub_27 ((27 + v) % 256) ≡ v
      wrapped v h = omega arith
