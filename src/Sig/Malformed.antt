-- ===== src/Sig/Malformed.antt =====
-- What `recover_signer` of src/sig/k256.rs and of src/sig/secp256k1.rs make of a malformed signature.
use fork_perun_rs.Base.{ℕ, ◌≤◌, ◌≡◌, some, err, panic, get_elem?, set}
use fork_perun_rs.External.{External, IsLawful}
use fork_perun_rs.Types.{Hash, Signature}
use fork_perun_rs.Sig.{recover_signer, at_v, sub_27}
use fork_perun_rs.Sig.Roundtrip.{get_elem?-set_self, lt-length}
use fork_perun_rs.Sig.Secp256k1.{Secp256k1, IsLawfulSecp, secp256k1}
use fork_perun_rs.Sig.Secp256k1 as Secp

-- For lawful crates, a signature whose last byte is not one of 27, 28, 29 and 30: `recover_signer`
-- panics with k256, where the code expects that this cannot fail, and is an error with secp256k1.
pub recover_signer-malformed :
    (x : External) (c : Secp256k1) (msg : Hash) (sig : Signature) (v : ℕ)
    → IsLawful x
    → IsLawfulSecp c
    → get_elem? sig 64 ≡ some v
    → 4 ≤ sub_27 v
    → (recover_signer x msg sig ≡ panic) × (Secp.recover_signer c x msg sig ≡ err secp256k1)
unfolding recover_signer at_v Secp.recover_signer
recover_signer-malformed x c msg sig v lawful lawful_c last large = (
  rw last (
      rw (
        lawful.malformed_rejected (set sig 64 (sub_27 v)) (sub_27 v)
          (get_elem?-set_self sig 64 (sub_27 v) (lt-length sig 64 v last)) large)),
  rw last (rw (lawful_c.id_rejected (sub_27 v) large)),
)
