-- ===== src/Sig/Roundtrip.antt =====
-- src/sig/k256.rs: `sign_eth` and `recover_signer`, one after the other.
use fork_perun_rs.Base.{
  ℕ, zero, suc, ◌<◌, ◌≡◌, ◌∙◌, refl, ap, sym, ==_iff, List, [], ◌∷◌, some, ok, arith, length, set,
  get_elem?,
}
use fork_perun_rs.Base.Inversion.{ok-injective}
use fork_perun_rs.External.{External, IsLawful}
use fork_perun_rs.Types.{Hash, Signature}
use fork_perun_rs.Sig.{
  Signer, address_from, sign_eth, recover_signer, at_v, add_27, sub_27, hash_to_eth_signed_msg_hash,
}

get_elem?-some {ℓ} :
    {A : Type ℓ} (xs : List A) (i : ℕ) → i < length xs → (a : A) × (get_elem? xs i ≡ some a)
get_elem?-some [] i h = absurd (omega arith)
get_elem?-some (x ∷ xs) zero h = (x, refl)
get_elem?-some (x ∷ xs) (suc i) h = get_elem?-some xs i (omega arith)

-- An index at which there is an element is in range.
pub lt-length {ℓ} :
    {A : Type ℓ} (xs : List A) (i : ℕ) (a : A) → get_elem? xs i ≡ some a → i < length xs
lt-length [] i a h = absurd (ground arith)
lt-length (x ∷ xs) zero a h = omega arith
lt-length (x ∷ xs) (suc i) a h = omega (arith, lt-length xs i a h)

pub get_elem?-set_self {ℓ} :
    {A : Type ℓ} (xs : List A) (i : ℕ) (v : A) → i < length xs → get_elem? (set xs i v) i ≡ some v
get_elem?-set_self [] i v h = absurd (omega arith)
get_elem?-set_self (x ∷ xs) zero v h = refl
get_elem?-set_self (x ∷ xs) (suc i) v h = get_elem?-set_self xs i v (omega arith)

set-set_same {ℓ} :
    {A : Type ℓ} (xs : List A) (i : ℕ) (v w : A)
    → get_elem? xs i ≡ some w
    → set (set xs i v) i w ≡ xs
set-set_same [] i v w h = refl
set-set_same (x ∷ xs) zero v w h = ground arith
set-set_same (x ∷ xs) (suc i) v w h = ap (◌∷◌ x) (set-set_same xs i v w h)

unwrapped : (v : ℕ) → v < 4 → sub_27 (add_27 v) ≡ v
unwrapped v h = omega arith

-- For any lawful crates and every message, signing succeeds, and recovering the signature gives
-- the address of the signer that made it.
pub recover_signer-sign_eth {ℓ} :
    {E : Type ℓ} (x : External) (signer : Signer) (msg : Hash)
    → IsLawful x
    → (sig : Signature) × (sign_eth {E = E} x signer msg ≡ ok sig)
      × (recover_signer x msg sig ≡ ok (address_from x (x.verifying_key signer.key)))
unfolding sign_eth recover_signer at_v
recover_signer-sign_eth x signer msg lawful = (
  set raw 64 (add_27 v),
  rw ((==_iff (length raw) 65).1 size) (rw found),
  rw (get_elem?-set_self raw 64 (add_27 v) (omega (arith, size))) (
      rw same (
        rw (lawful.signature_accepted signer.key digest)
          (rw (lawful.signer_recovered signer.key digest)))),
)
  where
    digest : Hash
    digest = hash_to_eth_signed_msg_hash x msg

    raw : Signature
    raw = x.sign_prehash signer.key digest

    size : length raw ≡ 65
    size = lawful.signature_size signer.key digest

    v_byte : (v : ℕ) × (get_elem? raw 64 ≡ some v)
    v_byte = get_elem?-some raw 64 (omega (arith, size))

    v : ℕ
    v = v_byte.0

    found : get_elem? raw 64 ≡ some v
    found = v_byte.1

    same : set (set raw 64 (add_27 v)) 64 (sub_27 (add_27 v)) ≡ raw
    same =
        set-set_same raw 64 (add_27 v) (sub_27 (add_27 v))
          (found ∙ ap some (sym (unwrapped v (lawful.recovery_id signer.key digest v found))))

-- The signature that was made is recovered to its signer.
pub recover_signer-signed {ℓ} :
    {E : Type ℓ} (x : External) (signer : Signer) (msg : Hash) (sig : Signature)
    → IsLawful x
    → sign_eth {E = E} x signer msg ≡ ok sig
    → recover_signer x msg sig ≡ ok (address_from x (x.verifying_key signer.key))
recover_signer-signed x signer msg sig lawful h =
    let (made, e, recovered) = recover_signer-sign_eth x signer msg lawful in
    ap (recover_signer x msg) (ok-injective _ _ (sym h ∙ e)) ∙ recovered
