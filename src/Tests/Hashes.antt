-- ===== src/Tests/Hashes.antt =====
-- The theorems on hashes and malformed signatures at concrete inputs.
use fork_perun_rs.Base.{
  ℕ, ◌<◌, ◌≡◌, ◌≢◌, ◌∙◌, refl, ap, sym, arith, [], ◌∷◌, some, none, ok, err, panic, replicate, ltb,
  lt→ltb, le→not_ltb, if◌then◌else◌,
}
use fork_perun_rs.Abi.Bytes.{flatten, be_bytes, from_be, chunks}
use fork_perun_rs.Abi.Value.{items}
use fork_perun_rs.Abi.Spec.{abi_encode, encode, is_dynamic}
use fork_perun_rs.External.{u256_bound}
use fork_perun_rs.Types.{to_hash}
use fork_perun_rs.Sig.{recover_signer}
use fork_perun_rs.Sig.Secp256k1.{Secp256k1, IsLawfulSecp, secp256k1}
use fork_perun_rs.Sig.Secp256k1 as Secp
use fork_perun_rs.Sig.Malformed.{recover_signer-malformed}
use fork_perun_rs.Payment.{State, state_value}
use fork_perun_rs.Payment.Laws.{state-hash}
use fork_perun_rs.Payment.Binding.{same_hash-collision}
use fork_perun_rs.Tests.Crates.{test_crates, test_crates-IsLawful, first_byte}
use fork_perun_rs.Tests.Channels.{first_state, second_state, second_state-IsShaped}
use fork_perun_rs.Tests.Opening.{first_state-IsShaped}

-- A crate whose signatures are their keys.
abbrev test_secp : Secp256k1
test_secp = record {
  RecoverableSignature = ℕ;
  sign_ecdsa_recoverable = λ digest key. first_byte key;
  serialize_compact = λ sig. (0, sig ∷ replicate 63 0);
  recovery_id_from_i32 = λ v. if ltb v 4 then some v else none;
  from_compact = λ rs v. some (first_byte rs);
  recover_ecdsa = λ digest sig. some (sig ∷ []);
  public_key = λ key. first_byte key ∷ [];
}

test_secp-IsLawful : IsLawfulSecp test_secp
test_secp-IsLawful = record {
  compact_size = λ sig. refl;
  id_bound = λ sig. omega arith;
  id_accepted = λ v h. rw (lt→ltb v 4 h) refl;
  id_rejected = λ v h. rw (le→not_ltb v 4 h) refl;
  compact_read = λ sig. refl;
  signer_recovered = λ digest key. refl;
}

-- The last byte should be 27, and is 0.
recover_signer-malformed_example :
    (recover_signer test_crates (replicate 32 1) (replicate 65 0) ≡ panic)
    × (Secp.recover_signer test_secp test_crates (replicate 32 1) (replicate 65 0) ≡ err secp256k1)
recover_signer-malformed_example =
    recover_signer-malformed test_crates test_secp (replicate 32 1) (replicate 65 0) 0
      test_crates-IsLawful test_secp-IsLawful refl (omega arith)

second_fits : (second_state-IsShaped.own < u256_bound) × (second_state-IsShaped.other < u256_bound)
unfolding second_state-IsShaped
second_fits = omega arith

states_differ : first_state ≢ second_state
states_differ e = absurd (omega (arith, ap (λ (s : State). s.version) e))

-- The hash of the tests is the last 32 bytes.
same_keccak :
    test_crates.keccak256 (flatten (abi_encode (state_value test_crates first_state)))
    ≡ test_crates.keccak256 (flatten (abi_encode (state_value test_crates second_state)))
unfolding abi_encode state_value items chunks flatten be_bytes from_be is_dynamic encode
same_keccak = refl

same_hash :
    to_hash test_crates (state_value test_crates first_state)
    ≡ to_hash test_crates (state_value test_crates second_state)
same_hash =
    state-hash test_crates test_crates-IsLawful first_state first_state-IsShaped
    ∙ ap ok same_keccak
    ∙ sym (state-hash test_crates test_crates-IsLawful second_state second_state-IsShaped)

same_hash-collision_example :
    (flatten (abi_encode (state_value test_crates first_state))
      ≢ flatten (abi_encode (state_value test_crates second_state)))
    × (test_crates.keccak256 (flatten (abi_encode (state_value test_crates first_state)))
        ≡ test_crates.keccak256 (flatten (abi_encode (state_value test_crates second_state))))
same_hash-collision_example =
    same_hash-collision test_crates test_crates-IsLawful first_state second_state
      first_state-IsShaped second_state-IsShaped (omega arith) (omega arith) second_fits.0
      second_fits.1 states_differ same_hash
