-- ===== src/Channel/Withdrawal/Laws.antt =====
-- src/channel/withdrawal_auth.rs: that the authorizations can be made, and what they sign.
use fork_perun_rs.Base.{
  ℕ, ◌+◌, ◌<◌, ◌≡◌, refl, subst, arith, List, [], ◌∷◌, some, ok, length, get_elem?,
}
use fork_perun_rs.External.{External, IsLawful}
use fork_perun_rs.Types.{Hash, Address, Signature, to_hash}
use fork_perun_rs.Sig.{Signer, recover_signer, address_from}
use fork_perun_rs.Sig.Roundtrip.{recover_signer-sign_eth}
use fork_perun_rs.Payment.{Params, State}
use fork_perun_rs.Payment.Laws.{length-u256, address-size}
use fork_perun_rs.Abi.Bytes.{flatten}
use fork_perun_rs.Abi.Ser.{Error}
use fork_perun_rs.Abi.Spec.{is_encodable, is_dynamic, abi_encode, size, encode}
use fork_perun_rs.Abi.Passes.{head_bytes, tail_bytes}
use fork_perun_rs.Abi.Sizes.{bytes-size}
use fork_perun_rs.Abi.Refinement.{limit}
use fork_perun_rs.Abi.Correct.{to_writer-abi_encode}
use fork_perun_rs.Channel.Withdrawal.{
  WithdrawalAuth, withdrawal_auth_value, make_signed_withdrawal_auths,
}

module _ (x : External) (lawful : IsLawful x) where
  auth-size :
      (a : WithdrawalAuth)
      → length a.channel_id ≡ 32
      → length a.participant ≡ 20
      → length a.receiver ≡ 20
      → size (encode (withdrawal_auth_value x a)) < limit
  unfolding withdrawal_auth_value head_bytes tail_bytes is_dynamic
  auth-size a id participant receiver =
      subst (λ n. n < limit) (bytes-size (withdrawal_auth_value x a)) bounded
    where
      bounded :
          head_bytes (withdrawal_auth_value x a) + tail_bytes (withdrawal_auth_value x a) < limit
      bounded = rw id (
          rw (address-size x lawful a.participant participant) (
            rw (address-size x lawful a.receiver receiver)
              (rw (length-u256 x lawful a.amount) (omega arith))))

  pub auth-hash :
      (a : WithdrawalAuth)
      → length a.channel_id ≡ 32
      → length a.participant ≡ 20
      → length a.receiver ≡ 20
      → to_hash x (withdrawal_auth_value x a)
        ≡ ok (x.keccak256 (flatten (abi_encode (withdrawal_auth_value x a))))
  unfolding to_hash withdrawal_auth_value is_encodable
  auth-hash a id participant receiver =
      rw (
        to_writer-abi_encode (withdrawal_auth_value x a) refl (auth-size a id participant receiver))

  -- For lawful crates, a participant and a state of one asset, the authorization is made without an
  -- error: it names the receiver, and its signature of the channel's id, the participant, the
  -- receiver and the participant's balance is recovered to the signer.
  pub recover_signer-make_signed_withdrawal_auths :
      (signer : Signer) (id : Hash) (params : Params) (state : State)
      (receiver participant : Address) (part_idx amount : ℕ) (bals : List ℕ)
      → length id ≡ 32
      → length participant ≡ 20
      → length receiver ≡ 20
      → get_elem? params.participants part_idx ≡ some participant
      → state.outcome.balances ≡ bals ∷ []
      → get_elem? bals part_idx ≡ some amount
      → (sig : Signature) × (hash : Hash) × (make_signed_withdrawal_auths x signer id params
            receiver part_idx state
          ≡ ok (record { sig = sig; receiver = receiver } ∷ []))
        × (to_hash x (
              withdrawal_auth_value x (record {
                channel_id = id;
                participant = participant;
                receiver = receiver;
                amount = amount;
              }))
            ≡ ok hash)
        × (recover_signer x hash sig ≡ ok (address_from x (x.verifying_key signer.key)))
  unfolding make_signed_withdrawal_auths
  recover_signer-make_signed_withdrawal_auths signer id params state receiver participant part_idx
        amount bals sized_id sized_p sized_r known one owned =
      let hashed = auth-hash auth sized_id sized_p sized_r in
      let (sig, signed, recovered) = recover_signer-sign_eth {E = Error} x signer hash lawful in
      (sig, hash, rw one (rw known (rw owned (rw hashed (rw signed)))), hashed, recovered)
    where
      auth : WithdrawalAuth
      auth = record {
        channel_id = id;
        participant = participant;
        receiver = receiver;
        amount = amount;
      }

      hash : Hash
      hash = x.keccak256 (flatten (abi_encode (withdrawal_auth_value x auth)))
