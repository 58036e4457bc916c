-- ===== src/Channel/Withdrawal.antt =====
-- src/channel/withdrawal_auth.rs: the authorizations that let an on-chain receiver withdraw. The
-- assertion is checked in debug builds only.
pub mod Laws
use fork_perun_rs.Base.{ℕ, List, [], ◌∷◌, Outcome, ok, ◌>>=◌, unwrap, get_elem?, replicate}
use fork_perun_rs.External.{External}
use fork_perun_rs.Types.{
  Hash, Address, Signature, bytes_n_value, address_value, u256_value, to_hash,
}
use fork_perun_rs.Sig.{Signer, sign_eth}
use fork_perun_rs.Payment.{Params, State, Balances}
use fork_perun_rs.Messages.{SignedWithdrawalAuth}
use fork_perun_rs.Abi.Value.{Value, nil, cons, struct}
use fork_perun_rs.Abi.Ser.{Error}

pub record WithdrawalAuth : Type 0 where
  pub channel_id : Hash
  pub participant : Address
  pub receiver : Address
  pub amount : ℕ

unfoldable pub withdrawal_auth_value : External → WithdrawalAuth → Value
withdrawal_auth_value x a = struct (
    cons (bytes_n_value a.channel_id) (
      cons (address_value a.participant)
        (cons (address_value a.receiver) (cons (u256_value x a.amount) nil))))

-- `SignedWithdrawalAuth::default()`
abbrev pub default_auth : SignedWithdrawalAuth
default_auth = record { sig = replicate 65 0; receiver = replicate 20 0 }

module _ (x : External) (signer : Signer) (channel_id : Hash) (params : Params) (receiver : Address)
    (part_idx : ℕ) where
  -- The body of the loop.
  unfoldable pub sign_auth : List ℕ → Outcome Error SignedWithdrawalAuth
  sign_auth bals = do
    participant ← unwrap (get_elem? params.participants part_idx)
    amount ← unwrap (get_elem? bals part_idx)
    hash ← to_hash x (
        withdrawal_auth_value x (record {
          channel_id = channel_id;
          participant = participant;
          receiver = receiver;
          amount = amount;
        }))
    sig ← sign_eth x signer hash
    ok (record { sig = sig; receiver = receiver })

  -- The loop over the authorizations and the balances, as long as there are both.
  unfoldable pub sign_auths :
      List SignedWithdrawalAuth → Balances → Outcome Error (List SignedWithdrawalAuth)
  sign_auths (_ ∷ auths) (bals ∷ rest) = do
    auth ← sign_auth bals
    signed ← sign_auths auths rest
    ok (auth ∷ signed)
  sign_auths auths _ = ok auths

  unfoldable pub make_signed_withdrawal_auths : State → Outcome Error (List SignedWithdrawalAuth)
  unfolding sign_auth sign_auths
  make_signed_withdrawal_auths state = sign_auths (default_auth ∷ []) state.outcome.balances
