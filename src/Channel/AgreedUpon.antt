-- ===== src/Channel/AgreedUpon.antt =====
-- src/channel/agreed_upon.rs and signed.rs: the parameters are settled, and the participants sign
-- the initial state; then the channel waits to be funded.
pub mod Laws
pub mod Round
use fork_perun_rs.Base.{
  ℕ, zero, suc, Bool, true, false, not, List, [], ◌∷◌, ◌++◌, Option, none, some, Outcome, ok, err,
  panic, unwrap, ok_or, map_err, get_elem?, replicate, bytes_eq, ◌==◌, if◌then◌else◌,
}
use fork_perun_rs.Base.Results
use fork_perun_rs.Effects.{◌>>=◌, ◌>>◌, lift, send_all, fail, pure, get, put}
use fork_perun_rs.External.{External}
use fork_perun_rs.Types.{Address, Signature, to_hash}
use fork_perun_rs.Sig.{sign_eth, recover_signer}
use fork_perun_rs.Payment.{Params, State, Balances, state_value}
use fork_perun_rs.Messages.{
  Peers, LedgerChannelUpdateAccepted, channel_update_accepted, watch_request, fund_req,
}
use fork_perun_rs.Bus.{Sent, to_watcher, to_funder, Method, broadcast}
use fork_perun_rs.Channel.Errors.{SignError, AddSignatureError, BuildError}
use fork_perun_rs.Channel.Types.{PerunClient, ActiveChannel, assign}
use fork_perun_rs.Channel.Active as Active

pub record AgreedUponChannel : Type 0 where
  pub part_idx : ℕ
  pub withdraw_receiver : Address
  pub client : PerunClient
  pub funding_agreement : Balances
  pub init_state : State
  pub params : Params
  pub signatures : List (Option Signature)
  pub peers : Peers

-- `SignedChannel` wraps the channel that it becomes when it is funded.
pub record SignedChannel : Type 0 where
  pub inner : ActiveChannel

unfoldable pub new :
    PerunClient → Balances → ℕ → Address → State → Params → Peers → AgreedUponChannel
new client funding_agreement part_idx withdraw_receiver init_state params peers = record {
  part_idx = part_idx;
  withdraw_receiver = withdraw_receiver;
  client = client;
  funding_agreement = funding_agreement;
  init_state = init_state;
  params = params;
  signatures = none ∷ none ∷ [];
  peers = peers;
}

-- `SignedChannel::mark_funded`.
unfoldable pub mark_funded : SignedChannel → ActiveChannel
mark_funded ch = ch.inner

-- `self.signatures[i] = Some(sig)`
unfoldable pub store_signature :
    {E : Type 0} → ℕ → Signature → Method AgreedUponChannel E (Unit {0})
store_signature i sig = do
  ch ← get
  sigs ← lift (assign ch.signatures i (some sig))
  put (record ch { signatures = sigs })

unfoldable pub sign_if_missing :
    External → Option Signature → Method AgreedUponChannel SignError (Unit {0})
unfolding store_signature
sign_if_missing x (some _) = fail SignError.already_signed
sign_if_missing x none = do
  ch ← get
  hash ← lift (map_err SignError.abi_encode_error (to_hash x (state_value x ch.init_state)))
  sig ← lift (sign_eth x ch.client.signer hash)
  store_signature ch.part_idx sig
  send_all (
      broadcast ch.part_idx ch.peers (
        channel_update_accepted
          (record { channel = ch.init_state.id; version = ch.init_state.version; sig = sig })))

unfoldable pub sign : External → Method AgreedUponChannel SignError (Unit {0})
unfolding sign_if_missing
sign x = do
  ch ← get
  own ← lift (unwrap (get_elem? ch.signatures ch.part_idx))
  sign_if_missing x own

-- `participants.iter().enumerate().find(…)`: the first index from i on with this address.
unfoldable pub find_from : ℕ → List Address → Address → Option ℕ
find_from i [] signer = none
find_from i (a ∷ as') signer =
    let rest = find_from (suc i) as' signer in if bytes_eq a signer then some i else rest

unfoldable pub add_if_missing :
    ℕ → Signature → Option Signature → Method AgreedUponChannel AddSignatureError (Unit {0})
unfolding store_signature
add_if_missing i sig (some _) = fail AddSignatureError.already_signed
add_if_missing i sig none = store_signature i sig

unfoldable pub add_signature :
    External → LedgerChannelUpdateAccepted → Method AgreedUponChannel AddSignatureError (Unit {0})
unfolding add_if_missing
add_signature x msg = do
  ch ← get
  lift (Results.guard (bytes_eq msg.channel ch.init_state.id) AddSignatureError.invalid_channel_id)
  lift (Results.guard (msg.version == 0) AddSignatureError.invalid_version_number)
  hash ← lift (map_err AddSignatureError.abi_encode_error (to_hash x (state_value x ch.init_state)))
  signer ← lift (map_err AddSignatureError.recovery_failed (recover_signer x hash msg.sig))
  part_idx ← lift (
      ok_or (find_from 0 ch.params.participants signer)
        (AddSignatureError.invalid_signature signer))
  slot ← lift (unwrap (get_elem? ch.signatures part_idx))
  add_if_missing part_idx msg.sig slot

-- The loop of `build` over the signatures from the i-th on.
unfoldable pub collect_from : ℕ → List (Option Signature) → Outcome BuildError (List Signature)
collect_from i [] = ok []
collect_from i (none ∷ ss) = err (BuildError.missing_signature_response i)
collect_from i (some s ∷ ss) = Results.◌>>=◌ (collect_from (suc i) ss) (λ rest. ok (s ∷ rest))

-- The error of `build` holds the channel, too.
abbrev pub with_channel :
    {A : Type 0}
    → AgreedUponChannel
    → Outcome BuildError A
    → Outcome (AgreedUponChannel × BuildError) A
with_channel ch r = map_err (λ e. (ch, e)) r

unfoldable pub build :
    {S : Type 0} → AgreedUponChannel → Method S (AgreedUponChannel × BuildError) SignedChannel
unfolding collect_from Active.new
build ch = do
  sigs ← lift (with_channel ch (collect_from 0 ch.signatures))
  send_all (
      ok (
        to_watcher
          (watch_request (record { params = ch.params; state = ch.init_state; sigs = sigs }))
        ∷ []))
  send_all (
      ok (
        to_funder (
          fund_req (record {
            part_idx = ch.part_idx;
            funding_agreement = ch.funding_agreement;
            params = ch.params;
            state = ch.init_state;
          }))
        ∷ []))
  pure (record {
    inner =
        Active.new ch.part_idx ch.withdraw_receiver ch.client.signer ch.init_state ch.params sigs
          ch.peers;
  })
