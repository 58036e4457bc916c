-- ===== src/Channel/Update.antt =====
-- src/channel/channel_update.rs: an update that was proposed, its signatures and its application.
pub mod Laws
pub mod Signing
use fork_perun_rs.Base.{
  ℕ, zero, suc, ◌+◌, ◌%◌, Bool, true, false, not, List, [], ◌∷◌, Option, none, some, Outcome, ok,
  err, unwrap, map_err, get_elem?, set, replicate, bytes_eq, ◌==◌, if◌then◌else◌,
}
use fork_perun_rs.Base.Results
use fork_perun_rs.Effects.{◌>>=◌, ◌>>◌, lift, send_all, fail, pure, get, put, convert}
use fork_perun_rs.External.{External}
use fork_perun_rs.Types.{Bytes, Signature, to_hash}
use fork_perun_rs.Sig.{sign_eth, recover_signer}
use fork_perun_rs.Payment.{State, u64_bound, state_value}
use fork_perun_rs.Messages.{
  LedgerChannelUpdateAccepted, channel_update_accepted, channel_update_rejected,
}
use fork_perun_rs.Bus.{Sent, Method, broadcast}
use fork_perun_rs.Channel.Errors.{
  InvalidChannel, AcceptError, ApplyError, AddSignatureError, accept_error_from, apply_error_from,
  add_signature_error_from,
}
use fork_perun_rs.Channel.Types.{ActiveChannel, ChannelUpdate, assign}
use fork_perun_rs.Channel.Active.{force_update}

unfoldable pub ensure_valid_channel :
    ChannelUpdate → ActiveChannel → Outcome InvalidChannel (Unit {0})
ensure_valid_channel u ch =
    if not (u.new_state.version == (ch.state.version + 1) % u64_bound)
    then err InvalidChannel.wrong_version
    else if not (bytes_eq u.channel_id ch.state.id)
    then err InvalidChannel.wrong_channel_id
    else ok tt

-- The loop of `signatures` over the slots from the i-th on.
unfoldable pub collect_from : ℕ → List (Option Signature) → Outcome ApplyError (List Signature)
collect_from i [] = ok []
collect_from i (none ∷ ss) = err (ApplyError.missing_signature i)
collect_from i (some s ∷ ss) = Results.◌>>=◌ (collect_from (suc i) ss) (λ rest. ok (s ∷ rest))

unfoldable pub signatures : ChannelUpdate → Outcome ApplyError (List Signature)
unfolding collect_from
signatures u = collect_from 0 u.signatures

-- `self.signatures[i] = Some(sig)`
unfoldable pub store_signature : {E : Type 0} → ℕ → Signature → Method ChannelUpdate E (Unit {0})
store_signature i sig = do
  u ← get
  sigs ← lift (assign u.signatures i (some sig))
  put (record u { signatures = sigs })

-- The branch of `accept` where we have not signed yet.
unfoldable pub sign_and_send :
    External → ActiveChannel → Option Signature → Method ChannelUpdate AcceptError (Unit {0})
unfolding store_signature
sign_and_send x ch (some _) = fail AcceptError.already_accepted
sign_and_send x ch none = do
  u ← get
  hash ← lift (map_err AcceptError.abi_encode_error (to_hash x (state_value x u.new_state)))
  sig ← lift (sign_eth x ch.client.signer hash)
  store_signature ch.part_idx sig
  send_all (
      broadcast ch.part_idx ch.peers (
        channel_update_accepted
          (record { channel = u.channel_id; version = u.new_state.version; sig = sig })))

unfoldable pub accept : External → ActiveChannel → Method ChannelUpdate AcceptError (Unit {0})
unfolding sign_and_send
accept x ch = do
  u ← get
  lift (map_err accept_error_from (ensure_valid_channel u ch))
  own ← lift (unwrap (get_elem? u.signatures ch.part_idx))
  sign_and_send x ch own

unfoldable pub reject :
    {S : Type 0} → ChannelUpdate → ActiveChannel → Bytes → Method S InvalidChannel (Unit {0})
reject u ch reason = do
  lift (ensure_valid_channel u ch)
  send_all (
      broadcast ch.part_idx ch.peers
        (channel_update_rejected u.channel_id u.new_state.version reason))

unfoldable pub add_if_missing :
    ℕ → Signature → Option Signature → Method ChannelUpdate AddSignatureError (Unit {0})
unfolding store_signature
add_if_missing i sig (some _) = fail AddSignatureError.already_signed
add_if_missing i sig none = store_signature i sig

unfoldable pub participant_accepted :
    External
    → ActiveChannel
    → ℕ
    → LedgerChannelUpdateAccepted
    → Method ChannelUpdate AddSignatureError (Unit {0})
unfolding add_if_missing
participant_accepted x ch part_idx msg = do
  u ← get
  lift (map_err add_signature_error_from (ensure_valid_channel u ch))
  lift (Results.guard (bytes_eq msg.channel u.channel_id) AddSignatureError.invalid_channel_id)
  lift (Results.guard (msg.version == u.new_state.version) AddSignatureError.invalid_version_number)
  hash ← lift (map_err AddSignatureError.abi_encode_error (to_hash x (state_value x u.new_state)))
  signer ← lift (map_err AddSignatureError.recovery_failed (recover_signer x hash msg.sig))
  participant ← lift (unwrap (get_elem? ch.params.participants part_idx))
  lift (Results.guard (bytes_eq participant signer) (AddSignatureError.invalid_signature signer))
  slot ← lift (unwrap (get_elem? u.signatures part_idx))
  add_if_missing part_idx msg.sig slot

-- `apply` changes the channel, not the update.
unfoldable pub apply : ChannelUpdate → Method ActiveChannel ApplyError (Unit {0})
apply u = do
  ch ← get
  lift (map_err apply_error_from (ensure_valid_channel u ch))
  sigs ← lift (signatures u)
  convert ApplyError.sign_error (force_update u.new_state sigs)
