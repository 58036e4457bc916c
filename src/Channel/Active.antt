-- ===== src/Channel/Active.antt =====
-- src/channel/active.rs: the updates of an open channel, and its closure. The methods with
-- `&self` leave any state alone; what they send is listed.
pub mod Laws
use fork_perun_rs.Base.{
  ℕ, Bool, true, false, not, List, [], ◌∷◌, Outcome, ok, err, panic, unwrap, map_err, get_elem?,
  bytes_eq, if◌then◌else◌,
}
use fork_perun_rs.Effects.{◌>>=◌, ◌>>◌, lift, send_all, fail, pure, get, put}
use fork_perun_rs.External.{External}
use fork_perun_rs.Types.{Hash, Address, Signature, to_hash}
use fork_perun_rs.Sig.{Signer, sign_eth, recover_signer}
use fork_perun_rs.Payment.{Params, State, state_value, make_next_state}
use fork_perun_rs.Messages.{
  StartWatchingLedgerChannelReq, LedgerChannelUpdate, AdjudicatorReq, watch_request, register_req,
  withdraw_req, channel_update,
}
use fork_perun_rs.Bus.{Sent, to_watcher, to_funder, Method, broadcast}
use fork_perun_rs.Channel.Errors.{ProposeUpdateError, HandleUpdateError, SignError}
use fork_perun_rs.Channel.Types.{ActiveChannel, ChannelUpdate, new_update}
use fork_perun_rs.Channel.Transition.{check_valid_transition}

-- `ActiveChannel::new`; the assertion is checked in debug builds only.
unfoldable pub new :
    ℕ → Address → Signer → State → Params → List Signature → List Hash → ActiveChannel
new part_idx withdraw_receiver signer init_state params signatures peers = record {
  part_idx = part_idx;
  withdraw_receiver = withdraw_receiver;
  client = record { signer = signer };
  state = init_state;
  params = params;
  signatures = signatures;
  peers = peers;
}

module _ {S : Type 0} (x : External) (ch : ActiveChannel) where
  unfoldable pub update : State → Method S ProposeUpdateError ChannelUpdate
  update new_state = do
    lift (map_err ProposeUpdateError.invalid_update (check_valid_transition x ch new_state))
    hash ← lift (map_err ProposeUpdateError.abi_encode_error (to_hash x (state_value x new_state)))
    sig ← lift (sign_eth x ch.client.signer hash)
    send_all (
        broadcast ch.part_idx ch.peers
          (channel_update (record { state = new_state; actor_idx = ch.part_idx; sig = sig })))
    lift (new_update ch new_state ch.part_idx sig)

  unfoldable pub handle_update : LedgerChannelUpdate → Method S HandleUpdateError ChannelUpdate
  handle_update msg = do
    lift (map_err HandleUpdateError.invalid_update (check_valid_transition x ch msg.state))
    hash ← lift (map_err HandleUpdateError.abi_encode_error (to_hash x (state_value x msg.state)))
    signer ← lift (map_err HandleUpdateError.recovery_failed (recover_signer x hash msg.sig))
    participant ← lift (unwrap (get_elem? ch.params.participants msg.actor_idx))
    if not (bytes_eq participant signer)
        then fail (HandleUpdateError.invalid_signature signer)
        else lift (new_update ch msg.state msg.actor_idx msg.sig)

  unfoldable pub close_normal : Method S ProposeUpdateError ChannelUpdate
  close_normal = update (record (make_next_state ch.state) { is_final = true })

abbrev pub watch_info : ActiveChannel → StartWatchingLedgerChannelReq
watch_info ch = record { params = ch.params; state = ch.state; sigs = ch.signatures }

abbrev pub adjudicator_req : ActiveChannel → AdjudicatorReq
adjudicator_req ch = record {
  params = ch.params;
  acc = ch.withdraw_receiver;
  tx = record { state = ch.state; sigs = ch.signatures };
  idx = ch.part_idx;
  secondary = false;
}

module _ {S : Type 0} (ch : ActiveChannel) where
  unfoldable pub send_current_state_to_watcher : Method S SignError (Unit {0})
  send_current_state_to_watcher = send_all (ok (to_watcher (watch_request (watch_info ch)) ∷ []))

  -- The error of `force_close` holds the channel, too.
  unfoldable pub force_close : Method S (ActiveChannel × SignError) ActiveChannel
  force_close = do send_all (ok (to_funder (register_req (adjudicator_req ch)) ∷ [])); pure ch

  unfoldable pub withdraw : Method S SignError ActiveChannel
  withdraw = do send_all (ok (to_funder (withdraw_req (adjudicator_req ch)) ∷ [])); pure ch

-- `send_current_state_to_watcher()` inside of `force_update`: the changes are rolled back if it
-- fails.
unfoldable pub force_update_end :
    ActiveChannel
    → ActiveChannel × Outcome SignError (Unit {0}) × List Sent
    → ActiveChannel × Outcome SignError (Unit {0}) × List Sent
force_update_end old (ch, ok _, sent) = (ch, ok tt, sent)
force_update_end old (ch, err e, sent) =
    (record ch { state = old.state; signatures = old.signatures }, err e, sent)
force_update_end old (ch, panic, sent) = (ch, panic, sent)

unfoldable pub force_update : State → List Signature → Method ActiveChannel SignError (Unit {0})
unfolding send_current_state_to_watcher force_update_end
force_update new_state signatures old =
    let ch = record old { state = new_state; signatures = signatures } in
    force_update_end old (send_current_state_to_watcher ch ch)
