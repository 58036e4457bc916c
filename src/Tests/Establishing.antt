-- ===== src/Tests/Establishing.antt =====
-- The theorems about establishing a channel, and on the example's answer to an update, at concrete inputs.
use fork_perun_rs.Base.{[], ◌∷◌, refl, false, none, some, ok, ◌≡◌, ◌↔◌, ◌⊎◌, replicate, arith}
use fork_perun_rs.Base.Lists.{bytes_eq}
use fork_perun_rs.Abi.Bytes.{be_bytes, from_be, from_be_after}
use fork_perun_rs.Sig.{address_from, new_signer, recover_signer, at_v}
use fork_perun_rs.Types.{Address}
use fork_perun_rs.Messages.{LedgerChannelProposal, LedgerChannelProposalAcc}
use fork_perun_rs.Payment.Assertions.{debug_assert_valid}
use fork_perun_rs.Payment.Assertions.Laws.{IsBounded, debug_assert_valid_iff}
use fork_perun_rs.Wire.Envelope.{Envelope, channel_update_acc_msg, channel_update_rej_msg}
use fork_perun_rs.Channel.Types.{PerunClient, ActiveChannel, ChannelUpdate, assign}
use fork_perun_rs.Channel.Active.{force_update, force_update_end, send_current_state_to_watcher}
use fork_perun_rs.Channel.Update.{
  participant_accepted, apply, ensure_valid_channel, add_if_missing, store_signature, signatures,
  collect_from,
}
use fork_perun_rs.Payment.Laws.{state-hash, channel_id-hash, IsShapedParams}
use fork_perun_rs.Wire.{expect, try_bytes}
use fork_perun_rs.Wire.Encoding.{send_bytes, encode_msg, watcher_msg}
use fork_perun_rs.Wire.Requests.{into_start_watching}
use fork_perun_rs.Wire.Payments.{into_params}
use fork_perun_rs.Wire.Participants.{try_update_accepted}
use fork_perun_rs.Channel.Establishing.SameKey.{client_with, IsRefused, add_signature-IsRefused}
use fork_perun_rs.Example.{on_update_response, handle_update_response, call, send_calls}
use fork_perun_rs.Example.Interface.{Net}
use fork_perun_rs.Example.Responses.{IsApplied, handle_update_response-ok}
use fork_perun_rs.Effects.{resume, pure}
use fork_perun_rs.Wire.Perunwire
use fork_perun_rs.Channel.Establishing.{IsEstablished, propose_channel-IsEstablished}
use fork_perun_rs.Channel.Establishing.Agreeing.{IsOffer, address_of}
use fork_perun_rs.Demo.Channel.Establishing.{IsOpened, run-IsOpened}
use fork_perun_rs.Tests.Crates.{test_crates, test_crates-IsLawful}
use fork_perun_rs.Tests.Channels.{
  alice, bob, test_holder, first_state, second_state, second_state-IsShaped, test_params,
}
use fork_perun_rs.Tests.Opening.{proposal, response, signature_1, signature_2}
use fork_perun_rs.Tests.Device.{test_envelopes, test_messages}

abbrev offered : LedgerChannelProposal
offered = record proposal { participant = address_of test_crates alice.client }

abbrev receiver : Address
receiver = replicate 20 9

abbrev same_client : PerunClient
same_client = client_with test_crates []

abbrev same_offered : LedgerChannelProposal
same_offered = record proposal { participant = address_of test_crates same_client }

abbrev is_offer :
    (client : PerunClient)
    → IsOffer test_crates client (record proposal { participant = address_of test_crates client })
is_offer client = record {
  duration_set = λ h. omega (arith, h);
  duration_fits = omega arith;
  proposer = refl;
  name_a = 65 ∷ [];
  name_b = 66 ∷ [];
  two_peers = refl;
  holder = test_holder;
  holder_size = refl;
  own = 10;
  other = 20;
  one_asset = refl;
}

is_distinct :
    bytes_eq (address_of test_crates alice.client) (address_of test_crates bob.client) ≡ false
unfolding bytes_eq address_from be_bytes from_be
is_distinct = refl

propose_channel-IsEstablished_example :
    IsEstablished test_crates alice.client bob.client offered receiver receiver (replicate 32 6)
propose_channel-IsEstablished_example =
    propose_channel-IsEstablished test_crates alice.client bob.client offered receiver receiver
      (replicate 32 6) test_crates-IsLawful (is_offer alice.client) is_distinct

run-IsOpened_example :
    IsOpened test_crates alice.client bob.client offered receiver receiver
      (replicate 32 6)
      (replicate 32 1)
      (replicate 32 2)
      0
run-IsOpened_example =
    run-IsOpened test_crates alice.client bob.client offered receiver receiver (replicate 32 6)
      (replicate 32 1) (replicate 32 2) 0 test_crates-IsLawful (is_offer alice.client) is_distinct

abbrev same_response : LedgerChannelProposalAcc
same_response = record response { participant = address_of test_crates same_client }

add_signature-IsRefused_example :
    IsRefused test_crates same_offered same_response receiver receiver [] (3 ∷ [])
unfolding new_signer
add_signature-IsRefused_example =
    add_signature-IsRefused test_crates same_offered same_response receiver receiver [] (3 ∷ [])
      test_crates-IsLawful (is_offer same_client) refl

-- A bus on which the answer to an update is the acceptance of the second participant.
abbrev accepting : Net
accepting = record {
  Bus = Unit {0};
  config = record { eth_holder = test_holder; withdraw_receiver = receiver };
  deliver = λ sent. pure tt;
  recv_envelope = pure (record {
    sender = 66 ∷ [];
    recipient = 65 ∷ [];
    msg = some (
        channel_update_acc_msg
          (record { channel_id = first_state.id; version = 1; sig = signature_2 }));
  });
  recv_message = pure (record { msg = none });
}

abbrev proposed_update : ChannelUpdate
proposed_update = record {
  channel_id = first_state.id;
  new_state = second_state;
  signatures = some signature_1 ∷ none ∷ [];
}

abbrev updated : ActiveChannel
updated = record alice { state = second_state; signatures = signature_1 ∷ signature_2 ∷ [] }

test_params-IsShaped : IsShapedParams test_params
unfolding address_from be_bytes
test_params-IsShaped = record {
  duration_fits = omega arith;
  first = address_of test_crates alice.client;
  first_size = refl;
  second = address_of test_crates bob.client;
  second_size = refl;
  two_participants = refl;
  app_size = refl;
}

applied :
    (handle_update_response test_crates test_envelopes test_messages accepting alice proposed_update
      tt).1
    ≡ ok updated
unfolding handle_update_response on_update_response call send_calls resume participant_accepted
    apply ensure_valid_channel add_if_missing store_signature assign recover_signer at_v bytes_eq
    address_from be_bytes from_be from_be_after signatures collect_from force_update
    force_update_end try_update_accepted try_bytes expect send_bytes encode_msg watcher_msg
    into_start_watching into_params send_current_state_to_watcher
applied =
    rw (state-hash test_crates test_crates-IsLawful second_state second_state-IsShaped)
      (rw (channel_id-hash test_crates test_crates-IsLawful test_params test_params-IsShaped) refl)

handle_update_response-ok_example :
    (envelope : Envelope) × ((accepting.recv_envelope tt).1 ≡ ok envelope)
    × (((m : Perunwire.ChannelUpdateRejMsg) × (envelope.msg ≡ some (channel_update_rej_msg m))
          × (updated ≡ alice))
        ⊎ ((m : Perunwire.ChannelUpdateAccMsg) × (envelope.msg ≡ some (channel_update_acc_msg m))
            × IsApplied test_crates alice updated proposed_update))
handle_update_response-ok_example =
    handle_update_response-ok test_crates test_envelopes test_messages accepting alice
      proposed_update tt updated applied

debug_assert_valid_iff_example :
    (debug_assert_valid {E = Unit {0}} offered.init_bals ≡ ok tt) ↔ IsBounded 1 2
debug_assert_valid_iff_example =
    debug_assert_valid_iff 1 2 offered.init_bals
      (record { assets = refl; balances = refl; rows = (refl, tt) })
