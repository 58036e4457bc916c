-- ===== src/Tests/Examples.antt =====
-- Each theorem at a concrete input.
use fork_perun_rs.Base.{
  ◌^◌, ◌-◌, ◌≢◌, ◌+◌, false, [], ◌∷◌, none, some, ok, err, refl, ◌≡◌, ◌↔◌, replicate, arith, map,
}
use fork_perun_rs.Base.Lists.{bytes_eq}
use fork_perun_rs.Effects.{resume}
use fork_perun_rs.Abi.Bytes.{chunks}
use fork_perun_rs.Abi.Value.{int, i128, Value, nil, cons, u64, uint, str, tuple}
use fork_perun_rs.Abi.Ser.{to_writer, to_fnargs_writer}
use fork_perun_rs.Abi.Spec.{word, int_word, is_dynamic, is_encodable, encode, abi_encode}
use fork_perun_rs.Abi.Negative.{to_writer-negative_i128}
use fork_perun_rs.Abi.Bytes.{be_bytes, from_be, from_be_after}
use fork_perun_rs.Channel.AgreedUpon.Round.{own_address}
use fork_perun_rs.Tests.Opening.{agreed_second}
use fork_perun_rs.Channel.History.{proposed, applied, opened, continued, sum-IsHistory}
use fork_perun_rs.Channel.Types.{ActiveChannel}
use fork_perun_rs.Payment.{u64_bound}
use fork_perun_rs.Base.{◌%◌}
use fork_perun_rs.Abi.Correct.{to_writer-abi_encode, to_fnargs_writer-encode}
use fork_perun_rs.Types.{Signature}
use fork_perun_rs.Sig.{Error, sign_eth, recover_signer, address_from}
use fork_perun_rs.Sig.Roundtrip.{recover_signer-sign_eth}
use fork_perun_rs.Payment.{new_state, total_assets}
use fork_perun_rs.Payment.Totals.{sum, total_assets-sum}
use fork_perun_rs.Channel.Round.{IsRound, apply-round}
use fork_perun_rs.Channel.Transition.{check_valid_transition}
use fork_perun_rs.Channel.Transition.Laws.{
  IsValidTransition, IsConserving, check_valid_transition_iff,
}
use fork_perun_rs.Channel.Active.Laws.{update-ok, handle_update-ok}
use fork_perun_rs.Messages.{LedgerChannelUpdateAccepted}
use fork_perun_rs.Channel.Errors.{ApplyError, AddSignatureError}
use fork_perun_rs.Channel.Types.{ChannelUpdate}
use fork_perun_rs.Channel.Update.{
  apply, participant_accepted, ensure_valid_channel, signatures, collect_from,
}
use fork_perun_rs.Channel.Update.Laws.{IsNextOf, apply-ok}
use fork_perun_rs.Channel.Update.Signing.{accept-ok, participant_accepted-ok}
use fork_perun_rs.Channel.Exchange.{acceptance}
use fork_perun_rs.Channel.AgreedUpon.Laws.{add_signature-ok}
use fork_perun_rs.Channel.Proposal.Laws.{participant_accepted-response, build-agreed}
use fork_perun_rs.Tests.Opening.{
  agreed, acceptance_2, signature_1, signature_2, added, proposal, proposed_with, response,
  responded, agreed_upon, is_agreed,
}
use fork_perun_rs.Tests.Crates.{test_crates, test_crates-IsLawful}
use fork_perun_rs.Tests.Channels.{
  alice, bob, first_state, second_state, second_state-IsShaped, second_state-IsValid,
  alice-bob-IsPair, round,
}

-- The arguments (5, "ab").
abbrev arguments : Value
arguments = tuple (cons (uint u64 5) (cons (str (97 ∷ 98 ∷ [])) nil))

to_writer-abi_encode_example : to_writer arguments ≡ ok (abi_encode arguments)
unfolding is_encodable encode is_dynamic chunks
to_writer-abi_encode_example = to_writer-abi_encode arguments refl (omega arith)

to_fnargs_writer-encode_example : to_fnargs_writer arguments ≡ ok (encode arguments)
unfolding is_encodable encode is_dynamic chunks
to_fnargs_writer-encode_example = to_fnargs_writer-encode arguments refl (omega arith)

apply-round_example : IsRound test_crates alice bob second_state
apply-round_example =
    apply-round test_crates alice bob second_state test_crates-IsLawful second_state-IsShaped
      alice-bob-IsPair second_state-IsValid

check_valid_transition_iff_example :
    (check_valid_transition test_crates alice second_state ≡ ok tt)
    ↔ IsConserving first_state second_state
check_valid_transition_iff_example =
    check_valid_transition_iff test_crates alice second_state test_crates-IsLawful

handle_update-ok_example : IsValidTransition test_crates first_state second_state
handle_update-ok_example =
    (handle_update-ok tt test_crates bob
      (record { state = second_state; actor_idx = 0; sig = round.sig_a }) round.handles).0

update-ok_example : IsValidTransition test_crates first_state second_state
update-ok_example =
    (update-ok tt test_crates alice second_state test_crates-IsLawful round.proposes).0

recover_signer-sign_eth_example :
    (sig : Signature) × (sign_eth {E = Error} test_crates alice.client.signer (replicate 32 3)
      ≡ ok sig)
    × (recover_signer test_crates (replicate 32 3) sig
        ≡ ok (address_from test_crates (test_crates.verifying_key alice.client.signer.key)))
recover_signer-sign_eth_example =
    recover_signer-sign_eth test_crates alice.client.signer (replicate 32 3) test_crates-IsLawful

total_assets-sum_example : total_assets {E = Error} test_crates first_state.outcome ≡ ok (30 ∷ [])
total_assets-sum_example = total_assets-sum test_crates test_crates-IsLawful first_state.outcome

apply-ok_example : IsNextOf round.update_b alice
apply-ok_example = (apply-ok round.update_b alice round.applied_a).0

-- The second participant has not signed.
abbrev half_signed : ChannelUpdate
half_signed = record {
  channel_id = first_state.id;
  new_state = second_state;
  signatures = some signature_1 ∷ none ∷ [];
}

half_signed-fails : (apply half_signed alice).1 ≡ err (ApplyError.missing_signature 1)
unfolding apply resume ensure_valid_channel signatures collect_from bytes_eq
half_signed-fails = refl

participant_accepted-ok_example : IsNextOf round.update_a alice
participant_accepted-ok_example =
    (participant_accepted-ok test_crates alice 1 (acceptance round.update_a round.sig_b)
      round.update_a round.collects).0

accept-ok_example : IsNextOf round.update_a bob
accept-ok_example = (accept-ok test_crates bob round.update_a round.accepts).0

add_signature-ok_example : acceptance_2.channel ≡ agreed.init_state.id
add_signature-ok_example = (add_signature-ok test_crates acceptance_2 agreed added).0

participant_accepted-response_example : response.proposal_id ≡ proposal.proposal_id
participant_accepted-response_example =
    (participant_accepted-response 0 response (proposed_with (none ∷ [])) responded).0

build-agreed_example :
    new_state test_crates agreed_upon.params proposal.init_bals ≡ ok agreed_upon.init_state
build-agreed_example =
    (build-agreed test_crates (proposed_with (some response ∷ [])) test_crates-IsLawful is_agreed).5

-- An acceptance for another channel.
abbrev foreign_acceptance : LedgerChannelUpdateAccepted
foreign_acceptance = record { channel = replicate 32 8; version = 1; sig = signature_2 }

foreign_acceptance-fails :
    (participant_accepted test_crates alice 1 foreign_acceptance half_signed).1
    ≡ err AddSignatureError.invalid_channel_id
unfolding participant_accepted resume ensure_valid_channel bytes_eq
foreign_acceptance-fails = refl

-- The pattern of -1.
to_writer-negative_i128_example :
    (to_writer (int i128 (2 ^ 128 - 1)) ≡ ok (word (2 ^ 128 - 1) ∷ []))
    × (word (2 ^ 128 - 1) ≢ int_word i128 (2 ^ 128 - 1))
to_writer-negative_i128_example = to_writer-negative_i128 (2 ^ 128 - 1) (omega arith) (omega arith)

distinct_addresses :
    bytes_eq (own_address test_crates agreed) (own_address test_crates agreed_second) ≡ false
unfolding bytes_eq address_from be_bytes from_be from_be_after
distinct_addresses = refl

-- The first participant after the round.
abbrev alice_after : ActiveChannel
alice_after = record alice { state = second_state; signatures = round.sig_a ∷ round.sig_b ∷ [] }

sum-IsHistory_example :
    (alice_after.params ≡ alice.params)
    × (alice_after.state.id ≡ alice.state.id)
    × (map sum alice_after.state.outcome.balances ≡ map sum alice.state.outcome.balances)
    × (alice_after.state.version % u64_bound ≡ (alice.state.version + 1) % u64_bound)
sum-IsHistory_example = sum-IsHistory test_crates alice 1 alice_after test_crates-IsLawful (
    continued opened (
      applied round.update_a round.update_b _ (proposed second_state round.sent_a round.proposes)
        round.completed round.applied_a))
