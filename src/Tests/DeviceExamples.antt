-- ===== src/Tests/DeviceExamples.antt =====
-- The theorems on the wire format and the demo, each at a concrete input.
use fork_perun_rs.Base.{
  ℕ, ◌≡◌, ◌≢◌, ◌∙◌, sym, ◌↔◌, refl, arith, false, List, [], ◌∷◌, none, ok, panic, replicate,
}
use fork_perun_rs.Abi.Bytes.{be_bytes}
use fork_perun_rs.Types.{Hash, Signature, to_hash}
use fork_perun_rs.Sig.{recover_signer, address_from}
use fork_perun_rs.Payment.{channel_id}
use fork_perun_rs.Messages.{ConversionError, LedgerChannelUpdate, channel_update}
use fork_perun_rs.Channel.Withdrawal.{withdrawal_auth_value, make_signed_withdrawal_auths}
use fork_perun_rs.Channel.Withdrawal.Laws.{recover_signer-make_signed_withdrawal_auths}
use fork_perun_rs.Wire.Perunwire
use fork_perun_rs.Wire.Payments.{zero_address, try_params, into_params, try_state, into_state}
use fork_perun_rs.Wire.Payments.Laws.{with_assets, try_state-into_state_iff, try_state-prefixed}
use fork_perun_rs.Wire.Payments.Parameters.{try_params-into_params}
use fork_perun_rs.Wire.Encoding.{participant_msg}
use fork_perun_rs.Demo.Incoming.{incoming}
use fork_perun_rs.Demo.Incoming.Laws.{IsSendable, incoming-participant_msg}
use fork_perun_rs.Demo.Channel.{active, moved_state}
use fork_perun_rs.Demo.Channel.Phase as ChannelPhase
use fork_perun_rs.Demo.Channel.Laws.{IsStep, handle, asks_force_close, handle-IsStep}
use fork_perun_rs.Demo.Channel.Opening.{run, IsWatched, IsFunded, run-IsFunded}
use fork_perun_rs.Demo.Channel.Round.{IsDemoRound, process_participant_msg-round}
use fork_perun_rs.Demo.Channel.Moved.{moved_state-first}
use fork_perun_rs.Demo.Button.{Level, high, low, DebouncedButton}
use fork_perun_rs.Demo.Button.Laws.{
  change_times, IsAscending, IsApart, IsEarly, change_times-IsApart,
}
use fork_perun_rs.Demo.Application.Phase.{Next, phase}
use fork_perun_rs.Demo.Application.Poll.{poll}
use fork_perun_rs.Demo.Application.Polling.{poll-Next}
use fork_perun_rs.Tests.Crates.{test_crates, test_crates-IsLawful}
use fork_perun_rs.Tests.Channels.{
  alice, bob, first_state, second_state, test_holder, test_params, test_params-IsShapedParams,
  second_state-IsShaped, alice-bob-IsPair, second_state-IsValid,
}
use fork_perun_rs.Tests.Opening.{first_state-IsShaped, built}
use fork_perun_rs.Messages.{ack, funded}
use fork_perun_rs.Demo.Channel.{
  signed, settle, progress, process_funder_reply, funder_progress, process_watcher_reply,
  watcher_progress,
}
use fork_perun_rs.Demo.Channel.Laws.{Event, from_watcher, from_funder}
use fork_perun_rs.Tests.Device.{
  native_state, native_state-IsNative, test_envelopes, test_messages, test_tcp, test_rng, test_app,
}

recover_signer-make_signed_withdrawal_auths_example :
    (sig : Signature) × (hash : Hash) × (make_signed_withdrawal_auths test_crates
        alice.client.signer
        (replicate 32 1)
        test_params
        (replicate 20 9)
        0
        first_state
      ≡ ok (record { sig = sig; receiver = replicate 20 9 } ∷ []))
    × (to_hash test_crates (
          withdrawal_auth_value test_crates (record {
            channel_id = replicate 32 1;
            participant = alice.client.signer.addr;
            receiver = replicate 20 9;
            amount = 10;
          }))
        ≡ ok hash)
    × (recover_signer test_crates hash sig
        ≡ ok (address_from test_crates (test_crates.verifying_key alice.client.signer.key)))
unfolding address_from be_bytes
recover_signer-make_signed_withdrawal_auths_example =
    recover_signer-make_signed_withdrawal_auths test_crates test_crates-IsLawful alice.client.signer
      (replicate 32 1) test_params first_state (replicate 20 9) alice.client.signer.addr 0 10
      (10 ∷ 20 ∷ []) refl refl refl refl refl refl

try_params-into_params_example :
    (w : Perunwire.Params) × (into_params {E = ConversionError} test_crates test_params ≡ ok w)
    × (channel_id test_crates test_params ≡ ok w.id)
    × (try_params test_crates w ≡ ok (record test_params { app = zero_address }))
try_params-into_params_example =
    try_params-into_params test_crates test_crates-IsLawful test_params test_params-IsShapedParams
      (omega arith)

-- The holder is not zero, so that the state is not read.
try_state-into_state_iff_example :
    (try_state test_crates (into_state test_crates first_state) ≡ ok first_state)
    ↔ (test_holder ≡ zero_address)
try_state-into_state_iff_example =
    try_state-into_state_iff test_crates test_crates-IsLawful first_state first_state-IsShaped
      (omega arith) (omega arith)

try_state-prefixed_example :
    try_state test_crates
      (with_assets (into_state test_crates first_state) ((20 ∷ 0 ∷ test_holder) ∷ []))
    ≡ ok first_state
try_state-prefixed_example =
    try_state-prefixed test_crates test_crates-IsLawful first_state first_state-IsShaped
      (omega arith) (omega arith)

abbrev native_update : LedgerChannelUpdate
native_update = record { state = native_state; actor_idx = 1; sig = replicate 65 3 }

native_update-IsSendable : IsSendable (channel_update native_update)
unfolding IsSendable
native_update-IsSendable = (native_state-IsNative, refl, omega arith)

incoming-participant_msg_example :
    incoming test_crates (participant_msg test_crates (channel_update native_update))
    ≡ ok (channel_update native_update)
incoming-participant_msg_example =
    incoming-participant_msg test_crates test_crates-IsLawful (channel_update native_update)
      native_update-IsSendable

handle-IsStep_example :
    IsStep
      (ChannelPhase.phase (active alice none))
      (handle test_crates asks_force_close (active alice none))
handle-IsStep_example = handle-IsStep test_crates asks_force_close (active alice none)

process_participant_msg-round_example : IsDemoRound test_crates alice bob second_state
process_participant_msg-round_example =
    process_participant_msg-round test_crates alice bob second_state test_crates-IsLawful
      second_state-IsShaped alice-bob-IsPair second_state-IsValid

moved_state-first_example : moved_state test_crates alice 15 false ≡ panic
moved_state-first_example =
    moved_state-first test_crates test_crates-IsLawful alice 10 20 15 false refl refl (omega arith)
      (omega arith) (omega arith)

abbrev button : DebouncedButton
button = record { debounce_threshhold = 100; last_time = 0; last_state = low }

abbrev presses : List (Level × ℕ)
presses = (high, 150) ∷ (low, 160) ∷ (low, 400) ∷ []

presses-IsAscending : IsAscending 0 presses
unfolding IsAscending
presses-IsAscending = (omega arith, (omega arith, (omega arith, tt)))

presses-IsEarly : IsEarly 100 presses
unfolding IsEarly
presses-IsEarly = (omega arith, (omega arith, (omega arith, tt)))

change_times-IsApart_example : IsApart 100 0 (change_times presses button)
change_times-IsApart_example =
    change_times-IsApart presses button presses-IsAscending (omega arith) presses-IsEarly

-- Released soon after it was pressed, and looked at every 50 units of time.
abbrev pressed : DebouncedButton
pressed = record { debounce_threshhold = 100; last_time = 150; last_state = high }

abbrev released : List (Level × ℕ)
released = (low, 200) ∷ (low, 250) ∷ (low, 300) ∷ []

poll-Next_example :
    Next
      (phase test_app.state)
      (phase (poll test_tcp test_rng test_crates test_envelopes test_messages test_app).0.state)
poll-Next_example = poll-Next test_tcp test_rng test_crates test_envelopes test_messages test_app

-- The funder comes first.
abbrev opening : List Event
opening = from_funder (funded (replicate 32 1)) ∷ from_watcher (ack (replicate 32 1) 0) ∷ []

opens :
    ChannelPhase.phase (run test_crates opening (signed built false false)) ≡ ChannelPhase.activity
unfolding run handle process_funder_reply funder_progress process_watcher_reply watcher_progress
    progress settle ChannelPhase.phase
opens = refl

activity≢signature : ChannelPhase.activity ≢ ChannelPhase.signature
activity≢signature e = ground arith

run-IsFunded_example : IsWatched opening × IsFunded opening
run-IsFunded_example =
    run-IsFunded test_crates built opening (λ e. activity≢signature (sym opens ∙ e))
