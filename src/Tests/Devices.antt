-- ===== src/Tests/Devices.antt =====
-- The theorems on two devices, and on the main loop, at concrete inputs.
use fork_perun_rs.Base.{
  ◌≡◌, ap, refl, arith, true, false, some, panic, replicate, [], ◌∷◌, ok, List, length,
}
use fork_perun_rs.Base.Inversion.{ok-injective}
use fork_perun_rs.Messages.{auth, ParticipantMessage}
use fork_perun_rs.Wire.{expect}
use fork_perun_rs.Wire.Encoding.{encode_msg, participant_msg, send_bytes}
use fork_perun_rs.Abi.Bytes.{be_bytes}
use fork_perun_rs.Demo.Bus.{Bus, send, send_to_participant, deliver, send_calls}
use fork_perun_rs.Demo.Bus.Laws.{IsReady}
use fork_perun_rs.Demo.Incoming.Laws.{IsSendable}
use fork_perun_rs.Demo.Application.{Application}
use fork_perun_rs.Demo.Link.{enveloped, IsCarried, frames, calls, Receives, Receives-sent}
use fork_perun_rs.Abi.Bytes.{from_be}
use fork_perun_rs.Wire.Perunwire
use fork_perun_rs.Wire.Encoding.{Codec}
use fork_perun_rs.Wire.Envelope.{Envelope, channel_proposal_rej_msg}
use fork_perun_rs.Demo.Channel.{proposed}
use fork_perun_rs.Demo.Receive.{try_recv}
use fork_perun_rs.Demo.Application.{
  active, on_participant, connect_participant, connect_service, set_state,
}
use fork_perun_rs.Demo.Application.Handlers.{check_incomming_connection, connect}
use fork_perun_rs.Demo.Button.{new, is_falling_edge, is_rising_edge}
use fork_perun_rs.Demo.Application.Phase.{phase, connection}
use fork_perun_rs.Effects.{resume}
use fork_perun_rs.Demo.Application.Poll.{poll, poll_in, propose_channel, propose_in}
use fork_perun_rs.Demo.Main.{Pins, Input, Device, set_up, round, run}
use fork_perun_rs.Demo.Main.Stopping.{rejection-stops}
use fork_perun_rs.Tests.Opening.{proposed_with}
use fork_perun_rs.Tests.Channels.{test_holder}
use fork_perun_rs.Tests.Crates.{test_crates, test_crates-IsLawful}
use fork_perun_rs.Tests.Device.{
  test_tcp, test_tcp-IsLawful, test_tcp-IsQueueing, test_rng, test_app, test_envelopes,
  test_messages, test_envelope-IsEncodable,
}

abbrev two_messages : List ParticipantMessage
two_messages = auth ∷ auth ∷ []

auth-IsCarried : IsCarried test_crates test_envelopes (65 ∷ []) (66 ∷ []) auth
unfolding enveloped participant_msg IsSendable
auth-IsCarried = record {
  is_sendable = tt;
  is_encodable = test_envelope-IsEncodable;
  is_small = omega arith;
}

abbrev idle_bus : Bus test_tcp
idle_bus = record { participant = []; service = [] }

abbrev other_app : Application test_tcp test_rng
other_app = record test_app { participant_socket = 0 ∷ 3 ∷ 1 ∷ 2 ∷ 3 ∷ 0 ∷ 3 ∷ 1 ∷ 2 ∷ 3 ∷ [] }

sent_bytes :
    (next : Bus test_tcp)
    → send_calls test_tcp {E = Unit {0}} test_crates test_messages test_envelopes
        (calls test_crates test_envelopes (65 ∷ []) (66 ∷ []) two_messages)
        idle_bus
      ≡ ok next
    → other_app.participant_socket ≡ next.participant
unfolding send_calls calls send_bytes encode_msg expect be_bytes deliver send_to_participant send
sent_bytes next e = ap (λ (b : Bus test_tcp). b.participant) (ok-injective _ _ e)

two_fit :
    IsReady test_tcp test_tcp-IsQueueing
      (length (
        frames test_crates test_envelopes
          (65 ∷ [])
          (66 ∷ [])
          two_messages
          (auth-IsCarried, (auth-IsCarried, tt))))
      0
      idle_bus
unfolding frames be_bytes auth-IsCarried test_envelope-IsEncodable
two_fit = record {
  participant_sending = tt;
  service_sending = tt;
  participant_fits = omega arith;
  service_fits = omega arith;
}

Receives-sent_example :
    (next : Bus test_tcp) × (send_calls test_tcp {E = Unit {0}} test_crates test_messages
        test_envelopes
        (calls test_crates test_envelopes (65 ∷ []) (66 ∷ []) two_messages)
        idle_bus
      ≡ ok next)
    × Receives test_tcp test_crates test_envelopes test_messages
        (65 ∷ [])
        (66 ∷ [])
        test_rng
        test_tcp-IsLawful
        other_app
        two_messages
Receives-sent_example =
    Receives-sent test_tcp test_crates test_envelopes test_messages (65 ∷ []) (66 ∷ []) test_rng
      test_tcp-IsLawful test_crates-IsLawful (λ s receiving. omega arith) test_tcp-IsQueueing
      two_messages (auth-IsCarried, (auth-IsCarried, tt)) idle_bus other_app two_fit refl tt
      sent_bytes

abbrev pulled : Pins
pulled = record {
  update_pin = false;
  normal_close_pin = true;
  force_close_pin = true;
  propose_channel_pin = true;
}

-- The button that proposes a channel is down.
abbrev quiet_input : Input test_tcp test_rng
quiet_input = record {
  time = 500;
  pins = record pulled { propose_channel_pin = false };
  participant_network = λ q. [];
  service_network = λ q. q;
}

abbrev test_device : Device test_tcp test_rng
test_device = set_up test_tcp test_rng pulled test_app

abbrev ran : Device test_tcp test_rng
ran =
    (run test_tcp test_rng test_crates test_envelopes test_messages (quiet_input ∷ quiet_input ∷ [])
      test_device).0

-- The button connects the device, and the green light goes on.
proposing :
    let r =
      run test_tcp test_rng test_crates test_envelopes test_messages
        (quiet_input ∷ [])
        (record test_device { app = record test_app { participant_socket = [] } }) in
    (phase r.0.app.state ≡ connection) × (r.0.green_led ≡ true)
unfolding run round set_up resume poll poll_in propose_channel propose_in phase
    check_incomming_connection on_participant try_recv is_falling_edge new connect
    connect_participant connect_service set_state is_rising_edge
proposing = (refl, refl)

abbrev rejection : Perunwire.ChannelProposalRejMsg
rejection = record { proposal_id = replicate 32 1; reason = [] }

-- A crate that reads each message as a rejection.
abbrev rejecting : Codec Envelope
rejecting = record {
  encoded_len = λ e. 3;
  encode = λ e. some (1 ∷ 2 ∷ 3 ∷ []);
  decode = λ b. some (record {
    sender = 66 ∷ [];
    recipient = 65 ∷ [];
    msg = some (channel_proposal_rej_msg rejection);
  });
}

-- A device that waits for the answer to its proposal.
abbrev proposing_device : Device test_tcp test_rng
proposing_device = record test_device {
  app = record test_app { state = active test_holder test_holder (proposed (proposed_with [])) };
}

-- Three bytes arrive.
abbrev answered : Input test_tcp test_rng
answered = record quiet_input { participant_network = λ q. 0 ∷ 3 ∷ 1 ∷ 2 ∷ 3 ∷ [] }

rejection_received : try_recv test_tcp rejecting (0 ∷ 3 ∷ 1 ∷ 2 ∷ 3 ∷ []) ≡ (
  [],
  ok (
      some (record {
        sender = 66 ∷ [];
        recipient = 65 ∷ [];
        msg = some (channel_proposal_rej_msg rejection);
      })),
  [],
)
unfolding try_recv from_be resume
rejection_received = refl

rejection-stops_example :
    (run test_tcp test_rng test_crates rejecting test_messages (answered ∷ []) proposing_device).1
    ≡ panic
rejection-stops_example =
    rejection-stops test_tcp test_rng test_crates rejecting test_messages answered []
      proposing_device test_holder test_holder (proposed_with []) [] (66 ∷ []) (65 ∷ []) rejection
      refl rejection_received
