-- ===== src/Tests/Device.antt =====
-- A state of the asset zero, and a device whose sockets are byte strings.
use fork_perun_rs.Base.{
  ℕ, false, true, [], ◌∷◌, some, refl, replicate, arith, length, take, take-length, drop, ap, ◌≡◌,
  ◌≤◌, ◌-◌, ◌+◌, ◌++◌, ◌∙◌, length-append,
}
use mathlib.Core.List.{append-nil}
use mathlib.Core.Path.{sym}
use fork_perun_rs.Types.{Bytes}
use fork_perun_rs.Payment.{State}
use fork_perun_rs.Wire.Payments.{zero_address}
use fork_perun_rs.Wire.Payments.Laws.{IsNative}
use fork_perun_rs.Wire.Encoding.{Codec, IsEncodable}
use fork_perun_rs.Wire.Envelope.{Envelope, auth_response_msg, Message, fund_resp_msg}
use fork_perun_rs.Demo.Bus.Laws.{IsQueueing}
use fork_perun_rs.Demo.Socket.{TcpSocket, IsLawfulTcp}
use fork_perun_rs.Demo.Application.{Rng, Application, listening}
use fork_perun_rs.Tests.Channels.{alice, test_holder}

abbrev pub native_state : State
native_state = record {
  id = replicate 32 1;
  version = 3;
  outcome = record {
    assets = record { holder = zero_address } ∷ [];
    balances = (10 ∷ 20 ∷ []) ∷ [];
  };
  is_final = false;
}

pub native_state-IsNative : IsNative native_state
native_state-IsNative = record {
  shaped = record {
    id_size = refl;
    version_fits = omega arith;
    holder = zero_address;
    holder_size = refl;
    one_asset = refl;
    own = 10;
    other = 20;
    two_balances = refl;
  };
  own_fits = omega arith;
  other_fits = omega arith;
  native = refl;
}

abbrev pub test_envelope : Envelope
test_envelope = record { sender = 65 ∷ []; recipient = 66 ∷ []; msg = some auth_response_msg }

-- A crate that writes everything as the same three bytes, and reads them as one message.
abbrev pub test_envelopes : Codec Envelope
test_envelopes = record {
  encoded_len = λ e. 3;
  encode = λ e. some (1 ∷ 2 ∷ 3 ∷ []);
  decode = λ b. some test_envelope;
}

abbrev pub test_messages : Codec Message
test_messages = record {
  encoded_len = λ e. 3;
  encode = λ e. some (1 ∷ 2 ∷ 3 ∷ []);
  decode = λ b. some (record { msg = some fund_resp_msg });
}

unfoldable pub test_envelope-IsEncodable : IsEncodable test_envelopes test_envelope
test_envelope-IsEncodable = record {
  bytes = 1 ∷ 2 ∷ 3 ∷ [];
  encoded = refl;
  sized = refl;
  decoded = refl;
}

abbrev pub test_tcp : TcpSocket
test_tcp = record {
  Socket = Bytes;
  recv_queue = λ q. length q;
  recv_capacity = λ q. 512;
  peek_slice = λ n q. some (take n q);
  recv = λ f q. some ((f q).1, drop (f q).0 q);
  recv_slice = λ n q. some (take n q, drop n q);
  send_slice = λ b q. some (length b, q ++ b);
  is_active = λ q. true;
  is_open = λ q. true;
  is_listening = λ q. false;
  can_recv = λ q. true;
  may_recv = λ q. true;
  may_send = λ q. true;
  connect = λ remote port q. some q;
  listen = λ port q. some q;
  close = λ q. q;
  abort = λ q. q;
}

abbrev pub test_tcp-IsLawful : IsLawfulTcp test_tcp
test_tcp-IsLawful = record {
  queue = λ q. q;
  IsReceiving = λ q. Unit;
  queued = λ q. refl;
  before_edge = λ q. q;
  wrapped = λ q. [];
  parts = λ q. sym (append-nil q);
  peeks = λ n q receiving. refl;
  receives =
      λ f q receiving h bound. (q, [], drop (f q).0 q, sym (append-nil q), h, refl, refl, tt);
  copies = λ n q receiving h. (drop n q, refl, refl, tt);
}

pub test_queues :
    (b q t : Bytes) (n : ℕ) → test_tcp.send_slice b q ≡ some (n, t) → t ≡ q ++ take n b
test_queues b q t n h =
    let e : (length b ≡ n) × (q ++ b ≡ t) = ground arith in
    sym e.1 ∙ ap (◌++◌ q) (sym (take-length b)) ∙ ap (λ k. q ++ take k b) e.0

pub test_room :
    (b q : Bytes) → length b ≤ 512 - length q → 512 - length q ≡ length b + (512 - length (q ++ b))
test_room b q h = omega (arith, h, length-append q b)

abbrev pub test_tcp-IsQueueing : IsQueueing test_tcp
test_tcp-IsQueueing = record {
  waiting = λ q. q;
  queues = λ b q t n h. test_queues b q t n h;
  room = λ q. 512 - length q;
  IsSending = λ q. Unit;
  accepts = λ b q sending h. (q ++ b, refl, test_room b q h, tt);
}

abbrev pub test_rng : Rng
test_rng = record { StdRng = ℕ; next_u32 = λ n. (n, n); gen = λ n. (replicate 32 n, n) }

-- A connection attempt waits.
abbrev pub test_app : Application test_tcp test_rng
test_app = record {
  state = listening test_holder (replicate 20 9);
  participant_socket = 0 ∷ 3 ∷ 1 ∷ 2 ∷ 3 ∷ [];
  service_socket = [];
  config = record {
    config_server = (replicate 4 1, 1);
    other_participant = (replicate 4 2, 2);
    service_server = (replicate 4 3, 3);
    listen_port = 4;
    participants = (65 ∷ []) ∷ (66 ∷ []) ∷ [];
  };
  generator = 5;
  client = alice.client;
  addr = replicate 20 1;
}
