-- ===== src/Demo/Application/Answers.antt =====
-- cortex-m-demo/src/application.rs: what its handlers make of bytes, envelopes and results.
use fork_perun_rs.Base.{
  ℕ, List, [], ◌∷◌, Option, none, some, Outcome, ok, err, panic, ok_or, length, take, drop, leb,
  if◌then◌else◌,
}
use fork_perun_rs.Base.Results
use fork_perun_rs.Effects.{convert}
use fork_perun_rs.External.{External}
use fork_perun_rs.Types.{Bytes, Address}
use fork_perun_rs.Messages.{Identity, ParticipantMessage}
use fork_perun_rs.Bus.{Sent, Method}
use fork_perun_rs.Wire.Envelope.{Envelope, EnvelopeMsg, auth_response_msg, Message}
use fork_perun_rs.Demo.Receive.{Error, envelope_has_no_msg, unexpected_msg, invalid_state}
use fork_perun_rs.Demo.Incoming.{ServiceReplyMessage, incoming, incoming_service}

-- `PEER0`
abbrev pub my_wire_address : Identity
my_wire_address =
    0x7b ∷ 0x7E ∷ 0x21 ∷ 0x26 ∷ 0x52 ∷ 0xb9 ∷ 0xC3 ∷ 0x75 ∷ 0x5C ∷ 0x4E ∷ 0x1f ∷ 0x17 ∷ 0x18 ∷ 0xa1
    ∷ 0x42 ∷ 0xdD ∷ 0xE3 ∷ 0x81 ∷ 0x75 ∷ 0x23 ∷ []

-- The function that `wait_connected_and_read_config` hands to the socket.
unfoldable pub read_config : Bytes → ℕ × Option (Address × Address)
read_config x = if leb 40 (length x) then (40, some (take 20 x, take 20 (drop 20 x))) else (0, none)

abbrev pub failed : {A : Type 0} → Option Error → Outcome Error A
failed none = panic
failed (some e) = err e

-- What a method of a channel gave, while the application stays; the error is converted, or `none`
-- where the code unwraps.
unfoldable pub deliver :
    {P S E A : Type 0}
    → (E → Option Error)
    → P
    → S × Outcome E A × List Sent
    → P × Outcome Error (S × A) × List Sent
deliver convert app (s, ok a, sent) = (app, ok (s, a), sent)
deliver convert app (s, err e, sent) = (app, failed (convert e), sent)
deliver convert app (s, panic, sent) = (app, panic, sent)

-- A method of a channel.
unfoldable pub run_on :
    {P S E A : Type 0} → (E → Option Error) → Method S E A → S → Method P Error (S × A)
unfolding deliver
run_on convert m s app = deliver convert app (m s)

-- The match of `check_incomming_connection`.
unfoldable pub handshake_of : Option EnvelopeMsg → Outcome Error (Unit {0})
handshake_of (some auth_response_msg) = ok tt
handshake_of (some _) = err unexpected_msg
handshake_of none = err invalid_state

unfoldable pub incoming_envelope :
    External → Option Envelope → Outcome Error (Option ParticipantMessage)
incoming_envelope x none = ok none
incoming_envelope x (some env) =
    Results.◌>>=◌ (ok_or env.msg envelope_has_no_msg)
      (λ msg. Results.◌>>=◌ (incoming x msg) (λ m. ok (some m)))

unfoldable pub incoming_message : Option Message → Outcome Error (Option ServiceReplyMessage)
incoming_message none = ok none
incoming_message (some env) =
    Results.◌>>=◌ (ok_or env.msg envelope_has_no_msg)
      (λ msg. Results.◌>>=◌ (incoming_service msg) (λ m. ok (some m)))
