-- ===== src/Wire/Encoding.antt =====
-- src/wire/encoding.rs: messages as bytes, each after its length in two bytes. The bytes of a
-- message are those of the prost crate, which is a parameter; `none` stands for its errors.
pub mod Laws
use fork_perun_rs.Base.{
  ℕ, ◌^◌, List, ◌++◌, ◌≡◌, Option, some, Outcome, ok, err, panic, ◌>>=◌, ok_or, length, ltb, not,
  if◌then◌else◌,
}
use fork_perun_rs.External.{External}
use fork_perun_rs.Abi.Bytes.{be_bytes}
use fork_perun_rs.Types.{Bytes}
use fork_perun_rs.Messages.{
  Identity, WatcherRequestMessage, watch_request, start_dispute, FunderRequestMessage, fund_req,
  register_req, withdraw_req, ParticipantMessage, auth, channel_proposal, proposal_accepted,
  proposal_rejected, channel_update, channel_update_accepted, channel_update_rejected,
}
use fork_perun_rs.Bus.{Sent, to_watcher, to_funder, to_participant}
use fork_perun_rs.Wire.{expect}
use fork_perun_rs.Wire.Envelope.{
  Envelope, EnvelopeMsg, auth_response_msg, ledger_channel_proposal_msg,
  ledger_channel_proposal_acc_msg, channel_proposal_rej_msg, channel_update_msg,
  channel_update_acc_msg, channel_update_rej_msg, Message, MessageMsg, fund_req_msg,
  register_req_msg, withdraw_req_msg, start_watching_req_msg, force_close_request_msg,
}
use fork_perun_rs.Wire.Participants.{
  into_proposal, into_proposal_acc, into_update, into_update_accepted,
}
use fork_perun_rs.Wire.Requests.{
  into_fund_req, into_register_req, into_withdraw_req, into_start_watching, into_force_close,
}

-- `prost::Message` of a type.
pub record Codec (T : Type 0) : Type 0 where
  pub encoded_len : T → ℕ
  pub encode : T → Option Bytes
  pub decode : Bytes → Option T

-- What prost promises of a message that its types can hold: as many bytes as it said, which are
-- decoded to the message.
pub record IsEncodable {T : Type 0} (codec : Codec T) (msg : T) : Type 0 where
  pub bytes : Bytes
  pub encoded : codec.encode msg ≡ some bytes
  pub sized : length bytes ≡ codec.encoded_len msg
  pub decoded : codec.decode bytes ≡ some msg

pub data EncodeError : Type 0 where
  encode_error : EncodeError

abbrev pub length_bound : ℕ
length_bound = 2 ^ 16

-- `ProtoBufEncodingLayer::encode`
unfoldable pub encode_msg : {T : Type 0} → Codec T → T → Outcome EncodeError Bytes
encode_msg codec msg = if not (ltb (codec.encoded_len msg) length_bound) then panic else do
  bytes ← ok_or (codec.encode msg) encode_error
  ok (be_bytes 2 (codec.encoded_len msg) ++ bytes)

-- The calls of `BytesBus`.
pub data SentBytes : Type 0 where
  watcher_bytes : Bytes → SentBytes
  funder_bytes : Bytes → SentBytes
  participant_bytes : Identity → Identity → Bytes → SentBytes

module _ {E : Type 0} (x : External) where
  unfoldable pub watcher_msg : WatcherRequestMessage → Outcome E MessageMsg
  watcher_msg (watch_request msg) = do m ← into_start_watching x msg; ok (start_watching_req_msg m)
  watcher_msg (start_dispute msg) = do m ← into_force_close x msg; ok (force_close_request_msg m)

  unfoldable pub funder_msg : FunderRequestMessage → Outcome E MessageMsg
  funder_msg (fund_req msg) = do m ← into_fund_req x msg; ok (fund_req_msg m)
  funder_msg (register_req msg) = do m ← into_register_req x msg; ok (register_req_msg m)
  funder_msg (withdraw_req msg) = do m ← into_withdraw_req x msg; ok (withdraw_req_msg m)

unfoldable pub participant_msg : External → ParticipantMessage → EnvelopeMsg
participant_msg x auth = auth_response_msg
participant_msg x (channel_proposal msg) = ledger_channel_proposal_msg (into_proposal x msg)
participant_msg x (proposal_accepted msg) = ledger_channel_proposal_acc_msg (into_proposal_acc msg)
participant_msg x (proposal_rejected id reason) =
    channel_proposal_rej_msg (record { proposal_id = id; reason = reason })
participant_msg x (channel_update msg) = channel_update_msg (into_update x msg)
participant_msg x (channel_update_accepted msg) = channel_update_acc_msg (into_update_accepted msg)
participant_msg x (channel_update_rejected id version reason) =
    channel_update_rej_msg (record { channel_id = id; version = version; reason = reason })

-- `send_to_watcher`, `send_to_funder` and `send_to_participant`.
unfoldable pub send_bytes :
    {E : Type 0} → External → Codec Message → Codec Envelope → Sent → Outcome E SentBytes
unfolding watcher_msg funder_msg participant_msg
send_bytes x messages envelopes (to_watcher msg) = do
  wiremsg ← watcher_msg x msg
  buf ← expect (encode_msg messages (record { msg = some wiremsg }))
  ok (watcher_bytes buf)
send_bytes x messages envelopes (to_funder msg) = do
  wiremsg ← funder_msg x msg
  buf ← expect (encode_msg messages (record { msg = some wiremsg }))
  ok (funder_bytes buf)
send_bytes x messages envelopes (to_participant sender recipient msg) = do
  buf ← expect (
      encode_msg envelopes
        (record { sender = sender; recipient = recipient; msg = some (participant_msg x msg) }))
  ok (participant_bytes sender recipient buf)
