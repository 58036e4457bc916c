-- ===== src/Demo/Incoming.antt =====
-- What cortex-m-demo/src/application.rs makes of a message that it received: those that it does not
-- implement panic, and so does an id of another length.
pub mod Laws
use fork_perun_rs.Base.{
  ℕ, Outcome, ok, panic, ◌>>=◌, map_err, length, ◌==◌, if◌then◌else◌, replicate,
}
use fork_perun_rs.External.{External}
use fork_perun_rs.Types.{Bytes, Hash}
use fork_perun_rs.Messages.{
  ParticipantMessage, auth, channel_proposal, proposal_accepted, proposal_rejected, channel_update,
  channel_update_accepted, channel_update_rejected, WatcherReplyMessage, ack, dispute_ack,
  dispute_notification, FunderReplyMessage, funded,
}
use fork_perun_rs.Wire.Envelope.{
  EnvelopeMsg, auth_response_msg, ledger_channel_proposal_msg, ledger_channel_proposal_acc_msg,
  channel_proposal_rej_msg, channel_update_msg, channel_update_acc_msg, channel_update_rej_msg,
  MessageMsg, fund_resp_msg, watch_response_msg, force_close_response_msg, dispute_notification_msg,
}
use fork_perun_rs.Wire.Participants.{
  try_proposal, try_proposal_acc, try_update, try_update_accepted,
}
use fork_perun_rs.Demo.Receive.{Error, conversion_error}

pub data ServiceReplyMessage : Type 0 where
  watcher : WatcherReplyMessage → ServiceReplyMessage
  funder : FunderReplyMessage → ServiceReplyMessage

-- `Hash(id.try_into().unwrap())`
unfoldable pub hash_of : Bytes → Outcome Error Hash
hash_of id = if length id == 32 then ok id else panic

-- The match of `try_recv_participant_msg`.
unfoldable pub incoming : External → EnvelopeMsg → Outcome Error ParticipantMessage
unfolding hash_of
incoming x auth_response_msg = ok auth
incoming x (ledger_channel_proposal_msg m) =
    map_err conversion_error (try_proposal x m) >>= λ p. ok (channel_proposal p)
incoming x (ledger_channel_proposal_acc_msg m) =
    map_err conversion_error (try_proposal_acc m) >>= λ a. ok (proposal_accepted a)
incoming x (channel_proposal_rej_msg m) =
    hash_of m.proposal_id >>= λ id. ok (proposal_rejected id m.reason)
incoming x (channel_update_msg m) =
    map_err conversion_error (try_update x m) >>= λ u. ok (channel_update u)
incoming x (channel_update_acc_msg m) =
    map_err conversion_error (try_update_accepted m) >>= λ a. ok (channel_update_accepted a)
incoming x (channel_update_rej_msg m) =
    hash_of m.channel_id >>= λ id. ok (channel_update_rejected id m.version m.reason)
incoming x _ = panic

-- The match of `try_recv_service_msg`.
unfoldable pub incoming_service : MessageMsg → Outcome Error ServiceReplyMessage
unfolding hash_of
incoming_service fund_resp_msg = ok (funder (funded (replicate 32 0)))
incoming_service (watch_response_msg id version) = hash_of id >>= λ h. ok (watcher (ack h version))
incoming_service (force_close_response_msg id) = hash_of id >>= λ h. ok (watcher (dispute_ack h))
incoming_service (dispute_notification_msg id) =
    hash_of id >>= λ h. ok (watcher (dispute_notification h))
incoming_service _ = panic
