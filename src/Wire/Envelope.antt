-- ===== src/Wire/Envelope.antt =====
-- The envelopes of the protobuf files: what goes between participants, and what goes between a
-- device and its watcher and funder (src/wire/perun-remote.proto). Variants that the program neither
-- writes nor reads the content of stand without it.
use fork_perun_rs.Base.{ℕ, Option}
use fork_perun_rs.Types.{Bytes}
use fork_perun_rs.Messages.{Identity}
use fork_perun_rs.Wire.Perunwire.{
  LedgerChannelProposalMsg, LedgerChannelProposalAccMsg, ChannelProposalRejMsg, ChannelUpdateMsg,
  ChannelUpdateAccMsg, ChannelUpdateRejMsg, FundReq, RegisterReq, WithdrawReq,
  StartWatchingLedgerChannelReq, ForceCloseRequestMsg,
}

-- `envelope::Msg`
pub data EnvelopeMsg : Type 0 where
  ping_msg pong_msg shutdown_msg auth_response_msg : EnvelopeMsg
  ledger_channel_proposal_msg : LedgerChannelProposalMsg → EnvelopeMsg
  ledger_channel_proposal_acc_msg : LedgerChannelProposalAccMsg → EnvelopeMsg
  sub_channel_proposal_msg sub_channel_proposal_acc_msg virtual_channel_proposal_msg
        virtual_channel_proposal_acc_msg :
      EnvelopeMsg
  channel_proposal_rej_msg : ChannelProposalRejMsg → EnvelopeMsg
  channel_update_msg : ChannelUpdateMsg → EnvelopeMsg
  virtual_channel_funding_proposal_msg virtual_channel_settlement_proposal_msg : EnvelopeMsg
  channel_update_acc_msg : ChannelUpdateAccMsg → EnvelopeMsg
  channel_update_rej_msg : ChannelUpdateRejMsg → EnvelopeMsg
  channel_sync_msg : EnvelopeMsg

pub record Envelope : Type 0 where
  pub sender : Identity
  pub recipient : Identity
  pub msg : Option EnvelopeMsg

-- `message::Msg`; an answer of the watcher stands as its channel's id, and its version.
pub data MessageMsg : Type 0 where
  fund_req_msg : FundReq → MessageMsg
  fund_resp_msg : MessageMsg
  register_req_msg : RegisterReq → MessageMsg
  register_resp_msg : MessageMsg
  withdraw_req_msg : WithdrawReq → MessageMsg
  withdraw_resp_msg : MessageMsg
  start_watching_req_msg : StartWatchingLedgerChannelReq → MessageMsg
  start_watching_resp_msg stop_watching_req_msg stop_watching_resp_msg watch_request_msg :
      MessageMsg
  watch_response_msg : Bytes → ℕ → MessageMsg
  force_close_request_msg : ForceCloseRequestMsg → MessageMsg
  force_close_response_msg : Bytes → MessageMsg
  dispute_notification_msg : Bytes → MessageMsg

pub record Message : Type 0 where
  pub msg : Option MessageMsg
