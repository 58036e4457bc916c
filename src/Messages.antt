-- ===== src/Messages.antt =====
-- src/messages.rs and src/messages/: the messages between participants, and those to the watcher
-- and the funder. Texts are lists of bytes.
use fork_perun_rs.Base.{ℕ, Bool, List}
use fork_perun_rs.Types.{Bytes, Hash, Address, Signature, NonceShare}
use fork_perun_rs.Payment.{Params, State, Allocation, Balances}

abbrev pub Identity : Type 0
Identity = Bytes

abbrev pub Peers : Type 0
Peers = List Identity

pub data ConversionError : Type 0 where
  participant_size_missmatch asset_size_missmatch byte_length_missmatch exptected_some
        state_channels_not_supported :
      ConversionError

pub record LedgerChannelProposal : Type 0 where
  pub proposal_id : Hash
  pub challenge_duration : ℕ
  pub nonce_share : NonceShare
  pub init_bals : Allocation
  pub funding_agreement : Balances
  pub participant : Address
  pub peers : Peers

pub record LedgerChannelProposalAcc : Type 0 where
  pub proposal_id : Hash
  pub nonce_share : NonceShare
  pub participant : Address

pub record LedgerChannelUpdate : Type 0 where
  pub state : State
  pub actor_idx : ℕ
  pub sig : Signature

pub record LedgerChannelUpdateAccepted : Type 0 where
  pub channel : Hash
  pub version : ℕ
  pub sig : Signature

pub record LedgerChannelFundingRequest : Type 0 where
  pub part_idx : ℕ
  pub funding_agreement : Balances
  pub params : Params
  pub state : State

pub record Transaction : Type 0 where
  pub state : State
  pub sigs : List Signature

pub record AdjudicatorReq : Type 0 where
  pub params : Params
  pub acc : Address
  pub tx : Transaction
  pub idx : ℕ
  pub secondary : Bool

pub record StartWatchingLedgerChannelReq : Type 0 where
  pub params : Params
  pub state : State
  pub sigs : List Signature

pub record SignedWithdrawalAuth : Type 0 where
  pub sig : Signature
  pub receiver : Address

pub record WatchInfo : Type 0 where
  pub part_idx : ℕ
  pub params : Params
  pub state : State
  pub signatures : List Signature
  pub withdrawal_auths : List SignedWithdrawalAuth

pub data WatcherRequestMessage : Type 0 where
  watch_request : StartWatchingLedgerChannelReq → WatcherRequestMessage
  start_dispute : WatchInfo → WatcherRequestMessage

pub data WatcherReplyMessage : Type 0 where
  ack : Hash → ℕ → WatcherReplyMessage
  dispute_ack : Hash → WatcherReplyMessage
  dispute_notification : Hash → WatcherReplyMessage

-- `RegisterReq` and `WithdrawReq` hold nothing but the request.
pub data FunderRequestMessage : Type 0 where
  fund_req : LedgerChannelFundingRequest → FunderRequestMessage
  register_req : AdjudicatorReq → FunderRequestMessage
  withdraw_req : AdjudicatorReq → FunderRequestMessage

pub data FunderReplyMessage : Type 0 where
  funded : Hash → FunderReplyMessage

pub data ParticipantMessage : Type 0 where
  auth : ParticipantMessage
  channel_proposal : LedgerChannelProposal → ParticipantMessage
  proposal_accepted : LedgerChannelProposalAcc → ParticipantMessage
  proposal_rejected : Hash → Bytes → ParticipantMessage
  channel_update : LedgerChannelUpdate → ParticipantMessage
  channel_update_accepted : LedgerChannelUpdateAccepted → ParticipantMessage
  channel_update_rejected : Hash → ℕ → Bytes → ParticipantMessage
