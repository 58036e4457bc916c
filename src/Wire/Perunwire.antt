-- ===== src/Wire/Perunwire.antt =====
-- The messages of the protobuf files, as the generated code has them: a message field is optional, a
-- text is its bytes. Those of the funder and the watcher stand in src/wire/perun-remote.proto; the others,
-- of a submodule, have the fields that the struct expressions of the conversions in src/messages/ and
-- src/channel/fixed_size_payment.rs set. The field `data` of a state is `data_bytes`.
use fork_perun_rs.Base.{ℕ, Bool, List, Option}
use fork_perun_rs.Types.{Bytes}

pub record Balance : Type 0 where
  pub balance : List Bytes

pub record Balances : Type 0 where
  pub balances : List Balance

pub record Params : Type 0 where
  pub id : Bytes
  pub challenge_duration : ℕ
  pub parts : List Bytes
  pub app : Bytes
  pub nonce : Bytes
  pub ledger_channel : Bool
  pub virtual_channel : Bool

pub record IndexMap : Type 0 where
  pub index_map : List ℕ

pub record SubAlloc : Type 0 where
  pub id : Bytes
  pub bals : Option Balance
  pub index_map : Option IndexMap

pub record Allocation : Type 0 where
  pub assets : List Bytes
  pub balances : Option Balances
  pub locked : List SubAlloc

pub record State : Type 0 where
  pub id : Bytes
  pub version : ℕ
  pub app : Bytes
  pub allocation : Option Allocation
  pub data_bytes : Bytes
  pub is_final : Bool

pub record Transaction : Type 0 where
  pub state : Option State
  pub sigs : List Bytes

pub record SignedState : Type 0 where
  pub params : Option Params
  pub state : Option State
  pub sigs : List Bytes

pub record BaseChannelProposal : Type 0 where
  pub proposal_id : Bytes
  pub challenge_duration : ℕ
  pub nonce_share : Bytes
  pub app : Bytes
  pub init_data : Bytes
  pub init_bals : Option Allocation
  pub funding_agreement : Option Balances

pub record LedgerChannelProposalMsg : Type 0 where
  pub base_channel_proposal : Option BaseChannelProposal
  pub participant : Bytes
  pub peers : List Bytes

pub record BaseChannelProposalAcc : Type 0 where
  pub proposal_id : Bytes
  pub nonce_share : Bytes

pub record LedgerChannelProposalAccMsg : Type 0 where
  pub base_channel_proposal_acc : Option BaseChannelProposalAcc
  pub participant : Bytes

pub record ChannelProposalRejMsg : Type 0 where
  pub proposal_id : Bytes
  pub reason : Bytes

pub record ChannelUpdate : Type 0 where
  pub state : Option State
  pub actor_idx : ℕ

pub record ChannelUpdateMsg : Type 0 where
  pub channel_update : Option ChannelUpdate
  pub sig : Bytes

pub record ChannelUpdateAccMsg : Type 0 where
  pub channel_id : Bytes
  pub version : ℕ
  pub sig : Bytes

pub record ChannelUpdateRejMsg : Type 0 where
  pub channel_id : Bytes
  pub version : ℕ
  pub reason : Bytes

pub record FundReq : Type 0 where
  pub session_id : Bytes
  pub params : Option Params
  pub state : Option State
  pub idx : ℕ
  pub agreement : Option Balances

pub record AdjudicatorReq : Type 0 where
  pub params : Option Params
  pub acc : Bytes
  pub tx : Option Transaction
  pub idx : ℕ
  pub secondary : Bool

pub record RegisterReq : Type 0 where
  pub session_id : Bytes
  pub adj_req : Option AdjudicatorReq

pub record WithdrawReq : Type 0 where
  pub session_id : Bytes
  pub adj_req : Option AdjudicatorReq

pub record StartWatchingLedgerChannelReq : Type 0 where
  pub session_id : Bytes
  pub params : Option Params
  pub state : Option State
  pub sigs : List Bytes

pub record SignedWithdrawalAuth : Type 0 where
  pub sig : Bytes
  pub receiver : Bytes

pub record WatchRequestMsg : Type 0 where
  pub participant : ℕ
  pub state : Option SignedState
  pub withdrawal_auths : List SignedWithdrawalAuth

pub record ForceCloseRequestMsg : Type 0 where
  pub channel_id : Bytes
  pub latest : Option WatchRequestMsg
