-- ===== src/Wire/Participants.antt =====
-- src/messages/proposal.rs and update.rs: the conversions of the messages between participants.
-- A `usize` of an index is cut off at 32 bits when it is written.
pub mod Laws
use fork_perun_rs.Base.{◌%◌, [], some, Outcome, ok, ◌>>=◌}
use fork_perun_rs.Base
use fork_perun_rs.External.{External}
use fork_perun_rs.Messages.{
  ConversionError, exptected_some, LedgerChannelProposal, LedgerChannelProposalAcc,
  LedgerChannelUpdate, LedgerChannelUpdateAccepted,
}
use fork_perun_rs.Wire.{u32_bound, try_bytes, try_some}
use fork_perun_rs.Wire.Perunwire
use fork_perun_rs.Wire.Payments.{
  try_state, into_state, try_allocation, into_allocation, try_balances, into_balances,
}

unfoldable pub try_proposal :
    External → Perunwire.LedgerChannelProposalMsg → Outcome ConversionError LedgerChannelProposal
try_proposal x value = do
  base ← Base.ok_or value.base_channel_proposal exptected_some
  init_bals ← Base.ok_or base.init_bals exptected_some
  funding_agreement ← Base.ok_or base.funding_agreement exptected_some
  proposal_id ← try_bytes 32 base.proposal_id
  nonce_share ← try_bytes 32 base.nonce_share
  bals ← try_allocation x init_bals
  agreement ← try_balances x funding_agreement
  participant ← try_bytes 20 value.participant
  ok (record {
    proposal_id = proposal_id;
    challenge_duration = base.challenge_duration;
    nonce_share = nonce_share;
    init_bals = bals;
    funding_agreement = agreement;
    participant = participant;
    peers = value.peers;
  })

unfoldable pub into_proposal : External → LedgerChannelProposal → Perunwire.LedgerChannelProposalMsg
into_proposal x value = record {
  base_channel_proposal = some (record {
    proposal_id = value.proposal_id;
    challenge_duration = value.challenge_duration;
    nonce_share = value.nonce_share;
    app = [];
    init_data = [];
    init_bals = some (into_allocation x value.init_bals);
    funding_agreement = some (into_balances x value.funding_agreement);
  });
  participant = value.participant;
  peers = value.peers;
}

unfoldable pub try_proposal_acc :
    Perunwire.LedgerChannelProposalAccMsg → Outcome ConversionError LedgerChannelProposalAcc
try_proposal_acc value = do
  base ← Base.ok_or value.base_channel_proposal_acc exptected_some
  proposal_id ← try_bytes 32 base.proposal_id
  nonce_share ← try_bytes 32 base.nonce_share
  participant ← try_bytes 20 value.participant
  ok (record { proposal_id = proposal_id; nonce_share = nonce_share; participant = participant })

unfoldable pub into_proposal_acc : LedgerChannelProposalAcc → Perunwire.LedgerChannelProposalAccMsg
into_proposal_acc value = record {
  base_channel_proposal_acc =
      some (record { proposal_id = value.proposal_id; nonce_share = value.nonce_share });
  participant = value.participant;
}

unfoldable pub try_update :
    External → Perunwire.ChannelUpdateMsg → Outcome ConversionError LedgerChannelUpdate
try_update x value = do
  update ← Base.ok_or value.channel_update exptected_some
  state ← try_some (try_state x) update.state
  sig ← try_bytes 65 value.sig
  ok (record { state = state; actor_idx = update.actor_idx; sig = sig })

unfoldable pub into_update : External → LedgerChannelUpdate → Perunwire.ChannelUpdateMsg
into_update x value = record {
  channel_update =
      some (record {
        state = some (into_state x value.state);
        actor_idx = value.actor_idx % u32_bound;
      });
  sig = value.sig;
}

unfoldable pub try_update_accepted :
    Perunwire.ChannelUpdateAccMsg → Outcome ConversionError LedgerChannelUpdateAccepted
try_update_accepted value = do
  channel ← try_bytes 32 value.channel_id
  sig ← try_bytes 65 value.sig
  ok (record { channel = channel; version = value.version; sig = sig })

unfoldable pub into_update_accepted : LedgerChannelUpdateAccepted → Perunwire.ChannelUpdateAccMsg
into_update_accepted value = record {
  channel_id = value.channel;
  version = value.version;
  sig = value.sig;
}
