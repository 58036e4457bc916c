-- ===== src/Demo/Channel/Phase.antt =====
-- The state machine of cortex-m-demo/src/channel.rs as its comments have it: the phases of a
-- channel, and which phase follows which.
use fork_perun_rs.Demo.Channel.{
  ChannelInner, proposed, agreed_upon, signed, active, temporary_invalid_state, closing,
  force_closing,
}

pub data Phase : Type 0 where
  proposal agreement signature activity invalidity closure force_closure end : Phase

unfoldable pub phase : ChannelInner → Phase
phase (proposed _) = Phase.proposal
phase (agreed_upon _) = Phase.agreement
phase (signed _ _ _) = Phase.signature
phase (active _ _) = Phase.activity
phase temporary_invalid_state = Phase.invalidity
phase (closing _) = Phase.closure
phase force_closing = Phase.force_closure
phase ChannelInner.closed = Phase.end

-- The step relation.
pub data Next : Phase → Phase → Type 0 where
  stays : {p : Phase} → Next p p
  accepted : Next Phase.proposal Phase.agreement
  signed_by_all : Next Phase.agreement Phase.signature
  opened : Next Phase.signature Phase.activity
  finalized : Next Phase.activity Phase.closure
  disputed : Next Phase.activity Phase.end
  force_closed : Next Phase.activity Phase.force_closure
  closure_acknowledged : Next Phase.closure Phase.end
  dispute_acknowledged : Next Phase.force_closure Phase.end

-- Any number of steps.
pub data Reaches : Phase → Phase → Type 0 where
  arrived : {p : Phase} → Reaches p p
  step : {p q r : Phase} → Next p q → Reaches q r → Reaches p r
