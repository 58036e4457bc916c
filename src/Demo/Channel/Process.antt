-- ===== src/Demo/Channel/Process.antt =====
-- cortex-m-demo/src/channel.rs: what a channel does with a message of the other participant.
use fork_perun_rs.Base.{false, [], none, some, panic}
use fork_perun_rs.External.{External}
use fork_perun_rs.Messages.{
  LedgerChannelProposalAcc, LedgerChannelUpdate, LedgerChannelUpdateAccepted, ParticipantMessage,
  proposal_accepted, proposal_rejected, channel_update, channel_update_accepted,
  channel_update_rejected,
}
use fork_perun_rs.Bus.{Method}
use fork_perun_rs.Channel.Types.{ActiveChannel, ChannelUpdate}
use fork_perun_rs.Channel.Proposal.{ProposedChannel}
use fork_perun_rs.Channel.Proposal as Proposal
use fork_perun_rs.Channel.AgreedUpon.{AgreedUponChannel, SignedChannel, mark_funded}
use fork_perun_rs.Channel.AgreedUpon as AgreedUpon
use fork_perun_rs.Channel.Active as Active
use fork_perun_rs.Channel.Update as Update
use fork_perun_rs.Demo.Channel.{
  ChannelInner, Error, Progress, keep, refuse, progress, attempt, certain, other_idx, updated,
  proposed, agreed_upon, signed, active, temporary_invalid_state, closing, force_closing,
  invalid_state, handle_accept, rejected, proposal_build, add_signature, build, handle_update,
  accept, apply_update,
}

module _ (x : External) where
  -- A proposed channel whose proposal is accepted.
  unfoldable pub on_proposal_accepted : ProposedChannel → LedgerChannelProposalAcc → Progress
  unfolding attempt certain
  on_proposal_accepted ch msg =
      attempt (Proposal.participant_accepted 1 msg ch) (λ ch e. (proposed ch, handle_accept e))
        (λ ch _.
          attempt (ch, Proposal.build x ch, []) (λ _ e. (proposed e.0, proposal_build e.1))
            (λ _ agreed.
              certain (AgreedUpon.sign x agreed) (λ agreed _. keep (agreed_upon agreed))))

  -- An agreed-upon channel whose other participant has signed.
  unfoldable pub on_signature : AgreedUponChannel → LedgerChannelUpdateAccepted → Progress
  unfolding attempt
  on_signature ch msg =
      attempt (AgreedUpon.add_signature x msg ch) (λ ch e. (agreed_upon ch, add_signature e))
        (λ ch _.
          attempt (AgreedUpon.build ch tt) (λ _ e. (agreed_upon e.0, build e.1))
            (λ _ ch. keep (signed ch false false)))

  -- An update that the other participant proposes.
  unfoldable pub on_update : ActiveChannel → LedgerChannelUpdate → Progress
  unfolding attempt updated
  on_update ch msg =
      attempt (Active.handle_update x ch msg tt) (λ _ e. (active ch none, handle_update e))
        (λ _ u.
          attempt (Update.accept x ch u) (λ _ e. (active ch none, accept e))
            (λ u _.
              attempt (Update.apply u ch) (λ ch e. (active ch none, apply_update e))
                (λ ch _. updated u ch)))

  -- The other participant accepts the update that we have proposed.
  unfoldable pub on_update_accepted :
      ActiveChannel → ChannelUpdate → LedgerChannelUpdateAccepted → Progress
  unfolding attempt updated
  on_update_accepted ch u msg =
      attempt (Update.participant_accepted x ch (other_idx ch.part_idx) msg u)
        (λ u e. (active ch (some u), add_signature e))
        (λ u _.
          attempt (Update.apply u ch) (λ ch e. (active ch (some u), apply_update e))
            (λ ch _. updated u ch))

  unfoldable pub participant_progress : ParticipantMessage → ChannelInner → Progress
  unfolding on_proposal_accepted on_signature on_update on_update_accepted
  participant_progress (proposal_accepted msg) (proposed ch) = on_proposal_accepted ch msg
  participant_progress (proposal_rejected _ reason) (proposed ch) =
      refuse (proposed ch) (rejected reason)
  participant_progress (channel_update_accepted msg) (agreed_upon ch) = on_signature ch msg
  participant_progress (channel_update_rejected _ _ reason) (agreed_upon ch) =
      refuse (agreed_upon ch) (rejected reason)
  participant_progress (channel_update msg) (active ch none) = on_update ch msg
  participant_progress (channel_update_accepted msg) (active ch (some u)) =
      on_update_accepted ch u msg
  participant_progress (channel_update_rejected _ _ _) (active ch (some _)) = keep (active ch none)
  participant_progress _ (closing ch) = refuse (closing ch) Error.closed
  participant_progress _ force_closing = refuse force_closing Error.closed
  participant_progress _ ChannelInner.closed = refuse ChannelInner.closed Error.closed
  participant_progress _ temporary_invalid_state = (panic, [])
  participant_progress _ inner = refuse inner invalid_state

  unfoldable pub process_participant_msg : ParticipantMessage → Method ChannelInner Error (Unit {0})
  unfolding progress participant_progress
  process_participant_msg msg = progress (participant_progress msg)
