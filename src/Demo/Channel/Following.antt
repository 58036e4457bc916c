-- ===== src/Demo/Channel/Following.antt =====
-- The transition functions of cortex-m-demo/src/channel.rs, and the phases that they lead to.
use fork_perun_rs.Base.{
  ◌≡◌, refl, Bool, true, false, List, [], ◌++◌, Option, none, some, Outcome, ok, err, panic,
  if◌then◌else◌,
}
use fork_perun_rs.External.{External}
use fork_perun_rs.Messages.{
  LedgerChannelProposalAcc, LedgerChannelUpdate, LedgerChannelUpdateAccepted, WatcherReplyMessage,
  ack, dispute_ack, dispute_notification, FunderReplyMessage, funded, ParticipantMessage,
  proposal_accepted, channel_update, channel_update_accepted, channel_update_rejected,
}
use fork_perun_rs.Bus.{Sent}
use fork_perun_rs.Channel.Types.{ActiveChannel, ChannelUpdate}
use fork_perun_rs.Channel.Proposal.{ProposedChannel}
use fork_perun_rs.Channel.Proposal as Proposal
use fork_perun_rs.Channel.AgreedUpon.{AgreedUponChannel}
use fork_perun_rs.Channel.AgreedUpon as AgreedUpon
use fork_perun_rs.Channel.Active as Active
use fork_perun_rs.Channel.Update as Update
use fork_perun_rs.Demo.Channel.{
  ChannelInner, proposed, agreed_upon, signed, active, temporary_invalid_state, closing,
  force_closing, Error, Progress, other_idx, attempt, certain, updated, force_close_progress,
  watcher_progress, funder_progress,
}
use fork_perun_rs.Demo.Channel.Process.{
  participant_progress, on_proposal_accepted, on_signature, on_update, on_update_accepted,
}
use fork_perun_rs.Demo.Channel.Phase.{
  Phase, phase, Next, stays, accepted, signed_by_all, opened, finalized, disputed, force_closed,
  closure_acknowledged, dispute_acknowledged,
}

-- A transition function gives a phase that follows the phase p, and p itself with an error.
unfoldable pub IsFollowing : Phase → Progress → Type 0
IsFollowing p (ok ch, _) = Next p (phase ch)
IsFollowing p (err (ch, _), _) = phase ch ≡ p
IsFollowing p (panic, _) = Unit

sent-IsFollowing :
    (p : Phase) (r : Progress) (sent : List Sent)
    → IsFollowing p r
    → IsFollowing p (r.0, sent ++ r.1)
unfolding IsFollowing
sent-IsFollowing p (ok _, _) sent h = h
sent-IsFollowing p (err _, _) sent h = h
sent-IsFollowing p (panic, _) sent h = h

module _ {S E A : Type 0} (p : Phase) where
  attempt-IsFollowing :
      (m : S × Outcome E A × List Sent) (failed : S → E → ChannelInner × Error)
      (go : S → A → Progress)
      → ((s : S) (e : E) → phase (failed s e).0 ≡ p)
      → ((s : S) (a : A) → IsFollowing p (go s a))
      → IsFollowing p (attempt m failed go)
  unfolding attempt IsFollowing
  attempt-IsFollowing (s, ok a, sent) failed go h g = sent-IsFollowing p (go s a) sent (g s a)
  attempt-IsFollowing (s, err e, sent) failed go h g = h s e
  attempt-IsFollowing (s, panic, sent) failed go h g = tt

  certain-IsFollowing :
      (m : S × Outcome E A × List Sent) (go : S → A → Progress)
      → ((s : S) (a : A) → IsFollowing p (go s a))
      → IsFollowing p (certain m go)
  unfolding certain IsFollowing
  certain-IsFollowing (s, ok a, sent) go g = sent-IsFollowing p (go s a) sent (g s a)
  certain-IsFollowing (s, err e, sent) go g = tt
  certain-IsFollowing (s, panic, sent) go g = tt

updated-IsFollowing :
    (u : ChannelUpdate) (ch : ActiveChannel) → IsFollowing Phase.activity (updated u ch)
unfolding updated IsFollowing phase
updated-IsFollowing u ch = by_final u.new_state.is_final
  where
    by_final :
        (is_final : Bool)
        → IsFollowing Phase.activity
            (if is_final then (ok (closing ch), []) else (ok (active ch none), []))
    by_final true = finalized
    by_final false = stays

kept-IsFollowing : (p : Phase) (ch : ChannelInner) → Next p (phase ch) → IsFollowing p (ok ch, [])
unfolding IsFollowing
kept-IsFollowing p ch h = h

force_close-active :
    (ch : ActiveChannel) (pending : Option ChannelUpdate)
    → IsFollowing Phase.activity (force_close_progress (active ch pending))
unfolding force_close_progress phase
force_close-active ch pending =
    attempt-IsFollowing Phase.activity (Active.force_close ch tt) _ _ (λ _ _. refl)
      (λ _ _. kept-IsFollowing Phase.activity force_closing force_closed)

module _ (x : External) where
  proposal_accepted-proposed :
      (ch : ProposedChannel) (msg : LedgerChannelProposalAcc)
      → IsFollowing Phase.proposal (on_proposal_accepted x ch msg)
  unfolding on_proposal_accepted phase
  proposal_accepted-proposed ch msg =
      attempt-IsFollowing Phase.proposal (Proposal.participant_accepted 1 msg ch) _ _ (λ _ _. refl)
        (λ ch _.
          attempt-IsFollowing Phase.proposal (ch, Proposal.build x ch, []) _ _ (λ _ _. refl)
            (λ _ agreed.
              certain-IsFollowing Phase.proposal (AgreedUpon.sign x agreed) _
                (λ agreed _. kept-IsFollowing Phase.proposal (agreed_upon agreed) accepted)))

  signature-agreed_upon :
      (ch : AgreedUponChannel) (msg : LedgerChannelUpdateAccepted)
      → IsFollowing Phase.agreement (on_signature x ch msg)
  unfolding on_signature phase
  signature-agreed_upon ch msg =
      attempt-IsFollowing Phase.agreement (AgreedUpon.add_signature x msg ch) _ _ (λ _ _. refl)
        (λ ch _.
          attempt-IsFollowing Phase.agreement (AgreedUpon.build ch tt) _ _ (λ _ _. refl)
            (λ _ ch. kept-IsFollowing Phase.agreement (signed ch false false) signed_by_all))

  update-active :
      (ch : ActiveChannel) (msg : LedgerChannelUpdate)
      → IsFollowing Phase.activity (on_update x ch msg)
  unfolding on_update phase
  update-active ch msg =
      attempt-IsFollowing Phase.activity (Active.handle_update x ch msg tt) _ _ (λ _ _. refl)
        (λ _ u.
          attempt-IsFollowing Phase.activity (Update.accept x ch u) _ _ (λ _ _. refl)
            (λ u _.
              attempt-IsFollowing Phase.activity (Update.apply u ch) _ _ (λ _ _. refl)
                (λ ch _. updated-IsFollowing u ch)))

  update_accepted-active :
      (ch : ActiveChannel) (u : ChannelUpdate) (msg : LedgerChannelUpdateAccepted)
      → IsFollowing Phase.activity (on_update_accepted x ch u msg)
  unfolding on_update_accepted phase
  update_accepted-active ch u msg =
      attempt-IsFollowing Phase.activity
        (Update.participant_accepted x ch (other_idx ch.part_idx) msg u) _ _ (λ _ _. refl)
        (λ u _.
          attempt-IsFollowing Phase.activity (Update.apply u ch) _ _ (λ _ _. refl)
            (λ ch _. updated-IsFollowing u ch))

  pub participant_progress-IsFollowing :
      (msg : ParticipantMessage) (inner : ChannelInner)
      → IsFollowing (phase inner) (participant_progress x msg inner)
  unfolding participant_progress IsFollowing phase
  participant_progress-IsFollowing (proposal_accepted msg) (proposed ch) =
      proposal_accepted-proposed ch msg
  participant_progress-IsFollowing (channel_update_accepted msg) (agreed_upon ch) =
      signature-agreed_upon ch msg
  participant_progress-IsFollowing (channel_update msg) (active ch none) = update-active ch msg
  participant_progress-IsFollowing (channel_update_accepted msg) (active ch (some u)) =
      update_accepted-active ch u msg
  participant_progress-IsFollowing (channel_update_rejected _ _ _) (active ch (some u)) = stays
  participant_progress-IsFollowing _ temporary_invalid_state = tt
  participant_progress-IsFollowing msg inner = refl

pub force_close_progress-IsFollowing :
    (inner : ChannelInner) → IsFollowing (phase inner) (force_close_progress inner)
unfolding force_close_progress IsFollowing phase
force_close_progress-IsFollowing (active ch pending) = force_close-active ch pending
force_close_progress-IsFollowing temporary_invalid_state = tt
force_close_progress-IsFollowing inner = refl

pub funder_progress-IsFollowing :
    (msg : FunderReplyMessage) (inner : ChannelInner)
    → IsFollowing (phase inner) (funder_progress msg inner)
unfolding funder_progress IsFollowing phase
funder_progress-IsFollowing (funded _) (signed ch true is_funded) = opened
funder_progress-IsFollowing (funded _) (signed ch false is_funded) = stays
funder_progress-IsFollowing (funded _) temporary_invalid_state = tt
funder_progress-IsFollowing (funded _) inner = refl

pub watcher_progress-IsFollowing :
    (msg : WatcherReplyMessage) (inner : ChannelInner)
    → IsFollowing (phase inner) (watcher_progress msg inner)
unfolding watcher_progress IsFollowing phase
watcher_progress-IsFollowing (ack _ _) (signed ch watching true) = opened
watcher_progress-IsFollowing (ack _ _) (signed ch watching false) = stays
watcher_progress-IsFollowing (ack _ _) (active ch pending) = stays
watcher_progress-IsFollowing (dispute_notification _) (active ch pending) = disputed
watcher_progress-IsFollowing (ack _ _) (closing ch) = closure_acknowledged
watcher_progress-IsFollowing (dispute_notification _) (closing ch) = closure_acknowledged
watcher_progress-IsFollowing (dispute_ack _) force_closing = dispute_acknowledged
watcher_progress-IsFollowing (dispute_notification _) force_closing = stays
watcher_progress-IsFollowing (dispute_notification _) ChannelInner.closed = stays
watcher_progress-IsFollowing _ temporary_invalid_state = tt
watcher_progress-IsFollowing msg inner = refl
