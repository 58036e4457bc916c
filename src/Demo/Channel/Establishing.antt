-- ===== src/Demo/Channel/Establishing.antt =====
-- A channel of cortex-m-demo/src/channel.rs from its proposal until it is open, with a participant
-- that runs the library on the other side.
use fork_perun_rs.Base.{ℕ, false, ◌≡◌, refl, List, [], ◌∷◌, none, ok}
use mathlib.Core.List.{append-nil}
use fork_perun_rs.External.{External, IsLawful}
use fork_perun_rs.Types.{Address, Hash, NonceShare}
use fork_perun_rs.Base.Lists.{bytes_eq}
use fork_perun_rs.Messages.{
  LedgerChannelProposal, LedgerChannelProposalAcc, LedgerChannelUpdateAccepted, ack, funded,
  proposal_accepted, channel_update_accepted,
}
use fork_perun_rs.Bus.{Sent}
use fork_perun_rs.Channel.Types.{PerunClient}
use fork_perun_rs.Channel.Proposal.{ProposedChannel, participant_accepted}
use fork_perun_rs.Channel.Proposal as Proposal
use fork_perun_rs.Channel.AgreedUpon.{AgreedUponChannel, SignedChannel, mark_funded}
use fork_perun_rs.Channel.AgreedUpon as AgreedUpon
use fork_perun_rs.Channel.AgreedUpon.Round.{initial_acceptance}
use fork_perun_rs.Channel.Establishing.{IsEstablished, propose_channel-IsEstablished}
use fork_perun_rs.Channel.Establishing.Agreeing.{IsOffer, address_of}
use fork_perun_rs.Demo.Channel.{
  proposed, agreed_upon, signed, active, settle, progress, attempt, certain, process_watcher_reply,
  process_funder_reply, watcher_progress, funder_progress,
}
use fork_perun_rs.Demo.Channel.Process.{
  process_participant_msg, participant_progress, on_proposal_accepted, on_signature,
}
use fork_perun_rs.Demo.Channel.Laws.{from_participant, from_watcher, from_funder, handle, Event}
use fork_perun_rs.Demo.Channel.Opening.{run}

-- The other participant accepts, and signs; then these events.
abbrev answers : LedgerChannelProposalAcc → LedgerChannelUpdateAccepted → List Event → List Event
answers acc signature events =
    from_participant (proposal_accepted acc)
    ∷ from_participant (channel_update_accepted signature)
    ∷ events

-- Both sides establish the channel. The device takes the response of the other participant and signs,
-- takes its signature, and its channel is open once the watcher has acknowledged it and the funder has
-- funded it, in either order.
pub record IsOpened (x : External) (device other : PerunClient) (prop : LedgerChannelProposal)
    (receiver receiver_other : Address) (nonce_share : NonceShare) (watched funds : Hash)
    (version : ℕ) : Type 0 where
  pub established : IsEstablished x device other prop receiver receiver_other nonce_share
  pub responds :
      process_participant_msg x
        (proposal_accepted established.acc)
        (proposed established.proposed_a)
      ≡ (agreed_upon established.half_a, ok tt, established.signs_a.0)
  pub completes :
      process_participant_msg x
        (channel_update_accepted (initial_acceptance established.agreed_b established.sig_b))
        (agreed_upon established.half_a)
      ≡ (signed established.signed_a false false, ok tt, established.completes_a.0)
  pub watched_first :
      run x
        (answers established.acc
          (initial_acceptance established.agreed_b established.sig_b)
          (from_watcher (ack watched version) ∷ from_funder (funded funds) ∷ []))
        (proposed established.proposed_a)
      ≡ active (mark_funded established.signed_a) none
  pub funded_first :
      run x
        (answers established.acc
          (initial_acceptance established.agreed_b established.sig_b)
          (from_funder (funded funds) ∷ from_watcher (ack watched version) ∷ []))
        (proposed established.proposed_a)
      ≡ active (mark_funded established.signed_a) none

module _ (x : External) where
  responds-ok :
      (acc : LedgerChannelProposalAcc) (ch : ProposedChannel) {after : ProposedChannel}
      {made half : AgreedUponChannel} {sent : List Sent}
      → participant_accepted 1 acc ch ≡ (after, ok tt, [])
      → Proposal.build x after ≡ ok made
      → AgreedUpon.sign x made ≡ (half, ok tt, sent)
      → process_participant_msg x (proposal_accepted acc) (proposed ch)
        ≡ (agreed_upon half, ok tt, sent)
  unfolding process_participant_msg participant_progress on_proposal_accepted progress settle
      attempt certain
  responds-ok acc ch {sent = sent} told made signs =
      rw told (rw made (rw signs (rw (append-nil sent) refl)))

  completes-ok :
      (acc : LedgerChannelUpdateAccepted) (half : AgreedUponChannel) {full : AgreedUponChannel}
      {ch : SignedChannel} {sent : List Sent}
      → AgreedUpon.add_signature x acc half ≡ (full, ok tt, [])
      → AgreedUpon.build {S = Unit {0}} full tt ≡ (tt, ok ch, sent)
      → process_participant_msg x (channel_update_accepted acc) (agreed_upon half)
        ≡ (signed ch false false, ok tt, sent)
  unfolding process_participant_msg participant_progress on_signature progress settle attempt
  completes-ok acc half {sent = sent} adds builds = rw adds (rw builds (rw (append-nil sent) refl))

  -- The events of an opening, with the last two in either order.
  run-opens :
      (acc : LedgerChannelProposalAcc) (signature : LedgerChannelUpdateAccepted)
      (ch : ProposedChannel) {half : AgreedUponChannel} {done : SignedChannel}
      {sent after : List Sent} (watched funds : Hash) (version : ℕ)
      → process_participant_msg x (proposal_accepted acc) (proposed ch)
        ≡ (agreed_upon half, ok tt, sent)
      → process_participant_msg x (channel_update_accepted signature) (agreed_upon half)
        ≡ (signed done false false, ok tt, after)
      → (run x
            (answers acc signature
              (from_watcher (ack watched version) ∷ from_funder (funded funds) ∷ []))
            (proposed ch)
          ≡ active (mark_funded done) none)
        × (run x
              (answers acc signature
                (from_funder (funded funds) ∷ from_watcher (ack watched version) ∷ []))
              (proposed ch)
            ≡ active (mark_funded done) none)
  unfolding run handle process_watcher_reply process_funder_reply watcher_progress funder_progress
      progress settle
  run-opens acc signature ch watched funds version first second =
      (rw (run, first) (rw (run, second) refl), rw (run, first) (rw (run, second) refl))

module _ (x : External) (device other : PerunClient) (prop : LedgerChannelProposal)
    (receiver receiver_other : Address) (nonce_share : NonceShare) (watched funds : Hash)
    (version : ℕ) where
  -- For lawful crates, two clients with different addresses, and a proposal by the device for one asset
  -- and two participants, with a duration that is not zero: both sides establish the channel, and the
  -- channel of the device is open after the response and the signature of the other participant, an
  -- acknowledgement of the watcher and a confirmation of the funder, the last two in either order.
  pub run-IsOpened :
      IsLawful x
      → (offer : IsOffer x device prop)
      → bytes_eq (address_of x device) (address_of x other) ≡ false
      → IsOpened x device other prop receiver receiver_other nonce_share watched funds version
  run-IsOpened lawful offer distinct =
      let r =
        propose_channel-IsEstablished x device other prop receiver receiver_other nonce_share lawful
          offer distinct in
      let first = responds-ok x r.acc r.proposed_a r.is_told r.builds_a r.signs_a.2 in
      let second =
        completes-ok x (initial_acceptance r.agreed_b r.sig_b) r.half_a r.adds_a r.completes_a.1 in
      let (in_order, swapped) =
        run-opens x r.acc (initial_acceptance r.agreed_b r.sig_b) r.proposed_a watched funds version
          first second in
      record {
        established = r;
        responds = first;
        completes = second;
        watched_first = in_order;
        funded_first = swapped;
      }
