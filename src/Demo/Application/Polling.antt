-- ===== src/Demo/Application/Polling.antt =====
-- Polling the application of cortex-m-demo/src/application.rs, in all of its states.
use fork_perun_rs.Base.{refl, true, Option, none, some, ok, err, inl, inr, if◌then◌else◌}
use fork_perun_rs.Demo.Channel.{process_watcher_reply, process_funder_reply}
use fork_perun_rs.Demo.Channel.Process.{process_participant_msg}
use fork_perun_rs.Base.Inversion.{Outcome-cases}
use fork_perun_rs.Bus.{broadcast}
use fork_perun_rs.Channel.Types.{PerunClient}
use fork_perun_rs.Channel.Proposal as Proposal
use fork_perun_rs.Effects.{convert, resume, ◌>>=◌, pure}
use fork_perun_rs.External.{External}
use fork_perun_rs.Types.{Address}
use fork_perun_rs.Channel.Proposal.{send_handshake_msg}
use fork_perun_rs.Messages.{LedgerChannelProposal, ParticipantMessage, auth, channel_proposal}
use fork_perun_rs.Wire.Encoding.{Codec}
use fork_perun_rs.Wire.Envelope.{Envelope, Message}
use fork_perun_rs.Demo.Channel.{ChannelInner, is_closed}
use fork_perun_rs.Demo.Channel as Channel
use fork_perun_rs.Demo.Socket.{TcpSocket}
use fork_perun_rs.Demo.Receive.{invalid_proposal, invalid_state, unexpected_msg}
use fork_perun_rs.Demo.Application.{
  Rng, Application, ApplicationState, initial_state, connecting_to_config_dealer, closing_sockets,
  listening, wait_for_proposal, connecting, wait_for_handshake, active,
}
use fork_perun_rs.Demo.Application.Handlers.{
  try_recv_service_msg, send_channel_proposal, on_handshake_reply,
  wait_handshake_and_propose_channel,
}
use fork_perun_rs.Demo.Application.Laws.{gen-IsKeeping}
use fork_perun_rs.Demo.Application.Forwarding.{
  forward-IsFollowing, forward-IsReturning, none-IsFollowing,
}
use fork_perun_rs.Demo.Application.Steps.{
  try_recv_participant_msg-IsKeeping, try_recv_service_msg-IsKeeping,
  connect_config_dealer-IsFollowing, read_config-IsFollowing, closed-IsFollowing,
  incomming-IsFollowing, proposal-IsFollowing, connect-IsFollowing, greeting-IsFollowing,
}
use fork_perun_rs.Demo.Application.Poll.{propose_channel, propose_in, service_reply}
use fork_perun_rs.Demo.Application.Poll.{forward, forward_messages_to_channel, poll_in, poll}
use fork_perun_rs.Demo.Application.Phase.{
  greeting, activity, phase, Next, proposes_channel, IsKeeping, IsFollowing, keeping-IsFollowing,
  bind-IsFollowing, follow-IsFollowing, set_state-IsFollowing, get-IsFollowing, lift-IsKeeping,
  returned-IsFollowing,
}

module _ (tcp : TcpSocket) (rng : Rng) (x : External) (envelopes : Codec Envelope)
    (messages : Codec Message) where
  propose_channel-IsKeeping :
      (client : PerunClient) (prop : LedgerChannelProposal) (b : Address)
      → IsKeeping tcp rng (convert invalid_proposal (Proposal.propose_channel client prop b))
  unfolding IsKeeping Proposal.propose_channel resume
  propose_channel-IsKeeping client prop b app =
      elim (Outcome-cases (Proposal.check_valid_proposal prop)) [
        | inl (a, e) ↦
            rw e
              (elim (Outcome-cases
                (broadcast {E = Proposal.InvalidProposal} 0 prop.peers (channel_proposal prop))) [
                  | inl (ms, h) ↦ rw h
                  | inr (inl (f, h)) ↦ rw h
                  | inr (inr h) ↦ rw h
                ])
        | inr (inl (f, e)) ↦ rw e
        | inr (inr e) ↦ rw e
      ]

  send_proposal-IsFollowing :
      (a b : Address)
      → IsFollowing tcp rng greeting (send_channel_proposal tcp rng x envelopes messages a b)
  unfolding send_channel_proposal phase
  send_proposal-IsFollowing a b = get-IsFollowing tcp rng greeting _ (λ app.
      bind-IsFollowing tcp rng greeting _ _ (gen-IsKeeping tcp rng) (λ _.
        bind-IsFollowing tcp rng greeting _ _ (gen-IsKeeping tcp rng) (λ _.
          bind-IsFollowing tcp rng greeting _ _ (propose_channel-IsKeeping _ _ _) (λ channel.
            set_state-IsFollowing tcp rng greeting (active a b (Channel.proposed channel))
              proposes_channel))))

  handshake_reply-IsFollowing :
      (a b : Address) (msg : Option ParticipantMessage)
      → IsFollowing tcp rng greeting (on_handshake_reply tcp rng x envelopes messages a b msg)
  unfolding on_handshake_reply
  handshake_reply-IsFollowing a b none =
      keeping-IsFollowing tcp rng greeting _ (lift-IsKeeping tcp rng (ok tt))
  handshake_reply-IsFollowing a b (some auth) = send_proposal-IsFollowing a b
  handshake_reply-IsFollowing a b (some _) =
      keeping-IsFollowing tcp rng greeting _ (lift-IsKeeping tcp rng (err unexpected_msg))

  handshake-IsFollowing :
      (a b : Address)
      → IsFollowing tcp rng greeting
          (wait_handshake_and_propose_channel tcp rng x envelopes messages a b)
  unfolding wait_handshake_and_propose_channel
  handshake-IsFollowing a b =
      bind-IsFollowing tcp rng greeting _ _
        (try_recv_participant_msg-IsKeeping tcp rng x envelopes messages)
        (handshake_reply-IsFollowing a b)

  service-IsFollowing : IsFollowing tcp rng activity (do
    reply ← try_recv_service_msg tcp rng x envelopes messages
    _ ← forward tcp rng service_reply reply
    pure tt)
  service-IsFollowing =
      bind-IsFollowing tcp rng activity _ _
        (try_recv_service_msg-IsKeeping tcp rng x envelopes messages)
        (λ reply.
          follow-IsFollowing tcp rng activity _ _ (forward-IsFollowing tcp rng service_reply reply)
            (λ _. lift-IsKeeping tcp rng (ok tt)))

  -- A message of the other participant goes first, and then nothing else.
  forward_messages-IsFollowing :
      IsFollowing tcp rng activity (forward_messages_to_channel tcp rng x envelopes messages)
  unfolding forward_messages_to_channel
  forward_messages-IsFollowing =
      bind-IsFollowing tcp rng activity _ _
        (try_recv_participant_msg-IsKeeping tcp rng x envelopes messages) after
    where
      after :
          (msg : Option ParticipantMessage)
          → IsFollowing tcp rng activity (do
            has_participant_msg ← forward tcp rng (process_participant_msg x) msg
            if has_participant_msg then pure tt else do
              reply ← try_recv_service_msg tcp rng x envelopes messages
              _ ← forward tcp rng service_reply reply
              pure tt)
      after none = none-IsFollowing tcp rng (process_participant_msg x) _ service-IsFollowing
      after (some msg) =
          returned-IsFollowing tcp rng activity true _ _
            (forward-IsFollowing tcp rng (process_participant_msg x) (some msg))
            (forward-IsReturning tcp rng (process_participant_msg x) msg)
            (lift-IsKeeping tcp rng (ok tt))

  poll_in-IsFollowing :
      (st : ApplicationState)
      → IsFollowing tcp rng (phase st) (poll_in tcp rng x envelopes messages st)
  unfolding poll_in phase
  poll_in-IsFollowing initial_state = connect_config_dealer-IsFollowing tcp rng x envelopes messages
  poll_in-IsFollowing connecting_to_config_dealer =
      read_config-IsFollowing tcp rng x envelopes messages
  poll_in-IsFollowing (closing_sockets a b) = closed-IsFollowing tcp rng x envelopes messages a b
  poll_in-IsFollowing (listening a b) = incomming-IsFollowing tcp rng x envelopes messages a b
  poll_in-IsFollowing (wait_for_proposal a b) =
      proposal-IsFollowing tcp rng x envelopes messages a b
  poll_in-IsFollowing (connecting a b) = greeting-IsFollowing tcp rng x envelopes messages a b
  poll_in-IsFollowing (wait_for_handshake a b) = handshake-IsFollowing a b
  poll_in-IsFollowing (active a b ch) = forward_messages-IsFollowing

  -- Polling leaves the application in its phase or takes it to one that the state machine has next,
  -- whether it succeeds or not.
  pub poll-Next :
      (app : Application tcp rng)
      → Next (phase app.state) (phase (poll tcp rng x envelopes messages app).0.state)
  unfolding poll IsFollowing
  poll-Next app = poll_in-IsFollowing app.state app refl

  propose_in-IsFollowing :
      (st : ApplicationState)
      → IsFollowing tcp rng (phase st) (propose_in tcp rng x envelopes messages st)
  unfolding propose_in phase
  propose_in-IsFollowing (listening a b) = connect-IsFollowing tcp rng x envelopes messages a b
  propose_in-IsFollowing st =
      keeping-IsFollowing tcp rng (phase st) _ (lift-IsKeeping tcp rng (err invalid_state))

  -- So does the button that proposes a channel.
  pub propose_channel-Next :
      (app : Application tcp rng)
      → Next (phase app.state) (phase (propose_channel tcp rng x envelopes messages app).0.state)
  unfolding propose_channel IsFollowing
  propose_channel-Next app = propose_in-IsFollowing app.state app refl
