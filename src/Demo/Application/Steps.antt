-- ===== src/Demo/Application/Steps.antt =====
-- How polling moves the application of cortex-m-demo/src/application.rs from state to state.
use fork_perun_rs.Base.{Option, none, some, ok, err, Bool-cases, inl, inr}
use fork_perun_rs.Effects.{resume}
use fork_perun_rs.External.{External}
use fork_perun_rs.Types.{Address}
use fork_perun_rs.Messages.{LedgerChannelProposal, ParticipantMessage, channel_proposal}
use fork_perun_rs.Wire.Encoding.{Codec}
use fork_perun_rs.Wire.Envelope.{Envelope, Message}
use fork_perun_rs.Demo.Channel.{ChannelInner, is_closed}
use fork_perun_rs.Demo.Channel as Channel
use fork_perun_rs.Demo.Socket.{TcpSocket}
use fork_perun_rs.Demo.Receive.{invalid_state}
use fork_perun_rs.Demo.Application.{
  Rng, connecting_to_config_dealer, closing_sockets, listening, wait_for_proposal, connecting,
  wait_for_handshake, active, on_participant,
}
use fork_perun_rs.Demo.Application.Handlers.{
  connect_config_dealer, configure, wait_connected_and_read_config, wait_connections_closed,
  on_handshake, check_incomming_connection, try_recv_participant_msg, try_recv_service_msg,
  accept_proposal, on_proposal, wait_connected_and_proposal_msg, stop_listening, connect,
  wait_connected_and_send_handshake,
}
use fork_perun_rs.Demo.Application.Laws.{
  on_participant-IsKeeping, on_service-IsKeeping, gen-IsKeeping, connect_participant-IsKeeping,
  connect_service-IsKeeping, run_on-IsKeeping, send_handshake-IsKeeping,
}
use fork_perun_rs.Demo.Application.Phase.{
  start, configuration, closure, attention, expectation, connection, phase, asks_for_config,
  is_configured, listens, is_greeted, connects, accepts_channel, greets, IsKeeping, IsFollowing,
  keeping-IsFollowing, bind-IsKeeping, bind-IsFollowing, follow-IsFollowing, set_state-IsFollowing,
  get-IsFollowing, lift-IsKeeping, unless-IsFollowing,
}

module _ (tcp : TcpSocket) (rng : Rng) (x : External) (envelopes : Codec Envelope)
    (messages : Codec Message) where
  pub try_recv_participant_msg-IsKeeping :
      IsKeeping tcp rng (try_recv_participant_msg tcp rng x envelopes messages)
  unfolding try_recv_participant_msg
  try_recv_participant_msg-IsKeeping =
      bind-IsKeeping tcp rng _ _ (on_participant-IsKeeping tcp rng _)
        (λ env. lift-IsKeeping tcp rng _)

  pub try_recv_service_msg-IsKeeping :
      IsKeeping tcp rng (try_recv_service_msg tcp rng x envelopes messages)
  unfolding try_recv_service_msg
  try_recv_service_msg-IsKeeping =
      bind-IsKeeping tcp rng _ _ (on_service-IsKeeping tcp rng _) (λ env. lift-IsKeeping tcp rng _)

  pub connect_config_dealer-IsFollowing :
      IsFollowing tcp rng start (connect_config_dealer tcp rng x envelopes messages)
  unfolding connect_config_dealer phase
  connect_config_dealer-IsFollowing = get-IsFollowing tcp rng start _ (λ app.
      bind-IsFollowing tcp rng start _ _ (connect_participant-IsKeeping tcp rng _)
        (λ _. set_state-IsFollowing tcp rng start connecting_to_config_dealer asks_for_config))

  pub configure-IsFollowing :
      (config : Option (Address × Address))
      → IsFollowing tcp rng configuration (configure tcp rng x envelopes messages config)
  unfolding configure phase
  configure-IsFollowing none =
      keeping-IsFollowing tcp rng configuration _ (lift-IsKeeping tcp rng (ok tt))
  configure-IsFollowing (some (eth_holder, withdraw_receiver)) =
      follow-IsFollowing tcp rng configuration _ _
        (set_state-IsFollowing tcp rng configuration (closing_sockets eth_holder withdraw_receiver)
          is_configured)
        (λ _. on_participant-IsKeeping tcp rng _)

  pub read_config-IsFollowing :
      IsFollowing tcp rng configuration
        (wait_connected_and_read_config tcp rng x envelopes messages)
  unfolding wait_connected_and_read_config
  read_config-IsFollowing = get-IsFollowing tcp rng configuration _ (λ app.
      unless-IsFollowing tcp rng configuration _ tt _ (
        bind-IsFollowing tcp rng configuration _ _ (on_participant-IsKeeping tcp rng _)
          configure-IsFollowing))

  pub closed-IsFollowing :
      (a b : Address)
      → IsFollowing tcp rng closure (wait_connections_closed tcp rng x envelopes messages a b)
  unfolding wait_connections_closed phase
  closed-IsFollowing a b = get-IsFollowing tcp rng closure _ (λ app.
      unless-IsFollowing tcp rng closure _ tt _ (
        bind-IsFollowing tcp rng closure _ _ (on_participant-IsKeeping tcp rng _)
          (λ _. set_state-IsFollowing tcp rng closure (listening a b) listens)))

  pub on_handshake-IsFollowing :
      (a b : Address) (env : Option Envelope)
      → IsFollowing tcp rng attention (on_handshake tcp rng x envelopes messages a b env)
  unfolding on_handshake phase
  on_handshake-IsFollowing a b none =
      keeping-IsFollowing tcp rng attention _ (lift-IsKeeping tcp rng (ok tt))
  on_handshake-IsFollowing a b (some env) =
      bind-IsFollowing tcp rng attention _ _ (lift-IsKeeping tcp rng _) (λ _.
        bind-IsFollowing tcp rng attention _ _ (send_handshake-IsKeeping tcp rng _ _) (λ _.
          get-IsFollowing tcp rng attention _ (λ app.
            bind-IsFollowing tcp rng attention _ _ (connect_service-IsKeeping tcp rng _)
              (λ _. set_state-IsFollowing tcp rng attention (wait_for_proposal a b) is_greeted))))

  pub incomming-IsFollowing :
      (a b : Address)
      → IsFollowing tcp rng attention (check_incomming_connection tcp rng x envelopes messages a b)
  unfolding check_incomming_connection
  incomming-IsFollowing a b = get-IsFollowing tcp rng attention _ (λ app.
      unless-IsFollowing tcp rng attention _ tt _ (
        bind-IsFollowing tcp rng attention _ _ (on_participant-IsKeeping tcp rng _)
          (on_handshake-IsFollowing a b)))

  pub accept_proposal-IsFollowing :
      (a b : Address) (prop : LedgerChannelProposal)
      → IsFollowing tcp rng expectation (accept_proposal tcp rng x envelopes messages a b prop)
  unfolding accept_proposal phase
  accept_proposal-IsFollowing a b prop = get-IsFollowing tcp rng expectation _ (λ app.
      bind-IsFollowing tcp rng expectation _ _ (lift-IsKeeping tcp rng _) (λ _.
        bind-IsFollowing tcp rng expectation _ _ (gen-IsKeeping tcp rng) (λ _.
          bind-IsFollowing tcp rng expectation _ _ (run_on-IsKeeping tcp rng _ _ _) (λ _.
            bind-IsFollowing tcp rng expectation _ _ (lift-IsKeeping tcp rng _) (λ _.
              bind-IsFollowing tcp rng expectation _ _ (run_on-IsKeeping tcp rng _ _ _) (λ signed.
                set_state-IsFollowing tcp rng expectation
                  (active a b (Channel.agreed_upon signed.0)) accepts_channel))))))

  pub on_proposal-IsFollowing :
      (a b : Address) (msg : Option ParticipantMessage)
      → IsFollowing tcp rng expectation (on_proposal tcp rng x envelopes messages a b msg)
  unfolding on_proposal
  on_proposal-IsFollowing a b none =
      keeping-IsFollowing tcp rng expectation _ (lift-IsKeeping tcp rng (ok tt))
  on_proposal-IsFollowing a b (some (channel_proposal prop)) = accept_proposal-IsFollowing a b prop
  on_proposal-IsFollowing a b (some _) =
      keeping-IsFollowing tcp rng expectation _ (lift-IsKeeping tcp rng (err invalid_state))

  pub proposal-IsFollowing :
      (a b : Address)
      → IsFollowing tcp rng expectation
          (wait_connected_and_proposal_msg tcp rng x envelopes messages a b)
  unfolding wait_connected_and_proposal_msg
  proposal-IsFollowing a b = get-IsFollowing tcp rng expectation _ (λ app.
      unless-IsFollowing tcp rng expectation _ tt _ (
        bind-IsFollowing tcp rng expectation _ _ try_recv_participant_msg-IsKeeping
          (on_proposal-IsFollowing a b)))

  pub stop_listening-IsKeeping : IsKeeping tcp rng (stop_listening tcp rng x envelopes messages)
  unfolding stop_listening IsKeeping resume on_participant
  stop_listening-IsKeeping app = elim (Bool-cases (tcp.is_listening app.participant_socket)) [
    | inl y ↦ rw y
    | inr n ↦ rw n
  ]

  pub connect-IsFollowing :
      (a b : Address) → IsFollowing tcp rng attention (connect tcp rng x envelopes messages a b)
  unfolding connect phase
  connect-IsFollowing a b = get-IsFollowing tcp rng attention _ (λ app.
      bind-IsFollowing tcp rng attention _ _ stop_listening-IsKeeping (λ _.
        bind-IsFollowing tcp rng attention _ _ (connect_participant-IsKeeping tcp rng _) (λ _.
          bind-IsFollowing tcp rng attention _ _ (connect_service-IsKeeping tcp rng _)
            (λ _. set_state-IsFollowing tcp rng attention (connecting a b) connects))))

  pub greeting-IsFollowing :
      (a b : Address)
      → IsFollowing tcp rng connection
          (wait_connected_and_send_handshake tcp rng x envelopes messages a b)
  unfolding wait_connected_and_send_handshake phase
  greeting-IsFollowing a b = get-IsFollowing tcp rng connection _ (λ app.
      unless-IsFollowing tcp rng connection _ tt _ (
        bind-IsFollowing tcp rng connection _ _ (lift-IsKeeping tcp rng _) (λ _.
          bind-IsFollowing tcp rng connection _ _ (lift-IsKeeping tcp rng _) (λ _.
            bind-IsFollowing tcp rng connection _ _ (send_handshake-IsKeeping tcp rng _ _)
              (λ _. set_state-IsFollowing tcp rng connection (wait_for_handshake a b) greets)))))
