-- ===== src/Demo/Application/Handlers.antt =====
-- cortex-m-demo/src/application.rs: what the application does in each of its states.
use fork_perun_rs.Base.{
  not, ◌&&◌, ◌||◌, [], ◌∷◌, Option, none, some, map_err, unwrap, get_elem?, if◌then◌else◌,
}
use fork_perun_rs.Payment.{Balances}
use fork_perun_rs.Effects.{◌>>=◌, ◌>>◌, lift, get, pure, fail, convert}
use fork_perun_rs.External.{External}
use fork_perun_rs.Types.{Address}
use fork_perun_rs.Messages.{LedgerChannelProposal, ParticipantMessage, auth, channel_proposal}
use fork_perun_rs.Wire.Encoding.{Codec}
use fork_perun_rs.Wire.Envelope.{Envelope, Message}
use fork_perun_rs.Channel.Proposal.{
  ProposedChannel, handle_proposal, propose_channel, send_handshake_msg,
}
use fork_perun_rs.Channel.Proposal as Proposal
use fork_perun_rs.Channel.AgreedUpon as AgreedUpon
use fork_perun_rs.Demo.Channel.{proposed, agreed_upon}
use fork_perun_rs.Demo.Socket.{TcpSocket}
use fork_perun_rs.Demo.Receive.{
  invalid_proposal, unexpected_msg, invalid_state, proposal_build_error, sign_error, recv, try_recv,
}
use fork_perun_rs.Demo.Incoming.{ServiceReplyMessage}
use fork_perun_rs.Demo.Application.Answers.{
  my_wire_address, read_config, run_on, handshake_of, incoming_envelope, incoming_message,
}
use fork_perun_rs.Demo.Application.{
  Rng, connecting_to_config_dealer, closing_sockets, listening, wait_for_proposal, connecting,
  wait_for_handshake, active, Handler, set_state, on_participant, on_service, gen, change_socket,
  connect_participant, connect_service,
}

module _ (tcp : TcpSocket) (rng : Rng) (x : External) (envelopes : Codec Envelope)
    (messages : Codec Message) where
  abbrev Handle : Type 0 → Type 0
  Handle A = Handler tcp rng A

  unfoldable pub connect_config_dealer : Handle (Unit {0})
  connect_config_dealer = do
    app ← get
    connect_participant tcp rng app.config.config_server
    set_state tcp rng connecting_to_config_dealer

  unfoldable pub configure : Option (Address × Address) → Handle (Unit {0})
  configure none = pure tt
  configure (some (eth_holder, withdraw_receiver)) = do
    set_state tcp rng (closing_sockets eth_holder withdraw_receiver)
    on_participant tcp rng (change_socket tcp rng (λ s. some (tcp.close s)))

  unfoldable pub wait_connected_and_read_config : Handle (Unit {0})
  unfolding configure read_config
  wait_connected_and_read_config = do
    app ← get
    if not (tcp.is_active app.participant_socket && tcp.can_recv app.participant_socket)
        then pure tt
        else do config ← on_participant tcp rng (recv tcp read_config); configure config

  unfoldable pub wait_connections_closed : Address → Address → Handle (Unit {0})
  wait_connections_closed eth_holder withdraw_receiver = do
    app ← get
    if tcp.is_active app.service_socket || tcp.is_active app.participant_socket then pure tt else do
      on_participant tcp rng (change_socket tcp rng (tcp.listen app.config.listen_port))
      set_state tcp rng (listening eth_holder withdraw_receiver)

  -- The envelope of a connection attempt.
  unfoldable pub on_handshake : Address → Address → Option Envelope → Handle (Unit {0})
  on_handshake eth_holder withdraw_receiver none = pure tt
  on_handshake eth_holder withdraw_receiver (some env) = do
    lift (handshake_of env.msg)
    send_handshake_msg my_wire_address env.sender
    app ← get
    connect_service tcp rng app.config.service_server
    set_state tcp rng (wait_for_proposal eth_holder withdraw_receiver)

  unfoldable pub check_incomming_connection : Address → Address → Handle (Unit {0})
  unfolding on_handshake
  check_incomming_connection eth_holder withdraw_receiver = do
    app ← get
    if not (tcp.is_open app.participant_socket) || not (tcp.may_recv app.participant_socket)
        then pure tt
        else do
          env ← on_participant tcp rng (try_recv tcp envelopes)
          on_handshake eth_holder withdraw_receiver env

  unfoldable pub try_recv_participant_msg : Handle (Option ParticipantMessage)
  unfolding incoming_envelope
  try_recv_participant_msg = do
    env ← on_participant tcp rng (try_recv tcp envelopes)
    lift (incoming_envelope x env)

  unfoldable pub try_recv_service_msg : Handle (Option ServiceReplyMessage)
  unfolding incoming_message
  try_recv_service_msg = do
    env ← on_service tcp rng (try_recv tcp messages)
    lift (incoming_message env)

  -- A proposal is accepted, and the channel built and signed.
  unfoldable pub accept_proposal : Address → Address → LedgerChannelProposal → Handle (Unit {0})
  accept_proposal eth_holder withdraw_receiver prop = do
    app ← get
    channel ← lift (map_err invalid_proposal (handle_proposal app.client prop withdraw_receiver))
    nonce_share ← gen tcp rng
    (accepted, _) ← run_on (λ _. none) (Proposal.accept nonce_share app.addr) channel
    agreed ← lift (map_err (λ e. proposal_build_error e.1) (Proposal.build x accepted))
    (signed, _) ← run_on (λ e. some (sign_error e)) (AgreedUpon.sign x) agreed
    set_state tcp rng (active eth_holder withdraw_receiver (agreed_upon signed))

  unfoldable pub on_proposal : Address → Address → Option ParticipantMessage → Handle (Unit {0})
  unfolding accept_proposal
  on_proposal eth_holder withdraw_receiver none = pure tt
  on_proposal eth_holder withdraw_receiver (some (channel_proposal prop)) =
      accept_proposal eth_holder withdraw_receiver prop
  on_proposal eth_holder withdraw_receiver (some _) = fail invalid_state

  unfoldable pub wait_connected_and_proposal_msg : Address → Address → Handle (Unit {0})
  unfolding on_proposal
  wait_connected_and_proposal_msg eth_holder withdraw_receiver = do
    app ← get
    if not (tcp.is_open app.service_socket)
        then pure tt
        else do msg ← try_recv_participant_msg; on_proposal eth_holder withdraw_receiver msg

  unfoldable pub stop_listening : Handle (Unit {0})
  stop_listening = do
    app ← get
    if tcp.is_listening app.participant_socket
        then on_participant tcp rng (change_socket tcp rng (λ s. some (tcp.abort s)))
        else pure tt

  unfoldable pub connect : Address → Address → Handle (Unit {0})
  unfolding stop_listening
  connect eth_holder withdraw_receiver = do
    app ← get
    stop_listening
    connect_participant tcp rng app.config.other_participant
    connect_service tcp rng app.config.service_server
    set_state tcp rng (connecting eth_holder withdraw_receiver)

  unfoldable pub wait_connected_and_send_handshake : Address → Address → Handle (Unit {0})
  wait_connected_and_send_handshake eth_holder withdraw_receiver = do
    app ← get
    let s = app.participant_socket
    if not (tcp.is_active s && tcp.may_recv s && tcp.may_send s) then pure tt else do
      sender ← lift (unwrap (get_elem? app.config.participants 0))
      recipient ← lift (unwrap (get_elem? app.config.participants 1))
      send_handshake_msg sender recipient
      set_state tcp rng (wait_for_handshake eth_holder withdraw_receiver)

  unfoldable pub send_channel_proposal : Address → Address → Handle (Unit {0})
  send_channel_proposal eth_holder withdraw_receiver = do
    app ← get
    proposal_id ← gen tcp rng
    nonce_share ← gen tcp rng
    let init_balance : Balances = (100000 ∷ 100000 ∷ []) ∷ []
    channel ← convert invalid_proposal (
        propose_channel app.client
          (record {
            proposal_id = proposal_id;
            challenge_duration = 25;
            nonce_share = nonce_share;
            init_bals = record {
              assets = record { holder = eth_holder } ∷ [];
              balances = init_balance;
            };
            funding_agreement = init_balance;
            participant = app.addr;
            peers = app.config.participants;
          })
          withdraw_receiver)
    set_state tcp rng (active eth_holder withdraw_receiver (proposed channel))

  unfoldable pub on_handshake_reply :
      Address → Address → Option ParticipantMessage → Handle (Unit {0})
  unfolding send_channel_proposal
  on_handshake_reply eth_holder withdraw_receiver none = pure tt
  on_handshake_reply eth_holder withdraw_receiver (some auth) =
      send_channel_proposal eth_holder withdraw_receiver
  on_handshake_reply eth_holder withdraw_receiver (some _) = fail unexpected_msg

  unfoldable pub wait_handshake_and_propose_channel : Address → Address → Handle (Unit {0})
  unfolding on_handshake_reply try_recv_participant_msg
  wait_handshake_and_propose_channel eth_holder withdraw_receiver = do
    msg ← try_recv_participant_msg
    on_handshake_reply eth_holder withdraw_receiver msg
