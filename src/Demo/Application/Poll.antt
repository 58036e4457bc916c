-- ===== src/Demo/Application/Poll.antt =====
-- cortex-m-demo/src/application.rs: an open channel is forwarded its messages; polling, and what the
-- buttons ask for.
use fork_perun_rs.Base.{
  ℕ, Bool, true, false, Option, none, some, Outcome, ok, err, panic, if◌then◌else◌, List, [],
}
use fork_perun_rs.Effects.{◌>>=◌, ◌>>◌, get, pure, fail}
use fork_perun_rs.External.{External}
use fork_perun_rs.Types.{Address}
use fork_perun_rs.Bus.{Sent, Method}
use fork_perun_rs.Wire.Encoding.{Codec}
use fork_perun_rs.Wire.Envelope.{Envelope, Message}
use fork_perun_rs.Demo.Channel.{
  ChannelInner, is_closed, process_watcher_reply, process_funder_reply,
}
use fork_perun_rs.Demo.Channel.Process.{process_participant_msg}
use fork_perun_rs.Demo.Channel as Channel
use fork_perun_rs.Demo.Socket.{TcpSocket}
use fork_perun_rs.Demo.Receive.{Error, channel_error, invalid_state}
use fork_perun_rs.Demo.Incoming.{ServiceReplyMessage, watcher, funder}
use fork_perun_rs.Demo.Application.{
  Rng, Application, ApplicationState, initial_state, connecting_to_config_dealer, closing_sockets,
  listening, wait_for_proposal, connecting, wait_for_handshake, active, Handler, set_state,
  on_participant, on_service, change_socket,
}
use fork_perun_rs.Demo.Application.Handlers.{
  connect_config_dealer, wait_connected_and_read_config, wait_connections_closed,
  check_incomming_connection, wait_connected_and_proposal_msg, connect,
  wait_connected_and_send_handshake, wait_handshake_and_propose_channel, try_recv_participant_msg,
  try_recv_service_msg,
}

unfoldable pub service_reply : ServiceReplyMessage → Method ChannelInner Channel.Error (Unit {0})
service_reply (funder msg) = process_funder_reply msg
service_reply (watcher msg) = process_watcher_reply msg

module _ (tcp : TcpSocket) (rng : Rng) where
  -- The application after a method of its channel; the error is converted.
  unfoldable pub with_channel :
      Address
      → Address
      → Application tcp rng
      → ChannelInner × Outcome Channel.Error (Unit {0}) × List Sent
      → Application tcp rng × Outcome Error (Unit {0}) × List Sent
  with_channel eth_holder withdraw_receiver app (ch, ok _, sent) =
      (record app { state = active eth_holder withdraw_receiver ch }, ok tt, sent)
  with_channel eth_holder withdraw_receiver app (ch, err e, sent) =
      (record app { state = active eth_holder withdraw_receiver ch }, err (channel_error e), sent)
  with_channel eth_holder withdraw_receiver app (ch, panic, sent) =
      (record app { state = active eth_holder withdraw_receiver ch }, panic, sent)

  unfoldable pub channel_step :
      Outcome Error (Unit {0})
      → Method ChannelInner Channel.Error (Unit {0})
      → ApplicationState
      → Handler tcp rng (Unit {0})
  unfolding with_channel
  channel_step otherwise f (active eth_holder withdraw_receiver ch) app =
      with_channel eth_holder withdraw_receiver app (f ch)
  channel_step otherwise f _ app = (app, otherwise, [])

  -- A method of the channel, if the application is active.
  unfoldable pub on_channel :
      Outcome Error (Unit {0})
      → Method ChannelInner Channel.Error (Unit {0})
      → Handler tcp rng (Unit {0})
  unfolding channel_step
  on_channel otherwise f app = channel_step otherwise f app.state app

  -- The sockets are closed with the channel.
  unfoldable pub close_sockets : Address → Address → Handler tcp rng (Unit {0})
  close_sockets eth_holder withdraw_receiver = do
    on_participant tcp rng (change_socket tcp rng (λ s. some (tcp.close s)))
    on_service tcp rng (change_socket tcp rng (λ s. some (tcp.close s)))
    set_state tcp rng (closing_sockets eth_holder withdraw_receiver)

  unfoldable pub leave_closed : ApplicationState → Handler tcp rng (Unit {0})
  unfolding close_sockets
  leave_closed (active eth_holder withdraw_receiver ch) =
      if is_closed ch then close_sockets eth_holder withdraw_receiver else pure tt
  leave_closed _ = pure tt

  -- `forward_messages`, once a message was received.
  unfoldable pub forward :
      {T : Type 0}
      → (T → Method ChannelInner Channel.Error (Unit {0}))
      → Option T
      → Handler tcp rng Bool
  unfolding on_channel leave_closed
  forward process none = pure false
  forward process (some msg) = do
    on_channel panic (process msg)
    app ← get
    leave_closed app.state
    pure true

module _ (tcp : TcpSocket) (rng : Rng) (x : External) (envelopes : Codec Envelope)
    (messages : Codec Message) where
  unfoldable pub forward_messages_to_channel : Handler tcp rng (Unit {0})
  unfolding forward service_reply
  forward_messages_to_channel = do
    msg ← try_recv_participant_msg tcp rng x envelopes messages
    has_participant_msg ← forward tcp rng (process_participant_msg x) msg
    if has_participant_msg then pure tt else do
      reply ← try_recv_service_msg tcp rng x envelopes messages
      _ ← forward tcp rng service_reply reply
      pure tt

  -- What polling does in a state.
  unfoldable pub poll_in : ApplicationState → Handler tcp rng (Unit {0})
  unfolding forward_messages_to_channel
  poll_in initial_state = connect_config_dealer tcp rng x envelopes messages
  poll_in connecting_to_config_dealer = wait_connected_and_read_config tcp rng x envelopes messages
  poll_in (closing_sockets eth_holder withdraw_receiver) =
      wait_connections_closed tcp rng x envelopes messages eth_holder withdraw_receiver
  poll_in (listening eth_holder withdraw_receiver) =
      check_incomming_connection tcp rng x envelopes messages eth_holder withdraw_receiver
  poll_in (wait_for_proposal eth_holder withdraw_receiver) =
      wait_connected_and_proposal_msg tcp rng x envelopes messages eth_holder withdraw_receiver
  poll_in (connecting eth_holder withdraw_receiver) =
      wait_connected_and_send_handshake tcp rng x envelopes messages eth_holder withdraw_receiver
  poll_in (wait_for_handshake eth_holder withdraw_receiver) =
      wait_handshake_and_propose_channel tcp rng x envelopes messages eth_holder withdraw_receiver
  poll_in (active _ _ _) = forward_messages_to_channel

  unfoldable pub poll : Handler tcp rng (Unit {0})
  unfolding poll_in
  poll app = poll_in app.state app

  unfoldable pub update : ℕ → Bool → Handler tcp rng (Unit {0})
  unfolding on_channel
  update amount is_final = on_channel tcp rng (err invalid_state) (Channel.update x amount is_final)

  unfoldable pub force_close : Handler tcp rng (Unit {0})
  unfolding on_channel
  force_close = on_channel tcp rng (err invalid_state) Channel.force_close

  unfoldable pub propose_in : ApplicationState → Handler tcp rng (Unit {0})
  propose_in (listening eth_holder withdraw_receiver) =
      connect tcp rng x envelopes messages eth_holder withdraw_receiver
  propose_in _ = fail invalid_state

  unfoldable pub propose_channel : Handler tcp rng (Unit {0})
  unfolding propose_in
  propose_channel app = propose_in app.state app
