-- ===== src/Demo/Application/Laws.antt =====
-- What leaves the state of the application of cortex-m-demo/src/application.rs alone.
use fork_perun_rs.Base.{◌≡◌, refl, List, Option, Outcome, ok, err, panic}
use fork_perun_rs.Effects.{resume}
use fork_perun_rs.Channel.Proposal.{send_handshake_msg}
use fork_perun_rs.Messages.{Identity}
use fork_perun_rs.Bus.{Sent, Method}
use fork_perun_rs.Demo.Socket.{TcpSocket}
use fork_perun_rs.Demo.Receive.{Error}
use fork_perun_rs.Demo.Application.{
  Rng, Endpoint, on_participant, on_service, gen, get_ethemeral_port, connect_participant,
  connect_service,
}
use fork_perun_rs.Demo.Application.Handlers.{}
use fork_perun_rs.Demo.Application.Answers.{deliver, run_on}
use fork_perun_rs.Demo.Application.Phase.{phase, IsKeeping, bind-IsKeeping}

module _ (tcp : TcpSocket) (rng : Rng) where
  pub on_participant-IsKeeping :
      {A : Type 0} (m : Method tcp.Socket Error A) → IsKeeping tcp rng (on_participant tcp rng m)
  unfolding IsKeeping on_participant
  on_participant-IsKeeping m app = refl

  pub on_service-IsKeeping :
      {A : Type 0} (m : Method tcp.Socket Error A) → IsKeeping tcp rng (on_service tcp rng m)
  unfolding IsKeeping on_service
  on_service-IsKeeping m app = refl

  pub port-IsKeeping : IsKeeping tcp rng (get_ethemeral_port tcp rng)
  unfolding IsKeeping get_ethemeral_port resume
  port-IsKeeping app = refl

  pub gen-IsKeeping : IsKeeping tcp rng (gen tcp rng)
  unfolding IsKeeping gen resume
  gen-IsKeeping app = refl

  pub connect_participant-IsKeeping :
      (remote : Endpoint) → IsKeeping tcp rng (connect_participant tcp rng remote)
  unfolding connect_participant
  connect_participant-IsKeeping remote =
      bind-IsKeeping tcp rng _ _ port-IsKeeping (λ port. on_participant-IsKeeping _)

  pub connect_service-IsKeeping :
      (remote : Endpoint) → IsKeeping tcp rng (connect_service tcp rng remote)
  unfolding connect_service
  connect_service-IsKeeping remote =
      bind-IsKeeping tcp rng _ _ port-IsKeeping (λ port. on_service-IsKeeping _)

  pub run_on-IsKeeping :
      {S E A : Type 0} (convert : E → Option Error) (m : Method S E A) (s : S)
      → IsKeeping tcp rng (run_on convert m s)
  unfolding IsKeeping run_on
  run_on-IsKeeping {S = S} {E = E} {A = A} convert m s app = delivered (m s)
    where
      delivered :
          (r : S × Outcome E A × List Sent)
          → phase (deliver convert app r).0.state ≡ phase app.state
      delivered (t, ok a, sent) = refl
      delivered (t, err e, sent) = refl
      delivered (t, panic, sent) = refl

  pub send_handshake-IsKeeping :
      (sender recipient : Identity) → IsKeeping tcp rng (send_handshake_msg sender recipient)
  unfolding IsKeeping send_handshake_msg
  send_handshake-IsKeeping sender recipient app = refl
