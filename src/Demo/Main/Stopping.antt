-- ===== src/Demo/Main/Stopping.antt =====
-- What ends the main loop of cortex-m-demo/src/main.rs.
use fork_perun_rs.Base.{
  ◌≡◌, ◌≢◌, refl, sym, List, [], ◌∷◌, some, Outcome, ok, err, panic, Bool-cases, inl, inr, length,
  ◌==◌, ℕ,
}
use fork_perun_rs.Base.Inversion.{ok≢panic, err≢ok}
use fork_perun_rs.Effects.{resume}
use fork_perun_rs.External.{External}
use fork_perun_rs.Types.{Address}
use fork_perun_rs.Bus.{Sent}
use fork_perun_rs.Wire.Perunwire
use fork_perun_rs.Wire.Encoding.{Codec}
use fork_perun_rs.Wire.Envelope.{Envelope, Message, channel_proposal_rej_msg}
use fork_perun_rs.Channel.Proposal.{ProposedChannel}
use fork_perun_rs.Demo.Channel.{proposed, settle, progress}
use fork_perun_rs.Demo.Channel.Process.{participant_progress, process_participant_msg}
use fork_perun_rs.Demo.Socket.{TcpSocket}
use fork_perun_rs.Demo.Receive.{Error, try_recv}
use fork_perun_rs.Demo.Incoming.{incoming, hash_of}
use fork_perun_rs.Demo.Application.{Rng, Application, active, on_participant}
use fork_perun_rs.Demo.Application.Answers.{incoming_envelope}
use fork_perun_rs.Demo.Application.Handlers.{try_recv_participant_msg}
use fork_perun_rs.Demo.Application.Poll.{
  poll, poll_in, forward_messages_to_channel, forward, on_channel, channel_step, with_channel,
}
use fork_perun_rs.Demo.Main.{Device, Input, Loop, poll_network, unwrapped, poll_app, round, run}

module _ (tcp : TcpSocket) (rng : Rng) where
  resume-panic :
      (r : Device tcp rng × Outcome Error (Unit {0}) × List Sent) (f : Unit {0} → Loop tcp rng)
      → r.1 ≡ panic
      → (resume r f).1 ≡ panic
  unfolding resume
  resume-panic (d, ok tt, sent) f h = absurd (ok≢panic tt h)
  resume-panic (d, err e, sent) f h = h
  resume-panic (d, panic, sent) f h = refl

  unwrapped-panic :
      (d : Device tcp rng) (r : Application tcp rng × Outcome Error (Unit {0}) × List Sent)
      → ((a : Unit {0}) → r.1 ≢ ok a)
      → (unwrapped tcp rng d r).1 ≡ panic
  unfolding unwrapped
  unwrapped-panic d (app, ok a, sent) h = absurd (h a refl)
  unwrapped-panic d (app, err e, sent) h = refl
  unwrapped-panic d (app, panic, sent) h = refl

module _ (tcp : TcpSocket) (rng : Rng) (x : External) (envelopes : Codec Envelope)
    (messages : Codec Message) where
  -- If polling, after the network was polled, does not succeed, the loop panics in that round.
  unpolled-stops :
      (input : Input tcp rng) (inputs : List (Input tcp rng)) (d : Device tcp rng)
      → ((a : Unit {0})
          → (poll tcp rng x envelopes messages (poll_network tcp rng input d).0.app).1 ≢ ok a)
      → (run tcp rng x envelopes messages (input ∷ inputs) d).1 ≡ panic
  unfolding run round poll_network poll_app resume
  unpolled-stops input inputs d h =
      resume-panic tcp rng (round tcp rng x envelopes messages input d) _ (
        resume-panic tcp rng
          (poll_app tcp rng x envelopes messages (poll_network tcp rng input d).0) _
          (unwrapped-panic tcp rng (poll_network tcp rng input d).0 _ h))

  rejected-fails :
      (app : Application tcp rng) (a b : Address) (ch : ProposedChannel) (s : tcp.Socket)
      (sender recipient : List ℕ) (m : Perunwire.ChannelProposalRejMsg)
      → app.state ≡ active a b (proposed ch)
      → try_recv tcp envelopes app.participant_socket ≡ (
        s,
        ok (
            some (record {
              sender = sender;
              recipient = recipient;
              msg = some (channel_proposal_rej_msg m);
            })),
        [],
      )
      → (u : Unit {0}) → (poll tcp rng x envelopes messages app).1 ≢ ok u
  unfolding poll poll_in forward_messages_to_channel try_recv_participant_msg on_participant resume
      incoming_envelope incoming hash_of forward on_channel channel_step with_channel
      process_participant_msg progress participant_progress settle
  rejected-fails app a b ch s sender recipient m state got u = rw state (
      rw got (elim (Bool-cases (length m.proposal_id == 32)) [
        | inl y ↦ rw y (err≢ok _ u)
        | inr n ↦ rw n (λ e. ok≢panic u (sym e))
      ]))

  -- If a device waits for the answer to its proposal, and a rejection arrives from the other
  -- participant, with an id of any length, the main loop panics in that round.
  pub rejection-stops :
      (input : Input tcp rng) (inputs : List (Input tcp rng)) (d : Device tcp rng) (a b : Address)
      (ch : ProposedChannel) (s : tcp.Socket) (sender recipient : List ℕ)
      (m : Perunwire.ChannelProposalRejMsg)
      → d.app.state ≡ active a b (proposed ch)
      → try_recv tcp envelopes (input.participant_network d.app.participant_socket) ≡ (
        s,
        ok (
            some (record {
              sender = sender;
              recipient = recipient;
              msg = some (channel_proposal_rej_msg m);
            })),
        [],
      )
      → (run tcp rng x envelopes messages (input ∷ inputs) d).1 ≡ panic
  unfolding poll_network resume
  rejection-stops input inputs d a b ch s sender recipient m state got =
      unpolled-stops input inputs d
        (rejected-fails (poll_network tcp rng input d).0.app a b ch s sender recipient m state got)
