-- ===== src/Demo/Application/Pressing.antt =====
-- What the button that proposes a channel does to the phase of cortex-m-demo/src/application.rs.
use fork_perun_rs.Base.{◌≡◌, ◌∙◌, refl, sym, subst, List, Outcome, ok, err, panic}
use fork_perun_rs.Effects.{resume, ◌>>=◌, get}
use fork_perun_rs.External.{External}
use fork_perun_rs.Types.{Address}
use fork_perun_rs.Bus.{Sent}
use fork_perun_rs.Wire.Encoding.{Codec}
use fork_perun_rs.Wire.Envelope.{Envelope, Message}
use fork_perun_rs.Demo.Socket.{TcpSocket}
use fork_perun_rs.Demo.Receive.{Error}
use fork_perun_rs.Demo.Application.{
  Rng, Application, ApplicationState, listening, connecting, Handler, set_state,
}
use fork_perun_rs.Demo.Application.Handlers.{connect}
use fork_perun_rs.Demo.Application.Steps.{stop_listening-IsKeeping}
use fork_perun_rs.Demo.Application.Laws.{connect_participant-IsKeeping, connect_service-IsKeeping}
use fork_perun_rs.Demo.Application.Poll.{propose_channel, propose_in}
use fork_perun_rs.Demo.Application.Phase.{Phase, attention, connection, phase, IsKeeping}

-- The phase stays, or the device that waits connects.
pub data Pressed : Phase → Phase → Type 0 where
  keeps : {p : Phase} → Pressed p p
  connects : Pressed attention connection

module _ (tcp : TcpSocket) (rng : Rng) where
  IsPressing : {A : Type 0} → Phase → Handler tcp rng A → Type 0
  IsPressing p m =
      (app : Application tcp rng) → phase app.state ≡ p → Pressed p (phase (m app).0.state)

  bind-IsPressing :
      {A B : Type 0} (p : Phase) (m : Handler tcp rng A) (f : A → Handler tcp rng B)
      → IsKeeping tcp rng m
      → ((a : A) → IsPressing p (f a))
      → IsPressing p (m >>= f)
  unfolding IsKeeping IsPressing resume
  bind-IsPressing {A = A} p m f h g app start_phase = after (m app) (h app ∙ start_phase)
    where
      after :
          (r : Application tcp rng × Outcome Error A × List Sent)
          → phase r.0.state ≡ p
          → Pressed p (phase (resume r f).0.state)
      after (t, ok a, sent) e = g a t e
      after (t, err _, sent) e = subst (Pressed p) (sym e) keeps
      after (t, panic, sent) e = subst (Pressed p) (sym e) keeps

  set_state-IsPressing :
      (state : ApplicationState)
      → Pressed attention (phase state)
      → IsPressing attention (set_state tcp rng state)
  unfolding IsPressing set_state resume
  set_state-IsPressing state n app e = n

  get-IsKeeping : IsKeeping tcp rng get
  unfolding IsKeeping
  get-IsKeeping app = refl

  module _ (x : External) (envelopes : Codec Envelope) (messages : Codec Message) where
    connect-IsPressing :
        (a b : Address) → IsPressing attention (connect tcp rng x envelopes messages a b)
    unfolding connect phase
    connect-IsPressing a b = bind-IsPressing attention _ _ get-IsKeeping (λ app.
        bind-IsPressing attention _ _ (stop_listening-IsKeeping tcp rng x envelopes messages) (λ _.
          bind-IsPressing attention _ _ (connect_participant-IsKeeping tcp rng _) (λ _.
            bind-IsPressing attention _ _ (connect_service-IsKeeping tcp rng _)
              (λ _. set_state-IsPressing (connecting a b) connects))))

    propose_in-Pressed :
        (st : ApplicationState) (app : Application tcp rng)
        → phase app.state ≡ phase st
        → Pressed (phase st) (phase (propose_in tcp rng x envelopes messages st app).0.state)
    unfolding propose_in phase IsPressing
    propose_in-Pressed (listening a b) app e = connect-IsPressing a b app e
    propose_in-Pressed st app e = subst (Pressed (phase st)) (sym e) keeps

    -- The button leaves the phase, or connects a device that waits, whether it succeeds or not.
    pub propose_channel-Pressed :
        (app : Application tcp rng)
        → Pressed
            (phase app.state)
            (phase (propose_channel tcp rng x envelopes messages app).0.state)
    unfolding propose_channel
    propose_channel-Pressed app = propose_in-Pressed app.state app refl
