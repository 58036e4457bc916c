-- ===== src/Demo/Application/Phase.antt =====
-- The state machine of cortex-m-demo/src/application.rs as its comments have it, and how a method that
-- is made of others moves in it.
use fork_perun_rs.Base.{
  ◌≡◌, ◌∙◌, refl, sym, subst, Bool, true, false, List, Outcome, ok, err, panic, if◌then◌else◌,
}
use fork_perun_rs.Base.Inversion.{err≢ok, ok≢panic}
use fork_perun_rs.Effects.{resume, ◌>>=◌, get, lift, pure, send_all}
use fork_perun_rs.Bus.{Sent}
use fork_perun_rs.Demo.Socket.{TcpSocket}
use fork_perun_rs.Demo.Receive.{Error}
use fork_perun_rs.Demo.Application.{
  Rng, Application, ApplicationState, initial_state, connecting_to_config_dealer, closing_sockets,
  listening, wait_for_proposal, connecting, wait_for_handshake, active, Handler, set_state,
}

pub data Phase : Type 0 where
  start configuration closure attention expectation connection greeting activity : Phase

unfoldable pub phase : ApplicationState → Phase
phase initial_state = start
phase connecting_to_config_dealer = configuration
phase (closing_sockets _ _) = closure
phase (listening _ _) = attention
phase (wait_for_proposal _ _) = expectation
phase (connecting _ _) = connection
phase (wait_for_handshake _ _) = greeting
phase (active _ _ _) = activity

-- The step relation.
pub data Next : Phase → Phase → Type 0 where
  stays : {p : Phase} → Next p p
  asks_for_config : Next start configuration
  is_configured : Next configuration closure
  listens : Next closure attention
  is_greeted : Next attention expectation
  connects : Next attention connection
  accepts_channel : Next expectation activity
  greets : Next connection greeting
  proposes_channel : Next greeting activity
  closes_channel : Next activity closure

module _ (tcp : TcpSocket) (rng : Rng) where
  -- The phase stays, whatever the result is.
  unfoldable pub IsKeeping : {A : Type 0} → Handler tcp rng A → Type 0
  IsKeeping m = (app : Application tcp rng) → phase (m app).0.state ≡ phase app.state

  -- In the phase p: the phase stays or is one that follows, whatever the result is.
  unfoldable pub IsFollowing : {A : Type 0} → Phase → Handler tcp rng A → Type 0
  IsFollowing p m =
      (app : Application tcp rng) → phase app.state ≡ p → Next p (phase (m app).0.state)

  pub keeping-IsFollowing :
      {A : Type 0} (p : Phase) (m : Handler tcp rng A) → IsKeeping m → IsFollowing p m
  unfolding IsKeeping IsFollowing
  keeping-IsFollowing p m h app e = subst (Next p) (sym (h app ∙ e)) stays

  module _ {A B : Type 0} where
    pub bind-IsKeeping :
        (m : Handler tcp rng A) (f : A → Handler tcp rng B)
        → IsKeeping m
        → ((a : A) → IsKeeping (f a))
        → IsKeeping (m >>= f)
    unfolding IsKeeping resume
    bind-IsKeeping m f h g app = after (m app) (h app)
      where
        after :
            (r : Application tcp rng × Outcome Error A × List Sent)
            → phase r.0.state ≡ phase app.state
            → phase (resume r f).0.state ≡ phase app.state
        after (t, ok a, sent) e = g a t ∙ e
        after (t, err _, sent) e = e
        after (t, panic, sent) e = e

    pub bind-IsFollowing :
        (p : Phase) (m : Handler tcp rng A) (f : A → Handler tcp rng B)
        → IsKeeping m
        → ((a : A) → IsFollowing p (f a))
        → IsFollowing p (m >>= f)
    unfolding IsKeeping IsFollowing resume
    bind-IsFollowing p m f h g app start_phase = after (m app) (h app ∙ start_phase)
      where
        after :
            (r : Application tcp rng × Outcome Error A × List Sent)
            → phase r.0.state ≡ p
            → Next p (phase (resume r f).0.state)
        after (t, ok a, sent) e = g a t e
        after (t, err _, sent) e = subst (Next p) (sym e) stays
        after (t, panic, sent) e = subst (Next p) (sym e) stays

    pub follow-IsFollowing :
        (p : Phase) (m : Handler tcp rng A) (f : A → Handler tcp rng B)
        → IsFollowing p m
        → ((a : A) → IsKeeping (f a))
        → IsFollowing p (m >>= f)
    unfolding IsKeeping IsFollowing resume
    follow-IsFollowing p m f h g app start_phase = after (m app) (h app start_phase)
      where
        after :
            (r : Application tcp rng × Outcome Error A × List Sent)
            → Next p (phase r.0.state)
            → Next p (phase (resume r f).0.state)
        after (t, ok a, sent) n = subst (Next p) (sym (g a t)) n
        after (t, err _, sent) n = n
        after (t, panic, sent) n = n

  pub set_state-IsFollowing :
      (p : Phase) (state : ApplicationState)
      → Next p (phase state)
      → IsFollowing p (set_state tcp rng state)
  unfolding IsFollowing set_state resume
  set_state-IsFollowing p state n app e = n

  pub get-IsFollowing :
      {B : Type 0} (p : Phase) (f : Application tcp rng → Handler tcp rng B)
      → ((a : Application tcp rng) → IsFollowing p (f a))
      → IsFollowing p (get >>= f)
  unfolding IsFollowing resume
  get-IsFollowing p f g app e = g app app e

  pub lift-IsKeeping : {A : Type 0} (r : Outcome Error A) → IsKeeping (lift r)
  unfolding IsKeeping
  lift-IsKeeping r app = refl

  pub send_all-IsKeeping : (r : Outcome Error (List Sent)) → IsKeeping (send_all r)
  unfolding IsKeeping
  send_all-IsKeeping (ok ms) app = refl
  send_all-IsKeeping (err e) app = refl
  send_all-IsKeeping panic app = refl

  pub unless-IsFollowing :
      {A : Type 0} (p : Phase) (waits : Bool) (a : A) (m : Handler tcp rng A)
      → IsFollowing p m
      → IsFollowing p (if waits then pure a else m)
  unfolding IsFollowing
  unless-IsFollowing p true a m h app e = subst (Next p) (sym e) stays
  unless-IsFollowing p false a m h app e = h app e

  -- A result, if there is one, is this one.
  unfoldable pub IsReturning : {A : Type 0} → A → Handler tcp rng A → Type 0
  IsReturning {A = A} a m = (app : Application tcp rng) (b : A) → (m app).1 ≡ ok b → b ≡ a

  module _ {A B : Type 0} where
    pub bind-IsReturning :
        (b : B) (m : Handler tcp rng A) (f : A → Handler tcp rng B)
        → ((a : A) → IsReturning b (f a))
        → IsReturning b (m >>= f)
    unfolding IsReturning resume
    bind-IsReturning b m f g app c = after (m app)
      where
        after :
            (r : Application tcp rng × Outcome Error A × List Sent) → (resume r f).1 ≡ ok c → c ≡ b
        after (t, ok a, sent) e = g a t c e
        after (t, err x, sent) e = absurd (err≢ok x c e)
        after (t, panic, sent) e = absurd (ok≢panic c (sym e))

    -- After a step that may change the phase, with its one result.
    pub returned-IsFollowing :
        (p : Phase) (a : A) (m : Handler tcp rng A) (f : A → Handler tcp rng B)
        → IsFollowing p m
        → IsReturning a m
        → IsKeeping (f a)
        → IsFollowing p (m >>= f)
    unfolding IsKeeping IsFollowing IsReturning resume
    returned-IsFollowing p a m f h r g app start_phase =
        after (m app) (h app start_phase) (λ b e. r app b e)
      where
        after :
            (s : Application tcp rng × Outcome Error A × List Sent)
            → Next p (phase s.0.state)
            → ((b : A) → s.1 ≡ ok b → b ≡ a)
            → Next p (phase (resume s f).0.state)
        after (t, ok b, sent) n only =
            subst (λ c. Next p (phase (f c t).0.state)) (sym (only b refl))
              (subst (Next p) (sym (g t)) n)
        after (t, err _, sent) n only = n
        after (t, panic, sent) n only = n
