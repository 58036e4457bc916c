-- ===== src/Demo/Application/Forwarding.antt =====
-- An open channel of cortex-m-demo/src/application.rs that is forwarded a message.
use fork_perun_rs.Base.{
  ◌≡◌, ◌∙◌, refl, sym, Bool, true, false, List, Option, none, some, Outcome, ok, err, panic,
  Bool-cases, inl, inr,
}
use fork_perun_rs.Demo.Channel.{process_watcher_reply, process_funder_reply}
use fork_perun_rs.Base.Inversion.{ok-injective}
use fork_perun_rs.Effects.{resume, ◌>>=◌, get, pure}
use fork_perun_rs.Types.{Address}
use fork_perun_rs.Bus.{Sent, Method}
use fork_perun_rs.Demo.Channel.{ChannelInner, is_closed}
use fork_perun_rs.Demo.Channel as Channel
use fork_perun_rs.Demo.Socket.{TcpSocket}
use fork_perun_rs.Demo.Receive.{Error}
use fork_perun_rs.Demo.Application.{
  Rng, Application, ApplicationState, closing_sockets, active, Handler,
}
use fork_perun_rs.Demo.Application.Laws.{on_participant-IsKeeping, on_service-IsKeeping}
use fork_perun_rs.Demo.Application.Poll.{
  with_channel, channel_step, on_channel, close_sockets, leave_closed, forward,
}
use fork_perun_rs.Demo.Application.Phase.{
  activity, phase, closes_channel, IsKeeping, IsFollowing, keeping-IsFollowing, bind-IsFollowing,
  follow-IsFollowing, set_state-IsFollowing, get-IsFollowing, lift-IsKeeping, IsReturning,
  bind-IsReturning,
}

module _ (tcp : TcpSocket) (rng : Rng) where
  with_channel-phase :
      (a b : Address) (app : Application tcp rng)
      (r : ChannelInner × Outcome Channel.Error (Unit {0}) × List Sent)
      → phase (with_channel tcp rng a b app r).0.state ≡ activity
  unfolding with_channel phase
  with_channel-phase a b app (ch, ok _, sent) = refl
  with_channel-phase a b app (ch, err e, sent) = refl
  with_channel-phase a b app (ch, panic, sent) = refl

  channel_step-phase :
      (otherwise : Outcome Error (Unit {0})) (f : Method ChannelInner Channel.Error (Unit {0}))
      (st : ApplicationState) (app : Application tcp rng)
      → phase app.state ≡ phase st
      → phase (channel_step tcp rng otherwise f st app).0.state ≡ phase app.state
  unfolding channel_step phase
  channel_step-phase otherwise f (active a b ch) app e = with_channel-phase a b app (f ch) ∙ sym e
  channel_step-phase otherwise f _ app e = refl

  pub on_channel-IsKeeping :
      (otherwise : Outcome Error (Unit {0})) (f : Method ChannelInner Channel.Error (Unit {0}))
      → IsKeeping tcp rng (on_channel tcp rng otherwise f)
  unfolding IsKeeping on_channel
  on_channel-IsKeeping otherwise f app = channel_step-phase otherwise f app.state app refl

  close_sockets-IsFollowing :
      (a b : Address) → IsFollowing tcp rng activity (close_sockets tcp rng a b)
  unfolding close_sockets phase
  close_sockets-IsFollowing a b =
      bind-IsFollowing tcp rng activity _ _ (on_participant-IsKeeping tcp rng _) (λ _.
        bind-IsFollowing tcp rng activity _ _ (on_service-IsKeeping tcp rng _)
          (λ _. set_state-IsFollowing tcp rng activity (closing_sockets a b) closes_channel))

  leave_closed-IsFollowing :
      (st : ApplicationState) → IsFollowing tcp rng activity (leave_closed tcp rng st)
  unfolding leave_closed
  leave_closed-IsFollowing (active a b ch) = elim (Bool-cases (is_closed ch)) [
    | inl y ↦ rw y (close_sockets-IsFollowing a b)
    | inr n ↦ rw n (keeping-IsFollowing tcp rng activity _ (lift-IsKeeping tcp rng (ok tt)))
  ]
  leave_closed-IsFollowing _ =
      keeping-IsFollowing tcp rng activity _ (lift-IsKeeping tcp rng (ok tt))

  pub forward-IsFollowing :
      {T : Type 0} (process : T → Method ChannelInner Channel.Error (Unit {0})) (msg : Option T)
      → IsFollowing tcp rng activity (forward tcp rng process msg)
  unfolding forward
  forward-IsFollowing process none =
      keeping-IsFollowing tcp rng activity _ (lift-IsKeeping tcp rng (ok false))
  forward-IsFollowing process (some msg) =
      bind-IsFollowing tcp rng activity _ _ (on_channel-IsKeeping panic (process msg)) (λ _.
        get-IsFollowing tcp rng activity _ (λ app.
          follow-IsFollowing tcp rng activity _ _ (leave_closed-IsFollowing app.state)
            (λ _. lift-IsKeeping tcp rng (ok true))))

  pure-IsReturning : {A : Type 0} (a : A) → IsReturning tcp rng a (pure a)
  unfolding IsReturning
  pure-IsReturning a app b e = sym (ok-injective a b e)

  pub forward-IsReturning :
      {T : Type 0} (process : T → Method ChannelInner Channel.Error (Unit {0})) (msg : T)
      → IsReturning tcp rng true (forward tcp rng process (some msg))
  unfolding forward
  forward-IsReturning process msg = bind-IsReturning tcp rng true _ _ (λ _.
      bind-IsReturning tcp rng true get _
        (λ app. bind-IsReturning tcp rng true _ _ (λ _. pure-IsReturning true)))

  pub none-IsFollowing :
      {T : Type 0} (process : T → Method ChannelInner Channel.Error (Unit {0}))
      (f : Bool → Handler tcp rng (Unit {0}))
      → IsFollowing tcp rng activity (f false)
      → IsFollowing tcp rng activity (forward tcp rng process none >>= f)
  unfolding forward IsFollowing resume
  none-IsFollowing process f h = h
