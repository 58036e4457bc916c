-- ===== src/Demo/Channel/Opening.antt =====
-- When a signed channel of cortex-m-demo/src/channel.rs opens: after the watcher has acknowledged it,
-- and the funder has funded it, in either order.
use fork_perun_rs.Base.{
  ◌≡◌, ◌≢◌, refl, subst, Bool, true, false, List, [], ◌∷◌, ◌⊎◌, inl, inr, arith,
}
use fork_perun_rs.External.{External}
use fork_perun_rs.Messages.{
  ack, dispute_ack, dispute_notification, funded, ParticipantMessage, auth,
}
use fork_perun_rs.Channel.AgreedUpon.{SignedChannel}
use fork_perun_rs.Demo.Channel.{
  ChannelInner, signed, settle, progress, update, force_close, force_close_progress,
  process_watcher_reply, watcher_progress, process_funder_reply, funder_progress,
}
use fork_perun_rs.Demo.Channel.Process.{participant_progress, process_participant_msg}
use fork_perun_rs.Demo.Channel.Phase.{Phase, phase}
use fork_perun_rs.Demo.Channel.Laws.{
  Event, asks_update, asks_force_close, from_watcher, from_funder, from_participant, handle,
}

-- The channel after these events, whatever their results are.
unfoldable pub run : External → List Event → ChannelInner → ChannelInner
run x [] inner = inner
run x (event ∷ events) inner = run x events (handle x event inner).0

-- The watcher has acknowledged a state.
unfoldable pub IsWatched : List Event → Type 0
IsWatched [] = ⊥
IsWatched (from_watcher (ack _ _) ∷ _) = Unit
IsWatched (_ ∷ events) = IsWatched events

-- The funder has funded the channel.
unfoldable pub IsFunded : List Event → Type 0
IsFunded [] = ⊥
IsFunded (from_funder (funded _) ∷ _) = Unit
IsFunded (_ ∷ events) = IsFunded events

module _ (x : External) (ch : SignedChannel) where
  participant-signed :
      (msg : ParticipantMessage) (watching is_funded : Bool)
      → (process_participant_msg x msg (signed ch watching is_funded)).0
        ≡ signed ch watching is_funded
  unfolding process_participant_msg progress participant_progress settle
  participant-signed auth watching is_funded = refl
  participant-signed msg watching is_funded = refl

  left_signature :
      (events : List Event) (watching is_funded : Bool)
      → phase (run x events (signed ch watching is_funded)) ≢ Phase.signature
      → ((watching ≡ true) ⊎ IsWatched events) × ((is_funded ≡ true) ⊎ IsFunded events)
  unfolding run handle update force_close force_close_progress process_watcher_reply
      watcher_progress process_funder_reply funder_progress progress settle IsWatched IsFunded phase
  left_signature [] watching is_funded left = absurd (left refl)
  left_signature (asks_update amount is_final ∷ events) watching is_funded left =
      left_signature events watching is_funded left
  left_signature (asks_force_close ∷ events) watching is_funded left =
      left_signature events watching is_funded left
  left_signature (from_watcher (ack id version) ∷ events) watching true left = (inr tt, inl refl)
  left_signature (from_watcher (ack id version) ∷ events) watching false left =
      (inr tt, (left_signature events true false left).1)
  left_signature (from_watcher (dispute_ack id) ∷ events) watching is_funded left =
      left_signature events watching is_funded left
  left_signature (from_watcher (dispute_notification id) ∷ events) watching is_funded left =
      left_signature events watching is_funded left
  left_signature (from_funder (funded id) ∷ events) true is_funded left = (inl refl, inr tt)
  left_signature (from_funder (funded id) ∷ events) false is_funded left =
      ((left_signature events false true left).0, inr tt)
  left_signature (from_participant msg ∷ events) watching is_funded left =
      left_signature events watching is_funded (
        subst (λ s. phase (run x events s) ≢ Phase.signature)
          (participant-signed msg watching is_funded) left)

  -- A channel that has just been signed by all, and is in another phase after any events, was
  -- acknowledged by the watcher and funded by the funder among them.
  pub run-IsFunded :
      (events : List Event)
      → phase (run x events (signed ch false false)) ≢ Phase.signature
      → IsWatched events × IsFunded events
  run-IsFunded events left = (given both.0, given both.1)
    where
      given : {A : Type 0} → (false ≡ true) ⊎ A → A
      given (inl e) = absurd (ground arith)
      given (inr a) = a

      both : ((false ≡ true) ⊎ IsWatched events) × ((false ≡ true) ⊎ IsFunded events)
      both = left_signature events false false left
