-- ===== src/Demo/Channel/Laws.antt =====
-- How the channel of cortex-m-demo/src/channel.rs changes its phase.
use fork_perun_rs.Base.{ℕ, ◌≡◌, refl, Bool, List, Option, Outcome, ok, err, panic}
use fork_perun_rs.External.{External}
use fork_perun_rs.Messages.{WatcherReplyMessage, FunderReplyMessage, ParticipantMessage}
use fork_perun_rs.Bus.{Sent}
use fork_perun_rs.Payment.{State}
use fork_perun_rs.Channel.Errors.{ProposeUpdateError}
use fork_perun_rs.Channel.Types.{ActiveChannel, ChannelUpdate}
use fork_perun_rs.Channel.Active as Active
use fork_perun_rs.Demo.Channel.{
  ChannelInner, active, temporary_invalid_state, Error, Progress, settle, progress, update,
  propose_moved, propose, moved_state, force_close, force_close_progress, process_watcher_reply,
  watcher_progress, process_funder_reply, funder_progress,
}
use fork_perun_rs.Demo.Channel.Process.{process_participant_msg, participant_progress}
use fork_perun_rs.Demo.Channel.Following.{
  IsFollowing, force_close_progress-IsFollowing, funder_progress-IsFollowing,
  watcher_progress-IsFollowing, participant_progress-IsFollowing,
}
use fork_perun_rs.Demo.Channel.Phase.{Phase, phase, Next, stays}

-- What the application may ask of a channel.
pub data Event : Type 0 where
  asks_update : ℕ → Bool → Event
  asks_force_close : Event
  from_watcher : WatcherReplyMessage → Event
  from_funder : FunderReplyMessage → Event
  from_participant : ParticipantMessage → Event

unfoldable pub handle :
    External → Event → ChannelInner → ChannelInner × Outcome Error (Unit {0}) × List Sent
handle x (asks_update amount is_final) = update x amount is_final
handle x asks_force_close = force_close
handle x (from_watcher msg) = process_watcher_reply msg
handle x (from_funder msg) = process_funder_reply msg
handle x (from_participant msg) = process_participant_msg x msg

-- What a handler gives: a phase that follows the phase p, and p itself with an error.
abbrev pub IsStep : Phase → ChannelInner × Outcome Error (Unit {0}) × List Sent → Type 0
IsStep p (ch, ok _, _) = Next p (phase ch)
IsStep p (ch, err _, _) = phase ch ≡ p
IsStep p (ch, panic, _) = Unit

settle-IsStep : (p : Phase) (r : Progress) → IsFollowing p r → IsStep p (settle r)
unfolding settle IsFollowing
settle-IsStep p (ok ch, sent) h = h
settle-IsStep p (err (ch, e), sent) h = h
settle-IsStep p (panic, sent) h = tt

propose-IsStep :
    (ch : ActiveChannel) (pending : Option ChannelUpdate)
    (r : Unit {0} × Outcome ProposeUpdateError ChannelUpdate × List Sent)
    → IsStep Phase.activity (propose ch pending r)
unfolding propose phase
propose-IsStep ch pending (_, ok u, sent) = stays
propose-IsStep ch pending (_, err e, sent) = refl
propose-IsStep ch pending (_, panic, sent) = tt

module _ (x : External) where
  propose_moved-IsStep :
      (ch : ActiveChannel) (pending : Option ChannelUpdate) (r : Outcome Error State)
      → IsStep Phase.activity (propose_moved x ch pending r)
  unfolding propose_moved phase
  propose_moved-IsStep ch pending (ok new_state) =
      propose-IsStep ch pending (Active.update x ch new_state tt)
  propose_moved-IsStep ch pending (err e) = refl
  propose_moved-IsStep ch pending panic = tt

  update-IsStep :
      (amount : ℕ) (is_final : Bool) (inner : ChannelInner)
      → IsStep (phase inner) (update x amount is_final inner)
  unfolding update phase
  update-IsStep amount is_final (active ch pending) =
      propose_moved-IsStep ch pending (moved_state x ch amount is_final)
  update-IsStep amount is_final temporary_invalid_state = tt
  update-IsStep amount is_final inner = refl

  -- Whatever a channel is asked or told: if it answers with no error, its phase stays or is one that
  -- the state machine has next; with an error, its phase stays.
  pub handle-IsStep :
      (event : Event) (inner : ChannelInner) → IsStep (phase inner) (handle x event inner)
  unfolding handle force_close process_watcher_reply process_funder_reply process_participant_msg
      progress
  handle-IsStep (asks_update amount is_final) inner = update-IsStep amount is_final inner
  handle-IsStep asks_force_close inner =
      settle-IsStep (phase inner) (force_close_progress inner)
        (force_close_progress-IsFollowing inner)
  handle-IsStep (from_watcher msg) inner =
      settle-IsStep (phase inner) (watcher_progress msg inner)
        (watcher_progress-IsFollowing msg inner)
  handle-IsStep (from_funder msg) inner =
      settle-IsStep (phase inner) (funder_progress msg inner)
        (funder_progress-IsFollowing msg inner)
  handle-IsStep (from_participant msg) inner =
      settle-IsStep (phase inner) (participant_progress x msg inner)
        (participant_progress-IsFollowing x msg inner)
