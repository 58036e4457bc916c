-- ===== src/Demo/Channel.antt =====
-- cortex-m-demo/src/channel.rs: the whole life of a channel as one state machine.
pub mod Process
pub mod Phase
pub mod Following
pub mod Laws
pub mod Opening
pub mod Round
pub mod Establishing
pub mod Moved
use fork_perun_rs.Base.{
  ℕ, ◌+◌, ◌-◌, ◌%◌, ◌^◌, Bool, true, false, List, [], ◌∷◌, ◌++◌, Option, none, some, Outcome, ok,
  err, panic, ◌>>=◌, unwrap, get_elem?, set, ltb, if◌then◌else◌, map_err,
}
use fork_perun_rs.Base
use fork_perun_rs.Effects
use fork_perun_rs.External.{External}
use fork_perun_rs.Types.{Bytes}
use fork_perun_rs.Payment.{State, Balances, u64_bound, make_next_state}
use fork_perun_rs.Messages.{
  LedgerChannelProposalAcc, LedgerChannelUpdate, LedgerChannelUpdateAccepted, WatcherReplyMessage,
  ack, dispute_ack, dispute_notification, FunderReplyMessage, funded, ParticipantMessage,
  proposal_accepted, proposal_rejected, channel_update, channel_update_accepted,
  channel_update_rejected,
}
use fork_perun_rs.Bus.{Sent, Method}
use fork_perun_rs.Channel.Errors.{
  HandleAcceptError, ProposalBuildError, SignError, AddSignatureError, BuildError,
  ProposeUpdateError, HandleUpdateError, AcceptError, ApplyError,
}
use fork_perun_rs.Channel.Types.{ActiveChannel, ChannelUpdate}
use fork_perun_rs.Channel.Proposal.{ProposedChannel}
use fork_perun_rs.Channel.Proposal as Proposal
use fork_perun_rs.Channel.AgreedUpon.{AgreedUponChannel, SignedChannel, mark_funded}
use fork_perun_rs.Channel.AgreedUpon as AgreedUpon
use fork_perun_rs.Channel.Active as Active
use fork_perun_rs.Channel.Update as Update

pub data ChannelInner : Type 0 where
  proposed : ProposedChannel → ChannelInner
  agreed_upon : AgreedUponChannel → ChannelInner
  -- Whether it is watched, and whether it is funded.
  signed : SignedChannel → Bool → Bool → ChannelInner
  -- With an update that we have proposed.
  active : ActiveChannel → Option ChannelUpdate → ChannelInner
  temporary_invalid_state : ChannelInner
  closing : ActiveChannel → ChannelInner
  force_closing closed : ChannelInner

-- `From` of each error is its constructor.
pub data Error : Type 0 where
  invalid_state : Error
  handle_accept : HandleAcceptError → Error
  rejected : Bytes → Error
  proposal_build : ProposalBuildError → Error
  signing : SignError → Error
  add_signature : AddSignatureError → Error
  build : BuildError → Error
  propose_update : ProposeUpdateError → Error
  handle_update : HandleUpdateError → Error
  accept : AcceptError → Error
  apply_update : ApplyError → Error
  not_enough_funds closed : Error

unfoldable pub is_closed : ChannelInner → Bool
is_closed ChannelInner.closed = true
is_closed _ = false

-- What a transition function of `progress` gives, and what was sent.
abbrev pub Progress : Type 0
Progress = Outcome (ChannelInner × Error) ChannelInner × List Sent

abbrev pub keep : ChannelInner → Progress
keep inner = (ok inner, [])

abbrev pub refuse : ChannelInner → Error → Progress
refuse inner e = (err (inner, e), [])

-- What `progress` writes back; a panic leaves the state that was swapped in.
unfoldable pub settle : Progress → ChannelInner × Outcome Error (Unit {0}) × List Sent
settle (ok ch, sent) = (ch, ok tt, sent)
settle (err (ch, e), sent) = (ch, err e, sent)
settle (panic, sent) = (temporary_invalid_state, panic, sent)

unfoldable pub progress : (ChannelInner → Progress) → Method ChannelInner Error (Unit {0})
unfolding settle
progress f inner = settle (f inner)

-- `match ch.method() { Ok(a) => …, Err(e) => return Err(…) }` in a transition function.
unfoldable pub attempt :
    {S E A : Type 0}
    → S × Outcome E A × List Sent
    → (S → E → ChannelInner × Error)
    → (S → A → Progress)
    → Progress
attempt (s, ok a, sent) failed go = ((go s a).0, sent ++ (go s a).1)
attempt (s, err e, sent) failed go = (err (failed s e), sent)
attempt (s, panic, sent) failed go = (panic, sent)

-- `match ch.method() { Ok(a) => …, Err(e) => unreachable!(…) }`
unfoldable pub certain :
    {S E A : Type 0} → S × Outcome E A × List Sent → (S → A → Progress) → Progress
certain (s, ok a, sent) go = ((go s a).0, sent ++ (go s a).1)
certain (s, err e, sent) go = (panic, sent)
certain (s, panic, sent) go = (panic, sent)

-- `1 - part_idx` on a `usize`, which wraps in a release build.
abbrev pub other_idx : ℕ → ℕ
other_idx part_idx = (u64_bound + 1 - part_idx) % u64_bound

-- `balances[0][1 - part_idx] += amount`, then `balances[0][part_idx] -= amount`.
unfoldable pub move_balance : {E : Type 0} → External → ℕ → ℕ → Balances → Outcome E Balances
move_balance x part_idx amount bals = do
  row ← unwrap (get_elem? bals 0)
  other ← unwrap (get_elem? row (other_idx part_idx))
  raised ← unwrap (x.u256_add other amount)
  let more = set row (other_idx part_idx) raised
  own ← unwrap (get_elem? more part_idx)
  lowered ← unwrap (x.u256_sub own amount)
  ok (set bals 0 (set more part_idx lowered))

-- The new state that `update` proposes.
unfoldable pub moved_state : External → ActiveChannel → ℕ → Bool → Outcome Error State
unfolding move_balance
moved_state x ch amount is_final = do
  let new_state = make_next_state ch.state
  row ← unwrap (get_elem? new_state.outcome.balances 0)
  second ← unwrap (get_elem? row 1)
  if ltb second amount then err not_enough_funds else do
    bals ← move_balance x ch.part_idx amount new_state.outcome.balances
    ok (record new_state {
      outcome = record { assets = new_state.outcome.assets; balances = bals };
      is_final = is_final;
    })

-- `ch.update(new_state)` inside of `update`.
unfoldable pub propose :
    ActiveChannel
    → Option ChannelUpdate
    → Unit {0} × Outcome ProposeUpdateError ChannelUpdate × List Sent
    → ChannelInner × Outcome Error (Unit {0}) × List Sent
propose ch pending (_, ok u, sent) = (active ch (some u), ok tt, sent)
propose ch pending (_, err e, sent) = (active ch pending, err (propose_update e), sent)
propose ch pending (_, panic, sent) = (active ch pending, panic, sent)

unfoldable pub propose_moved :
    External
    → ActiveChannel
    → Option ChannelUpdate
    → Outcome Error State
    → ChannelInner × Outcome Error (Unit {0}) × List Sent
unfolding propose
propose_moved x ch pending (ok new_state) = propose ch pending (Active.update x ch new_state tt)
propose_moved x ch pending (err e) = (active ch pending, err e, [])
propose_moved x ch pending panic = (active ch pending, panic, [])

unfoldable pub update : External → ℕ → Bool → Method ChannelInner Error (Unit {0})
unfolding propose_moved moved_state
update x amount is_final (active ch pending) =
    propose_moved x ch pending (moved_state x ch amount is_final)
update x amount is_final temporary_invalid_state = (temporary_invalid_state, panic, [])
update x amount is_final inner = (inner, err invalid_state, [])

unfoldable pub force_close_progress : ChannelInner → Progress
unfolding attempt
force_close_progress (active ch pending) =
    attempt (Active.force_close ch tt) (λ _ e. (active e.0 pending, signing e.1))
      (λ _ _. keep force_closing)
force_close_progress temporary_invalid_state = (panic, [])
force_close_progress inner = refuse inner invalid_state

unfoldable pub force_close : Method ChannelInner Error (Unit {0})
unfolding progress force_close_progress
force_close = progress force_close_progress

unfoldable pub watcher_progress : WatcherReplyMessage → ChannelInner → Progress
watcher_progress (ack _ _) (signed ch watching is_funded) =
    if is_funded then keep (active (mark_funded ch) none) else keep (signed ch true is_funded)
watcher_progress (ack _ _) (active ch pending) = keep (active ch pending)
watcher_progress (dispute_notification _) (active _ _) = keep ChannelInner.closed
watcher_progress (ack _ _) (closing _) = keep ChannelInner.closed
watcher_progress (dispute_notification _) (closing _) = keep ChannelInner.closed
watcher_progress (dispute_ack _) force_closing = keep ChannelInner.closed
watcher_progress (dispute_notification _) force_closing = keep force_closing
watcher_progress (dispute_notification _) ChannelInner.closed = keep ChannelInner.closed
watcher_progress _ force_closing = refuse force_closing Error.closed
watcher_progress _ temporary_invalid_state = (panic, [])
watcher_progress _ inner = refuse inner invalid_state

unfoldable pub process_watcher_reply : WatcherReplyMessage → Method ChannelInner Error (Unit {0})
unfolding progress watcher_progress
process_watcher_reply msg = progress (watcher_progress msg)

unfoldable pub funder_progress : FunderReplyMessage → ChannelInner → Progress
funder_progress (funded _) (signed ch watching _) =
    if watching then keep (active (mark_funded ch) none) else keep (signed ch watching true)
funder_progress _ (closing ch) = refuse (closing ch) Error.closed
funder_progress _ force_closing = refuse force_closing Error.closed
funder_progress _ ChannelInner.closed = refuse ChannelInner.closed Error.closed
funder_progress _ temporary_invalid_state = (panic, [])
funder_progress _ inner = refuse inner invalid_state

unfoldable pub process_funder_reply : FunderReplyMessage → Method ChannelInner Error (Unit {0})
unfolding progress funder_progress
process_funder_reply msg = progress (funder_progress msg)

-- The end of an update: the channel closes if the new state is final.
unfoldable pub updated : ChannelUpdate → ActiveChannel → Progress
updated u ch = if u.new_state.is_final then keep (closing ch) else keep (active ch none)
