-- ===== src/Demo/Channel/Round.antt =====
-- A round of an update between two demo channels (cortex-m-demo/src/channel.rs): what the one
-- proposes, the other accepts, and both end in the new state.
use fork_perun_rs.Base.{
  ◌≡◌, ◌∙◌, ap, sym, subst, Bool-cases, inl, inr, List, [], ◌∷◌, ◌++◌, some, none, Outcome, ok,
  if◌then◌else◌,
}
use fork_perun_rs.External.{External, IsLawful}
use fork_perun_rs.Types.{Signature}
use fork_perun_rs.Payment.{State}
use fork_perun_rs.Payment.Laws.{IsShaped}
use fork_perun_rs.Messages.{
  Identity, LedgerChannelUpdateAccepted, channel_update, channel_update_accepted,
}
use fork_perun_rs.Bus.{Sent, to_participant}
use fork_perun_rs.Channel.Types.{ActiveChannel, ChannelUpdate}
use fork_perun_rs.Channel.Transition.Laws.{IsValidTransition}
use fork_perun_rs.Channel.Active as Active
use fork_perun_rs.Channel.Active.Laws.{steps-update, new_update-ok}
use fork_perun_rs.Channel.Update as Update
use fork_perun_rs.Channel.Exchange.{acceptance}
use fork_perun_rs.Channel.Round.{IsPair, told_watcher, apply-round}
use fork_perun_rs.Demo.Channel.{
  ChannelInner, Error, keep, active, closing, other_idx, updated, attempt, settle, progress,
}
use fork_perun_rs.Demo.Channel.Process.{
  on_update, on_update_accepted, participant_progress, process_participant_msg,
}

-- The channel in a new state: it closes if the state is final.
unfoldable pub in_state : ActiveChannel → State → List Signature → ChannelInner
in_state ch new sigs =
    if new.is_final
    then closing (record ch { state = new; signatures = sigs })
    else active (record ch { state = new; signatures = sigs }) none

-- The one proposes and sends one message to the other, which takes that message; what the other sends
-- to it is the acceptance that the one takes; and each tells its watcher.
pub record IsDemoRound (x : External) (a b : ActiveChannel) (new : State) : Type 0 where
  pub name_a : Identity
  pub name_b : Identity
  pub named_a : a.peers ≡ name_a ∷ name_b ∷ []
  pub named_b : b.peers ≡ name_a ∷ name_b ∷ []
  pub pending : ChannelUpdate
  pub sig_a : Signature
  pub sig_b : Signature
  pub proposes : Active.update x a new tt ≡ (
    tt,
    ok pending,
    to_participant name_a name_b
          (channel_update (record { state = new; actor_idx = 0; sig = sig_a }))
        ∷ [],
  )
  pub takes_update :
      process_participant_msg x
        (channel_update (record { state = new; actor_idx = 0; sig = sig_a }))
        (active b none)
      ≡ (
        in_state b new (sig_a ∷ sig_b ∷ []),
        ok tt,
        to_participant name_b name_a (channel_update_accepted (acceptance pending sig_b))
            ∷ told_watcher b new (sig_a ∷ sig_b ∷ []),
      )
  pub takes_acceptance :
      process_participant_msg x
        (channel_update_accepted (acceptance pending sig_b))
        (active a (some pending))
      ≡ (in_state a new (sig_a ∷ sig_b ∷ []), ok tt, told_watcher a new (sig_a ∷ sig_b ∷ []))

module _ (x : External) (a b : ActiveChannel) (new : State) where
  proposed-new_state :
      {u : ChannelUpdate} {sent : List Sent}
      → Active.update x a new tt ≡ (tt, ok u, sent)
      → u.new_state ≡ new
  proposed-new_state h =
      let (_, _, sig, _, _, _, e) = steps-update tt x a new h in
      ap (λ (u : ChannelUpdate). u.new_state) (sym (new_update-ok a new _ sig e).1)

  updated-in_state :
      (ch : ActiveChannel) (sigs : List Signature) (around : List Sent → List Sent)
      → ◌≡◌ {A = ChannelInner × Outcome Error (Unit {0}) × List Sent}
          (settle (
            (if new.is_final
                then keep (closing (record ch { state = new; signatures = sigs }))
                else keep (active (record ch { state = new; signatures = sigs }) none)).0,
            around (
                (if new.is_final
                  then keep (closing (record ch { state = new; signatures = sigs }))
                  else keep (active (record ch { state = new; signatures = sigs }) none)).1),
          ))
          (in_state ch new sigs, ok tt, around [])
  unfolding settle in_state
  updated-in_state ch sigs around = elim (Bool-cases new.is_final) [ inl y ↦ rw y | inr n ↦ rw n ]

  -- For lawful crates, the two sides of a channel and a valid transition: the one proposes the new
  -- state and sends one message, to the other; the other takes that message and accepts, and what it
  -- sends to the one is the acceptance; the one takes that acceptance and applies the update. Neither
  -- gives an error, both tell their watchers, and both end in the new state with the same signatures:
  -- closing if it is final, and open with no update that waits if not.
  pub process_participant_msg-round :
      IsLawful x
      → IsShaped new
      → IsPair x a b
      → IsValidTransition x a.state new
      → IsDemoRound x a b new
  unfolding process_participant_msg progress participant_progress on_update on_update_accepted
      attempt settle updated in_state
  process_participant_msg-round lawful shaped pair valid =
      let r = apply-round x a b new lawful shaped pair valid in
      let final : r.update_b.new_state ≡ new = r.completed ∙ proposed-new_state r.proposes in
      let acc : LedgerChannelUpdateAccepted = acceptance r.update_a r.sig_b in
      let sigs : List Signature = r.sig_a ∷ r.sig_b ∷ [] in
      let collected : Update.participant_accepted x a (other_idx a.part_idx) acc r.update_a
          ≡ (r.update_b, ok tt, []) =
        subst (λ i. Update.participant_accepted x a i acc r.update_a ≡ (r.update_b, ok tt, []))
          (sym (ap other_idx pair.first)) r.collects in
      record {
        name_a = r.name_a;
        name_b = r.name_b;
        named_a = r.named_a;
        named_b = r.named_b;
        pending = r.update_a;
        sig_a = r.sig_a;
        sig_b = r.sig_b;
        proposes = r.proposes ∙ ap (λ sent. (tt, ok r.update_a, sent)) r.one_proposal;
        takes_update =
            rw r.handles (
              rw r.accepts (
                rw r.applied_b (
                  rw final (
                    updated-in_state b _ (λ rest. r.sent_b ++ (told_watcher b new sigs ++ rest))))))
            ∙ ap (λ sent. (in_state b new sigs, ok tt, sent ++ told_watcher b new sigs))
                r.one_acceptance;
        takes_acceptance = rw collected (
            rw r.applied_a
              (rw final (updated-in_state a _ (λ rest. told_watcher a new sigs ++ rest))));
      }
