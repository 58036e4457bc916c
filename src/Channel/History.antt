-- ===== src/Channel/History.antt =====
-- The history of an open channel (src/channel/active.rs, channel_update.rs): the updates that it
-- proposed or received and then applied, whatever signatures were added in between.
use fork_perun_rs.Base.{ℕ, suc, ◌+◌, ◌%◌, ◌≡◌, ◌∙◌, refl, ap, sym, subst, List, ok, map, arith}
use fork_perun_rs.External.{External, IsLawful}
use fork_perun_rs.Payment.{State, u64_bound}
use fork_perun_rs.Payment.Totals.{sum}
use fork_perun_rs.Messages.{LedgerChannelUpdate}
use fork_perun_rs.Bus.{Sent}
use fork_perun_rs.Channel.Types.{ActiveChannel, ChannelUpdate}
use fork_perun_rs.Channel.Transition.Laws.{IsValidTransition, totals-kept}
use fork_perun_rs.Channel.Active.{update, handle_update}
use fork_perun_rs.Channel.Active.Laws.{new_update-ok, steps-update, handle_update-ok}
use fork_perun_rs.Channel.Update.{apply}
use fork_perun_rs.Channel.Update.Laws.{apply-ok}

-- An update that was made from a channel, by either side.
pub data IsMade (x : External) (ch : ActiveChannel) : ChannelUpdate → Type 0 where
  proposed :
      {u : ChannelUpdate} (new : State) (sent : List Sent)
      → update x ch new tt ≡ (tt, ok u, sent)
      → IsMade x ch u
  received :
      {u : ChannelUpdate} (msg : LedgerChannelUpdate) (sent : List Sent)
      → handle_update x ch msg tt ≡ (tt, ok u, sent)
      → IsMade x ch u

-- The channel after such an update, with other signatures, was applied.
pub data IsStep (x : External) (ch : ActiveChannel) : ActiveChannel → Type 0 where
  applied :
      {ch' : ActiveChannel} (u u' : ChannelUpdate) (sent : List Sent)
      → IsMade x ch u
      → u'.new_state ≡ u.new_state
      → apply u' ch ≡ (ch', ok tt, sent)
      → IsStep x ch ch'

-- The number of updates stands in the index.
pub data IsHistory (x : External) (ch : ActiveChannel) : ℕ → ActiveChannel → Type 0 where
  opened : IsHistory x ch 0 ch
  continued :
      {n : ℕ} {mid last : ActiveChannel}
      → IsHistory x ch n mid
      → IsStep x mid last
      → IsHistory x ch (suc n) last

made-IsValid :
    (x : External) (ch : ActiveChannel) {u : ChannelUpdate}
    → IsMade x ch u
    → (new : State) × (u.new_state ≡ new) × IsValidTransition x ch.state new
made-IsValid x ch (proposed new sent h) =
    let (valid, _, sig, _, _, _, e) = steps-update tt x ch new h in
    (new, ap (λ (u : ChannelUpdate). u.new_state) (sym (new_update-ok ch new _ sig e).1), valid)
made-IsValid x ch (received msg sent h) =
    let (valid, _, e, _) = handle_update-ok tt x ch msg h in
    (
      msg.state,
      ap (λ (u : ChannelUpdate). u.new_state) (sym (new_update-ok ch msg.state _ msg.sig e).1),
      valid,
    )

step-IsValid :
    (x : External) (ch : ActiveChannel) {ch' : ActiveChannel}
    → IsStep x ch ch'
    → IsValidTransition x ch.state ch'.state × (ch'.params ≡ ch.params)
step-IsValid x ch (applied u u' sent made same h) =
    let (new, e, valid) = made-IsValid x ch made in
    let (_, (sigs, _, changed), _) = apply-ok u' ch h in
    (
      subst (IsValidTransition x ch.state)
          (sym (ap (λ (c : ActiveChannel). c.state) changed ∙ same ∙ e)) valid,
      ap (λ (c : ActiveChannel). c.params) changed,
    )

-- Under lawful integers, after any number of updates that were proposed or received and applied, a
-- channel has the parameters, the id and the total of each asset that it had, and its version has
-- grown by the number of updates, modulo 2^64.
pub sum-IsHistory :
    (x : External) (ch : ActiveChannel) (n : ℕ) (last : ActiveChannel)
    → IsLawful x
    → IsHistory x ch n last
    → (last.params ≡ ch.params)
      × (last.state.id ≡ ch.state.id)
      × (map sum last.state.outcome.balances ≡ map sum ch.state.outcome.balances)
      × (last.state.version % u64_bound ≡ (ch.state.version + n) % u64_bound)
sum-IsHistory x ch _ _ lawful opened =
    (refl, refl, refl, ap (λ (v : ℕ). v % u64_bound) (omega arith))
sum-IsHistory x ch _ last lawful (continued {n = n} {mid = mid} before step) =
    let (params, id, sums, version) = sum-IsHistory x ch n mid lawful before in
    let (valid, kept) = step-IsValid x mid step in
    let (totals, _) = totals-kept x mid.state last.state lawful valid in
    (kept ∙ params, valid.same_id ∙ id, totals ∙ sums, omega (arith, version, valid.next_version))
