-- ===== src/Channel/Update/Laws.antt =====
-- `apply` of src/channel/channel_update.rs, and the checks it does.
use fork_perun_rs.Base.{
  map, suc, ℕ, ◌≡◌, ◌≢◌, ◌∙◌, refl, ap, sym, List, [], ◌∷◌, Option, none, some, ok, inl, inr,
  bytes_eq_iff, arith, ◌+◌, ◌%◌, ==_iff,
}
use fork_perun_rs.Base.Inversion.{
  guarded-ok, bind-ok, map_err-ok, not-false, Outcome-cases, ok-injective,
}
use fork_perun_rs.Effects.Inversion as Act
use fork_perun_rs.Effects.{resume}
use fork_perun_rs.Types.{Signature}
use fork_perun_rs.Payment.{u64_bound}
use fork_perun_rs.Messages.{watch_request}
use fork_perun_rs.Bus.{Sent, to_watcher}
use fork_perun_rs.Channel.Types.{ActiveChannel, ChannelUpdate}
use fork_perun_rs.Channel.Active.{
  force_update, force_update_end, send_current_state_to_watcher, watch_info,
}
use fork_perun_rs.Channel.Update.{ensure_valid_channel, signatures, apply, collect_from}

-- The update is the next one of the channel.
pub record IsNextOf (u : ChannelUpdate) (ch : ActiveChannel) : Type 0 where
  pub next_version : u.new_state.version ≡ (ch.state.version + 1) % u64_bound
  pub same_channel : u.channel_id ≡ ch.state.id

pub ensure_valid_channel-ok :
    (u : ChannelUpdate) (ch : ActiveChannel) → ensure_valid_channel u ch ≡ ok tt → IsNextOf u ch
unfolding ensure_valid_channel
ensure_valid_channel-ok u ch h =
    let (version, h1) = guarded-ok _ _ _ h in
    let (id, _) = guarded-ok _ _ _ h1 in
    record {
      next_version = (==_iff _ _).0 (not-false _ version);
      same_channel = (bytes_eq_iff _ _).0 (not-false _ id);
    }

pub ok-ensure_valid_channel :
    (u : ChannelUpdate) (ch : ActiveChannel) → IsNextOf u ch → ensure_valid_channel u ch ≡ ok tt
unfolding ensure_valid_channel
ok-ensure_valid_channel u ch next =
    rw ((==_iff u.new_state.version ((ch.state.version + 1) % u64_bound)).1 next.next_version)
      (rw ((bytes_eq_iff u.channel_id ch.state.id).1 next.same_channel))

-- All slots are filled with these signatures.
pub collect_from-ok :
    (i : ℕ) (slots : List (Option Signature)) (sigs : List Signature)
    → collect_from i slots ≡ ok sigs
    → slots ≡ map some sigs
unfolding collect_from
collect_from-ok i [] sigs h = ap (map some) (ok-injective _ _ h)
collect_from-ok i (none ∷ slots) sigs h = absurd (ground arith)
collect_from-ok i (some s ∷ slots) sigs h =
    let (rest, e, h1) = bind-ok _ _ h in
    ap (◌∷◌ (some s)) (collect_from-ok (suc i) slots rest e) ∙ ap (map some) (ok-injective _ _ h1)

ok-collect_from : (i : ℕ) (sigs : List Signature) → collect_from i (map some sigs) ≡ ok sigs
unfolding collect_from
ok-collect_from i [] = refl
ok-collect_from i (s ∷ sigs) = rw (ok-collect_from (suc i) sigs)

-- If `apply` succeeds, the update is the channel's next one and every slot is filled; the channel
-- has the new state with these signatures and is otherwise as before, and the watcher was told.
pub apply-ok :
    (u : ChannelUpdate) (ch : ActiveChannel) {ch' : ActiveChannel} {sent : List Sent}
    → apply u ch ≡ (ch', ok tt, sent)
    → IsNextOf u ch
      × ((sigs : List Signature) × (u.signatures ≡ map some sigs)
          × (ch' ≡ record ch { state = u.new_state; signatures = sigs }))
      × (sent ≡ to_watcher (watch_request (watch_info ch')) ∷ [])
unfolding apply resume force_update force_update_end send_current_state_to_watcher signatures
apply-ok u ch h =
    let (_, e1, h1) = Act.lift-ok _ _ h in
    let (sigs, e2, h2) = Act.lift-ok _ _ h1 in
    (
      ensure_valid_channel-ok u ch (map_err-ok _ _ e1),
      (sigs, collect_from-ok 0 u.signatures sigs e2, ap (λ r. r.0) (sym h2)),
      ap (λ r. r.2) (sym h2)
          ∙ ap (λ c. to_watcher (watch_request (watch_info c)) ∷ []) (ap (λ r. r.0) h2),
    )

-- When `apply` does not succeed, the channel is as before and nothing was sent.
pub apply-unchanged :
    (u : ChannelUpdate) (ch : ActiveChannel)
    → (apply u ch).1 ≢ ok tt
    → ((apply u ch).0 ≡ ch) × ((apply u ch).2 ≡ [])
unfolding apply resume force_update force_update_end send_current_state_to_watcher signatures
apply-unchanged u ch fails = elim (Outcome-cases (ensure_valid_channel u ch)) [
  | inl (_, v) ↦ (elim (Outcome-cases (collect_from 0 u.signatures)) [
    | inl (sigs, e) ↦ absurd (fails (rw v (rw e)))
    | inr (inl (_, e)) ↦ rw v (rw e (refl, refl))
    | inr (inr e) ↦ rw v (rw e (refl, refl))
  ])
  | inr (inl (_, v)) ↦ rw v (refl, refl)
  | inr (inr v) ↦ rw v (refl, refl)
]

-- An update is applied when it is the channel's next one and every participant has signed it.
pub ok-apply :
    (u : ChannelUpdate) (ch : ActiveChannel) (sigs : List Signature)
    → IsNextOf u ch
    → u.signatures ≡ map some sigs
    → apply u ch ≡ (
      record ch { state = u.new_state; signatures = sigs },
      ok tt,
      to_watcher (watch_request (watch_info (record ch { state = u.new_state; signatures = sigs })))
          ∷ [],
    )
unfolding apply resume force_update force_update_end send_current_state_to_watcher signatures
ok-apply u ch sigs next full =
    rw (ok-ensure_valid_channel u ch next) (rw full (rw (ok-collect_from 0 sigs)))
