-- ===== src/Channel/Active/Laws.antt =====
-- `update` and `handle_update` of src/channel/active.rs.
use fork_perun_rs.Base.{
  ℕ, ◌≡◌, ◌<◌, ltb, lt→ltb, ltb→lt, Bool-cases, inl, inr, ◌∙◌, refl, ap, sym, subst, List, [], ◌∷◌,
  ◌++◌, none, some, ok, get_elem?, bytes_eq_iff, set, map,
}
use mathlib.Core.List.{append-nil}
use fork_perun_rs.Base.Inversion.{ok-injective, ok≢panic, map_err-ok, unwrap-ok, not-false}
use fork_perun_rs.Effects.Inversion as Act
use fork_perun_rs.Effects.{resume}
use fork_perun_rs.Sig.Roundtrip.{recover_signer-signed}
use fork_perun_rs.External.{External, IsLawful}
use fork_perun_rs.Types.{Hash, Address, Signature, to_hash}
use fork_perun_rs.Sig.{sign_eth, recover_signer, address_from}
use fork_perun_rs.Payment.{State, state_value}
use fork_perun_rs.Messages.{Identity, LedgerChannelUpdate, channel_update}
use fork_perun_rs.Bus.{Sent, to_participant, broadcast}
use fork_perun_rs.Bus.Laws.{others, broadcast-others}
use fork_perun_rs.Channel.Errors.{ProposeUpdateError, HandleUpdateError}
use fork_perun_rs.Channel.Types.{ActiveChannel, ChannelUpdate, assign, new_update}
use fork_perun_rs.Channel.Transition.Laws.{
  IsValidTransition, check_valid_transition-ok, ok-check_valid_transition,
}
use fork_perun_rs.Channel.Active.{update, handle_update}

-- The signature is recovered to the address.
unfoldable pub IsSignatureOf : External → Address → State → Signature → Type 0
IsSignatureOf x addr state sig =
    (hash : Hash) × (to_hash x (state_value x state) ≡ ok hash)
    × (recover_signer x hash sig ≡ ok addr)

-- A new update holds one signature, and there is a slot for it.
pub new_update-ok {ℓ} :
    {E : Type ℓ} (ch : ActiveChannel) (new : State) (i : ℕ) (sig : Signature) {u : ChannelUpdate}
    → new_update {E = E} ch new i sig ≡ ok u
    → (i < 2)
      × (record {
        channel_id = ch.state.id;
        new_state = new;
        signatures = set (none ∷ none ∷ []) i (some sig);
      }
          ≡ u)
unfolding new_update assign
new_update-ok ch new i sig h = elim (Bool-cases (ltb i 2)) [
  | inl y ↦ (ltb→lt i 2 y, ok-injective _ _ (sym (rw y) ∙ h))
  | inr n ↦ absurd (ok≢panic _ (sym h ∙ rw n))
]

pub ok-new_update {ℓ} :
    {E : Type ℓ} (ch : ActiveChannel) (new : State) (i : ℕ) (sig : Signature)
    → i < 2
    → new_update {E = E} ch new i sig
      ≡ ok (record {
        channel_id = ch.state.id;
        new_state = new;
        signatures = set (none ∷ none ∷ []) i (some sig);
      })
unfolding new_update assign
ok-new_update ch new i sig h = rw (lt→ltb i 2 h)

new_update-agreeing {ℓ κ} :
    {E : Type ℓ} {F : Type κ} (a b : ActiveChannel) (new : State) (i : ℕ) (sig : Signature)
    {u : ChannelUpdate}
    → a.state ≡ b.state
    → new_update {E = E} a new i sig ≡ ok u
    → new_update {E = F} b new i sig ≡ ok u
new_update-agreeing a b new i sig same h =
    let (bound, e) = new_update-ok a new i sig h in
    ok-new_update b new i sig bound
    ∙ ap
        (λ (s : State). ok (record {
          channel_id = s.id;
          new_state = new;
          signatures = set (none ∷ none ∷ []) i (some sig);
        }))
        (sym same)
    ∙ ap ok e

-- If `handle_update` returns an update, the transition is valid, the signature is recovered to
-- the actor among the participants, nothing was sent, and the update holds that signature only.
pub handle_update-ok :
    {S : Type 0} (s : S) {t : S} (x : External) (ch : ActiveChannel) {u : ChannelUpdate}
    {sent : List Sent} (msg : LedgerChannelUpdate)
    → handle_update x ch msg s ≡ (t, ok u, sent)
    → IsValidTransition x ch.state msg.state
      × ((actor : Address) × (get_elem? ch.params.participants msg.actor_idx ≡ some actor)
          × IsSignatureOf x actor msg.state msg.sig)
      × (new_update {E = HandleUpdateError} ch msg.state msg.actor_idx msg.sig ≡ ok u)
      × (sent ≡ [])
unfolding handle_update IsSignatureOf
handle_update-ok s x ch msg h =
    let (_, e1, h1) = Act.lift-ok _ _ h in
    let (hash, e2, h2) = Act.lift-ok _ _ h1 in
    let (signer, e3, h3) = Act.lift-ok _ _ h2 in
    let (participant, e4, h4) = Act.lift-ok _ _ h3 in
    let (same, h5) = Act.guarded-ok _ _ _ h4 in
    let (e6, _, silent) = Act.lift_end-ok _ h5 in
    (
      check_valid_transition-ok x ch msg.state (map_err-ok _ _ e1),
      (
        participant,
        unwrap-ok _ e4,
        (
          hash,
          map_err-ok _ _ e2,
          map_err-ok _ _ e3 ∙ ap ok (sym ((bytes_eq_iff participant signer).0 (not-false _ same))),
        ),
      ),
      e6,
      silent,
    )

-- The steps of an `update` that returns an update.
pub steps-update :
    {S : Type 0} (s : S) {t : S} (x : External) (ch : ActiveChannel) {u : ChannelUpdate}
    {sent : List Sent} (new : State)
    → update x ch new s ≡ (t, ok u, sent)
    → IsValidTransition x ch.state new
      × (hash : Hash) × (sig : Signature) × (to_hash x (state_value x new) ≡ ok hash)
      × (sign_eth {E = ProposeUpdateError} x ch.client.signer hash ≡ ok sig)
      × (broadcast {E = ProposeUpdateError} ch.part_idx ch.peers
            (channel_update (record { state = new; actor_idx = ch.part_idx; sig = sig }))
          ≡ ok sent)
      × (new_update {E = ProposeUpdateError} ch new ch.part_idx sig ≡ ok u)
unfolding update
steps-update s x ch new h =
    let (_, e1, h1) = Act.lift-ok _ _ h in
    let (hash, e2, h2) = Act.lift-ok _ _ h1 in
    let (sig, e3, h3) = Act.lift-ok _ _ h2 in
    let (ms, more, e4, h4, e5) = Act.send_all-ok _ _ h3 in
    let (e6, _, e7) = Act.lift_end-ok _ h4 in
    (
      check_valid_transition-ok x ch new (map_err-ok _ _ e1),
      hash,
      sig,
      map_err-ok _ _ e2,
      e3,
      e4 ∙ ap ok (sym (e5 ∙ ap (◌++◌ ms) e7 ∙ append-nil ms)),
      e6,
    )

-- For lawful crates, if `update` returns an update: the transition is valid; there is one signature,
-- which is recovered to the address of the channel's own key; every peer but the channel's own
-- participant, in order, was sent one message with the new state and that signature, and nothing else
-- was sent; and the update is that of the new state, with this signature in the own slot only.
pub update-ok :
    {S : Type 0} (s : S) {t : S} (x : External) (ch : ActiveChannel) {u : ChannelUpdate}
    {sent : List Sent} (new : State)
    → IsLawful x
    → update x ch new s ≡ (t, ok u, sent)
    → IsValidTransition x ch.state new
      × (sig : Signature) × (sender : Identity) × IsSignatureOf x
          (address_from x (x.verifying_key ch.client.signer.key))
          new
          sig
      × (get_elem? ch.peers ch.part_idx ≡ some sender)
      × (sent
          ≡ map
              (λ peer.
                to_participant sender peer
                  (channel_update (record { state = new; actor_idx = ch.part_idx; sig = sig })))
              (others ch.part_idx ch.peers))
      × (ch.part_idx < 2)
      × (u ≡ record {
        channel_id = ch.state.id;
        new_state = new;
        signatures = set (none ∷ none ∷ []) ch.part_idx (some sig);
      })
unfolding IsSignatureOf
update-ok s x ch {sent = sent} new lawful h =
    let (valid, hash, sig, hashed, signed, sends, e) = steps-update s x ch new h in
    let (sender, known, messages) =
      broadcast-others {E = ProposeUpdateError} ch.part_idx ch.peers
        (channel_update (record { state = new; actor_idx = ch.part_idx; sig = sig })) sent sends in
    let (bound, made) = new_update-ok ch new ch.part_idx sig e in
    (
      valid,
      sig,
      sender,
      (hash, hashed, recover_signer-signed x ch.client.signer hash sig lawful signed),
      known,
      messages,
      bound,
      sym made,
    )

-- For lawful crates: an update that one participant proposes, the other accepts as valid, if they
-- agree on the current state and on the proposer's address. Both then hold the same update.
pub handle_update-update :
    {S T : Type 0} (s : S) {t : S} (s' : T) (x : External) (a b : ActiveChannel) {u : ChannelUpdate}
    {sent : List Sent} (new : State)
    → IsLawful x
    → a.state ≡ b.state
    → get_elem? b.params.participants a.part_idx
      ≡ some (address_from x (x.verifying_key a.client.signer.key))
    → update x a new s ≡ (t, ok u, sent)
    → (msg : LedgerChannelUpdate) × (broadcast {E = ProposeUpdateError} a.part_idx a.peers
          (channel_update msg)
        ≡ ok sent)
      × (handle_update x b msg s' ≡ (s', ok u, []))
unfolding handle_update resume
handle_update-update s s' x a b new lawful same known h =
    let (valid, hash, sig, e2, e3, sends, e4) = steps-update s x a new h in
    (
      record { state = new; actor_idx = a.part_idx; sig = sig },
      sends,
      rw (ok-check_valid_transition x b new (subst (λ old. IsValidTransition x old new) same valid))
          (rw e2 (
            rw (recover_signer-signed x a.client.signer hash sig lawful e3) (
              rw known (
                rw ((bytes_eq_iff signer signer).1 refl)
                  (rw (new_update-agreeing a b new a.part_idx sig same e4)))))),
    )
  where
    signer : Address
    signer = address_from x (x.verifying_key a.client.signer.key)
