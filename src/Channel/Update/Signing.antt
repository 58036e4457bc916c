-- ===== src/Channel/Update/Signing.antt =====
-- `accept` and `participant_accepted` of src/channel/channel_update.rs.
use fork_perun_rs.Base.{
  ℕ, ◌≡◌, ◌≢◌, ◌∙◌, refl, ap, sym, List, [], Option, none, some, ok, err, panic, get_elem?, ◌<◌,
  ltb, lt→ltb, ltb→lt, Bool-cases, inl, inr, bytes_eq_iff, length, set, arith, false, ==_iff,
}
use fork_perun_rs.Base.Inversion.{map_err-ok, unwrap-ok, guard-ok, ok≢panic}
use fork_perun_rs.Effects.Inversion as Act
use fork_perun_rs.Effects.{resume}
use fork_perun_rs.External.{External}
use fork_perun_rs.Types.{Hash, Address, Signature, to_hash}
use fork_perun_rs.Sig.{sign_eth}
use fork_perun_rs.Payment.{state_value}
use fork_perun_rs.Messages.{LedgerChannelUpdateAccepted, channel_update_accepted}
use fork_perun_rs.Bus.{Sent, Method, broadcast}
use fork_perun_rs.Channel.Errors.{AcceptError}
use fork_perun_rs.Channel.Types.{ActiveChannel, ChannelUpdate, assign}
use fork_perun_rs.Channel.Active.Laws.{IsSignatureOf}
use fork_perun_rs.Channel.Update.Laws.{IsNextOf, ensure_valid_channel-ok, ok-ensure_valid_channel}
use fork_perun_rs.Channel.Update.{
  store_signature, add_if_missing, participant_accepted, accept, sign_and_send,
}

pub ok-store_signature :
    {E : Type 0} (i : ℕ) (sig : Signature) (u : ChannelUpdate)
    → i < length u.signatures
    → store_signature {E = E} i sig u
      ≡ (record u { signatures = set u.signatures i (some sig) }, ok tt, [])
unfolding store_signature assign resume
ok-store_signature i sig u h = rw (lt→ltb i (length u.signatures) h)

store_signature-panic :
    {E : Type 0} (i : ℕ) (sig : Signature) (u : ChannelUpdate)
    → ltb i (length u.signatures) ≡ false
    → store_signature {E = E} i sig u ≡ (u, panic, [])
unfolding store_signature assign resume
store_signature-panic i sig u h = rw h

store_signature-ok :
    {E : Type 0} (i : ℕ) (sig : Signature) (u : ChannelUpdate) {u' : ChannelUpdate}
    {sent : List Sent}
    → store_signature {E = E} i sig u ≡ (u', ok tt, sent)
    → (u' ≡ record u { signatures = set u.signatures i (some sig) }) × (sent ≡ [])
store_signature-ok i sig u h = elim (Bool-cases (ltb i (length u.signatures))) [
  | inl y ↦
      let stored = sym h ∙ ok-store_signature i sig u (ltb→lt i _ y) in
      (ap (λ r. r.0) stored, ap (λ r. r.2) stored)
  | inr n ↦
      absurd (ok≢panic _ (sym (ap (λ r. r.1) h) ∙ ap (λ r. r.1) (store_signature-panic i sig u n)))
]

store_step-ok :
    {E B : Type 0} (i : ℕ) (sig : Signature) (u : ChannelUpdate)
    (f : Unit {0} → Method ChannelUpdate E B) {u' : ChannelUpdate} {b : B} {sent : List Sent}
    → resume (store_signature i sig u) f ≡ (u', ok b, sent)
    → f tt (record u { signatures = set u.signatures i (some sig) }) ≡ (u', ok b, sent)
store_step-ok i sig u f h = elim (Bool-cases (ltb i (length u.signatures))) [
  | inl y ↦
      Act.pure-ok tt f (sym (ap (λ r. resume r f) (ok-store_signature i sig u (ltb→lt i _ y))) ∙ h)
  | inr n ↦
      absurd (Act.panic≢ok u f (sym (ap (λ r. resume r f) (store_signature-panic i sig u n)) ∙ h))
]

add_if_missing-ok :
    (i : ℕ) (sig : Signature) (slot : Option Signature) (u : ChannelUpdate) {u' : ChannelUpdate}
    {sent : List Sent}
    → add_if_missing i sig slot u ≡ (u', ok tt, sent)
    → (slot ≡ none) × (u' ≡ record u { signatures = set u.signatures i (some sig) }) × (sent ≡ [])
unfolding add_if_missing
add_if_missing-ok i sig (some _) u h = absurd (ground arith)
add_if_missing-ok i sig none u h =
    let (changed, silent) = store_signature-ok i sig u h in (refl, changed, silent)

-- If `participant_accepted` succeeds, the update is the channel's next one, the message is about
-- it, the signature is that of the participant, and the participant's slot, which was empty, is
-- all that changes. Nothing is sent.
pub participant_accepted-ok :
    (x : External) (ch : ActiveChannel) (i : ℕ) (msg : LedgerChannelUpdateAccepted)
    (u : ChannelUpdate) {u' : ChannelUpdate} {sent : List Sent}
    → participant_accepted x ch i msg u ≡ (u', ok tt, sent)
    → IsNextOf u ch
      × (msg.channel ≡ u.channel_id)
      × (msg.version ≡ u.new_state.version)
      × ((participant : Address) × (get_elem? ch.params.participants i ≡ some participant)
          × IsSignatureOf x participant u.new_state msg.sig)
      × (get_elem? u.signatures i ≡ some none)
      × (u' ≡ record u { signatures = set u.signatures i (some msg.sig) })
      × (sent ≡ [])
unfolding participant_accepted IsSignatureOf resume
participant_accepted-ok x ch i msg u h =
    let (_, e1, h1) = Act.lift-ok _ _ h in
    let (_, e2, h2) = Act.lift-ok _ _ h1 in
    let (_, e3, h3) = Act.lift-ok _ _ h2 in
    let (hash, e4, h4) = Act.lift-ok _ _ h3 in
    let (signer, e5, h5) = Act.lift-ok _ _ h4 in
    let (participant, e6, h6) = Act.lift-ok _ _ h5 in
    let (_, e7, h7) = Act.lift-ok _ _ h6 in
    let (slot, e8, h8) = Act.lift-ok _ _ h7 in
    let (empty, changed, silent) = add_if_missing-ok i msg.sig slot u h8 in
    (
      ensure_valid_channel-ok u ch (map_err-ok _ _ e1),
      (bytes_eq_iff _ _).0 (guard-ok _ _ e2),
      (==_iff _ _).0 (guard-ok _ _ e3),
      (
        participant,
        unwrap-ok _ e6,
        (
          hash,
          map_err-ok _ _ e4,
          map_err-ok _ _ e5 ∙ ap ok (sym ((bytes_eq_iff _ _).0 (guard-ok _ _ e7))),
        ),
      ),
      unwrap-ok _ e8 ∙ ap some empty,
      changed,
      silent,
    )

add_if_missing-IsQuiet :
    (i : ℕ) (sig : Signature) (slot : Option Signature) → Act.IsQuiet (add_if_missing i sig slot)
unfolding Act.IsQuiet add_if_missing store_signature assign resume
add_if_missing-IsQuiet i sig (some _) u _ = (refl, refl)
add_if_missing-IsQuiet i sig none u fails = elim (Bool-cases (ltb i (length u.signatures))) [
  | inl y ↦ absurd (fails tt (rw y))
  | inr n ↦ rw n (refl, refl)
]

pub participant_accepted-IsQuiet :
    (x : External) (ch : ActiveChannel) (i : ℕ) (msg : LedgerChannelUpdateAccepted)
    → Act.IsQuiet (participant_accepted x ch i msg)
unfolding participant_accepted
participant_accepted-IsQuiet x ch i msg = Act.get-IsQuiet _ (λ u. Act.lift-IsQuiet _ _ (λ _.
    Act.lift-IsQuiet _ _ (λ _. Act.lift-IsQuiet _ _ (λ _. Act.lift-IsQuiet _ _ (λ hash.
      Act.lift-IsQuiet _ _ (λ signer. Act.lift-IsQuiet _ _ (λ participant.
        Act.lift-IsQuiet _ _
          (λ _. Act.lift-IsQuiet _ _ (λ slot. add_if_missing-IsQuiet i msg.sig slot)))))))))

-- When `participant_accepted` does not succeed, the update is as before and nothing was sent.
pub participant_accepted-unchanged :
    (x : External) (ch : ActiveChannel) (i : ℕ) (msg : LedgerChannelUpdateAccepted)
    (u : ChannelUpdate)
    → (participant_accepted x ch i msg u).1 ≢ ok tt
    → ((participant_accepted x ch i msg u).0 ≡ u) × ((participant_accepted x ch i msg u).2 ≡ [])
unfolding Act.IsQuiet
participant_accepted-unchanged x ch i msg u fails =
    participant_accepted-IsQuiet x ch i msg u (λ _. fails)

-- Our signature of the new state is stored in our slot, and sent to each other participant.
pub IsAcceptance : External → ActiveChannel → ChannelUpdate → ChannelUpdate → List Sent → Type 0
IsAcceptance x ch u u' sent =
    (hash : Hash) × (sig : Signature) × (to_hash x (state_value x u.new_state) ≡ ok hash)
    × (sign_eth {E = AcceptError} x ch.client.signer hash ≡ ok sig)
    × (u' ≡ record u { signatures = set u.signatures ch.part_idx (some sig) })
    × (broadcast {E = AcceptError} ch.part_idx ch.peers (
          channel_update_accepted
            (record { channel = u.channel_id; version = u.new_state.version; sig = sig }))
        ≡ ok sent)

sign_and_send-ok :
    (x : External) (ch : ActiveChannel) (own : Option Signature) (u : ChannelUpdate)
    {u' : ChannelUpdate} {sent : List Sent}
    → sign_and_send x ch own u ≡ (u', ok tt, sent)
    → (own ≡ none) × IsAcceptance x ch u u' sent
unfolding sign_and_send IsAcceptance
sign_and_send-ok x ch (some _) u h = absurd (ground arith)
sign_and_send-ok x ch none u h =
    let (hash, e1, h1) = Act.lift-ok _ _ (Act.pure-ok u _ h) in
    let (sig, e2, h2) = Act.lift-ok _ _ h1 in
    let (sends, changed) = Act.send_all_end-ok _ _ (store_step-ok ch.part_idx sig u _ h2) in
    (refl, (hash, sig, map_err-ok _ _ e1, e2, changed, sends))

-- If `accept` succeeds, the update is the channel's next one and we had not signed it; our
-- signature of the new state is stored in our slot, and sent to each other participant.
pub accept-ok :
    (x : External) (ch : ActiveChannel) (u : ChannelUpdate) {u' : ChannelUpdate} {sent : List Sent}
    → accept x ch u ≡ (u', ok tt, sent)
    → IsNextOf u ch × (get_elem? u.signatures ch.part_idx ≡ some none) × IsAcceptance x ch u u' sent
unfolding accept
accept-ok x ch u h =
    let (_, e1, h1) = Act.lift-ok _ _ (Act.pure-ok u _ h) in
    let (own, e2, h2) = Act.lift-ok _ _ h1 in
    let (empty, signed) = sign_and_send-ok x ch own u h2 in
    (ensure_valid_channel-ok u ch (map_err-ok _ _ e1), unwrap-ok _ e2 ∙ ap some empty, signed)

-- An update that we have signed is not signed again.
pub accept-twice :
    (x : External) (ch : ActiveChannel) (u : ChannelUpdate) (sig : Signature)
    → IsNextOf u ch
    → get_elem? u.signatures ch.part_idx ≡ some (some sig)
    → accept x ch u ≡ (u, err AcceptError.already_accepted, [])
unfolding accept resume sign_and_send
accept-twice x ch u sig next signed = rw (ok-ensure_valid_channel u ch next) (rw signed)
