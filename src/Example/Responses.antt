-- ===== src/Example/Responses.antt =====
-- How examples/go-integration.rs takes the answer to an update that it proposed.
use fork_perun_rs.Base.{
  ◌≡◌, refl, ap, ◌∙◌, sym, ◌⊎◌, inl, inr, List, Option, none, some, Outcome, ok, err, panic, map,
  set, get_elem?, arith,
}
use fork_perun_rs.Effects.{resume}
use fork_perun_rs.External.{External}
use fork_perun_rs.Types.{Address, Signature}
use fork_perun_rs.Messages.{LedgerChannelUpdateAccepted}
use fork_perun_rs.Bus.{Sent}
use fork_perun_rs.Wire.{expect}
use fork_perun_rs.Wire.Perunwire
use fork_perun_rs.Wire.Envelope.{
  Envelope, EnvelopeMsg, Message, channel_update_acc_msg, channel_update_rej_msg,
}
use fork_perun_rs.Wire.Encoding.{Codec, SentBytes}
use fork_perun_rs.Channel.Types.{ActiveChannel, ChannelUpdate}
use fork_perun_rs.Channel.Update.{participant_accepted, apply}
use fork_perun_rs.Channel.Update.Laws.{IsNextOf, apply-ok}
use fork_perun_rs.Channel.Update.Signing.{participant_accepted-ok}
use fork_perun_rs.Channel.Active.Laws.{IsSignatureOf}
use fork_perun_rs.Example.Interface.{Run, Net}
use fork_perun_rs.Example.{send_calls, call, on_update_response, handle_update_response}

resume-ok :
    {S A B : Type 0} (r : S × Outcome ⊥ A × List SentBytes) (f : A → Run S B) (b : B)
    → (resume r f).1 ≡ ok b
    → (a : A) × (r.1 ≡ ok a) × ((f a r.0).1 ≡ ok b)
unfolding resume
resume-ok (s, ok a, sent) f b h = (a, refl, h)
resume-ok (s, err n, sent) f b h = absurd n
resume-ok (s, panic, sent) f b h = absurd (ground arith)

expect-ok : {F A : Type 0} (r : Outcome F A) (a : A) → expect {E = ⊥} r ≡ ok a → r ≡ ok a
unfolding expect
expect-ok (ok b) a h = ground arith
expect-ok (err e) a h = absurd (ground arith)
expect-ok panic a h = absurd (ground arith)

-- The update, accepted with this signature of the second participant, is now in place.
pub record IsApplied (x : External) (ch after : ActiveChannel) (update : ChannelUpdate)
    : Type 0 where
  pub sig : Signature
  pub participant : Address
  pub second : get_elem? ch.params.participants 1 ≡ some participant
  pub signed : IsSignatureOf x participant update.new_state sig
  pub next : IsNextOf update ch
  pub sigs : List Signature
  pub complete : set update.signatures 1 (some sig) ≡ map some sigs
  pub changed : after ≡ record ch { state = update.new_state; signatures = sigs }

module _ (x : External) (envelopes : Codec Envelope) (messages : Codec Message) (net : Net) where
  call-ok :
      {S E A : Type 0} (r : S × Outcome E A × List Sent) (bus : net.Bus) (v : S × A)
      → (call x envelopes messages net r bus).1 ≡ ok v
      → (r.1 ≡ ok v.1) × (r.0 ≡ v.0)
  unfolding call
  call-ok (s, r, sent) bus v h =
      let (_, _, h1) = resume-ok (send_calls x envelopes messages net sent bus) _ v h in
      let (a, e, h2) = resume-ok _ _ v h1 in
      let done : (s, a) ≡ v = ok_injective h2 in
      (expect-ok r a e ∙ ap (λ w. ok w.1) done, ap (λ w. w.0) done)
    where
      ok_injective : {A : Type 0} {a b : A} → ◌≡◌ {A = Outcome ⊥ A} (ok a) (ok b) → a ≡ b
      ok_injective h = ground arith

  told-IsApplied :
      (ch : ActiveChannel) (update : ChannelUpdate) (msg : LedgerChannelUpdateAccepted)
      (collected : ChannelUpdate) (after : ActiveChannel) {sent more : List Sent}
      → participant_accepted x ch 1 msg update ≡ (collected, ok tt, sent)
      → apply collected ch ≡ (after, ok tt, more)
      → IsApplied x ch after update
  told-IsApplied ch update msg collected after told applied =
      let (next, _, _, (participant, known, signed), _, filled, _) =
        participant_accepted-ok x ch 1 msg update told in
      let (_, (sigs, full, changed), _) = apply-ok collected ch applied in
      record {
        sig = msg.sig;
        participant = participant;
        second = known;
        signed = signed;
        next = next;
        sigs = sigs;
        complete = ap (λ (u : ChannelUpdate). u.signatures) (sym filled) ∙ full;
        changed =
            changed
            ∙ ap (λ (u : ChannelUpdate). record ch { state = u.new_state; signatures = sigs })
                filled;
      }

  on_update_response-ok :
      (msg : Option EnvelopeMsg) (ch : ActiveChannel) (update : ChannelUpdate) (bus : net.Bus)
      (after : ActiveChannel)
      → (on_update_response x envelopes messages net msg ch update bus).1 ≡ ok after
      → ((m : Perunwire.ChannelUpdateRejMsg) × (msg ≡ some (channel_update_rej_msg m))
          × (after ≡ ch))
        ⊎ ((m : Perunwire.ChannelUpdateAccMsg) × (msg ≡ some (channel_update_acc_msg m))
            × IsApplied x ch after update)
  unfolding on_update_response
  on_update_response-ok (some (channel_update_acc_msg m)) ch update bus after h =
      let (msg, _, h1) = resume-ok _ _ after h in
      let (collected, e2, h2) = resume-ok _ _ after h1 in
      let (applied, e3, h3) = resume-ok _ _ after h2 in
      let (told, first) = call-ok (participant_accepted x ch 1 msg update) _ collected e2 in
      let (put, second) = call-ok (apply collected.0 ch) _ applied e3 in
      inr (
        m,
        refl,
        told-IsApplied ch update msg collected.0 after
            (split (participant_accepted x ch 1 msg update) collected.0 told first)
            (split (apply collected.0 ch) after put (second ∙ ok_injective h3)),
      )
    where
      ok_injective : {A : Type 0} {a b : A} → ◌≡◌ {A = Outcome ⊥ A} (ok a) (ok b) → a ≡ b
      ok_injective h = ground arith

      split :
          {S E : Type 0} (r : S × Outcome E (Unit {0}) × List Sent) (s : S)
          → r.1 ≡ ok tt
          → r.0 ≡ s
          → r ≡ (s, ok tt, r.2)
      split r s e f = ap (λ o. (r.0, o, r.2)) e ∙ ap (λ t. (t, ok tt, r.2)) f
  on_update_response-ok (some (channel_update_rej_msg m)) ch update bus after h =
      inl (m, refl, ground (arith, h))
  on_update_response-ok none ch update bus after h = absurd (ground arith)
  on_update_response-ok (some _) ch update bus after h = absurd (ground arith)

  -- If the answer to a proposed update is taken without a panic, over any bus: it was a rejection, and
  -- the channel is as before; or it was an acceptance, the update is the channel's next one and is
  -- complete with a signature of its new state that is recovered to the second participant's address, and
  -- the channel has the new state with the update's signatures and is otherwise as before.
  pub handle_update_response-ok :
      (ch : ActiveChannel) (update : ChannelUpdate) (bus : net.Bus) (after : ActiveChannel)
      → (handle_update_response x envelopes messages net ch update bus).1 ≡ ok after
      → (envelope : Envelope) × ((net.recv_envelope bus).1 ≡ ok envelope)
        × (((m : Perunwire.ChannelUpdateRejMsg) × (envelope.msg ≡ some (channel_update_rej_msg m))
              × (after ≡ ch))
            ⊎ ((m : Perunwire.ChannelUpdateAccMsg) × (envelope.msg
                  ≡ some (channel_update_acc_msg m))
                × IsApplied x ch after update))
  unfolding handle_update_response
  handle_update_response-ok ch update bus after h =
      let (envelope, e, rest) = resume-ok (net.recv_envelope bus) _ after h in
      (
        envelope,
        e,
        on_update_response-ok envelope.msg ch update (net.recv_envelope bus).0 after rest,
      )
