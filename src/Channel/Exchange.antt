-- ===== src/Channel/Exchange.antt =====
-- The operations on an update (src/channel/active.rs, channel_update.rs) when all is in order.
use mathlib.Core.List.{append-nil}
use fork_perun_rs.Base.{
  ℕ, ◌≡◌, ◌<◌, refl, [], ◌∷◌, none, some, ok, get_elem?, set, length, bytes_eq_iff, ==_iff,
}
use fork_perun_rs.Effects.{resume}
use fork_perun_rs.External.{External}
use fork_perun_rs.Types.{Hash, Address, Signature, to_hash}
use fork_perun_rs.Sig.{sign_eth, recover_signer}
use fork_perun_rs.Payment.{State, state_value}
use fork_perun_rs.Messages.{
  Identity, LedgerChannelUpdateAccepted, channel_update, channel_update_accepted,
}
use fork_perun_rs.Bus.{broadcast, send_others}
use fork_perun_rs.Channel.Errors.{ProposeUpdateError, HandleUpdateError, AcceptError}
use fork_perun_rs.Channel.Types.{ActiveChannel, ChannelUpdate}
use fork_perun_rs.Channel.Transition.Laws.{IsValidTransition, ok-check_valid_transition}
use fork_perun_rs.Channel.Active.{update, handle_update}
use fork_perun_rs.Channel.Active.Laws.{ok-new_update}
use fork_perun_rs.Channel.Update.{accept, participant_accepted, sign_and_send, add_if_missing}
use fork_perun_rs.Channel.Update.Laws.{IsNextOf, ok-ensure_valid_channel}
use fork_perun_rs.Channel.Update.Signing.{ok-store_signature}

-- The update as it is proposed, with one signature.
abbrev pub proposed : ActiveChannel → State → ℕ → Signature → ChannelUpdate
proposed ch new i sig = record {
  channel_id = ch.state.id;
  new_state = new;
  signatures = set (none ∷ none ∷ []) i (some sig);
}

abbrev pub acceptance : ChannelUpdate → Signature → LedgerChannelUpdateAccepted
acceptance u sig = record { channel = u.channel_id; version = u.new_state.version; sig = sig }

module _ (x : External) (ch : ActiveChannel) (hash : Hash) where
  pub ok-update :
      {S : Type 0} (s : S) (new : State) (sig : Signature) (sender : Identity)
      → IsValidTransition x ch.state new
      → to_hash x (state_value x new) ≡ ok hash
      → sign_eth {E = ProposeUpdateError} x ch.client.signer hash ≡ ok sig
      → get_elem? ch.peers ch.part_idx ≡ some sender
      → ch.part_idx < 2
      → update x ch new s ≡ (
        s,
        ok (proposed ch new ch.part_idx sig),
        send_others sender ch.part_idx 0 ch.peers
            (channel_update (record { state = new; actor_idx = ch.part_idx; sig = sig })),
      )
  unfolding update resume broadcast
  ok-update s new sig sender valid hashed signed known bound =
      rw (ok-check_valid_transition x ch new valid) (
        rw hashed (
          rw signed (
            rw known (
              rw (ok-new_update {E = ProposeUpdateError} ch new ch.part_idx sig bound) (
                rw (
                  append-nil (
                    send_others sender ch.part_idx 0 ch.peers (
                      channel_update
                        (record { state = new; actor_idx = ch.part_idx; sig = sig })))))))))

  pub ok-handle_update :
      {S : Type 0} (s : S) (new : State) (i : ℕ) (sig : Signature) (actor : Address)
      → IsValidTransition x ch.state new
      → to_hash x (state_value x new) ≡ ok hash
      → recover_signer x hash sig ≡ ok actor
      → get_elem? ch.params.participants i ≡ some actor
      → i < 2
      → handle_update x ch (record { state = new; actor_idx = i; sig = sig }) s
        ≡ (s, ok (proposed ch new i sig), [])
  unfolding handle_update resume
  ok-handle_update s new i sig actor valid hashed recovered known bound =
      rw (ok-check_valid_transition x ch new valid) (
        rw hashed (
          rw recovered (
            rw known (
              rw ((bytes_eq_iff actor actor).1 refl)
                (rw (ok-new_update {E = HandleUpdateError} ch new i sig bound))))))

  pub ok-accept :
      (u : ChannelUpdate) (sig : Signature) (sender : Identity)
      → IsNextOf u ch
      → get_elem? u.signatures ch.part_idx ≡ some none
      → ch.part_idx < length u.signatures
      → to_hash x (state_value x u.new_state) ≡ ok hash
      → sign_eth {E = AcceptError} x ch.client.signer hash ≡ ok sig
      → get_elem? ch.peers ch.part_idx ≡ some sender
      → accept x ch u ≡ (
        record u { signatures = set u.signatures ch.part_idx (some sig) },
        ok tt,
        send_others sender ch.part_idx 0 ch.peers (channel_update_accepted (acceptance u sig)),
      )
  unfolding accept sign_and_send resume broadcast
  ok-accept u sig sender next empty bound hashed signed known =
      rw (ok-ensure_valid_channel u ch next) (
        rw empty (
          rw hashed (
            rw signed
              (rw (ok-store_signature {E = AcceptError} ch.part_idx sig u bound) (rw known)))))

  pub ok-participant_accepted :
      (u : ChannelUpdate) (i : ℕ) (sig : Signature) (participant : Address)
      → IsNextOf u ch
      → get_elem? u.signatures i ≡ some none
      → i < length u.signatures
      → to_hash x (state_value x u.new_state) ≡ ok hash
      → recover_signer x hash sig ≡ ok participant
      → get_elem? ch.params.participants i ≡ some participant
      → participant_accepted x ch i (acceptance u sig) u
        ≡ (record u { signatures = set u.signatures i (some sig) }, ok tt, [])
  unfolding participant_accepted add_if_missing resume
  ok-participant_accepted u i sig participant next empty bound hashed recovered known =
      rw (ok-ensure_valid_channel u ch next) (
        rw ((bytes_eq_iff u.channel_id u.channel_id).1 refl) (
          rw ((==_iff u.new_state.version u.new_state.version).1 refl) (
            rw hashed (
              rw recovered (
                rw known (
                  rw ((bytes_eq_iff participant participant).1 refl)
                    (rw empty (ok-store_signature i sig u bound))))))))
