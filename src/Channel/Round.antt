-- ===== src/Channel/Round.antt =====
-- A whole round of an update between two participants, from its proposal to its application.
use fork_perun_rs.Base.{
  ℕ, ◌≡◌, ◌∙◌, refl, ap, sym, subst, arith, List, [], ◌∷◌, Option, none, some, ok, set,
}
use fork_perun_rs.External.{External, IsLawful}
use fork_perun_rs.Types.{Hash, Address, Signature, to_hash}
use fork_perun_rs.Sig.{recover_signer, address_from}
use fork_perun_rs.Sig.Roundtrip.{recover_signer-sign_eth}
use fork_perun_rs.Payment.{State, state_value}
use fork_perun_rs.Payment.Laws.{IsShaped, state-hash}
use fork_perun_rs.Abi.Bytes.{flatten}
use fork_perun_rs.Abi.Spec.{abi_encode}
use fork_perun_rs.Messages.{Identity, channel_update, channel_update_accepted, watch_request}
use fork_perun_rs.Bus.{Sent, to_participant, to_watcher, send_others}
use fork_perun_rs.Channel.Errors.{ProposeUpdateError, AcceptError}
use fork_perun_rs.Channel.Types.{ActiveChannel, ChannelUpdate}
use fork_perun_rs.Channel.Transition.Laws.{IsValidTransition}
use fork_perun_rs.Channel.Active.{update, handle_update, watch_info}
use fork_perun_rs.Channel.Update.{accept, participant_accepted, apply}
use fork_perun_rs.Channel.Update.Laws.{IsNextOf, ok-apply}
use fork_perun_rs.Channel.Exchange.{
  proposed, acceptance, ok-update, ok-handle_update, ok-accept, ok-participant_accepted,
}

abbrev pub own_address : External → ActiveChannel → Address
own_address x ch = address_from x (x.verifying_key ch.client.signer.key)

-- The two sides of one open channel.
pub record IsPair (x : External) (a b : ActiveChannel) : Type 0 where
  pub same_state : a.state ≡ b.state
  pub first : a.part_idx ≡ 0
  pub second : b.part_idx ≡ 1
  pub participants_a : a.params.participants ≡ own_address x a ∷ own_address x b ∷ []
  pub participants_b : b.params.participants ≡ own_address x a ∷ own_address x b ∷ []
  pub name_a : Identity
  pub name_b : Identity
  pub peers_a : a.peers ≡ name_a ∷ name_b ∷ []
  pub peers_b : b.peers ≡ name_a ∷ name_b ∷ []

abbrev both_signed : ActiveChannel → State → Signature → Signature → ChannelUpdate
both_signed ch new sig_a sig_b = record {
  channel_id = ch.state.id;
  new_state = new;
  signatures = some sig_a ∷ some sig_b ∷ [];
}

-- What an applied update tells the watcher.
abbrev pub told_watcher : ActiveChannel → State → List Signature → List Sent
told_watcher ch new sigs =
    to_watcher (watch_request (watch_info (record ch { state = new; signatures = sigs }))) ∷ []

-- The first proposes the new state and sends one message, to the second, which handles exactly that
-- message and accepts; its one message, to the first, is the acceptance that the first handles; and
-- both apply the update. Every step succeeds, and both have the new state and the same signatures in
-- the end.
pub record IsRound (x : External) (a b : ActiveChannel) (new : State) : Type 0 where
  pub name_a : Identity
  pub name_b : Identity
  pub named_a : a.peers ≡ name_a ∷ name_b ∷ []
  pub named_b : b.peers ≡ name_a ∷ name_b ∷ []
  pub hash : Hash
  pub sig_a : Signature
  pub sig_b : Signature
  pub update_a : ChannelUpdate
  pub update_b : ChannelUpdate
  pub sent_a : List Sent
  pub sent_b : List Sent
  pub hashed : to_hash x (state_value x new) ≡ ok hash
  pub signed_by_a : recover_signer x hash sig_a ≡ ok (own_address x a)
  pub signed_by_b : recover_signer x hash sig_b ≡ ok (own_address x b)
  pub proposes : update x a new tt ≡ (tt, ok update_a, sent_a)
  pub one_proposal :
      sent_a
      ≡ to_participant name_a name_b
          (channel_update (record { state = new; actor_idx = 0; sig = sig_a }))
        ∷ []
  pub handles :
      handle_update x b (record { state = new; actor_idx = 0; sig = sig_a }) tt
      ≡ (tt, ok update_a, [])
  pub accepts : accept x b update_a ≡ (update_b, ok tt, sent_b)
  pub one_acceptance :
      sent_b
      ≡ to_participant name_b name_a (channel_update_accepted (acceptance update_a sig_b)) ∷ []
  pub collects :
      participant_accepted x a 1 (acceptance update_a sig_b) update_a ≡ (update_b, ok tt, [])
  pub completed : update_b.new_state ≡ update_a.new_state
  pub applied_a : apply update_b a ≡ (
    record a { state = new; signatures = sig_a ∷ sig_b ∷ [] },
    ok tt,
    told_watcher a new (sig_a ∷ sig_b ∷ []),
  )
  pub applied_b : apply update_b b ≡ (
    record b { state = new; signatures = sig_a ∷ sig_b ∷ [] },
    ok tt,
    told_watcher b new (sig_a ∷ sig_b ∷ []),
  )

module _ (x : External) (a b : ActiveChannel) (new : State) where
  next_a :
      IsValidTransition x a.state new
      → (slots : List (Option Signature))
      → IsNextOf (record { channel_id = a.state.id; new_state = new; signatures = slots }) a
  next_a valid slots = record { next_version = valid.next_version; same_channel = refl }

  next_b :
      IsPair x a b
      → IsValidTransition x a.state new
      → (slots : List (Option Signature))
      → IsNextOf (record { channel_id = a.state.id; new_state = new; signatures = slots }) b
  next_b pair valid slots = record {
    next_version = (subst (λ old. IsValidTransition x old new) pair.same_state valid).next_version;
    same_channel = ap (λ (s : State). s.id) pair.same_state;
  }

  -- For lawful crates, a payment channel between two participants and a valid transition, the
  -- whole round succeeds: the first proposes the new state, and what it sends is one message to the
  -- second; the second handles that message and accepts, and what it sends is one acceptance to the
  -- first; the first handles that acceptance, and both apply the update. In the end both have the new
  -- state and the same two signatures, which are those of the participants.
  pub apply-round :
      IsLawful x → IsShaped new → IsPair x a b → IsValidTransition x a.state new → IsRound x a b new
  unfolding send_others
  apply-round lawful shaped pair valid =
      let (sig_a, signed_a, recovered_a) =
        recover_signer-sign_eth {E = ProposeUpdateError} x a.client.signer hash lawful in
      let (sig_b, signed_b, recovered_b) =
        recover_signer-sign_eth {E = AcceptError} x b.client.signer hash lawful in
      record {
        name_a = pair.name_a;
        name_b = pair.name_b;
        named_a = pair.peers_a;
        named_b = pair.peers_b;
        hash = hash;
        sig_a = sig_a;
        sig_b = sig_b;
        update_a = proposed a new 0 sig_a;
        update_b = both_signed a new sig_a sig_b;
        sent_a =
            send_others pair.name_a 0 0 a.peers
              (channel_update (record { state = new; actor_idx = 0; sig = sig_a }));
        sent_b =
            send_others pair.name_b 1 0 b.peers
              (channel_update_accepted (acceptance (proposed a new 0 sig_a) sig_b));
        hashed = hashed;
        signed_by_a = recovered_a;
        signed_by_b = recovered_b;
        proposes =
            ok-update x a hash tt new sig_a pair.name_a valid hashed signed_a
              (rw pair.first (rw pair.peers_a)) (rw pair.first (omega arith))
            ∙ ap
                (λ (i : ℕ). (
                  tt,
                  ok (proposed a new i sig_a),
                  send_others pair.name_a i 0 a.peers
                      (channel_update (record { state = new; actor_idx = i; sig = sig_a })),
                ))
                pair.first;
        one_proposal = rw pair.peers_a;
        handles =
            ok-handle_update x b hash tt new 0 sig_a (own_address x a)
              (subst (λ old. IsValidTransition x old new) pair.same_state valid) hashed recovered_a
              (rw pair.participants_b) (omega arith)
            ∙ ap (λ (old : State). (tt, ok (proposed_after old sig_a), [])) (sym pair.same_state);
        accepts =
            ok-accept x b hash (proposed a new 0 sig_a) sig_b pair.name_b (next_b pair valid _)
              (rw pair.second) (rw pair.second (omega arith)) hashed signed_b
              (rw pair.second (rw pair.peers_b))
            ∙ ap
                (λ (i : ℕ). (
                  record (proposed a new 0 sig_a) {
                    signatures = set (some sig_a ∷ none ∷ []) i (some sig_b);
                  },
                  ok tt,
                  send_others pair.name_b i 0 b.peers
                      (channel_update_accepted (acceptance (proposed a new 0 sig_a) sig_b)),
                ))
                pair.second;
        one_acceptance = rw pair.peers_b;
        collects =
            ok-participant_accepted x a hash (proposed a new 0 sig_a) 1 sig_b (own_address x b)
              (next_a valid _) refl (omega arith) hashed recovered_b (rw pair.participants_a);
        completed = refl;
        applied_a =
            ok-apply (both_signed a new sig_a sig_b) a (sig_a ∷ sig_b ∷ []) (next_a valid _) refl;
        applied_b =
            ok-apply (both_signed a new sig_a sig_b) b (sig_a ∷ sig_b ∷ []) (next_b pair valid _)
              refl;
      }
    where
      hash : Hash
      hash = x.keccak256 (flatten (abi_encode (state_value x new)))

      hashed : to_hash x (state_value x new) ≡ ok hash
      hashed = state-hash x lawful new shaped

      proposed_after : State → Signature → ChannelUpdate
      proposed_after old sig = record {
        channel_id = old.id;
        new_state = new;
        signatures = some sig ∷ none ∷ [];
      }
