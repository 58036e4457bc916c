-- ===== src/Channel/AgreedUpon/Round.antt =====
-- `sign` and `add_signature` of src/channel/agreed_upon.rs, on two sides of a channel.
use fork_perun_rs.Base.{
  ℕ, ◌≡◌, ◌<◌, ◌∙◌, refl, ap, sym, arith, List, [], ◌∷◌, none, some, ok, err, false, get_elem?, set,
  length, bytes_eq, bytes_eq_iff, ==_iff, lt→ltb,
}
use fork_perun_rs.Effects.{resume}
use fork_perun_rs.External.{External, IsLawful}
use fork_perun_rs.Types.{Hash, Address, Signature, to_hash}
use fork_perun_rs.Sig.{sign_eth, recover_signer, address_from}
use fork_perun_rs.Sig.Roundtrip.{recover_signer-sign_eth}
use fork_perun_rs.Abi.Bytes.{flatten}
use fork_perun_rs.Abi.Spec.{abi_encode}
use fork_perun_rs.Payment.{State, state_value}
use fork_perun_rs.Payment.Laws.{IsShaped, state-hash}
use fork_perun_rs.Messages.{Identity, LedgerChannelUpdateAccepted, channel_update_accepted}
use fork_perun_rs.Bus.{Sent, send_others, broadcast}
use fork_perun_rs.Channel.Errors.{SignError, AddSignatureError}
use fork_perun_rs.Channel.Types.{assign}
use fork_perun_rs.Channel.AgreedUpon.{
  AgreedUponChannel, sign, sign_if_missing, store_signature, add_signature, add_if_missing,
  find_from,
}

abbrev pub own_address : External → AgreedUponChannel → Address
own_address x ch = address_from x (x.verifying_key ch.client.signer.key)

-- What is sent along with a signature of the initial state.
abbrev pub initial_acceptance : AgreedUponChannel → Signature → LedgerChannelUpdateAccepted
initial_acceptance ch sig = record {
  channel = ch.init_state.id;
  version = ch.init_state.version;
  sig = sig;
}

module _ (x : External) (ch : AgreedUponChannel) (hash : Hash) (sig : Signature) where
  pub ok-sign :
      (sender : Identity)
      → get_elem? ch.signatures ch.part_idx ≡ some none
      → ch.part_idx < length ch.signatures
      → to_hash x (state_value x ch.init_state) ≡ ok hash
      → sign_eth {E = SignError} x ch.client.signer hash ≡ ok sig
      → get_elem? ch.peers ch.part_idx ≡ some sender
      → sign x ch ≡ (
        record ch { signatures = set ch.signatures ch.part_idx (some sig) },
        ok tt,
        send_others sender ch.part_idx 0 ch.peers
            (channel_update_accepted (initial_acceptance ch sig)),
      )
  unfolding sign sign_if_missing store_signature assign resume broadcast
  ok-sign sender empty bound hashed signed known =
      rw empty
        (rw hashed (rw signed (rw (lt→ltb ch.part_idx (length ch.signatures) bound) (rw known))))

  pub ok-add_signature :
      (signer : Address) (i : ℕ)
      → ch.init_state.version ≡ 0
      → to_hash x (state_value x ch.init_state) ≡ ok hash
      → recover_signer x hash sig ≡ ok signer
      → find_from 0 ch.params.participants signer ≡ some i
      → get_elem? ch.signatures i ≡ some none
      → i < length ch.signatures
      → add_signature x (initial_acceptance ch sig) ch
        ≡ (record ch { signatures = set ch.signatures i (some sig) }, ok tt, [])
  unfolding add_signature add_if_missing store_signature assign resume
  ok-add_signature signer i first hashed recovered found empty bound =
      rw ((bytes_eq_iff ch.init_state.id ch.init_state.id).1 refl) (
        rw ((==_iff ch.init_state.version 0).1 first) (
          rw hashed
            (rw recovered (rw found (rw empty (rw (lt→ltb i (length ch.signatures) bound)))))))

  pub twice-add_signature :
      (signer : Address) (i : ℕ) {first : Signature}
      → ch.init_state.version ≡ 0
      → to_hash x (state_value x ch.init_state) ≡ ok hash
      → recover_signer x hash sig ≡ ok signer
      → find_from 0 ch.params.participants signer ≡ some i
      → get_elem? ch.signatures i ≡ some (some first)
      → add_signature x (initial_acceptance ch sig) ch
        ≡ (ch, err AddSignatureError.already_signed, [])
  unfolding add_signature add_if_missing resume
  twice-add_signature signer i zeroth hashed recovered found taken =
      rw ((bytes_eq_iff ch.init_state.id ch.init_state.id).1 refl) (
        rw ((==_iff ch.init_state.version 0).1 zeroth)
          (rw hashed (rw recovered (rw found (rw taken refl)))))

-- The second of two participants signs, and the first adds the signature.
module _ (x : External) (a b : AgreedUponChannel) (name_a name_b : Identity) where
  -- For lawful crates, a payment channel whose two participants have different addresses, the same
  -- initial state of version 0 and no signatures yet: the second signs, sends its signature to the
  -- first and stores it, and the first, who is sent it, stores it in the same slot.
  pub add_signature-sign :
      IsLawful x
      → IsShaped b.init_state
      → b.init_state.version ≡ 0
      → a.init_state ≡ b.init_state
      → b.part_idx ≡ 1
      → b.peers ≡ name_a ∷ name_b ∷ []
      → a.params.participants ≡ own_address x a ∷ own_address x b ∷ []
      → bytes_eq (own_address x a) (own_address x b) ≡ false
      → a.signatures ≡ none ∷ none ∷ []
      → b.signatures ≡ none ∷ none ∷ []
      → (sig : Signature) × (sent : List Sent) × (sign x b
          ≡ (record b { signatures = none ∷ some sig ∷ [] }, ok tt, sent))
        × (broadcast {E = SignError} 1
              (name_a ∷ name_b ∷ [])
              (channel_update_accepted (initial_acceptance b sig))
            ≡ ok sent)
        × (add_signature x (initial_acceptance b sig) a
            ≡ (record a { signatures = none ∷ some sig ∷ [] }, ok tt, []))
  unfolding find_from broadcast
  add_signature-sign lawful shaped first same second peers participants distinct empty_a empty_b =
      let (sig, signed, recovered) =
        recover_signer-sign_eth {E = SignError} x b.client.signer hash lawful in
      (
        sig,
        send_others name_b 1 0 (name_a ∷ name_b ∷ [])
            (channel_update_accepted (initial_acceptance b sig)),
        ok-sign x b hash sig name_b (rw second (rw empty_b)) (rw second (rw empty_b (omega arith)))
              hashed signed (rw second (rw peers))
            ∙ ap
                (λ i. (
                  record b { signatures = set b.signatures i (some sig) },
                  ok tt,
                  send_others name_b i 0 b.peers
                      (channel_update_accepted (initial_acceptance b sig)),
                ))
                second
            ∙ ap
                (λ slots. (
                  record b { signatures = set slots 1 (some sig) },
                  ok tt,
                  send_others name_b 1 0 b.peers
                      (channel_update_accepted (initial_acceptance b sig)),
                ))
                empty_b
            ∙ ap
                (λ peers. (
                  record b { signatures = none ∷ some sig ∷ [] },
                  ok tt,
                  send_others name_b 1 0 peers (channel_update_accepted (initial_acceptance b sig)),
                ))
                peers,
        refl,
        ap
              (λ (s : State).
                add_signature x (record { channel = s.id; version = s.version; sig = sig }) a)
              (sym same)
            ∙ ok-add_signature x a hash sig (own_address x b) 1
                (ap (λ (s : State). s.version) same ∙ first)
                (ap (λ (s : State). to_hash x (state_value x s)) same ∙ hashed) recovered
                (rw participants
                  (rw distinct (rw ((bytes_eq_iff (own_address x b) (own_address x b)).1 refl))))
                (rw empty_a) (rw empty_a (omega arith))
            ∙ ap (λ slots. (record a { signatures = set slots 1 (some sig) }, ok tt, [])) empty_a,
      )
    where
      hash : Hash
      hash = x.keccak256 (flatten (abi_encode (state_value x b.init_state)))

      hashed : to_hash x (state_value x b.init_state) ≡ ok hash
      hashed = state-hash x lawful b.init_state shaped
