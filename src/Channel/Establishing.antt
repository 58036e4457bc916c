-- ===== src/Channel/Establishing.antt =====
-- A channel is established between two participants, from its proposal (src/client.rs,
-- src/channel/proposal.rs) over the signatures (src/channel/agreed_upon.rs) until it is open.
pub mod Agreeing
pub mod SameKey
use fork_perun_rs.Base.{
  ℕ, ◌<◌, ◌≡◌, ◌∙◌, refl, ap, sym, subst, arith, List, [], ◌∷◌, Option, none, some, ok, get_elem?,
  false, length, bytes_eq, bytes_eq_iff,
}
use fork_perun_rs.External.{External, IsLawful}
use fork_perun_rs.Types.{Address, Hash, NonceShare, Signature, to_hash}
use fork_perun_rs.Abi.Bytes.{flatten}
use fork_perun_rs.Abi.Spec.{abi_encode}
use fork_perun_rs.Sig.{recover_signer}
use fork_perun_rs.Sig.Roundtrip.{recover_signer-sign_eth}
use fork_perun_rs.Payment.{State, state_value, new_state}
use fork_perun_rs.Payment.Laws.{IsShaped, state-hash, new_state-IsShaped}
use fork_perun_rs.Messages.{
  LedgerChannelProposal, LedgerChannelProposalAcc, channel_proposal, proposal_accepted,
  channel_update_accepted, watch_request, fund_req,
}
use fork_perun_rs.Bus.{Sent, send_others, to_watcher, to_funder, broadcast}
use fork_perun_rs.Channel.Errors.{SignError}
use fork_perun_rs.Channel.Types.{PerunClient, ActiveChannel}
use fork_perun_rs.Channel.Active as Active
use fork_perun_rs.Channel.AgreedUpon.{
  AgreedUponChannel, SignedChannel, mark_funded, sign, add_signature, find_from,
}
use fork_perun_rs.Channel.AgreedUpon as AgreedUpon
use fork_perun_rs.Channel.AgreedUpon.Round.{initial_acceptance, ok-sign, ok-add_signature}
use fork_perun_rs.Channel.Proposal.{
  ProposedChannel, propose_channel, handle_proposal, accept, participant_accepted,
}
use fork_perun_rs.Channel.Proposal as Proposal
use fork_perun_rs.Channel.Round.{IsPair}
use fork_perun_rs.Effects.{resume}
use fork_perun_rs.Channel.Establishing.Agreeing.{
  with_signatures, find-first, find-second, IsOffer, address_of, agreed_params, agreed, responded,
  ok-build, agreed_params-IsShapedParams, ok-propose_channel, ok-accept, ok-participant_accepted,
}

-- Every step succeeds. The one proposes and the other handles the proposal and accepts; the one is told,
-- and both build and sign, each adds the signature of the other, and both build again: the watcher and
-- the funder are asked. What they then have, once it is funded, are the two sides of one channel, in the
-- same state of version 0.
pub record IsEstablished (x : External) (client_a client_b : PerunClient)
    (prop : LedgerChannelProposal) (receiver_a receiver_b : Address) (nonce_share : NonceShare)
    : Type 0 where
  pub acc : LedgerChannelProposalAcc
  pub proposed_a : ProposedChannel
  pub proposed_b : ProposedChannel
  pub accepted_a : ProposedChannel
  pub accepted_b : ProposedChannel
  pub agreed_a : AgreedUponChannel
  pub agreed_b : AgreedUponChannel
  pub half_a : AgreedUponChannel
  pub half_b : AgreedUponChannel
  pub full_a : AgreedUponChannel
  pub full_b : AgreedUponChannel
  pub signed_a : SignedChannel
  pub signed_b : SignedChannel
  pub sig_a : Signature
  pub sig_b : Signature
  pub proposes :
      (sent : List Sent) × (broadcast {E = Proposal.InvalidProposal} 0 prop.peers
          (channel_proposal prop)
        ≡ ok sent)
      × (propose_channel {S = Unit {0}} client_a prop receiver_a tt ≡ (tt, ok proposed_a, sent))
  pub handles : handle_proposal client_b prop receiver_b ≡ ok proposed_b
  pub accepts :
      (sent : List Sent) × (broadcast {E = SignError} 1 prop.peers (proposal_accepted acc)
        ≡ ok sent)
      × (accept nonce_share (address_of x client_b) proposed_b ≡ (accepted_b, ok tt, sent))
  pub is_told : participant_accepted 1 acc proposed_a ≡ (accepted_a, ok tt, [])
  pub builds_a : Proposal.build x accepted_a ≡ ok agreed_a
  pub builds_b : Proposal.build x accepted_b ≡ ok agreed_b
  pub signs_a :
      (sent : List Sent) × (broadcast {E = SignError} 0 prop.peers
          (channel_update_accepted (initial_acceptance agreed_a sig_a))
        ≡ ok sent)
      × (sign x agreed_a ≡ (half_a, ok tt, sent))
  pub signs_b :
      (sent : List Sent) × (broadcast {E = SignError} 1 prop.peers
          (channel_update_accepted (initial_acceptance agreed_b sig_b))
        ≡ ok sent)
      × (sign x agreed_b ≡ (half_b, ok tt, sent))
  pub adds_a : add_signature x (initial_acceptance agreed_b sig_b) half_a ≡ (full_a, ok tt, [])
  pub adds_b : add_signature x (initial_acceptance agreed_a sig_a) half_b ≡ (full_b, ok tt, [])
  pub completes_a :
      (sent : List Sent) × (AgreedUpon.build {S = Unit {0}} full_a tt ≡ (tt, ok signed_a, sent))
      × (length sent ≡ 2)
  pub completes_b :
      (sent : List Sent) × (AgreedUpon.build {S = Unit {0}} full_b tt ≡ (tt, ok signed_b, sent))
      × (length sent ≡ 2)
  pub pair : IsPair x (mark_funded signed_a) (mark_funded signed_b)
  pub same_signatures : (mark_funded signed_a).signatures ≡ (mark_funded signed_b).signatures
  pub initial : (mark_funded signed_a).state.version ≡ 0
  pub shaped : IsShaped (mark_funded signed_a).state

abbrev funded_side : AgreedUponChannel → List Signature → SignedChannel
funded_side ch sigs = record {
  inner =
      Active.new ch.part_idx ch.withdraw_receiver ch.client.signer ch.init_state ch.params sigs
        ch.peers;
}

module _ (x : External) (a b : PerunClient) (prop : LedgerChannelProposal)
    (receiver_a receiver_b : Address) (nonce_share : NonceShare) where
  -- For lawful crates, two clients with different addresses, and a proposal by the first for one asset
  -- and two participants, with a duration that is not zero: every step succeeds from the proposal to the
  -- open channel. The two sides then have the same state of version 0, the same signatures and the same
  -- participants, and are ready for updates.
  pub propose_channel-IsEstablished :
      IsLawful x
      → (offer : IsOffer x a prop) → bytes_eq (address_of x a) (address_of x b) ≡ false
      → IsEstablished x a b prop receiver_a receiver_b nonce_share
  unfolding handle_proposal agreed AgreedUpon.new AgreedUpon.build AgreedUpon.collect_from
      mark_funded broadcast resume Active.new agreed_params
  propose_channel-IsEstablished lawful offer distinct =
      let acc : LedgerChannelProposalAcc = record {
        proposal_id = prop.proposal_id;
        nonce_share = nonce_share;
        participant = address_of x b;
      } in
      let (s, made, _, version, _, _, shaped) =
        new_state-IsShaped x lawful (agreed_params x prop acc) prop.init_bals offer.own offer.other
          offer.holder (agreed_params-IsShapedParams x prop a b acc lawful offer refl)
          offer.holder_size offer.one_asset in
      let hash : Hash = x.keccak256 (flatten (abi_encode (state_value x s))) in
      let hashed = state-hash x lawful s shaped in
      let (sig_a, made_a, recovered_a) =
        recover_signer-sign_eth {E = SignError} x a.signer hash lawful in
      let (sig_b, made_b, recovered_b) =
        recover_signer-sign_eth {E = SignError} x b.signer hash lawful in
      let side_a = agreed x prop a 0 receiver_a acc s in
      let side_b = agreed x prop b 1 receiver_b acc s in
      let first_known = ap (λ p. get_elem? p 0) offer.two_peers in
      let second_known = ap (λ p. get_elem? p 1) offer.two_peers in
      record {
        acc = acc;
        proposed_a = Proposal.new a 0 receiver_a prop;
        proposed_b = Proposal.new b 1 receiver_b prop;
        accepted_a = responded x prop a 0 receiver_a acc;
        accepted_b = responded x prop b 1 receiver_b acc;
        agreed_a = side_a;
        agreed_b = side_b;
        half_a = with_signatures side_a (some sig_a ∷ none ∷ []);
        half_b = with_signatures side_b (none ∷ some sig_b ∷ []);
        full_a = with_signatures side_a (some sig_a ∷ some sig_b ∷ []);
        full_b = with_signatures side_b (some sig_a ∷ some sig_b ∷ []);
        signed_a = funded_side side_a (sig_a ∷ sig_b ∷ []);
        signed_b = funded_side side_b (sig_a ∷ sig_b ∷ []);
        sig_a = sig_a;
        sig_b = sig_b;
        proposes = (_, rw first_known refl, ok-propose_channel x prop a receiver_a tt offer);
        handles = refl;
        accepts = (
          _,
          rw second_known refl,
          ok-accept x prop b receiver_b nonce_share (address_of x b) offer.name_a offer.name_b
              offer.two_peers,
        );
        is_told = ok-participant_accepted x prop a receiver_a acc refl;
        builds_a = ok-build x prop a 0 receiver_a acc s lawful made;
        builds_b = ok-build x prop b 1 receiver_b acc s lawful made;
        signs_a = (
          _,
          rw first_known refl,
          ok-sign x side_a hash sig_a offer.name_a refl (omega arith) hashed made_a first_known,
        );
        signs_b = (
          _,
          rw second_known refl,
          ok-sign x side_b hash sig_b offer.name_b refl (omega arith) hashed made_b second_known,
        );
        adds_a =
            ok-add_signature x (with_signatures side_a (some sig_a ∷ none ∷ [])) hash sig_b
              (address_of x b) 1 version hashed recovered_b
              (find-second prop.participant (address_of x b) (rw offer.proposer distinct)) refl
              (omega arith);
        adds_b =
            ok-add_signature x (with_signatures side_b (none ∷ some sig_b ∷ [])) hash sig_a
              (address_of x a) 0 version hashed recovered_a
              (subst (λ p. find_from 0 (prop.participant ∷ address_of x b ∷ []) p ≡ some 0)
                offer.proposer (find-first prop.participant (address_of x b)))
              refl (omega arith);
        completes_a = (_, refl, refl);
        completes_b = (_, refl, refl);
        pair = record {
          same_state = refl;
          first = refl;
          second = refl;
          participants_a = ap (λ p. p ∷ address_of x b ∷ []) offer.proposer;
          participants_b = ap (λ p. p ∷ address_of x b ∷ []) offer.proposer;
          name_a = offer.name_a;
          name_b = offer.name_b;
          peers_a = offer.two_peers;
          peers_b = offer.two_peers;
        };
        same_signatures = refl;
        initial = version;
        shaped = shaped;
      }
