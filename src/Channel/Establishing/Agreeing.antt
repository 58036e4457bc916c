-- ===== src/Channel/Establishing/Agreeing.antt =====
-- The first part of establishing a channel: a proposal is sent, handled and accepted, and both sides
-- build the same agreed-upon channel (src/client.rs, src/channel/proposal.rs).
use fork_perun_rs.Base.{
  ℕ, ◌<◌, ◌≡◌, ◌≢◌, ◌∙◌, refl, ap, arith, [], ◌∷◌, ◌++◌, some, ok, List, drop, get_elem?, true,
  false, length, replicate, length-drop, ◌==◌, bytes_eq_iff, bytes_eq, Option,
}
use mathlib.Core.List.{append-nil}
use fork_perun_rs.Effects.{resume}
use fork_perun_rs.External.{External, IsLawful}
use fork_perun_rs.Types.{Address, NonceShare, Signature}
use fork_perun_rs.Abi.Bytes.{from_be}
use fork_perun_rs.Sig.{address_from}
use fork_perun_rs.Payment.{Params, State, u64_bound, new_state}
use fork_perun_rs.Payment.Laws.{IsShapedParams}
use fork_perun_rs.Messages.{
  Identity, LedgerChannelProposal, LedgerChannelProposalAcc, channel_proposal, proposal_accepted,
}
use fork_perun_rs.Bus.{send_others, broadcast}
use fork_perun_rs.Channel.Types.{PerunClient, assign}
use fork_perun_rs.Channel.AgreedUpon.{AgreedUponChannel, find_from}
use fork_perun_rs.Channel.AgreedUpon as AgreedUpon
use fork_perun_rs.Channel.Proposal.{
  ProposedChannel, new, accept, store_response, participant_accepted, respond, collect_from,
  final_params, build, check_valid_proposal, propose_channel,
}

abbrev pub address_of : External → PerunClient → Address
address_of x client = address_from x (x.verifying_key client.signer.key)

pub length-address_of :
    (x : External) (client : PerunClient) → IsLawful x → length (address_of x client) ≡ 20
unfolding address_from
length-address_of x client lawful =
    omega (arith, length-drop 12 (x.keccak256 point), lawful.keccak_size point)
  where
    point : List ℕ
    point = drop 1 (x.verifying_key client.signer.key)

-- A proposal that its proposer may make: for two participants and one asset.
pub record IsOffer (x : External) (client : PerunClient) (prop : LedgerChannelProposal)
    : Type 0 where
  pub duration_set : prop.challenge_duration ≢ 0
  pub duration_fits : prop.challenge_duration < u64_bound
  pub proposer : prop.participant ≡ address_of x client
  pub name_a : Identity
  pub name_b : Identity
  pub two_peers : prop.peers ≡ name_a ∷ name_b ∷ []
  pub holder : Address
  pub holder_size : length holder ≡ 20
  pub own : ℕ
  pub other : ℕ
  pub one_asset :
      prop.init_bals
      ≡ record { assets = record { holder = holder } ∷ []; balances = (own ∷ other ∷ []) ∷ [] }

module _ (x : External) (prop : LedgerChannelProposal) where
  -- The parameters that follow from a proposal and the response to it.
  unfoldable pub agreed_params : LedgerChannelProposalAcc → Params
  agreed_params acc = record {
    challenge_duration = prop.challenge_duration;
    nonce = from_be (x.sha3_256 (prop.nonce_share ++ (acc.nonce_share ++ [])));
    participants = prop.participant ∷ acc.participant ∷ [];
    app = replicate 20 0;
    ledger_channel = true;
    virtual_channel = false;
  }

  -- The proposed channel once the response is there, as a participant has it.
  unfoldable pub responded : PerunClient → ℕ → Address → LedgerChannelProposalAcc → ProposedChannel
  responded client part_idx receiver acc = record {
    part_idx = part_idx;
    withdraw_receiver = receiver;
    client = client;
    proposal = prop;
    responses = some acc ∷ [];
  }

  unfoldable pub agreed :
      PerunClient → ℕ → Address → LedgerChannelProposalAcc → State → AgreedUponChannel
  unfolding agreed_params AgreedUpon.new
  agreed client part_idx receiver acc s =
      AgreedUpon.new client prop.funding_agreement part_idx receiver s (agreed_params acc)
        prop.peers

  pub ok-build :
      (client : PerunClient) (part_idx : ℕ) (receiver : Address) (acc : LedgerChannelProposalAcc)
      (s : State)
      → IsLawful x
      → new_state x (agreed_params acc) prop.init_bals ≡ ok s
      → build x (responded client part_idx receiver acc)
        ≡ ok (agreed client part_idx receiver acc s)
  unfolding build collect_from final_params responded agreed agreed_params
  ok-build client part_idx receiver acc s lawful made =
      rw
        (lawful.reads_big_endian (x.sha3_256 (prop.nonce_share ++ (acc.nonce_share ++ [])))
          (omega (arith, lawful.sha3_size (prop.nonce_share ++ (acc.nonce_share ++ [])))))
        (rw made refl)

  pub agreed_params-IsShapedParams :
      (a b : PerunClient) (acc : LedgerChannelProposalAcc)
      → IsLawful x
      → IsOffer x a prop
      → acc.participant ≡ address_of x b
      → IsShapedParams (agreed_params acc)
  unfolding agreed_params
  agreed_params-IsShapedParams a b acc lawful offer responder = record {
    duration_fits = offer.duration_fits;
    first = prop.participant;
    first_size = ap (length {A = ℕ}) offer.proposer ∙ length-address_of x a lawful;
    second = acc.participant;
    second_size = ap (length {A = ℕ}) responder ∙ length-address_of x b lawful;
    two_participants = refl;
    app_size = refl;
  }

  valid_offer : (client : PerunClient) → IsOffer x client prop → check_valid_proposal prop ≡ ok tt
  unfolding check_valid_proposal
  valid_offer client offer =
      rw (positive prop.challenge_duration offer.duration_set)
        (rw offer.one_asset (rw offer.two_peers refl))
    where
      positive : (n : ℕ) → n ≢ 0 → (n == 0) ≡ false
      positive n h = ground arith

  pub ok-propose_channel :
      {S : Type 0} (client : PerunClient) (receiver : Address) (s : S)
      → (offer : IsOffer x client prop)
      → propose_channel client prop receiver s ≡ (
        s,
        ok (new client 0 receiver prop),
        send_others offer.name_a 0 0 prop.peers (channel_proposal prop),
      )
  unfolding propose_channel broadcast resume
  ok-propose_channel client receiver s offer = rw (valid_offer client offer) (
      rw (ap (λ p. get_elem? p 0) offer.two_peers)
        (rw (append-nil (send_others offer.name_a 0 0 prop.peers (channel_proposal prop)))))

  pub ok-accept :
      (client : PerunClient) (receiver : Address) (nonce_share : NonceShare) (address : Address)
      (name_a name_b : Identity)
      → prop.peers ≡ name_a ∷ name_b ∷ []
      → let acc : LedgerChannelProposalAcc = record {
        proposal_id = prop.proposal_id;
        nonce_share = nonce_share;
        participant = address;
      } in
        accept nonce_share address (new client 1 receiver prop) ≡ (
          responded client 1 receiver acc,
          ok tt,
          send_others name_b 1 0 prop.peers (proposal_accepted acc),
        )
  unfolding accept store_response new responded assign broadcast resume
  ok-accept client receiver nonce_share address name_a name_b peers =
      rw (ap (λ p. get_elem? p 1) peers)

  pub ok-participant_accepted :
      (client : PerunClient) (receiver : Address) (acc : LedgerChannelProposalAcc)
      → acc.proposal_id ≡ prop.proposal_id
      → participant_accepted 1 acc (new client 0 receiver prop)
        ≡ (responded client 0 receiver acc, ok tt, [])
  unfolding participant_accepted respond store_response new responded assign resume
  ok-participant_accepted client receiver acc same =
      rw ((bytes_eq_iff acc.proposal_id prop.proposal_id).1 same) refl

-- The signatures of an agreed-upon channel.
abbrev pub with_signatures : AgreedUponChannel → List (Option Signature) → AgreedUponChannel
with_signatures ch slots = record ch { signatures = slots }

pub find-first : (p q : Address) → find_from 0 (p ∷ q ∷ []) p ≡ some 0
unfolding find_from
find-first p q = rw ((bytes_eq_iff p p).1 refl) refl

pub find-second : (p q : Address) → bytes_eq p q ≡ false → find_from 0 (p ∷ q ∷ []) q ≡ some 1
unfolding find_from
find-second p q h = rw h (rw ((bytes_eq_iff q q).1 refl) refl)
