-- ===== src/Tests/Opening.antt =====
-- A channel that is proposed, agreed upon and built.
use fork_perun_rs.Base.{
  false, true, List, [], ◌∷◌, ◌++◌, Option, none, some, ok, refl, ◌≡◌, replicate, arith,
}
use fork_perun_rs.Base.Lists.{bytes_eq}
use fork_perun_rs.Abi.Bytes.{flatten, be_bytes, from_be, from_be_after}
use fork_perun_rs.Effects.{resume}
use fork_perun_rs.Types.{Signature}
use fork_perun_rs.Sig.{address_from, recover_signer, at_v}
use fork_perun_rs.Payment.{Params, State, new_state, params_value}
use fork_perun_rs.Payment.Laws.{IsShaped, state-hash, channel_id-hash, IsShapedParams}
use fork_perun_rs.Messages.{
  LedgerChannelUpdateAccepted, LedgerChannelProposal, LedgerChannelProposalAcc,
}
use fork_perun_rs.Channel.Types.{assign}
use fork_perun_rs.Channel.AgreedUpon.{
  AgreedUponChannel, SignedChannel, add_signature, find_from, add_if_missing, store_signature,
  build, collect_from,
}
use fork_perun_rs.Abi.Spec.{abi_encode}
use fork_perun_rs.Channel.AgreedUpon as AgreedUpon
use fork_perun_rs.Channel.Active as Active
use fork_perun_rs.Channel.Proposal as Proposal
use fork_perun_rs.Channel.Proposal.{ProposedChannel, participant_accepted, respond, store_response}
use fork_perun_rs.Tests.Crates.{test_crates, test_crates-IsLawful}
use fork_perun_rs.Tests.Channels.{alice, bob, first_state, test_holder, test_params}

abbrev pub first_state-IsShaped : IsShaped first_state
first_state-IsShaped = record {
  id_size = refl;
  version_fits = omega arith;
  holder = test_holder;
  holder_size = refl;
  one_asset = refl;
  own = 10;
  other = 20;
  two_balances = refl;
}

abbrev pub signature_1 : Signature
signature_1 = 1 ∷ replicate 63 0 ++ 27 ∷ []

abbrev pub signature_2 : Signature
signature_2 = 2 ∷ replicate 63 0 ++ 27 ∷ []

-- Nobody has signed yet, and all have.
abbrev agreed_with : List (Option Signature) → AgreedUponChannel
agreed_with signatures = record {
  part_idx = 0;
  withdraw_receiver = replicate 20 9;
  client = alice.client;
  funding_agreement = (10 ∷ 20 ∷ []) ∷ [];
  init_state = first_state;
  params = test_params;
  signatures = signatures;
  peers = alice.peers;
}

abbrev pub agreed : AgreedUponChannel
agreed = agreed_with (none ∷ none ∷ [])

-- The same, on the side of the second participant.
abbrev pub agreed_second : AgreedUponChannel
agreed_second = record agreed { part_idx = 1; client = bob.client }

abbrev pub all_signed : AgreedUponChannel
all_signed = agreed_with (some signature_1 ∷ some signature_2 ∷ [])

abbrev pub acceptance_2 : LedgerChannelUpdateAccepted
acceptance_2 = record { channel = first_state.id; version = 0; sig = signature_2 }

pub added :
    add_signature test_crates acceptance_2 agreed
    ≡ (agreed_with (none ∷ some signature_2 ∷ []), ok tt, [])
unfolding add_signature resume find_from add_if_missing store_signature assign recover_signer at_v
    bytes_eq address_from be_bytes from_be from_be_after
added = rw (state-hash test_crates test_crates-IsLawful first_state first_state-IsShaped)

abbrev pub built : SignedChannel
built = record {
  inner = record {
    part_idx = 0;
    withdraw_receiver = replicate 20 9;
    client = alice.client;
    state = first_state;
    params = test_params;
    signatures = signature_1 ∷ signature_2 ∷ [];
    peers = alice.peers;
  };
}

pub is_built : build all_signed tt ≡ (tt, ok built, (build all_signed tt).2)
unfolding build resume collect_from Active.new
is_built = refl

abbrev pub proposal : LedgerChannelProposal
proposal = record {
  proposal_id = replicate 32 4;
  challenge_duration = 100;
  nonce_share = replicate 32 5;
  init_bals = first_state.outcome;
  funding_agreement = (10 ∷ 20 ∷ []) ∷ [];
  participant = replicate 20 1;
  peers = alice.peers;
}

abbrev pub response : LedgerChannelProposalAcc
response = record {
  proposal_id = replicate 32 4;
  nonce_share = replicate 32 6;
  participant = replicate 20 2;
}

abbrev pub proposed_with : List (Option LedgerChannelProposalAcc) → ProposedChannel
proposed_with responses = record {
  part_idx = 0;
  withdraw_receiver = replicate 20 9;
  client = alice.client;
  proposal = proposal;
  responses = responses;
}

pub responded :
    participant_accepted 1 response (proposed_with (none ∷ []))
    ≡ (proposed_with (some response ∷ []), ok tt, [])
unfolding participant_accepted respond store_response assign resume bytes_eq
responded = refl

-- The parameters that the response leads to.
abbrev pub final : Params
final = record {
  challenge_duration = 100;
  nonce = from_be (test_crates.sha3_256 (proposal.nonce_share ++ response.nonce_share ++ []));
  participants = replicate 20 1 ∷ replicate 20 2 ∷ [];
  app = replicate 20 0;
  ledger_channel = true;
  virtual_channel = false;
}

pub final-IsShaped : IsShapedParams final
final-IsShaped = record {
  duration_fits = omega arith;
  first = replicate 20 1;
  first_size = refl;
  second = replicate 20 2;
  second_size = refl;
  two_participants = refl;
  app_size = refl;
}

abbrev initial : State
initial = record {
  id = test_crates.keccak256 (flatten (abi_encode (params_value test_crates final)));
  version = 0;
  outcome = first_state.outcome;
  is_final = false;
}

abbrev pub agreed_upon : AgreedUponChannel
agreed_upon =
    AgreedUpon.new alice.client ((10 ∷ 20 ∷ []) ∷ []) 0 (replicate 20 9) initial final alice.peers

pub is_agreed : Proposal.build test_crates (proposed_with (some response ∷ [])) ≡ ok agreed_upon
unfolding Proposal.build Proposal.collect_from Proposal.final_params new_state
is_agreed = rw (channel_id-hash test_crates test_crates-IsLawful final final-IsShaped)
