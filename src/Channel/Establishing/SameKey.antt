-- ===== src/Channel/Establishing/SameKey.antt =====
-- Establishing a channel (src/channel/agreed_upon.rs) between two clients whose signers `Signer::new` of
-- src/sig/k256.rs made.
use fork_perun_rs.Base.{
  ℕ, ◌≡◌, refl, ap, subst, arith, List, [], ◌∷◌, none, some, ok, err, get_elem?,
}
use fork_perun_rs.External.{External, IsLawful}
use fork_perun_rs.Types.{Address, Hash, Signature}
use fork_perun_rs.Abi.Bytes.{flatten}
use fork_perun_rs.Abi.Spec.{abi_encode}
use fork_perun_rs.Sig.{new_signer}
use fork_perun_rs.Sig.Roundtrip.{recover_signer-sign_eth}
use fork_perun_rs.Payment.{state_value}
use fork_perun_rs.Payment.Laws.{state-hash, new_state-IsShaped}
use fork_perun_rs.Messages.{LedgerChannelProposal, LedgerChannelProposalAcc}
use fork_perun_rs.Bus.{Sent}
use fork_perun_rs.Channel.Errors.{SignError, AddSignatureError}
use fork_perun_rs.Channel.Types.{PerunClient}
use fork_perun_rs.Channel.Proposal.{build}
use fork_perun_rs.Channel.AgreedUpon.{AgreedUponChannel, sign, add_signature, find_from}
use fork_perun_rs.Channel.AgreedUpon as AgreedUpon
use fork_perun_rs.Channel.AgreedUpon.Round.{initial_acceptance, ok-sign, twice-add_signature}
use fork_perun_rs.Channel.Establishing.Agreeing.{
  IsOffer, address_of, agreed_params, agreed, responded, ok-build, agreed_params-IsShapedParams,
  with_signatures, find-first,
}

-- A client with a signer that was made with these random numbers.
abbrev pub client_with : External → List ℕ → PerunClient
client_with x drawn = record { signer = new_signer x drawn }

-- Both build the channel and sign. The first, told of the signature of the second, takes it for its own.
pub record IsRefused (x : External) (prop : LedgerChannelProposal) (acc : LedgerChannelProposalAcc)
    (receiver_a receiver_b : Address) (drawn_a drawn_b : List ℕ) : Type 0 where
  pub agreed_a : AgreedUponChannel
  pub agreed_b : AgreedUponChannel
  pub half_a : AgreedUponChannel
  pub half_b : AgreedUponChannel
  pub sig_a : Signature
  pub sig_b : Signature
  pub builds_a : build x (responded x prop (client_with x drawn_a) 0 receiver_a acc) ≡ ok agreed_a
  pub builds_b : build x (responded x prop (client_with x drawn_b) 1 receiver_b acc) ≡ ok agreed_b
  pub signs_a : (sent : List Sent) × (sign x agreed_a ≡ (half_a, ok tt, sent))
  pub signs_b : (sent : List Sent) × (sign x agreed_b ≡ (half_b, ok tt, sent))
  pub signed_a : half_a.signatures ≡ some sig_a ∷ none ∷ []
  pub signed_b : half_b.signatures ≡ none ∷ some sig_b ∷ []
  pub refuses :
      add_signature x (initial_acceptance agreed_b sig_b) half_a
      ≡ (half_a, err AddSignatureError.already_signed, [])

-- For lawful crates, two clients whose signers come from `Signer::new`, with any random numbers, and a
-- proposal by the first and a response by the second for one asset and two participants: both build
-- and sign, and adding the signature of the second to the channel of the first is an error, as its
-- signer is found at the place of the first, which has signed.
pub add_signature-IsRefused :
    (x : External) (prop : LedgerChannelProposal) (acc : LedgerChannelProposalAcc)
    (receiver_a receiver_b : Address) (drawn_a drawn_b : List ℕ)
    → IsLawful x
    → IsOffer x (client_with x drawn_a) prop
    → acc.participant ≡ address_of x (client_with x drawn_b)
    → IsRefused x prop acc receiver_a receiver_b drawn_a drawn_b
unfolding agreed agreed_params AgreedUpon.new new_signer
add_signature-IsRefused x prop acc receiver_a receiver_b drawn_a drawn_b lawful offer responder =
    let a = client_with x drawn_a in
    let b = client_with x drawn_b in
    let (s, made, _, version, _, _, shaped) =
      new_state-IsShaped x lawful (agreed_params x prop acc) prop.init_bals offer.own offer.other
        offer.holder (agreed_params-IsShapedParams x prop a b acc lawful offer responder)
        offer.holder_size offer.one_asset in
    let hash : Hash = x.keccak256 (flatten (abi_encode (state_value x s))) in
    let hashed = state-hash x lawful s shaped in
    let (sig, signs, recovered) = recover_signer-sign_eth {E = SignError} x a.signer hash lawful in
    let side_a = agreed x prop a 0 receiver_a acc s in
    let side_b = agreed x prop b 1 receiver_b acc s in
    record {
      agreed_a = side_a;
      agreed_b = side_b;
      half_a = with_signatures side_a (some sig ∷ none ∷ []);
      half_b = with_signatures side_b (none ∷ some sig ∷ []);
      sig_a = sig;
      sig_b = sig;
      builds_a = ok-build x prop a 0 receiver_a acc s lawful made;
      builds_b = ok-build x prop b 1 receiver_b acc s lawful made;
      signs_a = (
        _,
        ok-sign x side_a hash sig offer.name_a refl (omega arith) hashed signs
            (ap (λ p. get_elem? p 0) offer.two_peers),
      );
      signs_b = (
        _,
        ok-sign x side_b hash sig offer.name_b refl (omega arith) hashed signs
            (ap (λ p. get_elem? p 1) offer.two_peers),
      );
      signed_a = refl;
      signed_b = refl;
      refuses =
          twice-add_signature x (with_signatures side_a (some sig ∷ none ∷ [])) hash sig
            (address_of x a) 0 version hashed recovered
            (subst (λ p. find_from 0 (prop.participant ∷ acc.participant ∷ []) p ≡ some 0)
              offer.proposer (find-first prop.participant acc.participant))
            refl;
    }
