-- ===== src/Channel/Proposal/Laws.antt =====
-- `accept`, `participant_accepted` and `build` of src/channel/proposal.rs.
use fork_perun_rs.Base.{
  map, suc, ℕ, ◌≡◌, ◌∙◌, refl, ap, sym, List, [], ◌∷◌, ◌++◌, Option, none, some, ok, panic,
  get_elem?, replicate, ltb, Bool-cases, inl, inr, bytes_eq_iff, length, set, arith, true, false,
}
use fork_perun_rs.Base.Inversion.{bind-ok, map_err-ok, unwrap-ok, guard-ok, ok-injective, ok≢panic}
use fork_perun_rs.Effects.Inversion as Act
use fork_perun_rs.Effects.{resume}
use fork_perun_rs.External.{External, IsLawful}
use fork_perun_rs.Types.{Bytes, Address, NonceShare}
use fork_perun_rs.Abi.Bytes.{from_be}
use fork_perun_rs.Payment.{Params, new_state}
use fork_perun_rs.Messages.{LedgerChannelProposalAcc}
use fork_perun_rs.Bus.{Sent}
use fork_perun_rs.Channel.Types.{assign}
use fork_perun_rs.Channel.AgreedUpon.{AgreedUponChannel}
use fork_perun_rs.Channel.AgreedUpon as AgreedUpon
use fork_perun_rs.Channel.Proposal.{
  ProposedChannel, accept, store_response, respond, participant_accepted, collect_from,
  final_params, build,
}

-- The proposer, whose index is 0, cannot accept: the call is a panic, not an error, and nothing
-- changes or is sent.
pub accept-panic :
    (nonce_share : NonceShare) (address : Address) (ch : ProposedChannel)
    → ch.part_idx ≡ 0
    → accept nonce_share address ch ≡ (ch, panic, [])
unfolding accept resume
accept-panic nonce_share address ch h = rw h

respond-ok :
    (i : ℕ) (msg : LedgerChannelProposalAcc) (slot : Option LedgerChannelProposalAcc)
    (ch : ProposedChannel) {ch' : ProposedChannel} {sent : List Sent}
    → respond i msg slot ch ≡ (ch', ok tt, sent)
    → (slot ≡ none) × (ch' ≡ record ch { responses = set ch.responses i (some msg) }) × (sent ≡ [])
unfolding respond store_response assign resume
respond-ok i msg (some _) ch h = absurd (ground arith)
respond-ok i msg none ch h = elim (Bool-cases (ltb i (length ch.responses))) [
  | inl y ↦
      let stored = sym h ∙ storing i msg ch y in (refl, ap (λ r. r.0) stored, ap (λ r. r.2) stored)
  | inr n ↦ absurd (ok≢panic _ (sym (ap (λ r. r.1) h) ∙ panicking i msg ch n))
]
  where
    storing :
        (i : ℕ) (msg : LedgerChannelProposalAcc) (ch : ProposedChannel)
        → ltb i (length ch.responses) ≡ true
        → respond i msg none ch
          ≡ (record ch { responses = set ch.responses i (some msg) }, ok tt, [])
    storing i msg ch y = rw y

    panicking :
        (i : ℕ) (msg : LedgerChannelProposalAcc) (ch : ProposedChannel)
        → ltb i (length ch.responses) ≡ false
        → (respond i msg none ch).1 ≡ panic
    panicking i msg ch n = rw n

-- If `participant_accepted` succeeds, the response is to this proposal and the first one of the
-- participant, whose slot is all that changes; nothing is sent.
pub participant_accepted-response :
    (i : ℕ) (msg : LedgerChannelProposalAcc) (ch : ProposedChannel) {ch' : ProposedChannel}
    {sent : List Sent}
    → participant_accepted (suc i) msg ch ≡ (ch', ok tt, sent)
    → (msg.proposal_id ≡ ch.proposal.proposal_id)
      × (get_elem? ch.responses i ≡ some none)
      × (ch' ≡ record ch { responses = set ch.responses i (some msg) })
      × (sent ≡ [])
unfolding participant_accepted
participant_accepted-response i msg ch h =
    let (_, e1, h1) = Act.lift-ok _ _ (Act.pure-ok ch _ h) in
    let h2 = Act.pure-ok i _ h1 in
    let (slot, e3, h3) = Act.lift-ok _ _ h2 in
    let (empty, changed, silent) = respond-ok i msg slot ch h3 in
    ((bytes_eq_iff _ _).0 (guard-ok _ _ e1), unwrap-ok _ e3 ∙ ap some empty, changed, silent)

-- The addresses and the nonce shares of some responses.
abbrev pub addresses : List LedgerChannelProposalAcc → List Address
addresses [] = []
addresses (r ∷ rs) = r.participant ∷ addresses rs

abbrev pub shares : List LedgerChannelProposalAcc → Bytes
shares [] = []
shares (r ∷ rs) = r.nonce_share ++ shares rs

collect_from-ok :
    (i : ℕ) (slots : List (Option LedgerChannelProposalAcc)) {parts : List Address × Bytes}
    → collect_from i slots ≡ ok parts
    → (rs : List LedgerChannelProposalAcc) × (slots ≡ map some rs)
      × (parts ≡ (addresses rs, shares rs))
unfolding collect_from
collect_from-ok i [] h = ([], refl, sym (ok-injective _ _ h))
collect_from-ok i (none ∷ slots) h = absurd (ground arith)
collect_from-ok i (some r ∷ slots) h =
    let (rest, e, h1) = bind-ok _ _ h in
    let (rs, full, same) = collect_from-ok (suc i) slots e in
    (
      r ∷ rs,
      ap (◌∷◌ (some r)) full,
      sym (ok-injective _ _ h1)
          ∙ ap (λ (p : List Address × Bytes). (r.participant ∷ p.0, r.nonce_share ++ p.1)) same,
    )

final_params-ok :
    (x : External) (ch : ProposedChannel) (parts : List Address × Bytes) {params : Params}
    → IsLawful x
    → final_params x ch parts ≡ ok params
    → record {
      challenge_duration = ch.proposal.challenge_duration;
      nonce = from_be (x.sha3_256 (ch.proposal.nonce_share ++ parts.1));
      participants = ch.proposal.participant ∷ parts.0;
      app = replicate 20 0;
      ledger_channel = true;
      virtual_channel = false;
    }
      ≡ params
unfolding final_params
final_params-ok x ch (addrs, bytes) lawful h =
    ok-injective _ _
      (sym (rw (lawful.reads_big_endian digest (omega (arith, lawful.sha3_size input)))) ∙ h)
  where
    input : Bytes
    input = ch.proposal.nonce_share ++ bytes

    digest : Bytes
    digest = x.sha3_256 input

-- If `build` succeeds, every other participant has responded; the participants are the proposer
-- and then the others in the order of their slots, the nonce is the SHA3-256 hash (the documentation
-- in src/channel.rs says SHA256) of all nonce shares in the same order as a big-endian number, and the initial state is the one of these parameters
-- and the proposed balances. Nobody has signed it yet.
pub build-agreed :
    (x : External) (ch : ProposedChannel) {agreed : AgreedUponChannel}
    → IsLawful x
    → build x ch ≡ ok agreed
    → (rs : List LedgerChannelProposalAcc) × (ch.responses ≡ map some rs)
      × (agreed.params.participants ≡ ch.proposal.participant ∷ addresses rs)
      × (agreed.params.nonce ≡ from_be (x.sha3_256 (ch.proposal.nonce_share ++ shares rs)))
      × (agreed.params.challenge_duration ≡ ch.proposal.challenge_duration)
      × (new_state x agreed.params ch.proposal.init_bals ≡ ok agreed.init_state)
      × (agreed.signatures ≡ none ∷ none ∷ [])
unfolding build AgreedUpon.new
build-agreed x ch lawful h =
    let (parts, e1, h1) = bind-ok _ _ (map_err-ok _ _ h) in
    let (params, e2, h2) = bind-ok _ _ h1 in
    let (init, e3, h3) = bind-ok _ _ h2 in
    let (rs, full, same) = collect_from-ok 0 ch.responses e1 in
    let made = sym (ok-injective _ _ h3) in
    let settled = sym (final_params-ok x ch parts lawful e2) in
    (
      rs,
      full,
      ap (λ (c : AgreedUponChannel). c.params.participants) made
          ∙ ap (λ (p : Params). p.participants) settled
          ∙ ap (λ (p : List Address × Bytes). ch.proposal.participant ∷ p.0) same,
      ap (λ (c : AgreedUponChannel). c.params.nonce) made
          ∙ ap (λ (p : Params). p.nonce) settled
          ∙ ap (λ (p : List Address × Bytes). from_be (x.sha3_256 (ch.proposal.nonce_share ++ p.1)))
              same,
      ap (λ (c : AgreedUponChannel). c.params.challenge_duration) made
          ∙ ap (λ (p : Params). p.challenge_duration) settled,
      ap (λ (c : AgreedUponChannel). new_state x c.params ch.proposal.init_bals) made
          ∙ map_err-ok _ _ e3
          ∙ ap (λ (c : AgreedUponChannel). ok c.init_state) (sym made),
      ap (λ (c : AgreedUponChannel). c.signatures) made,
    )
