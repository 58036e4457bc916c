-- ===== src/Channel/Proposal.antt =====
-- src/channel/proposal.rs and src/client.rs: a channel is proposed and accepted. The assertions
-- are checked in debug builds only.
pub mod Laws
pub mod Assertions
use fork_perun_rs.Base.{
  ℕ, zero, suc, ◌-◌, Bool, true, false, not, List, [], ◌∷◌, ◌++◌, Option, none, some, Outcome, ok,
  err, panic, unwrap, map_err, get_elem?, length, replicate, bytes_eq, ◌==◌, if◌then◌else◌,
}
use fork_perun_rs.Base.Results
use fork_perun_rs.Effects.{◌>>=◌, ◌>>◌, lift, send_all, fail, pure, get, put}
use fork_perun_rs.External.{External}
use fork_perun_rs.Types.{Bytes, Address, NonceShare}
use fork_perun_rs.Payment.{Params, State, new_state}
use fork_perun_rs.Messages.{
  Identity, LedgerChannelProposal, LedgerChannelProposalAcc, ParticipantMessage, auth,
  channel_proposal, proposal_accepted, proposal_rejected,
}
use fork_perun_rs.Bus.{Sent, to_participant, Method, broadcast}
use fork_perun_rs.Channel.Errors.{HandleAcceptError, AlreadyAcceptedError, ProposalBuildError}
use fork_perun_rs.Channel.Types.{PerunClient, assign}
use fork_perun_rs.Channel.AgreedUpon.{AgreedUponChannel}
use fork_perun_rs.Channel.AgreedUpon as AgreedUpon

pub record ProposedChannel : Type 0 where
  pub part_idx : ℕ
  pub withdraw_receiver : Address
  pub client : PerunClient
  pub proposal : LedgerChannelProposal
  pub responses : List (Option LedgerChannelProposalAcc)

unfoldable pub new : PerunClient → ℕ → Address → LedgerChannelProposal → ProposedChannel
new client part_idx withdraw_receiver proposal = record {
  part_idx = part_idx;
  withdraw_receiver = withdraw_receiver;
  client = client;
  proposal = proposal;
  responses = none ∷ [];
}

-- `part_idx - 1` as an index of the responses: for 0 it wraps to `usize::MAX`, which is out of
-- range, as `none` is here.
abbrev pub response_index : ℕ → Option ℕ
response_index zero = none
response_index (suc i) = some i

-- `self.responses[index] = Some(acc)`
unfoldable pub store_response :
    {E : Type 0} → ℕ → LedgerChannelProposalAcc → Method ProposedChannel E (Unit {0})
store_response i acc = do
  ch ← get
  rs ← lift (assign ch.responses i (some acc))
  put (record ch { responses = rs })

unfoldable pub accept :
    NonceShare → Address → Method ProposedChannel AlreadyAcceptedError (Unit {0})
unfolding store_response
accept nonce_share address = do
  ch ← get
  let acc : LedgerChannelProposalAcc = record {
    proposal_id = ch.proposal.proposal_id;
    nonce_share = nonce_share;
    participant = address;
  }
  i ← lift (unwrap (response_index ch.part_idx))
  store_response i acc
  send_all (broadcast ch.part_idx ch.proposal.peers (proposal_accepted acc))

unfoldable pub reject : {S E : Type 0} → ProposedChannel → Bytes → Method S E (Unit {0})
reject ch reason =
    send_all
      (broadcast ch.part_idx ch.proposal.peers (proposal_rejected ch.proposal.proposal_id reason))

unfoldable pub respond :
    ℕ
    → LedgerChannelProposalAcc
    → Option LedgerChannelProposalAcc
    → Method ProposedChannel HandleAcceptError (Unit {0})
unfolding store_response
respond i msg (some _) = fail HandleAcceptError.already_accepted
respond i msg none = store_response i msg

unfoldable pub participant_accepted :
    ℕ → LedgerChannelProposalAcc → Method ProposedChannel HandleAcceptError (Unit {0})
unfolding respond
participant_accepted part_idx msg = do
  ch ← get
  lift (
      Results.guard (bytes_eq msg.proposal_id ch.proposal.proposal_id)
        HandleAcceptError.invalid_proposal_id)
  i ← lift (unwrap (response_index part_idx))
  slot ← lift (unwrap (get_elem? ch.responses i))
  respond i msg slot

-- The loop of `build`: the participants and the nonce shares of the responses from the i-th on.
unfoldable pub collect_from :
    ℕ → List (Option LedgerChannelProposalAcc) → Outcome ProposalBuildError (List Address × Bytes)
collect_from i [] = ok ([], [])
collect_from i (none ∷ rs) = err (ProposalBuildError.missing_acc_response (suc i))
collect_from i (some r ∷ rs) =
    Results.◌>>=◌ (collect_from (suc i) rs)
      (λ rest. ok (r.participant ∷ rest.0, r.nonce_share ++ rest.1))

unfoldable pub final_params :
    External → ProposedChannel → List Address × Bytes → Outcome ProposalBuildError Params
final_params x ch (participants, shares) =
    Results.◌>>=◌ (unwrap (x.u256_from_big_endian (x.sha3_256 (ch.proposal.nonce_share ++ shares))))
      (λ nonce. ok (record {
        challenge_duration = ch.proposal.challenge_duration;
        nonce = nonce;
        participants = ch.proposal.participant ∷ participants;
        app = replicate 20 0;
        ledger_channel = true;
        virtual_channel = false;
      }))

-- The error of `build` holds the channel, too.
unfoldable pub build :
    External → ProposedChannel → Outcome (ProposedChannel × ProposalBuildError) AgreedUponChannel
unfolding collect_from final_params AgreedUpon.new
build x ch =
    map_err (λ e. (ch, e))
      (Results.◌>>=◌ (collect_from 0 ch.responses) (λ parts.
        Results.◌>>=◌ (final_params x ch parts) (λ params.
          Results.◌>>=◌
            (map_err ProposalBuildError.abi_encode_error (new_state x params ch.proposal.init_bals))
            (λ init_state. ok (
              AgreedUpon.new ch.client ch.proposal.funding_agreement ch.part_idx
                ch.withdraw_receiver init_state params ch.proposal.peers)))))

pub data InvalidProposal : Type 0 where
  no_challenge_duration_set peer_participant_count_mismatch : InvalidProposal

-- `PerunClient::send_handshake_msg`.
unfoldable pub send_handshake_msg : {S E : Type 0} → Identity → Identity → Method S E (Unit {0})
send_handshake_msg sender recipient = send_all (ok (to_participant sender recipient auth ∷ []))

unfoldable pub check_valid_proposal : LedgerChannelProposal → Outcome InvalidProposal (Unit {0})
check_valid_proposal prop =
    let first = get_elem? prop.init_bals.balances 0 in
    if prop.challenge_duration == 0
    then err InvalidProposal.no_challenge_duration_set
    else Results.◌>>=◌ (unwrap first) (λ bals.
      if not (length prop.peers == length bals)
      then err InvalidProposal.peer_participant_count_mismatch
      else ok tt)

-- `PerunClient::propose_channel`.
unfoldable pub propose_channel :
    {S : Type 0}
    → PerunClient
    → LedgerChannelProposal
    → Address
    → Method S InvalidProposal ProposedChannel
unfolding check_valid_proposal new
propose_channel client prop withdraw_receiver = do
  lift (check_valid_proposal prop)
  send_all (broadcast 0 prop.peers (channel_proposal prop))
  pure (new client 0 withdraw_receiver prop)

-- `PerunClient::handle_proposal`: nothing is checked.
unfoldable pub handle_proposal :
    PerunClient → LedgerChannelProposal → Address → Outcome InvalidProposal ProposedChannel
unfolding new
handle_proposal client prop withdraw_receiver = ok (new client 1 withdraw_receiver prop)
