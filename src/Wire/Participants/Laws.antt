-- ===== src/Wire/Participants/Laws.antt =====
-- What of the messages of src/messages/proposal.rs and update.rs is read as it was written.
use fork_perun_rs.Base.{ℕ, ◌<◌, ◌%◌, ◌≡◌, [], ◌∷◌, ok, length}
use fork_perun_rs.External.{External, IsLawful, u256_bound}
use fork_perun_rs.Messages.{
  LedgerChannelProposal, LedgerChannelProposalAcc, LedgerChannelUpdate, LedgerChannelUpdateAccepted,
}
use fork_perun_rs.Wire.{u32_bound, try_some}
use fork_perun_rs.Wire.Payments.{zero_address}
use fork_perun_rs.Wire.Payments.Laws.{
  try_allocation-into_allocation, IsNative, try_state-into_state,
}
use fork_perun_rs.Wire.Payments.Parameters.{try_bytes-sized, try_balances-into_balances}
use fork_perun_rs.Wire.Participants.{
  try_proposal, into_proposal, try_proposal_acc, into_proposal_acc, try_update, into_update,
  try_update_accepted, into_update_accepted,
}

-- A proposal whose byte arrays have their lengths and whose asset has the holder zero, with the
-- balances and the funding agreement of two participants in 256 bits.
pub record IsWritable (p : LedgerChannelProposal) : Type 0 where
  pub proposal_id_size : length p.proposal_id ≡ 32
  pub nonce_share_size : length p.nonce_share ≡ 32
  pub participant_size : length p.participant ≡ 20
  pub own : ℕ
  pub other : ℕ
  pub own_fits : own < u256_bound
  pub other_fits : other < u256_bound
  pub native_bals : p.init_bals ≡ record {
    assets = record { holder = zero_address } ∷ [];
    balances = (own ∷ other ∷ []) ∷ [];
  }
  pub own_share : ℕ
  pub other_share : ℕ
  pub own_share_fits : own_share < u256_bound
  pub other_share_fits : other_share < u256_bound
  pub agreed : p.funding_agreement ≡ (own_share ∷ other_share ∷ []) ∷ []

module _ (x : External) (lawful : IsLawful x) where
  -- For lawful crates a proposal of the asset zero is read as it was written.
  pub try_proposal-into_proposal :
      (p : LedgerChannelProposal) → IsWritable p → try_proposal x (into_proposal x p) ≡ ok p
  unfolding try_proposal into_proposal
  try_proposal-into_proposal p w = rw (try_bytes-sized 32 p.proposal_id w.proposal_id_size) (
      rw (try_bytes-sized 32 p.nonce_share w.nonce_share_size) (
        rw (try_bytes-sized 20 p.participant w.participant_size) (
          rw (w.native_bals, w.agreed)
            (rw (try_allocation-into_allocation x lawful w.own w.other w.own_fits w.other_fits) (
              rw (
                try_balances-into_balances x lawful w.own_share w.other_share w.own_share_fits
                  w.other_share_fits))))))

  -- For lawful crates an update of a state of the asset zero is read as it was written, but for the
  -- index of the actor, which is cut off at 32 bits.
  pub try_update-into_update :
      (u : LedgerChannelUpdate)
      → IsNative u.state
      → length u.sig ≡ 65
      → try_update x (into_update x u) ≡ ok (record u { actor_idx = u.actor_idx % u32_bound })
  unfolding try_update into_update try_some
  try_update-into_update u native sized =
      rw (try_state-into_state x lawful u.state native) (rw (try_bytes-sized 65 u.sig sized))

-- The answer to a proposal is read as it was written, if its byte arrays have their lengths.
pub try_proposal_acc-into_proposal_acc :
    (a : LedgerChannelProposalAcc)
    → length a.proposal_id ≡ 32
    → length a.nonce_share ≡ 32
    → length a.participant ≡ 20
    → try_proposal_acc (into_proposal_acc a) ≡ ok a
unfolding try_proposal_acc into_proposal_acc
try_proposal_acc-into_proposal_acc a h1 h2 h3 =
    rw (try_bytes-sized 32 a.proposal_id h1)
      (rw (try_bytes-sized 32 a.nonce_share h2) (rw (try_bytes-sized 20 a.participant h3)))

-- The answer to an update is read as it was written, if its byte arrays have their lengths.
pub try_update_accepted-into_update_accepted :
    (a : LedgerChannelUpdateAccepted)
    → length a.channel ≡ 32
    → length a.sig ≡ 65
    → try_update_accepted (into_update_accepted a) ≡ ok a
unfolding try_update_accepted into_update_accepted
try_update_accepted-into_update_accepted a h1 h2 =
    rw (try_bytes-sized 32 a.channel h1) (rw (try_bytes-sized 65 a.sig h2))
