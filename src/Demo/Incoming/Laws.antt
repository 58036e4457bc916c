-- ===== src/Demo/Incoming/Laws.antt =====
-- What src/wire/encoding.rs makes of a message, cortex-m-demo/src/application.rs makes into the message
-- again.
use fork_perun_rs.Base.{ℕ, ◌<◌, ◌%◌, ◌≡◌, refl, arith, ok, List, length}
use fork_perun_rs.External.{External, IsLawful}
use fork_perun_rs.Messages.{
  ParticipantMessage, auth, channel_proposal, proposal_accepted, proposal_rejected, channel_update,
  channel_update_accepted, channel_update_rejected,
}
use fork_perun_rs.Wire.{u32_bound}
use fork_perun_rs.Wire.Payments.Laws.{IsNative}
use fork_perun_rs.Wire.Participants.Laws.{
  IsWritable, try_proposal-into_proposal, try_proposal_acc-into_proposal_acc,
  try_update-into_update, try_update_accepted-into_update_accepted,
}
use fork_perun_rs.Wire.Encoding.{participant_msg}
use fork_perun_rs.Demo.Incoming.{hash_of, incoming}

-- The byte arrays of a message have their lengths, its numbers fit, and a proposal or an update
-- is about one asset whose holder is the zero address (no other holder is read back), and two
-- participants.
unfoldable pub IsSendable : ParticipantMessage → Type 0
IsSendable auth = Unit
IsSendable (channel_proposal p) = IsWritable p
IsSendable (proposal_accepted a) =
    (length a.proposal_id ≡ 32) × (length a.nonce_share ≡ 32) × (length a.participant ≡ 20)
IsSendable (proposal_rejected id _) = length id ≡ 32
IsSendable (channel_update u) = IsNative u.state × (length u.sig ≡ 65) × (u.actor_idx < u32_bound)
IsSendable (channel_update_accepted a) = (length a.channel ≡ 32) × (length a.sig ≡ 65)
IsSendable (channel_update_rejected id _ _) = length id ≡ 32

hash_of-ok : (id : List ℕ) → length id ≡ 32 → hash_of id ≡ ok id
unfolding hash_of
hash_of-ok id h = rw h

module _ (x : External) (lawful : IsLawful x) where
  -- For lawful crates, a message between participants is read as it was written, if its byte arrays have
  -- their lengths, its numbers fit, and a proposal or an update is about one asset whose holder is the
  -- zero address, and two participants.
  pub incoming-participant_msg :
      (msg : ParticipantMessage) → IsSendable msg → incoming x (participant_msg x msg) ≡ ok msg
  unfolding incoming participant_msg IsSendable
  incoming-participant_msg auth h = refl
  incoming-participant_msg (channel_proposal p) h = rw (try_proposal-into_proposal x lawful p h)
  incoming-participant_msg (proposal_accepted a) (h1, h2, h3) =
      rw (try_proposal_acc-into_proposal_acc a h1 h2 h3)
  incoming-participant_msg (proposal_rejected id reason) h = rw (hash_of-ok id h)
  incoming-participant_msg (channel_update u) (native, sized, small) =
      rw (try_update-into_update x lawful u native sized) (rw (kept u.actor_idx small))
    where
      kept : (n : ℕ) → n < u32_bound → n % u32_bound ≡ n
      kept n h = omega (arith, h)
  incoming-participant_msg (channel_update_accepted a) (h1, h2) =
      rw (try_update_accepted-into_update_accepted a h1 h2)
  incoming-participant_msg (channel_update_rejected id version reason) h = rw (hash_of-ok id h)
