-- ===== src/Bus.antt =====
-- src/wire.rs: the message bus. A call of it is a value; broadcasting is one call for each other
-- participant.
pub mod Laws
use fork_perun_rs.Base.{
  ℕ, suc, Bool, true, false, List, [], ◌∷◌, Outcome, ok, ◌>>=◌, unwrap, get_elem?, ◌==◌,
  if◌then◌else◌,
}
use fork_perun_rs.Effects.{Act}
use fork_perun_rs.Messages.{
  Identity, Peers, WatcherRequestMessage, FunderRequestMessage, ParticipantMessage,
}

-- The calls of `MessageBus`.
pub data Sent : Type 0 where
  to_watcher : WatcherRequestMessage → Sent
  to_funder : FunderRequestMessage → Sent
  to_participant : Identity → Identity → ParticipantMessage → Sent

abbrev pub Method : Type 0 → Type 0 → Type 0 → Type 0
Method = Act Sent

-- The loop over the peers, from the i-th on.
unfoldable pub send_others : Identity → ℕ → ℕ → Peers → ParticipantMessage → List Sent
send_others sender part_idx i [] msg = []
send_others sender part_idx i (peer ∷ peers) msg =
    let rest = send_others sender part_idx (suc i) peers msg in
    if i == part_idx then rest else to_participant sender peer msg ∷ rest

-- `broadcast_to_participants`; an index outside the peers is a panic.
unfoldable pub broadcast {ℓ} : {E : Type ℓ} → ℕ → Peers → ParticipantMessage → Outcome E (List Sent)
unfolding send_others
broadcast part_idx peers msg = do
  sender ← unwrap (get_elem? peers part_idx)
  ok (send_others sender part_idx 0 peers msg)
