-- ===== src/Channel/Types.antt =====
-- The state of an open channel (src/channel/active.rs) and of an update to it
-- (src/channel/channel_update.rs), which name each other.
use fork_perun_rs.Base.{
  ℕ, List, [], ◌∷◌, Option, none, some, Outcome, ok, panic, ◌>>=◌, length, set, ltb, if◌then◌else◌,
}
use fork_perun_rs.Types.{Hash, Address, Signature}
use fork_perun_rs.Sig.{Signer}
use fork_perun_rs.Payment.{Params, State}
use fork_perun_rs.Messages.{Peers}

abbrev pub participants_count : ℕ
participants_count = 2

-- `PerunClient`: its bus is the world outside.
pub record PerunClient : Type 0 where
  pub signer : Signer

pub record ActiveChannel : Type 0 where
  pub part_idx : ℕ
  pub withdraw_receiver : Address
  pub client : PerunClient
  pub state : State
  pub params : Params
  pub signatures : List Signature
  pub peers : Peers

pub record ChannelUpdate : Type 0 where
  pub channel_id : Hash
  pub new_state : State
  pub signatures : List (Option Signature)

-- `array[i] = v`: a panic out of range.
unfoldable pub assign {ℓ} : {E : Type ℓ} {A : Type 0} → List A → ℕ → A → Outcome E (List A)
assign xs i v = if ltb i (length xs) then ok (set xs i v) else panic

-- `ChannelUpdate::new`.
unfoldable pub new_update {ℓ} :
    {E : Type ℓ} → ActiveChannel → State → ℕ → Signature → Outcome E ChannelUpdate
unfolding assign
new_update channel new_state sig_part_idx sig = do
  signatures ← assign {A = Option Signature} (none ∷ none ∷ []) sig_part_idx (some sig)
  ok (record { channel_id = channel.state.id; new_state = new_state; signatures = signatures })
