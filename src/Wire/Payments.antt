-- ===== src/Wire/Payments.antt =====
-- src/channel/fixed_size_payment.rs: the conversions of parameters, states, allocations and
-- balances, for one asset and two participants.
pub mod Parameters
pub mod Laws
use fork_perun_rs.Base.{
  ℕ, ◌+◌, ◌*◌, false, List, [], ◌∷◌, ◌++◌, some, Outcome, ok, err, panic, ◌>>=◌, unwrap, map,
  length, drop, replicate, ltb, not, ◌==◌, if◌then◌else◌,
}
use fork_perun_rs.External.{External}
use fork_perun_rs.Types.{Bytes, Address}
use fork_perun_rs.Payment.{
  Params, Asset, ParticipantBalances, Balances, Allocation, State, channel_id,
}
use fork_perun_rs.Messages.{
  ConversionError, participant_size_missmatch, asset_size_missmatch, byte_length_missmatch,
  state_channels_not_supported,
}
use fork_perun_rs.Wire.{try_bytes, try_some, fill, expect}
use fork_perun_rs.Wire.Perunwire

abbrev pub asset_count : ℕ
asset_count = 1

abbrev pub participant_count : ℕ
participant_count = 2

-- `Address::default()`
abbrev pub zero_address : Address
zero_address = replicate 20 0

-- `ParticipantBalances::default()`
abbrev pub zero_balances : ParticipantBalances
zero_balances = replicate participant_count 0

unfoldable pub try_params : External → Perunwire.Params → Outcome ConversionError Params
try_params x value = do
  participants ← fill (try_bytes 20) (replicate participant_count zero_address) value.parts
  nonce ← unwrap (x.u256_from_big_endian value.nonce)
  ok (record {
    challenge_duration = value.challenge_duration;
    nonce = nonce;
    participants = participants;
    app = zero_address;
    ledger_channel = value.ledger_channel;
    virtual_channel = value.virtual_channel;
  })

unfoldable pub into_params : {E : Type 0} → External → Params → Outcome E Perunwire.Params
into_params x value = do
  id ← expect (channel_id x value)
  ok (record {
    id = id;
    challenge_duration = value.challenge_duration;
    parts = value.participants;
    app = [];
    nonce = x.u256_to_big_endian value.nonce;
    ledger_channel = value.ledger_channel;
    virtual_channel = value.virtual_channel;
  })

unfoldable pub try_balance :
    External → Perunwire.Balance → Outcome ConversionError ParticipantBalances
try_balance x value =
    if not (length value.balance == participant_count)
    then err participant_size_missmatch
    else fill (λ b. unwrap (x.u256_from_big_endian b)) zero_balances value.balance

unfoldable pub into_balance : External → ParticipantBalances → Perunwire.Balance
into_balance x value = record { balance = map x.u256_to_big_endian value }

unfoldable pub try_balances : External → Perunwire.Balances → Outcome ConversionError Balances
unfolding try_balance
try_balances x value =
    if not (length value.balances == asset_count)
    then err asset_size_missmatch
    else fill (try_balance x) (replicate asset_count zero_balances) value.balances

unfoldable pub into_balances : External → Balances → Perunwire.Balances
unfolding into_balance
into_balances x value = record { balances = map (into_balance x) value }

-- The number of two bytes, the low one first, at the start of an asset.
abbrev pub holder_length : Bytes → ℕ
holder_length (low ∷ high ∷ _) = low + 256 * high
holder_length _ = 0

-- The body of the loop over the assets; `copy_from_slice` panics on another length.
unfoldable pub try_asset : Bytes → Outcome ConversionError Asset
try_asset b =
    if ltb (length b) 2
    then err byte_length_missmatch
    else if ltb 20 (holder_length b)
    then err byte_length_missmatch
    else if ltb 0 (holder_length b)
    then if length (drop 2 b) == 20 then ok (record { holder = drop 2 b }) else panic
    else ok (record { holder = zero_address })

unfoldable pub into_asset : Asset → Bytes
into_asset a = a.holder

unfoldable pub try_allocation : External → Perunwire.Allocation → Outcome ConversionError Allocation
unfolding try_asset try_balances
try_allocation x value = do
  assets ← fill try_asset (replicate asset_count (record { holder = zero_address })) value.assets
  balances ← try_some (try_balances x) value.balances
  ok (record { assets = assets; balances = balances })

unfoldable pub into_allocation : External → Allocation → Perunwire.Allocation
unfolding into_asset into_balances
into_allocation x value = record {
  assets = map into_asset value.assets;
  balances = some (into_balances x value.balances);
  locked = [];
}

unfoldable pub try_state : External → Perunwire.State → Outcome ConversionError State
unfolding try_allocation
try_state x value =
    if not (length value.data_bytes == 0) then err state_channels_not_supported else do
      id ← try_bytes 32 value.id
      outcome ← try_some (try_allocation x) value.allocation
      ok (record { id = id; version = value.version; outcome = outcome; is_final = value.is_final })

unfoldable pub into_state : External → State → Perunwire.State
unfolding into_allocation
into_state x value = record {
  id = value.id;
  version = value.version;
  app = [];
  allocation = some (into_allocation x value.outcome);
  data_bytes = [];
  is_final = value.is_final;
}
