-- ===== src/Payment.antt =====
-- src/channel/fixed_size_payment.rs: the parameters, balances and states of a payment channel. An
-- array of a fixed size is a list; `IsShaped` says that it has that size. The fields that are
-- always empty, `app_data` and `locked`, stand only in the encoding.
pub mod Binding
pub mod Totals
pub mod Assertions
pub mod Laws
use fork_perun_rs.Base.{ℕ, ◌+◌, ◌%◌, ◌^◌, Bool, false, List, [], ◌∷◌, Outcome, ok, ◌>>=◌, unwrap}
use fork_perun_rs.External.{External}
use fork_perun_rs.Types.{
  Hash, Address, bytes_n_value, address_value, u256_value, as_bytes, as_dyn_array, to_hash,
}
use fork_perun_rs.Abi.Value.{Value, Items, nil, cons, bool, uint, u64, struct, unit}
use fork_perun_rs.Abi.Ser.{Error}

abbrev pub u64_bound : ℕ
u64_bound = 2 ^ 64

pub record Params : Type 0 where
  pub challenge_duration : ℕ
  pub nonce : ℕ
  pub participants : List Address
  pub app : Address
  pub ledger_channel : Bool
  pub virtual_channel : Bool

pub record Asset : Type 0 where
  pub holder : Address

abbrev pub ParticipantBalances : Type 0
ParticipantBalances = List ℕ

abbrev pub Balances : Type 0
Balances = List ParticipantBalances

pub record Allocation : Type 0 where
  pub assets : List Asset
  pub balances : Balances

pub record State : Type 0 where
  pub id : Hash
  pub version : ℕ
  pub outcome : Allocation
  pub is_final : Bool

unfoldable pub params_value : External → Params → Value
params_value x p = struct (
    cons (uint u64 p.challenge_duration) (
      cons (u256_value x p.nonce) (
        cons (as_dyn_array address_value p.participants) (
          cons (address_value p.app)
            (cons (bool p.ledger_channel) (cons (bool p.virtual_channel) nil))))))

unfoldable pub asset_value : Asset → Value
asset_value a = struct (cons (address_value a.holder) nil)

-- `Balances` and `ParticipantBalances` are transparent.
unfoldable pub balances_value : External → Balances → Value
balances_value x = as_dyn_array (as_dyn_array (u256_value x))

unfoldable pub allocation_value : External → Allocation → Value
unfolding asset_value balances_value
allocation_value x a = struct (
    cons (as_dyn_array asset_value a.assets)
      (cons (balances_value x a.balances) (cons (as_dyn_array {A = Unit {0}} (λ _. unit) []) nil)))

unfoldable pub state_value : External → State → Value
unfolding allocation_value
state_value x s = struct (
    cons (bytes_n_value s.id) (
      cons (uint u64 s.version)
        (cons (allocation_value x s.outcome) (cons (as_bytes []) (cons (bool s.is_final) nil)))))

unfoldable pub channel_id : External → Params → Outcome Error Hash
channel_id x p = to_hash x (params_value x p)

-- `State::new`; its assertions are checked in debug builds only.
unfoldable pub new_state : External → Params → Allocation → Outcome Error State
new_state x params init_bals = do
  id ← channel_id x params
  ok (record { id = id; version = 0; outcome = init_bals; is_final = false })

-- `version + 1` wraps in a release build.
unfoldable pub make_next_state : State → State
make_next_state s = record s { version = (s.version + 1) % u64_bound }

-- The inner loop of `total_assets`.
unfoldable pub total_from {ℓ} : {E : Type ℓ} → External → ℕ → ParticipantBalances → Outcome E ℕ
total_from x total [] = ok total
total_from x total (amt ∷ bals) = do t ← unwrap (x.u256_add total amt); total_from x t bals

unfoldable pub totals {ℓ} : {E : Type ℓ} → External → Balances → Outcome E (List ℕ)
unfolding total_from
totals x [] = ok []
totals x (bals ∷ rest) = do t ← total_from x 0 bals; ts ← totals x rest; ok (t ∷ ts)

-- `Allocation::total_assets`: the sum for each asset.
unfoldable pub total_assets {ℓ} : {E : Type ℓ} → External → Allocation → Outcome E (List ℕ)
unfolding totals
total_assets x a = totals x a.balances
