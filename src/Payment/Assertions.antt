-- ===== src/Payment/Assertions.antt =====
-- The assertions on an allocation that a debug build checks (src/channel/fixed_size_payment.rs). The models of the methods are of a release build, in which they are not there.
pub mod Laws
use fork_perun_rs.Base.{
  ℕ, Bool, true, false, [], ◌∷◌, Outcome, ok, panic, ◌>>=◌, ◌>>◌, unwrap, length, get_elem?, ltb,
  leb, ◌==◌,
}
use fork_perun_rs.External.{External}
use fork_perun_rs.Abi.Ser.{Error}
use fork_perun_rs.Payment.{Balances, Allocation, Params, State, new_state}

-- `debug_assert!`
unfoldable pub debug_assert {ℓ} : {E : Type ℓ} → Bool → Outcome E (Unit {0})
debug_assert true = ok tt
debug_assert false = panic

-- MAX_NUM_ASSETS and MAX_NUM_PARTICIPANTS.
abbrev pub max_num : ℕ
max_num = 1024

module _ {E : Type 0} where
  -- The loop over the balances of each asset.
  unfoldable pub assert_rows : ℕ → Balances → Outcome E (Unit {0})
  unfolding debug_assert
  assert_rows num_parts [] = ok tt
  assert_rows num_parts (b ∷ rest) = do
    debug_assert (length b == num_parts)
    assert_rows num_parts rest

  -- The assertions on `locked`, which is always empty, are left out.
  unfoldable pub debug_assert_valid : Allocation → Outcome E (Unit {0})
  unfolding debug_assert assert_rows
  debug_assert_valid a = do
    debug_assert (ltb 0 (length a.assets))
    debug_assert (ltb 0 (length a.balances))
    debug_assert (leb (length a.assets) max_num)
    debug_assert (length a.assets == length a.balances)
    first ← unwrap (get_elem? a.balances 0)
    debug_assert (ltb 0 (length first))
    debug_assert (leb (length first) max_num)
    assert_rows (length first) a.balances

-- `State::new` of a debug build.
unfoldable pub debug_new_state : External → Params → Allocation → Outcome Error State
unfolding debug_assert debug_assert_valid
debug_new_state x params init_bals = do
  debug_assert_valid init_bals
  first ← unwrap (get_elem? init_bals.balances 0)
  debug_assert (length params.participants == length first)
  new_state x params init_bals
