-- ===== src/Channel/Transition.antt =====
-- `check_valid_transition` of src/channel/active.rs. Its assertions are checked in debug builds
-- only, and what they say holds by the types.
pub mod Laws
use fork_perun_rs.Base.{
  ℕ, ◌+◌, ◌%◌, Bool, true, false, not, List, [], ◌∷◌, Outcome, ok, err, panic, ◌>>=◌, bytes_eq,
  ◌==◌, ◌&&◌, if◌then◌else◌,
}
use fork_perun_rs.External.{External}
use fork_perun_rs.Payment.{Asset, State, u64_bound, total_assets}
use fork_perun_rs.Channel.Types.{ActiveChannel}
use fork_perun_rs.Channel.Errors.{InvalidUpdate}

-- `==` on the assets of an allocation.
unfoldable pub assets_eq : List Asset → List Asset → Bool
assets_eq [] [] = true
assets_eq (a ∷ xs) (b ∷ ys) = bytes_eq a.holder b.holder && assets_eq xs ys
assets_eq _ _ = false

-- The last test: no asset is gained or lost.
unfoldable pub check_totals : External → State → State → Outcome InvalidUpdate (Unit {0})
check_totals x old new = do
  after ← total_assets x new.outcome
  before ← total_assets x old.outcome
  if not (bytes_eq after before) then err InvalidUpdate.total_allocation_amount_mismatch else ok tt

unfoldable pub check_valid_transition :
    External → ActiveChannel → State → Outcome InvalidUpdate (Unit {0})
unfolding check_totals
check_valid_transition x ch new =
    if not (bytes_eq new.id ch.state.id)
    then err InvalidUpdate.invalid_channel_id
    else if ch.state.is_final
    then err InvalidUpdate.current_state_is_final
    else if not (new.version == (ch.state.version + 1) % u64_bound)
    then err InvalidUpdate.invalid_version_number
    else if not (assets_eq new.outcome.assets ch.state.outcome.assets)
    then err InvalidUpdate.assets_mismatch
    else check_totals x ch.state new
