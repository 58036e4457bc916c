-- ===== src/Channel/Proposal/Assertions.antt =====
-- `check_valid_proposal` of src/client.rs in a debug build.
use fork_perun_rs.Base.{ℕ, ◌≡◌, refl, Outcome, ◌>>◌}
use fork_perun_rs.Messages.{LedgerChannelProposal}
use fork_perun_rs.Payment.Assertions.{debug_assert_valid}
use fork_perun_rs.Payment.Assertions.Laws.{IsSized, IsBounded, debug_assert_valid_iff}
use fork_perun_rs.Channel.Proposal.{InvalidProposal, check_valid_proposal}

unfoldable pub debug_check_valid_proposal :
    LedgerChannelProposal → Outcome InvalidProposal (Unit {0})
debug_check_valid_proposal prop = debug_assert_valid prop.init_bals >> check_valid_proposal prop

-- For a proposal about assets and participants, and no more than 1024 of each: the check of a debug build
-- gives what that of a release build gives.
pub debug_check_valid_proposal-check_valid_proposal :
    (num_assets num_parts : ℕ) (prop : LedgerChannelProposal)
    → IsSized num_assets num_parts prop.init_bals
    → IsBounded num_assets num_parts
    → debug_check_valid_proposal prop ≡ check_valid_proposal prop
unfolding debug_check_valid_proposal
debug_check_valid_proposal-check_valid_proposal num_assets num_parts prop sized bounded =
    rw ((debug_assert_valid_iff num_assets num_parts prop.init_bals sized).1 bounded) refl
