-- ===== src/Tests/Channels.antt =====
-- A payment channel between two participants, and its next state.
use fork_perun_rs.Base.{ℕ, false, true, [], ◌∷◌, refl, replicate, arith}
use fork_perun_rs.Base.Lists.{bytes_eq}
use fork_perun_rs.Abi.Bytes.{be_bytes}
use fork_perun_rs.Types.{Address}
use fork_perun_rs.Sig.{address_from}
use fork_perun_rs.Payment.{Params, State, total_assets, totals, total_from}
use fork_perun_rs.Payment.Laws.{IsShaped, IsShapedParams}
use fork_perun_rs.Channel.Types.{ActiveChannel}
use fork_perun_rs.Channel.Transition.{assets_eq, check_totals}
use fork_perun_rs.Channel.Transition.Laws.{IsValidTransition}
use fork_perun_rs.Channel.Round.{IsPair, IsRound, apply-round}
use fork_perun_rs.Tests.Crates.{test_crates, test_crates-IsLawful}

abbrev pub test_holder : Address
test_holder = replicate 20 7

abbrev pub first_state : State
first_state = record {
  id = replicate 32 1;
  version = 0;
  outcome = record {
    assets = record { holder = test_holder } ∷ [];
    balances = (10 ∷ 20 ∷ []) ∷ [];
  };
  is_final = false;
}

abbrev pub second_state : State
second_state = record {
  id = replicate 32 1;
  version = 1;
  outcome = record { assets = record { holder = test_holder } ∷ []; balances = (7 ∷ 23 ∷ []) ∷ [] };
  is_final = false;
}

abbrev test_address : ℕ → Address
test_address k = address_from test_crates (test_crates.verifying_key (k ∷ []))

abbrev pub test_params : Params
test_params = record {
  challenge_duration = 100;
  nonce = 5;
  participants = test_address 1 ∷ test_address 2 ∷ [];
  app = replicate 20 0;
  ledger_channel = true;
  virtual_channel = false;
}

abbrev test_channel : ℕ → ℕ → ActiveChannel
test_channel part_idx key = record {
  part_idx = part_idx;
  withdraw_receiver = replicate 20 9;
  client = record { signer = record { key = key ∷ []; addr = test_address key } };
  state = first_state;
  params = test_params;
  signatures = [];
  peers = (65 ∷ []) ∷ (66 ∷ []) ∷ [];
}

abbrev pub alice : ActiveChannel
alice = test_channel 0 1

abbrev pub bob : ActiveChannel
bob = test_channel 1 2

unfoldable pub second_state-IsShaped : IsShaped second_state
second_state-IsShaped = record {
  id_size = refl;
  version_fits = omega arith;
  holder = test_holder;
  holder_size = refl;
  one_asset = refl;
  own = 7;
  other = 23;
  two_balances = refl;
}

pub test_params-IsShapedParams : IsShapedParams test_params
unfolding address_from be_bytes
test_params-IsShapedParams = record {
  duration_fits = omega arith;
  first = test_address 1;
  first_size = refl;
  second = test_address 2;
  second_size = refl;
  two_participants = refl;
  app_size = refl;
}

pub second_state-IsValid : IsValidTransition test_crates first_state second_state
unfolding bytes_eq assets_eq check_totals total_assets totals total_from
second_state-IsValid = record {
  same_id = refl;
  not_final = refl;
  next_version = refl;
  same_assets = refl;
  same_totals = refl;
}

pub alice-bob-IsPair : IsPair test_crates alice bob
alice-bob-IsPair = record {
  same_state = refl;
  first = refl;
  second = refl;
  participants_a = refl;
  participants_b = refl;
  name_a = 65 ∷ [];
  name_b = 66 ∷ [];
  peers_a = refl;
  peers_b = refl;
}

pub round : IsRound test_crates alice bob second_state
round =
    apply-round test_crates alice bob second_state test_crates-IsLawful second_state-IsShaped
      alice-bob-IsPair second_state-IsValid
