-- ===== src/Demo/Channel/Moved.antt =====
-- The state that `update` of cortex-m-demo/src/channel.rs proposes: an amount is moved from the own
-- balance to that of the other participant.
use fork_perun_rs.Base.{
  ℕ, ◌+◌, ◌-◌, ◌≤◌, ◌<◌, ◌≡◌, arith, Bool, true, false, Bool-cases, inl, inr, [], ◌∷◌, ok, err,
  panic, ltb, leb, lt→ltb, le→not_ltb, not_ltb→le, if◌then◌else◌,
}
use fork_perun_rs.External.{External, IsLawful, u256_bound}
use fork_perun_rs.Payment.{State, make_next_state}
use fork_perun_rs.Channel.Types.{ActiveChannel}
use fork_perun_rs.Demo.Channel.{moved_state, move_balance, not_enough_funds}

leb-true : (a b : ℕ) → a ≤ b → leb a b ≡ true
leb-true a b h = ground arith

leb-false : (a b : ℕ) → b < a → leb a b ≡ false
leb-false a b h = ground arith

-- The next state with these balances.
abbrev pub next_with : ActiveChannel → ℕ → ℕ → Bool → State
next_with ch first second is_final = record (make_next_state ch.state) {
  outcome = record { assets = ch.state.outcome.assets; balances = (first ∷ second ∷ []) ∷ [] };
  is_final = is_final;
}

module _ (x : External) (lawful : IsLawful x) (ch : ActiveChannel) (first second amount : ℕ)
    (is_final : Bool) where
  -- For lawful crates and the second participant, whose balance the code checks: an amount that it
  -- does not have is refused, and any other is moved to the first, if that fits in 256 bits.
  pub moved_state-second :
      ch.state.outcome.balances ≡ (first ∷ second ∷ []) ∷ []
      → ch.part_idx ≡ 1
      → first + amount < u256_bound
      → moved_state x ch amount is_final ≡ (
          if ltb second amount
          then err not_enough_funds
          else ok (next_with ch (first + amount) (second - amount) is_final))
  unfolding moved_state move_balance make_next_state
  moved_state-second balances second_participant fits = elim (Bool-cases (ltb second amount)) [
    | inl few ↦ rw balances (rw few)
    | inr enough ↦ rw balances (
        rw enough (
          rw second_participant (
            rw (lawful.adds first amount) (
              rw (lt→ltb (first + amount) u256_bound fits) (
                rw (lawful.subtracts second amount)
                  (rw (leb-true amount second (not_ltb→le second amount enough))))))))
  ]

  -- For lawful crates and the first participant: an amount that it does not have, but the second
  -- participant has, makes the code panic.
  pub moved_state-first :
      ch.state.outcome.balances ≡ (first ∷ second ∷ []) ∷ []
      → ch.part_idx ≡ 0
      → first < amount
      → amount ≤ second
      → second + amount < u256_bound
      → moved_state x ch amount is_final ≡ panic
  unfolding moved_state move_balance make_next_state
  moved_state-first balances first_participant few enough fits = rw balances (
      rw (le→not_ltb second amount enough) (
        rw first_participant (
          rw (lawful.adds second amount) (
            rw (lt→ltb (second + amount) u256_bound fits)
              (rw (lawful.subtracts first amount) (rw (leb-false amount first few)))))))
