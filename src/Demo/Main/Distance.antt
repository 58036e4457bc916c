-- ===== src/Demo/Main/Distance.antt =====
-- The phases of an application in the rounds of the main loop of cortex-m-demo/src/main.rs, and how far
-- they are from an active channel.
use fork_perun_rs.Base.{ℕ, ◌+◌, ◌≤◌, arith, Bool, false, List, ◌∷◌, length}
use fork_perun_rs.Demo.Application.Phase.{
  Phase, Next, stays, start, configuration, closure, attention, expectation, connection, greeting,
  activity,
}
use fork_perun_rs.Demo.Application.Pressing.{Pressed, keeps, connects}

-- What the button that proposes a channel does in a round: it connects only where its pin is low.
pub data Asked : Bool → Phase → Phase → Type 0 where
  unasked : {is_high : Bool} {p : Phase} → Asked is_high p p
  asked : {p q : Phase} → Pressed p q → Asked false p q

-- The phases of some rounds of the loop, one after the other, for the levels of that pin: in each round
-- polling makes at most one step, and then the button may connect. The rounds that are left when the
-- loop ends are not used.
pub data Rounds : List Bool → Phase → Phase → Type 0 where
  ended : {pins : List Bool} {p : Phase} → Rounds pins p p
  continued :
      {is_high : Bool} {pins : List Bool} {p q r t : Phase}
      → Next p q
      → Asked is_high q r
      → Rounds pins r t
      → Rounds (is_high ∷ pins) p t

-- How many rounds there are at least to an active channel.
abbrev pub distance : Phase → ℕ
distance start = 5
distance configuration = 4
distance closure = 3
distance attention = 2
distance expectation = 1
distance connection = 2
distance greeting = 1
distance activity = 0

distance-Next : {p q : Phase} → Next p q → distance p ≤ distance q + 1
distance-Next stays = omega arith
distance-Next _ = omega arith

distance-Pressed : {p q : Phase} → Pressed p q → distance p ≤ distance q
distance-Pressed keeps = omega arith
distance-Pressed connects = omega arith

distance-Asked : {is_high : Bool} {p q : Phase} → Asked is_high p q → distance p ≤ distance q
distance-Asked unasked = omega arith
distance-Asked (asked press) = distance-Pressed press

pub distance-Rounds :
    (pins : List Bool) {p q : Phase} → Rounds pins p q → distance p ≤ distance q + length pins
distance-Rounds pins Rounds.ended = omega arith
distance-Rounds (is_high ∷ pins) (Rounds.continued step press rest) =
    omega (arith, distance-Next step, distance-Asked press, distance-Rounds pins rest)
