-- ===== src/Demo/Main/Laws.antt =====
-- How the application moves in the main loop of cortex-m-demo/src/main.rs.
use fork_perun_rs.Base.{Bool, List, [], ◌∷◌}
use fork_perun_rs.External.{External}
use fork_perun_rs.Wire.Encoding.{Codec}
use fork_perun_rs.Wire.Envelope.{Envelope, Message}
use fork_perun_rs.Demo.Socket.{TcpSocket}
use fork_perun_rs.Demo.Application.{Rng, Application}
use fork_perun_rs.Demo.Application.Phase.{Phase, phase, Next}
use fork_perun_rs.Demo.Main.Distance.{Asked}
use fork_perun_rs.Demo.Main.{Device, Input, Loop}

-- One round.
IsRound : Bool → Phase → Phase → Type 0
IsRound is_high p r = (q : Phase) × Next p q × Asked is_high q r

module _ (tcp : TcpSocket) (rng : Rng) where
  -- Whatever the result is, the phases before and after are related.
  abbrev IsMoving : (Phase → Phase → Type 0) → Loop tcp rng → Type 0
  IsMoving R m = (d : Device tcp rng) → R (phase d.app.state) (phase (m d).0.app.state)

  module _ (x : External) (envelopes : Codec Envelope) (messages : Codec Message) where
    -- The levels of the pin of the button that proposes a channel.
    unfoldable pub propose_pins : List (Input tcp rng) → List Bool
    propose_pins [] = []
    propose_pins (input ∷ inputs) = input.pins.propose_channel_pin ∷ propose_pins inputs
