-- ===== src/Demo/Main.antt =====
-- cortex-m-demo/src/main.rs: the main loop of a device. What the network does to the sockets, the time
-- and the levels of the pins are the input of a round; the lights are Booleans.
pub mod Distance
pub mod Laws
pub mod Stopping
use fork_perun_rs.Base.{
  ℕ, ◌+◌, ◌%◌, Bool, true, false, not, List, [], ◌∷◌, Outcome, ok, err, panic, ltb, if◌then◌else◌,
}
use fork_perun_rs.Payment.{u64_bound}
use fork_perun_rs.Effects.{◌>>=◌, ◌>>◌, get, put, pure}
use fork_perun_rs.External.{External}
use fork_perun_rs.Bus.{Sent, Method}
use fork_perun_rs.Wire.Encoding.{Codec}
use fork_perun_rs.Wire.Envelope.{Envelope, Message}
use fork_perun_rs.Demo.Button.{DebouncedButton, is_rising_edge, is_falling_edge}
use fork_perun_rs.Demo.Button as Button
use fork_perun_rs.Demo.Socket.{TcpSocket}
use fork_perun_rs.Demo.Receive.{Error}
use fork_perun_rs.Demo.Application.{Rng, Application, Handler}
use fork_perun_rs.Demo.Application.Poll.{poll, update, force_close, propose_channel}

-- Milliseconds.
abbrev pub debounce_threshhold : ℕ
debounce_threshhold = 100

-- Which pins are high.
pub record Pins : Type 0 where
  pub update_pin : Bool
  pub normal_close_pin : Bool
  pub force_close_pin : Bool
  pub propose_channel_pin : Bool

module _ (tcp : TcpSocket) (rng : Rng) where
  pub record Device : Type 0 where
    pub app : Application tcp rng
    pub update_btn : DebouncedButton
    pub normal_close_btn : DebouncedButton
    pub force_close_btn : DebouncedButton
    pub propose_channel_btn : DebouncedButton
    pub green_led : Bool
    pub red_led : Bool
    pub blue_led : Bool
    pub last_toggle_time : ℕ

  pub record Input : Type 0 where
    pub time : ℕ
    pub pins : Pins
    -- `iface.poll`: packets are sent and received.
    pub participant_network : tcp.Socket → tcp.Socket
    pub service_network : tcp.Socket → tcp.Socket

  abbrev pub Loop : Type 0
  Loop = Method Device Error (Unit {0})

  -- The device before its main loop, from the levels of the pins at that time.
  unfoldable pub set_up : Pins → Application tcp rng → Device
  set_up pins app = record {
    app = app;
    update_btn = Button.new pins.update_pin debounce_threshhold;
    normal_close_btn = Button.new pins.normal_close_pin debounce_threshhold;
    force_close_btn = Button.new pins.force_close_pin debounce_threshhold;
    propose_channel_btn = Button.new pins.propose_channel_pin debounce_threshhold;
    green_led = false;
    red_led = false;
    blue_led = true;
    last_toggle_time = 0;
  }

  unfoldable pub poll_network : Input → Loop
  poll_network input = do
    d ← get
    put (record d {
      app = record d.app {
        participant_socket = input.participant_network d.app.participant_socket;
        service_socket = input.service_network d.app.service_socket;
      };
    })

  -- `.unwrap()`: an error is a panic, which ends the loop.
  unfoldable pub unwrapped :
      Device
      → Application tcp rng × Outcome Error (Unit {0}) × List Sent
      → Device × Outcome Error (Unit {0}) × List Sent
  unwrapped d (app, ok _, sent) = (record d { app = app }, ok tt, sent)
  unwrapped d (app, err _, sent) = (record d { app = app }, panic, sent)
  unwrapped d (app, panic, sent) = (record d { app = app }, panic, sent)

  -- The green light is toggled on success, and the red one on an error.
  unfoldable pub signalled :
      Device
      → Application tcp rng × Outcome Error (Unit {0}) × List Sent
      → Device × Outcome Error (Unit {0}) × List Sent
  signalled d (app, ok _, sent) = (record d { app = app; green_led = not d.green_led }, ok tt, sent)
  signalled d (app, err _, sent) = (record d { app = app; red_led = not d.red_led }, ok tt, sent)
  signalled d (app, panic, sent) = (record d { app = app }, panic, sent)

  -- What a button asks for, if it was pressed.
  unfoldable pub pressed : Bool → Handler tcp rng (Unit {0}) → Loop
  unfolding signalled
  pressed true m d = signalled d (m d.app)
  pressed false m d = (d, ok tt, [])

  -- Once a second.
  unfoldable pub blink : ℕ → Loop
  blink time = do
    d ← get
    if ltb ((d.last_toggle_time + 1000) % u64_bound) time
        then put (record d { blue_led = not d.blue_led; last_toggle_time = time })
        else pure tt

  module _ (x : External) (envelopes : Codec Envelope) (messages : Codec Message) where
    unfoldable pub poll_app : Loop
    unfolding unwrapped
    poll_app d = unwrapped d (poll tcp rng x envelopes messages d.app)

    unfoldable pub propose_button : Input → Loop
    unfolding pressed
    propose_button input = do
      d ← get
      let (btn, edge) =
          is_falling_edge input.pins.propose_channel_pin input.time d.propose_channel_btn
      put (record d { propose_channel_btn = btn })
      pressed edge (propose_channel tcp rng x envelopes messages)

    unfoldable pub update_button : Input → Loop
    unfolding pressed
    update_button input = do
      d ← get
      let (btn, edge) = is_rising_edge input.pins.update_pin input.time d.update_btn
      put (record d { update_btn = btn })
      pressed edge (update tcp rng x envelopes messages 100 false)

    unfoldable pub normal_close_button : Input → Loop
    unfolding pressed
    normal_close_button input = do
      d ← get
      let (btn, edge) = is_falling_edge input.pins.normal_close_pin input.time d.normal_close_btn
      put (record d { normal_close_btn = btn })
      pressed edge (update tcp rng x envelopes messages 0 true)

    unfoldable pub force_close_button : Input → Loop
    unfolding pressed
    force_close_button input = do
      d ← get
      let (btn, edge) = is_falling_edge input.pins.force_close_pin input.time d.force_close_btn
      put (record d { force_close_btn = btn })
      pressed edge (force_close tcp rng x envelopes messages)

    -- One round of the loop.
    unfoldable pub round : Input → Loop
    unfolding poll_network poll_app propose_button update_button normal_close_button
        force_close_button blink
    round input = do
      poll_network input
      poll_app
      propose_button input
      update_button input
      normal_close_button input
      force_close_button input
      blink input.time

    -- The rounds of these inputs, as far as there is no panic.
    unfoldable pub run : List Input → Loop
    run [] = pure tt
    run (input ∷ inputs) = do round input; run inputs
