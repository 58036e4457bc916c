-- ===== src/Demo/Application.antt =====
-- cortex-m-demo/src/application.rs: the states of the demo, its sockets, and what it does when it is
-- polled or a button is pressed. What it sends is listed as messages.
pub mod Answers
pub mod Handlers
pub mod Poll
pub mod Phase
pub mod Laws
pub mod Steps
pub mod Pressing
pub mod Forwarding
pub mod Polling
use fork_perun_rs.Base.{
  ℕ, ◌+◌, ◌-◌, ◌%◌, ◌^◌, Bool, List, [], ◌++◌, Option, none, some, Outcome, ok, err, panic, ok_or,
}
use fork_perun_rs.Effects.{◌>>=◌, ◌>>◌, lift, get, put, pure}
use fork_perun_rs.Types.{Bytes, Address}
use fork_perun_rs.Messages.{Identity}
use fork_perun_rs.Bus.{Sent, Method}
use fork_perun_rs.Channel.Types.{PerunClient}
use fork_perun_rs.Demo.Channel.{ChannelInner}
use fork_perun_rs.Demo.Socket.{TcpSocket}
use fork_perun_rs.Demo.Receive.{Error, network}

abbrev pub Endpoint : Type 0
Endpoint = Bytes × ℕ

pub record Config : Type 0 where
  pub config_server : Endpoint
  pub other_participant : Endpoint
  pub service_server : Endpoint
  pub listen_port : ℕ
  pub participants : List Identity

-- The random number generator of the rand crate.
pub record Rng : Type 1 where
  pub StdRng : Type 0
  pub next_u32 : StdRng → ℕ × StdRng
  -- `gen()` of 32 bytes.
  pub gen : StdRng → Bytes × StdRng

-- With the holder of the asset and the receiver of withdrawals, once these are known.
pub data ApplicationState : Type 0 where
  initial_state connecting_to_config_dealer : ApplicationState
  closing_sockets listening wait_for_proposal connecting wait_for_handshake :
      Address → Address → ApplicationState
  active : Address → Address → ChannelInner → ApplicationState

module _ (tcp : TcpSocket) (rng : Rng) where
  pub record Application : Type 0 where
    pub state : ApplicationState
    pub participant_socket : tcp.Socket
    pub service_socket : tcp.Socket
    pub config : Config
    pub generator : rng.StdRng
    pub client : PerunClient
    pub addr : Address

  abbrev pub Handler : Type 0 → Type 0
  Handler A = Method Application Error A

  unfoldable pub new :
      tcp.Socket → tcp.Socket → Config → rng.StdRng → Address → PerunClient → Application
  new participant_socket service_socket config generator addr client = record {
    state = initial_state;
    participant_socket = participant_socket;
    service_socket = service_socket;
    config = config;
    generator = generator;
    client = client;
    addr = addr;
  }

  unfoldable pub set_state : ApplicationState → Handler (Unit {0})
  set_state state = do app ← get; put (record app { state = state })

  -- A method of one of the sockets.
  unfoldable pub on_participant : {A : Type 0} → Method tcp.Socket Error A → Handler A
  on_participant m app =
      let (t, r, sent) = m app.participant_socket in
      (record app { participant_socket = t }, r, sent)

  unfoldable pub on_service : {A : Type 0} → Method tcp.Socket Error A → Handler A
  on_service m app =
      let (t, r, sent) = m app.service_socket in (record app { service_socket = t }, r, sent)

  -- `(self.rng.next_u32() as u16) % (MAX - MIN)`, after MIN.
  unfoldable pub get_ethemeral_port : Handler ℕ
  get_ethemeral_port = do
    app ← get
    let (n, generator) = rng.next_u32 app.generator
    put (record app { generator = generator })
    pure (49152 + n % 2 ^ 16 % (65535 - 49152))

  unfoldable pub gen : Handler Bytes
  gen = do
    app ← get
    let (b, generator) = rng.gen app.generator
    put (record app { generator = generator })
    pure b

  -- A change of a socket that may fail.
  unfoldable pub change_socket :
      (tcp.Socket → Option tcp.Socket) → Method tcp.Socket Error (Unit {0})
  change_socket f = do s ← get; t ← lift (ok_or (f s) network); put t

  unfoldable pub connect_participant : Endpoint → Handler (Unit {0})
  unfolding get_ethemeral_port on_participant change_socket
  connect_participant remote = do
    port ← get_ethemeral_port
    on_participant (change_socket (tcp.connect remote port))

  unfoldable pub connect_service : Endpoint → Handler (Unit {0})
  unfolding get_ethemeral_port on_service change_socket
  connect_service remote = do
    port ← get_ethemeral_port
    on_service (change_socket (tcp.connect remote port))
