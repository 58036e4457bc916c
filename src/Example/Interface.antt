-- ===== src/Example/Interface.antt =====
-- What examples/go-integration.rs uses of its module `net`, and the two participants.
use fork_perun_rs.Base.{[], ◌∷◌}
use fork_perun_rs.Effects.{Act}
use fork_perun_rs.Types.{Address}
use fork_perun_rs.Messages.{Identity, Peers}
use fork_perun_rs.Wire.Envelope.{Envelope, Message}
use fork_perun_rs.Wire.Encoding.{SentBytes}

pub record Config : Type 0 where
  pub eth_holder : Address
  pub withdraw_receiver : Address

-- What the program uses of a bus. Its calls give no error, but may panic.
abbrev pub Run : Type 0 → Type 0 → Type 0
Run S A = Act SentBytes S ⊥ A

-- The module `net`.
pub record Net : Type 1 where
  pub Bus : Type 0
  pub config : Config
  -- A call of `BytesBus`.
  pub deliver : SentBytes → Run Bus (Unit {0})
  pub recv_envelope : Run Bus Envelope
  pub recv_message : Run Bus Message

abbrev pub peer_0 : Identity
peer_0 =
    0x7b ∷ 0x7E ∷ 0x21 ∷ 0x26 ∷ 0x52 ∷ 0xb9 ∷ 0xC3 ∷ 0x75 ∷ 0x5C ∷ 0x4E ∷ 0x1f ∷ 0x17 ∷ 0x18 ∷ 0xa1
    ∷ 0x42 ∷ 0xdD ∷ 0xE3 ∷ 0x81 ∷ 0x75 ∷ 0x23 ∷ []

abbrev pub peer_1 : Identity
peer_1 =
    0xa6 ∷ 0x17 ∷ 0xfa ∷ 0x2c ∷ 0xc5 ∷ 0xeC ∷ 0x8d ∷ 0x72 ∷ 0xd4 ∷ 0xA6 ∷ 0x0b ∷ 0x9F ∷ 0x42 ∷ 0x46
    ∷ 0x77 ∷ 0xe7 ∷ 0x4E ∷ 0x6b ∷ 0xef ∷ 0x68 ∷ []

abbrev pub get_peers : Peers
get_peers = peer_0 ∷ peer_1 ∷ []
