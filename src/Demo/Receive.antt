-- ===== src/Demo/Receive.antt =====
-- `try_recv` of cortex-m-demo/src/application.rs: a message is taken from a socket when all of its
-- bytes are there.
pub mod Parts
pub mod Laws
use fork_perun_rs.Base.{
  ℕ, ◌+◌, ◌-◌, Bool, true, false, not, Option, none, some, Outcome, ok, err, panic, ok_or, length,
  ltb, ◌==◌, if◌then◌else◌,
}
use fork_perun_rs.Abi.Bytes.{from_be}
use fork_perun_rs.Effects.{◌>>=◌, ◌>>◌, lift, fail, pure, get, put}
use fork_perun_rs.Types.{Bytes}
use fork_perun_rs.Messages.{ConversionError}
use fork_perun_rs.Bus.{Method}
use fork_perun_rs.Wire.Encoding.{Codec}
use fork_perun_rs.Channel.Errors.{ProposalBuildError, SignError}
use fork_perun_rs.Channel.Proposal.{InvalidProposal}
use fork_perun_rs.Demo.Channel as Channel
use fork_perun_rs.Demo.Socket.{TcpSocket}

-- `From` of each error is its constructor.
pub data Error : Type 0 where
  network : Error
  invalid_proposal : InvalidProposal → Error
  prost_decode envelope_has_no_msg unexpected_msg : Error
  conversion_error : ConversionError → Error
  channel_error : Channel.Error → Error
  invalid_state : Error
  message_larger_than_rx_buffer : ℕ → Error
  proposal_build_error : ProposalBuildError → Error
  sign_error : SignError → Error

abbrev pub max_message_size : ℕ
max_message_size = 510

-- `socket.recv(|x| { let len = x.len().min(2); (len, len) })`
abbrev pub at_most_two : Bytes → ℕ × ℕ
at_most_two b = let len = if ltb (length b) 2 then length b else 2 in (len, len)

module _ (tcp : TcpSocket) where
  -- `socket.recv(f)?`
  unfoldable pub recv : {A : Type 0} → (Bytes → ℕ × A) → Method tcp.Socket Error A
  recv f = do socket ← get; r ← lift (ok_or (tcp.recv f socket) network); put r.1; pure r.0

  -- The two bytes of the length are discarded, even if they are shown one by one.
  unfoldable pub skip_length : Method tcp.Socket Error (Unit {0})
  unfolding recv
  skip_length = do
    read ← recv at_most_two
    if read == 2 then pure tt else recv (λ _. (2 - read, tt))

  -- The message of this length is read and decoded; a slice of the buffer that is longer than the
  -- buffer panics, as does `unreachable!`.
  unfoldable pub read_msg : {T : Type 0} → Codec T → ℕ → Method tcp.Socket Error T
  read_msg codec len = do
    socket ← get
    if ltb max_message_size len then lift panic else pure tt
    r ← lift (ok_or (tcp.recv_slice len socket) network)
    put r.1
    if not (length r.0 == len) then lift panic else pure tt
    lift (ok_or (codec.decode r.0) prost_decode)

  unfoldable pub recv_complete : {T : Type 0} → Codec T → ℕ → Method tcp.Socket Error (Option T)
  unfolding skip_length read_msg
  recv_complete codec len = do
    socket ← get
    if ltb (tcp.recv_capacity socket) (2 + len)
        then fail (message_larger_than_rx_buffer (2 + len))
        else if ltb (tcp.recv_queue socket) (2 + len)
        then pure none
        else do skip_length; msg ← read_msg codec len; pure (some msg)

  unfoldable pub try_recv : {T : Type 0} → Codec T → Method tcp.Socket Error (Option T)
  unfolding recv_complete
  try_recv codec = do
    socket ← get
    if ltb (tcp.recv_queue socket) 2 then pure none else do
      buf_msg_length ← lift (ok_or (tcp.peek_slice 2 socket) network)
      if ltb (length buf_msg_length) 2
          then lift panic
          else recv_complete codec (from_be buf_msg_length)
