-- ===== src/Demo/Bus.antt =====
-- cortex-m-demo/src/bus.rs: the bytes of the library's messages are written to the sockets. Watcher
-- and funder are reached over the same socket.
pub mod Laws
use fork_perun_rs.Base.{
  ℕ, List, [], ◌∷◌, Outcome, ok, panic, ◌>>=◌, unwrap, length, ◌==◌, if◌then◌else◌,
}
use fork_perun_rs.Types.{Bytes}
use fork_perun_rs.External.{External}
use fork_perun_rs.Bus.{Sent}
use fork_perun_rs.Wire.Envelope.{Envelope, Message}
use fork_perun_rs.Wire.Encoding.{
  Codec, SentBytes, watcher_bytes, funder_bytes, participant_bytes, send_bytes,
}
use fork_perun_rs.Demo.Socket.{TcpSocket}

module _ (tcp : TcpSocket) where
  -- The sockets that the handles of the bus refer to.
  pub record Bus : Type 0 where
    pub participant : tcp.Socket
    pub service : tcp.Socket

  -- What has to fit into the buffer of the socket and does not, is a panic.
  unfoldable pub send : {E : Type 0} → Bytes → tcp.Socket → Outcome E tcp.Socket
  send msg socket = do
    written ← unwrap (tcp.send_slice msg socket)
    if written.0 == length msg then ok written.1 else panic

  unfoldable pub send_to_service : {E : Type 0} → Bytes → Bus → Outcome E Bus
  unfolding send
  send_to_service msg bus = do socket ← send msg bus.service; ok (record bus { service = socket })

  unfoldable pub send_to_participant : {E : Type 0} → Bytes → Bus → Outcome E Bus
  unfolding send
  send_to_participant msg bus = do
    socket ← send msg bus.participant
    ok (record bus { participant = socket })

  -- A call of `BytesBus`.
  unfoldable pub deliver : {E : Type 0} → SentBytes → Bus → Outcome E Bus
  unfolding send_to_service send_to_participant
  deliver (watcher_bytes msg) bus = send_to_service msg bus
  deliver (funder_bytes msg) bus = send_to_service msg bus
  deliver (participant_bytes sender recipient msg) bus = send_to_participant msg bus

  -- The calls of a method, one after the other.
  unfoldable pub deliver_all : {E : Type 0} → List SentBytes → Bus → Outcome E Bus
  deliver_all [] bus = ok bus
  deliver_all (sent ∷ rest) bus = do next ← deliver sent bus; deliver_all rest next

  -- The calls of `MessageBus`, one after the other, where the bus is in a `ProtoBufEncodingLayer`: each
  -- message is encoded and its bytes are written.
  unfoldable pub send_calls :
      {E : Type 0} → External → Codec Message → Codec Envelope → List Sent → Bus → Outcome E Bus
  send_calls x messages envelopes [] bus = ok bus
  send_calls x messages envelopes (call ∷ rest) bus = do
    sent ← send_bytes x messages envelopes call
    next ← deliver sent bus
    send_calls x messages envelopes rest next
