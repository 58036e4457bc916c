-- ===== src/Demo/Socket.antt =====
-- The TCP sockets of the smoltcp crate, which the demo (cortex-m-demo/src) runs on: they are
-- parameters. `none` stands for an error of the crate.
use fork_perun_rs.Base.{ℕ, ◌≤◌, ◌≡◌, Bool, ◌++◌, Option, some, length, take, drop, ltb, not, ◌&&◌}
use fork_perun_rs.Types.{Bytes}

pub record TcpSocket : Type 1 where
  pub Socket : Type 0
  pub recv_queue : Socket → ℕ
  pub recv_capacity : Socket → ℕ
  pub peek_slice : ℕ → Socket → Option Bytes
  -- The function is shown received bytes, and says how many of them it takes.
  pub recv : {A : Type 0} → (Bytes → ℕ × A) → Socket → Option (A × Socket)
  pub recv_slice : ℕ → Socket → Option (Bytes × Socket)
  -- The socket queues the bytes, or as many as it has room for, and says how many.
  pub send_slice : Bytes → Socket → Option (ℕ × Socket)
  pub is_active : Socket → Bool
  pub is_open : Socket → Bool
  pub is_listening : Socket → Bool
  pub can_recv : Socket → Bool
  pub may_recv : Socket → Bool
  pub may_send : Socket → Bool
  -- To a remote address, from a local port.
  pub connect : Bytes × ℕ → ℕ → Socket → Option Socket
  pub listen : ℕ → Socket → Option Socket
  pub close : Socket → Socket
  pub abort : Socket → Socket

-- What the documentation of smoltcp says of a socket that may receive: the bytes of its queue come in
-- order. They stand in a ring buffer, and may be shown in parts: those before the edge of the buffer,
-- and those that have wrapped around. `peek_slice` does not look over the edge, as the comment in
-- `try_recv` of cortex-m-demo/src/application.rs says; `recv_slice` does.
pub record IsLawfulTcp (tcp : TcpSocket) : Type 1 where
  pub queue : tcp.Socket → Bytes
  pub IsReceiving : tcp.Socket → Type 0
  pub queued : (s : tcp.Socket) → tcp.recv_queue s ≡ length (queue s)
  pub before_edge : tcp.Socket → Bytes
  pub wrapped : tcp.Socket → Bytes
  pub parts : (s : tcp.Socket) → queue s ≡ before_edge s ++ wrapped s
  pub peeks :
      (n : ℕ) (s : tcp.Socket) → IsReceiving s → tcp.peek_slice n s ≡ some (take n (before_edge s))
  pub receives :
      {A : Type 0} (f : Bytes → ℕ × A) (s : tcp.Socket)
      → IsReceiving s
      → 1 ≤ length (queue s)
      → ((b : Bytes) → 1 ≤ length b → (f b).0 ≤ length b)
      → (shown : Bytes) × (more : Bytes) × (t : tcp.Socket) × (queue s ≡ shown ++ more)
        × (1 ≤ length shown)
        × (tcp.recv f s ≡ some ((f shown).1, t))
        × (queue t ≡ drop (f shown).0 (queue s))
        × IsReceiving t
  pub copies :
      (n : ℕ) (s : tcp.Socket)
      → IsReceiving s
      → n ≤ length (queue s)
      → (t : tcp.Socket) × (tcp.recv_slice n s ≡ some (take n (queue s), t))
        × (queue t ≡ drop n (queue s))
        × IsReceiving t

-- There are two bytes, and the second of them has wrapped around the edge of the ring buffer.
unfoldable pub is_split : {tcp : TcpSocket} → IsLawfulTcp tcp → tcp.Socket → Bool
is_split law s = ltb (length (law.before_edge s)) 2 && not (ltb (length (law.queue s)) 2)
