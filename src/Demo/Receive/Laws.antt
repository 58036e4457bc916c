-- ===== src/Demo/Receive/Laws.antt =====
-- `try_recv` of cortex-m-demo/src/application.rs reads what src/wire/encoding.rs wrote.
use fork_perun_rs.Base.{
  ℕ, ◌+◌, ◌/◌, ◌%◌, ◌^◌, ◌≤◌, ◌<◌, ◌≡◌, ◌∙◌, refl, sym, ap, arith, true, Bool-cases, inl, inr, [],
  ◌∷◌, ◌++◌, some, ok, panic, length, take, ltb, zero, suc, Bool, false, not, and_left, and_right,
  ltb→lt, lt→ltb, le→not_ltb, not_ltb→le, length-append,
}
use fork_perun_rs.Abi.Bytes.{from_be, be_bytes, from_be-be_bytes, take-append}
use fork_perun_rs.Effects.{resume}
use fork_perun_rs.Types.{Bytes}
use fork_perun_rs.Wire.Encoding.{Codec, IsEncodable, encode_msg}
use fork_perun_rs.Wire.Encoding.Laws.{encode_msg-ok}
use fork_perun_rs.Demo.Socket.{TcpSocket, IsLawfulTcp, is_split}
use fork_perun_rs.Demo.Receive.Parts.{skip_length-ok, read_msg-ok}
use fork_perun_rs.Demo.Receive.{max_message_size, skip_length, read_msg, recv_complete, try_recv}

pub from_be-be_bytes_two : (n : ℕ) → n < 256 ^ 2 → from_be (n / 256 % 256 ∷ n % 256 ∷ []) ≡ n
unfolding be_bytes
from_be-be_bytes_two n small = from_be-be_bytes 2 n small

module _ (tcp : TcpSocket) (law : IsLawfulTcp tcp) where
  try_recv-peeked :
      {T : Type 0} (codec : Codec T) (s : tcp.Socket) (high low : ℕ)
      → 2 ≤ tcp.recv_queue s
      → tcp.peek_slice 2 s ≡ some (high ∷ low ∷ [])
      → try_recv tcp codec s ≡ recv_complete tcp codec (from_be (high ∷ low ∷ [])) s
  unfolding try_recv resume
  try_recv-peeked codec s high low many peeked =
      rw (le→not_ltb (tcp.recv_queue s) 2 many) (rw peeked)

  -- The length is shown if it is not split by the edge of the ring buffer.
  peeked-whole :
      (s : tcp.Socket)
      → law.IsReceiving s
      → is_split law s ≡ false
      → 2 ≤ length (law.queue s)
      → tcp.peek_slice 2 s ≡ some (take 2 (law.queue s))
  unfolding is_split
  peeked-whole s receiving whole long =
      law.peeks 2 s receiving
      ∙ ap some (
          sym (take-append 2 (law.before_edge s) (law.wrapped s) enough)
          ∙ ap (take 2) (sym (law.parts s)))
    where
      enough : 2 ≤ length (law.before_edge s)
      enough = elim (Bool-cases (ltb (length (law.before_edge s)) 2)) [
        | inl few ↦ absurd (ground (arith, whole, few, le→not_ltb (length (law.queue s)) 2 long))
        | inr many ↦ not_ltb→le (length (law.before_edge s)) 2 many
      ]

  -- The code panics where the two bytes of a length stand on both sides of the edge.
  pub try_recv-split :
      {T : Type 0} (codec : Codec T) (s : tcp.Socket)
      → law.IsReceiving s
      → is_split law s ≡ true
      → try_recv tcp codec s ≡ (s, panic, [])
  unfolding try_recv resume is_split
  try_recv-split codec s receiving split =
      let few : ltb (length (law.before_edge s)) 2 ≡ true = and_left _ _ split in
      let many : 2 ≤ length (law.queue s) =
        not_ltb→le (length (law.queue s)) 2 (not_true (and_right _ _ split)) in
      rw (le→not_ltb (tcp.recv_queue s) 2 (omega (arith, many, law.queued s))) (
        rw (law.peeks 2 s receiving) (
          rw
            (lt→ltb (length (take 2 (law.before_edge s))) 2 (
              omega (
                arith,
                length-take_bound 2 (law.before_edge s),
                ltb→lt (length (law.before_edge s)) 2 few,
              )))
            refl))
    where
      not_true : {b : Bool} → not b ≡ true → b ≡ false
      not_true {b} h = ground arith

      length-take_bound : (n : ℕ) (b : Bytes) → length (take n b) ≤ length b
      length-take_bound zero b = omega arith
      length-take_bound (suc n) [] = omega arith
      length-take_bound (suc n) (x ∷ b) = omega (arith, length-take_bound n b)

  recv_complete-ok :
      {T : Type 0} (codec : Codec T) (len : ℕ) (s t u : tcp.Socket) (msg : T)
      → 2 + len ≤ tcp.recv_capacity s
      → 2 + len ≤ tcp.recv_queue s
      → skip_length tcp s ≡ (t, ok tt, [])
      → read_msg tcp codec len t ≡ (u, ok msg, [])
      → recv_complete tcp codec len s ≡ (u, ok (some msg), [])
  unfolding recv_complete resume
  recv_complete-ok codec len s t u msg fits many skipped got =
      rw (le→not_ltb (tcp.recv_capacity s) (2 + len) fits)
        (rw (le→not_ltb (tcp.recv_queue s) (2 + len) many) (rw skipped (rw got)))

  pub try_recv-ok :
      {T : Type 0} (codec : Codec T) (s : tcp.Socket) (high low : ℕ) (body rest : Bytes) (msg : T)
      → law.IsReceiving s
      → is_split law s ≡ false
      → law.queue s ≡ high ∷ low ∷ body ++ rest
      → from_be (high ∷ low ∷ []) ≡ length body
      → length body ≤ max_message_size
      → 2 + length body ≤ tcp.recv_capacity s
      → codec.decode body ≡ some msg
      → (t : tcp.Socket) × (try_recv tcp codec s ≡ (t, ok (some msg), []))
        × (law.queue t ≡ rest)
        × law.IsReceiving t
  try_recv-ok codec s high low body rest msg receiving whole parts sized small fits decoded =
      let (t, skipped, left, receiving_t) =
        skip_length-ok tcp law s receiving (omega (arith, many)) in
      let (u, got, left_u, receiving_u) =
        read_msg-ok tcp law codec t body rest msg receiving_t (left ∙ rw parts) small decoded in
      let peeked =
        peeked-whole s receiving whole (omega (arith, many)) ∙ ap (λ q. some (take 2 q)) parts in
      (
        u,
        try_recv-peeked codec s high low (omega (arith, law.queued s, many)) peeked
            ∙ ap (λ n. recv_complete tcp codec n s) sized
            ∙ recv_complete-ok codec (length body) s t u msg fits
                (omega (arith, law.queued s, many)) skipped got,
        left_u,
        receiving_u,
      )
    where
      many : 2 + length body + length rest ≡ length (law.queue s)
      many = rw parts (omega (arith, length-append body rest))

  -- A message that was encoded is received: if its bytes, after the two of their length, are at the
  -- front of the queue, those of the length are not split by the edge of the ring buffer, and the
  -- socket and the buffer hold so many, `try_recv` returns the message
  -- and leaves what follows.
  pub try_recv-encode_msg :
      {T : Type 0} (codec : Codec T) (s : tcp.Socket) (msg : T) (frame rest : Bytes)
      → IsEncodable codec msg
      → encode_msg codec msg ≡ ok frame
      → law.IsReceiving s
      → is_split law s ≡ false
      → law.queue s ≡ frame ++ rest
      → codec.encoded_len msg ≤ max_message_size
      → length frame ≤ tcp.recv_capacity s
      → (t : tcp.Socket) × (try_recv tcp codec s ≡ (t, ok (some msg), []))
        × (law.queue t ≡ rest)
        × law.IsReceiving t
  unfolding be_bytes
  try_recv-encode_msg codec s msg frame rest e encoded receiving unsplit parts small fits =
      let n = codec.encoded_len msg in
      let (bounded, whole) = encode_msg-ok codec msg frame e encoded in
      try_recv-ok codec s (n / 256 % 256) (n % 256) e.bytes rest msg receiving unsplit
        (parts ∙ ap (λ f. f ++ rest) whole)
        (from_be-be_bytes 2 n (omega (arith, bounded)) ∙ sym e.sized)
        (omega (arith, small, e.sized)) (omega (arith, fits, e.sized, ap (length {A = ℕ}) whole))
        e.decoded
