-- ===== src/Example/Stream/Receiving.antt =====
-- What the bus of examples/go-integration.rs receives over a connection.
use fork_perun_rs.Base.{ℕ, ◌≡◌, ◌∙◌, refl, ap, subst, arith, [], ◌++◌, some, ok, length}
use mathlib.Core.List.{append_assoc}
use fork_perun_rs.Effects.{resume}
use fork_perun_rs.Types.{Bytes}
use fork_perun_rs.Abi.Bytes.{be_bytes, length-be_bytes, from_be-be_bytes}
use fork_perun_rs.Wire.Encoding.{Codec, IsEncodable, encode_msg}
use fork_perun_rs.Wire.Encoding.Laws.{encode_msg-ok}
use fork_perun_rs.Example.Stream.{TcpStream, read_exact, recv, recv_to}

-- What the documentation says of `read_exact`: the next bytes are read, if there are enough.
pub record IsLawfulStream (tcp : TcpStream) : Type 0 where
  pub content : tcp.Stream → Bytes
  pub reads :
      (bs rest : Bytes) (s : tcp.Stream)
      → content s ≡ bs ++ rest
      → (after : tcp.Stream) × (tcp.read_exact (length bs) s ≡ some (bs, after))
        × (content after ≡ rest)

module _ (tcp : TcpStream) (lawful : IsLawfulStream tcp) where
  ok-read_exact :
      (n : ℕ) (bs rest : Bytes) (s : tcp.Stream)
      → length bs ≡ n
      → lawful.content s ≡ bs ++ rest
      → (after : tcp.Stream) × (read_exact tcp n s ≡ (after, ok bs, []))
        × (lawful.content after ≡ rest)
  unfolding read_exact resume
  ok-read_exact n bs rest s size holds =
      let (after, got, left) = lawful.reads bs rest s holds in
      (after, rw (subst (λ k. tcp.read_exact k s ≡ some (bs, after)) size got) refl, left)

  -- For a stream that holds the bytes that the library sends for a message, and anything after them: the
  -- message is received, and what was after it is left.
  pub recv_to-encode_msg :
      {T : Type 0} (codec : Codec T) (msg : T) (frame rest : Bytes) (s : tcp.Stream)
      → IsEncodable codec msg
      → encode_msg codec msg ≡ ok frame
      → lawful.content s ≡ frame ++ rest
      → (after : tcp.Stream) × (recv_to tcp codec s ≡ (after, ok msg, []))
        × (lawful.content after ≡ rest)
  unfolding recv_to recv resume
  recv_to-encode_msg codec msg frame rest s e framed holds =
      let (small, framing) = encode_msg-ok codec msg frame e framed in
      let size = codec.encoded_len msg in
      let (first, read_size, left) =
        ok-read_exact 2 (be_bytes 2 size) (e.bytes ++ rest) s (length-be_bytes 2 size)
          (holds ∙ ap (λ f. f ++ rest) framing ∙ append_assoc (be_bytes 2 size) e.bytes rest) in
      let (after, read_bytes, leftover) = ok-read_exact size e.bytes rest first e.sized left in
      (
        after,
        rw read_size (
            rw (from_be-be_bytes 2 size (omega (arith, small)))
              (rw read_bytes (rw e.decoded refl))),
        leftover,
      )
