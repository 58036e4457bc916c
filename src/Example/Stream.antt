-- ===== src/Example/Stream.antt =====
-- The bus of examples/go-integration.rs with a network: a connection to the other participant, and one
-- to the watcher and the funder. The connections are those of the standard library, a parameter.
pub mod Receiving
use fork_perun_rs.Base.{
  ℕ, ◌+◌, ◌≤◌, ◌≡◌, refl, ap, sym, arith, List, [], ◌∷◌, ◌++◌, Option, some, ok, unwrap, length,
}
use fork_perun_rs.Effects.{resume, ◌>>=◌, ◌>>◌, lift, pure, get, put}
use fork_perun_rs.Types.{Bytes}
use fork_perun_rs.Abi.Bytes.{from_be, be_bytes}
use fork_perun_rs.Wire.Envelope.{Envelope, Message}
use fork_perun_rs.Wire.Encoding.{
  Codec, IsEncodable, SentBytes, watcher_bytes, funder_bytes, participant_bytes, encode_msg,
}
use fork_perun_rs.Example.Interface.{Run, Net, Config}

-- std::net: `none` stands for an error, and `write` says how many bytes it took.
pub record TcpStream : Type 1 where
  pub Stream : Type 0
  pub read_exact : ℕ → Stream → Option (Bytes × Stream)
  pub write : Bytes → Stream → Option (ℕ × Stream)

module _ (tcp : TcpStream) where
  -- `Bus`; its other field is for printing only.
  pub record Bus : Type 0 where
    pub stream : tcp.Stream
    pub remote_stream : tcp.Stream

  -- `read_exact(&mut buf).unwrap()` of a buffer with n bytes.
  unfoldable pub read_exact : ℕ → Run tcp.Stream Bytes
  read_exact n = do s ← get; got ← lift (unwrap (tcp.read_exact n s)); put got.1; pure got.0

  unfoldable pub recv : Run tcp.Stream Bytes
  unfolding read_exact
  recv = do len ← read_exact 2; read_exact (from_be len)

  unfoldable pub recv_to : {T : Type 0} → Codec T → Run tcp.Stream T
  unfolding recv
  recv_to codec = do buf ← recv; lift (unwrap (codec.decode buf))

  -- `write(msg).unwrap()`: how many bytes were written is not looked at.
  unfoldable pub write : Bytes → Run tcp.Stream (Unit {0})
  write msg = do s ← get; written ← lift (unwrap (tcp.write msg s)); put written.1

  -- A part of a method on the one connection of the bus, or on the other.
  unfoldable pub on_stream : {A : Type 0} → Run tcp.Stream A → Run Bus A
  on_stream m bus = let (s, r, sent) = m bus.stream in (record bus { stream = s }, r, sent)

  unfoldable pub on_remote : {A : Type 0} → Run tcp.Stream A → Run Bus A
  on_remote m bus =
      let (s, r, sent) = m bus.remote_stream in (record bus { remote_stream = s }, r, sent)

  -- `print!` of what is sent.
  abbrev note : SentBytes → Run Bus (Unit {0})
  note sent bus = (bus, ok tt, sent ∷ [])

  unfoldable pub deliver : SentBytes → Run Bus (Unit {0})
  unfolding write on_stream on_remote
  deliver (watcher_bytes msg) = note (watcher_bytes msg) >> on_remote (write msg)
  deliver (funder_bytes msg) = note (funder_bytes msg) >> on_remote (write msg)
  deliver (participant_bytes sender recipient msg) =
      note (participant_bytes sender recipient msg) >> on_stream (write msg)

  -- The addresses of `read_config`.
  abbrev config : Config
  config = record {
    eth_holder =
        0x59 ∷ 0x92 ∷ 0x08 ∷ 0x9d ∷ 0x61 ∷ 0xcE ∷ 0x79 ∷ 0xB6 ∷ 0xCF ∷ 0x90 ∷ 0x50 ∷ 0x6F ∷ 0x70
        ∷ 0xDD ∷ 0x42 ∷ 0xB8 ∷ 0xE4 ∷ 0x2F ∷ 0xB2 ∷ 0x1d ∷ [];
    withdraw_receiver =
        0xc4 ∷ 0xbA ∷ 0x48 ∷ 0x15 ∷ 0xc8 ∷ 0x27 ∷ 0x27 ∷ 0x55 ∷ 0x4e ∷ 0x4c ∷ 0x12 ∷ 0xA0 ∷ 0x7a
        ∷ 0x13 ∷ 0x9b ∷ 0x74 ∷ 0xc6 ∷ 0x74 ∷ 0x23 ∷ 0x22 ∷ [];
  }

  abbrev pub connected : Codec Envelope → Codec Message → Net
  connected envelopes messages = record {
    Bus = Bus;
    config = config;
    deliver = deliver;
    recv_envelope = on_stream (recv_to envelopes);
    recv_message = on_remote (recv_to messages);
  }
