-- ===== src/Lib.antt =====
-- A model of the Perun state channel library for embedded devices: two-party payment channels whose
-- states are encoded as the Ethereum ABI says, hashed, signed and exchanged.
--
-- The parts of the program and the files that model them:
--
-- The ABI serializer (src/abiencode/ser.rs) goes over a value in four passes: the size of the head,
-- the head, the size of the tail, the tail. Abi.Value is the data model of serde, a value with all
-- that it calls on a serializer. Abi.Ser follows the serializer: `serialize` is the passes of
-- `Serialize::serialize`, `serialize_tuple_element` the method of that name, whose cases by pass
-- are `element_in`; `to_writer` and `to_fnargs_writer` give the slots that the writer was passed.
-- Abi.Spec is the encoding as the Solidity documentation has it, by recursion on the value and with
-- no passes. Abi.Passes has a closed form of each pass, and Abi.Runs, Abi.Sizes, Abi.Static,
-- Abi.Words, Abi.Element, Abi.Writes and Abi.Refinement the steps from the code over these to the
-- specification; Abi.Correct puts them together. Abi.Negative is about `serialize_i128`.
--
-- Types (src/abiencode/types.rs, as_bytes.rs, as_dyn_array.rs, hashing.rs) has the byte arrays, how
-- they serialize, and `to_hash`. Sig (src/sig.rs, src/sig/k256.rs) has the signatures,
-- Sig.Secp256k1 (src/sig/secp256k1.rs) those of the other backend, and Sig.Malformed compares what
-- both make of a malformed one. Payment (src/channel/fixed_size_payment.rs) has the parameters,
-- states and allocations of a channel; Payment.Binding is about what a hash of a state says of it,
-- and Payment.Assertions has the assertions of a debug build on an allocation.
--
-- A channel goes through these stages, each of which is built from the one before:
--   Channel.Proposal (src/channel/proposal.rs, src/client.rs): proposed, responses are collected;
--   Channel.AgreedUpon (src/channel/agreed_upon.rs, signed.rs): the initial state is signed;
--   Channel.Active (src/channel/active.rs): open; an update is proposed with `update` and
--     received with `handle_update`, which check it with Channel.Transition;
--   Channel.Update (src/channel/channel_update.rs): an update collects signatures, and `apply` puts
--     it in place by `force_update` of the channel.
-- Channel.Exchange and Channel.Round follow an update from one participant to the other and back,
-- Channel.AgreedUpon.Round a signature of the initial state, and Channel.Establishing goes from a
-- proposal to the open channel; Channel.Establishing.SameKey is about signers that are the same.
-- Channel.History is the step relation of an open channel: updates that it proposed or received and
-- then applied. Channel.Errors has the error types and the conversions that `?` does.
--
-- Messages (src/messages.rs, src/messages/) are records and data types. Bus (src/wire.rs) has the
-- calls of the message bus as values. Effects is the form of a method: `&mut self` is a state that
-- is passed on, what was sent is a list, and the result is ok, an error, or a panic (Base.Results).
-- What was written or sent before an error stays, as it does in the code.
--
-- Channel.Withdrawal (src/channel/withdrawal_auth.rs) has the authorizations for an on-chain
-- receiver.
--
-- Wire is about what goes over the network: Wire.Perunwire and Wire.Envelope have the protobuf
-- messages, Wire.Payments (src/channel/fixed_size_payment.rs), Wire.Participants and Wire.Requests
-- (src/messages/) the conversions, `try_x` for `TryFrom::try_from` and `into_x` for `From::from`,
-- and Wire.Encoding (src/wire/encoding.rs) the envelopes and the two bytes of length before each.
--
-- Demo is the demo of the repository, which runs the library on a device (cortex-m-demo/src):
-- Demo.Channel (channel.rs) is a state machine around all stages of a channel, with the messages of
-- the other participant in Demo.Channel.Process; Demo.Channel.Opening, Demo.Channel.Establishing
-- and Demo.Channel.Round are about whole runs of it. Demo.Button (button.rs) is a debounced button,
-- Demo.Socket the sockets of the smoltcp crate as a parameter, and Demo.Receive and Demo.Incoming
-- (application.rs) take a message from a socket. Demo.Application (application.rs) is the state
-- machine of the device, with its handlers in Demo.Application.Handlers, what they make of bytes,
-- envelopes and results in Demo.Application.Answers, and polling in Demo.Application.Poll. Demo.Bus
-- (bus.rs) writes to the sockets, and Demo.Link is about two devices, one of which receives what
-- the other sends. Demo.Main (main.rs) is the main loop, whose input in each round is the time, the
-- levels of the pins and what the network does to the sockets; Demo.Main.Laws, with
-- Demo.Main.Distance, and Demo.Main.Stopping are about its rounds and its end. Demo.Channel.Phase
-- and Demo.Application.Phase state which phase may follow which.
--
-- Example (examples/go-integration.rs) is a program that opens, updates and closes a channel over a
-- bus, whose interface is the record `Net` of Example.Interface. Example.Stream is the bus with TCP
-- connections, and Example.Stream.Receiving is about what it receives; Example.Responses is about
-- how the program takes the answer to an update.
--
-- Other crates (sha3, k256, uint) are the record `External`, a parameter of the definitions;
-- `IsLawful` holds what their documentation says and what the theorems that name it rely on. So are
-- prost (`Codec`, with `IsEncodable` of a message), smoltcp (`TcpSocket`, with `IsLawfulTcp`, whose
-- `peek_slice` shows bytes only up to the edge of the ring buffer, as a comment in application.rs
-- says), the TCP streams of the standard library (`TcpStream`, with `IsLawfulStream`), and rand
-- (`Rng`). What the handlers of the demo send is a list of messages; that the bus (bus.rs) writes
-- their bytes to the sockets is a step of its own, Demo.Bus.
--
-- Conventions: the build is a release build: assertions for debugging are not there, `version + 1`
-- and the times of the demo wrap at 2^64, and the last byte of a signature at 256. A `usize` is
-- written in 8 bytes; sizes are numbers without a bound, and the theorems on the serializer ask
-- that the encoding is shorter than 2^64 bytes. Arrays and byte strings are lists; `IsShaped` and
-- `IsShapedParams` say what lengths they have for one asset and two participants. All loops are
-- structural recursion: no fuel is used. The fields `app_data` and `locked`, which are always
-- empty, stand in the encoding only.
--
-- Not modelled: the debug assertions on other things than allocations; the stub src/sig/dummy.rs,
-- whose methods are all unimplemented, and `Signer::new` of src/sig/secp256k1.rs, which names a
-- variable that is not there; the bus of examples/go-integration.rs for a build without a network,
-- which names messages that src/wire/perun-remote.proto does not define and so does not compile;
-- the set-up of the hardware in cortex-m-demo/src/main.rs and the entry point of the example;
-- formatting and random sampling.
--
-- Tests has crates, channels and states that are concrete, and each theorem at them.
pub mod Base
pub mod Abi
pub mod External
pub mod Types
pub mod Sig
pub mod Effects
pub mod Messages
pub mod Bus
pub mod Wire
pub mod Channel
pub mod Payment
pub mod Demo
pub mod Example
pub mod Tests
