-- ===== src/Demo/Link.antt =====
-- Two devices (cortex-m-demo/src): what the one writes with bus.rs, the other reads with application.rs.
use fork_perun_rs.Base.{
  ◌+◌, ◌≤◌, ◌≡◌, ◌∙◌, refl, sym, ap, arith, List, [], ◌∷◌, ◌++◌, some, ok, length, length-append,
  All, ◌/◌, ◌%◌, Bool-cases, inl, inr, ◌⊎◌, true, false, panic,
}
use mathlib.Core.List.{append-nil, append_assoc}
use fork_perun_rs.Abi.Bytes.{be_bytes}
use fork_perun_rs.Effects.{resume}
use fork_perun_rs.External.{External, IsLawful}
use fork_perun_rs.Types.{Bytes}
use fork_perun_rs.Messages.{Identity, ParticipantMessage}
use fork_perun_rs.Bus.{Sent, to_participant}
use fork_perun_rs.Wire.{expect}
use fork_perun_rs.Wire.Encoding.{Codec, IsEncodable, participant_msg, participant_bytes, send_bytes}
use fork_perun_rs.Wire.Encoding.Laws.{ok-encode_msg}
use fork_perun_rs.Wire.Envelope.{Envelope, Message}
use fork_perun_rs.Demo.Socket.{TcpSocket, IsLawfulTcp, is_split}
use fork_perun_rs.Demo.Bus.{Bus, send_calls}
use fork_perun_rs.Demo.Bus.Laws.{
  IsQueueing, IsReady, participant_part, service_part, deliver-whole, deliver-fitting,
}
use fork_perun_rs.Demo.Receive.{max_message_size}
use fork_perun_rs.Demo.Receive.Laws.{try_recv-ok, try_recv-split, from_be-be_bytes_two}
use fork_perun_rs.Demo.Incoming.Laws.{IsSendable, incoming-participant_msg}
use fork_perun_rs.Demo.Application.{Rng, Application, on_participant}
use fork_perun_rs.Demo.Application.Answers.{incoming_envelope}
use fork_perun_rs.Demo.Application.Handlers.{try_recv_participant_msg}

module _ (x : External) (envelopes : Codec Envelope) (sender recipient : Identity) where
  -- The message as `send_to_participant` puts it into an envelope.
  unfoldable pub enveloped : ParticipantMessage → Envelope
  enveloped msg = record {
    sender = sender;
    recipient = recipient;
    msg = some (participant_msg x msg);
  }

  -- The message can be read back, prost can write its envelope, and this is not too long.
  pub record IsCarried (msg : ParticipantMessage) : Type 0 where
    pub is_sendable : IsSendable msg
    pub is_encodable : IsEncodable envelopes (enveloped msg)
    pub is_small : envelopes.encoded_len (enveloped msg) ≤ max_message_size

  unfoldable pub frame : (msg : ParticipantMessage) → IsCarried msg → Bytes
  frame msg c = be_bytes 2 (envelopes.encoded_len (enveloped msg)) ++ c.is_encodable.bytes

  -- The bytes of messages that are sent one after the other.
  unfoldable pub frames : (msgs : List ParticipantMessage) → All IsCarried msgs → Bytes
  unfolding frame
  frames [] c = []
  frames (msg ∷ msgs) (c, cs) = frame msg c ++ frames msgs cs

  unfoldable pub calls : List ParticipantMessage → List Sent
  calls [] = []
  calls (msg ∷ msgs) = to_participant sender recipient msg ∷ calls msgs

module _ (tcp : TcpSocket) (x : External) (envelopes : Codec Envelope) (messages : Codec Message)
    (sender recipient : Identity) where
  send-frame :
      {E : Type 0} (msg : ParticipantMessage) (c : IsCarried x envelopes sender recipient msg)
      → send_bytes {E = E} x messages envelopes (to_participant sender recipient msg)
        ≡ ok (participant_bytes sender recipient (frame x envelopes sender recipient msg c))
  unfolding send_bytes frame enveloped expect
  send-frame msg c = rw (
      ok-encode_msg envelopes (enveloped x envelopes sender recipient msg) c.is_encodable
        (omega (arith, c.is_small)))

  -- All messages are written, if the buffer has room for them.
  sending :
      {E : Type 0} (out : IsQueueing tcp) (msgs : List ParticipantMessage)
      (c : All (IsCarried x envelopes sender recipient) msgs) (bus : Bus tcp)
      → IsReady tcp out (length (frames x envelopes sender recipient msgs c)) 0 bus
      → (next : Bus tcp) × (send_calls tcp {E = E} x messages envelopes
            (calls x envelopes sender recipient msgs)
            bus
          ≡ ok next)
        × (out.waiting next.participant
            ≡ out.waiting bus.participant ++ frames x envelopes sender recipient msgs c)
  unfolding send_calls calls frames participant_part service_part
  sending out [] c bus ready = (bus, refl, sym (append-nil _))
  sending {E} out (msg ∷ msgs) (c, cs) bus ready =
      let f = frame x envelopes sender recipient msg c in
      let rest = frames x envelopes sender recipient msgs cs in
      let (mid, delivered, ready_mid) =
        deliver-fitting tcp out {E = E} (length rest) 0 (participant_bytes sender recipient f) bus
          (record {
            participant_sending = ready.participant_sending;
            service_sending = ready.service_sending;
            participant_fits = omega (arith, ready.participant_fits, length-append f rest);
            service_fits = omega (arith, ready.service_fits);
          }) in
      let (next, sent, waits) = sending {E = E} out msgs cs mid ready_mid in
      let (first, _) =
        deliver-whole tcp out {E = E} (participant_bytes sender recipient f) bus mid delivered in
      (
        next,
        rw (send-frame {E = E} msg c) (rw delivered sent),
        waits ∙ ap (λ b. b ++ rest) first ∙ append_assoc (out.waiting bus.participant) f rest,
      )

  module _ (rng : Rng) (law : IsLawfulTcp tcp) where
    -- One call after the other, `try_recv_participant_msg` gives these messages, and then no byte is left;
    -- or, before one whose length is split by the edge of the ring buffer, it panics.
    unfoldable pub Receives : Application tcp rng → List ParticipantMessage → Type 0
    Receives app [] = law.queue app.participant_socket ≡ []
    Receives app (msg ∷ msgs) =
        ((is_split law app.participant_socket ≡ true)
          × (try_recv_participant_msg tcp rng x envelopes messages app ≡ (app, panic, [])))
        ⊎ ((is_split law app.participant_socket ≡ false)
            × (next : Application tcp rng) × (try_recv_participant_msg tcp rng x envelopes messages
                  app
                ≡ (next, ok (some msg), []))
            × Receives next msgs)

    module _ (lawful : IsLawful x)
        (roomy : (s : tcp.Socket)
          → law.IsReceiving s
          → 2 + max_message_size ≤ tcp.recv_capacity s) where
      receive-split :
          (app : Application tcp rng)
          → law.IsReceiving app.participant_socket
          → is_split law app.participant_socket ≡ true
          → try_recv_participant_msg tcp rng x envelopes messages app ≡ (app, panic, [])
      unfolding try_recv_participant_msg on_participant resume incoming_envelope
      receive-split app receiving split =
          rw (try_recv-split tcp law envelopes app.participant_socket receiving split) refl

      receive-frame :
          (app : Application tcp rng) (msg : ParticipantMessage)
          (c : IsCarried x envelopes sender recipient msg) (rest : Bytes)
          → law.IsReceiving app.participant_socket
          → is_split law app.participant_socket ≡ false
          → law.queue app.participant_socket ≡ frame x envelopes sender recipient msg c ++ rest
          → (next : Application tcp rng) × (try_recv_participant_msg tcp rng x envelopes messages
                app
              ≡ (next, ok (some msg), []))
            × (law.queue next.participant_socket ≡ rest)
            × law.IsReceiving next.participant_socket
      unfolding try_recv_participant_msg on_participant resume incoming_envelope frame enveloped
          be_bytes
      receive-frame app msg c rest receiving unsplit queued =
          let n = envelopes.encoded_len (enveloped x envelopes sender recipient msg) in
          let e = c.is_encodable in
          let (t, got, left, receiving_t) =
            try_recv-ok tcp law envelopes app.participant_socket (n / 256 % 256) (n % 256) e.bytes
              rest (enveloped x envelopes sender recipient msg) receiving unsplit queued
              (from_be-be_bytes_two n (omega (arith, c.is_small)) ∙ sym e.sized)
              (omega (arith, c.is_small, e.sized))
              (omega (arith, c.is_small, e.sized, roomy app.participant_socket receiving))
              e.decoded in
          (
            record app { participant_socket = t },
            rw got (rw (incoming-participant_msg x lawful msg c.is_sendable)),
            left,
            receiving_t,
          )

      receive-frames :
          (msgs : List ParticipantMessage) (c : All (IsCarried x envelopes sender recipient) msgs)
          (app : Application tcp rng)
          → law.IsReceiving app.participant_socket
          → law.queue app.participant_socket ≡ frames x envelopes sender recipient msgs c
          → Receives app msgs
      unfolding Receives frames
      receive-frames [] c app receiving queued = queued
      receive-frames (msg ∷ msgs) (c, cs) app receiving queued =
          elim (Bool-cases (is_split law app.participant_socket)) [
            | inl split ↦ inl (split, receive-split app receiving split)
            | inr unsplit ↦
                let (next, got, left, receiving_next) =
                  receive-frame app msg c _ receiving unsplit queued in
                inr (unsplit, next, got, receive-frames msgs cs next receiving_next left)
          ]

      -- For lawful crates, sockets whose receive buffers have 512 bytes, and messages between
      -- participants whose envelopes prost can write in at most 510 bytes, whose byte arrays have their
      -- lengths, whose numbers fit, and whose proposals and updates are about one asset with the zero
      -- address as its holder, and two participants: if the one device's socket is empty and has room
      -- for all of their frames, its bus sends them without a panic; and if what its socket then holds
      -- arrives at the other device in order, that device receives exactly these messages, one at each
      -- call, and no byte is left, unless the two bytes of the length of one of them are split by the
      -- edge of the ring buffer: there it panics, after the messages before it.
      pub Receives-sent :
          {E : Type 0} (out : IsQueueing tcp) (msgs : List ParticipantMessage)
          (c : All (IsCarried x envelopes sender recipient) msgs) (bus : Bus tcp)
          (app : Application tcp rng)
          → IsReady tcp out (length (frames x envelopes sender recipient msgs c)) 0 bus
          → out.waiting bus.participant ≡ []
          → law.IsReceiving app.participant_socket
          → ((next : Bus tcp)
              → send_calls tcp {E = E} x messages envelopes
                  (calls x envelopes sender recipient msgs)
                  bus
                ≡ ok next
              → law.queue app.participant_socket ≡ out.waiting next.participant)
          → (next : Bus tcp) × (send_calls tcp {E = E} x messages envelopes
                (calls x envelopes sender recipient msgs)
                bus
              ≡ ok next)
            × Receives app msgs
      Receives-sent {E} out msgs c bus app ready empty receiving arrives =
          let (next, sent, waits) = sending {E = E} out msgs c bus ready in
          (
            next,
            sent,
            receive-frames msgs c app receiving (
                arrives next sent
                ∙ waits
                ∙ ap (λ b. b ++ frames x envelopes sender recipient msgs c) empty),
          )
