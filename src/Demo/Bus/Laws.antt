-- ===== src/Demo/Bus/Laws.antt =====
-- What the bus of cortex-m-demo/src/bus.rs writes.
use fork_perun_rs.Base.{
  ℕ, ◌≡◌, ◌∙◌, refl, sym, ap, List, [], ◌∷◌, ◌++◌, ok, some, length, take, take-length, ◌≤◌, ◌+◌,
  arith, length-append, ◌==◌, ==_iff,
}
use mathlib.Core.List.{append-nil, append_assoc}
use fork_perun_rs.Base.Inversion.{bind-ok, unwrap-ok, fitting-ok, ok-injective}
use fork_perun_rs.Types.{Bytes}
use fork_perun_rs.Wire.Encoding.{SentBytes, watcher_bytes, funder_bytes, participant_bytes}
use fork_perun_rs.Demo.Socket.{TcpSocket}
use fork_perun_rs.Demo.Bus.{Bus, send, send_to_service, send_to_participant, deliver, deliver_all}

-- What the documentation of smoltcp says of sending: the bytes that it says it queued are put at the
-- end of those that wait, and a socket that may send queues as many as it has room for.
pub record IsQueueing (tcp : TcpSocket) : Type 1 where
  pub waiting : tcp.Socket → Bytes
  pub queues :
      (msg : Bytes) (s t : tcp.Socket) (n : ℕ)
      → tcp.send_slice msg s ≡ some (n, t)
      → waiting t ≡ waiting s ++ take n msg
  pub room : tcp.Socket → ℕ
  pub IsSending : tcp.Socket → Type 0
  pub accepts :
      (msg : Bytes) (s : tcp.Socket)
      → IsSending s
      → length msg ≤ room s
      → (t : tcp.Socket) × (tcp.send_slice msg s ≡ some (length msg, t))
        × (room s ≡ length msg + room t)
        × IsSending t

unfoldable pub participant_part : SentBytes → Bytes
participant_part (participant_bytes sender recipient msg) = msg
participant_part sent = []

unfoldable pub service_part : SentBytes → Bytes
service_part (watcher_bytes msg) = msg
service_part (funder_bytes msg) = msg
service_part sent = []

-- The bytes for the other participant, and for the services, in their order.
unfoldable pub for_participant : List SentBytes → Bytes
for_participant [] = []
for_participant (sent ∷ rest) = participant_part sent ++ for_participant rest

unfoldable pub for_service : List SentBytes → Bytes
for_service [] = []
for_service (sent ∷ rest) = service_part sent ++ for_service rest

-- Both sockets of a bus may send, and have room for so many bytes.
pub record IsReady (tcp : TcpSocket) (law : IsQueueing tcp) (participant_size service_size : ℕ)
    (bus : Bus tcp) : Type 0 where
  pub participant_sending : law.IsSending bus.participant
  pub service_sending : law.IsSending bus.service
  pub participant_fits : participant_size ≤ law.room bus.participant
  pub service_fits : service_size ≤ law.room bus.service

module _ (tcp : TcpSocket) (law : IsQueueing tcp) {E : Type 0} where
  send-whole :
      (msg : Bytes) (s t : tcp.Socket)
      → send tcp {E = E} msg s ≡ ok t
      → law.waiting t ≡ law.waiting s ++ msg
  unfolding send
  send-whole msg s t h =
      let ((n, u), some_written, tested) = bind-ok _ _ h in
      let (all, same) = fitting-ok (n == length msg) u tested in
      ap law.waiting (sym same)
      ∙ law.queues msg s u n (unwrap-ok _ some_written)
      ∙ ap (λ k. law.waiting s ++ take k msg) ((==_iff n (length msg)).0 all)
      ∙ ap (λ b. law.waiting s ++ b) (take-length msg)

  service-whole :
      (msg : Bytes) (bus next : Bus tcp)
      → send_to_service tcp {E = E} msg bus ≡ ok next
      → (law.waiting next.participant ≡ law.waiting bus.participant ++ [])
        × (law.waiting next.service ≡ law.waiting bus.service ++ msg)
  unfolding send_to_service
  service-whole msg bus next h =
      let (s, queued, made) = bind-ok _ _ h in
      let same = ok-injective _ _ made in
      (
        ap (λ b. law.waiting b.participant) (sym same) ∙ sym (append-nil _),
        ap (λ b. law.waiting b.service) (sym same) ∙ send-whole msg bus.service s queued,
      )

  pub deliver-whole :
      (sent : SentBytes) (bus next : Bus tcp)
      → deliver tcp {E = E} sent bus ≡ ok next
      → (law.waiting next.participant ≡ law.waiting bus.participant ++ participant_part sent)
        × (law.waiting next.service ≡ law.waiting bus.service ++ service_part sent)
  unfolding deliver send_to_participant participant_part service_part
  deliver-whole (watcher_bytes msg) bus next h = service-whole msg bus next h
  deliver-whole (funder_bytes msg) bus next h = service-whole msg bus next h
  deliver-whole (participant_bytes sender recipient msg) bus next h =
      let (s, queued, made) = bind-ok _ _ h in
      let same = ok-injective _ _ made in
      (
        ap (λ b. law.waiting b.participant) (sym same) ∙ send-whole msg bus.participant s queued,
        ap (λ b. law.waiting b.service) (sym same) ∙ sym (append-nil _),
      )

  -- If the bus delivers messages without a panic, all of their bytes wait in its sockets, in their
  -- order: those for the participant in the one, those for the watcher and the funder in the other.
  pub deliver_all-whole :
      (sents : List SentBytes) (bus next : Bus tcp)
      → deliver_all tcp {E = E} sents bus ≡ ok next
      → (law.waiting next.participant ≡ law.waiting bus.participant ++ for_participant sents)
        × (law.waiting next.service ≡ law.waiting bus.service ++ for_service sents)
  unfolding deliver_all for_participant for_service
  deliver_all-whole [] bus next h =
      let same = ok-injective _ _ h in
      (
        ap (λ b. law.waiting b.participant) (sym same) ∙ sym (append-nil _),
        ap (λ b. law.waiting b.service) (sym same) ∙ sym (append-nil _),
      )
  deliver_all-whole (sent ∷ rest) bus next h =
      let (mid, delivered, later) = bind-ok _ _ h in
      let first = deliver-whole sent bus mid delivered in
      let others = deliver_all-whole rest mid next later in
      (
        others.0
            ∙ ap (λ b. b ++ for_participant rest) first.0
            ∙ append_assoc (law.waiting bus.participant) (participant_part sent) _,
        others.1
            ∙ ap (λ b. b ++ for_service rest) first.1
            ∙ append_assoc (law.waiting bus.service) (service_part sent) _,
      )

  send-fitting :
      (msg : Bytes) (s : tcp.Socket)
      → law.IsSending s
      → length msg ≤ law.room s
      → (t : tcp.Socket) × (send tcp {E = E} msg s ≡ ok t)
        × (law.room s ≡ length msg + law.room t)
        × law.IsSending t
  unfolding send
  send-fitting msg s sending fits =
      let (t, queued, less, sending_t) = law.accepts msg s sending fits in
      (t, rw queued (rw ((==_iff (length msg) (length msg)).1 refl) refl), less, sending_t)

  service-fitting :
      (m n k : ℕ) (msg : Bytes) (bus : Bus tcp)
      → n ≤ m
      → IsReady tcp law m (length msg + k) bus
      → (next : Bus tcp) × (send_to_service tcp {E = E} msg bus ≡ ok next)
        × IsReady tcp law n k next
  unfolding send_to_service
  service-fitting m n k msg bus less_room ready =
      let (t, sent, less, sending) =
        send-fitting msg bus.service ready.service_sending (omega (arith, ready.service_fits)) in
      (
        record bus { service = t },
        rw sent refl,
        record {
          participant_sending = ready.participant_sending;
          service_sending = sending;
          participant_fits = omega (arith, less_room, ready.participant_fits);
          service_fits = omega (arith, less, ready.service_fits);
        },
      )

  pub deliver-fitting :
      (n k : ℕ) (sent : SentBytes) (bus : Bus tcp)
      → IsReady tcp law (length (participant_part sent) + n) (length (service_part sent) + k) bus
      → (next : Bus tcp) × (deliver tcp {E = E} sent bus ≡ ok next) × IsReady tcp law n k next
  unfolding deliver send_to_participant participant_part service_part
  deliver-fitting n k (watcher_bytes msg) bus ready =
      service-fitting (0 + n) n k msg bus (omega arith) ready
  deliver-fitting n k (funder_bytes msg) bus ready =
      service-fitting (0 + n) n k msg bus (omega arith) ready
  deliver-fitting n k (participant_bytes sender recipient msg) bus ready =
      let (t, sent, less, sending) =
        send-fitting msg bus.participant ready.participant_sending
          (omega (arith, ready.participant_fits)) in
      (
        record bus { participant = t },
        rw sent refl,
        record {
          participant_sending = sending;
          service_sending = ready.service_sending;
          participant_fits = omega (arith, less, ready.participant_fits);
          service_fits = omega (arith, ready.service_fits);
        },
      )

  -- If the sockets may send and have room for all bytes, the bus delivers all messages.
  pub deliver_all-fitting :
      (sents : List SentBytes) (bus : Bus tcp)
      → IsReady tcp law (length (for_participant sents)) (length (for_service sents)) bus
      → (next : Bus tcp) × (deliver_all tcp {E = E} sents bus ≡ ok next)
  unfolding deliver_all for_participant for_service
  deliver_all-fitting [] bus ready = (bus, refl)
  deliver_all-fitting (sent ∷ rest) bus ready =
      let (mid, delivered, ready_mid) =
        deliver-fitting (length (for_participant rest)) (length (for_service rest)) sent bus
          (record {
            participant_sending = ready.participant_sending;
            service_sending = ready.service_sending;
            participant_fits = omega (
              arith,
              ready.participant_fits,
              length-append (participant_part sent) (for_participant rest),
            );
            service_fits =
                omega
                  (arith, ready.service_fits, length-append (service_part sent) (for_service rest));
          }) in
      let (next, others) = deliver_all-fitting rest mid ready_mid in (next, rw delivered others)
