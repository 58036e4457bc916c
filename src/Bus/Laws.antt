-- ===== src/Bus/Laws.antt =====
-- `broadcast_to_participants` of src/wire.rs and whom it reaches.
use fork_perun_rs.Base.{
  ℕ, zero, suc, ◌+◌, ◌≡◌, ◌≢◌, ◌≤◌, ◌<◌, refl, ap, sym, ◌∙◌, map, arith, List, [], ◌∷◌, some, ok,
  get_elem?, length, Bool-cases, inl, inr, ◌⊎◌, ◌==◌, ==_iff, false,
}
use fork_perun_rs.Base.Inversion.{bind-ok, unwrap-ok, ok-injective}
use fork_perun_rs.Messages.{Identity, Peers, ParticipantMessage}
use fork_perun_rs.Bus.{Sent, to_participant, send_others, broadcast}

get_elem?-bound {ℓ} :
    {A : Type ℓ} (xs : List A) (i : ℕ) {a : A} → get_elem? xs i ≡ some a → i < length xs
get_elem?-bound [] i h = absurd (ground arith)
get_elem?-bound (x ∷ xs) zero h = omega arith
get_elem?-bound (x ∷ xs) (suc i) h = omega (arith, get_elem?-bound xs i h)

-- The peer is sent the message.
pub IsReached : Identity → ParticipantMessage → Identity → List Sent → Type 0
IsReached sender msg peer [] = ⊥
IsReached sender msg peer (m ∷ ms) =
    (m ≡ to_participant sender peer msg) ⊎ IsReached sender msg peer ms

send_others-length_past :
    (sender : Identity) (msg : ParticipantMessage) (part_idx i : ℕ) (peers : Peers)
    → part_idx < i
    → length (send_others sender part_idx i peers msg) ≡ length peers
unfolding send_others
send_others-length_past sender msg part_idx i [] h = refl
send_others-length_past sender msg part_idx i (p ∷ peers) h = elim (Bool-cases (i == part_idx)) [
  | inl same ↦ absurd (omega (arith, (==_iff i part_idx).0 same))
  | inr other ↦
      rw other (ap suc (send_others-length_past sender msg part_idx (suc i) peers (omega arith)))
]

send_others-length :
    (sender : Identity) (msg : ParticipantMessage) (part_idx i : ℕ) (peers : Peers)
    → i ≤ part_idx
    → part_idx < i + length peers
    → length (send_others sender part_idx i peers msg) + 1 ≡ length peers
unfolding send_others
send_others-length sender msg part_idx i [] h lt = absurd (omega arith)
send_others-length sender msg part_idx i (p ∷ peers) h lt = elim (Bool-cases (i == part_idx)) [
  | inl same ↦ rw same (
      omega (
        arith,
        (==_iff i part_idx).0 same,
        send_others-length_past sender msg part_idx (suc i) peers
            (omega (arith, (==_iff i part_idx).0 same)),
      ))
  | inr other ↦ rw other (
      omega (
        arith,
        send_others-length sender msg part_idx (suc i) peers (omega (arith, differ other))
            (omega arith),
      ))
]
  where
    differ : (i == part_idx) ≡ false → i ≢ part_idx
    differ n e = ground arith

send_others-IsReached :
    (sender : Identity) (msg : ParticipantMessage) (part_idx i : ℕ) (peers : Peers) (k : ℕ)
    (peer : Identity)
    → i + k ≢ part_idx
    → get_elem? peers k ≡ some peer
    → IsReached sender msg peer (send_others sender part_idx i peers msg)
unfolding send_others IsReached
send_others-IsReached sender msg part_idx i [] k peer ne h = absurd (ground arith)
send_others-IsReached sender msg part_idx i (p ∷ peers) zero peer ne h =
    elim (Bool-cases (i == part_idx)) [
      | inl same ↦ absurd (ne (omega (arith, (==_iff i part_idx).0 same)))
      | inr other ↦ rw other (inl (ap (λ q. to_participant sender q msg) (some_injective p peer h)))
    ]
  where
    some_injective : (a b : Identity) → some a ≡ some b → a ≡ b
    some_injective a b h = ground arith
send_others-IsReached sender msg part_idx i (p ∷ peers) (suc k) peer ne h =
    let rest =
      send_others-IsReached sender msg part_idx (suc i) peers k peer (λ e. ne (omega (arith, e)))
        h in
    elim (Bool-cases (i == part_idx)) [ inl same ↦ rw same rest | inr other ↦ rw other (inr rest) ]

-- A broadcast by a participant succeeds, sends one message for each other peer, and reaches every
-- peer but the sender.
pub broadcast-IsReached {ℓ} :
    {E : Type ℓ} (part_idx : ℕ) (peers : Peers) (msg : ParticipantMessage) (sender : Identity)
    (k : ℕ) (peer : Identity)
    → get_elem? peers part_idx ≡ some sender
    → k ≢ part_idx
    → get_elem? peers k ≡ some peer
    → (sent : List Sent) × (broadcast {E = E} part_idx peers msg ≡ ok sent)
      × (length sent + 1 ≡ length peers)
      × IsReached sender msg peer sent
unfolding broadcast
broadcast-IsReached part_idx peers msg sender k peer own ne found = (
  send_others sender part_idx 0 peers msg,
  rw own,
  send_others-length sender msg part_idx 0 peers (omega arith)
      (omega (arith, get_elem?-bound peers part_idx own)),
  send_others-IsReached sender msg part_idx 0 peers k peer (λ e. ne (omega (arith, e))) found,
)

-- All peers but the i-th.
abbrev pub others : ℕ → Peers → Peers
others i [] = []
others zero (peer ∷ peers) = peers
others (suc i) (peer ∷ peers) = peer ∷ others i peers

send_others-past :
    (sender : Identity) (msg : ParticipantMessage) (part_idx i : ℕ) (peers : Peers)
    → part_idx < i
    → send_others sender part_idx i peers msg ≡ map (λ p. to_participant sender p msg) peers
unfolding send_others
send_others-past sender msg part_idx i [] h = refl
send_others-past sender msg part_idx i (p ∷ peers) h = elim (Bool-cases (i == part_idx)) [
  | inl same ↦ absurd (omega (arith, (==_iff i part_idx).0 same))
  | inr other ↦ rw other (
      ap (◌∷◌ (to_participant sender p msg))
        (send_others-past sender msg part_idx (suc i) peers (omega arith)))
]

send_others-others :
    (sender : Identity) (msg : ParticipantMessage) (i k : ℕ) (peers : Peers)
    → send_others sender (i + k) i peers msg
      ≡ map (λ p. to_participant sender p msg) (others k peers)
unfolding send_others
send_others-others sender msg i k [] = refl
send_others-others sender msg i zero (p ∷ peers) =
    rw ((==_iff i (i + 0)).1 (omega arith))
      (send_others-past sender msg (i + 0) (suc i) peers (omega arith))
send_others-others sender msg i (suc k) (p ∷ peers) = rw (differ i k) (
    ap (◌∷◌ (to_participant sender p msg)) (
      ap (λ j. send_others sender j (suc i) peers msg) (omega arith)
      ∙ send_others-others sender msg (suc i) k peers))
  where
    differ : (i k : ℕ) → (i == i + suc k) ≡ false
    differ i k = ground arith

-- What a broadcast has sent, if it succeeds: the message, once to every peer but the sender.
pub broadcast-others {ℓ} :
    {E : Type ℓ} (part_idx : ℕ) (peers : Peers) (msg : ParticipantMessage) (sent : List Sent)
    → broadcast {E = E} part_idx peers msg ≡ ok sent
    → (sender : Identity) × (get_elem? peers part_idx ≡ some sender)
      × (sent ≡ map (λ p. to_participant sender p msg) (others part_idx peers))
unfolding broadcast
broadcast-others part_idx peers msg sent h =
    let (sender, known, rest) = bind-ok _ _ h in
    (
      sender,
      unwrap-ok _ known,
      sym (ok-injective _ _ rest)
          ∙ ap (λ i. send_others sender i 0 peers msg) (omega arith)
          ∙ send_others-others sender msg 0 part_idx peers,
    )
