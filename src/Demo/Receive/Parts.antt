-- ===== src/Demo/Receive/Parts.antt =====
-- The parts of `try_recv` of cortex-m-demo/src/application.rs: the length is skipped, the message read.
use fork_perun_rs.Base.{
  ℕ, ◌≤◌, ◌≡◌, ◌∙◌, refl, ap, arith, true, Bool-cases, inl, inr, [], ◌∷◌, ◌++◌, some, ok, length,
  take, take-append_length, drop, ltb, ◌==◌, le→not_ltb, not_ltb→le, ltb→lt, length-append,
  length-drop,
}
use fork_perun_rs.Abi.Bytes.{drop-drop}
use fork_perun_rs.Effects.{resume}
use fork_perun_rs.Types.{Bytes}
use fork_perun_rs.Wire.Encoding.{Codec}
use fork_perun_rs.Demo.Socket.{TcpSocket, IsLawfulTcp}
use fork_perun_rs.Demo.Receive.{max_message_size, at_most_two, recv, skip_length, read_msg}

at_most_two-bound : (b : Bytes) → 1 ≤ length b → (at_most_two b).0 ≤ length b
at_most_two-bound b h = elim (Bool-cases (ltb (length b) 2)) [
  | inl y ↦ rw y (omega arith)
  | inr n ↦ rw n (omega (arith, not_ltb→le (length b) 2 n))
]

at_most_two-short : (b : Bytes) → 1 ≤ length b → ltb (length b) 2 ≡ true → at_most_two b ≡ (1, 1)
at_most_two-short b h short = rw short (rw one)
  where
    one : length b ≡ 1
    one = omega (arith, h, ltb→lt (length b) 2 short)

drop-all : (xs ys : Bytes) → drop (length xs) (xs ++ ys) ≡ ys
drop-all [] ys = refl
drop-all (x ∷ xs) ys = drop-all xs ys

module _ (tcp : TcpSocket) (law : IsLawfulTcp tcp) where
  -- The rest of `skip_length` when the first of the two bytes was taken.
  skip_length-split :
      (s t : tcp.Socket)
      → 2 ≤ length (law.queue s)
      → tcp.recv at_most_two s ≡ some (1, t)
      → law.queue t ≡ drop 1 (law.queue s)
      → law.IsReceiving t
      → (u : tcp.Socket) × (skip_length tcp s ≡ (u, ok tt, []))
        × (law.queue u ≡ drop 2 (law.queue s))
        × law.IsReceiving u
  unfolding skip_length recv resume
  skip_length-split s t long got left receiving =
      let (_, _, u, _, _, got_u, left_u, receiving_u) =
        law.receives (λ _. (1, tt)) t receiving
          (omega (arith, ap (length {A = ℕ}) left, length-drop 1 (law.queue s), long)) (λ b h. h) in
      (u, rw got (rw got_u), left_u ∙ rw left (drop-drop 1 1 2 (law.queue s) refl), receiving_u)

  pub skip_length-ok :
      (s : tcp.Socket)
      → law.IsReceiving s
      → 2 ≤ length (law.queue s)
      → (t : tcp.Socket) × (skip_length tcp s ≡ (t, ok tt, []))
        × (law.queue t ≡ drop 2 (law.queue s))
        × law.IsReceiving t
  unfolding skip_length recv resume
  skip_length-ok s receiving long =
      let (shown, more, t, parts, nonempty, got, left, receiving_t) =
        law.receives at_most_two s receiving (omega (arith, long)) at_most_two-bound in
      elim (Bool-cases (ltb (length shown) 2)) [
        | inl short ↦
            let one = at_most_two-short shown nonempty short in
            skip_length-split s t long (got ∙ ap (λ (r : ℕ × ℕ). some (r.1, t)) one)
              (left ∙ ap (λ (r : ℕ × ℕ). drop r.0 (law.queue s)) one) receiving_t
        | inr both ↦ (t, rw got (rw both), left ∙ rw both, receiving_t)
      ]

  pub read_msg-ok :
      {T : Type 0} (codec : Codec T) (s : tcp.Socket) (body rest : Bytes) (msg : T)
      → law.IsReceiving s
      → law.queue s ≡ body ++ rest
      → length body ≤ max_message_size
      → codec.decode body ≡ some msg
      → (t : tcp.Socket) × (read_msg tcp codec (length body) s ≡ (t, ok msg, []))
        × (law.queue t ≡ rest)
        × law.IsReceiving t
  unfolding read_msg resume
  read_msg-ok codec s body rest msg receiving parts small decoded =
      let (t, got, left, receiving_t) = law.copies (length body) s receiving (long parts) in
      let got_body =
        got
        ∙ ap (λ q. some (take (length body) q, t)) parts
        ∙ ap (λ b. some (b, t)) (take-append_length body rest) in
      (
        t,
        rw (le→not_ltb max_message_size (length body) small)
            (rw got_body (rw (==_refl (length body)) (rw decoded))),
        left ∙ rw parts (drop-all body rest),
        receiving_t,
      )
    where
      long : law.queue s ≡ body ++ rest → length body ≤ length (law.queue s)
      long e = rw e (omega (arith, length-append body rest))

      ==_refl : (n : ℕ) → (n == n) ≡ true
      ==_refl n = ground arith
