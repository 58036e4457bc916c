-- ===== src/Payment/Totals.antt =====
-- `total_assets` of src/channel/fixed_size_payment.rs and sums.
use fork_perun_rs.Base.{
  ℕ, ◌+◌, ◌<◌, Bool, true, ◌&&◌, List, [], ◌∷◌, ok, panic, ◌≡◌, ◌∙◌, refl, arith, ltb, map,
  if◌then◌else◌, Bool-cases, inl, inr, ap, lt→ltb, ltb→lt, le→not_ltb, not_ltb→le,
}
use fork_perun_rs.External.{External, IsLawful, u256_bound}
use fork_perun_rs.Payment.{
  Allocation, Balances, ParticipantBalances, total_from, totals, total_assets,
}

abbrev pub sum : List ℕ → ℕ
sum [] = 0
sum (n ∷ ns) = n + sum ns

-- No sum of an asset's balances overflows.
abbrev pub fits : Balances → Bool
fits [] = true
fits (bals ∷ rest) = ltb (sum bals) u256_bound && fits rest

module _ {ℓ} {E : Type ℓ} (x : External) (lawful : IsLawful x) where
  total_from-sum :
      (total : ℕ) (bals : ParticipantBalances)
      → total < u256_bound
      → total_from {E = E} x total bals
        ≡ (if ltb (total + sum bals) u256_bound then ok (total + sum bals) else panic)
  unfolding total_from
  total_from-sum total [] h = rw (lt→ltb (total + 0) u256_bound (omega arith)) (ap ok (omega arith))
  total_from-sum total (amt ∷ bals) h =
      rw (lawful.adds total amt) (elim (Bool-cases (ltb (total + amt) u256_bound)) [
        | inl y ↦ rw y (
            total_from-sum (total + amt) bals (ltb→lt (total + amt) u256_bound y)
            ∙ ap (λ n. if ltb n u256_bound then ok n else panic) (omega arith))
        | inr n ↦ rw n (
            rw (
              le→not_ltb (total + (amt + sum bals)) u256_bound
                (omega (arith, not_ltb→le (total + amt) u256_bound n))))
      ])

  total-sum :
      (bals : ParticipantBalances)
      → total_from {E = E} x 0 bals ≡ (if ltb (sum bals) u256_bound then ok (sum bals) else panic)
  total-sum bals =
      total_from-sum 0 bals (omega arith)
      ∙ ap (λ n. if ltb n u256_bound then ok n else panic) (omega arith)

  totals-sums : (bs : Balances) → totals {E = E} x bs ≡ (if fits bs then ok (map sum bs) else panic)
  unfolding totals
  totals-sums [] = refl
  totals-sums (bals ∷ rest) = rw (total-sum bals) (elim (Bool-cases (ltb (sum bals) u256_bound)) [
    | inl y ↦
        rw y
          (rw (totals-sums rest) (elim (Bool-cases (fits rest)) [ inl y' ↦ rw y' | inr n ↦ rw n ]))
    | inr n ↦ rw n
  ])

  -- Under lawful integers the total of each asset is the sum of its balances if every sum is below
  -- 2^256, and a panic otherwise.
  pub total_assets-sum :
      (a : Allocation)
      → total_assets {E = E} x a ≡ (if fits a.balances then ok (map sum a.balances) else panic)
  unfolding total_assets
  total_assets-sum a = totals-sums a.balances
