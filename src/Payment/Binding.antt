-- ===== src/Payment/Binding.antt =====
-- What a signature of a state (src/channel/fixed_size_payment.rs) binds its signer to: the bytes that
-- are hashed determine the state.
use fork_perun_rs.Base.{
  ℕ, ◌<◌, ◌≡◌, ◌≢◌, ◌∙◌, refl, ap, sym, arith, Bool, true, false, List, [], ◌∷◌, ◌++◌, length, zero,
  suc, drop, take, take-append_length, replicate, All, if◌then◌else◌,
}
use fork_perun_rs.Base.Inversion.{ok-injective}
use fork_perun_rs.External.{External, IsLawful, u256_bound}
use fork_perun_rs.Types.{Address, Hash, to_hash}
use fork_perun_rs.Abi.Bytes.{
  be_bytes, from_be, from_be-be_bytes, length-be_bytes, flatten, slot_size, chunks,
}
use fork_perun_rs.Abi.Value.{items}
use fork_perun_rs.Abi.Spec.{abi_encode, encode, is_dynamic, heads, tails, word}
use fork_perun_rs.Payment.{State, state_value, allocation_value, asset_value, balances_value}
use fork_perun_rs.Payment.Laws.{IsShaped, address-size, state-hash}

-- The 18 slots of a state with one asset and two balances.
abbrev state_slots : Hash → ℕ → Address → ℕ → ℕ → Bool → List (List ℕ)
state_slots id version holder own other is_final =
    word 32
    ∷ id
    ∷ word version
    ∷ word 160
    ∷ word 512
    ∷ word (if is_final then 1 else 0)
    ∷ word 96
    ∷ word 160
    ∷ word 320
    ∷ word 1
    ∷ (replicate 12 0 ++ holder)
    ∷ word 1
    ∷ word 32
    ∷ word 2
    ∷ word own
    ∷ word other
    ∷ word 0
    ∷ word 0
    ∷ []

whole : (n : ℕ) (b : List ℕ) → length b ≡ n → take n (b ++ []) ≡ b
whole n b h = ap (λ k. take k (b ++ [])) (sym h) ∙ take-append_length b []

append-split : (a b c d : List ℕ) → length a ≡ length b → a ++ c ≡ b ++ d → (a ≡ b) × (c ≡ d)
append-split [] [] c d n e = (refl, e)
append-split [] (y ∷ b) c d n e = absurd (omega (arith, n))
append-split (x ∷ a) [] c d n e = absurd (omega (arith, n))
append-split (x ∷ a) (y ∷ b) c d n e =
    let (same, rest) = append-split a b c d (omega (arith, n)) (ground arith) in
    (ground arith, rest)

-- Slots of one size can be told apart in their bytes.
flatten-injective :
    (xs ys : List (List ℕ))
    → All (λ s. length s ≡ slot_size) xs
    → All (λ s. length s ≡ slot_size) ys
    → length xs ≡ length ys
    → flatten xs ≡ flatten ys
    → xs ≡ ys
unfolding flatten
flatten-injective [] [] hx hy n e = refl
flatten-injective [] (y ∷ ys) hx hy n e = absurd (omega (arith, n))
flatten-injective (x ∷ xs) [] hx hy n e = absurd (omega (arith, n))
flatten-injective (x ∷ xs) (y ∷ ys) (hx, hxs) (hy, hys) n e =
    let (first, rest) = append-split x y (flatten xs) (flatten ys) (hx ∙ sym hy) e in
    ap (◌∷◌ x) (flatten-injective xs ys hxs hys (omega (arith, n)) rest) ∙ ap (λ s. s ∷ ys) first

word-injective : (a b : ℕ) → a < u256_bound → b < u256_bound → word a ≡ word b → a ≡ b
word-injective a b small_a small_b e =
    sym (from_be-be_bytes 32 a small_a) ∙ ap from_be e ∙ from_be-be_bytes 32 b small_b

abbrev nth : ℕ → List (List ℕ) → List ℕ
nth n [] = []
nth zero (s ∷ ss) = s
nth (suc n) (s ∷ ss) = nth n ss

state_eq :
    (s t : State)
    → s.id ≡ t.id
    → s.version ≡ t.version
    → s.outcome.assets ≡ t.outcome.assets
    → s.outcome.balances ≡ t.outcome.balances
    → s.is_final ≡ t.is_final
    → s ≡ t
state_eq s t id version assets balances is_final = λ i. record {
  id = id i;
  version = version i;
  outcome = record { assets = assets i; balances = balances i };
  is_final = is_final i;
}

bit-injective : (a b : Bool) → word (if a then 1 else 0) ≡ word (if b then 1 else 0) → a ≡ b
bit-injective true true e = refl
bit-injective false false e = refl
bit-injective true false e =
    absurd (omega (arith, word-injective 1 0 (omega arith) (omega arith) e))
bit-injective false true e =
    absurd (omega (arith, word-injective 0 1 (omega arith) (omega arith) e))

module _ (x : External) (lawful : IsLawful x) where
  state-layout :
      (s : State) (shaped : IsShaped s)
      → abi_encode (state_value x s)
        ≡ state_slots s.id s.version shaped.holder shaped.own shaped.other s.is_final
  unfolding abi_encode encode is_dynamic heads tails state_value allocation_value asset_value
      balances_value items chunks
  state-layout s shaped = rw shaped.one_asset (
      rw shaped.two_balances (
        rw shaped.id_size (
          rw (address-size x lawful shaped.holder shaped.holder_size) (
            rw (lawful.writes_big_endian shaped.own) (
              rw (lawful.writes_big_endian shaped.other) (
                rw (length-be_bytes 32 shaped.own) (
                  rw (length-be_bytes 32 shaped.other) (
                    rw (whole 32 s.id shaped.id_size) (
                      rw (whole 20 shaped.holder shaped.holder_size) (
                        rw (whole 32 (be_bytes 32 shaped.own) (length-be_bytes 32 shaped.own)) (
                          rw (whole 32 (be_bytes 32 shaped.other) (length-be_bytes 32 shaped.other))
                            refl)))))))))))

  slots-IsSlot :
      (s : State) (shaped : IsShaped s)
      → All
          (λ b. length b ≡ slot_size)
          (state_slots s.id s.version shaped.holder shaped.own shaped.other s.is_final)
  slots-IsSlot s shaped = omega (arith, length-be_bytes, shaped.id_size, shaped.holder_size)

  -- The bytes that are hashed determine the state.
  encoding-injective :
      (s t : State) (shaped_s : IsShaped s) (shaped_t : IsShaped t)
      → shaped_s.own < u256_bound
      → shaped_s.other < u256_bound
      → shaped_t.own < u256_bound
      → shaped_t.other < u256_bound
      → flatten (abi_encode (state_value x s)) ≡ flatten (abi_encode (state_value x t))
      → s ≡ t
  encoding-injective s t shaped_s shaped_t h1 h2 h3 h4 e =
      state_eq s t (ap (nth 1) same)
        (word-injective s.version t.version (omega (arith, shaped_s.version_fits))
          (omega (arith, shaped_t.version_fits)) (ap (nth 2) same))
        (shaped_s.one_asset
          ∙ ap (λ h. record { holder = h } ∷ []) (ap (λ slots. drop 12 (nth 10 slots)) same)
          ∙ sym shaped_t.one_asset)
        (shaped_s.two_balances
          ∙ ap (λ n. (n ∷ shaped_s.other ∷ []) ∷ [])
              (word-injective shaped_s.own shaped_t.own h1 h3 (ap (nth 14) same))
          ∙ ap (λ n. (shaped_t.own ∷ n ∷ []) ∷ [])
              (word-injective shaped_s.other shaped_t.other h2 h4 (ap (nth 15) same))
          ∙ sym shaped_t.two_balances)
        (bit-injective s.is_final t.is_final (ap (nth 5) same))
    where
      same :
          state_slots s.id s.version shaped_s.holder shaped_s.own shaped_s.other s.is_final
          ≡ state_slots t.id t.version shaped_t.holder shaped_t.own shaped_t.other t.is_final
      same =
          flatten-injective _ _ (slots-IsSlot s shaped_s) (slots-IsSlot t shaped_t) refl
            (ap flatten (sym (state-layout s shaped_s)) ∙ e ∙ ap flatten (state-layout t shaped_t))

  -- For lawful crates: two different states of one asset and two balances of 256 bits have different
  -- ABI encodings; if their hashes, which are signed, are equal, then the encodings are a collision of
  -- Keccak-256.
  pub same_hash-collision :
      (s t : State) (shaped_s : IsShaped s) (shaped_t : IsShaped t)
      → shaped_s.own < u256_bound
      → shaped_s.other < u256_bound
      → shaped_t.own < u256_bound
      → shaped_t.other < u256_bound
      → s ≢ t
      → to_hash x (state_value x s) ≡ to_hash x (state_value x t)
      → (flatten (abi_encode (state_value x s)) ≢ flatten (abi_encode (state_value x t)))
        × (x.keccak256 (flatten (abi_encode (state_value x s)))
            ≡ x.keccak256 (flatten (abi_encode (state_value x t))))
  same_hash-collision s t shaped_s shaped_t h1 h2 h3 h4 differ same = (
    λ e. differ (encoding-injective s t shaped_s shaped_t h1 h2 h3 h4 e),
    ok-injective _ _ (sym (state-hash x lawful s shaped_s) ∙ same ∙ state-hash x lawful t shaped_t),
  )
