-- ===== src/Wire/Payments/Laws.antt =====
-- What of a parameter set, a balance or a state survives being written and read, in
-- src/channel/fixed_size_payment.rs.
use fork_perun_rs.Base.{
  ℕ, Bool, drop, ◌≢◌, if◌then◌else◌, ◌<◌, ◌≡◌, ◌↔◌, ◌∙◌, refl, sym, ap, subst, List, [], ◌∷◌,
  Outcome, ok, panic, ◌>>=◌, true, false, length, ltb, ◌==◌, inl, inr, length-drop,
}
use mathlib.Core.Option
use fork_perun_rs.Base.Inversion.{bind-ok, ok-injective, ok≢panic, Outcome-cases, guarded-ok}
use fork_perun_rs.External.{External, IsLawful, u256_bound}
use fork_perun_rs.Types.{Bytes}
use fork_perun_rs.Payment.{Asset, State}
use fork_perun_rs.Payment.Laws.{IsShaped}
use fork_perun_rs.Messages.{ConversionError, byte_length_missmatch}
use fork_perun_rs.Wire.{try_some, fill}
use fork_perun_rs.Wire.Perunwire
use fork_perun_rs.Wire.Payments.Parameters.{try_bytes-sized, try_balances-into_balances}
use fork_perun_rs.Wire.Payments.{
  zero_address, try_asset, into_asset, try_allocation, into_allocation, try_state, into_state,
  holder_length,
}

-- What `copy_from_slice` is given when an asset has 20 bytes is too short.
read_holder : (b : Bytes) (a : Asset) → length b ≡ 20 → try_asset b ≡ ok a → a.holder ≡ zero_address
unfolding try_asset
read_holder b a sized h =
    let (_, h1) = guarded-ok (ltb (length b) 2) byte_length_missmatch _ h in
    let (_, h2) = guarded-ok (ltb 20 (holder_length b)) byte_length_missmatch _ h1 in
    last (ltb 0 (holder_length b)) h2
  where
    short : (length (drop 2 b) == 20) ≡ false
    short = test (length-drop 2 b ∙ rw sized)
      where
        test : {n : ℕ} → n ≡ 18 → (n == 20) ≡ false
        test e = rw e

    no_panic : ◌≢◌ {A = Outcome ConversionError Asset} panic (ok a)
    no_panic e = ok≢panic a (sym e)

    last :
        (c : Bool)
        → ◌≡◌ {A = Outcome ConversionError Asset}
            (if◌then◌else◌ {A = Outcome ConversionError Asset} c
              (if◌then◌else◌ {A = Outcome ConversionError Asset}
                (length (drop 2 b) == 20)
                (ok (record { holder = drop 2 b }))
                panic)
              (ok (record { holder = zero_address })))
            (ok a)
        → a.holder ≡ zero_address
    last true e = absurd (
        no_panic (
          subst
            (λ c.
              if◌then◌else◌ {A = Outcome ConversionError Asset} c
                (ok (record { holder = drop 2 b })) panic
              ≡ ok a)
            short e))
    last false e = ap (λ t. t.holder) (sym (ok-injective _ _ e))

abbrev first_holder : List Asset → Bytes
first_holder [] = []
first_holder (a ∷ _) = a.holder

try_asset-zero : try_asset zero_address ≡ ok (record { holder = zero_address })
unfolding try_asset
try_asset-zero = refl

own_assets :
    (s : State) (shaped : IsShaped s)
    → record s {
      outcome = record {
        assets = record { holder = shaped.holder } ∷ [];
        balances = s.outcome.balances;
      };
    }
      ≡ s
own_assets s shaped =
    ap (λ assets. record s { outcome = record { assets = assets; balances = s.outcome.balances } })
      (sym shaped.one_asset)

-- A state whose asset has the holder zero, and whose balances have 256 bits.
pub record IsNative (s : State) : Type 0 where
  pub shaped : IsShaped s
  pub own_fits : shaped.own < u256_bound
  pub other_fits : shaped.other < u256_bound
  pub native : shaped.holder ≡ zero_address

-- The state with these bytes for its assets.
unfoldable pub with_assets : Perunwire.State → List Bytes → Perunwire.State
with_assets s assets = record s {
  allocation = Option.map (λ (a : Perunwire.Allocation). record a { assets = assets }) s.allocation;
}

module _ (x : External) (lawful : IsLawful x) where
  -- An allocation of the asset zero is read as it was written.
  pub try_allocation-into_allocation :
      (a b : ℕ)
      → a < u256_bound
      → b < u256_bound
      → try_allocation x (
          into_allocation x (record {
            assets = record { holder = zero_address } ∷ [];
            balances = (a ∷ b ∷ []) ∷ [];
          }))
        ≡ ok (record {
          assets = record { holder = zero_address } ∷ [];
          balances = (a ∷ b ∷ []) ∷ [];
        })
  unfolding try_allocation into_allocation try_some fill into_asset try_asset
  try_allocation-into_allocation a b ha hb = rw (try_balances-into_balances x lawful a b ha hb)

  written :
      (s : State) (shaped : IsShaped s)
      → into_state x s ≡ with_assets (into_state x s) (shaped.holder ∷ [])
  unfolding into_state into_allocation with_assets into_asset
  written s shaped = rw shaped.one_asset

  -- A state that is written with its asset in some bytes is read as it was, but for what these bytes
  -- are read as.
  reread :
      (s : State) (shaped : IsShaped s) (b : Bytes)
      → shaped.own < u256_bound
      → shaped.other < u256_bound
      → try_state x (with_assets (into_state x s) (b ∷ [])) ≡ (
          try_asset b >>= λ a.
          ok (record s { outcome = record { assets = a ∷ []; balances = s.outcome.balances } }))
  unfolding try_state into_state try_allocation into_allocation try_some fill with_assets
  reread s shaped b h1 h2 = rw (try_bytes-sized 32 s.id shaped.id_size) (
      rw shaped.two_balances (elim (Outcome-cases (try_asset b)) [
        | inl (a, e) ↦ rw e (rw (try_balances-into_balances x lawful shaped.own shaped.other h1 h2))
        | inr (inl (a, e)) ↦ rw e
        | inr (inr e) ↦ rw e
      ]))

  reread_written :
      (s : State) (shaped : IsShaped s)
      → shaped.own < u256_bound
      → shaped.other < u256_bound
      → try_state x (into_state x s) ≡ (
          try_asset shaped.holder >>= λ a.
          ok (record s { outcome = record { assets = a ∷ []; balances = s.outcome.balances } }))
  reread_written s shaped h1 h2 =
      ap (try_state x) (written s shaped) ∙ reread s shaped shaped.holder h1 h2

  -- For lawful crates and a state of one asset and two balances of 256 bits: what is written is
  -- read as the same state if the asset's holder is all zeros, and never otherwise.
  pub try_state-into_state_iff :
      (s : State) (shaped : IsShaped s)
      → shaped.own < u256_bound
      → shaped.other < u256_bound
      → (try_state x (into_state x s) ≡ ok s) ↔ (shaped.holder ≡ zero_address)
  try_state-into_state_iff s shaped h1 h2 = (only, back)
    where
      only : try_state x (into_state x s) ≡ ok s → shaped.holder ≡ zero_address
      only e =
          let (a, found, same) =
            bind-ok (try_asset shaped.holder) _ (sym (reread_written s shaped h1 h2) ∙ e) in
          let kept : record { holder = shaped.holder } ∷ [] ≡ a ∷ [] =
            sym shaped.one_asset
            ∙ sym (ap (λ (t : State). t.outcome.assets) (ok-injective _ s same)) in
          ap first_holder kept ∙ read_holder shaped.holder a shaped.holder_size found

      back : shaped.holder ≡ zero_address → try_state x (into_state x s) ≡ ok s
      back e =
          reread_written s shaped h1 h2
          ∙ rw e (rw try_asset-zero (rw (sym e) (ap ok (own_assets s shaped))))

  pub try_state-into_state : (s : State) → IsNative s → try_state x (into_state x s) ≡ ok s
  try_state-into_state s n =
      (try_state-into_state_iff s n.shaped n.own_fits n.other_fits).1 n.native

  -- For lawful crates and a state of one asset and two balances of 256 bits: if the holder is
  -- written after its length in two bytes, the low one first, the state is read as it was.
  pub try_state-prefixed :
      (s : State) (shaped : IsShaped s)
      → shaped.own < u256_bound
      → shaped.other < u256_bound
      → try_state x (with_assets (into_state x s) ((20 ∷ 0 ∷ shaped.holder) ∷ [])) ≡ ok s
  unfolding try_asset
  try_state-prefixed s shaped h1 h2 =
      reread s shaped (20 ∷ 0 ∷ shaped.holder) h1 h2
      ∙ rw shaped.holder_size (ap ok (own_assets s shaped))
