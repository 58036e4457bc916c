-- ===== src/Payment/Assertions/Laws.antt =====
-- When the assertions of src/channel/fixed_size_payment.rs hold.
use fork_perun_rs.Base.{
  ℕ, ◌<◌, ◌≤◌, ◌≡◌, ◌↔◌, ◌∙◌, refl, sym, subst, List, arith, Bool, true, false, [], ◌∷◌, some,
  Outcome, ok, ◌>>◌, length, get_elem?, All, leb, ==_iff, lt→ltb, ltb→lt,
}
use fork_perun_rs.Base.Inversion.{ok≢panic}
use fork_perun_rs.External.{External}
use fork_perun_rs.Payment.{Asset, Balances, Allocation, Params, new_state}
use fork_perun_rs.Payment.Assertions.{
  debug_assert, max_num, assert_rows, debug_assert_valid, debug_new_state,
}

-- The arrays of the Rust type `Allocation<A, P>`.
pub record IsSized (num_assets num_parts : ℕ) (a : Allocation) : Type 0 where
  pub assets : length a.assets ≡ num_assets
  pub balances : length a.balances ≡ num_assets
  pub rows : All (λ b. length b ≡ num_parts) a.balances

-- What the assertions are about.
pub record IsBounded (num_assets num_parts : ℕ) : Type 0 where
  pub some_asset : 0 < num_assets
  pub assets_bounded : num_assets ≤ max_num
  pub some_part : 0 < num_parts
  pub parts_bounded : num_parts ≤ max_num

le→leb : (a b : ℕ) → a ≤ b → leb a b ≡ true
le→leb a b h = ground arith

leb→le : (a b : ℕ) → leb a b ≡ true → a ≤ b
leb→le a b h = ground arith

first_row :
    (n : ℕ) (bals : Balances)
    → 0 < length bals
    → All (λ b. length b ≡ n) bals
    → (first : List ℕ) × (get_elem? bals 0 ≡ some first) × (length first ≡ n)
first_row n [] h sizes = absurd (omega (arith, h))
first_row n (b ∷ rest) h sizes = (b, refl, sizes.0)

transported-All :
    (n k : ℕ) (bals : Balances)
    → n ≡ k
    → All (λ b. length b ≡ n) bals
    → All (λ b. length b ≡ k) bals
transported-All n k bals e h = subst (λ m. All (λ b. length b ≡ m) bals) e h

same_rows :
    (n : ℕ) (first : List ℕ) (rest : Balances)
    → All (λ b. length b ≡ n) (first ∷ rest)
    → All (λ b. length b ≡ length first) (first ∷ rest)
same_rows n first rest h = transported-All n (length first) (first ∷ rest) (sym h.0) h

module _ {E : Type 0} where
  asserted-ok :
      (b : Bool) (r : Outcome E (Unit {0}))
      → (debug_assert b >> r) ≡ ok tt
      → (b ≡ true) × (r ≡ ok tt)
  unfolding debug_assert
  asserted-ok true r h = (refl, h)
  asserted-ok false r h = absurd (ok≢panic tt (sym h))

  ok-assert_rows :
      (n : ℕ) (bals : Balances) → All (λ b. length b ≡ n) bals → assert_rows {E = E} n bals ≡ ok tt
  unfolding assert_rows debug_assert
  ok-assert_rows n [] h = refl
  ok-assert_rows n (b ∷ rest) (size, sizes) =
      rw ((==_iff (length b) n).1 size) (ok-assert_rows n rest sizes)

  ok-asserted :
      (b : Bool) (r : Outcome E (Unit {0})) → b ≡ true → r ≡ ok tt → (debug_assert b >> r) ≡ ok tt
  unfolding debug_assert
  ok-asserted b r holds h = rw holds h

  valid_lists_iff :
      (num_assets num_parts : ℕ) (assets : List Asset) (bals : Balances)
      → IsSized num_assets num_parts (record { assets = assets; balances = bals })
      → (debug_assert_valid {E = E} (record { assets = assets; balances = bals }) ≡ ok tt)
        ↔ IsBounded num_assets num_parts
  unfolding debug_assert_valid
  valid_lists_iff num_assets num_parts assets [] sized = (
    λ h. absurd (
        omega
          (arith, ltb→lt 0 (length assets) (asserted-ok _ _ h).0, sized.assets, sized.balances)),
    λ bounded. absurd (omega (arith, bounded.some_asset, sized.balances)),
  )
  valid_lists_iff num_assets num_parts assets (first ∷ rest) sized = (
    λ h.
        let (some_asset, h1) = asserted-ok _ _ h in
        let (_, h2) = asserted-ok _ _ h1 in
        let (assets_bounded, h3) = asserted-ok _ _ h2 in
        let (_, h4) = asserted-ok _ _ h3 in
        let (some_part, h5) = asserted-ok _ _ h4 in
        let (parts_bounded, _) = asserted-ok _ _ h5 in
        record {
          some_asset = omega (arith, sized.assets, ltb→lt 0 (length assets) some_asset);
          assets_bounded =
              omega (arith, sized.assets, leb→le (length assets) max_num assets_bounded);
          some_part = omega (arith, sized.rows.0, ltb→lt 0 (length first) some_part);
          parts_bounded = omega (arith, sized.rows.0, leb→le (length first) max_num parts_bounded);
        },
    λ bounded.
        ok-asserted _ _ (lt→ltb 0 (length assets) (omega (arith, sized.assets, bounded.some_asset)))
          (ok-asserted _ _ (lt→ltb 0 (length (first ∷ rest)) (omega arith)) (
            ok-asserted _ _
              (le→leb (length assets) max_num (omega (arith, sized.assets, bounded.assets_bounded)))
              (ok-asserted _ _
                ((==_iff (length assets) (length (first ∷ rest))).1
                  (sized.assets ∙ sym sized.balances))
                (ok-asserted _ _
                  (lt→ltb 0 (length first) (omega (arith, sized.rows.0, bounded.some_part)))
                  (ok-asserted _ _
                    (le→leb (length first) max_num
                      (omega (arith, sized.rows.0, bounded.parts_bounded)))
                    (ok-assert_rows (length first) (first ∷ rest)
                      (same_rows num_parts first rest sized.rows))))))),
  )

  -- For the arrays of an allocation of a type: the assertions hold just if there are assets and
  -- participants, and no more than 1024 of each.
  pub debug_assert_valid_iff :
      (num_assets num_parts : ℕ) (a : Allocation)
      → IsSized num_assets num_parts a
      → (debug_assert_valid {E = E} a ≡ ok tt) ↔ IsBounded num_assets num_parts
  debug_assert_valid_iff num_assets num_parts a sized =
      valid_lists_iff num_assets num_parts a.assets a.balances sized

-- For the arrays of types that have assets and participants, and no more than 1024 of each: `State::new`
-- of a debug build gives what that of a release build gives.
pub debug_new_state-new_state :
    (x : External) (num_assets num_parts : ℕ) (params : Params) (init_bals : Allocation)
    → IsSized num_assets num_parts init_bals
    → length params.participants ≡ num_parts
    → IsBounded num_assets num_parts
    → debug_new_state x params init_bals ≡ new_state x params init_bals
unfolding debug_new_state debug_assert
debug_new_state-new_state x num_assets num_parts params init_bals sized parts bounded =
    let (first, found, size) =
      first_row num_parts init_bals.balances (omega (arith, sized.balances, bounded.some_asset))
        sized.rows in
    rw ((debug_assert_valid_iff num_assets num_parts init_bals sized).1 bounded) (
      rw found
        (rw ((==_iff (length params.participants) (length first)).1 (parts ∙ sym size)) refl))
