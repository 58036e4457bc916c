-- ===== src/Channel/Transition/Laws.antt =====
-- `check_valid_transition` of src/channel/active.rs and what a valid transition is.
use fork_perun_rs.Base.{
  ◌+◌, ◌%◌, ℕ, Bool, true, false, ok, bytes_eq_iff, ==_iff, ◌≡◌, ◌↔◌, refl, ap, sym, ◌∙◌, map, List,
  [], ◌∷◌, and_left, and_right, arith, ltb, ◌&&◌,
}
use fork_perun_rs.Base.Inversion.{guarded-ok, fitting-ok, bind-ok, not-false}
use fork_perun_rs.External.{External, IsLawful, u256_bound}
use fork_perun_rs.Types.{Address}
use fork_perun_rs.Payment.{Asset, Balances, State, u64_bound}
use fork_perun_rs.Payment.Totals.{sum, fits, total_assets-sum}
use fork_perun_rs.Channel.Types.{ActiveChannel}
use fork_perun_rs.Channel.Transition.{assets_eq, check_totals, check_valid_transition}

pub record IsValidTransition (x : External) (old new : State) : Type 0 where
  pub same_id : new.id ≡ old.id
  pub not_final : old.is_final ≡ false
  pub next_version : new.version ≡ (old.version + 1) % u64_bound
  pub same_assets : assets_eq new.outcome.assets old.outcome.assets ≡ true
  pub same_totals : check_totals x old new ≡ ok tt

pub check_valid_transition-ok :
    (x : External) (ch : ActiveChannel) (new : State)
    → check_valid_transition x ch new ≡ ok tt
    → IsValidTransition x ch.state new
unfolding check_valid_transition
check_valid_transition-ok x ch new h =
    let (id, h1) = guarded-ok _ _ _ h in
    let (final, h2) = guarded-ok _ _ _ h1 in
    let (version, h3) = guarded-ok _ _ _ h2 in
    let (assets, totals) = guarded-ok _ _ _ h3 in
    record {
      same_id = (bytes_eq_iff _ _).0 (not-false _ id);
      not_final = final;
      next_version = (==_iff _ _).0 (not-false _ version);
      same_assets = not-false _ assets;
      same_totals = totals;
    }

pub ok-check_valid_transition :
    (x : External) (ch : ActiveChannel) (new : State)
    → IsValidTransition x ch.state new
    → check_valid_transition x ch new ≡ ok tt
unfolding check_valid_transition
ok-check_valid_transition x ch new valid = rw ((bytes_eq_iff new.id ch.state.id).1 valid.same_id) (
    rw valid.not_final (
      rw ((==_iff new.version ((ch.state.version + 1) % u64_bound)).1 valid.next_version)
        (rw valid.same_assets valid.same_totals)))

pub totals-kept :
    (x : External) (old new : State)
    → IsLawful x
    → IsValidTransition x old new
    → (map sum new.outcome.balances ≡ map sum old.outcome.balances)
      × (fits new.outcome.balances ≡ true)
unfolding check_totals
totals-kept x old new lawful valid =
    let (after, e1, h1) = bind-ok _ _ valid.same_totals in
    let (before, e2, h2) = bind-ok _ _ h1 in
    let (same, _) = guarded-ok _ _ _ h2 in
    let (f1, s1) = fitting-ok _ _ (sym (total_assets-sum x lawful new.outcome) ∙ e1) in
    let (f2, s2) = fitting-ok _ _ (sym (total_assets-sum x lawful old.outcome) ∙ e2) in
    (s1 ∙ (bytes_eq_iff after before).0 (not-false _ same) ∙ sym s2, f1)

abbrev pub holder_of : Asset → Address
holder_of a = a.holder

pub assets_eq_iff :
    (xs ys : List Asset) → (assets_eq xs ys ≡ true) ↔ (map holder_of xs ≡ map holder_of ys)
unfolding assets_eq
assets_eq_iff [] [] = (λ h. refl, λ h. refl)
assets_eq_iff [] (y ∷ ys) = (λ h. absurd (ground arith), λ h. absurd (ground arith))
assets_eq_iff (x ∷ xs) [] = (λ h. absurd (ground arith), λ h. absurd (ground arith))
assets_eq_iff (x ∷ xs) (y ∷ ys) = (
  λ h.
      let first = (bytes_eq_iff x.holder y.holder).0 (and_left _ _ h) in
      let rest = (assets_eq_iff xs ys).0 (and_right _ _ h) in
      ap (λ a. a ∷ map holder_of xs) first ∙ ap (◌∷◌ y.holder) rest,
  λ h.
      rw ((bytes_eq_iff x.holder y.holder).1 (cons_injective h).0)
        ((assets_eq_iff xs ys).1 (cons_injective h).1),
)
  where
    cons_injective :
        {a b : Address} {as' bs : List Address} → a ∷ as' ≡ b ∷ bs → (a ≡ b) × (as' ≡ bs)
    cons_injective h = (ground arith, ground arith)

-- Whether sums fit follows from the sums.
fits-same : (xs ys : Balances) → map sum xs ≡ map sum ys → fits xs ≡ true → fits ys ≡ true
fits-same xs ys same fit = sym (fits-sums ys) ∙ ap all_fit (sym same) ∙ fits-sums xs ∙ fit
  where
    all_fit : List ℕ → Bool
    all_fit [] = true
    all_fit (n ∷ ns) = ltb n u256_bound && all_fit ns

    fits-sums : (zs : Balances) → all_fit (map sum zs) ≡ fits zs
    fits-sums [] = refl
    fits-sums (z ∷ zs) = ap (λ b. ltb (sum z) u256_bound && b) (fits-sums zs)

-- What `check_totals` asks, in sums: those of each asset agree, and none overflows.
ok-check_totals :
    (x : External) (old new : State)
    → IsLawful x
    → map sum new.outcome.balances ≡ map sum old.outcome.balances
    → fits new.outcome.balances ≡ true
    → check_totals x old new ≡ ok tt
unfolding check_totals
ok-check_totals x old new lawful same fit = rw (total_assets-sum x lawful new.outcome) (
    rw (total_assets-sum x lawful old.outcome) (
      rw fit (
        rw (fits-same new.outcome.balances old.outcome.balances same fit) (
          rw ((bytes_eq_iff (map sum new.outcome.balances) (map sum old.outcome.balances)).1 same)
            refl))))

-- The successor of a state, without the functions of the code: the same id and holders, the next
-- version, and sums of each asset's balances that agree and are below 2^256.
pub record IsConserving (old new : State) : Type 0 where
  pub same_id : new.id ≡ old.id
  pub not_final : old.is_final ≡ false
  pub next_version : new.version ≡ (old.version + 1) % u64_bound
  pub same_holders : map holder_of new.outcome.assets ≡ map holder_of old.outcome.assets
  pub same_sums : map sum new.outcome.balances ≡ map sum old.outcome.balances
  pub no_overflow : fits new.outcome.balances ≡ true

-- For lawful crates, a transition is accepted exactly when the new state has the channel's id, follows
-- a state that is not final by one version (modulo 2^64), and has the same holders of assets and the
-- same sum of the balances of each, where no sum reaches 2^256.
pub check_valid_transition_iff :
    (x : External) (ch : ActiveChannel) (new : State)
    → IsLawful x
    → (check_valid_transition x ch new ≡ ok tt) ↔ IsConserving ch.state new
check_valid_transition_iff x ch new lawful = (
  λ h.
      let valid = check_valid_transition-ok x ch new h in
      let (sums, fit) = totals-kept x ch.state new lawful valid in
      record {
        same_id = valid.same_id;
        not_final = valid.not_final;
        next_version = valid.next_version;
        same_holders =
            (assets_eq_iff new.outcome.assets ch.state.outcome.assets).0 valid.same_assets;
        same_sums = sums;
        no_overflow = fit;
      },
  λ next. ok-check_valid_transition x ch new (record {
    same_id = next.same_id;
    not_final = next.not_final;
    next_version = next.next_version;
    same_assets = (assets_eq_iff new.outcome.assets ch.state.outcome.assets).1 next.same_holders;
    same_totals = ok-check_totals x ch.state new lawful next.same_sums next.no_overflow;
  }),
)
