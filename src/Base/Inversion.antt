-- ===== src/Base/Inversion.antt =====
-- What follows from a result: the steps that led to it.
use mathlib.Core.Path.{◌≡◌, refl}
use mathlib.Core.Logic.{◌≢◌, ◌⊎◌, inl, inr}
use mathlib.Core.Bool.{Bool, true, false, not}
use mathlib.Core.Option.{Option, none, some}
use fork_perun_rs.Base.Results.{Outcome, ok, err, panic, ◌>>=◌, map_err, ok_or, unwrap, guard}
use fork_perun_rs.Base.Tests.{if◌then◌else◌}
use native.Mathlib.Omega.{arith}

module _ {ℓ κ} {E : Type ℓ} {A : Type κ} where
  pub ok-injective : (a b : A) → ◌≡◌ {A = Outcome E A} (ok a) (ok b) → a ≡ b
  ok-injective a b h = ground arith

  pub ok≢panic : (a : A) → ◌≢◌ {A = Outcome E A} (ok a) panic
  ok≢panic a h = ground arith

  pub err≢ok : (e : E) (a : A) → ◌≢◌ {A = Outcome E A} (err e) (ok a)
  err≢ok e a h = ground arith

  -- A guard that returns early with an error.
  pub guarded-ok :
      (b : Bool) (e : E) (r : Outcome E A) {a : A}
      → (if b then err e else r) ≡ ok a
      → (b ≡ false) × (r ≡ ok a)
  guarded-ok true e r h = absurd (ground arith)
  guarded-ok false e r h = (refl, h)

  -- A computation that panics unless a test holds.
  pub fitting-ok :
      (b : Bool) (v : A) {a : A}
      → ◌≡◌ {A = Outcome E A} (if b then ok v else panic) (ok a)
      → (b ≡ true) × (v ≡ a)
  fitting-ok true v h = (refl, ground arith)
  fitting-ok false v h = absurd (ground arith)

  pub bind-ok {μ} :
      {B : Type μ} (m : Outcome E A) (f : A → Outcome E B) {b : B}
      → m >>= f ≡ ok b
      → (a : A) × (m ≡ ok a) × (f a ≡ ok b)
  bind-ok (ok a) f h = (a, refl, h)
  bind-ok (err e) f h = absurd (ground arith)
  bind-ok panic f h = absurd (ground arith)

  pub map_err-ok {μ} :
      {F : Type μ} (f : E → F) (m : Outcome E A) {a : A} → map_err f m ≡ ok a → m ≡ ok a
  map_err-ok f (ok b) h = ground arith
  map_err-ok f (err e) h = absurd (ground arith)
  map_err-ok f panic h = absurd (ground arith)

  pub unwrap-ok : (o : Option A) {a : A} → unwrap {E = E} o ≡ ok a → o ≡ some a
  unwrap-ok none h = absurd (ground arith)
  unwrap-ok (some b) h = ground arith

  pub ok_or-ok : (o : Option A) (e : E) {a : A} → ok_or o e ≡ ok a → o ≡ some a
  ok_or-ok none e h = absurd (ground arith)
  ok_or-ok (some b) e h = ground arith

pub guard-ok {ℓ} : {E : Type ℓ} (b : Bool) (e : E) → guard b e ≡ ok tt → b ≡ true
guard-ok true e h = refl
guard-ok false e h = absurd (ground arith)

pub not-false : (b : Bool) → not b ≡ false → b ≡ true
not-false true h = refl
not-false false h = absurd (ground arith)

pub Outcome-cases {ℓ κ} :
    {E : Type ℓ} {A : Type κ} (r : Outcome E A)
    → ((a : A) × (r ≡ ok a)) ⊎ (((e : E) × (r ≡ err e)) ⊎ (r ≡ panic))
Outcome-cases (ok a) = inl (a, refl)
Outcome-cases (err e) = inr (inl (e, refl))
Outcome-cases panic = inr (inr refl)
