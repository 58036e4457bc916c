-- ===== src/Effects/Inversion.antt =====
-- What follows from the result of a method: the steps that led to it.
use fork_perun_rs.Base.{
  Bool, true, false, if◌then◌else◌, List, [], ◌++◌, Outcome, ok, err, panic, ◌≡◌, ◌≢◌, refl, ap,
  sym, arith,
}
use fork_perun_rs.Effects.{Act, ◌>>=◌, resume, lift, get, send_all, fail}

module _ {M S E : Type 0} {B : Type 0} {s t : S} {a : B} {sent : List M} where
  pub lift-ok :
      {A : Type 0} (r : Outcome E A) (f : A → Act M S E B)
      → resume (s, r, []) f ≡ (t, ok a, sent)
      → (v : A) × (r ≡ ok v) × (f v s ≡ (t, ok a, sent))
  unfolding resume
  lift-ok (ok v) f h = (v, refl, h)
  lift-ok (err e) f h = absurd (ground arith)
  lift-ok panic f h = absurd (ground arith)

  pub pure-ok :
      {A : Type 0} (v : A) (f : A → Act M S E B)
      → resume (s, ok v, []) f ≡ (t, ok a, sent)
      → f v s ≡ (t, ok a, sent)
  unfolding resume
  pure-ok v f h = h

  pub send_all-ok :
      (r : Outcome E (List M)) (f : Unit {0} → Act M S E B)
      → resume (send_all r s) f ≡ (t, ok a, sent)
      → (ms : List M) × (more : List M) × (r ≡ ok ms)
        × (f tt s ≡ (t, ok a, more))
        × (sent ≡ ms ++ more)
  unfolding resume
  send_all-ok (ok ms) f h =
      (ms, (f tt s).2, refl, ap (λ r. (r.0, r.1, (f tt s).2)) h, ap (λ r. r.2) (sym h))
  send_all-ok (err e) f h = absurd (ground arith)
  send_all-ok panic f h = absurd (ground arith)

  pub lift_end-ok :
      (r : Outcome E B) → lift r s ≡ (t, ok a, sent) → (r ≡ ok a) × (t ≡ s) × (sent ≡ [])
  lift_end-ok r h = (ap (λ r. r.1) h, ap (λ r. r.0) (sym h), ap (λ r. r.2) (sym h))

  pub guarded-ok :
      (b : Bool) (e : E) (m : Act M S E B)
      → (if b then fail e else m) s ≡ (t, ok a, sent)
      → (b ≡ false) × (m s ≡ (t, ok a, sent))
  guarded-ok true e m h = absurd (ground arith)
  guarded-ok false e m h = (refl, h)

pub panic≢ok :
    {M S E A B : Type 0} (s : S) (f : A → Act M S E B) {t : S} {b : B} {sent : List M}
    → resume (s, panic, []) f ≢ (t, ok b, sent)
unfolding resume
panic≢ok s f h = ground arith

pub send_all_end-ok :
    {M S E : Type 0} (s : S) (r : Outcome E (List M)) {t : S} {u : Unit {0}} {sent : List M}
    → send_all r s ≡ (t, ok u, sent)
    → (r ≡ ok sent) × (t ≡ s)
send_all_end-ok s (ok ms) h = (ap ok (ap (λ r. r.2) h), ap (λ r. r.0) (sym h))
send_all_end-ok s (err e) h = absurd (ground arith)
send_all_end-ok s panic h = absurd (ground arith)

-- A method that changes and sends nothing unless it succeeds.
unfoldable pub IsQuiet : {M S E B : Type 0} → Act M S E B → Type 0
IsQuiet {S = S} {B = B} m = (s : S) → ((b : B) → (m s).1 ≢ ok b) → ((m s).0 ≡ s) × ((m s).2 ≡ [])

module _ {M S E B : Type 0} where
  pub lift-IsQuiet :
      {A : Type 0} (r : Outcome E A) (f : A → Act M S E B)
      → ((a : A) → IsQuiet (f a))
      → IsQuiet (lift r >>= f)
  unfolding resume IsQuiet
  lift-IsQuiet (ok a) f h = h a
  lift-IsQuiet (err e) f h = λ _ _. (refl, refl)
  lift-IsQuiet panic f h = λ _ _. (refl, refl)

  pub get-IsQuiet : (f : S → Act M S E B) → ((s : S) → IsQuiet (f s)) → IsQuiet (get >>= f)
  unfolding resume IsQuiet
  get-IsQuiet f h s = h s s
