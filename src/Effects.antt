-- ===== src/Effects.antt =====
-- Methods with effects: `&mut self` is a state, the calls of the message bus are a list of what
-- was sent, and the result may be a panic. What was written or sent before an error stays.
pub mod Inversion
use fork_perun_rs.Base.{List, [], ◌++◌, Outcome, ok, err, panic}
use fork_perun_rs.Base.Results

-- A method on a state S that sends messages M.
abbrev pub Act : Type 0 → Type 0 → Type 0 → Type 0 → Type 0
Act M S E A = S → S × Outcome E A × List M

module _ {M S E : Type 0} where
  abbrev pub pure : {A : Type 0} → A → Act M S E A
  pure a s = (s, ok a, [])

  abbrev pub fail : {A : Type 0} → E → Act M S E A
  fail e s = (s, err e, [])

  -- A computation with no effect but its result.
  abbrev pub lift : {A : Type 0} → Outcome E A → Act M S E A
  lift r s = (s, r, [])

  abbrev pub send_all : Outcome E (List M) → Act M S E (Unit {0})
  send_all (ok ms) s = (s, ok tt, ms)
  send_all (err e) s = (s, err e, [])
  send_all panic s = (s, panic, [])

  abbrev pub get : Act M S E S
  get s = (s, ok s, [])

  abbrev pub put : S → Act M S E (Unit {0})
  put t s = (t, ok tt, [])

-- The rest of a method, after its first part.
unfoldable pub resume :
    {M S E A B : Type 0} → S × Outcome E A × List M → (A → Act M S E B) → S × Outcome E B × List M
resume (t, ok a, sent) f = ((f a t).0, (f a t).1, sent ++ (f a t).2)
resume (t, err e, sent) f = (t, err e, sent)
resume (t, panic, sent) f = (t, panic, sent)

infixl 5 ◌>>=◌ ◌>>◌
abbrev pub ◌>>=◌ : {M S E A B : Type 0} → Act M S E A → (A → Act M S E B) → Act M S E B
◌>>=◌ m f s = resume (m s) f

abbrev pub ◌>>◌ : {M S E B : Type 0} → Act M S E (Unit {0}) → Act M S E B → Act M S E B
m >> k = m >>= λ _. k

-- `?` with a conversion of the error.
abbrev pub convert : {M S E F A : Type 0} → (E → F) → Act M S E A → Act M S F A
convert f m s = let (t, r, sent) = m s in (t, Results.map_err f r, sent)
