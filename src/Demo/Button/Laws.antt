-- ===== src/Demo/Button/Laws.antt =====
-- The changes that the button of cortex-m-demo/src/button.rs sees, over any number of calls.
use fork_perun_rs.Base.{
  ℕ, ◌+◌, ◌%◌, ◌<◌, ◌≤◌, ◌≡◌, refl, arith, true, false, ltb, List, [], ◌∷◌, Bool-cases, inl, inr,
  ltb→lt, if◌then◌else◌, Bool,
}
use fork_perun_rs.Demo.Button.{
  Level, high, low, DebouncedButton, level_eq, debounced_state, get_state, is_falling_edge,
}
use fork_perun_rs.Payment.{u64_bound}

-- The button after calls at these times, with these levels of the pin.
unfoldable pub after_calls : List (Level × ℕ) → DebouncedButton → DebouncedButton
after_calls [] b = b
after_calls ((state, time) ∷ calls) b = after_calls calls (debounced_state state time b)

-- The times of the calls that changed the state.
unfoldable pub change_times : List (Level × ℕ) → DebouncedButton → List ℕ
change_times [] b = []
change_times ((state, time) ∷ calls) b =
    let after = debounced_state state time b in
    let rest = change_times calls after in
    if level_eq after.last_state b.last_state then rest else time ∷ rest

-- No call is before the one before it.
unfoldable pub IsAscending : ℕ → List (Level × ℕ) → Type 0
IsAscending now [] = Unit
IsAscending now ((_, time) ∷ calls) = (now ≤ time) × IsAscending time calls

-- Each time is more than the gap after the one before it.
unfoldable pub IsApart : ℕ → ℕ → List ℕ → Type 0
IsApart gap from [] = Unit
IsApart gap from (time ∷ times) = (from + gap < time) × IsApart gap time times

-- The pin keeps a level, and no call is more than the gap after the one before it.
unfoldable pub IsSteady : ℕ → Level → ℕ → List (Level × ℕ) → Type 0
IsSteady gap level now [] = Unit
IsSteady gap level now ((state, time) ∷ calls) =
    (state ≡ level) × (time ≤ now + gap) × IsSteady gap level time calls

-- The sum of the time of each call and the gap does not wrap.
unfoldable pub IsEarly : ℕ → List (Level × ℕ) → Type 0
IsEarly gap [] = Unit
IsEarly gap ((_, time) ∷ calls) = (time + gap < u64_bound) × IsEarly gap calls

unwrapped : (now gap : ℕ) → now + gap < u64_bound → (now + gap) % u64_bound ≡ now + gap
unwrapped now gap h = omega (arith, h)

level_eq_refl : (l : Level) → level_eq l l ≡ true
unfolding level_eq
level_eq_refl high = refl
level_eq_refl low = refl

change_times-later :
    (calls : List (Level × ℕ)) (b : DebouncedButton) (from now : ℕ)
    → from ≤ b.last_time
    → b.last_time ≤ now
    → IsAscending now calls
    → b.last_time + b.debounce_threshhold < u64_bound
    → IsEarly b.debounce_threshhold calls
    → IsApart b.debounce_threshhold from (change_times calls b)
unfolding change_times IsAscending IsApart debounced_state IsEarly
change_times-later [] b from now h1 h2 asc fits early = tt
change_times-later ((state, time) ∷ calls) b from now h1 h2 (h3, asc) fits (soon_enough, early) =
    let gap = b.debounce_threshhold in
    let exact = unwrapped b.last_time gap fits in
    elim (Bool-cases (level_eq state b.last_state)) [
      | inl same ↦ rw same (
          rw (level_eq_refl b.last_state)
            (change_times-later calls b from time h1 (omega (arith, h2, h3)) asc fits early))
      | inr other ↦ rw other (
          rw exact (elim (Bool-cases (ltb (b.last_time + gap) time)) [
            | inl late ↦ rw late (
                rw other (
                  omega (arith, ltb→lt (b.last_time + gap) time late, h1),
                  change_times-later calls (record b { last_state = state; last_time = time }) time
                      time (omega arith) (omega arith) asc soon_enough early,
                ))
            | inr soon ↦ rw soon (
                rw (level_eq_refl b.last_state) (
                  change_times-later calls (record b { last_time = time }) from time
                    (omega (arith, h1, h2, h3)) (omega arith) asc soon_enough early))
          ]))
    ]

-- At times that do not go back, and whose sums with the threshold do not wrap at 2^64, the state of a
-- button first changes more than the threshold after its last time, and then each time more than the
-- threshold after the change before.
pub change_times-IsApart :
    (calls : List (Level × ℕ)) (b : DebouncedButton)
    → IsAscending b.last_time calls
    → b.last_time + b.debounce_threshhold < u64_bound
    → IsEarly b.debounce_threshhold calls
    → IsApart b.debounce_threshhold b.last_time (change_times calls b)
change_times-IsApart calls b asc fits early =
    change_times-later calls b b.last_time b.last_time (omega arith) (omega arith) asc fits early

-- The pin is low in a call that gives a falling edge.
pub is_falling_edge-low :
    (is_high : Bool) (time : ℕ) (b : DebouncedButton)
    → (is_falling_edge is_high time b).1 ≡ true
    → is_high ≡ false
unfolding is_falling_edge debounced_state level_eq get_state
is_falling_edge-low false time b h = refl
is_falling_edge-low true time b h = absurd (unseen b.last_state refl)
  where
    unseen : (l : Level) → b.last_state ≡ l → ⊥
    unseen high e = absurd (ground (arith, h, e))
    unseen low e = absurd (ground (arith, h, e))
