-- ===== src/Demo/Button.antt =====
-- cortex-m-demo/src/button.rs: a button without its bounces. The level of the pin and the time are
-- those of the call.
pub mod Laws
use fork_perun_rs.Base.{ℕ, ◌+◌, ◌%◌, Bool, true, false, not, ◌&&◌, ltb, if◌then◌else◌}
use fork_perun_rs.Payment.{u64_bound}

pub data Level : Type 0 where
  high low : Level

pub record DebouncedButton : Type 0 where
  pub debounce_threshhold : ℕ
  pub last_time : ℕ
  pub last_state : Level

-- `get_state`
unfoldable pub get_state : Bool → Level
get_state is_high = if is_high then high else low

unfoldable pub level_eq : Level → Level → Bool
level_eq high high = true
level_eq low low = true
level_eq _ _ = false

unfoldable pub new : Bool → ℕ → DebouncedButton
unfolding get_state
new is_high debounce_threshhold = record {
  debounce_threshhold = debounce_threshhold;
  last_time = 0;
  last_state = get_state is_high;
}

-- What `debounced_state` returns is the state that the button has after it. The sum of two `u64` wraps
-- in a release build.
unfoldable pub debounced_state : Level → ℕ → DebouncedButton → DebouncedButton
unfolding level_eq
debounced_state state time b =
    if level_eq state b.last_state
    then b
    else if ltb ((b.last_time + b.debounce_threshhold) % u64_bound) time
    then record b { last_state = state; last_time = time }
    else record b { last_time = time }

unfoldable pub is_rising_edge : Bool → ℕ → DebouncedButton → DebouncedButton × Bool
unfolding debounced_state get_state
is_rising_edge is_high time b =
    let after = debounced_state (get_state is_high) time b in
    (after, level_eq b.last_state low && level_eq after.last_state high)

unfoldable pub is_falling_edge : Bool → ℕ → DebouncedButton → DebouncedButton × Bool
unfolding debounced_state get_state
is_falling_edge is_high time b =
    let after = debounced_state (get_state is_high) time b in
    (after, level_eq b.last_state high && level_eq after.last_state low)
