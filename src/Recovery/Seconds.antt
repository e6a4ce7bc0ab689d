-- ===== src/Recovery/Seconds.antt =====
-- Python's `float`, as recovery_state_machine.py uses it for times: a parameter, with the one law
-- of its comparison that the theorems need.
use ai_devops.Common.{ℕ, Bool, false, ◌≡◌, ltb, ◌-◌, ◌+◌, ◌*◌, ◌^◌, not, ◌==◌, arith}

pub record Seconds : Type 1 where
  pub F : Type 0
  pub minus : F → F → F
  pub plus : F → F → F
  pub times : F → F → F
  -- a ** n
  pub power : F → ℕ → F
  pub lt : F → F → Bool
  -- bool(a): not zero
  pub truthy : F → Bool
  -- int(a * 1000)
  pub millis : F → ℕ
  pub lt_irrefl : (a : F) → lt a a ≡ false

-- Whole seconds are an instance.
pub ltb_irrefl : (a : ℕ) → ltb a a ≡ false
ltb_irrefl a = ground arith

abbrev pub whole_seconds : Seconds
whole_seconds = record {
  F = ℕ;
  minus = λ a b. a - b;
  plus = λ a b. a + b;
  times = λ a b. a * b;
  power = λ a n. a ^ n;
  lt = ltb;
  truthy = λ a. not (a == 0);
  millis = λ a. a * 1000;
  lt_irrefl = ltb_irrefl;
}
