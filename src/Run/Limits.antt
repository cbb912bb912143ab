-- ===== src/Run/Limits.antt =====
-- `RuntimeLimits` of src/run.rs, and its builders. A `Duration` is a number of milliseconds.
use typemach.Base.{ℕ, Option, none, some, Bool, true, false}

pub record RuntimeLimits : Type 0 where
  pub max_steps : ℕ
  pub allow_clarification : Bool
  pub step_timeout : Option ℕ
  pub run_timeout : Option ℕ

-- `RuntimeLimits::new` and its builders.
abbrev pub new : ℕ → RuntimeLimits
new max_steps = record {
  max_steps = max_steps;
  allow_clarification = true;
  step_timeout = none;
  run_timeout = none;
}

abbrev pub no_clarify : RuntimeLimits → RuntimeLimits
no_clarify limits = record limits { allow_clarification = false }

abbrev pub with_step_timeout : ℕ → RuntimeLimits → RuntimeLimits
with_step_timeout timeout limits = record limits { step_timeout = some timeout }

abbrev pub with_run_timeout : ℕ → RuntimeLimits → RuntimeLimits
with_run_timeout timeout limits = record limits { run_timeout = some timeout }
