-- ===== src/Utils/Retrying.antt =====
-- src/utils.rs: `RetryConfig`. The f64 arithmetic and the random number are parameters.
use xprotocol.Prelude.{ℕ, ◌%◌, Bool, true, u32_mod, if◌then◌else◌}

-- Durations are in milliseconds: `secs` is `as_secs_f64` and `duration` is `from_secs_f64`. `powi`
-- takes the 32 bits of its exponent.
pub record Float : Type 1 where
  pub F64 : Type 0
  pub two : F64
  pub half : F64
  pub secs : ℕ → F64
  pub duration : F64 → ℕ
  pub powi : F64 → ℕ → F64
  pub add : F64 → F64 → F64
  pub mul : F64 → F64 → F64
  pub min : F64 → F64 → F64

pub record RetryConfig (f : Float) : Type 0 where
  pub max_retries : ℕ
  pub initial_delay : ℕ
  pub max_delay : ℕ
  pub backoff_multiplier : f.F64
  pub jitter : Bool

module _ (f : Float) where
  abbrev pub default_retry : RetryConfig f
  default_retry = record {
    max_retries = 3;
    initial_delay = 100;
    max_delay = 30000;
    backoff_multiplier = f.two;
    jitter = true;
  }

  -- `random` is `rand::random::<f64>()`
  unfoldable pub calculate_delay : f.F64 → ℕ → RetryConfig f → ℕ
  calculate_delay random attempt c =
      let delay =
        f.min (f.mul (f.secs c.initial_delay) (f.powi c.backoff_multiplier (attempt % u32_mod)))
          (f.secs c.max_delay) in
      f.duration (if c.jitter then f.mul delay (f.add (f.mul random f.half) f.half) else delay)
