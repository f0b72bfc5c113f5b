-- ===== src/Client/Backoff.antt =====
-- src/client.rs: `Backoff`, the delay between two attempts to connect. A duration is a number of
-- nanoseconds. The floating-point operations are the parameter `Floats`; `none` is a panic of a
-- conversion to a duration, which a backoff of `Duration::MAX` meets.
use vcmp_rs.Base.{
  ℕ, ◌*◌, ◌%◌, ◌^◌, Bool, true, false, not, ◌&&◌, min, max, ◌==◌, if◌then◌else◌, Option, none, some,
}

-- `f64`, as far as the backoff uses it.
pub record Floats (F : Type 0) : Type 0 where
  pub of_nat : ℕ → F
  pub half : F
  -- `n as f64 / 1_000_000.0`.
  pub millionths : ℕ → F
  pub add : F → F → F
  pub mul : F → F → F
  pub halve : F → F
  pub powi : F → ℕ → F
  pub max_of : F → F → F
  pub min_of : F → F → F
  -- `Duration::as_secs_f64`, and `Duration::from_secs_f64` and `Duration::mul_f64`, which panic
  -- where the number is no duration.
  pub as_secs : ℕ → F
  pub from_secs : F → Option ℕ
  pub scale : ℕ → F → Option ℕ

pub record Backoff (F : Type 0) : Type 0 where
  pub initial : ℕ
  pub max_delay : ℕ
  pub multiplier : F
  pub jitter : Bool

abbrev pub second : ℕ
second = 10 ^ 9

module _ {F : Type 0} (f : Floats F) where
  -- `Backoff::exponential`.
  unfoldable pub exponential : ℕ → ℕ → Backoff F
  exponential initial most = record {
    initial = initial;
    max_delay = max most initial;
    multiplier = f.of_nat 2;
    jitter = true;
  }

  -- `Backoff::fixed`.
  unfoldable pub fixed : ℕ → Backoff F
  fixed delay = record {
    initial = delay;
    max_delay = delay;
    multiplier = f.of_nat 1;
    jitter = false;
  }

  -- `Backoff::default`.
  unfoldable pub default_backoff : Backoff F
  unfolding exponential
  default_backoff = exponential second (30 * second)

  -- `Backoff::without_jitter`.
  unfoldable pub without_jitter : Backoff F → Backoff F
  without_jitter b = record b { jitter = false }

  -- `delay` before its jitter.
  unfoldable pub base_delay : Backoff F → ℕ → Option ℕ
  base_delay b attempt =
      let factor = f.powi (f.max_of b.multiplier (f.of_nat 1)) (min attempt 64) in
      f.from_secs (f.min_of (f.mul (f.as_secs b.initial) factor) (f.as_secs b.max_delay))

  -- The jitter of a delay, with the number that the generator gave, or 0 if it failed.
  unfoldable pub jittered : Bool → ℕ → ℕ → Option ℕ
  jittered jitter random d =
      if jitter && not (d == 0)
      then f.scale d (f.add f.half (f.halve (f.millionths (random % 1000000))))
      else some d

  -- `Backoff::delay`.
  unfoldable pub delay : Backoff F → ℕ → ℕ → Option ℕ
  unfolding base_delay jittered
  delay b random attempt = elim (base_delay b attempt) [
    | none ↦ none
    | some d ↦ jittered b.jitter random d
  ]
