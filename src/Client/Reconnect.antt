-- ===== src/Client/Reconnect.antt =====
-- `ReconnectPolicy` and `ClientConfig` of crates/hirsel-client-core/src/config.rs, and the loop
-- `run` of crates/hirsel-client-core/src/transport.rs that uses them. Floating point is a parameter:
-- whether the jitter ratio is zero, whether it is a finite number from 0 to 1, and the product
-- `(base as f64) * factor`, rounded, as a whole number.
use native.Mathlib.Nat.{one-le-pow, pow-le-pow_right, mul-le-mul_left}
use hirsel.Base.{
  ℕ, suc, zero, ◌*◌, ◌^◌, ◌-◌, ◌≤◌, min, max, ◌≡◌, true, not, Bool, Option, none, some, arith,
  if◌then◌else◌, ◌==◌, ltb,
}

pub record ReconnectPolicy : Type 0 where
  pub initial_delay_ms : ℕ
  pub max_delay_ms : ℕ
  -- of the jitter ratio
  pub is_zero_jitter : Bool
  pub is_valid_jitter : Bool

pub data ConfigError : Type 0 where
  empty_host empty_iroh_ticket missing_iroh_secret_key invalid_iroh_secret_key : ConfigError
  zero_initial_delay invalid_maximum_delay invalid_jitter_ratio : ConfigError

-- ReconnectPolicy::validate; `none` is Ok(())
unfoldable pub validate_reconnect : ReconnectPolicy → Option ConfigError
validate_reconnect p =
    if p.initial_delay_ms == 0
    then some zero_initial_delay
    else if ltb p.max_delay_ms p.initial_delay_ms
    then some invalid_maximum_delay
    else if not p.is_valid_jitter
    then some invalid_jitter_ratio
    else none

-- u64::saturating_mul
abbrev pub saturating_mul : ℕ → ℕ → ℕ
saturating_mul a b = min (a * b) (2 ^ 64 - 1)

-- u64::saturating_pow
abbrev pub saturating_pow : ℕ → ℕ → ℕ
saturating_pow a n = min (a ^ n) (2 ^ 64 - 1)

-- `base` of delay_ms
unfoldable pub base_delay : ReconnectPolicy → ℕ → ℕ
base_delay p attempt =
    min (saturating_mul p.initial_delay_ms (saturating_pow 2 (min attempt 63))) p.max_delay_ms

-- `rounded base` is `((base as f64) * factor).round()`; the cast to u64 saturates.
unfoldable pub delay_ms : (ℕ → ℕ) → ReconnectPolicy → ℕ → ℕ
unfolding base_delay
delay_ms rounded p attempt =
    let base = base_delay p attempt in
    if p.is_zero_jitter then base else min (min (max (rounded base) 1) (2 ^ 64 - 1)) p.max_delay_ms

pow_positive : (n : ℕ) → 1 ≤ 2 ^ n
pow_positive n = one-le-pow n 2 (omega arith)

validated :
    (p : ReconnectPolicy)
    → validate_reconnect p ≡ none
    → (1 ≤ p.initial_delay_ms) × (p.initial_delay_ms ≤ p.max_delay_ms)
unfolding validate_reconnect
validated p h = (ground arith, ground arith)

product_positive : (a b : ℕ) → 1 ≤ a → 1 ≤ b → 1 ≤ a * b
product_positive zero b l k = omega arith
product_positive (suc a) b l k = omega arith

base_delay-bounds :
    (p : ReconnectPolicy) (attempt : ℕ)
    → 1 ≤ p.initial_delay_ms
    → p.initial_delay_ms ≤ p.max_delay_ms
    → (1 ≤ base_delay p attempt) × (base_delay p attempt ≤ p.max_delay_ms)
unfolding base_delay
base_delay-bounds p attempt l k =
    let power = saturating_pow 2 (min attempt 63) in
    let up = pow_positive (min attempt 63) in
    let positive = product_positive p.initial_delay_ms power l (omega arith) in
    (omega arith, omega arith)

base_delay-grows : (p : ReconnectPolicy) (a b : ℕ) → a ≤ b → base_delay p a ≤ base_delay p b
unfolding base_delay
base_delay-grows p a b l =
    let more = pow-le-pow_right {n = 2} (omega arith) {i = min a 63} {j = min b 63} (omega arith) in
    let q =
      mul-le-mul_left {m = saturating_pow 2 (min a 63)} {n = saturating_pow 2 (min b 63)}
        p.initial_delay_ms (omega arith) in
    omega arith

-- A policy that passes its validation waits at least a millisecond and at most its maximum before
-- every attempt, whatever the jitter.
pub delay_ms-bounds :
    (rounded : ℕ → ℕ) (p : ReconnectPolicy) (attempt : ℕ)
    → validate_reconnect p ≡ none
    → (1 ≤ delay_ms rounded p attempt) × (delay_ms rounded p attempt ≤ p.max_delay_ms)
delay_ms-bounds rounded p attempt h =
    let (pos, fits) = validated p h in
    let (low, high) = base_delay-bounds p attempt pos fits in unfold delay_ms in ground arith

-- Without jitter each further attempt waits at least as long as the one before.
delay_ms-grows :
    (rounded : ℕ → ℕ) (p : ReconnectPolicy) (attempt attempt' : ℕ)
    → p.is_zero_jitter ≡ true
    → attempt ≤ attempt'
    → delay_ms rounded p attempt ≤ delay_ms rounded p attempt'
unfolding delay_ms
delay_ms-grows rounded p a b z l = rw z (base_delay-grows p a b l)
