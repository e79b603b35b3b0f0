-- ===== src/Backoff.antt =====
-- internal/backoff/backoff.go: how long to wait before the next attempt.
pub mod Delays
use secure_access_relay.Common.{
  ℕ, ◌+◌, ◌*◌, ◌<◌, ltb, ◌==◌, ◌||◌, Bool, true, false, if◌then◌else◌, List, [], ◌∷◌,
}
use secure_access_relay.Control.Policy.{Duration, nanoseconds, negative}

-- float64 and package math: the conversion of an int64 that is not negative, the product, `math.Pow`,
-- the comparison >=, `math.IsInf` for the positive infinity, and the conversion to a duration.
pub record Floats (F : Type 0) : Type 0 where
  pub of_int : ℕ → F
  pub times : F → F → F
  pub pow : F → F → F
  pub at_least : F → F → Bool
  pub is_infinite : F → Bool
  pub to_duration : F → Duration

-- math/rand: a number below the one given, if that is above 0.
pub record Random : Type 0 where
  pub below : ℕ → ℕ
  pub below_lt : (n : ℕ) → 0 < n → below n < n

abbrev pub millisecond : ℕ
millisecond = 1_000_000

abbrev pub default_initial : ℕ
default_initial = 500 * millisecond

abbrev pub default_max : ℕ
default_max = 30_000 * millisecond

-- A `Policy` as it is given, and with its defaults, which are above 0.
pub record Policy (F : Type 0) : Type 0 where
  pub initial : Duration
  pub max : Duration
  pub factor : F

pub record Complete (F : Type 0) : Type 0 where
  pub initial : ℕ
  pub max : ℕ
  pub factor : F

pub record Pace (F : Type 0) : Type 0 where
  pub policy : Complete F
  pub attempt : ℕ

abbrev pub or_default : ℕ → Duration → ℕ
or_default d (negative n) = d
or_default d (nanoseconds n) = if n == 0 then d else n

abbrev pub delay_below : Random → Duration → ℕ
delay_below random (negative n) = 0
delay_below random (nanoseconds n) = if n == 0 then 0 else random.below (n + 1)

-- `Reset`.
unfoldable pub reset : {F : Type 0} → Pace F → Pace F
reset s = record s { attempt = 0 }

-- What happens between two calls: an attempt fails and is delayed, or one succeeds.
pub data Retry : Type 0 where
  fails succeeds : Retry

module _ {F : Type 0} (floats : Floats F) where
  -- `DefaultFactor`, if the factor is 1 or less.
  abbrev pub factor_or_default : F → F
  factor_or_default f = if floats.at_least (floats.of_int 1) f then floats.of_int 2 else f

  -- `withDefaults`.
  unfoldable pub with_defaults : Policy F → Complete F
  with_defaults p =
      let i = or_default default_initial p.initial in
      let m = or_default default_max p.max in
      record { initial = if ltb m i then m else i; max = m; factor = factor_or_default p.factor }

  -- `New`.
  unfoldable pub new_pace : Policy F → Pace F
  unfolding with_defaults
  new_pace p = record { policy = with_defaults p; attempt = 0 }

  abbrev pub grown : Pace F → F
  grown s =
      floats.times (floats.of_int s.policy.initial)
        (floats.pow s.policy.factor (floats.of_int s.attempt))

  unfoldable pub ceiling : Pace F → Duration
  ceiling s =
      if s.attempt == 0
      then nanoseconds s.policy.initial
      else if floats.at_least (grown s) (floats.of_int s.policy.max) || floats.is_infinite (grown s)
      then nanoseconds s.policy.max
      else floats.to_duration (grown s)

  -- `Next`.
  unfoldable pub next : Random → Pace F → Pace F × ℕ
  unfolding ceiling
  next random s = (record s { attempt = s.attempt + 1 }, delay_below random (ceiling s))

  -- The delays of a sequence of attempts, each of which is followed by `Next` or by `Reset`.
  unfoldable pub delays : Random → List Retry → Pace F → List ℕ
  unfolding next reset
  delays random [] s = []
  delays random (succeeds ∷ attempts) s = delays random attempts (reset s)
  delays random (fails ∷ attempts) s = (next random s).1 ∷ delays random attempts (next random s).0
