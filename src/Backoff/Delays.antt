-- ===== src/Backoff/Delays.antt =====
-- How long the delays can be (internal/backoff/backoff.go).
use secure_access_relay.Common.{ℕ, zero, suc, ◌≤◌, ◌<◌, Bool, true, false, List, [], ◌∷◌, ◌≡◌}
use secure_access_relay.Control.Policy.{Duration, nanoseconds, negative}
use secure_access_relay.Backoff.{Floats, Policy, Complete, Retry, fails, succeeds}

abbrev pub AtMost : ℕ → Duration → Type 0
AtMost m (negative n) = Unit {0}
AtMost m (nanoseconds n) = n ≤ m

abbrev pub int64_mod : ℕ
int64_mod = 9223372036854775808

-- A duration is an `int64`.
abbrev pub IsInt64 : Duration → Type 0
IsInt64 (negative n) = Unit {0}
IsInt64 (nanoseconds n) = n < int64_mod

-- What is relied on: 2 is above 1 and no NaN, which is the value that is not even at least itself; a
-- delay times a power of a factor above 1 is at least 0; and a number from 0 on that is below an
-- `int64`, as a float, is converted to that integer at most.
pub record IsFloats {F : Type 0} (floats : Floats F) : Type 0 where
  pub two_above : floats.at_least (floats.of_int 1) (floats.of_int 2) ≡ false
  pub two_number : floats.at_least (floats.of_int 2) (floats.of_int 2) ≡ true
  pub grows :
      (f : F) (i n : ℕ)
      → floats.at_least f f ≡ true
      → floats.at_least (floats.of_int 1) f ≡ false
      → 0 < i
      → floats.at_least
          (floats.times (floats.of_int i) (floats.pow f (floats.of_int n)))
          (floats.of_int 0)
        ≡ true
  pub converts :
      (g : F) (m : ℕ)
      → m < int64_mod
      → floats.at_least g (floats.of_int 0) ≡ true
      → floats.at_least g (floats.of_int m) ≡ false
      → AtMost m (floats.to_duration g)

-- The delay that is configured, if it is above 0, and the default otherwise.
abbrev pub Chosen : ℕ → Duration → ℕ → Type 0
Chosen d (negative n) x = x ≡ d
Chosen d (nanoseconds zero) x = x ≡ d
Chosen d (nanoseconds (suc n)) x = x ≡ suc n

-- Each delay is within the longest one. The first, and the first after a success, is within the
-- initial one too.
abbrev pub Paced : ℕ → ℕ → Bool → List Retry → List ℕ → Type 0
Paced longest first fresh [] [] = Unit {0}
Paced longest first fresh [] (d ∷ ds) = ⊥
Paced longest first fresh (succeeds ∷ attempts) ds = Paced longest first true attempts ds
Paced longest first fresh (fails ∷ attempts) [] = ⊥
Paced longest first fresh (fails ∷ attempts) (d ∷ ds) =
    (d ≤ longest) × (fresh ≡ true → d ≤ first) × Paced longest first false attempts ds

module _ {F : Type 0} (floats : Floats F) (laws : IsFloats floats) where
  -- The factor is a number above 1, and the initial delay is above 0 and not the longest.
  record IsSound (c : Complete F) : Type 0 where
    number : floats.at_least c.factor c.factor ≡ true
    above_one : floats.at_least (floats.of_int 1) c.factor ≡ false
    pos : 0 < c.initial
    le : c.initial ≤ c.max
    max_lt : c.max < int64_mod
