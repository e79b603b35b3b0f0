-- ===== src/Bridge/Teardown.antt =====
-- What the end of a direction does to the two connections (internal/bridge/bridge.go).
use mathlib.Core.List.Memᴰ
use mathlib.Core.List.Memᴰ.{Memᴰ}
use secure_access_relay.Common.{ℕ, List, Option, none, some, ◌≡◌}
use secure_access_relay.Proto.Reason.{Reason}
use secure_access_relay.Bridge.{
  End, Phase, done, Side, side_a, side_b, Call, Kinds, reset, half_close, abort_reason, Join,
}

module _ (k : Kinds) (max_bytes : ℕ) where
  -- The calls that an end asks for: one direction closed, or both connections reset with a reason.
  abbrev pub Tells : Side → Option Reason → List Call → Type 0
  Tells dst none calls = Memᴰ (half_close k dst) calls
  Tells dst (some r) calls = Memᴰ (reset k side_a r) calls × Memᴰ (reset k side_b r) calls

  abbrev pub Told : Side → Phase → List Call → Type 0
  Told dst p calls = (e : End) → p ≡ done e → Tells dst (abort_reason e) calls

  pub record IsTold (j : Join) : Type 0 where
    pub a_to_b : Told side_b j.a_to_b.phase j.calls
    pub b_to_a : Told side_a j.b_to_a.phase j.calls
