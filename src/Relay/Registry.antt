-- ===== src/Relay/Registry.antt =====
-- internal/relay/sessions: the agents' sessions by device.
pub mod Successors
use secure_access_relay.Common.{
  ℕ, ◌==◌, Bool, true, false, if◌then◌else◌, Bytes, length, List, [], ◌∷◌, Option, none, some,
}
use secure_access_relay.Common.Named.{Named, find, put, erase}
use secure_access_relay.Proto.Reason.{Reason}

-- A session is the number of its object, as `Remove` compares pointers.
pub record Registry : Type 0 where
  pub agents : Named ℕ

unfoldable pub new_registry : Registry
new_registry = record { agents = [] }

-- With the session that was replaced.
unfoldable pub add : Bytes → ℕ → Registry → Registry × Option ℕ
add device_id s r = (record { agents = put device_id s r.agents }, find device_id r.agents)

abbrev pub removed : Bytes → ℕ → Option ℕ → Registry → Registry
removed device_id s none r = r
removed device_id s (some cur) r =
    if cur == s then record { agents = erase device_id r.agents } else r

unfoldable pub remove : Bytes → ℕ → Registry → Registry
remove device_id s r = removed device_id s (find device_id r.agents) r

-- Which sessions have ended is for `internal/mux` to say.
abbrev pub live_one : (ℕ → Bool) → Bytes → Option ℕ → Registry → Registry × Option ℕ
live_one done device_id none r = (r, none)
live_one done device_id (some s) r =
    if done s then (record { agents = erase device_id r.agents }, none) else (r, some s)

-- `none` is `ErrNoAgent`.
unfoldable pub get : (ℕ → Bool) → Bytes → Registry → Registry × Option ℕ
get done device_id r = live_one done device_id (find device_id r.agents) r

abbrev pub sessions : Named ℕ → List ℕ
sessions [] = []
sessions ((d, s) ∷ t) = s ∷ sessions t

abbrev pub closes : Reason → List ℕ → List (ℕ × Reason)
closes reason [] = []
closes reason (s ∷ ss) = (s, reason) ∷ closes reason ss

-- With the calls of `Close`, in order.
unfoldable pub close_all : Reason → Registry → Registry × List (ℕ × Reason)
close_all reason r = (record { agents = [] }, closes reason (sessions r.agents))
