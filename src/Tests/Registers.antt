-- ===== src/Tests/Registers.antt =====
-- Revocations and reconnects (internal/relay).
use secure_access_relay.Common.{◌==◌, codes, bytes_eq, List, [], ◌∷◌, ◌≡◌, refl, inr, some}
use secure_access_relay.Proto.Reason.{Reason}
use secure_access_relay.Relay.Live.{LiveStreams, new_live_streams, terminate}
use secure_access_relay.Common.Named.{find, put, erase}
use secure_access_relay.Common.Table.{insert, delete}
use secure_access_relay.Relay.Live.Numbering.{adds, releases, release_undoes}
use secure_access_relay.Relay.Live.Numbering as Numbering
use secure_access_relay.Relay.Live.Revocation.{IsRevoked, terminate-IsRevoked}
use secure_access_relay.Relay.Registry.{Registry, new_registry, get}
use secure_access_relay.Relay.Registry as Registers
use secure_access_relay.Relay.Registry.Successors.{Event, joins, leaves, successor_stays}
use secure_access_relay.Relay.Registry.Successors as Successors

-- Two streams of one grant and one of another.
abbrev history : List Numbering.Event
history = adds (codes "g1") 1 2 ∷ adds (codes "g2") 3 4 ∷ adds (codes "g1") 5 6 ∷ []

unfoldable three : LiveStreams
three = Numbering.run history new_live_streams

dropped_run : (terminate (codes "g1" ∷ []) Reason.grant_revoked three).dropped ≡ 2
unfolding three terminate Numbering.run new_live_streams find put erase bytes_eq insert delete
dropped_run = refl

terminate-IsRevoked_example :
    IsRevoked
      (codes "g1" ∷ [])
      Reason.grant_revoked
      three
      (terminate (codes "g1" ∷ []) Reason.grant_revoked three)
terminate-IsRevoked_example = terminate-IsRevoked (codes "g1" ∷ []) Reason.grant_revoked three

-- Session 1 of the device is replaced by 2, and its cleanup comes late.
abbrev late : List Event
late = leaves (codes "dev") 1 ∷ joins (codes "other") 3 ∷ []

successor_stays_example :
    (get
      (λ s. s == 1)
      (codes "dev")
      (Successors.run late
        (Registers.add (codes "dev") 2 (Registers.add (codes "dev") 1 new_registry).0).0)).1
    ≡ some 2
unfolding bytes_eq
successor_stays_example =
    successor_stays (λ s. s == 1) (codes "dev") 2 (Registers.add (codes "dev") 1 new_registry).0
      late (inr refl, (refl, tt)) refl
