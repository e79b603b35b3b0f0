-- ===== src/Tests/Policies.antt =====
-- Requests and rules (internal/control/policy/policy.go).
use mathlib.Core.List.Memᴰ
use mathlib.Core.List.Memᴰ.{Memᴰ}
use secure_access_relay.Common.{◌*◌, bytes_eq, codes, [], ◌∷◌, ◌≡◌, ◌≢◌, refl, ◌⊎◌}
use secure_access_relay.Proto.Grant.{second}
use secure_access_relay.Control.Policy.{
  Rule, nanoseconds, effect_allow, denied, allow, consider, evaluate,
}
use secure_access_relay.Control.Policy.Allowing.{Allows}
use secure_access_relay.Control.Policy.Sound.{IsBest, evaluate-IsBest}
use secure_access_relay.Control.Policy.Order.{Agree, Within, evaluate_order}

abbrev short : Rule
short = record {
  policy_id = codes "p1";
  principals = codes "alice" ∷ [];
  devices = codes "dev" ∷ [];
  resources = codes "ssh" ∷ [];
  max_ttl = nanoseconds (300 * second);
  effect = codes "allow";
}

abbrev long : Rule
long = record short { policy_id = codes "p2"; max_ttl = nanoseconds (900 * second) }

evaluate_run : evaluate (short ∷ long ∷ []) (codes "alice") (codes "dev") (codes "ssh") ≡ allow long
unfolding evaluate bytes_eq consider effect_allow
evaluate_run = refl

evaluate-IsBest_example :
    ((evaluate (short ∷ long ∷ []) (codes "alice") (codes "dev") (codes "ssh") ≡ denied)
      × ((codes "alice" ≡ []) ⊎ ((codes "dev" ≡ []) ⊎ (codes "ssh" ≡ []))))
    ⊎ ((codes "alice" ≢ [])
        × (codes "dev" ≢ [])
        × (codes "ssh" ≢ [])
        × (((evaluate (short ∷ long ∷ []) (codes "alice") (codes "dev") (codes "ssh") ≡ denied)
              × ((r : Rule)
                  → Memᴰ r (short ∷ long ∷ [])
                  → ¬ Allows (codes "alice") (codes "dev") (codes "ssh") r))
            ⊎ IsBest
                (codes "alice")
                (codes "dev")
                (codes "ssh")
                (short ∷ long ∷ [])
                (evaluate (short ∷ long ∷ []) (codes "alice") (codes "dev") (codes "ssh"))))
evaluate-IsBest_example =
    evaluate-IsBest (short ∷ long ∷ []) (codes "alice") (codes "dev") (codes "ssh")

swapped : (a b : Rule) → Within (a ∷ b ∷ []) (b ∷ a ∷ [])
swapped a b r (Memᴰ.head e) = Memᴰ.tail (Memᴰ.head e)
swapped a b r (Memᴰ.tail (Memᴰ.head e)) = Memᴰ.head e
swapped a b r (Memᴰ.tail (Memᴰ.tail m)) = absurd (Memᴰ.not-nil m)

evaluate_order_example :
    Agree
      (evaluate (short ∷ long ∷ []) (codes "alice") (codes "dev") (codes "ssh"))
      (evaluate (long ∷ short ∷ []) (codes "alice") (codes "dev") (codes "ssh"))
evaluate_order_example =
    evaluate_order (short ∷ long ∷ []) (long ∷ short ∷ []) (codes "alice") (codes "dev")
      (codes "ssh") (swapped short long) (swapped long short)
