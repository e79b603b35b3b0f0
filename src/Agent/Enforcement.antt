-- ===== src/Agent/Enforcement.antt =====
-- A target is dialled only for a good grant (internal/agent/agent.go, `handleStream`).
use mathlib.Core.List.Memᴰ
use mathlib.Core.List.Memᴰ.{Memᴰ}
use secure_access_relay.Common.{
  ℕ, ◌+◌, ◌-◌, ◌<◌, ◌≤◌, true, if◌then◌else◌, Bytes, List, [], ◌∷◌, Option, none, some, ◌≡◌, refl,
  ap, subst, ◌∙◌, arith, Bool-cases, Option-cases, inl, inr, ◌⊎◌,
}
use secure_access_relay.Common.Except.{Except, ok, err, ok_injective}
use secure_access_relay.Common.Named.{find}
use secure_access_relay.Proto.Reason.{Reason}
use secure_access_relay.Proto.Grant.{Ed25519, SignedGrant, GrantError, decode_grant, verify}
use secure_access_relay.Agent.{
  Net, Resource, LookupError, Agent, Dial, connected, refused, timed_out, Surroundings, Action,
  resets, dials, smaller_limit, deadline, remaining, validate_target, lookup_resource, after_dial,
  after_lookup, after_verify, after_decode, handle_stream,
}

-- What stands behind a dial: a grant that the agent verified, for a resource of its own list whose
-- target is a loopback address, and an operator who proved to be the one the grant names.
pub record IsAuthorized (ed : Ed25519) (net : Net) (a : Agent) (w : Surroundings)
    (payload target : Bytes) : Type 0 where
  pub signed : SignedGrant
  pub resource : Resource
  pub decoded : decode_grant payload ≡ ok signed
  pub good : verify ed signed a.grant_key w.verified_at a.device_id ≡ none
  pub listed : find signed.grant.resource_id a.resources ≡ some resource
  pub loopback : validate_target net resource.target ≡ true
  pub named : resource.target ≡ target
  pub operator : w.inner_session ≡ true

-- An action that is not a dial.
abbrev IsDial : Action → Type 0
IsDial (dials t) = Unit
IsDial _ = ⊥

from-IsDial : (t : Bytes) (b : Action) → dials t ≡ b → IsDial b
from-IsDial t b e = subst IsDial e tt

not_first :
    (t : Bytes) (b : Action) (bs : List Action)
    → ¬ IsDial b
    → Memᴰ (dials t) (b ∷ bs)
    → Memᴰ (dials t) bs
not_first t b bs n (Memᴰ.head e) = absurd (n (from-IsDial t b e))
not_first t b bs n (Memᴰ.tail m) = m

not_alone : (t : Bytes) (b : Action) → ¬ IsDial b → ¬ Memᴰ (dials t) (b ∷ [])
not_alone t b n m = Memᴰ.not-nil (not_first t b [] n m)

lookup-of_ok :
    (net : Net) (id : Bytes) (a : Agent) (r : Resource)
    → lookup_resource net id a.resources ≡ ok r
    → (find id a.resources ≡ some r) × (validate_target net r.target ≡ true)
unfolding lookup_resource
lookup-of_ok net id a r e = elim (Option-cases (find id a.resources)) [
  | inl n ↦ absurd (let q = rw n at e in cc)
  | inr (x, n) ↦ elim (Bool-cases (validate_target net x.target)) [
    | inl v ↦
        let p : x ≡ r = ok_injective (rw (n, v) at e) in
        (n ∙ ap some p, subst (λ z. validate_target net z.target ≡ true) p v)
    | inr v ↦ absurd (let q = rw (n, v) at e in cc)
  ]
]

dials-after_dial :
    (w : Surroundings) (s : SignedGrant) (r : Resource) (t : Bytes) (d : Dial)
    → ¬ Memᴰ (dials t) (after_dial w s r d)
dials-after_dial w s r t connected m = not_alone t _ (λ x. x) m
dials-after_dial w s r t refused m = not_alone t _ (λ x. x) m
dials-after_dial w s r t timed_out m = not_alone t _ (λ x. x) m

dialled :
    (w : Surroundings) (s : SignedGrant) (r : Resource) (t : Bytes) (d : Dial)
    → Memᴰ (dials t) (dials r.target ∷ after_dial w s r d)
    → r.target ≡ t
dialled w s r t d (Memᴰ.head e) = cc
dialled w s r t d (Memᴰ.tail m) = absurd (dials-after_dial w s r t d m)

dials-target :
    (w : Surroundings) (s : SignedGrant) (r : Resource) (t : Bytes)
    → Memᴰ (dials t) (after_lookup w s (ok r))
    → (w.inner_session ≡ true) × (r.target ≡ t)
dials-target w s r t m =
    let rest = not_first t _ _ (λ x. x) m in
    elim (Bool-cases w.inner_session) [
      | inl e ↦ (
        e,
        dialled w s r t w.dial (
            subst
              (λ b. Memᴰ (dials t) (
                if b
                then dials r.target ∷ after_dial w s r w.dial
                else resets Reason.auth_failed ∷ []))
              e rest),
      )
      | inr e ↦ absurd (
          not_alone t (resets Reason.auth_failed) (λ x. x)
            (subst
              (λ b. Memᴰ (dials t) (
                if b
                then dials r.target ∷ after_dial w s r w.dial
                else resets Reason.auth_failed ∷ []))
              e rest))
    ]

dials-found :
    (w : Surroundings) (s : SignedGrant) (o : Except LookupError Resource) (t : Bytes)
    → Memᴰ (dials t) (after_lookup w s o)
    → (r : Resource) × (o ≡ ok r) × (w.inner_session ≡ true) × (r.target ≡ t)
dials-found w s (ok r) t m = let (i, n) = dials-target w s r t m in (r, refl, i, n)
dials-found w s (err LookupError.resource_unknown) t m = absurd (not_alone t _ (λ x. x) m)
dials-found w s (err LookupError.target_not_loopback) t m = absurd (not_alone t _ (λ x. x) m)

module _ (ed : Ed25519) (net : Net) (a : Agent) (w : Surroundings) where
  dials-verified :
      (s : SignedGrant) (o : Option GrantError) (t : Bytes)
      → Memᴰ (dials t) (after_verify ed net a w s o)
      → (o ≡ none)
        × Memᴰ (dials t) (after_lookup w s (lookup_resource net s.grant.resource_id a.resources))
  dials-verified s none t m = (refl, m)
  dials-verified s (some e) t m = absurd (not_alone t _ (λ x. x) m)

  dials-decoded :
      (o : Except GrantError SignedGrant) (t : Bytes)
      → Memᴰ (dials t) (after_decode ed net a w o)
      → (s : SignedGrant) × (o ≡ ok s)
        × Memᴰ
            (dials t)
            (after_verify ed net a w s (verify ed s a.grant_key w.verified_at a.device_id))
  dials-decoded (ok s) t m = (s, refl, m)
  dials-decoded (err e) t m = absurd (not_alone t _ (λ x. x) m)

  -- Whatever a relay presents, a target is dialled only if the stream carries a grant that this agent
  -- verified, the grant names a resource of the agent's own list, the target is that resource's and
  -- is a loopback address, and the inner session has proved the operator.
  pub handle_stream-IsAuthorized :
      (payload target : Bytes)
      → Memᴰ (dials target) (handle_stream ed net a w payload)
      → IsAuthorized ed net a w payload target
  unfolding handle_stream
  handle_stream-IsAuthorized [] t m = absurd (not_alone t _ (λ x. x) m)
  handle_stream-IsAuthorized (b ∷ payload) t m =
      let (s, d, m₁) = dials-decoded (decode_grant (b ∷ payload)) t m in
      let (g, m₂) = dials-verified s _ t m₁ in
      let (r, l, i, n) = dials-found w s _ t m₂ in
      let (f, v) = lookup-of_ok net s.grant.resource_id a r l in
      record {
        signed = s;
        resource = r;
        decoded = d;
        good = g;
        listed = f;
        loopback = v;
        named = n;
        operator = i;
      }

-- The stricter of two byte limits, where 0 is none: a limit is never exceeded by what it yields with
-- another, is never lost, and it does not matter which of the two comes first.
pub smaller_limit_bounds :
    (a b : ℕ)
    → 0 < a
    → (0 < smaller_limit a b) × (smaller_limit a b ≤ a) × (smaller_limit b a ≡ smaller_limit a b)
unfolding smaller_limit
smaller_limit_bounds a b h = ground arith

-- With a clock that does not go back between its readings, and a grant that has not ended by the
-- second of them, the deadline of a stream is no later than the grant's end and the time between the
-- last two readings, and no later than the resource's limit, if it has one, after the last.
pub deadline_bounds :
    (w : Surroundings) (s : SignedGrant) (r : Resource)
    → w.based_at ≤ w.remaining_at
    → w.remaining_at ≤ w.tested_at
    → w.tested_at ≤ w.capped_at
    → w.remaining_at ≤ s.grant.expires_at
    → (deadline w s r ≤ s.grant.expires_at + (w.capped_at - w.tested_at))
      × ((r.max_duration ≡ 0) ⊎ (deadline w s r ≤ w.capped_at + r.max_duration))
unfolding deadline remaining
deadline_bounds w s r h₁ h₂ h₃ h = (ground arith, ground arith)
