-- ===== src/Relay/Live/Revocation.antt =====
-- What a revocation does to the streams of a grant (internal/relay/authorization, `Terminate`).
use mathlib.Core.List.Memᴰ
use mathlib.Core.List.Memᴰ.{Memᴰ}
use secure_access_relay.Common.{
  ℕ, ◌⊎◌, Bytes, bytes_eq, bytes_eq→eq, bytes_eq_refl, length, List, [], ◌∷◌, ◌≡◌, refl, sym, ◌∙◌,
  ap, subst, Bool-cases, if◌then◌else◌, inl, inr,
}
use secure_access_relay.Common.Named.{erase, find-erase}
use secure_access_relay.Proto.Reason.{Reason}
use secure_access_relay.Relay.Live.{
  Pair, LiveStreams, streams_of, pairs, collect, resets, terminate, Terminated, count_for,
}

-- The register without the entry of a grant.
abbrev dropping : Bytes → LiveStreams → LiveStreams
dropping g l = record l { by_grant = erase g l.by_grant }

streams_of-dropping :
    (g h : Bytes) (l : LiveStreams)
    → streams_of h (dropping g l) ≡ (if bytes_eq g h then [] else streams_of h l)
unfolding streams_of
streams_of-dropping g h l = elim (Bool-cases (bytes_eq g h)) [
  | inl e ↦ rw (find-erase g h l.by_grant, e) refl
  | inr e ↦ rw (find-erase g h l.by_grant, e) refl
]

-- A grant without streams has none after more entries are gone.
stays_empty :
    (g h : Bytes) (l : LiveStreams) → streams_of h l ≡ [] → streams_of h (dropping g l) ≡ []
stays_empty g h l e = elim (Bool-cases (bytes_eq g h)) [
  | inl s ↦ streams_of-dropping g h l ∙ rw s refl
  | inr s ↦ streams_of-dropping g h l ∙ rw s e
]

dropped_empty : (g : Bytes) (l : LiveStreams) → streams_of g (dropping g l) ≡ []
dropped_empty g l = streams_of-dropping g g l ∙ rw (bytes_eq_refl g) refl

collect_stays :
    (ids : List Bytes) (h : Bytes) (l : LiveStreams)
    → streams_of h l ≡ []
    → streams_of h (collect ids l).0 ≡ []
unfolding collect
collect_stays [] h l e = e
collect_stays (g ∷ ids) h l e = collect_stays ids h (dropping g l) (stays_empty g h l e)

collect_empties :
    (ids : List Bytes) (h : Bytes) (l : LiveStreams)
    → Memᴰ h ids
    → streams_of h (collect ids l).0 ≡ []
unfolding collect
collect_empties [] h l m = absurd (Memᴰ.not-nil m)
collect_empties (g ∷ ids) h l (Memᴰ.head e) =
    collect_stays ids h (dropping g l)
      (subst (λ z. streams_of z (dropping g l) ≡ []) (sym e) (dropped_empty g l))
collect_empties (g ∷ ids) h l (Memᴰ.tail m) = collect_empties ids h (dropping g l) m

collect_spares :
    (ids : List Bytes) (h : Bytes) (l : LiveStreams)
    → ¬ Memᴰ h ids
    → streams_of h (collect ids l).0 ≡ streams_of h l
unfolding collect
collect_spares [] h l n = refl
collect_spares (g ∷ ids) h l n = elim (Bool-cases (bytes_eq g h)) [
  | inl s ↦ absurd (n (Memᴰ.head (sym (bytes_eq→eq g h s))))
  | inr s ↦
      collect_spares ids h (dropping g l) (λ m. n (Memᴰ.tail m))
      ∙ (streams_of-dropping g h l ∙ rw s refl)
]

collect-doomed :
    (ids : List Bytes) (h : Bytes) (l : LiveStreams) (p : Pair)
    → Memᴰ h ids
    → Memᴰ p (pairs (streams_of h l))
    → Memᴰ p (collect ids l).1
unfolding collect
collect-doomed [] h l p m q = absurd (Memᴰ.not-nil m)
collect-doomed (g ∷ ids) h l p (Memᴰ.head e) q =
    Memᴰ.append_left (collect ids (dropping g l)).1
      (subst (λ z. Memᴰ p (pairs (streams_of z l))) e q)
collect-doomed (g ∷ ids) h l p (Memᴰ.tail m) q = elim (Bool-cases (bytes_eq g h)) [
  | inl s ↦
      Memᴰ.append_left (collect ids (dropping g l)).1
        (subst (λ z. Memᴰ p (pairs (streams_of z l))) (sym (bytes_eq→eq g h s)) q)
  | inr s ↦ Memᴰ.append_right (pairs (streams_of g l)) (
      collect-doomed ids h (dropping g l) p m
        (subst (λ t. Memᴰ p (pairs t)) (sym (streams_of-dropping g h l ∙ rw s refl)) q))
]

resets-both :
    (r : Reason) (doomed : List Pair) (p : Pair)
    → Memᴰ p doomed
    → Memᴰ (p.operator, r) (resets r doomed) × Memᴰ (p.agent, r) (resets r doomed)
resets-both r [] p m = absurd (Memᴰ.not-nil m)
resets-both r (q ∷ doomed) p (Memᴰ.head e) =
    (Memᴰ.head (ap (λ z. (z.operator, r)) e), Memᴰ.tail (Memᴰ.head (ap (λ z. (z.agent, r)) e)))
resets-both r (q ∷ doomed) p (Memᴰ.tail m) =
    let (o, a) = resets-both r doomed p m in (Memᴰ.tail (Memᴰ.tail o), Memᴰ.tail (Memᴰ.tail a))

-- Of the pairs that were collected, each is of a grant that was named.
Named : List Bytes → LiveStreams → Pair → Type 0
Named ids l p = (h : Bytes) × Memᴰ h ids × Memᴰ p (pairs (streams_of h l))

streams_of-spared :
    (g h : Bytes) (l : LiveStreams) (p : Pair)
    → Memᴰ p (pairs (streams_of h (dropping g l)))
    → Memᴰ p (pairs (streams_of h l))
streams_of-spared g h l p m = elim (Bool-cases (bytes_eq g h)) [
  | inl s ↦
      let gone : streams_of h (dropping g l) ≡ [] = streams_of-dropping g h l ∙ rw s refl in
      absurd (Memᴰ.not-nil (subst (λ t. Memᴰ p (pairs t)) gone m))
  | inr s ↦
      let same : streams_of h (dropping g l) ≡ streams_of h l =
        streams_of-dropping g h l ∙ rw s refl in
      subst (λ t. Memᴰ p (pairs t)) same m
]

collect-Named :
    (ids : List Bytes) (l : LiveStreams) (p : Pair) → Memᴰ p (collect ids l).1 → Named ids l p
unfolding collect Named
collect-Named [] l p m = absurd (Memᴰ.not-nil m)
collect-Named (g ∷ ids) l p m = elim (Memᴰ.append_cases (pairs (streams_of g l)) m) [
  | inl q ↦ (g, Memᴰ.head refl, q)
  | inr q ↦
      let (h, n, k) = collect-Named ids (dropping g l) p q in
      (h, Memᴰ.tail n, streams_of-spared g h l p k)
]

-- The calls are to the ends of these pairs.
resets-only :
    (r : Reason) (doomed : List Pair) (c : ℕ × Reason)
    → Memᴰ c (resets r doomed)
    → (p : Pair) × Memᴰ p doomed × ((c ≡ (p.operator, r)) ⊎ (c ≡ (p.agent, r)))
resets-only r [] c m = absurd (Memᴰ.not-nil m)
resets-only r (q ∷ doomed) c (Memᴰ.head e) = (q, Memᴰ.head refl, inl e)
resets-only r (q ∷ doomed) c (Memᴰ.tail (Memᴰ.head e)) = (q, Memᴰ.head refl, inr e)
resets-only r (q ∷ doomed) c (Memᴰ.tail (Memᴰ.tail m)) =
    let (p, n, k) = resets-only r doomed c m in (p, Memᴰ.tail n, k)

-- What is left of the grants that were named, and of the others.
pub record IsRevoked (ids : List Bytes) (reason : Reason) (l : LiveStreams) (t : Terminated)
    : Type 0 where
  pub reset :
      (h : Bytes) (p : Pair)
      → Memᴰ h ids
      → Memᴰ p (pairs (streams_of h l))
      → Memᴰ (p.operator, reason) t.calls × Memᴰ (p.agent, reason) t.calls
  pub only_named :
      (c : ℕ × Reason)
      → Memᴰ c t.calls
      → (h : Bytes) × (p : Pair) × Memᴰ h ids
        × Memᴰ p (pairs (streams_of h l))
        × ((c ≡ (p.operator, reason)) ⊎ (c ≡ (p.agent, reason)))
  pub none_left : (h : Bytes) → Memᴰ h ids → count_for h t.live ≡ 0
  pub others_kept : (h : Bytes) → ¬ Memᴰ h ids → streams_of h t.live ≡ streams_of h l

-- A revocation resets both ends of every stream of the grants named, leaves none of them in the
-- register, resets nothing else, and leaves the entries of every other grant in the register.
pub terminate-IsRevoked :
    (ids : List Bytes) (reason : Reason) (l : LiveStreams)
    → IsRevoked ids reason l (terminate ids reason l)
unfolding terminate count_for Named
terminate-IsRevoked ids reason l = record {
  reset = λ h p m q. resets-both reason (collect ids l).1 p (collect-doomed ids h l p m q);
  only_named = λ c m.
      let (p, n, e) = resets-only reason (collect ids l).1 c m in
      let (h, k, q) = collect-Named ids l p n in (h, p, k, q, e);
  none_left = λ h m. ap length (collect_empties ids h l m);
  others_kept = λ h n. collect_spares ids h l n;
}

collect_nothing :
    (ids : List Bytes) (l : LiveStreams)
    → ((h : Bytes) → Memᴰ h ids → streams_of h l ≡ [])
    → (collect ids l).1 ≡ []
unfolding collect
collect_nothing [] l f = refl
collect_nothing (g ∷ ids) l f =
    rw (f g (Memᴰ.head refl))
      (collect_nothing ids (dropping g l) (λ h m. stays_empty g h l (f h (Memᴰ.tail m))))

-- A second revocation of the same grants reports no stream again.
pub terminate_twice :
    (ids : List Bytes) (reason again : Reason) (l : LiveStreams)
    → (terminate ids again (terminate ids reason l).live).dropped ≡ 0
unfolding terminate
terminate_twice ids reason again l =
    ap length (collect_nothing ids (collect ids l).0 (λ h m. collect_empties ids h l m))
