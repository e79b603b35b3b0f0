-- ===== src/Relay/Serving/Certified.antt =====
-- Whom the relay joins to whom (internal/relay/relay.go, `serve`).
use mathlib.Core.List.Memᴰ
use mathlib.Core.List.Memᴰ.{Memᴰ}
use secure_access_relay.Common.{
  ℕ, ◌==◌, not, ◌&&◌, Bool, true, false, Bool-cases, if◌then◌else◌, if_intro, Bytes, bytes_eq,
  bytes_eq→eq, List, [], ◌∷◌, ◌++◌, Option, none, some, ◌≡◌, refl, subst, inl, inr,
}
use secure_access_relay.Common.Except.{Except, ok, err}
use secure_access_relay.Common.Named.{find, erase, find-put, find-erase}
use secure_access_relay.Proto.Grant.{is_empty}
use secure_access_relay.Mux.Handshake.{Handshake}
use secure_access_relay.Storage.Identities.{Identities}
use secure_access_relay.Control.Enrollment.{
  Identity, EnrollError, role_device, role_operator, verify_enrolled,
}
use secure_access_relay.Relay.Registry.{Registry, new_registry, add, remove, removed, get, live_one}
use secure_access_relay.Relay.Serving.{
  Outcome, operator, role_matches, serve_agent, with_agent, serve_operator, by_role, Visit,
  after_accept, after_verified, serve,
}

-- The relay, with the devices whose certificate was accepted for a session, by its number.
pub record Relay : Type 0 where
  pub identities : Identities
  pub registry : Registry
  pub certified : List (ℕ × Bytes)

-- A connection is served, or the cleanup of an agent's session runs.
pub data Event : Type 0 where
  visits : Visit → Event
  leaves : Bytes → ℕ → Event

abbrev certified_by : Visit → Except EnrollError Identity → List (ℕ × Bytes)
certified_by v (err e) = []
certified_by v (ok id) = if bytes_eq id.role role_device then (v.session, id.id) ∷ [] else []

unfoldable pub step : Event → Relay → Relay
step (visits v) w =
    let (rows, (r, outcome)) = serve v w.identities w.registry in
    record {
      identities = rows;
      registry = r;
      certified =
          certified_by v (verify_enrolled v.database v.certificate w.identities).1 ++ w.certified;
    }
step (leaves device_id s) w = record w { registry = remove device_id s w.registry }

unfoldable pub run : List Event → Relay → Relay
unfolding step
run [] w = w
run (e ∷ es) w = run es (step e w)

-- Every registered session is one for which the certificate of that device was accepted.
abbrev Inv : List (ℕ × Bytes) → Registry → Type 0
Inv log r = (d : Bytes) (s : ℕ) → find d r.agents ≡ some s → Memᴰ (s, d) log

erased :
    (k d : Bytes) (s : ℕ) (r : Registry)
    → find d (erase k r.agents) ≡ some s
    → find d r.agents ≡ some s
erased k d s r e = elim (Bool-cases (bytes_eq k d)) [
  | inl h ↦ absurd (cc (rw (find-erase k d r.agents, h) at e))
  | inr h ↦ rw (find-erase k d r.agents, h) at e
]

remove-Inv :
    (log : List (ℕ × Bytes)) (k : Bytes) (s : ℕ) (r : Registry) → Inv log r → Inv log (remove k s r)
unfolding remove
remove-Inv log k s r v = go (find k r.agents)
  where
    go : (o : Option ℕ) → Inv log (removed k s o r)
    go none = v
    go (some c) = if_intro (Inv log) (c == s) (λ _ d t e. v d t (erased k d t r e)) (λ _. v)

-- The session that `Get` finds is registered and has not ended.
get-Inv :
    (log : List (ℕ × Bytes)) (done : ℕ → Bool) (k : Bytes) (r : Registry)
    → Inv log r
    → Inv log (get done k r).0
      × ((a : ℕ) → (get done k r).1 ≡ some a → Memᴰ (a, k) log × (done a ≡ false))
unfolding get
get-Inv log done k r v = go (find k r.agents) refl
  where
    Good : Registry × Option ℕ → Type 0
    Good x = Inv log x.0 × ((a : ℕ) → x.1 ≡ some a → Memᴰ (a, k) log × (done a ≡ false))

    go : (o : Option ℕ) → find k r.agents ≡ o → Good (live_one done k o r)
    go none e = (v, λ a h. absurd (cc h))
    go (some s) e =
        if_intro Good (done s) (λ _. (λ d t f. v d t (erased k d t r f), λ a h. absurd (cc h)))
          (λ n. (v, λ a h. let same : s ≡ a = cc h in rw⁻¹ same (v k s e, n)))

add-Inv :
    (log : List (ℕ × Bytes)) (k : Bytes) (s : ℕ) (r : Registry)
    → Memᴰ (s, k) log
    → Inv log r
    → Inv log (add k s r).0
unfolding add
add-Inv log k s r m v d t e = elim (Bool-cases (bytes_eq k d)) [
  | inl h ↦
      let same : s ≡ t = cc (rw (find-put k d s r.agents, h) at e) in
      rw⁻¹ same (rw⁻¹ (bytes_eq→eq k d h) m)
  | inr h ↦ v d t (rw (find-put k d s r.agents, h) at e)
]

-- What an outcome says when it joins an operator to an agent's session.
pub record IsJoined (log : List (ℕ × Bytes)) (v : Visit) (id : Identity) (device_id user_id : Bytes)
    (a : ℕ) : Type 0 where
  pub role : id.role ≡ role_operator
  pub user : user_id ≡ id.id
  pub certified : Memᴰ (a, device_id) log
  pub live : v.done a ≡ false

abbrev Joins : List (ℕ × Bytes) → Visit → Identity → Outcome → Type 0
Joins log v id (operator d u a) = IsJoined log v id d u a
Joins log v id _ = Unit

abbrev Serves : List (ℕ × Bytes) → Visit → Identity → Registry × Outcome → Type 0
Serves log v id (r, o) = Inv log r × Joins log v id o

serve_agent-Serves :
    (log : List (ℕ × Bytes)) (v : Visit) (h : Handshake) (id : Identity) (r : Registry)
    → Memᴰ (v.session, id.id) log
    → Inv log r
    → Serves log v id (serve_agent v.admitted v.session h id r)
unfolding serve_agent
serve_agent-Serves log v h id r m i =
    if_intro (Serves log v id)
      (not (is_empty h.auth.device_id) && not (bytes_eq h.auth.device_id id.id)) (λ _. (i, tt))
      (λ _.
        if_intro (Serves log v id) (not v.admitted) (λ _. (i, tt))
          (λ _. (add-Inv log id.id v.session r m i, tt)))

serve_operator-Serves :
    (log : List (ℕ × Bytes)) (v : Visit) (h : Handshake) (id : Identity) (r : Registry)
    → id.role ≡ role_operator
    → Inv log r
    → Serves log v id (serve_operator v.done v.admitted h id r)
unfolding serve_operator
serve_operator-Serves log v h id r role i =
    if_intro (Serves log v id) (is_empty h.auth.device_id) (λ _. (i, tt))
      (λ _. go (get v.done h.auth.device_id r) (get-Inv log v.done h.auth.device_id r i))
  where
    go :
        (x : Registry × Option ℕ)
        → Inv log x.0
          × ((a : ℕ) → x.1 ≡ some a → Memᴰ (a, h.auth.device_id) log × (v.done a ≡ false))
        → Serves log v id (with_agent v.admitted h.auth.device_id id x)
    go (r', none) (j, f) = (j, tt)
    go (r', some a) (j, f) =
        if_intro (Serves log v id) (not v.admitted) (λ _. (j, tt))
          (λ _.
            let (m, l) = f a refl in
            (j, record { role = role; user = refl; certified = m; live = l }))

by_role-Serves :
    (log : List (ℕ × Bytes)) (v : Visit) (h : Handshake) (id : Identity) (r : Registry)
    → (bytes_eq id.role role_device ≡ true → Memᴰ (v.session, id.id) log)
    → Inv log r
    → Serves log v id (by_role v.done v.admitted v.session id h r)
by_role-Serves log v h id r m i =
    if_intro (Serves log v id) (not (role_matches id.role h.hello.role)) (λ _. (i, tt))
      (λ _.
        if_intro (Serves log v id) (bytes_eq id.role role_device)
          (λ d. serve_agent-Serves log v h id r (m d) i)
          (λ _.
            if_intro (Serves log v id) (bytes_eq id.role role_operator)
              (λ o. serve_operator-Serves log v h id r (bytes_eq→eq id.role role_operator o) i)
              (λ _. (i, tt))))

kept : (log more : List (ℕ × Bytes)) (r : Registry) → Inv log r → Inv (more ++ log) r
kept log more r i d s e = Memᴰ.append_right more (i d s e)

-- What a visit leaves, by what its certificate was found to be.
abbrev pub log_after : Visit → Relay → List (ℕ × Bytes)
log_after v w =
    certified_by v (verify_enrolled v.database v.certificate w.identities).1 ++ w.certified

verified-Serves :
    (v : Visit) (log : List (ℕ × Bytes)) (r : Registry)
    (x : Identities × Except EnrollError Identity)
    → Inv log r
    → Inv (certified_by v x.1 ++ log) (after_verified v r x).1.0
      × ((d u : Bytes) (a : ℕ)
          → (after_verified v r x).1.1 ≡ operator d u a
          → (id : Identity) × (x.1 ≡ ok id) × IsJoined (certified_by v x.1 ++ log) v id d u a)
verified-Serves v log r (rows, err e) i = (i, λ d u a h. absurd (cc h))
verified-Serves v log r (rows, ok id) i = go v.handshake
  where
    l : List (ℕ × Bytes)
    l = certified_by v (ok id) ++ log

    j : Inv l r
    j = kept log (certified_by v (ok id)) r i

    go :
        (o : Option Handshake)
        → Inv l (after_accept v id o r).0
          × ((d u : Bytes) (a : ℕ)
              → (after_accept v id o r).1 ≡ operator d u a
              → (id' : Identity) × (◌≡◌ {A = Except EnrollError Identity} (ok id) (ok id'))
                × IsJoined l v id' d u a)
    go none = (j, λ d u a h. absurd (cc h))
    go (some h) =
        let (k, o) = by_role-Serves l v h id r (λ b. rw b (Memᴰ.head refl)) j in
        (k, λ d u a e. (id, refl, subst (Joins l v id) e o))

step-Inv :
    (e : Event) (w : Relay)
    → Inv w.certified w.registry
    → Inv (step e w).certified (step e w).registry
unfolding step serve
step-Inv (visits v) w i =
    (verified-Serves v w.certified w.registry
      (verify_enrolled v.database v.certificate w.identities) i).0
step-Inv (leaves d s) w i = remove-Inv w.certified d s w.registry i

run-Inv :
    (es : List Event) (w : Relay)
    → Inv w.certified w.registry
    → Inv (run es w).certified (run es w).registry
unfolding run
run-Inv [] w i = i
run-Inv (e ∷ es) w i = run-Inv es (step e w) (step-Inv e w i)

abbrev pub new_relay : Identities → Relay
new_relay rows = record { identities = rows; registry = new_registry; certified = [] }

new-Inv : Inv [] new_registry
unfolding new_registry find
new-Inv d s e = absurd (cc e)

-- Who is served, and over whose session.
pub record IsServed (v : Visit) (w : Relay) (device_id user_id : Bytes) (a : ℕ) : Type 0 where
  pub id : Identity
  pub verified : (verify_enrolled v.database v.certificate w.identities).1 ≡ ok id
  pub joined : IsJoined (log_after v w) v id device_id user_id a

-- After any connections and departures, an operator who is served for a device has shown an accepted
-- certificate of an operator, is served as the user that it names, and is given a session that has
-- not ended and for which an accepted certificate of this very device was shown.
pub operator-IsServed :
    (es : List Event) (rows : Identities) (v : Visit) (device_id user_id : Bytes) (a : ℕ)
    → (serve v (run es (new_relay rows)).identities (run es (new_relay rows)).registry).1.1
      ≡ operator device_id user_id a
    → IsServed v (run es (new_relay rows)) device_id user_id a
unfolding serve new_registry
operator-IsServed es rows v device_id user_id a h =
    let w = run es (new_relay rows) in
    let i = run-Inv es (new_relay rows) new-Inv in
    let (inv, f) =
      verified-Serves v w.certified w.registry
        (verify_enrolled v.database v.certificate w.identities) i in
    let (id, e, j) = f device_id user_id a h in record { id = id; verified = e; joined = j }
