-- ===== src/Relay/Registry/Successors.antt =====
-- What the registry answers after a reconnect (internal/relay/sessions/registry.go).
use secure_access_relay.Common.{
  ℕ, ◌==◌, Bytes, bytes_eq, bytes_eq→eq, bytes_eq_refl, List, [], ◌∷◌, ◌≡◌, refl, sym, subst, ◌∙◌,
  ap, Bool, true, false, Bool-cases, inl, inr, ◌⊎◌, Option, none, some, All,
}
use secure_access_relay.Common.Named.{find, erase, find-put, find-erase}
use secure_access_relay.Relay.Registry.{Registry, add, remove, removed, get, live_one}

-- What reaches the registry while the relay runs.
pub data Event : Type 0 where
  joins leaves : Bytes → ℕ → Event
  asks : (ℕ → Bool) → Bytes → Event

unfoldable pub step : Event → Registry → Registry
unfolding add remove get
step (joins d s) r = (add d s r).0
step (leaves d s) r = remove d s r
step (asks done d) r = (get done d r).0

unfoldable pub run : List Event → Registry → Registry
unfolding step
run [] r = r
run (e ∷ es) r = run es (step e r)

-- An event that is not a new session of the device, nor the cleanup of this one, nor finds it ended.
abbrev pub Spares : Bytes → ℕ → Event → Type 0
Spares d s (joins j t) = bytes_eq j d ≡ false
Spares d s (leaves j t) = (bytes_eq j d ≡ false) ⊎ (s == t ≡ false)
Spares d s (asks done j) = (bytes_eq j d ≡ false) ⊎ (done s ≡ false)

erased_other :
    (j d : Bytes) (r : Registry) {o : Option ℕ}
    → bytes_eq j d ≡ false
    → find d r.agents ≡ o
    → find d (erase j r.agents) ≡ o
erased_other j d r n h = find-erase j d r.agents ∙ rw n h

found_same :
    (j d : Bytes) (cur s : ℕ) (r : Registry)
    → bytes_eq j d ≡ true
    → find j r.agents ≡ some cur
    → find d r.agents ≡ some s
    → cur ≡ s
found_same j d cur s r near e h =
    let p : some cur ≡ some s = sym e ∙ ap (λ z. find z r.agents) (bytes_eq→eq j d near) ∙ h in cc

not_spared_leave :
    (j d : Bytes) (t s : ℕ) → bytes_eq j d ≡ true → s == t ≡ true → ¬ Spares d s (leaves j t)
not_spared_leave j d t s near same (inl far) = cc
not_spared_leave j d t s near same (inr other) = cc

not_spared_ask :
    (done : ℕ → Bool) (j d : Bytes) (s : ℕ)
    → bytes_eq j d ≡ true
    → done s ≡ true
    → ¬ Spares d s (asks done j)
not_spared_ask done j d s near ended (inl far) = cc
not_spared_ask done j d s near ended (inr live) = cc

removed_keeps :
    (j d : Bytes) (t s : ℕ) (r : Registry) (o : Option ℕ)
    → find j r.agents ≡ o
    → find d r.agents ≡ some s
    → Spares d s (leaves j t)
    → find d (removed j t o r).agents ≡ some s
removed_keeps j d t s r none e h n = h
removed_keeps j d t s r (some cur) e h n = elim (Bool-cases (cur == t)) [
  | inr other ↦ rw other h
  | inl same ↦ elim (Bool-cases (bytes_eq j d)) [
    | inr far ↦ rw same (erased_other j d r far h)
    | inl near ↦ absurd (
        not_spared_leave j d t s near
          (subst (λ z. z == t ≡ true) (found_same j d cur s r near e h) same) n)
  ]
]

live_one_keeps :
    (done : ℕ → Bool) (j d : Bytes) (s : ℕ) (r : Registry) (o : Option ℕ)
    → find j r.agents ≡ o
    → find d r.agents ≡ some s
    → Spares d s (asks done j)
    → find d (live_one done j o r).0.agents ≡ some s
live_one_keeps done j d s r none e h n = h
live_one_keeps done j d s r (some cur) e h n = elim (Bool-cases (done cur)) [
  | inr live ↦ rw live h
  | inl ended ↦ elim (Bool-cases (bytes_eq j d)) [
    | inr far ↦ rw ended (erased_other j d r far h)
    | inl near ↦ absurd (
        not_spared_ask done j d s near
          (subst (λ z. done z ≡ true) (found_same j d cur s r near e h) ended) n)
  ]
]

step_keeps :
    (d : Bytes) (s : ℕ) (e : Event) (r : Registry)
    → find d r.agents ≡ some s
    → Spares d s e
    → find d (step e r).agents ≡ some s
unfolding step
step_keeps d s (joins j t) r h n = find-put j d t r.agents ∙ rw n h
step_keeps d s (leaves j t) r h n = removed_keeps j d t s r (find j r.agents) refl h n
step_keeps d s (asks done j) r h n = live_one_keeps done j d s r (find j r.agents) refl h n

run_keeps :
    (d : Bytes) (s : ℕ) (es : List Event) (r : Registry)
    → find d r.agents ≡ some s
    → All (Spares d s) es
    → find d (run es r).agents ≡ some s
unfolding run
run_keeps d s [] r h n = h
run_keeps d s (e ∷ es) r h (n, ns) = run_keeps d s es (step e r) (step_keeps d s e r h n) ns

added_found : (d : Bytes) (s : ℕ) (r : Registry) → find d (add d s r).0.agents ≡ some s
unfolding add
added_found d s r = find-put d d s r.agents ∙ rw (bytes_eq_refl d) refl

get-some :
    (done : ℕ → Bool) (d : Bytes) (s : ℕ) (r : Registry)
    → find d r.agents ≡ some s
    → done s ≡ false
    → get done d r ≡ (r, some s)
unfolding get
get-some done d s r e live = rw e (rw live refl)

-- A session that was registered is the one found for its device, as long as it lives, whatever
-- other devices do and whatever cleanups of earlier sessions arrive late: only a newer session of
-- the device, its own cleanup or its end takes it away.
pub successor_stays :
    (done : ℕ → Bool) (d : Bytes) (s : ℕ) (r : Registry) (es : List Event)
    → All (Spares d s) es
    → done s ≡ false
    → (get done d (run es (add d s r).0)).1 ≡ some s
successor_stays done d s r es n live =
    ap (λ z. z.1)
      (get-some done d s (run es (add d s r).0)
        (run_keeps d s es (add d s r).0 (added_found d s r) n) live)
