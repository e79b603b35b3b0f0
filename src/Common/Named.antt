-- ===== src/Common/Named.antt =====
-- A Go map with strings for keys, as a list of pairs.
use mathlib.Core.Path.{◌≡◌, refl, sym, ◌∙◌, ap}
use mathlib.Core.Logic.{inl, inr}
use mathlib.Core.Bool.{true, false}
use mathlib.Core.List.{List, [], ◌∷◌}
use mathlib.Core.Option.{Option, none, some}
use secure_access_relay.Common.Tests.{if◌then◌else◌, Bool-cases}
use secure_access_relay.Common.Octets.{Bytes, bytes_eq, bytes_eq→eq, bytes_eq_refl}

abbrev pub Named {ℓ} : Type ℓ → Type ℓ
Named V = List (Bytes × V)

-- A name that is not one name is not another spelling of it either.
differs : (i k j : Bytes) → bytes_eq i k ≡ false → bytes_eq i j ≡ true → bytes_eq k j ≡ false
differs i k j e f = elim (Bool-cases (bytes_eq k j)) [
  | inr g ↦ g
  | inl g ↦
      let p : i ≡ k = bytes_eq→eq i j f ∙ sym (bytes_eq→eq k j g) in
      let q : bytes_eq k k ≡ false = ap (λ z. bytes_eq z k) (sym p) ∙ e in
      absurd (cc (q, bytes_eq_refl k))
]

module _ {ℓ} {V : Type ℓ} where
  unfoldable pub find : Bytes → Named V → Option V
  find k [] = none
  find k ((j, v) ∷ t) = if bytes_eq j k then some v else find k t

  unfoldable pub erase : Bytes → Named V → Named V
  erase k [] = []
  erase k ((j, v) ∷ t) = let rest = erase k t in if bytes_eq j k then rest else (j, v) ∷ rest

  unfoldable pub put : Bytes → V → Named V → Named V
  put k v t = (k, v) ∷ erase k t

  -- A deleted key is gone, and the others stay.
  pub find-erase :
      (k j : Bytes) (t : Named V) → find j (erase k t) ≡ (if bytes_eq k j then none else find j t)
  unfolding find erase
  find-erase k j [] = elim (Bool-cases (bytes_eq k j)) [ inl e ↦ rw e refl | inr e ↦ rw e refl ]
  find-erase k j ((i, v) ∷ t) = elim (Bool-cases (bytes_eq i k)) [
    | inl e ↦ elim (Bool-cases (bytes_eq i j)) [
      | inl f ↦ rw (e, find-erase k j t, sym (bytes_eq→eq i k e), f) refl
      | inr f ↦ rw (e, find-erase k j t, sym (bytes_eq→eq i k e), f) refl
    ]
    | inr e ↦ elim (Bool-cases (bytes_eq i j)) [
      | inl f ↦ rw (e, f, differs i k j e f) refl
      | inr f ↦ rw (e, f) (find-erase k j t)
    ]
  ]

  pub find-put :
      (k j : Bytes) (v : V) (t : Named V)
      → find j (put k v t) ≡ (if bytes_eq k j then some v else find j t)
  unfolding find put
  find-put k j v t = elim (Bool-cases (bytes_eq k j)) [
    | inl e ↦ rw e refl
    | inr e ↦ rw e (find-erase k j t ∙ rw e refl)
  ]
