-- ===== src/Common/Table.antt =====
-- A Go map with numbers for keys, as a list of pairs with distinct keys.
use Prim.Native.Nat.{ℕ, ◌+◌, ◌≤◌, ◌<◌}
use mathlib.Core.Path.{◌≡◌}
use mathlib.Core.List.{List, [], ◌∷◌}
use mathlib.Core.Option.{Option, none, some}
use native.Mathlib.Omega.{arith}
use secure_access_relay.Common.Tests.{◌==◌, if◌then◌else◌}
use secure_access_relay.Common.Lists.{length}

abbrev pub Table {ℓ} : Type ℓ → Type ℓ
Table V = List (ℕ × V)

module _ {ℓ} {V : Type ℓ} where
  unfoldable pub lookup : ℕ → Table V → Option V
  lookup k [] = none
  lookup k ((j, v) ∷ t) = if j == k then some v else lookup k t

  unfoldable pub delete : ℕ → Table V → Table V
  delete k [] = []
  delete k ((j, v) ∷ t) = let rest = delete k t in if j == k then rest else (j, v) ∷ rest

  unfoldable pub insert : ℕ → V → Table V → Table V
  insert k v t = (k, v) ∷ delete k t

  pub lookup-delete :
      (k j : ℕ) (t : Table V) → lookup j (delete k t) ≡ (if k == j then none else lookup j t)
  unfolding lookup delete
  lookup-delete k j [] = ground arith
  lookup-delete k j ((i, v) ∷ t) = ground (arith, lookup-delete k j t)

  pub lookup-insert :
      (k j : ℕ) (v : V) (t : Table V)
      → lookup j (insert k v t) ≡ (if k == j then some v else lookup j t)
  unfolding lookup insert
  lookup-insert k j v t = ground (arith, lookup-delete k j t)

  pub length-delete-le : (k : ℕ) (t : Table V) → length (delete k t) ≤ length t
  unfolding delete
  length-delete-le k [] = omega arith
  length-delete-le k ((j, v) ∷ t) = ground (arith, length-delete-le k t)

  pub length-insert-le : (k : ℕ) (v : V) (t : Table V) → length (insert k v t) ≤ length t + 1
  unfolding insert
  length-insert-le k v t = omega (arith, length-delete-le k t)

  -- A deletion of a key that is there makes the table shorter.
  pub length-delete-lt :
      (k : ℕ) (v : V) (t : Table V) → lookup k t ≡ some v → length (delete k t) < length t
  unfolding lookup delete
  length-delete-lt k v [] h = absurd (ground arith)
  length-delete-lt k v ((j, w) ∷ t) h = ground (arith, length-delete-lt k v t, length-delete-le k t)
