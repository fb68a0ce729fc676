-- ===== src/Prelude/Map.antt =====
-- `std::unordered_map` with number keys, as an association list in the order of iteration.
use Prim.Native.Nat.{ℕ}
use mathlib.Core.Path.{◌≡◌, refl}
use mathlib.Core.Logic.{◌≢◌}
use mathlib.Core.List.{List, [], ◌∷◌}
use mathlib.Core.Option.{Option, none, some}
use native.Mathlib.Omega.{arith}
use axn_chat_app.Prelude.Tests.{◌==◌, if◌then◌else◌}

abbrev pub Map {ℓ} : Type ℓ → Type ℓ
Map V = List (ℕ × V)

module _ {ℓ} {V : Type ℓ} where
  -- `find`, with `none` for `end()`
  unfoldable pub lookup : ℕ → Map V → Option V
  lookup k [] = none
  lookup k ((j, v) ∷ m) = if j == k then some v else lookup k m

  unfoldable pub erase : ℕ → Map V → Map V
  erase k [] = []
  erase k ((j, v) ∷ m) = let rest = erase k m in if j == k then rest else (j, v) ∷ rest

  -- `m[k] = v`
  unfoldable pub insert : ℕ → V → Map V → Map V
  insert k v m = (k, v) ∷ erase k m

  -- No key stands twice.
  abbrev pub Distinct : Map V → Type ℓ
  Distinct [] = Unit
  Distinct ((k, v) ∷ m) = (lookup k m ≡ none) × Distinct m

module _ {ℓ} {V : Type ℓ} where
  pub lookup-erase :
      (k j : ℕ) (m : Map V) → lookup j (erase k m) ≡ (if k == j then none else lookup j m)
  unfolding lookup erase
  lookup-erase k j [] = ground arith
  lookup-erase k j ((i, v) ∷ m) = ground (arith, lookup-erase k j m)

  pub lookup-insert :
      (k j : ℕ) (v : V) (m : Map V)
      → lookup j (insert k v m) ≡ (if k == j then some v else lookup j m)
  unfolding lookup insert
  lookup-insert k j v m = ground (arith, lookup-erase k j m)

  pub erase-Distinct : (k : ℕ) (m : Map V) → Distinct m → Distinct (erase k m)
  unfolding erase
  erase-Distinct k [] d = d
  erase-Distinct k ((i, v) ∷ m) d = ground (arith, lookup-erase k i m, erase-Distinct k m d.1)

  pub insert-Distinct : (k : ℕ) (v : V) (m : Map V) → Distinct m → Distinct (insert k v m)
  unfolding insert
  insert-Distinct k v m d = (ground (arith, lookup-erase k k m), erase-Distinct k m d)

  -- Where keys are distinct, what stands behind the first entry is found in the whole map.
  pub lookup-tail :
      (k j : ℕ) (v w : V) (m : Map V)
      → lookup k m ≡ none
      → lookup j m ≡ some w
      → lookup j ((k, v) ∷ m) ≡ some w
  unfolding lookup
  lookup-tail k j v w m absent found = ground arith

  pub lookup-erase-some :
      (k j : ℕ) (v : V) (m : Map V)
      → lookup j (erase k m) ≡ some v
      → (k ≢ j) × (lookup j m ≡ some v)
  lookup-erase-some k j v m h =
      (ground (arith, lookup-erase k j m), ground (arith, lookup-erase k j m))

  erase-erase : (k : ℕ) (m : Map V) → erase k (erase k m) ≡ erase k m
  unfolding erase
  erase-erase k [] = refl
  erase-erase k ((j, v) ∷ m) = ground (arith, erase-erase k m)

  -- A second write under a key replaces the first.
  pub insert-insert : (k : ℕ) (v w : V) (m : Map V) → insert k v (insert k w m) ≡ insert k v m
  unfolding insert erase
  insert-insert k v w m = ground (arith, erase-erase k m)
