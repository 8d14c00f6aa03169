-- ===== src/Prelude/Assoc.antt =====
-- Python's dict with integer keys, as an association list in insertion order.
use stovacore.Prelude.Tests.{◌==◌, if◌then◌else◌}
use stovacore.Prelude.Lists.{contains, IsSetList}
use Prim.Native.Nat.{ℕ}
use mathlib.Core.Path.{◌≡◌, refl}
use mathlib.Core.Bool.{◌||◌}
use mathlib.Core.Option.{Option, none, some}
use mathlib.Core.List.{List, [], ◌∷◌}
use native.Mathlib.Omega.{arith}

abbrev pub Assoc {ℓ} : Type ℓ → Type ℓ
Assoc V = List (ℕ × V)

module _ {ℓ} {V : Type ℓ} where
  unfoldable pub lookup : ℕ → Assoc V → Option V
  lookup k [] = none
  lookup k ((j, v) ∷ d) = if k == j then some v else lookup k d

  -- `d[k] = v`
  unfoldable pub insert : ℕ → V → Assoc V → Assoc V
  insert k v [] = (k, v) ∷ []
  insert k v ((j, w) ∷ d) = if k == j then (j, v) ∷ d else (j, w) ∷ insert k v d

  -- `del d[k]`; keys stand once, so all entries of the key go
  unfoldable pub erase : ℕ → Assoc V → Assoc V
  erase k [] = []
  erase k ((j, w) ∷ d) = let rest = erase k d in if k == j then rest else (j, w) ∷ rest

  abbrev pub keys : Assoc V → List ℕ
  keys [] = []
  keys ((k, v) ∷ d) = k ∷ keys d

  pub lookup-insert :
      (k j : ℕ) (v : V) (d : Assoc V)
      → lookup j (insert k v d) ≡ (if j == k then some v else lookup j d)
  unfolding lookup insert
  lookup-insert k j v [] = refl
  lookup-insert k j v ((i, w) ∷ d) = ground (arith, lookup-insert k j v d)

  pub lookup-erase :
      (k j : ℕ) (d : Assoc V) → lookup j (erase k d) ≡ (if j == k then none else lookup j d)
  unfolding lookup erase
  lookup-erase k j [] = ground arith
  lookup-erase k j ((i, w) ∷ d) = ground (arith, lookup-erase k j d)

  contains-keys-insert :
      (k j : ℕ) (v : V) (d : Assoc V)
      → contains j (keys (insert k v d)) ≡ (j == k || contains j (keys d))
  unfolding insert
  contains-keys-insert k j v [] = refl
  contains-keys-insert k j v ((i, w) ∷ d) = ground (arith, contains-keys-insert k j v d)

  -- Setting a key keeps the keys distinct.
  pub insert-IsSetList :
      (k : ℕ) (v : V) (d : Assoc V) → IsSetList (keys d) → IsSetList (keys (insert k v d))
  unfolding insert
  insert-IsSetList k v [] h = (refl, tt)
  insert-IsSetList k v ((j, w) ∷ d) h =
      ground (arith, insert-IsSetList k v d h.1, contains-keys-insert k j v d)
