-- ===== src/Prelude/Assoc.antt =====
-- Python's dict as the list of its items, in insertion order.
use mathlib.Core.Path.{◌≡◌, refl}
use mathlib.Core.Logic.{◌≢◌}
use mathlib.Core.Option.{Option, none, some}
use mathlib.Core.List.{List, [], ◌∷◌}
use native.Mathlib.Omega.{arith}
use gaussian_os.Prelude.Tests.{if◌then◌else◌}
use gaussian_os.Prelude.Equality.{Eq, ◌==◌, eq_self}

module _ {ℓ κ} {K : Type ℓ} {V : Type κ} ⦃e : Eq K⦄ where
  -- d.get(k)
  abbrev pub lookup : K → List (K × V) → Option V
  lookup k [] = none
  lookup k ((j, v) ∷ items) = if k == j then some v else lookup k items

  -- d[k] = v
  abbrev pub insert : K → V → List (K × V) → List (K × V)
  insert k v [] = (k, v) ∷ []
  insert k v (item ∷ items) = if k == item.0 then (k, v) ∷ items else item ∷ insert k v items

  -- d.pop(k, None)
  abbrev pub remove : K → List (K × V) → List (K × V)
  remove k [] = []
  remove k (item ∷ items) = if k == item.0 then items else item ∷ remove k items

  -- Drops every item of the key, in a table that has one at most.
  abbrev pub without : K → List (K × V) → List (K × V)
  without k [] = []
  without k (item ∷ items) = let rest = without k items in if k == item.0 then rest else item ∷ rest

  pub lookup-without :
      (k j : K) (items : List (K × V))
      → lookup j (without k items) ≡ (if j == k then none else lookup j items)
  lookup-without k j [] = ground arith
  lookup-without k j ((i, w) ∷ items) =
      ground (
        arith,
        e.beq_iff k j,
        e.beq_iff j k,
        e.beq_iff k i,
        e.beq_iff j i,
        lookup-without k j items,
      )

  pub lookup-insert :
      (k j : K) (v : V) (items : List (K × V))
      → lookup j (insert k v items) ≡ (if j == k then some v else lookup j items)
  lookup-insert k j v [] = refl
  lookup-insert k j v ((i, w) ∷ items) =
      ground (
        arith,
        e.beq_iff k j,
        e.beq_iff j k,
        e.beq_iff k i,
        e.beq_iff j i,
        lookup-insert k j v items,
      )

  pub lookup-insert_self :
      (k : K) (v : V) (items : List (K × V)) → lookup k (insert k v items) ≡ some v
  lookup-insert_self k v items = ground (arith, lookup-insert k k v items, eq_self k)

  pub lookup-insert_ne :
      (k j : K) (v : V) (items : List (K × V))
      → j ≢ k
      → lookup j (insert k v items) ≡ lookup j items
  lookup-insert_ne k j v items ne = ground (arith, lookup-insert k j v items, e.beq_iff j k)

  pub lookup-remove_ne :
      (k j : K) (items : List (K × V)) → j ≢ k → lookup j (remove k items) ≡ lookup j items
  lookup-remove_ne k j [] ne = refl
  lookup-remove_ne k j ((i, w) ∷ items) ne =
      ground (arith, e.beq_iff k i, e.beq_iff j i, lookup-remove_ne k j items)
