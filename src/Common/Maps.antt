-- ===== src/Common/Maps.antt =====
-- A `DashMap` or `HashMap` as an association list. Nothing depends on the order of its entries,
-- which the program leaves to the map; the laws are stated on `lookup`.
use Prim.Native.Nat.{◌+◌, ◌≤◌}
use mathlib.Core.Path.{◌≡◌, refl}
use mathlib.Core.Bool.{Bool}
use mathlib.Core.List.{List, [], ◌∷◌, map}
use mathlib.Core.Option.{Option, none, some}
use native.Mathlib.Omega.{arith}
use dendri_server.Common.Tests.{if◌then◌else◌, is_some, map_some}
use dendri_server.Common.Keys.{Eq, ◌==◌}
use dendri_server.Common.Lists.{length}

abbrev pub Map {ℓ κ} : Type ℓ → Type κ → Type (ℓ ⊔ κ)
Map K V = List (K × V)

module _ {ℓ κ} {K : Type ℓ} {V : Type κ} ⦃e : Eq K⦄ where
  unfoldable pub lookup : K → Map K V → Option V
  lookup k [] = none
  lookup k (b ∷ m) = if b.0 == k then some b.1 else lookup k m

  unfoldable pub insert : K → V → Map K V → Map K V
  insert k v [] = (k, v) ∷ []
  insert k v (b ∷ m) = if b.0 == k then (k, v) ∷ m else b ∷ insert k v m

  unfoldable pub remove : K → Map K V → Map K V
  remove k [] = []
  remove k (b ∷ m) = if b.0 == k then remove k m else b ∷ remove k m

  -- The write through `get_mut`.
  unfoldable pub adjust : K → (V → V) → Map K V → Map K V
  adjust k f [] = []
  adjust k f (b ∷ m) = if b.0 == k then (b.0, f b.1) ∷ m else b ∷ adjust k f m

  unfoldable pub retain : (K → Bool) → Map K V → Map K V
  retain p [] = []
  retain p (b ∷ m) = if p b.0 then b ∷ retain p m else retain p m

  abbrev pub contains_key : K → Map K V → Bool
  contains_key k m = is_some (lookup k m)

  abbrev pub keys : Map K V → List K
  keys = map (λ b. b.0)

  pub lookup-insert :
      (k j : K) (v : V) (m : Map K V)
      → lookup j (insert k v m) ≡ (if k == j then some v else lookup j m)
  unfolding lookup insert
  lookup-insert k j v [] = refl
  lookup-insert k j v (b ∷ m) =
      ground (arith, e.beq_iff k j, e.beq_iff b.0 k, e.beq_iff b.0 j, lookup-insert k j v m)

  pub lookup-remove :
      (k j : K) (m : Map K V) → lookup j (remove k m) ≡ (if k == j then none else lookup j m)
  unfolding lookup remove
  lookup-remove k j [] = ground arith
  lookup-remove k j (b ∷ m) =
      ground (arith, e.beq_iff k j, e.beq_iff b.0 k, e.beq_iff b.0 j, lookup-remove k j m)

  pub lookup-adjust :
      (k j : K) (f : V → V) (m : Map K V)
      → lookup j (adjust k f m) ≡ (if k == j then map_some f (lookup j m) else lookup j m)
  unfolding lookup adjust
  lookup-adjust k j f [] = ground arith
  lookup-adjust k j f (b ∷ m) =
      ground (arith, e.beq_iff k j, e.beq_iff b.0 k, e.beq_iff b.0 j, lookup-adjust k j f m)

  pub lookup-retain :
      (p : K → Bool) (j : K) (m : Map K V)
      → lookup j (retain p m) ≡ (if p j then lookup j m else none)
  unfolding lookup retain
  lookup-retain p j [] = ground arith
  lookup-retain p j (b ∷ m) = ground (arith, e.beq_iff b.0 j, lookup-retain p j m)

  pub length-insert :
      (k : K) (v : V) (m : Map K V)
      → length (insert k v m) ≡ (if is_some (lookup k m) then length m else length m + 1)
  unfolding lookup insert
  length-insert k v [] = omega arith
  length-insert k v (b ∷ m) = ground (arith, length-insert k v m)

  pub length-remove-le : (k : K) (m : Map K V) → length (remove k m) ≤ length m
  unfolding remove
  length-remove-le k [] = omega arith
  length-remove-le k (b ∷ m) = ground (arith, length-remove-le k m)

  pub length-adjust : (k : K) (f : V → V) (m : Map K V) → length (adjust k f m) ≡ length m
  unfolding adjust
  length-adjust k f [] = refl
  length-adjust k f (b ∷ m) = ground (arith, length-adjust k f m)

  -- Each key stands once.
  abbrev pub IsDistinct : Map K V → Type κ
  IsDistinct [] = Unit
  IsDistinct (b ∷ m) = (lookup b.0 m ≡ none) × IsDistinct m

  pub insert-IsDistinct : (k : K) (v : V) (m : Map K V) → IsDistinct m → IsDistinct (insert k v m)
  unfolding insert lookup
  insert-IsDistinct k v [] d = (refl, tt)
  insert-IsDistinct k v (b ∷ m) d = ground (
    arith,
    e.beq_iff b.0 k,
    e.beq_iff k b.0,
    lookup-insert k b.0 v m,
    insert-IsDistinct k v m d.1,
  )

  pub remove-IsDistinct : (k : K) (m : Map K V) → IsDistinct m → IsDistinct (remove k m)
  unfolding remove lookup
  remove-IsDistinct k [] d = tt
  remove-IsDistinct k (b ∷ m) d = ground (arith, lookup-remove k b.0 m, remove-IsDistinct k m d.1)

  pub adjust-IsDistinct :
      (k : K) (f : V → V) (m : Map K V) → IsDistinct m → IsDistinct (adjust k f m)
  unfolding adjust lookup
  adjust-IsDistinct k f [] d = tt
  adjust-IsDistinct k f (b ∷ m) d =
      ground (arith, e.beq_iff b.0 k, lookup-adjust k b.0 f m, adjust-IsDistinct k f m d.1)

  remove_absent : (k : K) (m : Map K V) → lookup k m ≡ none → remove k m ≡ m
  unfolding remove lookup
  remove_absent k [] h = refl
  remove_absent k (b ∷ m) h = ground (arith, remove_absent k m)

  -- Removing a key that is there takes one entry away.
  pub length-remove :
      (k : K) (m : Map K V)
      → IsDistinct m
      → length m ≡ (if is_some (lookup k m) then length (remove k m) + 1 else length (remove k m))
  unfolding remove lookup
  length-remove k [] d = refl
  length-remove k (b ∷ m) d =
      ground (arith, e.beq_iff b.0 k, remove_absent k m, length-remove k m d.1)

pub ruleset map_laws = (lookup-insert, lookup-remove, lookup-adjust, lookup-retain)
