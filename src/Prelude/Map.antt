-- ===== src/Prelude/Map.antt =====
-- A JavaScript `Map`: an association list in insertion order, over any key with an equality.
use Prim.Native.Nat.{◌≤◌, ◌+◌}
use mathlib.Core.Path.{◌≡◌, refl}
use mathlib.Core.Logic.{inl, inr}
use mathlib.Core.Bool.{Bool}
use mathlib.Core.Option.{Option, none, some}
use mathlib.Core.List.{List, [], ◌∷◌, Memᴰ}
use native.Mathlib.Omega.{arith}
use zxql_ai.Prelude.Tests.{if◌then◌else◌, Equality, ◌==◌, beq_refl, Bool-cases}
use zxql_ai.Prelude.Lists.{length, filter}

module _ {ℓ κ} {K : Type κ} {V : Type ℓ} ⦃e : Equality K⦄ where
  -- `m.get(key)`
  unfoldable pub lookup : K → List (K × V) → Option V
  lookup key [] = none
  lookup key ((k, held) ∷ rest) = if k == key then some held else lookup key rest

  -- `m.set(key, value)`: an old key keeps its place, a new one goes to the end.
  unfoldable pub insert : K → V → List (K × V) → List (K × V)
  insert key value [] = (key, value) ∷ []
  insert key value ((k, held) ∷ rest) =
      if k == key then (k, value) ∷ rest else (k, held) ∷ insert key value rest

  -- `m.delete(key)`
  unfoldable pub delete : K → List (K × V) → List (K × V)
  delete key [] = []
  delete key ((k, held) ∷ rest) = if k == key then delete key rest else (k, held) ∷ delete key rest

  pub lookup-insert :
      (key other : K) (value : V) (m : List (K × V))
      → lookup other (insert key value m) ≡ (if key == other then some value else lookup other m)
  unfolding lookup insert
  lookup-insert key other value [] = refl
  lookup-insert key other value ((k, held) ∷ rest) = ground (
    arith,
    lookup-insert key other value rest,
    e.same_iff k other,
    e.same_iff k key,
    e.same_iff key other,
  )

  pub lookup-delete :
      (k j : K) (m : List (K × V)) → lookup j (delete k m) ≡ (if k == j then none else lookup j m)
  unfolding lookup delete
  lookup-delete k j [] = ground arith
  lookup-delete k j ((i, w) ∷ m) =
      ground (arith, e.same_iff k j, e.same_iff i k, e.same_iff i j, lookup-delete k j m)

  pub delete-insert : (k : K) (v : V) (m : List (K × V)) → delete k (insert k v m) ≡ delete k m
  unfolding delete insert
  delete-insert k v [] = ground (arith, beq_refl k)
  delete-insert k v ((j, w) ∷ m) = ground (arith, beq_refl k, e.same_iff j k, delete-insert k v m)

  pub lookup-insert_self : (k : K) (v : V) (m : List (K × V)) → lookup k (insert k v m) ≡ some v
  lookup-insert_self k v m = ground (arith, lookup-insert k k v m, beq_refl k)

  pub length-insert-le : (k : K) (v : V) (m : List (K × V)) → length (insert k v m) ≤ length m + 1
  unfolding insert
  length-insert-le k v [] = omega arith
  length-insert-le k v ((j, w) ∷ m) = ground (arith, length-insert-le k v m)

  pub length-delete-le : (k : K) (m : List (K × V)) → length (delete k m) ≤ length m
  unfolding delete
  length-delete-le k [] = omega arith
  length-delete-le k ((j, w) ∷ m) = ground (arith, length-delete-le k m)

  pub lookup-mem : (k : K) (v : V) (m : List (K × V)) → lookup k m ≡ some v → Memᴰ (k, v) m
  unfolding lookup
  lookup-mem k v [] h = cc
  lookup-mem k v ((j, w) ∷ m) h = elim (Bool-cases (j == k)) [
    | inl t ↦ let same = (e.same_iff j k).0 t in Memᴰ.head (ground arith)
    | inr t ↦ Memᴰ.tail (lookup-mem k v m (ground arith))
  ]

module _ {ℓ κ μ} {K : Type κ} {V : Type ℓ} ⦃e : Equality K⦄ (P : K → V → Type μ) where
  -- Every entry of the map.
  abbrev pub AllEntries : List (K × V) → Type μ
  AllEntries [] = Unit
  AllEntries ((k, v) ∷ m) = P k v × AllEntries m

  pub lookup-AllEntries :
      (k : K) (v : V) (m : List (K × V)) → AllEntries m → lookup k m ≡ some v → P k v
  unfolding lookup
  lookup-AllEntries k v [] a h = cc
  lookup-AllEntries k v ((j, w) ∷ m) (p, a) h = elim (Bool-cases (j == k)) [
    | inl t ↦
        let same_key = (e.same_iff j k).0 t in
        let same : w ≡ v = ground arith in rw (← same_key, ← same) p
    | inr t ↦ lookup-AllEntries k v m a (ground arith)
  ]

  pub insert-AllEntries :
      (k : K) (v : V) (m : List (K × V)) → P k v → AllEntries m → AllEntries (insert k v m)
  unfolding insert
  insert-AllEntries k v [] p a = (p, tt)
  insert-AllEntries k v ((j, w) ∷ m) p (q, a) = elim (Bool-cases (j == k)) [
    | inl t ↦ rw t (rw ((e.same_iff j k).0 t) p, a)
    | inr t ↦ rw t (q, insert-AllEntries k v m p a)
  ]

  pub delete-AllEntries : (k : K) (m : List (K × V)) → AllEntries m → AllEntries (delete k m)
  unfolding delete
  delete-AllEntries k [] a = tt
  delete-AllEntries k ((j, w) ∷ m) (q, a) =
      let ih = delete-AllEntries k m a in
      elim (Bool-cases (j == k)) [ inl t ↦ rw t ih | inr t ↦ rw t (q, ih) ]

module _ {ℓ κ} {K : Type κ} {V : Type ℓ} ⦃e : Equality K⦄ where
  -- A key stands once in the list of entries.
  abbrev pub UniqueKeys : List (K × V) → Type ℓ
  UniqueKeys [] = Unit
  UniqueKeys ((k, v) ∷ m) = (lookup k m ≡ none) × UniqueKeys m

  pub insert-UniqueKeys :
      (k : K) (v : V) (m : List (K × V)) → UniqueKeys m → UniqueKeys (insert k v m)
  unfolding insert lookup
  insert-UniqueKeys k v [] u = (refl, tt)
  insert-UniqueKeys k v ((j, w) ∷ m) (here, u) = elim (Bool-cases (j == k)) [
    | inl t ↦ rw t (here, u)
    | inr t ↦ rw t (
      ground (arith, lookup-insert k j v m, e.same_iff k j, e.same_iff j k, here),
      insert-UniqueKeys k v m u,
    )
  ]

  pub delete-UniqueKeys : (k : K) (m : List (K × V)) → UniqueKeys m → UniqueKeys (delete k m)
  unfolding delete
  delete-UniqueKeys k [] u = tt
  delete-UniqueKeys k ((j, w) ∷ m) (here, u) = elim (Bool-cases (j == k)) [
    | inl t ↦ rw t (delete-UniqueKeys k m u)
    | inr t ↦ rw t (ground (arith, lookup-delete k j m, here), delete-UniqueKeys k m u)
  ]

  pub lookup-filter-none :
      (p : K × V → Bool) (j : K) (m : List (K × V))
      → lookup j m ≡ none
      → lookup j (filter p m) ≡ none
  unfolding lookup
  lookup-filter-none p j [] h = refl
  lookup-filter-none p j ((k, v) ∷ m) h = elim (Bool-cases (k == j)) [
    | inl t ↦ absurd (ground (arith, h))
    | inr t ↦ let later = lookup-filter-none p j m (ground arith) in ground (arith, later)
  ]

  pub filter-UniqueKeys :
      (p : K × V → Bool) (m : List (K × V)) → UniqueKeys m → UniqueKeys (filter p m)
  filter-UniqueKeys p [] u = tt
  filter-UniqueKeys p ((k, v) ∷ m) (here, u) = elim (Bool-cases (p (k, v))) [
    | inl t ↦ rw t (lookup-filter-none p k m here, filter-UniqueKeys p m u)
    | inr t ↦ rw t (filter-UniqueKeys p m u)
  ]

  -- What a filter leaves at a key.
  abbrev pub kept : (K × V → Bool) → K → Option V → Option V
  kept p j none = none
  kept p j (some v) = if p (j, v) then some v else none

  pub lookup-filter :
      (p : K × V → Bool) (j : K) (m : List (K × V))
      → UniqueKeys m
      → lookup j (filter p m) ≡ kept p j (lookup j m)
  unfolding lookup
  lookup-filter p j [] u = refl
  lookup-filter p j ((k, v) ∷ m) (here, u) = elim (Bool-cases (k == j)) [
    | inl t ↦
        let same = (e.same_iff k j).0 t in
        ground (arith, same, lookup-filter-none p j m (rw same at here))
    | inr t ↦ let ih = lookup-filter p j m u in ground (arith, ih)
  ]
