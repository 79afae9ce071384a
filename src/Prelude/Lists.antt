-- ===== src/Prelude/Lists.antt =====
-- Lists measured by native numbers, predicates on all elements, and filters by a Boolean test.
use Prim.Native.Nat.{ℕ, suc, ◌+◌, ◌≤◌}
use mathlib.Core.Path.{◌≡◌, refl, ap, ◌∙◌}
use mathlib.Core.Logic.{inl, inr}
use mathlib.Core.Bool.{Bool, false, ◌||◌}
use mathlib.Core.List.{List, [], ◌∷◌, ◌++◌, Memᴰ, map}
use native.Mathlib.Omega.{arith}
use zxql_ai.Prelude.Tests.{if◌then◌else◌, Bool-cases}

module _ {ℓ} {A : Type ℓ} where
  abbrev pub length : List A → ℕ
  length [] = 0
  length (x ∷ xs) = suc (length xs)

  pub length-append : (xs ys : List A) → length (xs ++ ys) ≡ length xs + length ys
  length-append [] ys = omega arith
  length-append (x ∷ xs) ys = omega (arith, length-append xs ys)

  -- `xs.filter(p)`
  abbrev pub filter : (A → Bool) → List A → List A
  filter p [] = []
  filter p (x ∷ xs) = if p x then x ∷ filter p xs else filter p xs

  pub length-filter-le : (p : A → Bool) (xs : List A) → length (filter p xs) ≤ length xs
  length-filter-le p [] = omega arith
  length-filter-le p (x ∷ xs) = ground (arith, length-filter-le p xs)

  -- `xs.some(p)`
  abbrev pub any : (A → Bool) → List A → Bool
  any p [] = false
  any p (x ∷ xs) = p x || any p xs

module _ {ℓ} {A : Type ℓ} (le : A → A → Bool) where
  insert_sorted : A → List A → List A
  insert_sorted a [] = a ∷ []
  insert_sorted a (x ∷ xs) = if le a x then a ∷ x ∷ xs else x ∷ insert_sorted a xs

  -- `xs.sort(compare)`, stable, where `le a b` is `compare(a, b) <= 0`.
  unfoldable pub sort : List A → List A
  unfolding insert_sorted
  sort [] = []
  sort (x ∷ xs) = insert_sorted x (sort xs)

  insert_sorted-mem_head : (a : A) (xs : List A) → Memᴰ a (insert_sorted a xs)
  unfolding insert_sorted
  insert_sorted-mem_head a [] = Memᴰ.head refl
  insert_sorted-mem_head a (x ∷ xs) = elim (Bool-cases (le a x)) [
    | inl e ↦ rw e (Memᴰ.head refl)
    | inr e ↦ rw e (Memᴰ.tail (insert_sorted-mem_head a xs))
  ]

  insert_sorted-mem : (a b : A) (xs : List A) → Memᴰ b xs → Memᴰ b (insert_sorted a xs)
  unfolding insert_sorted
  insert_sorted-mem a b [] m = Memᴰ.tail m
  insert_sorted-mem a b (x ∷ xs) m = elim (Bool-cases (le a x)) [
    | inl e ↦ rw e (Memᴰ.tail m)
    | inr e ↦ rw e (elim m [
      | Memᴰ.head same ↦ Memᴰ.head same
      | Memᴰ.tail later ↦ Memᴰ.tail (insert_sorted-mem a b xs later)
    ])
  ]

  length-insert_sorted : (a : A) (xs : List A) → length (insert_sorted a xs) ≡ suc (length xs)
  unfolding insert_sorted
  length-insert_sorted a [] = refl
  length-insert_sorted a (x ∷ xs) = ground (arith, length-insert_sorted a xs)

  pub sort-mem : (a : A) (xs : List A) → Memᴰ a xs → Memᴰ a (sort xs)
  unfolding sort
  sort-mem a [] m = m
  sort-mem a (x ∷ xs) (Memᴰ.head e) = rw e (insert_sorted-mem_head x (sort xs))
  sort-mem a (x ∷ xs) (Memᴰ.tail m) = insert_sorted-mem x a (sort xs) (sort-mem a xs m)

  pub length-sort : (xs : List A) → length (sort xs) ≡ length xs
  unfolding sort
  length-sort [] = refl
  length-sort (x ∷ xs) = length-insert_sorted x (sort xs) ∙ ap suc (length-sort xs)

pub map-mem {ℓ κ} :
    {A : Type ℓ} {B : Type κ} (f : A → B) (a : A) (xs : List A) → Memᴰ a xs → Memᴰ (f a) (map f xs)
map-mem f a [] m = elim m [ ]
map-mem f a (x ∷ xs) (Memᴰ.head e) = Memᴰ.head (ap f e)
map-mem f a (x ∷ xs) (Memᴰ.tail m) = Memᴰ.tail (map-mem f a xs m)

module _ {ℓ κ} {A : Type ℓ} (P : A → Type κ) where
  abbrev pub All : List A → Type κ
  All [] = Unit
  All (x ∷ xs) = P x × All xs

  pub All-append : (xs ys : List A) → All xs → All ys → All (xs ++ ys)
  All-append [] ys h k = k
  All-append (x ∷ xs) ys (p, h) k = (p, All-append xs ys h k)

  pub All-filter : (p : A → Bool) (xs : List A) → All xs → All (filter p xs)
  All-filter p [] h = tt
  All-filter p (x ∷ xs) (q, h) = let ih = All-filter p xs h in ground (arith, ih)

  pub All-intro : ((x : A) → P x) → (xs : List A) → All xs
  All-intro f [] = tt
  All-intro f (x ∷ xs) = (f x, All-intro f xs)
