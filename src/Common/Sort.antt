-- ===== src/Common/Sort.antt =====
-- A stable sort by a Boolean order, for the sources' `sorted` and `min`.
use mathlib.Core.Path.{◌≡◌, refl, ap, ◌∙◌}
use mathlib.Core.Logic.{◌⊎◌, inl, inr}
use mathlib.Core.Bool.{Bool, true, false}
use mathlib.Core.List.{List, [], ◌∷◌}
use Prim.Native.Nat.{suc}
use native.Mathlib.Omega.{arith}
use aishopping_agent.Common.Tests.{if◌then◌else◌, Bool-cases}
use aishopping_agent.Common.Lists.{length, All, Elem}

module _ {A : Type 0} (le : A → A → Bool) where
  -- Before the first element that is not smaller: equal keys keep their order.
  unfoldable pub insert : A → List A → List A
  insert x [] = x ∷ []
  insert x (y ∷ ys) = let rest = insert x ys in if le x y then x ∷ y ∷ ys else y ∷ rest

  unfoldable pub sort_by : List A → List A
  unfolding insert
  sort_by [] = []
  sort_by (x ∷ xs) = insert x (sort_by xs)

  abbrev pub IsSorted : List A → Type 0
  IsSorted [] = Unit
  IsSorted (x ∷ xs) = All (λ y. le x y ≡ true) xs × IsSorted xs

module _ {A : Type 0} (le : A → A → Bool) where
  insert-Elem : (x a : A) (ys : List A) → (a ≡ x) ⊎ Elem a ys → Elem a (insert le x ys)
  unfolding insert
  insert-Elem x a [] m = m
  insert-Elem x a (y ∷ ys) m = ground (arith, insert-Elem x a ys)

  Elem-insert : (x a : A) (ys : List A) → Elem a (insert le x ys) → (a ≡ x) ⊎ Elem a ys
  unfolding insert
  Elem-insert x a [] m = m
  Elem-insert x a (y ∷ ys) m = ground (arith, Elem-insert x a ys)

  pub Elem-sort : (a : A) (xs : List A) → Elem a (sort_by le xs) → Elem a xs
  unfolding sort_by
  Elem-sort a [] m = m
  Elem-sort a (x ∷ xs) m = ground (arith, Elem-insert x a (sort_by le xs) m, Elem-sort a xs)

  pub sort-Elem : (a : A) (xs : List A) → Elem a xs → Elem a (sort_by le xs)
  unfolding sort_by
  sort-Elem a [] m = m
  sort-Elem a (x ∷ xs) m = insert-Elem x a (sort_by le xs) (go m (sort-Elem a xs))
    where
      go :
          (a ≡ x) ⊎ Elem a xs
          → (Elem a xs → Elem a (sort_by le xs))
          → (a ≡ x) ⊎ Elem a (sort_by le xs)
      go (inl q) f = inl q
      go (inr k) f = inr (f k)

  length-insert : (x : A) (ys : List A) → length (insert le x ys) ≡ suc (length ys)
  unfolding insert
  length-insert x [] = refl
  length-insert x (y ∷ ys) = ground (arith, length-insert x ys)

  pub length-sort : (xs : List A) → length (sort_by le xs) ≡ length xs
  unfolding sort_by
  length-sort [] = refl
  length-sort (x ∷ xs) = length-insert x (sort_by le xs) ∙ ap suc (length-sort xs)

-- Reflexivity is not asked for: what a strict comparison refuses one way, it grants the other.
module _ {A : Type 0} (le : A → A → Bool) (total : (a b : A) → le a b ≡ false → le b a ≡ true)
    (transitive : (a b c : A) → le a b ≡ true → le b c ≡ true → le a c ≡ true) where
  All-le_trans :
      (x y : A) (ys : List A)
      → le x y ≡ true
      → All (λ z. le y z ≡ true) ys
      → All (λ z. le x z ≡ true) ys
  All-le_trans x y [] e h = tt
  All-le_trans x y (z ∷ ys) e h = (transitive x y z e h.0, All-le_trans x y ys e h.1)

  All-insert : (P : A → Type 0) (x : A) (ys : List A) → P x → All P ys → All P (insert le x ys)
  unfolding insert
  All-insert P x [] px h = (px, tt)
  All-insert P x (y ∷ ys) px h = elim (Bool-cases (le x y)) [
    | inl e ↦ rw e (px, h)
    | inr e ↦ rw e (h.0, All-insert P x ys px h.1)
  ]

  insert-IsSorted : (x : A) (ys : List A) → IsSorted le ys → IsSorted le (insert le x ys)
  unfolding insert
  insert-IsSorted x [] h = (tt, tt)
  insert-IsSorted x (y ∷ ys) h = elim (Bool-cases (le x y)) [
    | inl e ↦ rw e ((e, All-le_trans x y ys e h.0), h)
    | inr e ↦
        rw e (All-insert (λ z. le y z ≡ true) x ys (total x y e) h.0, insert-IsSorted x ys h.1)
  ]

  pub sort-IsSorted : (xs : List A) → IsSorted le (sort_by le xs)
  unfolding sort_by
  sort-IsSorted [] = tt
  sort-IsSorted (x ∷ xs) = insert-IsSorted x (sort_by le xs) (sort-IsSorted xs)

-- Each element stands in the relation to all that come after it.
abbrev pub Ordered : {A : Type 0} → (A → A → Type 0) → List A → Type 0
Ordered R [] = Unit
Ordered R (x ∷ xs) = All (R x) xs × Ordered R xs

module _ {A : Type 0} (le : A → A → Bool) (R : A → A → Type 0)
    (sound : (a b : A) → le a b ≡ true → R a b) where
  All-sound : (a : A) (xs : List A) → All (λ y. le a y ≡ true) xs → All (R a) xs
  All-sound a [] h = tt
  All-sound a (x ∷ xs) h = (sound a x h.0, All-sound a xs h.1)

  pub IsSorted-Ordered : (xs : List A) → IsSorted le xs → Ordered R xs
  IsSorted-Ordered [] h = tt
  IsSorted-Ordered (x ∷ xs) h = (All-sound x xs h.0, IsSorted-Ordered xs h.1)
