-- ===== src/Missions/Lookup.antt =====
-- Laws of the mission rows: what a write of one row does to a count, a sum and a search over all.
use mathlib.Core.Path.{subst}
use aishopping_agent.Common.{
  ==→eq, inr, inl, Bool-cases, ℕ, ◌+◌, ◌≡◌, refl, Bool, true, false, not, ◌&&◌, ◌||◌, some, List,
  [], ◌∷◌, ◌==◌, count_of, any_of, find_first, All, arith,
}
use aishopping_agent.Missions.Data.{Mission, find_mission, replace_mission}

-- The primary key: no two rows have one identity.
abbrev pub HasUniqueIds : List Mission → Type 0
HasUniqueIds [] = Unit
HasUniqueIds (m ∷ ms) = All (λ x. (x.id == m.id) ≡ false) ms × HasUniqueIds ms

abbrev pub one_if : Bool → ℕ
one_if true = 1
one_if false = 0

module _ (id : ℕ) (f : Mission → Mission) where
  pub count-replace :
      (p : Mission → Bool) (ms : List Mission) {m : Mission}
      → find_mission id ms ≡ some m
      → count_of p (replace_mission id f ms) + one_if (p m) ≡ count_of p ms + one_if (p (f m))
  unfolding find_mission find_first replace_mission count_of
  count-replace p [] e = cc
  count-replace p (x ∷ ms) {m} e = ground (arith, count-replace p ms {m = m})

  pub find_mission-id : (ms : List Mission) {m : Mission} → find_mission id ms ≡ some m → m.id ≡ id
  unfolding find_mission find_first
  find_mission-id [] e = cc
  find_mission-id (x ∷ ms) {m} e = ground (arith, find_mission-id ms {m = m})

  module _ (same_id : (m : Mission) → (f m).id ≡ m.id) where
    All-replace :
        (n : ℕ) (ms : List Mission)
        → All (λ x. (x.id == n) ≡ false) ms
        → All (λ x. (x.id == n) ≡ false) (replace_mission id f ms)
    unfolding replace_mission
    All-replace n [] h = tt
    All-replace n (x ∷ ms) h = ground (arith, All-replace n ms h.1, same_id x)

    pub replace-HasUniqueIds :
        (ms : List Mission) → HasUniqueIds ms → HasUniqueIds (replace_mission id f ms)
    unfolding replace_mission
    replace-HasUniqueIds [] h = tt
    replace-HasUniqueIds (x ∷ ms) h = elim (Bool-cases (x.id == id)) [
      | inl y ↦ rw (y, same_id x) h
      | inr n ↦ rw n (All-replace x.id ms h.0, replace-HasUniqueIds ms h.1)
    ]

    pub find-replace :
        (ms : List Mission) {m : Mission}
        → find_mission id ms ≡ some m
        → find_mission id (replace_mission id f ms) ≡ some (f m)
    unfolding find_mission find_first replace_mission
    find-replace [] e = cc
    find-replace (x ∷ ms) {m} e = elim (Bool-cases (x.id == id)) [
      | inl y ↦ rw y (ground (arith, same_id x))
      | inr n ↦ rw n (ground (arith, find-replace ms {m = m}))
    ]

    -- A search that passes over the row is blind to the write.
    pub any-others-replace :
        (q : Mission → Bool) (ms : List Mission)
        → any_of (λ m. not (m.id == id) && q m) (replace_mission id f ms)
          ≡ any_of (λ m. not (m.id == id) && q m) ms
    unfolding replace_mission any_of
    any-others-replace q [] = refl
    any-others-replace q (x ∷ ms) = ground (arith, any-others-replace q ms, same_id x)

module _ (id : ℕ) (q : Mission → Bool) where
  any-none :
      (ms : List Mission)
      → All (λ x. (x.id == id) ≡ false) ms
      → any_of (λ m. not (m.id == id) && q m) ms ≡ any_of q ms
  unfolding any_of
  any-none [] h = refl
  any-none (x ∷ ms) h = ground (arith, any-none ms h.1)

  -- A search over all rows is one over a row and one over the others.
  pub any-split :
      (ms : List Mission) {m : Mission}
      → HasUniqueIds ms
      → find_mission id ms ≡ some m
      → any_of q ms ≡ (q m || any_of (λ x. not (x.id == id) && q x) ms)
  unfolding find_mission find_first any_of
  any-split [] u e = cc
  any-split (x ∷ ms) {m} u e = elim (Bool-cases (x.id == id)) [
    | inl y ↦
        ground (
          arith,
          any-none ms (subst (λ n. All (λ z. (z.id == n) ≡ false) ms) (==→eq x.id id y) u.0),
        )
    | inr n ↦ ground (arith, any-split ms {m = m} u.1)
  ]
