-- ===== src/Collection/Funnel/Selection.antt =====
-- backend/app/collection/funnel.py: what is selected.
use mathlib.Core.Path.{subst, sym}
use aishopping_agent.Alerts.{Availability, available, unavailable, unknown}
use aishopping_agent.Collection.Funnel.Orders.{
  IsOnSale, IsPopularity, IsMorePopular, IsCheaper, IsDominant, IsBalanced, ConditionsRanked,
  condition_rank-ConditionsRanked, eligible-IsOnSale, IsOnSale-eligible,
  popularity_points-IsPopularity, popular_order-IsMorePopular, cheap_order-IsCheaper,
  dominates-IsDominant, single_out-IsBalanced, take_all,
}
use aishopping_agent.Common.{
  refl, leb, Bool-cases, keep-Elem, false, none, ◌≢◌, Option, ap, ◌∙◌, inl, inr, ◌⊎◌, ℕ, ◌≤◌, ◌≡◌,
  true, List, [], ◌∷◌, some, arith, keep, take, length, sort_by, All, All-of_Elem, Elem, Elem-sort,
  sort-Elem, sort-IsSorted, length-sort, Elem-keep,
}
use Prim.Native.Nat.{min, zero, suc}
use aishopping_agent.Collection.Funnel.{
  popularity_points, Item, FunnelSelection, eligible, popular_order, cheap_order, dominates,
  pool_of, chosen_of, select_for_ai,
}
use aishopping_agent.Collection.Funnel.Choice.{
  popular_order_total, popular_order_trans, cheap_order_total, cheap_order_trans, Elem-take,
  take_first, single_out-All, length-single_out, single_out_drops,
}

-- What a selection from `items` promises.
pub record IsSelection (items : List Item) (pool_size ai_count : ℕ) (s : FunnelSelection)
    : Type 0 where
  pub popularity : All (λ x. IsPopularity x (popularity_points x)) items
  pub conditions : ConditionsRanked
  pub pool_length : length s.pool ≤ pool_size
  pub pool_on_sale : All (λ x. Elem x items × IsOnSale x) s.pool
  pub pool_popular :
      All
        (λ x.
          (x.availability ≡ some unavailable)
          ⊎ Elem x s.pool
          ⊎ ((length s.pool ≡ pool_size) × All (λ p. IsMorePopular p x) s.pool))
        items
  pub chosen_length : length s.chosen ≤ ai_count
  pub chosen_some : (length s.pool ≡ 0) ⊎ (1 ≤ length s.chosen)
  pub chosen_pool : All (λ x. Elem x s.pool) s.chosen
  pub chosen_balanced : IsBalanced s.chosen
  pub chosen_cheap :
      All
        (λ x.
          Elem x s.chosen ⊎ All (λ c. IsCheaper c x) s.chosen ⊎ All (λ c. IsDominant c x) s.chosen)
        s.pool

All-map : {P Q : Item → Type 0} → ((x : Item) → P x → Q x) → (xs : List Item) → All P xs → All Q xs
All-map f [] h = tt
All-map f (x ∷ xs) h = (f x h.0, All-map f xs h.1)

length-take-min : {A : Type 0} → (n : ℕ) (xs : List A) → length (take n xs) ≡ min n (length xs)
length-take-min zero xs = omega arith
length-take-min (suc n) [] = omega arith
length-take-min (suc n) (x ∷ xs) = let h = length-take-min n xs in omega (arith, h)

pool_of-Popular :
    (items : List Item) (pool_size : ℕ) (x : Item)
    → Elem x (keep eligible items)
    → Elem x (pool_of items pool_size)
      ⊎ All (λ p. popular_order p x ≡ true) (pool_of items pool_size)
unfolding pool_of
pool_of-Popular items n x m =
    take_first popular_order n x (sort_by popular_order (keep eligible items))
      (sort-IsSorted popular_order popular_order_total popular_order_trans (keep eligible items))
      (sort-Elem popular_order x (keep eligible items) m)

pool_of-Eligible :
    (items : List Item) (pool_size : ℕ) (x : Item)
    → Elem x (pool_of items pool_size)
    → Elem x items × (eligible x ≡ true)
unfolding pool_of
pool_of-Eligible items n x m = Elem-keep eligible x items (
    Elem-sort popular_order x (keep eligible items)
      (Elem-take n x (sort_by popular_order (keep eligible items)) m))

chosen_of-Cheap :
    (pool : List Item) (n : ℕ) (x : Item)
    → Elem x pool
    → Elem x (chosen_of pool n)
      ⊎ All (λ c. cheap_order c x ≡ true) (chosen_of pool n)
      ⊎ All (λ c. dominates c x ≡ true) (chosen_of pool n)
unfolding chosen_of
chosen_of-Cheap pool n x m =
    elim (take_first cheap_order n x (sort_by cheap_order pool)
      (sort-IsSorted cheap_order cheap_order_total cheap_order_trans pool)
      (sort-Elem cheap_order x pool m)) [
        | inl k ↦ elim (single_out_drops x (take n (sort_by cheap_order pool)) k) [
          | inl e ↦ inl e
          | inr d ↦ inr (inr d)
        ]
        | inr k ↦ inr (
            inl
              (single_out-All (λ c. cheap_order c x ≡ true) (take n (sort_by cheap_order pool)) k))
      ]

chosen_of-Pool : (pool : List Item) (n : ℕ) → All (λ x. Elem x pool) (chosen_of pool n)
unfolding chosen_of
chosen_of-Pool pool n =
    single_out-All (λ x. Elem x pool) (take n (sort_by cheap_order pool))
      (All-of_Elem (λ x. Elem x pool) (take n (sort_by cheap_order pool))
        (λ x m. Elem-sort cheap_order x pool (Elem-take n x (sort_by cheap_order pool) m)))

length-chosen_of :
    (pool : List Item) (n : ℕ)
    → 1 ≤ n
    → (length (chosen_of pool n) ≤ n) × ((length pool ≡ 0) ⊎ (1 ≤ length (chosen_of pool n)))
unfolding chosen_of
length-chosen_of pool n h = ground (
  arith,
  length-single_out (take n (sort_by cheap_order pool)),
  length-take-min n (sort_by cheap_order pool),
  length-sort cheap_order pool,
)

length-pool_of :
    (items : List Item) (n : ℕ) → length (pool_of items n) ≡ min n (length (keep eligible items))
unfolding pool_of
length-pool_of items n =
    length-take-min n (sort_by popular_order (keep eligible items))
    ∙ ap (min n) (length-sort popular_order (keep eligible items))

availability-cases : (o : Option Availability) → (o ≡ some unavailable) ⊎ (o ≢ some unavailable)
availability-cases none = inr (λ q. cc)
availability-cases (some available) = inr (λ q. cc)
availability-cases (some unknown) = inr (λ q. cc)
availability-cases (some unavailable) = inl refl

-- An offer on sale that the pool leaves out: the pool is full.
pool_of-full :
    (items : List Item) (n : ℕ) (x : Item)
    → Elem x (keep eligible items)
    → Elem x (pool_of items n)
      ⊎ ((length (pool_of items n) ≡ n) × All (λ p. IsMorePopular p x) (pool_of items n))
unfolding pool_of
pool_of-full items n x m =
    let ranked = sort_by popular_order (keep eligible items) in
    let there = sort-Elem popular_order x (keep eligible items) m in
    elim (Bool-cases (leb (length ranked) n)) [
      | inl short ↦ inl (subst (Elem x) (sym (take_all n ranked (ground arith))) there)
      | inr long ↦ elim (pool_of-Popular items n x m) [
        | inl e ↦ inl e
        | inr h ↦ inr (
          omega (arith, length-take-min n ranked, beyond n (length ranked) long),
          All-map (λ p. popular_order-IsMorePopular p x) (pool_of items n) h,
        )
      ]
    ]
  where
    beyond : (n l : ℕ) → leb l n ≡ false → n ≤ l
    beyond n l h = ground arith

pool_of-left :
    (items : List Item) (n : ℕ) (x : Item)
    → Elem x items
    → (x.availability ≡ some unavailable)
      ⊎ Elem x (pool_of items n)
      ⊎ ((length (pool_of items n) ≡ n) × All (λ p. IsMorePopular p x) (pool_of items n))
pool_of-left items n x m = elim (availability-cases x.availability) [
  | inl e ↦ inl e
  | inr e ↦ inr (pool_of-full items n x (keep-Elem eligible x items m (IsOnSale-eligible x e)))
]

chosen_of-IsBalanced : (pool : List Item) (n : ℕ) → IsBalanced (chosen_of pool n)
unfolding chosen_of
chosen_of-IsBalanced pool n = single_out-IsBalanced (take n (sort_by cheap_order pool))

chosen_of-left :
    (pool : List Item) (n : ℕ) (x : Item)
    → Elem x pool
    → Elem x (chosen_of pool n)
      ⊎ All (λ c. IsCheaper c x) (chosen_of pool n)
      ⊎ All (λ c. IsDominant c x) (chosen_of pool n)
chosen_of-left pool n x m = elim (chosen_of-Cheap pool n x m) [
  | inl e ↦ inl e
  | inr (inl h) ↦ inr (inl (All-map (λ c. cheap_order-IsCheaper c x) (chosen_of pool n) h))
  | inr (inr h) ↦ inr (inr (All-map (λ c. dominates-IsDominant c x) (chosen_of pool n) h))
]

-- With positive sizes a selection is made. Its pool has at most the given size and holds only offers that
-- are not unavailable; it leaves such an offer out only when it is full of offers that go before it by
-- points (the rating times the reviews), sales, price and identity. At most the given number are
-- chosen, one at least where the pool has any, all from the pool; of exactly two chosen none has
-- points and at least three times the other's; and an offer of the pool that is not chosen comes after
-- every chosen one by condition, price, points and identity, or every chosen one has points and at
-- least three times its own.
pub select_for_ai-IsSelection :
    (items : List Item) (pool_size ai_count : ℕ)
    → 1 ≤ pool_size
    → 1 ≤ ai_count
    → (s : FunnelSelection) × (select_for_ai items pool_size ai_count ≡ some s)
      × IsSelection items pool_size ai_count s
unfolding select_for_ai
select_for_ai-IsSelection items pool_size ai_count p a = (
  record { pool = pool_of items pool_size; chosen = chosen_of (pool_of items pool_size) ai_count },
  ground arith,
  record {
    popularity = All-of_Elem _ items (λ x m. popularity_points-IsPopularity x);
    conditions = condition_rank-ConditionsRanked;
    pool_length = omega (arith, length-pool_of items pool_size);
    pool_on_sale = All-of_Elem _ (pool_of items pool_size) (λ x m.
        let (listed, eligible) = pool_of-Eligible items pool_size x m in
        (listed, eligible-IsOnSale x eligible));
    pool_popular = All-of_Elem _ items (pool_of-left items pool_size);
    chosen_length = (length-chosen_of (pool_of items pool_size) ai_count a).0;
    chosen_some = (length-chosen_of (pool_of items pool_size) ai_count a).1;
    chosen_pool = chosen_of-Pool (pool_of items pool_size) ai_count;
    chosen_balanced = chosen_of-IsBalanced (pool_of items pool_size) ai_count;
    chosen_cheap =
        All-of_Elem _ (pool_of items pool_size) (chosen_of-left (pool_of items pool_size) ai_count);
  },
)
