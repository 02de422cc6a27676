-- ===== src/Collection/Funnel/Choice.antt =====
-- backend/app/collection/funnel.py: the two orders of the funnel, what the first of a sorted list
-- are, and what the last step drops.
use aishopping_agent.Common.{
  leb, Bool-cases, ap, ◌∙◌, inl, inr, ◌⊎◌, ℕ, zero, suc, ◌≤◌, ◌≡◌, refl, Bool, true, false, List,
  [], ◌∷◌, arith, take, length, All, Elem, IsSorted, All-elem,
}
use aishopping_agent.Purchase.Comparison.{leb_text}
use aishopping_agent.Collection.Funnel.{
  leb, dominates, single_out, sales_count, condition_rank, popularity_points, Item, identity,
  key_then, popular_order, cheap_order,
}

leb_text_total : (a b : List ℕ) → leb_text a b ≡ false → leb_text b a ≡ true
unfolding leb_text
leb_text_total [] b h = ground arith
leb_text_total (x ∷ a) [] h = refl
leb_text_total (x ∷ a) (y ∷ b) h = ground (arith, leb_text_total a b)

leb_text_trans : (a b c : List ℕ) → leb_text a b ≡ true → leb_text b c ≡ true → leb_text a c ≡ true
unfolding leb_text
leb_text_trans [] b c h k = refl
leb_text_trans (x ∷ a) [] c h k = ground arith
leb_text_trans (x ∷ a) (y ∷ b) [] h k = ground arith
leb_text_trans (x ∷ a) (y ∷ b) (z ∷ c) h k = ground (arith, leb_text_trans a b c)

key_then_total :
    (a b : ℕ) (p q : Bool) → (p ≡ false → q ≡ true) → key_then a b p ≡ false → key_then b a q ≡ true
unfolding key_then
key_then_total a b p q f h = ground (arith, f)

key_then_trans :
    (a b c : ℕ) (p q r : Bool)
    → (p ≡ true → q ≡ true → r ≡ true)
    → key_then a b p ≡ true
    → key_then b c q ≡ true
    → key_then a c r ≡ true
unfolding key_then
key_then_trans a b c p q r f h k = ground (arith, f)

-- The same where the key is turned around.
key_then_trans_back :
    (a b c : ℕ) (p q r : Bool)
    → (p ≡ true → q ≡ true → r ≡ true)
    → key_then b a p ≡ true
    → key_then c b q ≡ true
    → key_then c a r ≡ true
unfolding key_then
key_then_trans_back a b c p q r f h k = ground (arith, f)

-- The two orders have three numbers and a text for a key.
keys_total :
    (a b c d e f : ℕ) (s t : List ℕ)
    → key_then a b (key_then c d (key_then e f (leb_text s t))) ≡ false
    → key_then b a (key_then d c (key_then f e (leb_text t s))) ≡ true
keys_total a b c d e f s t =
    key_then_total a b _ _ (key_then_total c d _ _ (key_then_total e f _ _ (leb_text_total s t)))

pub popular_order_total : (a b : Item) → popular_order a b ≡ false → popular_order b a ≡ true
unfolding popular_order
popular_order_total a b =
    keys_total (popularity_points b) (popularity_points a) (sales_count b) (sales_count a)
      a.total_amount b.total_amount (identity a) (identity b)

pub popular_order_trans :
    (a b c : Item) → popular_order a b ≡ true → popular_order b c ≡ true → popular_order a c ≡ true
unfolding popular_order
popular_order_trans a b c h k =
    key_then_trans_back (popularity_points a) (popularity_points b) (popularity_points c) _ _ _
      (key_then_trans_back (sales_count a) (sales_count b) (sales_count c) _ _ _ (
        key_then_trans a.total_amount b.total_amount c.total_amount _ _ _
          (leb_text_trans (identity a) (identity b) (identity c))))
      h k

pub cheap_order_total : (a b : Item) → cheap_order a b ≡ false → cheap_order b a ≡ true
unfolding cheap_order
cheap_order_total a b =
    keys_total (condition_rank a.condition) (condition_rank b.condition) a.total_amount
      b.total_amount (popularity_points b) (popularity_points a) (identity a) (identity b)

pub cheap_order_trans :
    (a b c : Item) → cheap_order a b ≡ true → cheap_order b c ≡ true → cheap_order a c ≡ true
unfolding cheap_order
cheap_order_trans a b c =
    key_then_trans (condition_rank a.condition) (condition_rank b.condition)
      (condition_rank c.condition) _ _ _
      (key_then_trans a.total_amount b.total_amount c.total_amount _ _ _ (
        key_then_trans_back (popularity_points a) (popularity_points b) (popularity_points c) _ _ _
          (leb_text_trans (identity a) (identity b) (identity c))))

pub length-take : {A : Type 0} → (n : ℕ) (xs : List A) → length (take n xs) ≤ n
length-take zero xs = omega arith
length-take (suc n) [] = omega arith
length-take (suc n) (x ∷ xs) = ground (arith, length-take n xs)

pub Elem-take : {A : Type 0} → (n : ℕ) (a : A) (xs : List A) → Elem a (take n xs) → Elem a xs
Elem-take zero a xs m = absurd m
Elem-take (suc n) a [] m = absurd m
Elem-take (suc n) a (x ∷ xs) (inl e) = inl e
Elem-take (suc n) a (x ∷ xs) (inr m) = inr (Elem-take n a xs m)

-- What is not among the first comes after all of them.
pub take_first :
    {A : Type 0}
    → (le : A → A → Bool) (n : ℕ) (a : A) (xs : List A) → IsSorted le xs
    → Elem a xs
    → Elem a (take n xs) ⊎ All (λ y. le y a ≡ true) (take n xs)
take_first le zero a xs s m = inr tt
take_first le (suc n) a [] s m = absurd m
take_first le (suc n) a (x ∷ xs) s (inl e) = inl (inl e)
take_first le (suc n) a (x ∷ xs) s (inr m) = elim (take_first le n a xs s.1 m) [
  | inl k ↦ inl (inr k)
  | inr k ↦ inr (All-elem (λ y. le x y ≡ true) a xs s.0 m, k)
]

pub single_out-All : (P : Item → Type 0) (xs : List Item) → All P xs → All P (single_out xs)
unfolding single_out
single_out-All P [] h = h
single_out-All P (a ∷ []) h = h
single_out-All P (a ∷ b ∷ []) h =
    elim (Bool-cases (leb (popularity_points b) (popularity_points a))) [
      | inl e ↦ rw e (elim (Bool-cases (dominates a b)) [ inl d ↦ rw d (h.0, tt) | inr d ↦ rw d h ])
      | inr e ↦
          rw e (elim (Bool-cases (dominates b a)) [ inl d ↦ rw d (h.1.0, tt) | inr d ↦ rw d h ])
    ]
single_out-All P (a ∷ b ∷ c ∷ xs) h = h

pub length-single_out :
    (xs : List Item)
    → (length (single_out xs) ≤ length xs) × ((length xs ≡ 0) ⊎ (1 ≤ length (single_out xs)))
unfolding single_out
length-single_out [] = (omega arith, inl refl)
length-single_out (a ∷ []) = (omega arith, inr (omega arith))
length-single_out (a ∷ b ∷ []) = ground arith
length-single_out (a ∷ b ∷ c ∷ xs) = (omega arith, inr (omega arith))

pub single_out_drops :
    (x : Item) (xs : List Item)
    → Elem x xs
    → Elem x (single_out xs) ⊎ All (λ c. dominates c x ≡ true) (single_out xs)
unfolding single_out
single_out_drops x [] m = inl m
single_out_drops x (a ∷ []) m = inl m
single_out_drops x (a ∷ b ∷ []) (inl q) =
    elim (Bool-cases (leb (popularity_points b) (popularity_points a))) [
      | inl e ↦ rw e (elim (Bool-cases (dominates a b)) [
        | inl d ↦ rw d (inl (inl q))
        | inr d ↦ rw d (inl (inl q))
      ])
      | inr e ↦ rw e (elim (Bool-cases (dominates b a)) [
        | inl d ↦ rw d (inr (ap (dominates b) q ∙ d, tt))
        | inr d ↦ rw d (inl (inl q))
      ])
    ]
single_out_drops x (a ∷ b ∷ []) (inr (inl q)) =
    elim (Bool-cases (leb (popularity_points b) (popularity_points a))) [
      | inl e ↦ rw e (elim (Bool-cases (dominates a b)) [
        | inl d ↦ rw d (inr (ap (dominates a) q ∙ d, tt))
        | inr d ↦ rw d (inl (inr (inl q)))
      ])
      | inr e ↦ rw e (elim (Bool-cases (dominates b a)) [
        | inl d ↦ rw d (inl (inl q))
        | inr d ↦ rw d (inl (inr (inl q)))
      ])
    ]
single_out_drops x (a ∷ b ∷ []) (inr (inr m)) = absurd m
single_out_drops x (a ∷ b ∷ c ∷ xs) m = inl m
