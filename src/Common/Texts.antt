-- ===== src/Common/Texts.antt =====
-- Text as the list of its code points.
use Prim.Native.Char.{code}
use Prim.Native.String.{String}
use aishopping_agent.Common.{
  ℕ, List, [], ◌∷◌, Bool, true, false, ◌&&◌, ◌==◌, any_of, ◌≡◌, refl, sym, arith, inl, inr, Elem,
}

abbrev pub codes : String → List ℕ
codes String.[] = []
codes (String.◌∷◌ c s) = code c ∷ codes s

unfoldable pub same_text : List ℕ → List ℕ → Bool
same_text [] [] = true
same_text (a ∷ as') (b ∷ bs) = (a == b) && same_text as' bs
same_text _ _ = false

-- `t in ts`
unfoldable pub text_in : List ℕ → List (List ℕ) → Bool
unfolding same_text
text_in t ts = any_of (same_text t) ts

pub same_text_refl : (t : List ℕ) → same_text t t ≡ true
unfolding same_text
same_text_refl [] = refl
same_text_refl (c ∷ cs) = ground (arith, same_text_refl cs)

-- Texts that compare as the same are equal.
pub same_text_sound : (s t : List ℕ) → same_text s t ≡ true → s ≡ t
unfolding same_text
same_text_sound [] [] h = refl
same_text_sound [] (d ∷ ds) h = ground arith
same_text_sound (c ∷ cs) [] h = ground arith
same_text_sound (c ∷ cs) (d ∷ ds) h = ground (arith, same_text_sound cs ds)

pub text_in-Elem : (t : List ℕ) (ts : List (List ℕ)) → text_in t ts ≡ true → Elem t ts
unfolding text_in any_of
text_in-Elem t [] h = ground arith
text_in-Elem t (s ∷ ts) h = ground (arith, same_text_sound t s, text_in-Elem t ts)

pub Elem-text_in : (t : List ℕ) (ts : List (List ℕ)) → Elem t ts → text_in t ts ≡ true
unfolding text_in any_of
Elem-text_in t [] m = absurd m
Elem-text_in t (s ∷ ts) (inl q) = rw (sym q) (ground (arith, same_text_refl t))
Elem-text_in t (s ∷ ts) (inr m) = ground (arith, Elem-text_in t ts m)
