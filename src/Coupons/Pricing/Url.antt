-- ===== src/Coupons/Pricing/Url.antt =====
-- backend/app/coupons/pricing.py: `normalize_offer_url` and `is_coupon_applicable`, over the parts
-- that `urllib.parse` and `str.lower` give.
use aishopping_agent.Common.{
  ℕ, Bool, true, false, not, ◌||◌, Option, none, some, List, [], ◌∷◌, ◌==◌, if◌then◌else◌, keep,
}
use aishopping_agent.Common.Texts.{codes, same_text, text_in}
use aishopping_agent.Coupons.Pricing.{Coupon, ScopeKind, store_wide, product}

-- What `urlsplit` returns, as far as it is used.
pub record SplitUrl : Type 0 where
  pub hostname : Option (List ℕ)
  pub path : List ℕ
  pub query : List ℕ

-- The functions of the standard library, none of which is known here.
pub record UrlLib : Type 0 where
  pub urlsplit : List ℕ → SplitUrl
  pub parse_qsl : List ℕ → List (List ℕ × List ℕ)
  pub urlencode : List (List ℕ × List ℕ) → List ℕ
  pub urlunsplit : List ℕ → List ℕ → List ℕ → List ℕ → List ℕ → List ℕ
  pub lower : List ℕ → List ℕ

abbrev tracking_query_keys : List (List ℕ)
tracking_query_keys =
    codes "utm_source"
    ∷ codes "utm_medium"
    ∷ codes "utm_campaign"
    ∷ codes "utm_term"
    ∷ codes "utm_content"
    ∷ codes "utm_id"
    ∷ codes "gclid"
    ∷ codes "fbclid"
    ∷ codes "msclkid"
    ∷ codes "igshid"
    ∷ codes "mc_cid"
    ∷ codes "mc_eid"
    ∷ []

-- `text.removeprefix(prefix)`
strip_prefix : List ℕ → List ℕ → Option (List ℕ)
strip_prefix [] t = some t
strip_prefix (p ∷ ps) [] = none
strip_prefix (p ∷ ps) (c ∷ cs) = let rest = strip_prefix ps cs in if p == c then rest else none

text_or : Option (List ℕ) → List ℕ → List ℕ
text_or none d = d
text_or (some t) d = t

pub removeprefix : List ℕ → List ℕ → List ℕ
unfolding strip_prefix text_or
removeprefix p t = text_or (strip_prefix p t) t

-- `text.rstrip("/")`
push_unless_slash : ℕ → List ℕ → List ℕ
push_unless_slash c [] = if c == b'/' then [] else c ∷ []
push_unless_slash c (x ∷ xs) = c ∷ x ∷ xs

pub rstrip_slash : List ℕ → List ℕ
unfolding push_unless_slash
rstrip_slash [] = []
rstrip_slash (c ∷ cs) = push_unless_slash c (rstrip_slash cs)

-- `text or default`
non_empty_or : List ℕ → List ℕ → List ℕ
non_empty_or [] d = d
non_empty_or (x ∷ xs) d = x ∷ xs

module _ (l : UrlLib) where
  pub is_tracking : List ℕ × List ℕ → Bool
  is_tracking (key, value) = text_in (l.lower key) tracking_query_keys

  normalize_split : SplitUrl → List ℕ
  unfolding removeprefix rstrip_slash non_empty_or is_tracking text_or
  normalize_split parsed =
      l.urlunsplit (codes "https")
        (removeprefix (codes "www.") (l.lower (text_or parsed.hostname [])))
        (non_empty_or (rstrip_slash parsed.path) (codes "/"))
        (l.urlencode (keep (λ kv. not (is_tracking kv)) (l.parse_qsl parsed.query))) []

  pub normalize_offer_url : List ℕ → List ℕ
  unfolding normalize_split
  normalize_offer_url [] = []
  normalize_offer_url (c ∷ cs) = normalize_split (l.urlsplit (c ∷ cs))

  is_empty_text : Option (List ℕ) → Bool
  is_empty_text none = true
  is_empty_text (some []) = true
  is_empty_text (some (c ∷ cs)) = false

  applies_to : Option ScopeKind → Coupon → List ℕ → Bool
  unfolding is_empty_text text_or
  applies_to (some store_wide) c url = true
  applies_to (some product) c url =
      if is_empty_text c.scope_reference || is_empty_text (some url)
      then false
      else same_text (normalize_offer_url (text_or c.scope_reference [])) (normalize_offer_url url)
  applies_to _ c url = false

  -- The second argument is the URL of the offer.
  unfoldable pub is_coupon_applicable : Coupon → List ℕ → Bool
  unfolding applies_to
  is_coupon_applicable c url = if not c.is_active then false else applies_to c.scope_kind c url
