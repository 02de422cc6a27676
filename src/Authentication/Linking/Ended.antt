-- ===== src/Authentication/Linking/Ended.antt =====
-- backend/app/authentication/telegram_linking.py: a code that has come to its end stays so in the table.
use aishopping_agent.Common.{
  inl, inr, Bool-cases, ℕ, ◌≡◌, refl, Bool, true, false, not, ◌&&◌, List, [], ◌∷◌, ◌++◌, some,
  arith, map, if◌then◌else◌,
}
use aishopping_agent.Common.Texts.{same_text}
use aishopping_agent.Authentication.Linking.{
  TelegramLinkToken, is_unended, close_when, find_token, write_token,
}

-- The code of this hash has come to its end.
unfoldable pub used : List ℕ → List TelegramLinkToken → Bool
unfolding is_unended
used hash [] = false
used hash (t ∷ ts) =
    let rest = used hash ts in if same_text t.token_hash hash then not (is_unended t) else rest

close_hash :
    (p : TelegramLinkToken → Bool) (now : ℕ) (t : TelegramLinkToken)
    → (close_when p now t).token_hash ≡ t.token_hash
unfolding close_when
close_hash p now t = elim (Bool-cases (p t && is_unended t)) [
  | inl e ↦ rw e refl
  | inr e ↦ rw e refl
]

close_ended :
    (p : TelegramLinkToken → Bool) (now : ℕ) (t : TelegramLinkToken)
    → is_unended t ≡ false
    → close_when p now t ≡ t
unfolding close_when
close_ended p now t h = rw h (ground arith)

pub close_used :
    (p : TelegramLinkToken → Bool) (now : ℕ) (hash : List ℕ) (ts : List TelegramLinkToken)
    → used hash ts ≡ true
    → used hash (map (close_when p now) ts) ≡ true
unfolding used
close_used p now hash [] h = h
close_used p now hash (t ∷ ts) h = elim (Bool-cases (same_text t.token_hash hash)) [
  | inl e ↦ rw (close_hash p now t) (rw e (rw (close_ended p now t (ground arith)) (ground arith)))
  | inr e ↦ rw (close_hash p now t) (rw e (close_used p now hash ts (ground arith)))
]

pub append_used :
    (hash : List ℕ) (ts us : List TelegramLinkToken)
    → used hash ts ≡ true
    → used hash (ts ++ us) ≡ true
unfolding used
append_used hash [] us h = ground arith
append_used hash (t ∷ ts) us h = ground (arith, append_used hash ts us)

pub write_used :
    (hash other : List ℕ) (token row : TelegramLinkToken) (ts : List TelegramLinkToken)
    → find_token other ts ≡ some token
    → row.token_hash ≡ token.token_hash
    → is_unended row ≡ false
    → used hash ts ≡ true
    → used hash (write_token other row ts) ≡ true
unfolding used find_token write_token
write_used hash other token row [] f q e h = h
write_used hash other token row (t ∷ ts) f q e h =
    ground (arith, write_used hash other token row ts)

pub write_own :
    (hash : List ℕ) (token row : TelegramLinkToken) (ts : List TelegramLinkToken)
    → find_token hash ts ≡ some token
    → row.token_hash ≡ token.token_hash
    → is_unended row ≡ false
    → used hash (write_token hash row ts) ≡ true
unfolding used find_token write_token
write_own hash token row [] f q e = ground arith
write_own hash token row (t ∷ ts) f q e = ground (arith, write_own hash token row ts)

pub used_unusable :
    (hash : List ℕ) (ts : List TelegramLinkToken) (token : TelegramLinkToken)
    → used hash ts ≡ true
    → find_token hash ts ≡ some token
    → is_unended token ≡ false
unfolding used find_token
used_unusable hash [] token u f = ground arith
used_unusable hash (t ∷ ts) token u f = ground (arith, used_unusable hash ts token)
