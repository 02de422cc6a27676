-- ===== src/Authentication/Linking/Used.antt =====
-- backend/app/authentication/telegram_linking.py: a code that has linked an account, or that was
-- refused for one, never links again.
use aishopping_agent.Common.{
  inl, inr, Bool-cases, ℕ, ◌≡◌, ◌≢◌, refl, true, not, ◌&&◌, ◌||◌, ◌==◌, ltb, length, List, [], ◌∷◌,
  Option, none, some, arith, map,
}
use aishopping_agent.Authentication.Linking.{
  User, TelegramLinkToken, Db, invalid_code, err, is_unended, token_is_usable, new_token,
  close_when, invalidate_of, invalidate_others, find_token, write_token, unlink_telegram,
  issue_telegram_link, refuse_token, link_target, use_token, complete_telegram_link, is_empty,
  find_user, find_linked,
}
use aishopping_agent.Authentication.Linking.Ended.{
  append_used, close_used, used, used_unusable, write_own, write_used,
}

-- A call of a history: a code is asked for, tried, or the account is unlinked.
pub data Call : Type 0 where
  issue : User → (token_id : ℕ) → List ℕ → (now : ℕ) → Call
  complete : List ℕ → (telegram chat now : ℕ) → Call
  unlink : User → (now : ℕ) → Call

link_target-used :
    (hash other : List ℕ) (token : TelegramLinkToken) (telegram chat now : ℕ)
    (target linked : Option User) (db : Db)
    → find_token other db.tokens ≡ some token
    → used hash db.tokens ≡ true
    → used hash (link_target other token telegram chat now target linked db).db.tokens ≡ true
unfolding link_target refuse_token invalidate_others is_unended
link_target-used hash other token telegram chat now none linked db f u =
    write_used hash other token (record token { invalidated_at = some now }) db.tokens f refl
      (ground arith) u
link_target-used hash other token telegram chat now (some target) linked db f u = ground (
  arith,
  write_used hash other token (record token { invalidated_at = some now }) db.tokens f refl
      (ground arith) u,
  close_used (λ t. t.user_id == target.id && not (t.id == token.id)) now hash
      (write_token other (record token { consumed_at = some now }) db.tokens)
      (write_used hash other token (record token { consumed_at = some now }) db.tokens f refl refl
        u),
)

link_target_own :
    (hash : List ℕ) (token : TelegramLinkToken) (telegram chat now : ℕ)
    (target linked : Option User) (db : Db)
    → find_token hash db.tokens ≡ some token
    → used hash (link_target hash token telegram chat now target linked db).db.tokens ≡ true
unfolding link_target refuse_token invalidate_others is_unended
link_target_own hash token telegram chat now none linked db f =
    write_own hash token (record token { invalidated_at = some now }) db.tokens f refl
      (ground arith)
link_target_own hash token telegram chat now (some target) linked db f = ground (
  arith,
  write_own hash token (record token { invalidated_at = some now }) db.tokens f refl (ground arith),
  close_used (λ t. t.user_id == target.id && not (t.id == token.id)) now hash
      (write_token hash (record token { consumed_at = some now }) db.tokens)
      (write_own hash token (record token { consumed_at = some now }) db.tokens f refl refl),
)

use_token-used :
    (hash other : List ℕ) (telegram chat now : ℕ) (token : Option TelegramLinkToken) (db : Db)
    → find_token other db.tokens ≡ token
    → used hash db.tokens ≡ true
    → used hash (use_token other telegram chat now token db).db.tokens ≡ true
unfolding use_token
use_token-used hash other telegram chat now none db f u = u
use_token-used hash other telegram chat now (some t) db f u = ground (
  arith,
  link_target-used hash other t telegram chat now (find_user t.user_id db.users)
      (find_linked telegram db.users) db f u,
)

use_token_own :
    (hash : List ℕ) (telegram chat now : ℕ) (token : Option TelegramLinkToken) (db : Db)
    → find_token hash db.tokens ≡ token
    → (use_token hash telegram chat now token db).result ≢ err invalid_code
    → used hash (use_token hash telegram chat now token db).db.tokens ≡ true
unfolding use_token
use_token_own hash telegram chat now none db f n = absurd (n refl)
use_token_own hash telegram chat now (some t) db f n = ground (
  arith,
  link_target_own hash t telegram chat now (find_user t.user_id db.users)
      (find_linked telegram db.users) db f,
)

use_token_again :
    (hash : List ℕ) (telegram chat now : ℕ) (token : Option TelegramLinkToken) (db : Db)
    → find_token hash db.tokens ≡ token
    → used hash db.tokens ≡ true
    → use_token hash telegram chat now token db ≡ record { result = err invalid_code; db = db }
unfolding use_token token_is_usable
use_token_again hash telegram chat now none db f u = refl
use_token_again hash telegram chat now (some t) db f u =
    rw (used_unusable hash db.tokens t u f) (ground arith)

module _ (token_digest : List ℕ → List ℕ) where
  unfoldable pub step : Call → Db → Db
  step (issue user token_id raw now) db =
      (issue_telegram_link token_digest user token_id raw now db).db
  step (complete raw telegram chat now) db =
      (complete_telegram_link token_digest raw telegram chat now db).db
  step (unlink user now) db = unlink_telegram user now db

  unfoldable pub run : List Call → Db → Db
  unfolding step
  run [] db = db
  run (c ∷ cs) db = run cs (step c db)

  issue_used :
      (hash : List ℕ) (user : User) (token_id : ℕ) (raw : List ℕ) (now : ℕ) (db : Db)
      → used hash db.tokens ≡ true
      → used hash (issue_telegram_link token_digest user token_id raw now db).db.tokens ≡ true
  unfolding issue_telegram_link invalidate_of
  issue_used hash user token_id raw now db u = ground (
    arith,
    append_used hash (map (close_when (λ t. t.user_id == user.id) now) db.tokens)
        (new_token token_id (token_digest raw) user.id now ∷ [])
        (close_used (λ t. t.user_id == user.id) now hash db.tokens u),
  )

  complete_used :
      (hash raw : List ℕ) (telegram chat now : ℕ) (db : Db)
      → used hash db.tokens ≡ true
      → used hash (complete_telegram_link token_digest raw telegram chat now db).db.tokens ≡ true
  unfolding complete_telegram_link
  complete_used hash raw telegram chat now db u = ground (
    arith,
    use_token-used hash (token_digest raw) telegram chat now
        (find_token (token_digest raw) db.tokens) db refl u,
  )

  step-used :
      (hash : List ℕ) (c : Call) (db : Db)
      → used hash db.tokens ≡ true
      → used hash (step c db).tokens ≡ true
  unfolding step unlink_telegram invalidate_of
  step-used hash (issue user token_id raw now) db u = issue_used hash user token_id raw now db u
  step-used hash (complete raw telegram chat now) db u =
      complete_used hash raw telegram chat now db u
  step-used hash (unlink user now) db u =
      close_used (λ t. t.user_id == user.id) now hash db.tokens u

  run-used :
      (hash : List ℕ) (cs : List Call) (db : Db)
      → used hash db.tokens ≡ true
      → used hash (run cs db).tokens ≡ true
  unfolding run
  run-used hash [] db u = u
  run-used hash (c ∷ cs) db u = run-used hash cs (step c db) (step-used hash c db u)

  complete_own :
      (raw : List ℕ) (telegram chat now : ℕ) (db : Db)
      → (complete_telegram_link token_digest raw telegram chat now db).result ≢ err invalid_code
      → used
          (token_digest raw)
          (complete_telegram_link token_digest raw telegram chat now db).db.tokens
        ≡ true
  unfolding complete_telegram_link
  complete_own raw telegram chat now db n =
      elim (Bool-cases (is_empty raw || ltb 128 (length raw) || not (telegram == chat))) [
        | inl e ↦ absurd (n (rw e refl))
        | inr e ↦ rw e (
            use_token_own (token_digest raw) telegram chat now
              (find_token (token_digest raw) db.tokens) db refl (λ q. n (rw e q)))
      ]

  complete_again :
      (raw : List ℕ) (telegram chat now : ℕ) (db : Db)
      → used (token_digest raw) db.tokens ≡ true
      → complete_telegram_link token_digest raw telegram chat now db
        ≡ record { result = err invalid_code; db = db }
  unfolding complete_telegram_link
  complete_again raw telegram chat now db u =
      elim (Bool-cases (is_empty raw || ltb 128 (length raw) || not (telegram == chat))) [
        | inl e ↦ rw e refl
        | inr e ↦ rw e (
            use_token_again (token_digest raw) telegram chat now
              (find_token (token_digest raw) db.tokens) db refl u)
      ]

  -- A code that has linked an account, or was found good and then refused for its account, is from
  -- then on answered as an invalid code that changes nothing, whoever sends it and whenever, after
  -- any history of codes issued, codes tried and accounts unlinked.
  pub complete_telegram_link_once :
      (raw : List ℕ) (telegram chat now : ℕ) (db : Db) (cs : List Call) (telegram2 chat2 later : ℕ)
      → (complete_telegram_link token_digest raw telegram chat now db).result ≢ err invalid_code
      → complete_telegram_link token_digest raw telegram2 chat2 later
          (run cs (complete_telegram_link token_digest raw telegram chat now db).db)
        ≡ record {
          result = err invalid_code;
          db = run cs (complete_telegram_link token_digest raw telegram chat now db).db;
        }
  complete_telegram_link_once raw telegram chat now db cs telegram2 chat2 later n =
      complete_again raw telegram2 chat2 later
        (run cs (complete_telegram_link token_digest raw telegram chat now db).db)
        (run-used (token_digest raw) cs _ (complete_own raw telegram chat now db n))
