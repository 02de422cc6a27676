-- ===== src/Authentication/Linking.antt =====
-- backend/app/authentication/telegram_linking.py: linking a Telegram account by a code that is used
-- once. Of the other tables only what is written is kept. The digest of a code and the code itself
-- are arguments. A hash is unique, so a new row is never found before an old one of the same hash.
-- The caller commits also when a link is refused, so every outcome has its tables.
pub mod Ended
pub mod Used
mod Tests
use aishopping_agent.Common.{
  ℕ, ◌+◌, List, [], ◌∷◌, ◌++◌, Option, none, some, Bool, true, false, not, ◌&&◌, ◌||◌, ◌==◌, ltb,
  leb, if◌then◌else◌, count_of, find_first, map, length, is_none,
}
use aishopping_agent.Common.Texts.{same_text}
use aishopping_agent.Common.Time.{minutes}

pub record User : Type 0 where
  pub id : ℕ
  pub is_active : Bool
  pub telegram_user_id : Option ℕ
  pub telegram_chat_id : Option ℕ

pub record TelegramLinkToken : Type 0 where
  pub id : ℕ
  pub token_hash : List ℕ
  pub user_id : ℕ
  pub created_at : ℕ
  pub expires_at : ℕ
  pub consumed_at : Option ℕ
  pub invalidated_at : Option ℕ

pub record UserAuthSession : Type 0 where
  pub user_id : ℕ
  pub revoked_at : Option ℕ

pub record CredentialActionToken : Type 0 where
  pub user_id : ℕ
  pub consumed_at : Option ℕ
  pub invalidated_at : Option ℕ

pub data LinkAction : Type 0 where
  link_requested link_completed unlinked : LinkAction

pub record AuditEntry : Type 0 where
  pub actor_id : ℕ
  pub action : LinkAction

pub record Db : Type 0 where
  pub users : List User
  pub tokens : List TelegramLinkToken
  pub sessions : List UserAuthSession
  pub credentials : List CredentialActionToken
  pub audit : List AuditEntry

pub data TelegramLinkError : Type 0 where
  unavailable rate_limited invalid_code refused : TelegramLinkError

pub data Result (A : Type 0) : Type 0 where
  ok : A → Result A
  err : TelegramLinkError → Result A

pub record Outcome (A : Type 0) : Type 0 where
  pub result : Result A
  pub db : Db

unfoldable pub is_unended : TelegramLinkToken → Bool
is_unended t = is_none t.consumed_at && is_none t.invalidated_at

unfoldable pub token_is_usable : TelegramLinkToken → ℕ → Bool
unfolding is_unended
token_is_usable t now = is_unended t && ltb now t.expires_at

unfoldable pub close_when : (TelegramLinkToken → Bool) → ℕ → TelegramLinkToken → TelegramLinkToken
unfolding is_unended
close_when p now t = if p t && is_unended t then record t { invalidated_at = some now } else t

-- `UPDATE … SET invalidated_at` of the unended rows of a user.
unfoldable pub invalidate_of : ℕ → ℕ → List TelegramLinkToken → List TelegramLinkToken
unfolding close_when
invalidate_of user now tokens = map (close_when (λ t. t.user_id == user) now) tokens

-- All but the one that was used.
unfoldable pub invalidate_others : ℕ → ℕ → ℕ → List TelegramLinkToken → List TelegramLinkToken
unfolding close_when
invalidate_others user token now tokens =
    map (close_when (λ t. t.user_id == user && not (t.id == token)) now) tokens

unfoldable pub find_token : List ℕ → List TelegramLinkToken → Option TelegramLinkToken
find_token hash [] = none
find_token hash (t ∷ ts) =
    let rest = find_token hash ts in if same_text t.token_hash hash then some t else rest

-- The row that was found by its hash is written.
unfoldable pub write_token :
    List ℕ → TelegramLinkToken → List TelegramLinkToken → List TelegramLinkToken
write_token hash row [] = []
write_token hash row (t ∷ ts) =
    let rest = write_token hash row ts in if same_text t.token_hash hash then row ∷ ts else t ∷ rest

find_user : ℕ → List User → Option User
find_user id users = find_first (λ u. u.id == id) users

is_telegram : Option ℕ → ℕ → Bool
is_telegram none t = false
is_telegram (some x) t = x == t

find_linked : ℕ → List User → Option User
unfolding is_telegram
find_linked telegram users = find_first (λ u. is_telegram u.telegram_user_id telegram) users

write_link : ℕ → Option ℕ → Option ℕ → User → User
write_link id telegram chat u =
    if u.id == id then record u { telegram_user_id = telegram; telegram_chat_id = chat } else u

is_another : Option User → User → Bool
is_another none target = false
is_another (some u) target = not (u.id == target.id)

revoke_of : ℕ → ℕ → UserAuthSession → UserAuthSession
revoke_of user now s =
    if s.user_id == user && is_none s.revoked_at then record s { revoked_at = some now } else s

withdraw_of : ℕ → ℕ → CredentialActionToken → CredentialActionToken
withdraw_of user now c =
    if c.user_id == user && is_none c.consumed_at && is_none c.invalidated_at
    then record c { invalidated_at = some now }
    else c

unfoldable pub unlink_telegram : User → ℕ → Db → Db
unfolding invalidate_of revoke_of withdraw_of write_link
unlink_telegram user now db = record {
  users = map (write_link user.id none none) db.users;
  tokens = invalidate_of user.id now db.tokens;
  sessions = map (revoke_of user.id now) db.sessions;
  credentials = map (withdraw_of user.id now) db.credentials;
  audit =
      if is_none user.telegram_user_id
      then db.audit
      else record { actor_id = user.id; action = unlinked } ∷ db.audit;
}

-- What `issue_telegram_link` gives: the code, without the words of the command.
pub record IssuedTelegramLink : Type 0 where
  pub raw_token : List ℕ
  pub expires_at : ℕ

unfoldable pub new_token : ℕ → List ℕ → ℕ → ℕ → TelegramLinkToken
new_token id hash user now = record {
  id = id;
  token_hash = hash;
  user_id = user;
  created_at = now;
  expires_at = now + minutes 10;
  consumed_at = none;
  invalidated_at = none;
}

refuse_token : List ℕ → TelegramLinkToken → ℕ → Db → Outcome User
unfolding write_token
refuse_token hash token now db = record {
  result = err refused;
  db = record db {
    tokens = write_token hash (record token { invalidated_at = some now }) db.tokens;
  };
}

link_target : List ℕ → TelegramLinkToken → ℕ → ℕ → ℕ → Option User → Option User → Db → Outcome User
unfolding refuse_token write_link is_another write_token invalidate_others
link_target hash token telegram chat now none linked db = refuse_token hash token now db
link_target hash token telegram chat now (some target) linked db =
    if not target.is_active || not (is_none target.telegram_user_id) || is_another linked target
    then refuse_token hash token now db
    else record {
      result =
          ok (record target { telegram_user_id = some telegram; telegram_chat_id = some chat });
      db = record db {
        users = map (write_link target.id (some telegram) (some chat)) db.users;
        tokens =
            invalidate_others target.id token.id now
              (write_token hash (record token { consumed_at = some now }) db.tokens);
        audit = record { actor_id = target.id; action = link_completed } ∷ db.audit;
      };
    }

use_token : List ℕ → ℕ → ℕ → ℕ → Option TelegramLinkToken → Db → Outcome User
unfolding token_is_usable link_target find_user find_linked
use_token hash telegram chat now none db = record { result = err invalid_code; db = db }
use_token hash telegram chat now (some token) db =
    if not (token_is_usable token now)
    then record { result = err invalid_code; db = db }
    else link_target hash token telegram chat now (find_user token.user_id db.users)
        (find_linked telegram db.users) db

is_empty : List ℕ → Bool
is_empty [] = true
is_empty (c ∷ cs) = false

module _ (token_digest : List ℕ → List ℕ) where
  unfoldable pub issue_telegram_link : User → ℕ → List ℕ → ℕ → Db → Outcome IssuedTelegramLink
  unfolding invalidate_of new_token
  issue_telegram_link user token_id raw now db =
      if not (is_none user.telegram_user_id)
      then record { result = err unavailable; db = db }
      else if leb 5
          (count_of (λ t. t.user_id == user.id && leb now (t.created_at + minutes 15)) db.tokens)
      then record { result = err rate_limited; db = db }
      else record {
        result = ok (record { raw_token = raw; expires_at = now + minutes 10 });
        db = record db {
          tokens =
              invalidate_of user.id now db.tokens
              ++ (new_token token_id (token_digest raw) user.id now ∷ []);
          audit = record { actor_id = user.id; action = link_requested } ∷ db.audit;
        };
      }

  unfoldable pub complete_telegram_link : List ℕ → ℕ → ℕ → ℕ → Db → Outcome User
  unfolding use_token find_token is_empty
  complete_telegram_link raw telegram chat now db =
      if is_empty raw || ltb 128 (length raw) || not (telegram == chat)
      then record { result = err invalid_code; db = db }
      else use_token (token_digest raw) telegram chat now (find_token (token_digest raw) db.tokens)
          db
