-- ===== src/Authentication/Linking/Tests.antt =====
-- One code, sent twice.
use aishopping_agent.Common.Texts.{same_text}
use aishopping_agent.Common.{find_first, ℕ, ◌≡◌, ◌≢◌, refl, true, List, [], ◌∷◌, none, some, arith}
use aishopping_agent.Authentication.Linking.{
  User, TelegramLinkToken, Db, Outcome, ok, err, invalid_code, complete_telegram_link,
}
use aishopping_agent.Authentication.Linking.Used.{
  Call, issue, unlink, run, complete_telegram_link_once,
}

abbrev digest : List ℕ → List ℕ
digest raw = raw

abbrev ana : User
ana = record { id = 1; is_active = true; telegram_user_id = none; telegram_chat_id = none }

abbrev code : List ℕ
code = 7 ∷ 8 ∷ []

abbrev token : TelegramLinkToken
token = record {
  id = 5;
  token_hash = code;
  user_id = 1;
  created_at = 0;
  expires_at = 600000000;
  consumed_at = none;
  invalidated_at = none;
}

abbrev before : Db
before = record {
  users = ana ∷ [];
  tokens = token ∷ [];
  sessions = [];
  credentials = [];
  audit = [];
}

abbrev linked : Outcome User
linked = complete_telegram_link digest code 900 900 10 before

links : linked.result ≡ ok (record ana { telegram_user_id = some 900; telegram_chat_id = some 900 })
unfolding complete_telegram_link same_text find_first
links = refl

links_valid : linked.result ≢ err invalid_code
links_valid e = ground (arith, links)

abbrev history : List Call
history = unlink ana 20 ∷ issue ana 6 (9 ∷ []) 30 ∷ []

complete_telegram_link_once_example :
    complete_telegram_link digest code 901 901 40 (run digest history linked.db)
    ≡ record { result = err invalid_code; db = run digest history linked.db }
complete_telegram_link_once_example =
    complete_telegram_link_once digest code 900 900 10 before history 901 901 40 links_valid
