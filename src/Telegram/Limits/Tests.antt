-- ===== src/Telegram/Limits/Tests.antt =====
-- A user at the limit of two updates a minute.
use aishopping_agent.Common.{◌≤◌, ◌≡◌, refl, arith, List, [], ◌∷◌, none, true, false, count_of}
use aishopping_agent.Common.Int.{pos}
use aishopping_agent.Common.Time.{minutes}
use aishopping_agent.Telegram.Limits.{
  TelegramUpdateReceipt, accepted, rate_limited, is_recent, reserved, reserve_telegram_update,
  find_receipt, dispose,
}
use aishopping_agent.Telegram.Limits.Rate.{reserve_telegram_update_bounded}

abbrev first : TelegramUpdateReceipt
first = record { update_id = pos 1; user_id = 5; disposition = accepted; recorded_at = 100 }

abbrev seen : List TelegramUpdateReceipt
seen = record first { update_id = pos 2; recorded_at = 200 } ∷ first ∷ []

abbrev other : TelegramUpdateReceipt
other = record { update_id = pos 9; user_id = 6; disposition = accepted; recorded_at = 250 }

abbrev after : List TelegramUpdateReceipt
after =
    record { update_id = pos 3; user_id = 5; disposition = rate_limited; recorded_at = 300 }
    ∷ other
    ∷ seen

reserves :
    reserve_telegram_update true (pos 3) 5 2 none 300 (other ∷ []) seen
    ≡ reserved (record { disposition = rate_limited; replay = false; warn_rate_limit = true }) after
unfolding reserve_telegram_update find_receipt dispose count_of minutes
reserves = refl

others_only : count_of (is_recent 5 accepted 300) (other ∷ []) ≡ 0
unfolding count_of is_recent
others_only = refl

seen_two : count_of (is_recent 5 accepted 300) seen ≤ 2
unfolding count_of is_recent minutes
seen_two = ground arith

reserve_telegram_update_bounded_example : count_of (is_recent 5 accepted 300) after ≤ 2
reserve_telegram_update_bounded_example =
    reserve_telegram_update_bounded true (pos 3) 5 2 300 (other ∷ []) seen after others_only
      seen_two reserves
