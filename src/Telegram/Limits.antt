-- ===== src/Telegram/Limits.antt =====
-- backend/app/telegram/limits.py: `reserve_telegram_update`. The receipts are a list; the reservations
-- of one user come one after another (its row is locked), while those of other users may insert the same
-- `update_id` between the look-up and the insert: the receipts that arrive meanwhile are the argument
-- `arrived`. The database's `now()` is the argument `now`, and a receipt is stamped with it.
pub mod Rate
mod Tests
use aishopping_agent.Common.{
  ℕ, ◌+◌, List, [], ◌∷◌, ◌++◌, Option, none, some, Bool, true, false, not, ◌&&◌, ◌||◌, ◌==◌, ltb,
  leb, if◌then◌else◌, find_first, count_of,
}
use aishopping_agent.Common.Int.{ℤ, pos, negsuc, leb_ℤ}
use aishopping_agent.Common.Time.{minutes}

pub data TelegramUpdateDisposition : Type 0 where
  accepted rate_limited discarded : TelegramUpdateDisposition

pub record TelegramUpdateReceipt : Type 0 where
  pub update_id : ℤ
  pub user_id : ℕ
  pub disposition : TelegramUpdateDisposition
  pub recorded_at : ℕ

pub record TelegramUpdateReservation : Type 0 where
  pub disposition : TelegramUpdateDisposition
  pub replay : Bool
  pub warn_rate_limit : Bool

pub data ReserveError : Type 0 where
  negative_update_id limit_out_of_range unknown_user : ReserveError

pub data Reserved : Type 0 where
  reserved : TelegramUpdateReservation → List TelegramUpdateReceipt → Reserved
  raised : ReserveError → Reserved

unfoldable pub same_disposition : TelegramUpdateDisposition → TelegramUpdateDisposition → Bool
same_disposition accepted accepted = true
same_disposition rate_limited rate_limited = true
same_disposition discarded discarded = true
same_disposition _ _ = false

-- A receipt of this user and disposition from the last minute.
unfoldable pub is_recent : ℕ → TelegramUpdateDisposition → ℕ → TelegramUpdateReceipt → Bool
unfolding same_disposition
is_recent user d now r =
    r.user_id == user && same_disposition r.disposition d && ltb now (r.recorded_at + minutes 1)

-- What is reserved, and whether the user is warned.
unfoldable pub dispose :
    Option TelegramUpdateDisposition
    → ℕ
    → ℕ
    → ℕ
    → List TelegramUpdateReceipt
    → TelegramUpdateDisposition × Bool
unfolding is_recent
dispose (some d) user limit now seen = (d, false)
dispose none user limit now seen =
    if leb limit (count_of (is_recent user accepted now) seen)
    then (rate_limited, count_of (is_recent user rate_limited now) seen == 0)
    else (accepted, false)

unfoldable pub same_update : ℤ → TelegramUpdateReceipt → Bool
same_update id r = leb_ℤ id r.update_id && leb_ℤ r.update_id id

unfoldable pub find_receipt : ℤ → List TelegramUpdateReceipt → Option TelegramUpdateReceipt
unfolding same_update
find_receipt id [] = none
find_receipt id (r ∷ rs) =
    let rest = find_receipt id rs in if same_update id r then some r else rest

unfoldable pub replayed : TelegramUpdateReceipt → List TelegramUpdateReceipt → Reserved
replayed r table =
    reserved (record { disposition = r.disposition; replay = true; warn_rate_limit = false }) table

-- The insert, into a table in which `arrived` has been committed before.
unfoldable pub insert_receipt :
    Option TelegramUpdateReceipt
    → TelegramUpdateReceipt
    → Bool
    → List TelegramUpdateReceipt
    → Reserved
unfolding replayed
insert_receipt (some rival) receipt warn table = replayed rival table
insert_receipt none receipt warn table =
    reserved (record { disposition = receipt.disposition; replay = false; warn_rate_limit = warn })
      (receipt ∷ table)

unfoldable pub on_existing :
    Option TelegramUpdateReceipt
    → ℤ
    → ℕ
    → ℕ
    → Option TelegramUpdateDisposition
    → ℕ
    → List TelegramUpdateReceipt
    → List TelegramUpdateReceipt
    → Reserved
unfolding insert_receipt dispose find_receipt replayed
on_existing (some r) id user limit forced now arrived seen = replayed r (arrived ++ seen)
on_existing none id user limit forced now arrived seen =
    let (d, warn) = dispose forced user limit now seen in
    insert_receipt (find_receipt id arrived)
      (record { update_id = id; user_id = user; disposition = d; recorded_at = now }) warn
      (arrived ++ seen)

unfoldable pub is_negative : ℤ → Bool
is_negative (pos n) = false
is_negative (negsuc n) = true

unfoldable pub reserve_telegram_update :
    Bool
    → ℤ
    → ℕ
    → ℕ
    → Option TelegramUpdateDisposition
    → ℕ
    → List TelegramUpdateReceipt
    → List TelegramUpdateReceipt
    → Reserved
unfolding on_existing is_negative
reserve_telegram_update user_exists id user limit forced now arrived seen =
    if is_negative id
    then raised negative_update_id
    else if not (leb 1 limit && leb limit 1000)
    then raised limit_out_of_range
    else if not user_exists
    then raised unknown_user
    else on_existing (find_receipt id seen) id user limit forced now arrived seen
