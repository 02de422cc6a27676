-- ===== src/Telegram/Limits/Rate.antt =====
-- An update is accepted once, and no more than the limit in a minute.
use mathlib.Core.Path.{subst}
use aishopping_agent.Common.{
  ℕ, ◌+◌, ◌≤◌, ◌≡◌, ◌++◌, arith, List, [], ◌∷◌, Option, none, some, Bool, count_of,
}
use aishopping_agent.Common.Int.{ℤ}
use aishopping_agent.Telegram.Limits.{
  TelegramUpdateReceipt, TelegramUpdateReservation, accepted, reserved, is_recent, dispose,
  find_receipt, insert_receipt, replayed, on_existing, reserve_telegram_update,
}

count-append :
    (p : TelegramUpdateReceipt → Bool) (xs ys : List TelegramUpdateReceipt)
    → count_of p (xs ++ ys) ≡ count_of p xs + count_of p ys
unfolding count_of
count-append p [] ys = omega arith
count-append p (x ∷ xs) ys = ground (arith, count-append p xs ys)

accepted_room :
    (user limit now : ℕ) (seen : List TelegramUpdateReceipt) (id : ℤ)
    → count_of (is_recent user accepted now) seen ≤ limit
    → let (d, warn) = dispose none user limit now seen in
      count_of
        (is_recent user accepted now)
        (record { update_id = id; user_id = user; disposition = d; recorded_at = now } ∷ seen)
      ≤ limit
unfolding dispose count_of is_recent
accepted_room user limit now seen id k = ground arith

inserted-bounded :
    (rival : Option TelegramUpdateReceipt) (receipt : TelegramUpdateReceipt) (warn : Bool)
    (limit : ℕ) (p : TelegramUpdateReceipt → Bool) (table after : List TelegramUpdateReceipt)
    {r : TelegramUpdateReservation}
    → count_of p table ≤ limit
    → count_of p (receipt ∷ table) ≤ limit
    → insert_receipt rival receipt warn table ≡ reserved r after
    → count_of p after ≤ limit
unfolding insert_receipt replayed
inserted-bounded (some x) receipt warn limit p table after h k e =
    let same : table ≡ after = cc in subst (λ t. count_of p t ≤ limit) same h
inserted-bounded none receipt warn limit p table after h k e =
    let same : (receipt ∷ table) ≡ after = cc in subst (λ t. count_of p t ≤ limit) same k

count-cons_append :
    (p : TelegramUpdateReceipt → Bool) (x : TelegramUpdateReceipt)
    (arrived seen : List TelegramUpdateReceipt)
    → count_of p arrived ≡ 0
    → count_of p (x ∷ arrived ++ seen) ≡ count_of p (x ∷ seen)
unfolding count_of
count-cons_append p x arrived seen h = ground (arith, count-append p arrived seen)

on_existing-bounded :
    (o : Option TelegramUpdateReceipt) (id : ℤ) (user limit now : ℕ)
    (arrived seen after : List TelegramUpdateReceipt) {r : TelegramUpdateReservation}
    → count_of (is_recent user accepted now) arrived ≡ 0
    → count_of (is_recent user accepted now) seen ≤ limit
    → on_existing o id user limit none now arrived seen ≡ reserved r after
    → count_of (is_recent user accepted now) after ≤ limit
unfolding on_existing replayed
on_existing-bounded (some x) id user limit now arrived seen after h k e =
    let same : (arrived ++ seen) ≡ after = cc in
    let sum = count-append (is_recent user accepted now) arrived seen in
    subst (λ t. count_of (is_recent user accepted now) t ≤ limit) same (omega arith)
on_existing-bounded none id user limit now arrived seen after h k e =
    let sum = count-append (is_recent user accepted now) arrived seen in
    let room = accepted_room user limit now seen id k in
    let front =
      count-cons_append (is_recent user accepted now)
        (record {
          update_id = id;
          user_id = user;
          disposition = (dispose none user limit now seen).0;
          recorded_at = now;
        })
        arrived seen h in
    inserted-bounded (find_receipt id arrived) _ _ limit (is_recent user accepted now)
      (arrived ++ seen) after (omega arith) (omega arith) e

-- A reservation without a forced disposition keeps the limit: if at most `limit` updates of the user
-- were accepted in the last minute, and no receipt of the user that was accepted in it arrives
-- from elsewhere, then at most `limit` of them stand in the table afterwards, the new one included.
pub reserve_telegram_update_bounded :
    (user_exists : Bool) (id : ℤ) (user limit now : ℕ)
    (arrived seen after : List TelegramUpdateReceipt) {r : TelegramUpdateReservation}
    → count_of (is_recent user accepted now) arrived ≡ 0
    → count_of (is_recent user accepted now) seen ≤ limit
    → reserve_telegram_update user_exists id user limit none now arrived seen ≡ reserved r after
    → count_of (is_recent user accepted now) after ≤ limit
unfolding reserve_telegram_update
reserve_telegram_update_bounded user_exists id user limit now arrived seen after {r} h k e =
    on_existing-bounded (find_receipt id seen) id user limit now arrived seen after {r = r} h k
      (ground arith)
