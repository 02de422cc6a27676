-- ===== src/Purchase/Trail.antt =====
-- backend/app/purchase/trail.py: the stored confirmation and its append-only trail. The unique
-- index on final entries lets at most one stand: an entry that another transaction inserts while
-- one is resolved is the argument `winner`.
pub mod Recovery
pub mod Settled
pub mod Once
mod Tests
use aishopping_agent.Common.{
  ℕ, List, [], ◌∷◌, Option, none, some, Bool, true, false, not, ◌&&◌, ◌==◌, if◌then◌else◌,
  find_first,
}
use aishopping_agent.Alerts.{Availability}
use aishopping_agent.Purchase.{Product, Store}
use aishopping_agent.Purchase.Confirmation.{
  PurchaseConfirmationRequest, PurchaseConfirmationResult, PurchaseConfirmationDecision, confirm,
  cancel, PurchaseConfirmationStatus, PurchaseConfirmationStaleReason, ConfirmationError,
  owner_mismatch, conflict, confirmation_not_found, assertion_failed, Result, ok, err, MissionEntry,
  build_request, evaluate_confirmation,
}
use aishopping_agent.Purchase.Records.{
  ObservationSnapshot, OfferSnapshot, PurchaseConfirmation, PurchaseTrailEntry,
  PurchaseTrailEntryType, SellerSnapshot, Snapshot, cancelled, confirmation_model, confirmed,
  name_of, request_from_model, requested, sanitized_snapshot, seller_snapshot, stale, trail_model,
}

pub record Db : Type 0 where
  pub confirmations : List PurchaseConfirmation
  pub trail : List PurchaseTrailEntry

abbrev pub is_terminal : PurchaseTrailEntryType → Bool
is_terminal requested = false
is_terminal _ = true

unfoldable pub terminal_entry : List PurchaseTrailEntry → ℕ → Option PurchaseTrailEntry
terminal_entry [] id = none
terminal_entry (e ∷ es) id =
    let rest = terminal_entry es id in
    if e.confirmation_id == id && is_terminal e.entry_type then some e else rest

-- `PurchaseConfirmationStatus(entry_type.value)`: `requested` is no status.
status_of : PurchaseTrailEntryType → Option PurchaseConfirmationStatus
status_of requested = none
status_of confirmed = some PurchaseConfirmationStatus.confirmed
status_of cancelled = some PurchaseConfirmationStatus.cancelled
status_of stale = some PurchaseConfirmationStatus.stale

unfoldable pub entry_type_for_status : PurchaseConfirmationStatus → PurchaseTrailEntryType
entry_type_for_status PurchaseConfirmationStatus.confirmed = confirmed
entry_type_for_status PurchaseConfirmationStatus.cancelled = cancelled
entry_type_for_status PurchaseConfirmationStatus.stale = stale

unfoldable pub same_decision :
    Option PurchaseConfirmationDecision → PurchaseConfirmationDecision → Bool
same_decision (some confirm) confirm = true
same_decision (some cancel) cancel = true
same_decision _ _ = false

terminal_result :
    PurchaseConfirmationRequest
    → PurchaseConfirmationDecision
    → Option PurchaseConfirmationStatus
    → Option PurchaseConfirmationStaleReason
    → Option ℕ
    → Result PurchaseConfirmationResult
terminal_result r decision (some status) reason (some at) = ok (record {
  request = r;
  decision = decision;
  status = status;
  stale_reason = reason;
  resolved_at = at;
})
terminal_result r decision _ reason _ = err assertion_failed

unfoldable pub existing_terminal_result :
    PurchaseConfirmationRequest
    → PurchaseTrailEntry
    → PurchaseConfirmationDecision
    → Result PurchaseConfirmationResult
unfolding same_decision terminal_result status_of
existing_terminal_result r entry decision =
    if not (same_decision entry.decision decision)
    then err conflict
    else terminal_result r decision (status_of entry.entry_type) entry.stale_reason
        entry.resolved_at

unfoldable pub find_confirmation : ℕ → List PurchaseConfirmation → Option PurchaseConfirmation
find_confirmation id [] = none
find_confirmation id (c ∷ cs) =
    let rest = find_confirmation id cs in if c.id == id then some c else rest

recover_from : Option PurchaseConfirmation → ℕ → Result PurchaseConfirmationRequest
unfolding request_from_model
recover_from none owner = err confirmation_not_found
recover_from (some c) owner =
    if not (c.owner_user_id == owner) then err owner_mismatch else ok (request_from_model c)

unfoldable pub recover_purchase_confirmation : Db → ℕ → ℕ → Result PurchaseConfirmationRequest
unfolding recover_from find_confirmation
recover_purchase_confirmation db id owner =
    recover_from (find_confirmation id db.confirmations) owner

-- What a call leaves behind.
pub record Outcome (A : Type 0) : Type 0 where
  pub result : Result A
  pub db : Db

-- The terminal entry is inserted, or another transaction's stands.
unfoldable pub insert_terminal :
    Option PurchaseTrailEntry
    → PurchaseConfirmationDecision
    → Db
    → PurchaseConfirmationResult
    → Outcome PurchaseConfirmationResult
unfolding existing_terminal_result trail_model entry_type_for_status
insert_terminal (some winner) decision db r = record {
  result = existing_terminal_result r.request winner decision;
  db = record db { trail = winner ∷ db.trail };
}
insert_terminal none decision db r = record {
  result = ok r;
  db = record db {
    trail =
        trail_model r.request (entry_type_for_status r.status) (some r.decision) r.stale_reason
          (some r.resolved_at)
        ∷ db.trail;
  };
}

unfoldable pub on_evaluated :
    Option PurchaseTrailEntry
    → PurchaseConfirmationDecision
    → Db
    → Result PurchaseConfirmationResult
    → Outcome PurchaseConfirmationResult
unfolding insert_terminal
on_evaluated winner decision db (err e) = record { result = err e; db = db }
on_evaluated winner decision db (ok r) = insert_terminal winner decision db r

module _ (casefold : List ℕ → List ℕ) (missions : ℕ → Option MissionEntry) where
  requested_from : Db → Result PurchaseConfirmationRequest → Outcome PurchaseConfirmationRequest
  unfolding confirmation_model trail_model
  requested_from db (err e) = record { result = err e; db = db }
  requested_from db (ok r) = record {
    result = ok r;
    db = record {
      confirmations = confirmation_model r ∷ db.confirmations;
      trail = trail_model r requested none none none ∷ db.trail;
    };
  }

  unfoldable pub request_purchase_confirmation :
      Db → ℕ → ℕ → ℕ → ℕ → ℕ → Outcome PurchaseConfirmationRequest
  unfolding requested_from
  request_purchase_confirmation db id mission offer owner now =
      requested_from db (build_request casefold missions id mission offer owner now)

  unfoldable pub on_terminal :
      Option PurchaseTrailEntry
      → Option PurchaseTrailEntry
      → PurchaseConfirmationRequest
      → Db
      → ℕ
      → PurchaseConfirmationDecision
      → ℕ
      → Outcome PurchaseConfirmationResult
  unfolding on_evaluated existing_terminal_result
  on_terminal (some existing) winner r db owner decision now = record {
    result = existing_terminal_result r existing decision;
    db = db;
  }
  on_terminal none winner r db owner decision now =
      on_evaluated winner decision db (evaluate_confirmation casefold missions r owner decision now)

  on_recovered :
      Result PurchaseConfirmationRequest
      → Option PurchaseTrailEntry
      → Db
      → ℕ
      → ℕ
      → PurchaseConfirmationDecision
      → ℕ
      → Outcome PurchaseConfirmationResult
  unfolding on_terminal terminal_entry
  on_recovered (err e) winner db id owner decision now = record { result = err e; db = db }
  on_recovered (ok r) winner db id owner decision now =
      on_terminal (terminal_entry db.trail id) winner r db owner decision now

  unfoldable pub resolve_purchase_confirmation :
      Option PurchaseTrailEntry
      → Db
      → ℕ
      → ℕ
      → PurchaseConfirmationDecision
      → ℕ
      → Outcome PurchaseConfirmationResult
  unfolding on_recovered recover_purchase_confirmation
  resolve_purchase_confirmation winner db id owner decision now =
      on_recovered (recover_purchase_confirmation db id owner) winner db id owner decision now
