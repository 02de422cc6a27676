-- ===== src/Purchase/Trail/Settled.antt =====
-- backend/app/purchase/trail.py: the final entry that a resolution leaves.
use aishopping_agent.Common.{ℕ, ◌≡◌, ◌∙◌, sym, ap, refl, true, List, ◌∷◌, Option, none, some, arith}
use aishopping_agent.Purchase.Confirmation.{
  PurchaseConfirmationRequest, PurchaseConfirmationResult, PurchaseConfirmationDecision, confirm,
  cancel, PurchaseConfirmationStatus, confirmed, cancelled, stale, Result, ok, err,
}
use aishopping_agent.Purchase.Confirmation.Safe.{Evaluates}
use aishopping_agent.Purchase.Trail.{
  Db, Outcome, is_terminal, terminal_entry, existing_terminal_result, entry_type_for_status,
  insert_terminal, on_evaluated, same_decision, terminal_result, status_of,
}
use aishopping_agent.Purchase.Records.{PurchaseTrailEntry, trail_model}

-- Another transaction's entry, if there is one, is a final entry of this confirmation.
unfoldable pub IsWinner : ℕ → Option PurchaseTrailEntry → Type 0
IsWinner id none = id ≡ id
IsWinner id (some e) = (e.confirmation_id ≡ id) × (is_terminal e.entry_type ≡ true)

terminal_entry_first :
    (e : PurchaseTrailEntry) (es : List PurchaseTrailEntry) (id : ℕ)
    → e.confirmation_id ≡ id
    → is_terminal e.entry_type ≡ true
    → terminal_entry (e ∷ es) id ≡ some e
unfolding terminal_entry
terminal_entry_first e es id h t = ground arith

-- The final entry that stands in `db` for `id` gives `r` to everyone who decides as `d` again.
pub record IsSettled (id : ℕ) (q : PurchaseConfirmationRequest) (d : PurchaseConfirmationDecision)
    (r : PurchaseConfirmationResult) (db : Db) : Type 0 where
  pub entry : PurchaseTrailEntry
  pub stands : terminal_entry db.trail id ≡ some entry
  pub again : existing_terminal_result q entry d ≡ ok r

unfoldable pub Settles :
    ℕ
    → PurchaseConfirmationRequest
    → PurchaseConfirmationDecision
    → Db
    → Outcome PurchaseConfirmationResult
    → Type 0
Settles id q d before o =
    (r : PurchaseConfirmationResult) → o.result ≡ ok r → IsSettled id q d r o.db

same_decision_refl : (d : PurchaseConfirmationDecision) → same_decision (some d) d ≡ true
unfolding same_decision
same_decision_refl confirm = refl
same_decision_refl cancel = refl

status-entry_type : (s : PurchaseConfirmationStatus) → status_of (entry_type_for_status s) ≡ some s
unfolding status_of entry_type_for_status
status-entry_type confirmed = refl
status-entry_type cancelled = refl
status-entry_type stale = refl

entry_type-Terminal :
    (s : PurchaseConfirmationStatus) → is_terminal (entry_type_for_status s) ≡ true
unfolding entry_type_for_status
entry_type-Terminal confirmed = refl
entry_type-Terminal cancelled = refl
entry_type-Terminal stale = refl

-- The entry that is written gives the result back.
existing-trail_model :
    (q : PurchaseConfirmationRequest) (d : PurchaseConfirmationDecision)
    (r : PurchaseConfirmationResult)
    → r.request ≡ q
    → r.decision ≡ d
    → existing_terminal_result q
        (trail_model r.request
          (entry_type_for_status r.status)
          (some r.decision)
          r.stale_reason
          (some r.resolved_at))
        d
      ≡ ok r
unfolding existing_terminal_result trail_model terminal_result
existing-trail_model q d r hq hd = ground (arith, same_decision_refl d, status-entry_type r.status)

insert-Settles :
    (id : ℕ) (q : PurchaseConfirmationRequest) (d : PurchaseConfirmationDecision)
    (winner : Option PurchaseTrailEntry) (db : Db) (s : PurchaseConfirmationResult)
    → q.confirmation_id ≡ id
    → IsWinner id winner
    → s.request ≡ q
    → s.decision ≡ d
    → Settles id q d db (insert_terminal winner d db s)
unfolding Settles insert_terminal IsWinner
insert-Settles id q d none db s hid w hq hd r h = record {
  entry =
      trail_model s.request (entry_type_for_status s.status) (some s.decision) s.stale_reason
        (some s.resolved_at);
  stands =
      terminal_entry_first _ db.trail id (ap (λ x. x.confirmation_id) hq ∙ hid)
        (entry_type-Terminal s.status);
  again = existing-trail_model q d s hq hd ∙ h;
}
insert-Settles id q d (some e) db s hid w hq hd r h = record {
  entry = e;
  stands = terminal_entry_first e db.trail id w.0 w.1;
  again = ap (λ x. existing_terminal_result x e d) (sym hq) ∙ h;
}

pub on_evaluated-Settles :
    (id : ℕ) (q : PurchaseConfirmationRequest) (d : PurchaseConfirmationDecision)
    (winner : Option PurchaseTrailEntry) (db : Db) (e : Result PurchaseConfirmationResult)
    → q.confirmation_id ≡ id
    → IsWinner id winner
    → Evaluates q d e
    → Settles id q d db (on_evaluated winner d db e)
unfolding Settles on_evaluated Evaluates
on_evaluated-Settles id q d winner db (err x) hid w v r h = ground arith
on_evaluated-Settles id q d winner db (ok s) hid w v r h =
    insert-Settles id q d winner db s hid w v.0 v.1 r h
