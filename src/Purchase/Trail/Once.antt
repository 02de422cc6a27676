-- ===== src/Purchase/Trail/Once.antt =====
-- backend/app/purchase/trail.py: a confirmation is resolved once, also under a race.
use aishopping_agent.Common.{
  if◌then◌else◌, false, ℕ, ◌≡◌, ◌∙◌, ap, refl, true, List, [], ◌∷◌, Option, none, some, arith,
}
use aishopping_agent.Purchase.Confirmation.{
  conflict, MissionEntry, PurchaseConfirmationRequest, PurchaseConfirmationResult,
  PurchaseConfirmationDecision, confirm, cancel, Result, ok, err,
}
use aishopping_agent.Purchase.Confirmation.Safe.{evaluate_confirmation-Evaluates}
use aishopping_agent.Purchase.Trail.{
  recover_purchase_confirmation, on_recovered, resolve_purchase_confirmation, on_terminal, Db,
  terminal_entry, existing_terminal_result, insert_terminal, on_evaluated, recover_from,
  find_confirmation, same_decision,
}
use aishopping_agent.Purchase.Records.{PurchaseConfirmation, PurchaseTrailEntry, request_from_model}
use aishopping_agent.Purchase.Trail.Settled.{IsSettled, IsWinner, Settles, on_evaluated-Settles}

find_confirmation-same :
    (id : ℕ) (cs : List PurchaseConfirmation) (c : PurchaseConfirmation)
    → find_confirmation id cs ≡ some c
    → c.id ≡ id
unfolding find_confirmation
find_confirmation-same id [] c h = ground arith
find_confirmation-same id (x ∷ cs) c h = ground (arith, find_confirmation-same id cs c)

recover_same_id :
    (id owner : ℕ) (o : Option PurchaseConfirmation) (q : PurchaseConfirmationRequest)
    → ((c : PurchaseConfirmation) → o ≡ some c → c.id ≡ id)
    → recover_from o owner ≡ ok q
    → q.confirmation_id ≡ id
unfolding recover_from request_from_model
recover_same_id id owner none q f h = ground arith
recover_same_id id owner (some c) q f h = ground (arith, f c refl)

same_decision_other :
    (o : Option PurchaseConfirmationDecision) (d other : PurchaseConfirmationDecision)
    → same_decision o d ≡ true
    → same_decision (some d) other ≡ false
    → same_decision o other ≡ false
unfolding same_decision
same_decision_other (some confirm) confirm cancel h n = refl
same_decision_other (some cancel) cancel confirm h n = refl
same_decision_other (some confirm) confirm confirm h n = n
same_decision_other (some cancel) cancel cancel h n = n
same_decision_other (some confirm) cancel other h n = ground arith
same_decision_other (some cancel) confirm other h n = ground arith
same_decision_other none d other h n = refl

recovered_same_id :
    (db : Db) (id owner : ℕ) (q : PurchaseConfirmationRequest)
    → recover_purchase_confirmation db id owner ≡ ok q
    → q.confirmation_id ≡ id
unfolding recover_purchase_confirmation
recovered_same_id db id owner q h =
    recover_same_id id owner _ q (find_confirmation-same id db.confirmations) h

recover_same_confirmations :
    (id owner : ℕ) (after before : Db)
    → after.confirmations ≡ before.confirmations
    → recover_purchase_confirmation after id owner ≡ recover_purchase_confirmation before id owner
unfolding recover_purchase_confirmation
recover_same_confirmations id owner after before h =
    ap (λ x. recover_from (find_confirmation id x) owner) h

existing_other :
    (q : PurchaseConfirmationRequest) (e : PurchaseTrailEntry)
    (d other : PurchaseConfirmationDecision) (r : PurchaseConfirmationResult)
    → existing_terminal_result q e d ≡ ok r
    → same_decision (some d) other ≡ false
    → existing_terminal_result q e other ≡ err conflict
unfolding existing_terminal_result
existing_other q e d other r h n = ground (arith, same_decision_other e.decision d other)

-- The one answer that a settled confirmation has left for each decision.
unfoldable pub answer :
    PurchaseConfirmationDecision
    → PurchaseConfirmationResult
    → PurchaseConfirmationDecision
    → Result PurchaseConfirmationResult
unfolding same_decision
answer d r other = if same_decision (some d) other then ok r else err conflict

existing-answer :
    (q : PurchaseConfirmationRequest) (e : PurchaseTrailEntry)
    (d other : PurchaseConfirmationDecision) (r : PurchaseConfirmationResult)
    → existing_terminal_result q e d ≡ ok r
    → existing_terminal_result q e other ≡ answer d r other
unfolding answer same_decision
existing-answer q e confirm confirm r h = h
existing-answer q e cancel cancel r h = h
existing-answer q e confirm cancel r h = existing_other q e confirm cancel r h refl
existing-answer q e cancel confirm r h = existing_other q e cancel confirm r h refl

module _ (casefold : List ℕ → List ℕ) (missions : ℕ → Option MissionEntry) where
  on_terminal-Settles :
      (id : ℕ) (q : PurchaseConfirmationRequest) (d : PurchaseConfirmationDecision)
      (existing winner : Option PurchaseTrailEntry) (db : Db) (owner now : ℕ)
      → terminal_entry db.trail id ≡ existing
      → q.confirmation_id ≡ id
      → IsWinner id winner
      → Settles id q d db (on_terminal casefold missions existing winner q db owner d now)
  unfolding Settles on_terminal
  on_terminal-Settles id q d none winner db owner now t hid w =
      on_evaluated-Settles id q d winner db _ hid w
        (evaluate_confirmation-Evaluates casefold missions q owner d now)
  on_terminal-Settles id q d (some e) winner db owner now t hid w =
      λ r h. record { entry = e; stands = t; again = h }

  insert_same_confirmations :
      (winner : Option PurchaseTrailEntry) (d : PurchaseConfirmationDecision) (db : Db)
      (s : PurchaseConfirmationResult)
      → (insert_terminal winner d db s).db.confirmations ≡ db.confirmations
  unfolding insert_terminal
  insert_same_confirmations none d db s = refl
  insert_same_confirmations (some e) d db s = refl

  evaluated_same_confirmations :
      (winner : Option PurchaseTrailEntry) (d : PurchaseConfirmationDecision) (db : Db)
      (e : Result PurchaseConfirmationResult)
      → (on_evaluated winner d db e).db.confirmations ≡ db.confirmations
  unfolding on_evaluated
  evaluated_same_confirmations winner d db (err e) = refl
  evaluated_same_confirmations winner d db (ok s) = insert_same_confirmations winner d db s

  terminal_same_confirmations :
      (existing winner : Option PurchaseTrailEntry) (q : PurchaseConfirmationRequest) (db : Db)
      (owner : ℕ) (d : PurchaseConfirmationDecision) (now : ℕ)
      → (on_terminal casefold missions existing winner q db owner d now).db.confirmations
        ≡ db.confirmations
  unfolding on_terminal
  terminal_same_confirmations (some e) winner q db owner d now = refl
  terminal_same_confirmations none winner q db owner d now =
      evaluated_same_confirmations winner d db _

  -- On a database where the entry stands, a resolution is read from it.
  resolve_settled :
      (winner : Option PurchaseTrailEntry) (db : Db) (id owner : ℕ)
      (d : PurchaseConfirmationDecision) (now : ℕ) (q : PurchaseConfirmationRequest)
      (e : PurchaseTrailEntry)
      → recover_purchase_confirmation db id owner ≡ ok q
      → terminal_entry db.trail id ≡ some e
      → resolve_purchase_confirmation casefold missions winner db id owner d now
        ≡ record { result = existing_terminal_result q e d; db = db }
  unfolding resolve_purchase_confirmation on_recovered on_terminal
  resolve_settled winner db id owner d now q e h t = rw h (rw t refl)

  settled_answer :
      (id owner : ℕ) (d : PurchaseConfirmationDecision) (r : PurchaseConfirmationResult) (db : Db)
      (q : PurchaseConfirmationRequest) (again : Option PurchaseTrailEntry)
      (other : PurchaseConfirmationDecision) (later : ℕ)
      → recover_purchase_confirmation db id owner ≡ ok q
      → IsSettled id q d r db
      → resolve_purchase_confirmation casefold missions again db id owner other later
        ≡ record { result = answer d r other; db = db }
  settled_answer id owner d r db q again other later h s =
      resolve_settled again db id owner other later q s.entry h s.stands
      ∙ ap (λ x. record { result = x; db = db }) (existing-answer q s.entry d other r s.again)

  recovered_answer :
      (winner : Option PurchaseTrailEntry) (db : Db) (id owner : ℕ)
      (d : PurchaseConfirmationDecision) (now : ℕ) (r : PurchaseConfirmationResult)
      (q : Result PurchaseConfirmationRequest) (again : Option PurchaseTrailEntry)
      (other : PurchaseConfirmationDecision) (later : ℕ)
      → recover_purchase_confirmation db id owner ≡ q
      → IsWinner id winner
      → (on_recovered casefold missions q winner db id owner d now).result ≡ ok r
      → resolve_purchase_confirmation casefold missions again
          (on_recovered casefold missions q winner db id owner d now).db
          id
          owner
          other
          later
        ≡ record {
          result = answer d r other;
          db = (on_recovered casefold missions q winner db id owner d now).db;
        }
  unfolding on_recovered Settles
  recovered_answer winner db id owner d now r (err e) again other later c w h = ground arith
  recovered_answer winner db id owner d now r (ok q) again other later c w h =
      settled_answer id owner d r _ q again other later
        (recover_same_confirmations id owner _ db
            (terminal_same_confirmations (terminal_entry db.trail id) winner q db owner d now)
          ∙ c)
        (on_terminal-Settles id q d _ winner db owner now refl (recovered_same_id db id owner q c) w
          r h)

  -- Once a confirmation is resolved with a result, by this call or by a transaction that was faster, a
  -- later resolution with the same decision gives that result again and one with the other
  -- decision is refused as a conflict, and neither changes what is stored, whenever it comes. The
  -- faster transaction's entry, if any, is a final one of this confirmation.
  pub resolve_purchase_confirmation_once :
      (winner : Option PurchaseTrailEntry) (db : Db) (id owner : ℕ)
      (d : PurchaseConfirmationDecision) (now : ℕ) (r : PurchaseConfirmationResult)
      (again : Option PurchaseTrailEntry) (other : PurchaseConfirmationDecision) (later : ℕ)
      → IsWinner id winner
      → (resolve_purchase_confirmation casefold missions winner db id owner d now).result ≡ ok r
      → resolve_purchase_confirmation casefold missions again
          (resolve_purchase_confirmation casefold missions winner db id owner d now).db
          id
          owner
          other
          later
        ≡ record {
          result = answer d r other;
          db = (resolve_purchase_confirmation casefold missions winner db id owner d now).db;
        }
  unfolding resolve_purchase_confirmation
  resolve_purchase_confirmation_once winner db id owner d now r again other later w h =
      recovered_answer winner db id owner d now r (recover_purchase_confirmation db id owner) again
        other later refl w h
