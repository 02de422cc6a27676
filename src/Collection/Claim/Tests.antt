-- ===== src/Collection/Claim/Tests.antt =====
-- One item at one shop, asked for three times.
use aishopping_agent.Common.{
  ◌<◌, ◌+◌, keep, any_of, ℕ, ◌≤◌, ◌≡◌, ◌≢◌, refl, List, [], ◌∷◌, none, some, true, false, arith,
}
use aishopping_agent.Common.Texts.{text_in, codes}
use aishopping_agent.Common.Time.{minutes}
use aishopping_agent.Collection.Cadence.{
  resolve_collection_cadence, sample_next_run_at, CadenceConfig, post_init,
}
use aishopping_agent.Collection.Claim.{claim_shared_collection}
use aishopping_agent.Collection.Tables.{Catalog, Db}
use aishopping_agent.Collection.Claim.History.{IsSpaced, Action, claim, fresh, run}
use aishopping_agent.Collection.Claim.Overlap.{claim_having_seen, overlapping_claims_granted}
use aishopping_agent.Collection.Claim.Recollection.{of_pair, recollection, run-recollection}

abbrev pub lowest : ℕ → ℕ → ℕ
lowest lo hi = minutes lo

abbrev pub usual : CadenceConfig
usual = record {
  normal_min_minutes = 45;
  normal_max_minutes = 75;
  promo_min_minutes = 30;
  promo_max_minutes = 45;
  high_activity_window_minutes = 30;
  high_activity_change_threshold = 3;
  high_activity_duration_minutes = 60;
}

abbrev pub shops : Catalog
shops = record {
  items = λ i. some (record { id = i; canonical_identity = [] });
  stores = λ s. some (record { id = s; code = codes "kabum"; is_active = true });
  links = [];
  market = record { windows = []; observations = []; offers = []; relevances = [] };
}

abbrev pub new_tables : Db
new_tables = record {
  item_stores = λ i s. some (record {
    is_enabled = true;
    next_run_at = none;
    last_run_at = none;
    next_eligible_at = none;
    consecutive_blocks = 0;
    updated_at = 0;
  });
  sources = λ m s. none;
  throttle = λ s. none;
  runs = [];
  activity = [];
  high_activity_notify = false;
}

-- Too soon for the same item the second time; the third is for another item.
abbrev asked : List Action
asked = claim 1 7 2 none 100 ∷ claim 2 7 2 none 1000100 ∷ claim 3 8 2 none 3000100 ∷ []

asked_log :
    (run lowest shops usual 2000000 asked (fresh new_tables)).log
    ≡ record { is_shared = true; scope = 8; store = 2; at = 3000100 }
      ∷ record { is_shared = true; scope = 7; store = 2; at = 100 }
      ∷ []
unfolding run claim_shared_collection text_in any_of sample_next_run_at minutes
    resolve_collection_cadence keep
asked_log = refl

usual_valid : post_init usual ≡ none
unfolding post_init
usual_valid = refl

grants_first :
    (claim_shared_collection lowest shops usual 2000000 1 7 2 none 100 new_tables).0
    ≡ some (record {
      run_id = 1;
      canonical_identity = [];
      store_code = codes "kabum";
      monitoring_item_id = 7;
      store_id = 2;
    })
unfolding claim_shared_collection text_in any_of
grants_first = refl

grants_second :
    (claim_shared_collection lowest shops usual 2000000 2 8 2 none 100 new_tables).0
    ≡ some (record {
      run_id = 2;
      canonical_identity = [];
      store_code = codes "kabum";
      monitoring_item_id = 8;
      store_id = 2;
    })
unfolding claim_shared_collection text_in any_of
grants_second = refl

other_item : ◌≢◌ {A = ℕ} 8 7
other_item e = omega (arith, e)

abbrev after_first : Db
after_first = (claim_shared_collection lowest shops usual 2000000 1 7 2 none 100 new_tables).1

overlapping_claims_granted_example :
    ((claim_having_seen lowest shops usual 2000000 (λ s. none) 2 8 2 none 100 after_first).0
      ≡ some (record {
        run_id = 2;
        canonical_identity = [];
        store_code = codes "kabum";
        monitoring_item_id = 8;
        store_id = 2;
      }))
    × (100 < 100 + 2000000
        → (claim_having_seen lowest shops usual 2000000 after_first.throttle 2 8 2 none 100
            after_first).0
          ≡ none)
overlapping_claims_granted_example =
    overlapping_claims_granted lowest shops usual 2000000 1 2 7 8 2 none none 100 100 new_tables _ _
      other_item grants_first grants_second

lowest_drawn : (lo hi : ℕ) → lo ≤ hi → minutes lo ≤ lowest lo hi
lowest_drawn lo hi h = omega arith

run-recollection_example :
    IsSpaced
      (recollection usual)
      (of_pair 7 2 (run lowest shops usual 2000000 asked (fresh new_tables)).log)
run-recollection_example =
    run-recollection lowest shops usual 2000000 lowest_drawn usual_valid 7 2 asked new_tables
