-- ===== src/Lib.antt =====
-- Verification library of AIShoppingAgent: a service that watches prices for its users' missions,
-- collects offers, prices them with coupons, raises alerts and recommends a purchase.
--
-- The parts modelled, and how they interact:
--   * Core (backend/app/core/resilience.py): the circuit breaker, Core/Breaker, and retrying with
--     backoff, Core/Retry. A breaker's method reads the clock once under its lock, so a method is a
--     function of the state and that reading, and threads are sequences of calls (Breaker/Trace).
--     `retry_operation` is a loop on the rounds left, at most `max_attempts`, which is its fuel; the
--     operation, the test for transient errors and the random source are arguments.
--   * AiProvider (backend/app/ai_provider/manager.py): `_attempt_provider`, the client of the
--     breaker; how the provider replies is an argument.
--   * Missions (backend/app/missions/): Data has the rows, Lookup the lemmas on them as tables;
--     Schedule is schedule.py; Lifecycle has the switching of store collection of monitoring.py, and
--     Lifecycle/Step the function `transition_mission` of service.py with its guards in their order.
--     The tables that a transition reads and writes are one record, and a transition is a step on it.
--     It asks Quotas whether a mission may become active; the code counts the user's other missions
--     for that without a lock, so the step is that of a transition which no other of the user overlaps.
--   * Quotas (backend/app/quotas/service.py): limits by role and override, usage, the check of an
--     activation and the reservation of a search, whose count and insertion take no lock: in
--     Quotas/Searches a count may miss the latest rows.
--   * Coupons (backend/app/coupons/pricing.py): Pricing has the price with a coupon and the reduction
--     of candidates, Pricing/Url the applicability to an offer's URL, Pricing/Best the choice.
--   * Alerts (backend/app/alerts/, and the payloads of backend/app/events/catalog.py): Evaluator is
--     evaluator.py and material_improvement.py.
--   * Authentication/Verification (backend/app/authentication/verification.py): codes that confirm an
--     action, how they are issued, and how they are guessed.
--   * Authentication/Linking (backend/app/authentication/telegram_linking.py): codes that link a Telegram
--     account to a user.
--   * Purchase (backend/app/purchase/): the root is service.py, the evidence of each offer, its
--     ranking and the recommendation; Purchase/Comparison is comparison.py, which raises where a
--     result does not pass its own checks; Purchase/Confirmation is confirmation.py, a request bound
--     to the evidence shown and what a decision on it gives; Purchase/Trail is trail.py, the stored
--     confirmation, whose rows are in Purchase/Records. It asks the comparison again when an offer is
--     confirmed, and a rival transaction's entry is an argument.
--   * Events/Consumption (backend/app/events/consumption.py): claims of events by a consumer and the
--     record of its attempts.
--   * Collection (backend/app/collection/): Cadence is cadence.py, when an item is due; Runs has the
--     runs and their end of persistence.py, Tables the other rows; Claim is shared_claim.py with the claim of a mission's
--     own source of orchestration.py, which share the throttle of a shop. That throttle is read without a lock: Claim/History
--     has histories of transactions that do not overlap, Claim/Overlap two claims that do; Fairness is fairness.py, the turns of users; Funnel is funnel.py, the
--     choice of offers for the classification; Batch is `claim_due_work` of orchestration.py, which
--     reserves owners, claims for them over both paths and charges turns. The backoff of
--     Missions/Schedule is the one that Claim applies.
--   * Telegram/Limits (backend/app/telegram/limits.py): the reservation of an update, with replay and
--     rate limit; receipts that other users insert meanwhile are an argument.
--   * Common: Boolean tests, lists, a stable sort, integers, instants and text.
--
-- Conventions. Instants are natural numbers of microseconds, amounts natural numbers of
-- ten-thousandths (the scale of the columns), texts lists of code points, identifiers numbers in the
-- order of the identifiers' text. The result of a function that may raise is a data type with its
-- errors. An operation is one step on the tables as it reads them, and orders of operations are lists;
-- where the code reads shared rows without a lock (the throttle of a shop, the counts of a quota) the
-- part says so. The rows of an item at a store, of a challenge, of a queue and of a user are locked. A
-- function that exists in a synchronous and an asynchronous form is modelled once.
--
-- Parameters of the models, as code that is not in the repository: `urllib.parse` and `str.lower`
-- (Coupons.Pricing.Url.UrlLib), `str.isspace` (Missions.Lifecycle.Step.Context, Events.Consumption),
-- `str.casefold` (Purchase.Comparison), the digest of a code (Authentication), the
-- random numbers, `random.uniform` being assumed to stay within its interval where a theorem needs
-- it.
--
-- Not modelled: the database itself (constraints enter as the types of columns, and as hypotheses
-- that identifiers are unique), HTTP handlers, the Telegram bot's dialogue, the queries that select
-- work, the providers of offers, product identity, language-model calls, migrations and the user
-- interface: they are I/O, text heuristics or thin layers over the parts above.
pub mod AiProvider
pub mod Alerts
pub mod Authentication
pub mod Collection
pub mod Common
pub mod Core
pub mod Coupons
pub mod Events
pub mod Missions
pub mod Purchase
pub mod Quotas
pub mod Telegram
