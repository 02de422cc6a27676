-- ===== src/Authentication/Verification/Issuance.antt =====
-- What an issued challenge replaces, and how often one is issued.
use aishopping_agent.Common.{ℕ, ◌+◌, ◌≡◌, ◌≤◌, true}
use aishopping_agent.Common.Time.{minutes}
use aishopping_agent.Authentication.Verification.{
  VerificationChallenge, VerificationPurpose, is_for,
}

-- The rows of this user and purpose were created long enough ago.
abbrev pub IsSpaced : ℕ → VerificationPurpose → ℕ → VerificationChallenge → Type 0
IsSpaced user purpose now c = is_for user purpose c ≡ true → c.created_at + minutes 5 ≤ now
