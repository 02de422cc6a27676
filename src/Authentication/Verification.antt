-- ===== src/Authentication/Verification.antt =====
-- backend/app/authentication/verification.py: challenges with a short code. The table is a list of
-- rows; a confirmation holds the row's lock, so operations are steps one after another. The code's
-- digest (HMAC-SHA256 with a pepper) and the random code are not known here: a digest is a parameter
-- and the code an argument. The row's identifier and `created_at` are what the database gives.
pub mod Guesses
pub mod Issuance
mod Tests
use aishopping_agent.Common.{
  suc, ℕ, ◌+◌, ◌*◌, List, [], ◌∷◌, map, Option, none, some, Bool, true, false, not, ◌&&◌, ◌||◌,
  ◌==◌, ltb, leb, if◌then◌else◌, is_none, count_of, any_of,
}
use aishopping_agent.Common.Time.{Datetime, require_aware, minutes}

pub data VerificationPurpose : Type 0 where
  password_reset password_change email_verification : VerificationPurpose

pub data VerificationChannel : Type 0 where
  telegram email : VerificationChannel

pub record VerificationChallenge : Type 0 where
  pub id : ℕ
  pub user_id : ℕ
  pub purpose : VerificationPurpose
  pub channel : VerificationChannel
  pub code_hash : ℕ
  pub expires_at : ℕ
  pub used_at : Option ℕ
  pub attempts : ℕ
  pub created_at : ℕ

pub data ChallengeError : Type 0 where
  rate_limited invalid naive_time : ChallengeError

pub data Result (A : Type 0) : Type 0 where
  ok : A → Result A
  err : ChallengeError → Result A

abbrev pub challenge_max_attempts : ℕ
challenge_max_attempts = 5

abbrev pub challenge_issuance_limit : ℕ
challenge_issuance_limit = 3

unfoldable pub same_purpose : VerificationPurpose → VerificationPurpose → Bool
same_purpose password_reset password_reset = true
same_purpose password_change password_change = true
same_purpose email_verification email_verification = true
same_purpose _ _ = false

-- The rows of one user and purpose.
unfoldable pub is_for : ℕ → VerificationPurpose → VerificationChallenge → Bool
unfolding same_purpose
is_for user purpose c = c.user_id == user && same_purpose c.purpose purpose

-- The rows that a new challenge of this user and purpose replaces.
unfoldable pub is_pending : ℕ → VerificationPurpose → ℕ → VerificationChallenge → Bool
unfolding is_for
is_pending user purpose now c = is_for user purpose c && is_none c.used_at && ltb now c.expires_at

unfoldable pub is_recent : ℕ → VerificationPurpose → ℕ → VerificationChallenge → Bool
unfolding is_for
is_recent user purpose now c = is_for user purpose c && ltb now (c.created_at + minutes 60)

unfoldable pub later_of : ℕ → Option ℕ → ℕ
later_of t none = t
later_of t (some u) = if ltb t u then u else t

-- The latest `created_at` of this user and purpose.
unfoldable pub latest : ℕ → VerificationPurpose → List VerificationChallenge → Option ℕ
unfolding is_for later_of
latest user purpose [] = none
latest user purpose (c ∷ cs) =
    let rest = latest user purpose cs in
    if is_for user purpose c then some (later_of c.created_at rest) else rest

unfoldable pub too_soon : Option ℕ → ℕ → Bool
too_soon none now = false
too_soon (some t) now = ltb now (t + minutes 5)

unfoldable pub within_issuance_limit :
    ℕ → VerificationPurpose → ℕ → List VerificationChallenge → Bool
unfolding is_recent latest too_soon
within_issuance_limit user purpose now table =
    not (leb challenge_issuance_limit (count_of (is_recent user purpose now) table))
    && not (too_soon (latest user purpose table) now)

unfoldable pub expired_at : ℕ → VerificationChallenge → VerificationChallenge
expired_at now c = record c { expires_at = now }

unfoldable pub expire_pending :
    ℕ → VerificationPurpose → ℕ → List VerificationChallenge → List VerificationChallenge
unfolding is_pending expired_at
expire_pending user purpose now [] = []
expire_pending user purpose now (c ∷ cs) =
    let rest = expire_pending user purpose now cs in
    (if is_pending user purpose now c then expired_at now c else c) ∷ rest

-- What the database and the random source give to a new row.
pub record Fresh : Type 0 where
  pub id : ℕ
  pub created_at : ℕ
  pub code : ℕ

-- A guess of a challenge's code, with the purposes the caller accepts.
pub record Guess : Type 0 where
  pub code : ℕ
  pub purposes : List VerificationPurpose
  pub now : ℕ

-- whether a challenge can still be confirmed
unfoldable pub is_open : Guess → VerificationChallenge → Bool
unfolding same_purpose
is_open g c =
    any_of (same_purpose c.purpose) g.purposes
    && is_none c.used_at
    && ltb g.now c.expires_at
    && ltb c.attempts challenge_max_attempts

unfoldable pub with_row :
    VerificationChallenge → List VerificationChallenge → List VerificationChallenge
with_row c [] = []
with_row c (x ∷ xs) = let rest = with_row c xs in (if x.id == c.id then c else x) ∷ rest

unfoldable pub find_challenge : ℕ → List VerificationChallenge → Option VerificationChallenge
find_challenge id [] = none
find_challenge id (x ∷ xs) = let rest = find_challenge id xs in if x.id == id then some x else rest

module _ (code_digest : ℕ → ℕ) where
  unfoldable pub new_challenge :
      ℕ → VerificationPurpose → VerificationChannel → ℕ → Fresh → VerificationChallenge
  new_challenge user purpose channel now fresh = record {
    id = fresh.id;
    user_id = user;
    purpose = purpose;
    channel = channel;
    code_hash = code_digest fresh.code;
    expires_at = now + minutes 10;
    used_at = none;
    attempts = 0;
    created_at = fresh.created_at;
  }

  unfoldable pub create_at :
      Option ℕ
      → ℕ
      → VerificationPurpose
      → VerificationChannel
      → Fresh
      → List VerificationChallenge
      → Result (ℕ × List VerificationChallenge)
  unfolding within_issuance_limit expire_pending new_challenge
  create_at none user purpose channel fresh table = err naive_time
  create_at (some now) user purpose channel fresh table =
      if within_issuance_limit user purpose now table
      then ok (
        fresh.code,
        new_challenge user purpose channel now fresh ∷ expire_pending user purpose now table,
      )
      else err rate_limited

  -- The clear code, for the caller to deliver, and the table.
  unfoldable pub create_challenge :
      Datetime
      → ℕ
      → VerificationPurpose
      → VerificationChannel
      → Fresh
      → List VerificationChallenge
      → Result (ℕ × List VerificationChallenge)
  unfolding create_at
  create_challenge now = create_at (require_aware now)

  -- The row after a guess, and whether the guess confirmed it.
  unfoldable pub guess_row : Guess → VerificationChallenge → Bool × VerificationChallenge
  unfolding is_open
  guess_row g c =
      if not (is_open g c)
      then (false, c)
      else if not (c.code_hash == code_digest g.code)
      then (false, record c { attempts = suc c.attempts })
      else (true, record c { used_at = some g.now })

  unfoldable pub confirm_found :
      Guess
      → Option VerificationChallenge
      → List VerificationChallenge
      → Bool × List VerificationChallenge
  unfolding guess_row with_row
  confirm_found g none table = (false, table)
  confirm_found g (some c) table =
      let (confirmed, after) = guess_row g c in (confirmed, with_row after table)

  -- `false` stands for `ChallengeInvalid`, which the caller turns into a response after a commit.
  unfoldable pub confirm_challenge :
      ℕ → Guess → List VerificationChallenge → Bool × List VerificationChallenge
  unfolding confirm_found find_challenge
  confirm_challenge id g table = confirm_found g (find_challenge id table) table
