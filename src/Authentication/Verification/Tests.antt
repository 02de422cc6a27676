-- ===== src/Authentication/Verification/Tests.antt =====
-- One challenge and its guesses.
use aishopping_agent.Common.{
  ℕ, ◌+◌, ◌≤◌, ◌≡◌, refl, arith, true, false, none, some, List, [], ◌∷◌, any_of,
}
use aishopping_agent.Authentication.Verification.{
  VerificationChallenge, VerificationPurpose, VerificationChannel, Guess, Fresh, is_open,
  find_challenge, confirm_challenge, new_challenge, same_purpose,
}
use aishopping_agent.Authentication.Verification.Guesses.{
  guess_all, guess_all_bounded, wrong_guesses_lock,
}

-- A digest that tells codes apart.
abbrev digest : ℕ → ℕ
digest code = code + 1

abbrev challenge : VerificationChallenge
challenge = record {
  id = 1;
  user_id = 5;
  purpose = VerificationPurpose.password_reset;
  channel = VerificationChannel.email;
  code_hash = 123457;
  expires_at = 900;
  used_at = none;
  attempts = 3;
  created_at = 300;
}

abbrev wrong : Guess
wrong = record { code = 7; purposes = VerificationPurpose.password_reset ∷ []; now = 400 }

abbrev right : Guess
right = record wrong { code = 123456 }

stored : find_challenge 1 (challenge ∷ []) ≡ some challenge
unfolding find_challenge
stored = refl

guess_all_bounded_example :
    ((guess_all digest 1 (wrong ∷ right ∷ right ∷ []) (challenge ∷ [])).0 ≤ 1)
    × ((d : VerificationChallenge) × (find_challenge 1
            (guess_all digest 1 (wrong ∷ right ∷ right ∷ []) (challenge ∷ [])).1
          ≡ some d)
        × (d.attempts ≤ 5))
guess_all_bounded_example =
    guess_all_bounded digest 1 (wrong ∷ right ∷ right ∷ []) (challenge ∷ []) challenge stored
      (omega arith)

wrong_guesses_lock_example :
    (confirm_challenge digest 1 right
      (guess_all digest 1 (wrong ∷ wrong ∷ []) (challenge ∷ [])).1).0
    ≡ false
wrong_guesses_lock_example =
    wrong_guesses_lock digest 1 (wrong ∷ wrong ∷ []) (challenge ∷ []) challenge right stored
      (refl, (refl, tt)) (in_time, (in_time, tt)) (omega arith)
  where
    in_time : is_open wrong (record challenge { attempts = 0 }) ≡ true
    in_time = unfold is_open any_of same_purpose in refl

abbrev fresh : Fresh
fresh = record { id = 2; created_at = 700000000; code = 42 }

abbrev after : List VerificationChallenge
after =
    new_challenge digest 5 VerificationPurpose.password_reset VerificationChannel.email 700000000
      fresh
    ∷ challenge
    ∷ []
