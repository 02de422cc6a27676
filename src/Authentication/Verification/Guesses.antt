-- ===== src/Authentication/Verification/Guesses.antt =====
-- A challenge is confirmed once at most, and guessing it is bounded.
use mathlib.Core.Path.{subst}
use aishopping_agent.Common.{
  sym, ltb, ◌==◌, ◌==◌, ℕ, suc, ◌+◌, ◌≡◌, ◌≤◌, ◌<◌, inl, inr, refl, true, false, List, [], ◌∷◌,
  some, All, length, arith, Bool-cases, if◌then◌else◌, ◌∙◌, is_none,
}
use aishopping_agent.Authentication.Verification.{
  VerificationChallenge, Guess, is_open, with_row, find_challenge, guess_row, confirm_found,
  confirm_challenge, challenge_max_attempts,
}

find-id :
    (id : ℕ) (table : List VerificationChallenge) (c : VerificationChallenge)
    → find_challenge id table ≡ some c
    → c.id ≡ id
unfolding find_challenge
find-id id [] c h = cc
find-id id (x ∷ xs) c h = ground (arith, find-id id xs c)

find-with_row :
    (id : ℕ) (table : List VerificationChallenge) (c d : VerificationChallenge)
    → find_challenge id table ≡ some c
    → d.id ≡ id
    → find_challenge id (with_row d table) ≡ some d
unfolding find_challenge with_row
find-with_row id [] c d h same = cc
find-with_row id (x ∷ xs) c d h same = ground (arith, find-with_row id xs c d)

module _ (code_digest : ℕ → ℕ) where
  guess_row-id : (g : Guess) (c : VerificationChallenge) → (guess_row code_digest g c).1.id ≡ c.id
  unfolding guess_row
  guess_row-id g c = ground arith

  -- What a guess does to the row it is about.
  confirm-found_row :
      (id : ℕ) (g : Guess) (table : List VerificationChallenge) (c : VerificationChallenge)
      → find_challenge id table ≡ some c
      → ((confirm_challenge code_digest id g table).0 ≡ (guess_row code_digest g c).0)
        × (find_challenge id (confirm_challenge code_digest id g table).1
            ≡ some (guess_row code_digest g c).1)
  unfolding confirm_challenge confirm_found
  confirm-found_row id g table c h =
      rw h (refl, find-with_row id table c _ h (guess_row-id g c ∙ find-id id table c h))

  -- All guesses of one challenge, one after another; how many of them confirmed it.
  unfoldable pub guess_all :
      ℕ → List Guess → List VerificationChallenge → ℕ × List VerificationChallenge
  guess_all id [] table = (0, table)
  guess_all id (g ∷ gs) table =
      let (confirmed, after) = confirm_challenge code_digest id g table in
      let (n, final) = guess_all id gs after in (if confirmed then suc n else n, final)

  unfoldable guess_rows : List Guess → VerificationChallenge → ℕ × VerificationChallenge
  guess_rows [] c = (0, c)
  guess_rows (g ∷ gs) c =
      let (confirmed, after) = guess_row code_digest g c in
      let (n, final) = guess_rows gs after in (if confirmed then suc n else n, final)

  guess_all-rows :
      (id : ℕ) (gs : List Guess) (table : List VerificationChallenge) (c : VerificationChallenge)
      → find_challenge id table ≡ some c
      → ((guess_all id gs table).0 ≡ (guess_rows gs c).0)
        × (find_challenge id (guess_all id gs table).1 ≡ some (guess_rows gs c).1)
  unfolding guess_all guess_rows
  guess_all-rows id [] table c h = (refl, h)
  guess_all-rows id (g ∷ gs) table c h =
      let (same, found) = confirm-found_row id g table c h in
      let (n, final) = guess_all-rows id gs _ _ found in rw (same, n) (refl, final)

  used-refuses :
      (gs : List Guess) (c : VerificationChallenge)
      → is_none c.used_at ≡ false
      → ((guess_rows gs c).0 ≡ 0) × ((guess_rows gs c).1 ≡ c)
  unfolding guess_rows guess_row is_open
  used-refuses [] c h = (refl, refl)
  used-refuses (g ∷ gs) c h = ground (arith, used-refuses gs c h)

  rows_bounded :
      (gs : List Guess) (c : VerificationChallenge)
      → c.attempts ≤ challenge_max_attempts
      → ((guess_rows gs c).0 ≤ 1) × ((guess_rows gs c).1.attempts ≤ challenge_max_attempts)
  unfolding guess_rows guess_row is_open
  rows_bounded [] c h = ground arith
  rows_bounded (g ∷ gs) c h = ground (
    arith,
    rows_bounded gs c,
    rows_bounded gs (record c { attempts = suc c.attempts }),
    used-refuses gs (record c { used_at = some g.now }),
  )

  -- Of any guesses of a stored challenge with at most five counted attempts, at any times and in any
  -- order, one at most confirms it, and the count of its wrong codes never passes five.
  pub guess_all_bounded :
      (id : ℕ) (gs : List Guess) (table : List VerificationChallenge) (c : VerificationChallenge)
      → find_challenge id table ≡ some c
      → c.attempts ≤ challenge_max_attempts
      → ((guess_all id gs table).0 ≤ 1)
        × ((d : VerificationChallenge) × (find_challenge id (guess_all id gs table).1 ≡ some d)
            × (d.attempts ≤ challenge_max_attempts))
  guess_all_bounded id gs table c h k =
      let (n, final) = guess_all-rows id gs table c h in
      let (once, few) = rows_bounded gs c k in (omega arith, ((guess_rows gs c).1, final, few))

  -- A guess of another code.
  abbrev pub IsWrong : VerificationChallenge → Guess → Type 0
  IsWrong c g = ((c.code_hash == code_digest g.code) ≡ false)

  exhausted_rows :
      (gs : List Guess) (c : VerificationChallenge)
      → challenge_max_attempts ≤ c.attempts
      → ((guess_rows gs c).0 ≡ 0) × ((guess_rows gs c).1 ≡ c)
  unfolding guess_rows guess_row is_open
  exhausted_rows [] c h = (refl, refl)
  exhausted_rows (g ∷ gs) c h = ground (arith, exhausted_rows gs c h)

  wrong_row :
      (g : Guess) (c : VerificationChallenge)
      → IsWrong c g
      → is_open g (record c { attempts = 0 }) ≡ true
      → c.attempts < challenge_max_attempts
      → (guess_row code_digest g c).1 ≡ record c { attempts = suc c.attempts }
  unfolding guess_row is_open
  wrong_row g c w o h = ground arith

  wrong_rows :
      (gs : List Guess) (c : VerificationChallenge)
      → All (IsWrong c) gs
      → All (λ g. is_open g (record c { attempts = 0 }) ≡ true) gs
      → challenge_max_attempts ≤ c.attempts + length gs
      → challenge_max_attempts ≤ (guess_rows gs c).1.attempts
  unfolding guess_rows
  wrong_rows [] c w o h = omega arith
  wrong_rows (g ∷ gs) c w o h = elim (Bool-cases (ltb c.attempts challenge_max_attempts)) [
    | inl e ↦
        rw (wrong_row g c w.0 o.0 (ground arith))
          (wrong_rows gs (record c { attempts = suc c.attempts }) w.1 o.1 (omega arith))
    | inr e ↦
        let full : challenge_max_attempts ≤ c.attempts = ground arith in
        let same = (exhausted_rows (g ∷ gs) c full).1 in
        subst (λ d. challenge_max_attempts ≤ d.attempts) (sym same) full
  ]

  -- Guessing locks a stored challenge: after wrong codes for it, each given while it is unused and in
  -- time and for a right purpose, that together with those counted before make five or more, no
  -- later guess confirms it, the right code included.
  pub wrong_guesses_lock :
      (id : ℕ) (gs : List Guess) (table : List VerificationChallenge) (c : VerificationChallenge)
      (g : Guess)
      → find_challenge id table ≡ some c
      → All (IsWrong c) gs
      → All (λ x. is_open x (record c { attempts = 0 }) ≡ true) gs
      → challenge_max_attempts ≤ c.attempts + length gs
      → (confirm_challenge code_digest id g (guess_all id gs table).1).0 ≡ false
  wrong_guesses_lock id gs table c g h w o many =
      let (n, final) = guess_all-rows id gs table c h in
      let full = wrong_rows gs c w o many in
      (confirm-found_row id g _ _ final).0 ∙ locked (guess_rows gs c).1 full
    where
      locked :
          (d : VerificationChallenge)
          → challenge_max_attempts ≤ d.attempts
          → (guess_row code_digest g d).0 ≡ false
      locked d k = unfold guess_row is_open in ground arith
