-- ===== src/Events/Consumption/Codes.antt =====
-- The failure codes that are accepted, described apart from the matcher: words joined by `_`.
use aishopping_agent.Common.{
  ℕ, ◌≡◌, ◌≢◌, ◌↔◌, Bool, true, false, List, [], ◌∷◌, ◌++◌, arith, refl, All, Bool-cases, inl, inr,
  ap, sym,
}
use mathlib.Core.Path.{subst}
use aishopping_agent.Events.Consumption.{is_lower, is_word_char, code_tail, is_failure_code}

abbrev pub IsWord : List ℕ → Type 0
IsWord w = (w ≢ []) × All (λ c. is_word_char c ≡ true) w

-- Each of the words after a `_`.
abbrev pub joined : List (List ℕ) → List ℕ
joined [] = []
joined (w ∷ ws) = b'_' ∷ w ++ joined ws

-- A small letter and the rest of its word, then more words.
abbrev pub IsSnakeCase : List ℕ → Type 0
IsSnakeCase s =
    (c : ℕ) × (w : List ℕ) × (ws : List (List ℕ)) × (s ≡ c ∷ w ++ joined ws)
    × (is_lower c ≡ true)
    × All (λ x. is_word_char x ≡ true) w
    × All IsWord ws

-- How a rest is made up, after a character of a word (`true`) or after `_`.
abbrev Splits : Bool → List ℕ → Type 0
Splits in_word s =
    (w : List ℕ) × (ws : List (List ℕ)) × (s ≡ w ++ joined ws)
    × All (λ x. is_word_char x ≡ true) w
    × All IsWord ws
    × (in_word ≡ false → w ≢ [])

code_tail-Splits : (in_word : Bool) (s : List ℕ) → code_tail in_word s ≡ true → Splits in_word s
unfolding code_tail
code_tail-Splits in_word [] h = ([], [], refl, tt, tt, λ e. cc)
code_tail-Splits in_word (c ∷ cs) h = elim (Bool-cases (is_word_char c)) [
  | inl e ↦ longer e (code_tail-Splits true cs (ground arith))
  | inr e ↦ fresh (ground arith) (ground arith) (code_tail-Splits false cs (ground arith))
]
  where
    longer : is_word_char c ≡ true → Splits true cs → Splits in_word (c ∷ cs)
    longer e (w, ws, same, hw, hws, k) = (c ∷ w, ws, ap (λ r. c ∷ r) same, (e, hw), hws, λ q r. cc)

    fresh : c ≡ b'_' → in_word ≡ true → Splits false cs → Splits in_word (c ∷ cs)
    fresh e t (w, ws, same, hw, hws, k) = ([], w ∷ ws, cc, tt, ((k refl, hw), hws), λ q. cc)

word-tail :
    (in_word : Bool) (w rest : List ℕ)
    → All (λ x. is_word_char x ≡ true) w
    → (in_word ≡ false → w ≢ [])
    → code_tail true rest ≡ true
    → code_tail in_word (w ++ rest) ≡ true
unfolding code_tail
word-tail true [] rest h k t = t
word-tail false [] rest h k t = absurd (k refl refl)
word-tail in_word (c ∷ w) rest h k t = rw (h.0) (word-tail true w rest h.1 (λ e. cc) t)

underscore : is_word_char b'_' ≡ false
unfolding is_word_char is_lower
underscore = refl

joined-tail : (ws : List (List ℕ)) → All IsWord ws → code_tail true (joined ws) ≡ true
unfolding code_tail
joined-tail [] h = refl
joined-tail (w ∷ ws) h =
    rw underscore (word-tail false w (joined ws) h.0.1 (λ e. h.0.0) (joined-tail ws h.1))

-- The matcher accepts exactly the codes of that form.
pub is_failure_code-IsSnakeCase : (s : List ℕ) → (is_failure_code s ≡ true) ↔ IsSnakeCase s
unfolding is_failure_code
is_failure_code-IsSnakeCase s = (forth s, back s)
  where
    forth : (s : List ℕ) → is_failure_code s ≡ true → IsSnakeCase s
    forth [] h = cc
    forth (c ∷ cs) h =
        let (w, ws, same, hw, hws, k) = code_tail-Splits true cs (ground arith) in
        (c, w, ws, ap (λ r. c ∷ r) same, ground arith, hw, hws)

    back : (s : List ℕ) → IsSnakeCase s → is_failure_code s ≡ true
    back s (c, w, ws, same, lower, hw, hws) =
        subst (λ r. is_failure_code r ≡ true) (sym same)
          (rw lower (word-tail true w (joined ws) hw (λ e. cc) (joined-tail ws hws)))
