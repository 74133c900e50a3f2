-- ===== src/User/Shell/Tokens.antt =====
-- The tokens of a line hold all of it but the whitespace.
use oscourse.Base.{
  ℕ, zero, suc, ◌<◌, ◌≤◌, Bool, true, false, not, Option, none, some, List, [], ◌∷◌, ◌++◌,
  if◌then◌else◌, length, ◌≡◌, inl, inr, refl, ap, ◌∙◌, arith, Bool-cases,
}
use oscourse.User.Shell.{
  is_white, is_symbol, is_special, Token, symbol, word, skip_white, word_at, token_at, gettoken,
  tokens,
}

-- a line without its whitespace
pub without_white : List ℕ → List ℕ
without_white [] = []
without_white (c ∷ s) = if is_white c then without_white s else c ∷ without_white s

abbrev pub text : Token → List ℕ
text (symbol c) = c ∷ []
text (word w) = w

-- the tokens side by side
pub texts : List Token → List ℕ
texts [] = []
texts (t ∷ ts) = text t ++ texts ts

skip_white-without : (s : List ℕ) → without_white (skip_white s) ≡ without_white s
unfolding without_white skip_white
skip_white-without [] = refl
skip_white-without (c ∷ s) = elim (Bool-cases (is_white c)) [
  | inl e ↦ rw e (skip_white-without s)
  | inr e ↦ rw (e, e) refl
]

skip_white-length : (s : List ℕ) → length (skip_white s) ≤ length s
unfolding skip_white
skip_white-length [] = omega arith
skip_white-length (c ∷ s) = ground (arith, skip_white-length s)

-- what a word takes of a line
word_at-without : (s : List ℕ) → (word_at s).0 ++ without_white (word_at s).1 ≡ without_white s
unfolding without_white word_at
word_at-without [] = refl
word_at-without (c ∷ s) = elim (Bool-cases (is_special c)) [
  | inl e ↦ rw e refl
  | inr e ↦
      let plain : is_white c ≡ false = ground arith in
      rw (e, plain) (ap (λ l. c ∷ l) (word_at-without s))
]

word_at-length : (s : List ℕ) → length (word_at s).1 ≤ length s
unfolding word_at
word_at-length [] = omega arith
word_at-length (c ∷ s) = ground (arith, word_at-length s)

-- no whitespace comes first
starts_plain : List ℕ → Bool
starts_plain [] = true
starts_plain (c ∷ s) = not (is_white c)

skip_white-starts : (s : List ℕ) → starts_plain (skip_white s) ≡ true
unfolding starts_plain skip_white
skip_white-starts [] = refl
skip_white-starts (c ∷ s) = elim (Bool-cases (is_white c)) [
  | inl e ↦ rw e (skip_white-starts s)
  | inr e ↦ rw (e, e) refl
]

without_white-nil : [] ≡ without_white []
unfolding without_white
without_white-nil = refl

without_white-cons :
    (c : ℕ) (s : List ℕ) → is_white c ≡ false → c ∷ without_white s ≡ without_white (c ∷ s)
unfolding without_white
without_white-cons c s e = rw e refl

word_at-shorter :
    (c : ℕ) (s : List ℕ) → is_special c ≡ false → length (word_at (c ∷ s)).1 ≤ length s
unfolding word_at
word_at-shorter c s e = rw e (word_at-length s)

token_at-symbol : (c : ℕ) (s : List ℕ) → is_symbol c ≡ true → token_at (c ∷ s) ≡ some (symbol c, s)
unfolding token_at
token_at-symbol c s e = rw e refl

token_at-word :
    (c : ℕ) (s : List ℕ)
    → is_symbol c ≡ false
    → token_at (c ∷ s) ≡ some (word (word_at (c ∷ s)).0, (word_at (c ∷ s)).1)
unfolding token_at
token_at-word c s e =
    ap (λ b. if b then some (symbol c, s) else some (word (word_at (c ∷ s)).0, (word_at (c ∷ s)).1))
      e

-- the texts of a token, if there is one, and of those that follow it
texts_from : (fuel : ℕ) → Option (Token × List ℕ) → List ℕ
texts_from fuel o = texts (elim o [ none ↦ [] | some (t, rest) ↦ t ∷ tokens fuel rest ])

-- The tokens of a line without whitespace at its start.
texts_at :
    (fuel : ℕ) (u : List ℕ)
    → starts_plain u ≡ true
    → length u < suc fuel
    → ((r : List ℕ) → length r < fuel → texts (tokens fuel r) ≡ without_white r)
    → texts_from fuel (token_at u) ≡ without_white u
unfolding texts texts_from starts_plain token_at
texts_at fuel [] plain short more = without_white-nil
texts_at fuel (c ∷ s) plain short more =
    let black : is_white c ≡ false = ground arith in
    elim (Bool-cases (is_symbol c)) [
      | inl e ↦
          ap (texts_from fuel) (token_at-symbol c s e)
          ∙ ap (λ l. c ∷ l) (more s (omega arith))
          ∙ without_white-cons c s black
      | inr e ↦
          let ordinary : is_special c ≡ false = ground arith in
          let shorter : length (word_at (c ∷ s)).1 < fuel =
            omega (arith, word_at-shorter c s ordinary) in
          ap (texts_from fuel) (token_at-word c s e)
          ∙ ap (λ l. (word_at (c ∷ s)).0 ++ l) (more (word_at (c ∷ s)).1 shorter)
          ∙ word_at-without (c ∷ s)
    ]

-- If the fuel exceeds the length of the line, its tokens side by side are the line without its
-- whitespace: nothing else is lost, and nothing is added.
pub texts-tokens :
    (fuel : ℕ) (s : List ℕ) → length s < fuel → texts (tokens fuel s) ≡ without_white s
unfolding tokens gettoken texts_from
texts-tokens zero s short = absurd (omega arith)
texts-tokens (suc fuel) s short =
    texts_at fuel (skip_white s) (skip_white-starts s) (omega (arith, skip_white-length s))
      (λ r h. texts-tokens fuel r h)
    ∙ skip_white-without s
