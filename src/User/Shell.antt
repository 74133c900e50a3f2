-- ===== src/User/Shell.antt =====
-- user/sh.c: how the shell splits a line, the list of its bytes before the NUL, into tokens.
pub mod Tokens
mod Tests
use oscourse.Base.{
  ℕ, zero, suc, Bool, true, false, not, ◌||◌, Option, none, some, List, [], ◌∷◌, ◌==◌,
  if◌then◌else◌,
}

-- `strchr(WHITESPACE, c)`, `strchr(SYMBOLS, c)` and `strchr(WHITESPACE SYMBOLS, c)` for a byte that is
-- not 0
abbrev pub is_white : ℕ → Bool
is_white c = (c == 32) || (c == 9) || (c == 13) || (c == 10)

abbrev pub is_symbol : ℕ → Bool
is_symbol c =
    (c == 60) || (c == 124) || (c == 62) || (c == 38) || (c == 59) || (c == 40) || (c == 41)

abbrev pub is_special : ℕ → Bool
is_special c = is_white c || is_symbol c

-- a symbol, or the bytes of a word
pub data Token : Type 0 where
  symbol : ℕ → Token
  word : List ℕ → Token

-- the first loop of `_gettoken`
pub skip_white : List ℕ → List ℕ
skip_white [] = []
skip_white (c ∷ s) = if is_white c then skip_white s else c ∷ s

-- the second: the bytes of a word, and what follows
pub word_at : List ℕ → List ℕ × List ℕ
word_at [] = ([], [])
word_at (c ∷ s) = let rest = word_at s in if is_special c then ([], c ∷ s) else (c ∷ rest.0, rest.1)

token_at : List ℕ → Option (Token × List ℕ)
unfolding word_at
token_at [] = none
token_at (c ∷ s) =
    if is_symbol c then some (symbol c, s) else some (word (word_at (c ∷ s)).0, (word_at (c ∷ s)).1)

-- `_gettoken` on a string: the token and what follows it, or nothing at the end
unfoldable pub gettoken : List ℕ → Option (Token × List ℕ)
unfolding skip_white token_at
gettoken s = token_at (skip_white s)

-- successive calls of `_gettoken`, each on what the last one left, on fuel
pub tokens : (fuel : ℕ) → List ℕ → List Token
tokens zero s = []
tokens (suc fuel) s = elim (gettoken s) [ none ↦ [] | some (t, rest) ↦ t ∷ tokens fuel rest ]
