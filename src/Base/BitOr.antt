-- ===== src/Base/BitOr.antt =====
-- `|` of a word whose low digits are clear with a value that fits those digits: the way that the
-- kernel joins an address with flags, and a generation with an index.
use Prim.Native.Nat.{
  ℕ, zero, suc, ◌+◌, ◌*◌, ◌/◌, ◌^◌, ◌≤◌, ◌<◌, max, bit_or, digits, bit_or-bitwise,
}
use mathlib.Core.Path.{◌≡◌, refl, ap, ◌∙◌}
use native.Mathlib.Nat.{pow-suc}
use native.Mathlib.Omega.{arith}

-- the recursion that `bit_or` stands for, on fuel `n`
abbrev or_digits : ℕ → ℕ → ℕ → ℕ
or_digits n a b = digits (λ y. y) max n a b

or_digits-zero : (a n : ℕ) → a ≤ n → or_digits n a 0 ≡ a
or_digits-zero zero zero h = refl
or_digits-zero zero (suc n) h = refl
or_digits-zero (suc a) zero h = elim h [ ]
or_digits-zero (suc a) (suc n) h = omega (arith, or_digits-zero (suc a / 2) n (omega arith))

double : (q k : ℕ) → q * 2 ^ suc k ≡ 2 * (q * 2 ^ k)
double q k = omega (arith, ap (λ (t : ℕ). q * t) (pow-suc 2 k))

-- With enough fuel, an `|` with a value below `2 ^ k` adds it to a multiple of `2 ^ k`.
or_digits-fields : (k q r n a : ℕ) → r < 2 ^ k → a ≡ q * 2 ^ k → a ≤ n → or_digits n a r ≡ a + r
or_digits-fields zero q r n a fits e fuel =
    let e' : r ≡ 0 = omega arith in rw e' (omega (arith, or_digits-zero a n fuel))
or_digits-fields (suc k) q r zero zero fits e fuel = omega arith
or_digits-fields (suc k) q r (suc n) zero fits e fuel = omega arith
or_digits-fields (suc k) q r zero (suc a) fits e fuel = elim fuel [ ]
or_digits-fields (suc k) q r (suc n) (suc a) fits e fuel = omega (
  arith,
  double q k,
  pow-suc 2 k,
  or_digits-fields k q (r / 2) n (suc a / 2) (omega (arith, pow-suc 2 k))
      (omega (arith, double q k)) (omega arith),
)

-- `(q << k) | r` is the sum when `r` fits `k` digits.
pub bit_or-fields : (k q r : ℕ) → r < 2 ^ k → bit_or (q * 2 ^ k) r ≡ q * 2 ^ k + r
bit_or-fields k q r fits =
    bit_or-bitwise (q * 2 ^ k) r
    ∙ or_digits-fields k q r (q * 2 ^ k) (q * 2 ^ k) fits refl (omega arith)
