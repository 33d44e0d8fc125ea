-- ===== src/Common/Bits.antt =====
-- Masks of the high bits of a word, by its digits: `bit_and` with `-(2 ^ k)` rounds down.
use Prim.Native.Nat.{
  ℕ, zero, suc, ◌+◌, ◌-◌, ◌*◌, ◌/◌, ◌%◌, ◌^◌, ◌≤◌, ◌<◌, min, bit_and, digits, bit_and-bitwise,
}
use mathlib.Core.Path.{◌≡◌, refl, ap}
use native.Mathlib.Omega.{arith}
use native.Mathlib.Nat.{pow-suc, one-le-pow, le_refl, pow-le-pow_right}

-- Fuel beyond the number does not change what the digits give.
enough_digits :
    (z : ℕ → ℕ) (f : ℕ → ℕ → ℕ) (m n a b : ℕ) → a ≤ m → a ≤ n → digits z f m a b ≡ digits z f n a b
enough_digits z f zero zero a b h k = refl
enough_digits z f zero (suc n) zero b h k = refl
enough_digits z f (suc m) zero zero b h k = refl
enough_digits z f (suc m) (suc n) zero b h k = refl
enough_digits z f zero n (suc a) b h k = absurd (omega arith)
enough_digits z f (suc m) zero (suc a) b h k = absurd (omega arith)
enough_digits z f (suc m) (suc n) (suc a) b h k =
    rw (enough_digits z f m n (suc a / 2) (b / 2) (omega arith) (omega arith)) refl

-- The lowest digit, and the digits above it.
low_digit : (a b : ℕ) → bit_and a b ≡ bit_and (a / 2) (b / 2) * 2 + min (a % 2) (b % 2)
low_digit zero b = simp bit_and-bitwise (omega arith)
low_digit (suc a) b = simp bit_and-bitwise (
    omega (
      arith,
      enough_digits (λ _. 0) min a (suc a / 2) (suc a / 2) (b / 2) (omega arith) (le_refl _),
    ))

high_fields :
    (w k q r : ℕ)
    → k ≤ w
    → r < 2 ^ k
    → q * 2 ^ k + r < 2 ^ w
    → bit_and (q * 2 ^ k + r) (2 ^ w - 2 ^ k) ≡ q * 2 ^ k
high_fields zero zero q r h rk lt =
    let none_left : q * 1 + r ≡ 0 = omega arith in rw none_left (omega (arith, low_digit 0 0))
high_fields zero (suc k) q r h rk lt = absurd (omega arith)
high_fields (suc w) zero q r h rk lt = ground (
  arith,
  low_digit (q * 1 + r) (2 ^ suc w - 1),
  pow-suc 2 w,
  one-le-pow w 2,
  high_fields w zero (q / 2) 0 (omega arith) (omega arith) (omega (arith, pow-suc 2 w)),
)
high_fields (suc w) (suc k) q r h rk lt =
    let half : q * 2 ^ suc k ≡ 2 * (q * 2 ^ k) =
      omega (arith, ap (λ (t : ℕ). q * t) (pow-suc 2 k)) in
    ground (
      arith,
      low_digit (q * 2 ^ suc k + r) (2 ^ suc w - 2 ^ suc k),
      half,
      pow-suc 2 w,
      pow-suc 2 k,
      pow-le-pow_right {n = 2} (omega arith) h,
      high_fields w k q (r / 2) (omega arith) (omega (arith, pow-suc 2 k))
          (omega (arith, pow-suc 2 w, pow-suc 2 k, half)),
    )

-- A word without its `k` low digits.
pub bit_and-high : (w k x : ℕ) → k ≤ w → x < 2 ^ w → bit_and x (2 ^ w - 2 ^ k) ≡ x / 2 ^ k * 2 ^ k
bit_and-high w k x h lt = ground (arith, one-le-pow k 2, high_fields w k (x / 2 ^ k) (x % 2 ^ k) h)
