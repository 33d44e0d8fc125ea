-- ===== src/Common/Word.antt =====
-- Machine words: a word of `w` bits is a number below `2 ^ w`, and `h` stands for `2 ^ (w - 1)`.
-- `signed h x` is the two's complement reading of `x`.
use Prim.Native.Nat.{ℕ, ◌+◌, ◌-◌, ◌*◌, ◌/◌, ◌%◌, ◌≤◌, ◌<◌}
use mathlib.Core.Path.{◌≡◌, ◌∙◌}
use mathlib.Core.Logic.{◌⊎◌, inl, inr}
use mathlib.Core.Bool.{Bool, true, false, xor}
use native.Mathlib.Omega.{arith}
use native.Mathlib.Decide.{dec_lt}
use rustc_codegen_cranelift.Common.Tests.{ltb, leb, if◌then◌else◌}
use rustc_codegen_cranelift.Common.Int.{
  ℤ, pos, negsuc, ltb_ℤ, ◌+ℤ◌, ◌-ℤ◌, sub_ℕ, pos_part, neg_part,
}

abbrev pub signed : ℕ → ℕ → ℤ
signed h x = if ltb x h then pos x else negsuc (2 * h - x - 1)

-- The integer does not fit a signed word.
abbrev pub out_of_range : ℕ → ℤ → Bool
out_of_range h (pos n) = leb h n
out_of_range h (negsuc n) = leb h n

-- The word with `m` values that an integer wraps to.
abbrev pub to_word : ℕ → ℤ → ℕ
to_word m (pos n) = n % m
to_word m (negsuc n) = m - 1 - n % m

-- The integer quotient by `m`, rounded down: the high word of a double word.
abbrev pub high_word : ℕ → ℤ → ℤ
high_word m (pos n) = pos (n / m)
high_word m (negsuc n) = negsuc (n / m)

pub mod_below : (x m : ℕ) → x < m → x % m ≡ x
mod_below x m h = grind arith

pub mod_above : (x m : ℕ) → m ≤ x → x < m + m → x % m ≡ x - m
mod_above x m h k = grind arith

-- The two values of a wrapping sum and of a wrapping difference.
pub add_cases :
    (a b m : ℕ)
    → a < m
    → b < m
    → ((a + b < m) × ((a + b) % m ≡ a + b)) ⊎ ((m ≤ a + b) × ((a + b) % m ≡ a + b - m))
add_cases a b m ha hb = elim (dec_lt (a + b) m) [
  | yes p ↦ inl (p, mod_below (a + b) m p)
  | no p ↦ inr (omega arith, mod_above (a + b) m (omega arith) (omega arith))
]

pub sub_cases :
    (a b m : ℕ)
    → a < m
    → b < m
    → ((b ≤ a) × ((a + m - b) % m ≡ a - b)) ⊎ ((a < b) × ((a + m - b) % m ≡ a + m - b))
sub_cases a b m ha hb = elim (dec_lt a b) [
  | yes p ↦ inr (p, mod_below (a + m - b) m (omega arith))
  | no p ↦ inl (omega arith, mod_above (a + m - b) m (omega arith) (omega arith) ∙ omega arith)
]

-- The unsigned carry of a sum shows in a comparison with an operand.
pub carry-add : (a b m : ℕ) → a < m → b < m → ltb ((a + b) % m) a ≡ leb m (a + b)
carry-add a b m ha hb = ground (arith, add_cases a b m ha hb)

pub borrow-sub : (a b m : ℕ) → a < m → b < m → ltb a ((a + m - b) % m) ≡ ltb a b
borrow-sub a b m ha hb = ground (arith, sub_cases a b m ha hb)

-- The signed overflow of a sum.
pub overflow-add :
    (a b h : ℕ)
    → a < 2 * h
    → b < 2 * h
    → xor (ltb_ℤ (signed h b) (pos 0)) (ltb_ℤ (signed h ((a + b) % (2 * h))) (signed h a))
      ≡ out_of_range h (signed h a +ℤ signed h b)
unfolding ◌+ℤ◌ xor
overflow-add a b h ha hb = ground (arith, add_cases a b (2 * h) ha hb)

pub overflow-sub :
    (a b h : ℕ)
    → a < 2 * h
    → b < 2 * h
    → xor (ltb_ℤ (signed h b) (pos 0)) (ltb_ℤ (signed h a) (signed h ((a + 2 * h - b) % (2 * h))))
      ≡ out_of_range h (signed h a -ℤ signed h b)
unfolding ◌-ℤ◌ xor
overflow-sub a b h ha hb = ground (arith, sub_cases a b (2 * h) ha hb)

-- Where the exact result fits, the wrapped word denotes it.
pub signed-add :
    (a b h : ℕ)
    → a < 2 * h
    → b < 2 * h
    → out_of_range h (signed h a +ℤ signed h b) ≡ false
    → signed h ((a + b) % (2 * h)) ≡ signed h a +ℤ signed h b
unfolding ◌+ℤ◌ xor
signed-add a b h ha hb fits = ground (arith, add_cases a b (2 * h) ha hb)

pub signed-sub :
    (a b h : ℕ)
    → a < 2 * h
    → b < 2 * h
    → out_of_range h (signed h a -ℤ signed h b) ≡ false
    → signed h ((a + 2 * h - b) % (2 * h)) ≡ signed h a -ℤ signed h b
unfolding ◌-ℤ◌ xor
signed-sub a b h ha hb fits = ground (arith, sub_cases a b (2 * h) ha hb)

-- An integer that is `r`, or one modulus below it, wraps to `r`.
pub to_word_at :
    (z : ℤ) (r m : ℕ)
    → r < m
    → (pos_part z ≡ r + neg_part z) ⊎ (pos_part z + m ≡ r + neg_part z)
    → to_word m z ≡ r
to_word_at (pos n) r m hr h = mod_below n m (ground arith) ∙ ground arith
to_word_at (negsuc n) r m hr h = ground (arith, mod_below n m)

-- The wrapped word of a signed sum is the wrapping sum of the words.
pub wrap-signed-add :
    (a b h : ℕ)
    → a < 2 * h
    → b < 2 * h
    → to_word (2 * h) (signed h a +ℤ signed h b) ≡ (a + b) % (2 * h)
unfolding ◌+ℤ◌
wrap-signed-add a b h ha hb =
    to_word_at (signed h a +ℤ signed h b) ((a + b) % (2 * h)) (2 * h)
      (ground (arith, add_cases a b (2 * h) ha hb)) (ground (arith, add_cases a b (2 * h) ha hb))

pub wrap-signed-sub :
    (a b h : ℕ)
    → a < 2 * h
    → b < 2 * h
    → to_word (2 * h) (signed h a -ℤ signed h b) ≡ (a + 2 * h - b) % (2 * h)
unfolding ◌-ℤ◌
wrap-signed-sub a b h ha hb =
    to_word_at (signed h a -ℤ signed h b) ((a + 2 * h - b) % (2 * h)) (2 * h)
      (ground (arith, sub_cases a b (2 * h) ha hb)) (ground (arith, sub_cases a b (2 * h) ha hb))

pub wrap-sub : (a b m : ℕ) → a < m → b < m → to_word m (sub_ℕ a b) ≡ (a + m - b) % m
wrap-sub a b m ha hb =
    to_word_at (sub_ℕ a b) ((a + m - b) % m) m (ground (arith, sub_cases a b m ha hb))
      (ground (arith, sub_cases a b m ha hb))

-- The integers that a word of the given signedness does not hold.
abbrev pub misfits : Bool → ℕ → ℤ → Bool
misfits true h z = out_of_range h z
misfits false h (pos n) = leb (2 * h) n
misfits false h (negsuc n) = true

pub misfits-sub : (a b h : ℕ) → a < 2 * h → misfits false h (sub_ℕ a b) ≡ ltb a b
misfits-sub a b h ha = ground arith

pub pos-add : (a b : ℕ) → pos a +ℤ pos b ≡ pos (a + b)
unfolding ◌+ℤ◌
pos-add a b = ground arith

pub pos-sub : (a b : ℕ) → pos a -ℤ pos b ≡ sub_ℕ a b
unfolding ◌-ℤ◌
pos-sub a b = ground arith

pub signed_zero : (h : ℕ) → 0 < h → signed h 0 ≡ pos 0
signed_zero h pos_h = ground arith
