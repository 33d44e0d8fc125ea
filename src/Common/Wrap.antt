-- ===== src/Common/Wrap.antt =====
-- The words that integers wrap to: a word with `m` values stands for the integers that differ from it by
-- multiples of `m`, and the word of a sum is the wrapping sum of the words.
use Prim.Native.Nat.{ℕ, suc, ◌+◌, ◌-◌, ◌*◌, ◌/◌, ◌%◌, ◌<◌}
use mathlib.Core.Path.{◌≡◌, sym, ap, ◌∙◌}
use native.Mathlib.Omega.{arith}
use native.Mathlib.Nat.{div-add-mod, mod-lt, mod-eq_of_lt, add-mul-mod_self_right, mul_comm}
use rustc_codegen_cranelift.Common.Int.{ℤ, pos, negsuc, pos_part, neg_part, ◌+ℤ◌}
use rustc_codegen_cranelift.Common.Word.{to_word}

same_remainder : (a b p q m : ℕ) → a + p * m ≡ b + q * m → a % m ≡ b % m
same_remainder a b p q m h =
    sym (add-mul-mod_self_right a p m) ∙ ap (λ (x : ℕ). x % m) h ∙ add-mul-mod_self_right b q m

to_word_unique :
    (z : ℤ) (r p q m : ℕ) → r < m → pos_part z + p * m ≡ r + neg_part z + q * m → to_word m z ≡ r
to_word_unique (pos n) r p q m h e = same_remainder n r p q m (omega (arith, e)) ∙ mod-eq_of_lt h
to_word_unique (negsuc n) r p q m h e =
    let rest : n % m ≡ (m - 1 - r) % m =
      same_remainder n (m - 1 - r) (suc q) p m (omega (arith, e)) in
    let below : (m - 1 - r) % m ≡ m - 1 - r = mod-eq_of_lt (omega arith) in
    omega (arith, rest, below)

-- The word of an integer, and how many times the modulus lies between.
word_of :
    (z : ℤ) (m : ℕ)
    → 0 < m
    → (p q : ℕ) × (pos_part z + p * m ≡ to_word m z + neg_part z + q * m) × (to_word m z < m)
word_of (pos n) m h = (0, n / m, omega (arith, div-add-mod n m, mul_comm m (n / m)), mod-lt n h)
word_of (negsuc n) m h =
    (suc (n / m), 0, omega (arith, div-add-mod n m, mul_comm m (n / m), mod-lt n h), omega arith)

parts_sum :
    (a b : ℤ)
    → pos_part (a +ℤ b) + (neg_part a + neg_part b) ≡ pos_part a + pos_part b + neg_part (a +ℤ b)
unfolding ◌+ℤ◌
parts_sum a b = ground arith

pub to_word-add : (a b : ℤ) (m : ℕ) → 0 < m → to_word m (a +ℤ b) ≡ (to_word m a + to_word m b) % m
to_word-add a b m h =
    let (pa, qa, ea, la) = word_of a m h in
    let (pb, qb, eb, lb) = word_of b m h in
    let sum = to_word m a + to_word m b in
    to_word_unique (a +ℤ b) (sum % m) (pa + pb) (qa + qb + sum / m) m (mod-lt sum h)
      (omega (arith, ea, eb, parts_sum a b, div-add-mod sum m, mul_comm m (sum / m)))
