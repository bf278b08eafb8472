-- ===== src/Prelude/Counting.antt =====
-- How many numbers below a bound pass a test.
use Prim.Native.Nat.{ℕ, zero, suc, ◌+◌, ◌%◌, ◌<◌}
use mathlib.Core.Path.{◌≡◌, refl, ap, ◌∙◌}
use mathlib.Core.Bool.{Bool}
use native.Mathlib.Omega.{arith}
use torana_enterprise.Prelude.Tests.{if◌then◌else◌}

pub bit : Bool → ℕ
bit b = if b then 1 else 0

unfoldable pub count : ℕ → (ℕ → Bool) → ℕ
unfolding bit
count zero p = 0
count (suc n) p = bit (p n) + count n p

pub count-add : (n m : ℕ) (p : ℕ → Bool) → count (n + m) p ≡ count n p + count m (λ i. p (n + i))
unfolding count
count-add n zero p = ap (λ k. count k p) {x = n + 0} {y = n} (omega arith) ∙ omega arith
count-add n (suc m) p =
    ap (λ k. count k p) {x = n + suc m} {y = suc (n + m)} (omega arith)
    ∙ omega (arith, count-add n m p)

pub count_ext : (n : ℕ) (p q : ℕ → Bool) → ((i : ℕ) → i < n → p i ≡ q i) → count n p ≡ count n q
unfolding count
count_ext zero p q h = refl
count_ext (suc n) p q h =
    rw (h n (omega arith)) (ap (λ k. bit (q n) + k) (count_ext n p q (λ i l. h i (omega arith))))

pub count_const :
    (n : ℕ) (p : ℕ → Bool) (b : Bool)
    → ((i : ℕ) → i < n → p i ≡ b)
    → count n p ≡ (if b then n else 0)
unfolding count bit
count_const zero p b h = ground arith
count_const (suc n) p b h =
    ground (arith, h n (omega arith), count_const n p b (λ i l. h i (omega arith)))

mod_add : (n c : ℕ) → 0 < n → (c + (n + 0)) % n ≡ (c + 0) % n
mod_add n c h = grind arith

-- Moving the window of n consecutive numbers by one changes nothing modulo n.
count_shift :
    (n c : ℕ) (g : ℕ → Bool)
    → 0 < n
    → count n (λ i. g ((suc c + i) % n)) ≡ count n (λ i. g ((c + i) % n))
unfolding count
count_shift n c g h =
    let f : ℕ → Bool = λ i. g ((c + i) % n) in
    let one : count (1 + n) f ≡ count 1 f + count n (λ i. f (1 + i)) = count-add 1 n f in
    let last : count (n + 1) f ≡ count n f + count 1 (λ i. f (n + i)) = count-add n 1 f in
    let both : count (1 + n) f ≡ count (n + 1) f =
      ap (λ k. count k f) {x = 1 + n} {y = n + 1} (omega arith) in
    let ends : bit (f (n + 0)) ≡ bit (f 0) = ap (λ k. bit (g k)) (mod_add n c h) in
    let shifted : count n (λ i. g ((suc c + i) % n)) ≡ count n (λ i. f (1 + i)) =
      count_ext n (λ i. g ((suc c + i) % n)) (λ i. f (1 + i))
        (λ i l. ap (λ k. g (k % n)) {x = suc c + i} {y = c + (1 + i)} (omega arith)) in
    shifted ∙ omega (arith, one, last, both, ends)

-- Any n consecutive numbers give the same count modulo n.
pub count_rotate : (n c : ℕ) (g : ℕ → Bool) → 0 < n → count n (λ i. g ((c + i) % n)) ≡ count n g
count_rotate n zero g h = count_ext n _ g (λ i l. ap g (grind arith))
count_rotate n (suc c) g h = count_shift n c g h ∙ count_rotate n c g h
