-- ===== src/BigInt/Mont/Round.antt =====
-- providers/arm_asm/rsa_bigint.hpp: the outer loop of `mont_mul`.
use claude_crypto.Base.{
  ℕ, zero, suc, ◌+◌, ◌-◌, ◌*◌, ◌/◌, ◌%◌, ◌≤◌, ◌<◌, ◌≡◌, ap, List, [], ◌∷◌, arith,
}
use native.Mathlib.Nat.{lt_of_mul-lt-mul_left}
use claude_crypto.BigInt.{word, u64, u128, value, radix, IsLimbs}
use claude_crypto.BigInt.Mont.{Acc, mul_row, reduce_row, reduce_acc, mont_round, mont_loop}
use claude_crypto.BigInt.Mont.Rows.{
  mul_row_lem, reduce_row_lem, value-snoc, snoc-IsLimbs, lowest_cleared, fits_wide,
}

abbrev pub acc_value : ℕ → Acc → ℕ
acc_value n t = value t.low + radix n * t.top

-- `m0inv` is the negated inverse of the lowest limb of the modulus.
abbrev pub IsNegInv : List ℕ → ℕ → Type 0
IsNegInv [] m0inv = ⊥
IsNegInv (m ∷ ms) m0inv = (m * m0inv + 1) % word ≡ 0

-- A step that divides by the word exactly.
pub record IsReduced (n : ℕ) (m : List ℕ) (total : ℕ) (t : Acc) : Type 0 where
  pub low_limbs : IsLimbs n t.low
  pub quotient : ℕ
  pub quotient_fits : quotient < word
  pub exact : word * acc_value n t ≡ total + quotient * value m

pub reduce_acc_lem :
    (n : ℕ) (m : List ℕ) (m0inv : ℕ) (low : List ℕ) (top : ℕ)
    → IsNegInv m m0inv
    → IsLimbs n m
    → IsLimbs n low
    → top < word
    → IsReduced n m (value low + radix n * top) (reduce_acc m m0inv low top)
unfolding reduce_acc
reduce_acc_lem n [] m0inv low top inv hm hl ht = absurd inv
reduce_acc_lem zero (m ∷ ms) m0inv low top inv hm hl ht = absurd hm
reduce_acc_lem (suc n) (m ∷ ms) m0inv [] top inv hm hl ht = absurd hl
reduce_acc_lem (suc n) (m ∷ ms) m0inv (t0 ∷ ts) top inv hm hl ht =
    let q : ℕ = u64 (t0 * m0inv) in
    let c0 : ℕ = u128 (u128 (q * m) + t0) / word in
    let q_fits : u64 (t0 * m0inv) < word = omega arith in
    let small = fits_wide q m t0 0 q_fits hm.0 hl.0 (omega arith) in
    let first : word * c0 ≡ q * m + t0 = omega (arith, small, lowest_cleared t0 m m0inv inv) in
    let c0_fits : c0 < word = omega (arith, small) in
    let (limbs, c_fits, row) = reduce_row_lem n q c0 ms ts q_fits c0_fits hm.1 hl.1 in
    let out : List ℕ = (reduce_row q c0 ms ts).0 in
    let c : ℕ = (reduce_row q c0 ms ts).1 in
    let sum : ℕ = u128 (c + top) in
    let top_digit : u64 (u128 (c + top)) + word * u64 (u128 (c + top) / word) ≡ c + top =
      omega arith in
    record {
      low_limbs = snoc-IsLimbs n out (u64 sum) limbs (omega arith);
      quotient = q;
      quotient_fits = q_fits;
      exact = omega (
        arith,
        value-snoc n out (u64 sum) limbs,
        first,
        row,
        ap (λ (t : ℕ). radix n * t) top_digit,
      );
    }

-- The modulus leaves room for the sum of phase 1: its highest limb is not all ones.
abbrev pub HasRoom : ℕ → List ℕ → Type 0
HasRoom n m = (word + 1) * value m ≤ word * radix n

-- The accumulator between rounds.
pub record IsAcc (n : ℕ) (m b : List ℕ) (t : Acc) : Type 0 where
  pub low_limbs : IsLimbs n t.low
  pub bounded : acc_value n t < value m + value b

module _ (n : ℕ) (m b : List ℕ) (m0inv : ℕ) (inv : IsNegInv m m0inv) (hm : IsLimbs n m)
    (hb : IsLimbs n b) (room : HasRoom n m) (b_lt : value b < value m) where
  -- The carry of phase 1 fits `t[NW]`.
  phase_one :
      (a : ℕ) (t : Acc)
      → a < word
      → IsAcc n m b t
      → IsLimbs n (mul_row a 0 b t.low).0
        × (t.top + (mul_row a 0 b t.low).1 < word)
        × (value (mul_row a 0 b t.low).0 + radix n * (t.top + (mul_row a 0 b t.low).1)
            ≡ acc_value n t + a * value b)
  phase_one a t ha acc =
      let (limbs, small, row) = mul_row_lem n a 0 b t.low ha (omega arith) hb acc.low_limbs in
      let sum : value (mul_row a 0 b t.low).0 + radix n * (t.top + (mul_row a 0 b t.low).1)
          ≡ acc_value n t + a * value b =
        omega (arith, row) in
      let product : a * value b ≤ (word - 1) * value b = grind arith in
      let below : radix n * (t.top + (mul_row a 0 b t.low).1) < radix n * word =
        omega (arith, product, sum, acc.bounded) in
      (limbs, lt_of_mul-lt-mul_left (radix n) below, sum)

  pub mont_round_lem :
      (a : ℕ) (t : Acc)
      → a < word
      → IsAcc n m b t
      → IsReduced n m (acc_value n t + a * value b) (mont_round b m m0inv a t)
  unfolding mont_round
  mont_round_lem a t ha acc =
      let (limbs, fits, sum) = phase_one a t ha acc in
      let low : List ℕ = (mul_row a 0 b t.low).0 in
      let top : ℕ = u64 (t.top + (mul_row a 0 b t.low).1) in
      let same : u64 (t.top + (mul_row a 0 b t.low).1) ≡ t.top + (mul_row a 0 b t.low).1 =
        omega (arith, fits) in
      let r = reduce_acc_lem n m m0inv low top inv hm limbs (omega arith) in
      record {
        low_limbs = r.low_limbs;
        quotient = r.quotient;
        quotient_fits = r.quotient_fits;
        exact = omega (arith, r.exact, sum, ap (λ (t : ℕ). radix n * t) same);
      }

  pub mont_round-IsAcc :
      (a : ℕ) (t : Acc) → a < word → IsAcc n m b t → IsAcc n m b (mont_round b m m0inv a t)
  mont_round-IsAcc a t ha acc =
      let r = mont_round_lem a t ha acc in
      let product : a * value b ≤ (word - 1) * value b = grind arith in
      let multiple : r.quotient * value m ≤ (word - 1) * value m = grind (arith, r.quotient_fits) in
      record { low_limbs = r.low_limbs; bounded = omega (arith, r.exact, acc.bounded) }

  -- What remains of the loop over `a`: the product, plus a multiple of the modulus.
  pub mont_loop_lem :
      (k : ℕ) (a : List ℕ) (t : Acc)
      → IsLimbs k a
      → IsAcc n m b t
      → IsAcc n m b (mont_loop b m m0inv a t)
        × ((j : ℕ) × (acc_value n (mont_loop b m m0inv a t) * radix k
              ≡ acc_value n t + value a * value b + j * value m))
  unfolding mont_loop
  mont_loop_lem zero [] t ha acc = (acc, (0, omega arith))
  mont_loop_lem zero (x ∷ a) t ha acc = absurd ha
  mont_loop_lem (suc k) [] t ha acc = absurd ha
  mont_loop_lem (suc k) (x ∷ a) t ha acc =
      let r = mont_round_lem x t ha.0 acc in
      let (acc', (j, e)) =
        mont_loop_lem k a (mont_round b m m0inv x t) ha.1 (mont_round-IsAcc x t ha.0 acc) in
      (acc', (r.quotient + word * j, omega (arith, e, r.exact)))
