-- ===== src/BigInt/Mont/Multiply.antt =====
-- providers/arm_asm/rsa_bigint.hpp: `mont_mul` as a whole, with its final subtraction.
use claude_crypto.Base.{
  ℕ, zero, suc, ◌+◌, ◌*◌, ◌<◌, ◌≡◌, ap, ◌⊎◌, inl, inr, List, arith, length, replicate, Cong,
}
use claude_crypto.BigInt.{value, radix, IsLimbs, bigint_sub}
use claude_crypto.BigInt.Limbs.{value-lt, IsLimbs-length, zeros-IsLimbs, value-zeros}
use claude_crypto.BigInt.AddSub.{
  bigint_sub_lem, bigint_sub-borrow, bigint_ct_select-ones, bigint_ct_select-zeros,
}
use claude_crypto.BigInt.Mont.{Acc, mont_loop, mont_final, mont_mul}
use claude_crypto.BigInt.Mont.Round.{acc_value, IsNegInv, HasRoom, IsAcc, mont_loop_lem}

-- The residue of `total`, which is below twice the modulus.
record IsResidue (n : ℕ) (m : List ℕ) (total : ℕ) (r : List ℕ) : Type 0 where
  limbs : IsLimbs n r
  below : value r < value m
  same : (value r ≡ total) ⊎ (value r + value m ≡ total)

module _ (n : ℕ) (m : List ℕ) (hm : IsLimbs n m) where
  mont_final-IsResidue :
      (low : List ℕ) (top : ℕ)
      → IsLimbs n low
      → value low + radix n * top < value m + value m
      → IsResidue n m (value low + radix n * top) (mont_final m (record { low = low; top = top }))
  unfolding mont_final
  mont_final-IsResidue low zero hl h = elim (bigint_sub-borrow n low m hl hm) [
    | inl (e, le) ↦
        let (limbs, small, d) = bigint_sub_lem n low m hl hm in
        rw (e, bigint_ct_select-ones n (bigint_sub low m).0 low limbs hl)
          (record {
            limbs = limbs;
            below = omega (arith, d, ap (λ (t : ℕ). radix n * t) e);
            same = inr (omega (arith, d, ap (λ (t : ℕ). radix n * t) e));
          })
    | inr (e, lt) ↦
        let (limbs, small, d) = bigint_sub_lem n low m hl hm in
        rw (e, bigint_ct_select-zeros n (bigint_sub low m).0 low limbs hl)
          (record { limbs = hl; below = lt; same = inl (omega arith) })
  ]
  mont_final-IsResidue low (suc zero) hl h = elim (bigint_sub-borrow n low m hl hm) [
    | inl (e, le) ↦ absurd (omega (arith, value-lt n m hm))
    | inr (e, lt) ↦
        let (limbs, small, d) = bigint_sub_lem n low m hl hm in
        rw (e, bigint_ct_select-ones n (bigint_sub low m).0 low limbs hl)
          (record {
            limbs = limbs;
            below = omega (arith, d, ap (λ (t : ℕ). radix n * t) e);
            same = inr (omega (arith, d, ap (λ (t : ℕ). radix n * t) e));
          })
  ]
  mont_final-IsResidue low (suc (suc k)) hl h = absurd (omega (arith, value-lt n m hm))

pub record IsProduct (n : ℕ) (m : List ℕ) (x : ℕ) (r : List ℕ) : Type 0 where
  pub limbs : IsLimbs n r
  pub below : value r < value m
  pub residue : Cong (value m) (value r * radix n) x

residue_of : (m R r t x j : ℕ) → (r ≡ t) ⊎ (r + m ≡ t) → t * R ≡ x + j * m → Cong m (r * R) x
residue_of m R r t x j (inl same) e = record {
  left = 0;
  right = j;
  balance = omega (arith, ap (λ (s : ℕ). s * R) same);
}
residue_of m R r t x j (inr less) e = record {
  left = R;
  right = j;
  balance = omega (arith, ap (λ (s : ℕ). s * R) less);
}

start-IsAcc :
    (n : ℕ) (m b : List ℕ)
    → IsLimbs n m
    → value b < value m
    → IsAcc n m b (record { low = replicate (length m) 0; top = 0 })
start-IsAcc n m b hm lt =
    rw (IsLimbs-length n m hm)
      (record { low_limbs = zeros-IsLimbs n; bounded = omega (arith, value-zeros n) })

-- Montgomery multiplication. For operands of n limbs, the negated inverse of the lowest limb of
-- the modulus, (2^64 + 1) * m at most 2^64 * 2^(64 n), and a second operand below m: the result
-- has n limbs, is below m, and times 2^(64 n) is congruent to the product modulo m.
pub mont_mul_lem :
    (n : ℕ) (a b m : List ℕ) (m0inv : ℕ)
    → IsLimbs n a
    → IsLimbs n b
    → IsLimbs n m
    → IsNegInv m m0inv
    → HasRoom n m
    → value b < value m
    → IsProduct n m (value a * value b) (mont_mul a b m m0inv)
unfolding mont_mul
mont_mul_lem n a b m m0inv ha hb hm inv room lt =
    let start : Acc = record { low = replicate (length m) 0; top = 0 } in
    let (acc, (j, e)) =
      mont_loop_lem n m b m0inv inv hm hb room lt n a start ha (start-IsAcc n m b hm lt) in
    let t : Acc = mont_loop b m m0inv a start in
    let r = mont_final-IsResidue n m hm t.low t.top acc.low_limbs (omega (arith, acc.bounded)) in
    record {
      limbs = r.limbs;
      below = r.below;
      residue =
          residue_of (value m) (radix n) (value (mont_final m t)) (acc_value n t) _ j r.same
            (omega (arith, e, value-zeros (length m)));
    }
