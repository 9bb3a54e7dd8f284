-- ===== src/BigInt/Crt/Combine.antt =====
-- providers/arm_asm/rsa_bigint.hpp: what `rsa_crt_combine` returns.
use native.Mathlib.Nat.{mul-le-mul_left, lt_of_mul-lt-mul_left, mod-eq_of_lt, add-mul-mod_self_left}
use claude_crypto.Base.{
  ℕ, suc, ◌+◌, ◌*◌, ◌/◌, ◌%◌, ◌<◌, ◌≤◌, ◌≡◌, ◌≢◌, refl, sym, ap, ◌∙◌, List, length, replicate,
  arith, ltb, true, false, get_or, Cong, eq→Cong, Cong-trans, Cong-symm, Cong-mul, Cong-mod,
}
use claude_crypto.BigInt.{value, radix, IsLimbs, bigint_add}
use claude_crypto.BigInt.Limbs.{IsLimbs-length}
use claude_crypto.BigInt.AddSub.{bigint_add_lem}
use claude_crypto.BigInt.Mont.{mont_neg_inv, mont_mul}
use claude_crypto.BigInt.Mont.Round.{HasRoom}
use claude_crypto.BigInt.Power.{mont_to, mont_r2}
use claude_crypto.BigInt.Power.Radix.{Represents}
use claude_crypto.BigInt.Power.Exponent.{product_form, radix_inverse}
use claude_crypto.BigInt.Power.Convert.{IsNegInv-odd, mont_to-Represents, mont_from-Represents}
use claude_crypto.BigInt.Crt.{schoolbook, crt_difference, crt_coefficient, rsa_crt_combine}
use claude_crypto.BigInt.Crt.Product.{schoolbook-exact}
use claude_crypto.BigInt.Crt.Difference.{wrapped, crt_difference_lem}

-- The primes' side of a key: p is odd, and qinv is the inverse of q modulo p.
pub record IsCrtKey (n : ℕ) (p q qinv : List ℕ) : Type 0 where
  pub p_limbs : IsLimbs n p
  pub q_limbs : IsLimbs n q
  pub qinv_limbs : IsLimbs n qinv
  pub p_odd : value p % 2 ≡ 1
  pub p_big : 1 < value p
  pub p_room : HasRoom n p
  pub inverse : Cong (value p) (value q * value qinv) 1
  pub fits : value p * value q < radix n

module _ (n : ℕ) (p q qinv : List ℕ) (key : IsCrtKey n p q qinv) where
  coefficient-Represents :
      (d : List ℕ) → IsLimbs n d → Represents n p (value d * value qinv) (crt_coefficient d qinv p)
  unfolding crt_coefficient
  coefficient-Represents d hd =
      let p0inv : ℕ = mont_neg_inv (get_or p 0 0) in
      let r2 : List ℕ = mont_r2 p in
      mont_from-Represents n p key.p_limbs key.p_odd key.p_big key.p_room (value d * value qinv)
        (mont_mul (mont_to d p p0inv r2) (mont_to qinv p p0inv r2) p p0inv)
        (product_form n p p0inv key.p_limbs (IsNegInv-odd n p key.p_limbs key.p_odd) key.p_room
          key.p_big (mont_to d p p0inv r2) (mont_to qinv p p0inv r2) (value d) (value qinv)
          (mont_to-Represents n p key.p_limbs key.p_odd key.p_big key.p_room d hd)
          (mont_to-Represents n p key.p_limbs key.p_odd key.p_big key.p_room qinv key.qinv_limbs))

  module _ (m_p m_q : List ℕ) (hmp : IsLimbs n m_p) (hmq : IsLimbs n m_q)
      (mq_lt : value m_q < value q) where
    abbrev coefficient : List ℕ
    coefficient = crt_coefficient (crt_difference m_p m_q p) qinv p

    abbrev off : ℕ
    off = wrapped n (value m_p) (value m_q) (value p)

    coefficient_lem : Represents n p (value (crt_difference m_p m_q p) * value qinv) coefficient
    coefficient_lem =
        coefficient-Represents (crt_difference m_p m_q p)
          (crt_difference_lem n m_p m_q p hmp hmq key.p_limbs).0

    -- `m_q + q * h` stays below `p * q`.
    combined_lt : value q * value coefficient + value m_q < value p * value q
    combined_lt =
        let next : value q * suc (value coefficient) ≤ value q * value p =
          mul-le-mul_left (value q) coefficient_lem.below in
        omega (arith, next)

    combine-eq :
        rsa_crt_combine m_p m_q p q qinv
        ≡ (bigint_add (schoolbook q coefficient (replicate (length q) 0)) m_q).0
    unfolding rsa_crt_combine
    combine-eq = refl

    pub combine-value :
        IsLimbs n (rsa_crt_combine m_p m_q p q qinv)
        × (value (rsa_crt_combine m_p m_q p q qinv) ≡ value m_q + value q * value coefficient)
    combine-value =
        let (limbs, product) =
          schoolbook-exact n q coefficient key.q_limbs coefficient_lem.limbs
            (omega (arith, combined_lt, key.fits)) in
        let (sum_limbs, small, sum) =
          bigint_add_lem n (schoolbook q coefficient (replicate n 0)) m_q limbs hmq in
        let carry : ℕ = (bigint_add (schoolbook q coefficient (replicate n 0)) m_q).1 in
        let below : radix n * carry < radix n * 1 =
          omega (arith, sum, product, combined_lt, key.fits) in
        let one_at_most : carry < 1 = lt_of_mul-lt-mul_left (radix n) below in
        let no_carry : carry ≡ 0 = omega (arith, one_at_most) in
        rw (combine-eq, IsLimbs-length n q key.q_limbs)
          (sum_limbs, omega (arith, sum, product, ap (λ (t : ℕ). radix n * t) no_carry))

    -- Modulo p: the first half, and what the difference is off by.
    pub combine-residue :
        Cong (value p) (value (rsa_crt_combine m_p m_q p q qinv)) (value m_p + off)
    combine-residue =
        let c = coefficient_lem.residue in
        let times = Cong-mul (value q) c in
        let unit = Cong-mul (value (crt_difference m_p m_q p)) key.inverse in
        let d = (crt_difference_lem n m_p m_q p hmp hmq key.p_limbs).1 in
        record {
          left = times.left + unit.left + d.left;
          right = times.right + unit.right + d.right;
          balance = omega (arith, combine-value.1, times.balance, unit.balance, d.balance);
        }

    -- For p, q and qinv of n limbs, where p is odd, above 1 and leaves room for the Montgomery
    -- reduction, qinv is the inverse of q modulo p and p * q is below 2^(64 n), and for m_p below
    -- p and m_q below q with m_q at most m_p + p: rsa_crt_combine returns n limbs whose value is
    -- below p * q, m_p modulo p and m_q modulo q.
    pub rsa_crt_combine_lem :
        value m_p < value p
        → value m_q ≤ value m_p + value p
        → IsLimbs n (rsa_crt_combine m_p m_q p q qinv)
          × (value (rsa_crt_combine m_p m_q p q qinv) < value p * value q)
          × (value (rsa_crt_combine m_p m_q p q qinv) % value p ≡ value m_p)
          × (value (rsa_crt_combine m_p m_q p q qinv) % value q ≡ value m_q)
    rsa_crt_combine_lem mp_lt close =
        let (limbs, exact) = combine-value in
        let reached : ltb (value m_p + value p) (value m_q) ≡ false = ground arith in
        let same : value m_p + off ≡ value m_p = rw reached (omega arith) in
        let residue = Cong-trans combine-residue (eq→Cong _ same) in
        (
          limbs,
          omega (arith, combined_lt, exact),
          sym (Cong-mod (value p) (value m_p) _ mp_lt (Cong-symm residue)),
          ap (λ (t : ℕ). t % value q) exact
              ∙ add-mul-mod_self_left (value m_q) (value q) (value coefficient)
              ∙ mod-eq_of_lt mq_lt,
        )

    -- Under the same conditions on the key, with m_p below p and m_q below q, but m_q above m_p +
    -- p (which q above p allows): the result of rsa_crt_combine modulo p is not m_p.
    pub rsa_crt_combine-wrong :
        value m_p < value p
        → value m_p + value p < value m_q
        → value (rsa_crt_combine m_p m_q p q qinv) % value p ≢ value m_p
    rsa_crt_combine-wrong mp_lt apart same =
        let above : ltb (value m_p + value p) (value m_q) ≡ true = ground arith in
        let moved : value m_p + off ≡ value m_p + radix n = rw above refl in
        let residue = Cong-trans combine-residue (eq→Cong _ moved) in
        let (v, unit) = radix_inverse n p _ (IsNegInv-odd n p key.p_limbs key.p_odd) in
        let r : ℕ = value (rsa_crt_combine m_p m_q p q qinv) in
        let split : r ≡ value m_p + value p * (r / value p) = omega (arith, same) in
        let divided : radix n + residue.right * value p ≡ (r / value p + residue.left) * value p =
          omega (arith, split, residue.balance) in
        let absorbed : Cong (value p) 0 1 = record {
          left = v * (r / value p + residue.left) + unit.left;
          right = v * residue.right + unit.right;
          balance = omega (arith, ap (λ (t : ℕ). v * t) divided, unit.balance);
        } in
        let none_left = Cong-mod (value p) 0 1 (omega arith) absorbed in
        absurd (omega (arith, none_left, mod-eq_of_lt key.p_big))
