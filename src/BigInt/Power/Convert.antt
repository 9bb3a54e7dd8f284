-- ===== src/BigInt/Power/Convert.antt =====
-- providers/arm_asm/rsa_bigint.hpp: conversion to and from Montgomery form.
use claude_crypto.Base.{
  ℕ, ◌*◌, ◌%◌, ◌<◌, ◌≡◌, refl, List, [], ◌∷◌, arith, get_or, length, eq→Cong, Cong-trans, Cong-mul,
}
use claude_crypto.BigInt.{value, radix, IsLimbs}
use claude_crypto.BigInt.Limbs.{IsLimbs-length}
use claude_crypto.BigInt.Mont.{mont_neg_inv, mont_mul}
use claude_crypto.BigInt.Mont.Round.{IsNegInv, HasRoom}
use claude_crypto.BigInt.Mont.Inverse.{mont_neg_inv_lem}
use claude_crypto.BigInt.Power.{bigint_one, mont_r2, mont_to, mont_from}
use claude_crypto.BigInt.Power.Radix.{Represents, one-IsLimbs, value-one, width-pos, mont_r2_lem}
use claude_crypto.BigInt.Power.Exponent.{mont_mul-Represents}

pub IsNegInv-odd :
    (n : ℕ) (m : List ℕ) → IsLimbs n m → value m % 2 ≡ 1 → IsNegInv m (mont_neg_inv (get_or m 0 0))
IsNegInv-odd n [] hm odd = absurd (omega arith)
IsNegInv-odd n (m0 ∷ ms) hm odd = mont_neg_inv_lem m0 (omega arith)

module _ (n : ℕ) (m : List ℕ) (hm : IsLimbs n m) (odd : value m % 2 ≡ 1) (big : 1 < value m)
    (room : HasRoom n m) where
  -- Conversion multiplies by R.
  pub mont_to-Represents :
      (a : List ℕ)
      → IsLimbs n a
      → Represents n m (value a * radix n) (mont_to a m (mont_neg_inv (get_or m 0 0)) (mont_r2 m))
  unfolding mont_to
  mont_to-Represents a ha =
      let r2 = mont_r2_lem n m hm big in
      mont_mul-Represents n m (mont_neg_inv (get_or m 0 0)) hm (IsNegInv-odd n m hm odd) room big a
        (mont_r2 m) (value a * radix n) ha r2.limbs r2.below
        (Cong-trans (Cong-mul (value a) r2.residue) (eq→Cong _ (omega arith)))

  mont_from-eq :
      (a : List ℕ) (m0inv : ℕ) → mont_from a m m0inv ≡ mont_mul a (bigint_one (length m)) m m0inv
  unfolding mont_from
  mont_from-eq a m0inv = refl

  pub mont_from-Represents :
      (x : ℕ) (a : List ℕ)
      → Represents n m (x * radix n) a
      → Represents n m x (mont_from a m (mont_neg_inv (get_or m 0 0)))
  mont_from-Represents x a ha =
      let wide_enough = width-pos n m hm big in
      let one : value (bigint_one n) < value m = omega (arith, value-one n wide_enough) in
      rw (mont_from-eq a (mont_neg_inv (get_or m 0 0)), IsLimbs-length n m hm)
        (mont_mul-Represents n m (mont_neg_inv (get_or m 0 0)) hm (IsNegInv-odd n m hm odd) room big
          a (bigint_one n) x ha.limbs (one-IsLimbs n wide_enough) one
          (Cong-trans (Cong-mul (value a) (eq→Cong _ (value-one n wide_enough)))
            (Cong-trans (eq→Cong _ (omega arith)) ha.residue)))
