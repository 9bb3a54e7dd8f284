-- ===== src/BigInt/Power/Modular.antt =====
-- providers/arm_asm/rsa_bigint.hpp: `bigint_powmod_ct` as a whole.
use native.Mathlib.Nat.{pow-zero}
use claude_crypto.Base.{ℕ, ◌*◌, ◌%◌, ◌^◌, ◌<◌, ◌≡◌, refl, sym, ◌∙◌, List, get_or, Cong-mod, length}
use claude_crypto.BigInt.{value, radix, IsLimbs}
use claude_crypto.BigInt.Limbs.{IsLimbs-length}
use claude_crypto.BigInt.Mont.{mont_neg_inv}
use claude_crypto.BigInt.Mont.Round.{HasRoom}
use claude_crypto.BigInt.Power.{
  bigint_one, mont_r2, mont_to, mont_from, power_limbs, bigint_powmod_ct,
}
use claude_crypto.BigInt.Power.Radix.{Represents, one-IsLimbs, value-one, width-pos}
use claude_crypto.BigInt.Power.Exponent.{power_limbs_lem, rescale}
use claude_crypto.BigInt.Power.Convert.{IsNegInv-odd, mont_to-Represents, mont_from-Represents}

module _ (base exp m : List ℕ) where
  abbrev inverse : ℕ
  inverse = mont_neg_inv (get_or m 0 0)

  abbrev into : List ℕ → List ℕ
  into a = mont_to a m inverse (mont_r2 m)

  powmod_shape :
      bigint_powmod_ct base exp m
      ≡ mont_from (power_limbs (into base) m inverse exp (into (bigint_one (length m)))) m inverse
  unfolding bigint_powmod_ct
  powmod_shape = refl

  module _ (n : ℕ) (hb : IsLimbs n base) (he : IsLimbs n exp) (hm : IsLimbs n m)
      (odd : value m % 2 ≡ 1) (big : 1 < value m) (room : HasRoom n m) where
    one_m-Represents : Represents n m (value base ^ 0 * radix n) (into (bigint_one n))
    one_m-Represents =
        let wide_enough = width-pos n m hm big in
        rescale (value-one n wide_enough ∙ sym (pow-zero (value base)))
          (mont_to-Represents n m hm odd big room (bigint_one n) (one-IsLimbs n wide_enough))

    power-Represents :
        Represents n m
          (value base ^ value exp * radix n)
          (power_limbs (into base) m inverse exp (into (bigint_one n)))
    power-Represents =
        power_limbs_lem n m inverse hm (IsNegInv-odd n m hm odd) room big (value base) (into base)
          (mont_to-Represents n m hm odd big room base hb) n exp (into (bigint_one n)) he
          one_m-Represents

    powmod-Represents : Represents n m (value base ^ value exp) (bigint_powmod_ct base exp m)
    powmod-Represents =
        rw (powmod_shape, IsLimbs-length n m hm)
          (mont_from-Represents n m hm odd big room _ _ power-Represents)

-- Exponentiation is exact. For operands of n limbs and an odd modulus m above 1 with (2^64 + 1) *
-- m at most 2^64 * 2^(64 n), bigint_powmod_ct returns n limbs whose value is base ^ exp modulo m.
pub bigint_powmod_ct_lem :
    (n : ℕ) (base exp m : List ℕ)
    → IsLimbs n base
    → IsLimbs n exp
    → IsLimbs n m
    → value m % 2 ≡ 1
    → 1 < value m
    → HasRoom n m
    → IsLimbs n (bigint_powmod_ct base exp m)
      × (value (bigint_powmod_ct base exp m) ≡ (value base ^ value exp) % value m)
bigint_powmod_ct_lem n base exp m hb he hm odd big room =
    let r = powmod-Represents base exp m n hb he hm odd big room in
    (r.limbs, Cong-mod (value m) _ _ r.below r.residue)
