-- ===== src/Tests/Arithmetic.antt =====
-- Runs of rsa_bigint.hpp on numbers of two limbs.
use claude_crypto.Base.{ℕ, ◌+◌, ◌-◌, ◌*◌, ◌%◌, ◌^◌, ◌<◌, ◌≤◌, ◌≡◌, refl, ◌⊎◌, List, [], ◌∷◌, arith}
use claude_crypto.BigInt.{value, word_max, IsLimbs, bigint_ct_lt}
use claude_crypto.BigInt.AddSub.{bigint_ct_lt_lem}
use claude_crypto.BigInt.Mont.{mont_neg_inv, mont_mul}
use claude_crypto.BigInt.Mont.Multiply.{IsProduct, mont_mul_lem}
use claude_crypto.BigInt.Mont.Inverse.{mont_neg_inv_lem}
use claude_crypto.BigInt.Power.{bigint_powmod_ct}
use claude_crypto.BigInt.Power.Modular.{bigint_powmod_ct_lem}

abbrev left : List ℕ
left = (2 ^ 64 - 1) ∷ 5 ∷ []

abbrev right : List ℕ
right = 3 ∷ 1 ∷ []

abbrev modulus : List ℕ
modulus = 7919 ∷ 9 ∷ []

left-IsLimbs : IsLimbs 2 left
left-IsLimbs = (omega arith, (omega arith, tt))

right-IsLimbs : IsLimbs 2 right
right-IsLimbs = (omega arith, (omega arith, tt))

modulus-IsLimbs : IsLimbs 2 modulus
modulus-IsLimbs = (omega arith, (omega arith, tt))

bigint_powmod_ct_run :
    value (bigint_powmod_ct right (20 ∷ 0 ∷ []) modulus) ≡ (3 + 2 ^ 64) ^ 20 % (7919 + 9 * 2 ^ 64)
unfolding bigint_powmod_ct
bigint_powmod_ct_run = refl

bigint_powmod_ct_lem_example :
    IsLimbs 2 (bigint_powmod_ct left right modulus)
    × (value (bigint_powmod_ct left right modulus) ≡ (value left ^ value right) % value modulus)
bigint_powmod_ct_lem_example =
    bigint_powmod_ct_lem 2 left right modulus left-IsLimbs right-IsLimbs modulus-IsLimbs refl
      (omega arith) (omega arith)

mont_mul_lem_example :
    IsProduct 2 modulus (value left * value right) (mont_mul left right modulus (mont_neg_inv 7919))
mont_mul_lem_example =
    mont_mul_lem 2 left right modulus (mont_neg_inv 7919) left-IsLimbs right-IsLimbs modulus-IsLimbs
      (mont_neg_inv_lem 7919 refl) (omega arith) (omega arith)

bigint_ct_lt_lem_example :
    ((bigint_ct_lt right left ≡ word_max) × (value right < value left))
    ⊎ ((bigint_ct_lt right left ≡ 0) × (value left ≤ value right))
bigint_ct_lt_lem_example = bigint_ct_lt_lem 2 right left right-IsLimbs left-IsLimbs
