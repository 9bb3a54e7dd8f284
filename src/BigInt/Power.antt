-- ===== src/BigInt/Power.antt =====
-- providers/arm_asm/rsa_bigint.hpp: conversion to and from Montgomery form, and exponentiation.
pub mod Radix
pub mod Exponent
pub mod Convert
pub mod Modular
use claude_crypto.Base.{
  ℕ, zero, suc, ◌*◌, ◌/◌, ◌%◌, ◌^◌, ◌==◌, if◌then◌else◌, bit_or, List, [], ◌∷◌, length, replicate,
  get_or,
}
use claude_crypto.BigInt.{u64, sub_u64, bigint_sub, bigint_ct_select, bigint_reduce_once}
use claude_crypto.BigInt.Mont.{mont_neg_inv, mont_mul}

-- A `BigInt<n>` with `d[0] = 1`.
abbrev pub bigint_one : ℕ → List ℕ
bigint_one zero = []
bigint_one (suc n) = 1 ∷ replicate n 0

-- `r <<= 1` over the limbs, and the bit that falls out.
pub shl_loop : ℕ → List ℕ → List ℕ × ℕ
shl_loop carry [] = ([], carry)
shl_loop carry (r ∷ rs) =
    let rest = shl_loop (r / 2 ^ 63) rs in (bit_or (u64 (r * 2)) carry ∷ rest.0, rest.1)

-- One round of the loop of `mont_r2`: double modulo m.
pub double_mod : List ℕ → List ℕ → List ℕ
unfolding shl_loop bigint_sub bigint_reduce_once
double_mod m r =
    let (shifted, carry) = shl_loop 0 r in
    if carry == 0 then bigint_reduce_once shifted m else (bigint_sub shifted m).0

pub double_times : ℕ → List ℕ → List ℕ → List ℕ
unfolding double_mod
double_times zero m r = r
double_times (suc k) m r = double_times k m (double_mod m r)

unfoldable pub mont_r2 : List ℕ → List ℕ
unfolding double_times
mont_r2 m = double_times (2 * 64 * length m) m (bigint_one (length m))

unfoldable pub mont_to : List ℕ → List ℕ → ℕ → List ℕ → List ℕ
unfolding mont_mul
mont_to a m m0inv r2 = mont_mul a r2 m m0inv

unfoldable pub mont_from : List ℕ → List ℕ → ℕ → List ℕ
unfolding mont_mul
mont_from a m m0inv = mont_mul a (bigint_one (length m)) m m0inv

-- One bit of the exponent: square, multiply, and keep the product where the bit is set.
pub power_bit : List ℕ → List ℕ → ℕ → ℕ → List ℕ → List ℕ
unfolding mont_mul bigint_ct_select
power_bit base_m m m0inv bit result =
    let squared = mont_mul result result m m0inv in
    let bit_mask = sub_u64 0 bit in
    let prod = mont_mul squared base_m m m0inv in bigint_ct_select prod squared bit_mask

-- The bits `bi, ..., 0` of one limb of the exponent, for `bi + 1` left.
pub power_limb : List ℕ → List ℕ → ℕ → ℕ → ℕ → List ℕ → List ℕ
unfolding power_bit
power_limb base_m m m0inv zero e result = result
power_limb base_m m m0inv (suc bi) e result =
    power_limb base_m m m0inv bi e (power_bit base_m m m0inv (e / 2 ^ bi % 2) result)

-- The limbs of the exponent, the most significant first.
pub power_limbs : List ℕ → List ℕ → ℕ → List ℕ → List ℕ → List ℕ
unfolding power_limb
power_limbs base_m m m0inv [] result = result
power_limbs base_m m m0inv (e ∷ es) result =
    power_limb base_m m m0inv 64 e (power_limbs base_m m m0inv es result)

unfoldable pub bigint_powmod_ct : List ℕ → List ℕ → List ℕ → List ℕ
unfolding mont_neg_inv mont_r2 mont_to mont_from power_limbs
bigint_powmod_ct base exp m =
    let m0inv = mont_neg_inv (get_or m 0 0) in
    let r2 = mont_r2 m in
    let base_m = mont_to base m m0inv r2 in
    let one_m = mont_to (bigint_one (length m)) m m0inv r2 in
    mont_from (power_limbs base_m m m0inv exp one_m) m m0inv
