-- ===== src/BigInt/Mont.antt =====
-- providers/arm_asm/rsa_bigint.hpp: Montgomery multiplication.
pub mod Rows
pub mod Round
pub mod Inverse
pub mod Multiply
use claude_crypto.Base.{
  ℕ, zero, suc, ◌+◌, ◌-◌, ◌*◌, ◌/◌, ◌%◌, ◌==◌, if◌then◌else◌, bit_or, bit_and, List, [], ◌∷◌, ◌++◌,
  length, replicate,
}
use claude_crypto.BigInt.{
  word, word_max, u64, u128, sub_u64, bigint_sub, bigint_ct_select, bigint_reduce_once,
}

-- `inv * (2 - m0 * inv)`, one round of the loop of `mont_neg_inv`.
pub newton_step : ℕ → ℕ → ℕ
newton_step m0 inv = u64 (inv * sub_u64 2 (u64 (m0 * inv)))

pub newton : ℕ → ℕ → ℕ → ℕ
unfolding newton_step
newton zero m0 inv = inv
newton (suc rounds) m0 inv = newton rounds m0 (newton_step m0 inv)

unfoldable pub mont_neg_inv : ℕ → ℕ
unfolding newton
mont_neg_inv m0 = sub_u64 0 (newton 5 m0 m0)

-- The accumulator `t`: its NW low limbs, and `t[NW]`.
pub record Acc : Type 0 where
  pub low : List ℕ
  pub top : ℕ

-- Phase 1: `t += a[i] * b`, with the carry after the last limb.
pub mul_row : ℕ → ℕ → List ℕ → List ℕ → List ℕ × ℕ
mul_row a carry [] ts = ([], carry)
mul_row a carry (b ∷ bs) [] = ([], carry)
mul_row a carry (b ∷ bs) (t ∷ ts) =
    let prod = u128 (u128 (u128 (a * b) + t) + carry) in
    let rest = mul_row a (u64 (prod / word)) bs ts in (u64 prod ∷ rest.0, rest.1)

-- The loop of phase 2 from limb 1 on: `c += q * m[j] + t[j]; t[j-1] = c; c >>= 64`.
pub reduce_row : ℕ → ℕ → List ℕ → List ℕ → List ℕ × ℕ
reduce_row q c [] ts = ([], c)
reduce_row q c (m ∷ ms) [] = ([], c)
reduce_row q c (m ∷ ms) (t ∷ ts) =
    let c' = u128 (c + u128 (u128 (q * m) + t)) in
    let rest = reduce_row q (c' / word) ms ts in (u64 c' ∷ rest.0, rest.1)

-- Phase 2: `t = (t + q * m) >> 64` for the q that clears the lowest limb.
pub reduce_acc : List ℕ → ℕ → List ℕ → ℕ → Acc
unfolding reduce_row
reduce_acc [] m0inv low top = record { low = low; top = top }
reduce_acc (m ∷ ms) m0inv [] top = record { low = []; top = top }
reduce_acc (m ∷ ms) m0inv (t0 ∷ ts) top =
    let q = u64 (t0 * m0inv) in
    let rest = reduce_row q (u128 (u128 (q * m) + t0) / word) ms ts in
    let c = u128 (rest.1 + top) in record { low = rest.0 ++ u64 c ∷ []; top = u64 (c / word) }

-- One round of the outer loop of `mont_mul`.
pub mont_round : List ℕ → List ℕ → ℕ → ℕ → Acc → Acc
unfolding mul_row reduce_acc
mont_round b m m0inv a t =
    let (low, carry) = mul_row a 0 b t.low in reduce_acc m m0inv low (u64 (t.top + carry))

pub mont_loop : List ℕ → List ℕ → ℕ → List ℕ → Acc → Acc
unfolding mont_round
mont_loop b m m0inv [] t = t
mont_loop b m m0inv (a ∷ as') t = mont_loop b m m0inv as' (mont_round b m m0inv a t)

-- The final subtraction: kept where `t` overflowed or `t >= m`.
pub mont_final : List ℕ → Acc → List ℕ
unfolding bigint_sub bigint_ct_select
mont_final m t =
    let (reduced, borrow) = bigint_sub t.low m in
    let overflow_mask = if t.top == 0 then 0 else word_max in
    let no_borrow_mask = if borrow == 0 then word_max else 0 in
    bigint_ct_select reduced t.low (bit_or overflow_mask no_borrow_mask)

unfoldable pub mont_mul : List ℕ → List ℕ → List ℕ → ℕ → List ℕ
unfolding mont_loop mont_final
mont_mul a b m m0inv =
    mont_final m (mont_loop b m m0inv a (record { low = replicate (length m) 0; top = 0 }))
