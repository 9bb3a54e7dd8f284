-- ===== src/BigInt/Crt.antt =====
-- providers/arm_asm/rsa_bigint.hpp: the recombination of the two halves of a private-key
-- operation.
pub mod Product
pub mod Difference
pub mod Combine
use claude_crypto.Base.{
  ℕ, ◌+◌, ◌*◌, ◌/◌, ◌==◌, if◌then◌else◌, List, [], ◌∷◌, ◌++◌, take, drop, get_or, length, replicate,
}
use claude_crypto.BigInt.{
  word, word_max, u64, u128, bigint_add, bigint_sub, bigint_ct_select, bigint_reduce_once,
}
use claude_crypto.BigInt.Mont.{mont_neg_inv, mont_mul}
use claude_crypto.BigInt.Power.{mont_r2, mont_to, mont_from}

-- The inner loop of the product from limb `i` of `qh` on, which ends with `qh`; the last carry is
-- dropped.
unfoldable pub product_row : ℕ → ℕ → List ℕ → List ℕ → List ℕ
product_row q_i carry h [] = []
product_row q_i carry [] (t ∷ qh) = t ∷ qh
product_row q_i carry (x ∷ h) (t ∷ qh) =
    let prod = u128 (u128 (u128 (q_i * x) + t) + carry) in
    u64 prod ∷ product_row q_i (u64 (prod / word)) h qh

-- The limbs of `q`, each with the part of `qh` from its own limb on.
unfoldable pub schoolbook : List ℕ → List ℕ → List ℕ → List ℕ
unfolding product_row
schoolbook [] h qh = qh
schoolbook (q_i ∷ q) h qh =
    let row = if q_i == 0 then qh else product_row q_i 0 h qh in
    take 1 row ++ schoolbook q h (drop 1 row)

-- `h_unnorm`: p is added where the difference is negative, and then taken off once.
unfoldable pub crt_difference : List ℕ → List ℕ → List ℕ → List ℕ
unfolding bigint_add bigint_sub bigint_ct_select bigint_reduce_once
crt_difference m_p m_q p =
    let (diff, borrow) = bigint_sub m_p m_q in
    let diff_adj = (bigint_add diff p).0 in
    let keep_diff = if borrow == 0 then word_max else 0 in
    bigint_reduce_once (bigint_ct_select diff diff_adj keep_diff) p

-- `h = h_unnorm * qinv mod p`
unfoldable pub crt_coefficient : List ℕ → List ℕ → List ℕ → List ℕ
unfolding mont_neg_inv mont_r2 mont_to mont_mul mont_from
crt_coefficient h_unnorm qinv p =
    let p0inv = mont_neg_inv (get_or p 0 0) in
    let r2_p = mont_r2 p in
    let h_m = mont_to h_unnorm p p0inv r2_p in
    let qi_m = mont_to qinv p p0inv r2_p in mont_from (mont_mul h_m qi_m p p0inv) p p0inv

unfoldable pub rsa_crt_combine : List ℕ → List ℕ → List ℕ → List ℕ → List ℕ → List ℕ
unfolding crt_difference crt_coefficient schoolbook bigint_add
rsa_crt_combine m_p m_q p q qinv =
    let h = crt_coefficient (crt_difference m_p m_q p) qinv p in
    (bigint_add (schoolbook q h (replicate (length q) 0)) m_q).0
