-- ===== src/BigInt/Crt/Product.antt =====
-- providers/arm_asm/rsa_bigint.hpp: the schoolbook product of `rsa_crt_combine`, modulo the width.
use native.Mathlib.Nat.{lt_of_mul-lt-mul_left}
use claude_crypto.Base.{
  ℕ, zero, suc, ◌+◌, ◌*◌, ◌/◌, ◌==◌, ◌<◌, ◌≤◌, ◌≡◌, ap, List, [], ◌∷◌, ◌++◌, take, drop, false,
  if◌then◌else◌, replicate, arith,
}
use claude_crypto.BigInt.{word, u64, u128, value, radix, IsLimbs}
use claude_crypto.BigInt.Limbs.{zeros-IsLimbs, value-zeros}
use claude_crypto.BigInt.Mont.Rows.{mul_digit}
use claude_crypto.BigInt.Crt.{product_row, schoolbook}

-- `out` has n limbs and is `x` up to a multiple of 2 ^ (64 * n).
pub record IsTruncated (n : ℕ) (x : ℕ) (out : List ℕ) : Type 0 where
  pub limbs : IsLimbs n out
  pub lost : ℕ
  pub exact : value out + radix n * lost ≡ x

product_row_lem :
    (n m q_i carry : ℕ) (h qh : List ℕ)
    → n ≤ m
    → q_i < word
    → carry < word
    → IsLimbs m h
    → IsLimbs n qh
    → IsTruncated n (value qh + q_i * value h + carry) (product_row q_i carry h qh)
unfolding product_row
product_row_lem zero m q_i carry h [] le hq hc hh ht = record {
  limbs = tt;
  lost = q_i * value h + carry;
  exact = omega arith;
}
product_row_lem zero m q_i carry h (t ∷ qh) le hq hc hh ht = absurd ht
product_row_lem (suc n) m q_i carry h [] le hq hc hh ht = absurd ht
product_row_lem (suc n) zero q_i carry h (t ∷ qh) le hq hc hh ht = absurd (omega arith)
product_row_lem (suc n) (suc m) q_i carry [] (t ∷ qh) le hq hc hh ht = absurd hh
product_row_lem (suc n) (suc m) q_i carry (x ∷ h) (t ∷ qh) le hq hc hh ht =
    let prod : ℕ = u128 (u128 (u128 (q_i * x) + t) + carry) in
    let (carry_fits, digit) = mul_digit q_i x t carry hq hh.0 ht.0 hc in
    let rest =
      product_row_lem n m q_i (u64 (prod / word)) h qh (omega arith) hq carry_fits hh.1 ht.1 in
    record {
      limbs = (omega arith, rest.limbs);
      lost = rest.lost;
      exact = omega (arith, digit, rest.exact);
    }

-- A limb 0 is passed over.
guarded_row_lem :
    (n m q_i : ℕ) (h qh : List ℕ)
    → n ≤ m
    → q_i < word
    → IsLimbs m h
    → IsLimbs n qh
    → IsTruncated n (value qh + q_i * value h) (if q_i == 0 then qh else product_row q_i 0 h qh)
guarded_row_lem n m zero h qh le hq hh ht = record { limbs = ht; lost = 0; exact = omega arith }
guarded_row_lem n m (suc q) h qh le hq hh ht =
    let row = product_row_lem n m (suc q) 0 h qh le hq (omega arith) hh ht in
    let some_bits : (suc q == 0) ≡ false = ground arith in
    rw some_bits (record { limbs = row.limbs; lost = row.lost; exact = omega (arith, row.exact) })

-- What is left of the row goes on behind its lowest limb.
next_limb :
    (n x y q_h : ℕ) (row : List ℕ) (rest : List ℕ → List ℕ)
    → IsTruncated (suc n) x row
    → ((r : List ℕ) → IsLimbs n r → IsTruncated n (value r + q_h) (rest r))
    → y ≡ x + word * q_h
    → IsTruncated (suc n) y (take 1 row ++ rest (drop 1 row))
next_limb n x y q_h [] rest h go e = absurd h.limbs
next_limb n x y q_h (t ∷ row) rest h go e =
    let above = go row h.limbs.1 in
    record {
      limbs = (h.limbs.0, above.limbs);
      lost = h.lost + above.lost;
      exact = omega (arith, h.exact, above.exact, e);
    }

schoolbook_lem :
    (k n m : ℕ) (q h qh : List ℕ)
    → n ≤ m
    → k ≤ n
    → IsLimbs k q
    → IsLimbs m h
    → IsLimbs n qh
    → IsTruncated n (value qh + value q * value h) (schoolbook q h qh)
unfolding schoolbook
schoolbook_lem zero n m [] h qh le fit hq hh ht = record {
  limbs = ht;
  lost = 0;
  exact = omega arith;
}
schoolbook_lem zero n m (q_i ∷ q) h qh le fit hq hh ht = absurd hq
schoolbook_lem (suc k) n m [] h qh le fit hq hh ht = absurd hq
schoolbook_lem (suc k) zero m (q_i ∷ q) h qh le fit hq hh ht = absurd (omega arith)
schoolbook_lem (suc k) (suc n) m (q_i ∷ q) h qh le fit hq hh ht =
    next_limb n (value qh + q_i * value h) _ (value q * value h)
      (if q_i == 0 then qh else product_row q_i 0 h qh) (schoolbook q h)
      (guarded_row_lem (suc n) m q_i h qh le hq.0 hh ht)
      (λ (r : List ℕ) (hr : IsLimbs n r).
        schoolbook_lem k n m q h r (omega arith) (omega arith) hq.1 hh hr)
      (omega arith)

-- The product is exact where it fits.
pub schoolbook-exact :
    (n : ℕ) (q h : List ℕ)
    → IsLimbs n q
    → IsLimbs n h
    → value q * value h < radix n
    → IsLimbs n (schoolbook q h (replicate n 0))
      × (value (schoolbook q h (replicate n 0)) ≡ value q * value h)
schoolbook-exact n q h hq hh fits =
    let r =
      schoolbook_lem n n n q h (replicate n 0) (omega arith) (omega arith) hq hh
        (zeros-IsLimbs n) in
    let zeros = value-zeros n in
    let none_lost : radix n * r.lost < radix n * 1 = omega (arith, r.exact, zeros) in
    let zero_lost : r.lost < 1 = lt_of_mul-lt-mul_left (radix n) none_lost in
    let nothing : r.lost ≡ 0 = omega (arith, zero_lost) in
    (r.limbs, omega (arith, r.exact, zeros, ap (λ (t : ℕ). radix n * t) nothing))
