-- ===== src/BigInt/Mont/Rows.antt =====
-- providers/arm_asm/rsa_bigint.hpp: the inner loops of `mont_mul`.
use claude_crypto.Base.{
  ℕ, zero, suc, ◌+◌, ◌-◌, ◌*◌, ◌/◌, ◌%◌, ◌≤◌, ◌<◌, ◌≡◌, ap, List, [], ◌∷◌, ◌++◌, arith,
}
use claude_crypto.BigInt.{word, wide, u64, u128, value, radix, IsLimbs}
use claude_crypto.BigInt.Mont.{mul_row, reduce_row}

-- A product of words, a word and a carry fit 128 bits.
pub fits_wide : (a b t c : ℕ) → a < word → b < word → t < word → c < word → a * b + t + c < wide
fits_wide a b t c ha hb ht hc =
    let product : a * b ≤ a * (word - 1) = grind arith in omega (arith, product)

pub mul_digit :
    (a b t c : ℕ)
    → a < word
    → b < word
    → t < word
    → c < word
    → let prod = u128 (u128 (u128 (a * b) + t) + c) in
      (u64 (prod / word) < word) × (u64 prod + word * u64 (prod / word) ≡ a * b + t + c)
mul_digit a b t c ha hb ht hc = omega (arith, fits_wide a b t c ha hb ht hc)

reduce_digit :
    (q m t c : ℕ)
    → q < word
    → m < word
    → t < word
    → c < word
    → let c' = u128 (c + u128 (u128 (q * m) + t)) in
      (c' / word < word) × (u64 c' + word * (c' / word) ≡ q * m + t + c)
reduce_digit q m t c hq hm ht hc = omega (arith, fits_wide q m t c hq hm ht hc)

pub mul_row_lem :
    (n a carry : ℕ) (bs ts : List ℕ)
    → a < word
    → carry < word
    → IsLimbs n bs
    → IsLimbs n ts
    → IsLimbs n (mul_row a carry bs ts).0
      × ((mul_row a carry bs ts).1 < word)
      × (value (mul_row a carry bs ts).0 + radix n * (mul_row a carry bs ts).1
          ≡ a * value bs + value ts + carry)
unfolding mul_row
mul_row_lem zero a carry [] [] ha hc hb ht = (tt, hc, omega arith)
mul_row_lem zero a carry [] (t ∷ ts) ha hc hb ht = absurd ht
mul_row_lem zero a carry (b ∷ bs) ts ha hc hb ht = absurd hb
mul_row_lem (suc n) a carry [] ts ha hc hb ht = absurd hb
mul_row_lem (suc n) a carry (b ∷ bs) [] ha hc hb ht = absurd ht
mul_row_lem (suc n) a carry (b ∷ bs) (t ∷ ts) ha hc hb ht =
    let prod : ℕ = u128 (u128 (u128 (a * b) + t) + carry) in
    let (carry_fits, digit) = mul_digit a b t carry ha hb.0 ht.0 hc in
    let (limbs, small, row) = mul_row_lem n a (u64 (prod / word)) bs ts ha carry_fits hb.1 ht.1 in
    ((omega arith, limbs), small, omega (arith, digit, row))

pub reduce_row_lem :
    (n q c : ℕ) (ms ts : List ℕ)
    → q < word
    → c < word
    → IsLimbs n ms
    → IsLimbs n ts
    → IsLimbs n (reduce_row q c ms ts).0
      × ((reduce_row q c ms ts).1 < word)
      × (value (reduce_row q c ms ts).0 + radix n * (reduce_row q c ms ts).1
          ≡ q * value ms + value ts + c)
unfolding reduce_row
reduce_row_lem zero q c [] [] hq hc hm ht = (tt, hc, omega arith)
reduce_row_lem zero q c [] (t ∷ ts) hq hc hm ht = absurd ht
reduce_row_lem zero q c (m ∷ ms) ts hq hc hm ht = absurd hm
reduce_row_lem (suc n) q c [] ts hq hc hm ht = absurd hm
reduce_row_lem (suc n) q c (m ∷ ms) [] hq hc hm ht = absurd ht
reduce_row_lem (suc n) q c (m ∷ ms) (t ∷ ts) hq hc hm ht =
    let c' : ℕ = u128 (c + u128 (u128 (q * m) + t)) in
    let (carry_fits, digit) = reduce_digit q m t c hq hm.0 ht.0 hc in
    let (limbs, small, row) = reduce_row_lem n q (c' / word) ms ts hq carry_fits hm.1 ht.1 in
    ((omega arith, limbs), small, omega (arith, digit, row))

pub value-snoc :
    (n : ℕ) (xs : List ℕ) (x : ℕ) → IsLimbs n xs → value (xs ++ x ∷ []) ≡ value xs + radix n * x
value-snoc zero [] x h = omega arith
value-snoc zero (y ∷ ys) x h = absurd h
value-snoc (suc n) [] x h = absurd h
value-snoc (suc n) (y ∷ ys) x h = omega (arith, value-snoc n ys x h.1)

pub snoc-IsLimbs :
    (n : ℕ) (xs : List ℕ) (x : ℕ) → IsLimbs n xs → x < word → IsLimbs (suc n) (xs ++ x ∷ [])
snoc-IsLimbs zero [] x h hx = (hx, tt)
snoc-IsLimbs zero (y ∷ ys) x h hx = absurd h
snoc-IsLimbs (suc n) [] x h hx = absurd h
snoc-IsLimbs (suc n) (y ∷ ys) x h hx = (h.0, snoc-IsLimbs n ys x h.1 hx)

-- The quotient digit clears the lowest limb.
pub lowest_cleared :
    (t0 m0 m0inv : ℕ) → (m0 * m0inv + 1) % word ≡ 0 → (u64 (t0 * m0inv) * m0 + t0) % word ≡ 0
lowest_cleared t0 m0 m0inv h =
    let q : ℕ = u64 (t0 * m0inv) in
    let k : ℕ = t0 * m0inv / word in
    let split : q + word * k ≡ t0 * m0inv = omega arith in
    let j : ℕ = (m0 * m0inv + 1) / word in
    let inverse : m0 * m0inv + 1 ≡ word * j = omega arith in
    omega (arith, ap (λ (t : ℕ). t * m0) split, ap (λ (t : ℕ). t0 * t) inverse)
