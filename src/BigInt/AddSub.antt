-- ===== src/BigInt/AddSub.antt =====
-- providers/arm_asm/rsa_bigint.hpp: addition, subtraction, comparison, selection and the
-- conditional subtraction of limbs.
use claude_crypto.Base.{
  ℕ, zero, suc, ◌+◌, ◌-◌, ◌*◌, ◌/◌, ◌%◌, ◌&&◌, ◌||◌, ◌≤◌, ◌<◌, ◌≡◌, refl, ap, ap₂, List, [], ◌∷◌,
  arith, ltb, ◌==◌, ◌⊎◌, inl, inr, if◌then◌else◌, bit_and_mask, bit_and-zero, bit_or-zero,
  zero-bit_or,
}
use claude_crypto.BigInt.{
  word, word_max, value, radix, IsLimbs, add_loop, bigint_add, sub_loop, bigint_sub, lt_loop, u64,
  u128, wide, bigint_ct_lt, bigint_ct_select, bigint_reduce_once,
}
use claude_crypto.BigInt.Limbs.{value-lt}

pub add_loop_lem :
    (n carry : ℕ) (a b : List ℕ)
    → carry ≤ 1
    → IsLimbs n a
    → IsLimbs n b
    → IsLimbs n (add_loop carry a b).0
      × ((add_loop carry a b).1 ≤ 1)
      × (value (add_loop carry a b).0 + radix n * (add_loop carry a b).1
          ≡ value a + value b + carry)
unfolding add_loop
add_loop_lem zero carry [] b h ha hb = ground arith
add_loop_lem zero carry (x ∷ a) b h ha hb = absurd ha
add_loop_lem (suc n) carry [] b h ha hb = absurd ha
add_loop_lem (suc n) carry (x ∷ a) [] h ha hb = absurd hb
add_loop_lem (suc n) carry (x ∷ a) (y ∷ b) h ha hb =
    let c : ℕ = u64 (u128 (u128 (x + y) + carry) / word) in
    let (limbs, small, sum) = add_loop_lem n c a b (omega arith) ha.1 hb.1 in
    ((omega arith, limbs), small, omega arith)

mod_word_lt : (x : ℕ) → x % word < word
mod_word_lt x = omega arith

pub sub_loop_lem :
    (n borrow : ℕ) (a b : List ℕ)
    → borrow ≤ 1
    → IsLimbs n a
    → IsLimbs n b
    → IsLimbs n (sub_loop borrow a b).0
      × ((sub_loop borrow a b).1 ≤ 1)
      × (value (sub_loop borrow a b).0 + value b + borrow
          ≡ value a + radix n * (sub_loop borrow a b).1)
unfolding sub_loop
sub_loop_lem zero borrow [] [] h ha hb = ground arith
sub_loop_lem zero borrow [] (y ∷ b) h ha hb = absurd hb
sub_loop_lem zero borrow (x ∷ a) b h ha hb = absurd ha
sub_loop_lem (suc n) borrow [] b h ha hb = absurd ha
sub_loop_lem (suc n) borrow (x ∷ a) [] h ha hb = absurd hb
sub_loop_lem (suc n) borrow (x ∷ a) (y ∷ b) h ha hb =
    let c : ℕ = if ltb x (u128 (y + borrow)) then 1 else 0 in
    let c≤1 : (if ltb x (u128 (y + borrow)) then 1 else 0) ≤ 1 = ground arith in
    let digit : u64 ((x + wide - u128 (y + borrow)) % wide) + y + borrow
        ≡ x + word * (if ltb x (u128 (y + borrow)) then 1 else 0) =
      ground arith in
    let (limbs, small, difference) = sub_loop_lem n c a b c≤1 ha.1 hb.1 in
    ((mod_word_lt _, limbs), small, omega (arith, difference, digit))

-- For operands of n limbs, bigint_add gives n limbs and a carry of at most 1 that together are
-- the exact sum.
pub bigint_add_lem :
    (n : ℕ) (a b : List ℕ)
    → IsLimbs n a
    → IsLimbs n b
    → IsLimbs n (bigint_add a b).0
      × ((bigint_add a b).1 ≤ 1)
      × (value (bigint_add a b).0 + radix n * (bigint_add a b).1 ≡ value a + value b)
unfolding bigint_add
bigint_add_lem n a b ha hb =
    let (limbs, small, sum) = add_loop_lem n 0 a b (omega arith) ha hb in
    (limbs, small, omega (arith, sum))

-- For operands of n limbs, bigint_sub gives n limbs and a borrow of at most 1, and the difference
-- plus b is a plus the borrow times 2^(64 n).
pub bigint_sub_lem :
    (n : ℕ) (a b : List ℕ)
    → IsLimbs n a
    → IsLimbs n b
    → IsLimbs n (bigint_sub a b).0
      × ((bigint_sub a b).1 ≤ 1)
      × (value (bigint_sub a b).0 + value b ≡ value a + radix n * (bigint_sub a b).1)
unfolding bigint_sub
bigint_sub_lem n a b ha hb =
    let (limbs, small, d) = sub_loop_lem n 0 a b (omega arith) ha hb in
    (limbs, small, omega (arith, d))

-- The borrow tells the order.
pub bigint_sub-borrow :
    (n : ℕ) (a b : List ℕ)
    → IsLimbs n a
    → IsLimbs n b
    → ((bigint_sub a b).1 ≡ 0) × (value b ≤ value a)
      ⊎ ((bigint_sub a b).1 ≡ 1) × (value a < value b)
bigint_sub-borrow n a b ha hb =
    let (limbs, small, d) = bigint_sub_lem n a b ha hb in
    let below = value-lt n (bigint_sub a b).0 limbs in let above = value-lt n a ha in ground arith

-- The comparison of the limbs above decides, and this limb where they are equal.
compare_digit :
    (x y borrow c a b r : ℕ)
    → ((c ≡ 0) × (y + borrow ≤ x)) ⊎ ((c ≡ 1) × (x < y + borrow))
    → ((r ≡ 0) × (b + c ≤ a)) ⊎ ((r ≡ 1) × (a < b + c))
    → x < word
    → y + borrow ≤ word
    → ((r ≡ 0) × (y + word * b + borrow ≤ x + word * a))
      ⊎ ((r ≡ 1) × (x + word * a < y + word * b + borrow))
compare_digit x y borrow c a b r digit rest hx hy = ground arith

pub lt_loop_lem :
    (n borrow : ℕ) (a b : List ℕ)
    → borrow ≤ 1
    → IsLimbs n a
    → IsLimbs n b
    → ((lt_loop borrow a b ≡ 0) × (value b + borrow ≤ value a))
      ⊎ ((lt_loop borrow a b ≡ 1) × (value a < value b + borrow))
unfolding lt_loop
lt_loop_lem zero borrow [] [] h ha hb = ground arith
lt_loop_lem zero borrow [] (y ∷ b) h ha hb = absurd hb
lt_loop_lem zero borrow (x ∷ a) b h ha hb = absurd ha
lt_loop_lem (suc n) borrow [] b h ha hb = absurd ha
lt_loop_lem (suc n) borrow (x ∷ a) [] h ha hb = absurd hb
lt_loop_lem (suc n) borrow (x ∷ a) (y ∷ b) h ha hb =
    let c : ℕ = if ltb x (u64 (y + borrow)) || (borrow == 1 && y == word_max) then 1 else 0 in
    let digit : ((c ≡ 0) × (y + borrow ≤ x)) ⊎ ((c ≡ 1) × (x < y + borrow)) = ground arith in
    let rest = lt_loop_lem n c a b (ground arith) ha.1 hb.1 in
    compare_digit x y borrow c (value a) (value b) (lt_loop c a b) digit rest ha.0 (omega arith)

-- A mask of ones takes the first operand, a mask of zeros the second.
pub bigint_ct_select-ones :
    (n : ℕ) (a b : List ℕ) → IsLimbs n a → IsLimbs n b → bigint_ct_select a b word_max ≡ a
unfolding bigint_ct_select
bigint_ct_select-ones zero [] b ha hb = refl
bigint_ct_select-ones zero (x ∷ a) b ha hb = absurd ha
bigint_ct_select-ones (suc n) [] b ha hb = absurd ha
bigint_ct_select-ones (suc n) (x ∷ a) [] ha hb = absurd hb
bigint_ct_select-ones (suc n) (x ∷ a) (y ∷ b) ha hb =
    ap₂ ◌∷◌ (rw (bit_and_mask 64 x, bit_and-zero y, bit_or-zero) (omega arith))
      (bigint_ct_select-ones n a b ha.1 hb.1)

pub bigint_ct_select-zeros :
    (n : ℕ) (a b : List ℕ) → IsLimbs n a → IsLimbs n b → bigint_ct_select a b 0 ≡ b
unfolding bigint_ct_select
bigint_ct_select-zeros zero [] [] ha hb = refl
bigint_ct_select-zeros zero [] (y ∷ b) ha hb = absurd hb
bigint_ct_select-zeros zero (x ∷ a) b ha hb = absurd ha
bigint_ct_select-zeros (suc n) [] b ha hb = absurd ha
bigint_ct_select-zeros (suc n) (x ∷ a) [] ha hb = absurd hb
bigint_ct_select-zeros (suc n) (x ∷ a) (y ∷ b) ha hb =
    ap₂ ◌∷◌ (rw (bit_and-zero x, bit_and_mask 64 y, zero-bit_or) (omega arith))
      (bigint_ct_select-zeros n a b ha.1 hb.1)

-- For operands of n limbs, bigint_ct_lt is all ones where a is below b, and 0 where it is not.
pub bigint_ct_lt_lem :
    (n : ℕ) (a b : List ℕ)
    → IsLimbs n a
    → IsLimbs n b
    → ((bigint_ct_lt a b ≡ word_max) × (value a < value b))
      ⊎ ((bigint_ct_lt a b ≡ 0) × (value b ≤ value a))
unfolding bigint_ct_lt
bigint_ct_lt_lem n a b ha hb = let order = lt_loop_lem n 0 a b (omega arith) ha hb in ground arith

-- For a and m of n limbs, bigint_reduce_once has n limbs and is a if a is below m, and a - m
-- otherwise.
pub bigint_reduce_once_lem :
    (n : ℕ) (a m : List ℕ)
    → IsLimbs n a
    → IsLimbs n m
    → IsLimbs n (bigint_reduce_once a m)
      × ((value a < value m) × (value (bigint_reduce_once a m) ≡ value a)
          ⊎ (value m ≤ value a) × (value (bigint_reduce_once a m) + value m ≡ value a))
unfolding bigint_reduce_once
bigint_reduce_once_lem n a m ha hm =
    let (limbs, small, d) = bigint_sub_lem n a m ha hm in
    elim (bigint_sub-borrow n a m ha hm) [
      | inl (e, le) ↦
          rw (e, bigint_ct_select-zeros n a (bigint_sub a m).0 ha limbs)
            (limbs, inr (le, omega (arith, d, ap (λ (t : ℕ). radix n * t) e)))
      | inr (e, lt) ↦
          rw (e, bigint_ct_select-ones n a (bigint_sub a m).0 ha limbs) (ha, inl (lt, refl))
    ]
