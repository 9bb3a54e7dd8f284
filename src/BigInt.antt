-- ===== src/BigInt.antt =====
-- providers/arm_asm/rsa_bigint.hpp: fixed-width integers in 64-bit limbs, least significant first.
-- `BigInt<NW>` is a list of NW limbs; the loops over the limbs recur on the lists.
pub mod Limbs
pub mod AddSub
pub mod Equal
pub mod Mont
pub mod Power
pub mod Crt
pub mod Bytes
use claude_crypto.Base.{
  ℕ, zero, suc, ◌+◌, ◌-◌, ◌*◌, ◌/◌, ◌%◌, ◌^◌, ◌<◌, bit_and, bit_or, bit_xor, ltb, ◌==◌,
  if◌then◌else◌, ◌&&◌, ◌||◌, Bool, List, [], ◌∷◌,
}

-- 2 ^ 64 and UINT64_MAX.
abbrev pub word : ℕ
word = 2 ^ 64

abbrev pub word_max : ℕ
word_max = 2 ^ 64 - 1

abbrev pub wide : ℕ
wide = 2 ^ 128

-- The number that the limbs stand for, and 2 ^ (64 * n).
abbrev pub value : List ℕ → ℕ
value [] = 0
value (x ∷ xs) = x + word * value xs

abbrev pub radix : ℕ → ℕ
radix zero = 1
radix (suc n) = word * radix n

-- `xs` is a `BigInt<n>`: n limbs, each a uint64_t.
abbrev pub IsLimbs : ℕ → List ℕ → Type 0
IsLimbs zero [] = Unit
IsLimbs zero (x ∷ xs) = ⊥
IsLimbs (suc n) [] = ⊥
IsLimbs (suc n) (x ∷ xs) = (x < word) × IsLimbs n xs

-- uint64_t and __uint128_t arithmetic; `-` on ℕ stops at 0, so the modulus is added first.
abbrev pub u64 : ℕ → ℕ
u64 x = x % word

abbrev pub u128 : ℕ → ℕ
u128 x = x % wide

abbrev pub sub_u64 : ℕ → ℕ → ℕ
sub_u64 a b = (a + word - b) % word

-- `~mask`
abbrev pub not_u64 : ℕ → ℕ
not_u64 x = word_max - x

-- The loop of `bigint_add`: the limbs of the sum and the last carry.
pub add_loop : ℕ → List ℕ → List ℕ → List ℕ × ℕ
add_loop carry [] bs = ([], carry)
add_loop carry (a ∷ as') [] = ([], carry)
add_loop carry (a ∷ as') (b ∷ bs) =
    let sum = u128 (u128 (a + b) + carry) in
    let rest = add_loop (u64 (sum / word)) as' bs in (u64 sum ∷ rest.0, rest.1)

unfoldable pub bigint_add : List ℕ → List ℕ → List ℕ × ℕ
unfolding add_loop
bigint_add a b = add_loop 0 a b

-- The loop of `bigint_sub`: the limbs of the difference and the last borrow.
pub sub_loop : ℕ → List ℕ → List ℕ → List ℕ × ℕ
sub_loop borrow [] bs = ([], borrow)
sub_loop borrow (a ∷ as') [] = ([], borrow)
sub_loop borrow (a ∷ as') (b ∷ bs) =
    let bi = u128 (b + borrow) in
    let rest = sub_loop (if ltb a bi then 1 else 0) as' bs in
    (u64 ((a + wide - bi) % wide) ∷ rest.0, rest.1)

unfoldable pub bigint_sub : List ℕ → List ℕ → List ℕ × ℕ
unfolding sub_loop
bigint_sub a b = sub_loop 0 a b

-- The borrow of `bigint_ct_lt` after all limbs.
pub lt_loop : ℕ → List ℕ → List ℕ → ℕ
lt_loop borrow [] bs = borrow
lt_loop borrow (a ∷ as') [] = borrow
lt_loop borrow (a ∷ as') (b ∷ bs) =
    lt_loop (if ltb a (u64 (b + borrow)) || (borrow == 1 && b == word_max) then 1 else 0) as' bs

unfoldable pub bigint_ct_lt : List ℕ → List ℕ → ℕ
unfolding lt_loop
bigint_ct_lt a b = if lt_loop 0 a b == 0 then 0 else word_max

unfoldable pub bigint_ct_select : List ℕ → List ℕ → ℕ → List ℕ
bigint_ct_select [] bs mask = []
bigint_ct_select (a ∷ as') [] mask = []
bigint_ct_select (a ∷ as') (b ∷ bs) mask =
    bit_or (bit_and a mask) (bit_and b (not_u64 mask)) ∷ bigint_ct_select as' bs mask

-- The accumulated `diff` of `bigint_eq`.
pub eq_loop : ℕ → List ℕ → List ℕ → ℕ
eq_loop diff [] bs = diff
eq_loop diff (a ∷ as') [] = diff
eq_loop diff (a ∷ as') (b ∷ bs) = eq_loop (bit_or diff (bit_xor a b)) as' bs

unfoldable pub bigint_eq : List ℕ → List ℕ → Bool
unfolding eq_loop
bigint_eq a b = eq_loop 0 a b == 0

unfoldable pub bigint_reduce_once : List ℕ → List ℕ → List ℕ
unfolding bigint_sub bigint_ct_select
bigint_reduce_once a m =
    let (diff, borrow) = bigint_sub a m in
    let keep_original = if borrow == 0 then 0 else word_max in bigint_ct_select a diff keep_original
