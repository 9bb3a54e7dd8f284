-- ===== src/BigInt/Mont/Inverse.antt =====
-- providers/arm_asm/rsa_bigint.hpp: the Newton rounds of `mont_neg_inv`.
use claude_crypto.Base.{ℕ, zero, suc, ◌+◌, ◌-◌, ◌*◌, ◌/◌, ◌%◌, ◌^◌, ◌<◌, ◌≡◌, refl, ap, arith}
use claude_crypto.BigInt.{word, u64, sub_u64}
use claude_crypto.BigInt.Mont.{newton_step, newton, mont_neg_inv}

-- With `y = m0 * inv` one round turns `y` into `y * (2 - y)`, which is 1 - (1 - y) ^ 2.
squared_error :
    (M c y z w : ℕ) → y ≡ 1 + M * c → z + y ≡ 2 + w → y * z + M * M * (c * c) ≡ 1 + y * w
squared_error M c y z w hy hz =
    omega (arith, ap (λ (t : ℕ). y * t) hz, ap (λ (t : ℕ). t * y) hy, ap (λ (t : ℕ). M * c * t) hy)

mul_mod_word : (a b : ℕ) → (a * (b % word)) % word ≡ (a * b) % word
mul_mod_word a b =
    let split : b ≡ word * (b / word) + b % word = omega arith in
    omega (arith, ap (λ (t : ℕ). a * t) split)

-- The product with the wrapped factors is the wrapped product.
newton_step_product :
    (m0 inv z : ℕ) → (m0 * u64 (inv * (z % word))) % word ≡ (u64 (m0 * inv) * z) % word
newton_step_product m0 inv z =
    let outer = mul_mod_word m0 (inv * (z % word)) in
    let inner = mul_mod_word (m0 * inv) z in
    let left = mul_mod_word z (m0 * inv) in omega (arith, outer, inner, left)

round_error :
    (M c m0 inv : ℕ)
    → (m0 * inv) % word ≡ 1 + M * c
    → (q y : ℕ) × ((m0 * newton_step m0 inv) % word + word * q + M * M * (c * c) ≡ 1 + word * y)
unfolding newton_step
round_error M c m0 inv h =
    let y : ℕ = (m0 * inv) % word in
    let z : ℕ = 2 + word - y in
    let error = squared_error M c y z word h (omega arith) in
    let product = newton_step_product m0 inv z in (y * z / word, y, omega (arith, error, product))

-- Twice the bits after a round.
module _ (m0 : ℕ) where
  bits_6 : (inv : ℕ) → (m0 * inv) % word % 2 ^ 3 ≡ 1 → (m0 * newton_step m0 inv) % word % 2 ^ 6 ≡ 1
  bits_6 inv h =
      let (q, y, e) = round_error (2 ^ 3) ((m0 * inv) % word / 2 ^ 3) m0 inv (omega arith) in
      omega (arith, e)

  bits_12 :
      (inv : ℕ) → (m0 * inv) % word % 2 ^ 6 ≡ 1 → (m0 * newton_step m0 inv) % word % 2 ^ 12 ≡ 1
  bits_12 inv h =
      let (q, y, e) = round_error (2 ^ 6) ((m0 * inv) % word / 2 ^ 6) m0 inv (omega arith) in
      omega (arith, e)

  bits_24 :
      (inv : ℕ) → (m0 * inv) % word % 2 ^ 12 ≡ 1 → (m0 * newton_step m0 inv) % word % 2 ^ 24 ≡ 1
  bits_24 inv h =
      let (q, y, e) = round_error (2 ^ 12) ((m0 * inv) % word / 2 ^ 12) m0 inv (omega arith) in
      omega (arith, e)

  bits_48 :
      (inv : ℕ) → (m0 * inv) % word % 2 ^ 24 ≡ 1 → (m0 * newton_step m0 inv) % word % 2 ^ 48 ≡ 1
  bits_48 inv h =
      let (q, y, e) = round_error (2 ^ 24) ((m0 * inv) % word / 2 ^ 24) m0 inv (omega arith) in
      omega (arith, e)

  bits_64 : (inv : ℕ) → (m0 * inv) % word % 2 ^ 48 ≡ 1 → (m0 * newton_step m0 inv) % word ≡ 1
  bits_64 inv h =
      let (q, y, e) = round_error (2 ^ 48) ((m0 * inv) % word / 2 ^ 48) m0 inv (omega arith) in
      omega (arith, e)

-- The square of an odd number is 1 modulo 8, so the first guess `m0` is right at three bits.
odd_digit : (r : ℕ) → r < 8 → r % 2 ≡ 1 → (r * r) % 8 ≡ 1
odd_digit (suc zero) h odd = refl
odd_digit (suc (suc (suc zero))) h odd = refl
odd_digit (suc (suc (suc (suc (suc zero))))) h odd = refl
odd_digit (suc (suc (suc (suc (suc (suc (suc zero))))))) h odd = refl
odd_digit r h odd = absurd (omega arith)

odd_square : (m0 : ℕ) → m0 % 2 ≡ 1 → (m0 * m0) % 8 ≡ 1
odd_square m0 h =
    let r : ℕ = m0 % 8 in
    let a : ℕ = m0 / 8 in
    let split : m0 ≡ 8 * a + r = omega arith in
    omega (
      arith,
      odd_digit r (omega arith) (omega arith),
      ap (λ (t : ℕ). m0 * t) split,
      ap (λ (t : ℕ). r * t) split,
    )

newton_step-lt : (m0 inv : ℕ) → newton_step m0 inv < word
unfolding newton_step
newton_step-lt m0 inv = omega arith

newton_lem : (m0 : ℕ) → m0 % 2 ≡ 1 → ((m0 * newton 5 m0 m0) % word ≡ 1) × (newton 5 m0 m0 < word)
unfolding newton
newton_lem m0 h =
    let three : (m0 * m0) % word % 2 ^ 3 ≡ 1 = omega (arith, odd_square m0 h) in
    let i1 : ℕ = newton_step m0 m0 in
    let i2 : ℕ = newton_step m0 i1 in
    let i3 : ℕ = newton_step m0 i2 in
    let i4 : ℕ = newton_step m0 i3 in
    (
      bits_64 m0 i4 (bits_48 m0 i3 (bits_24 m0 i2 (bits_12 m0 i1 (bits_6 m0 m0 three)))),
      newton_step-lt m0 i4,
    )

negated_inverse :
    (m0 inv : ℕ) → (m0 * inv) % word ≡ 1 → inv < word → (m0 * sub_u64 0 inv + 1) % word ≡ 0
negated_inverse m0 inv h lt =
    let rest : ℕ = 0 + word - inv in
    let whole : rest + inv ≡ word = omega arith in
    omega (arith, mul_mod_word m0 rest, ap (λ (t : ℕ). m0 * t) whole)

-- For an odd limb m0, five Newton steps give the negated inverse: m0 * mont_neg_inv m0 + 1 is
-- divisible by 2^64.
pub mont_neg_inv_lem : (m0 : ℕ) → m0 % 2 ≡ 1 → (m0 * mont_neg_inv m0 + 1) % word ≡ 0
unfolding mont_neg_inv
mont_neg_inv_lem m0 h = negated_inverse m0 (newton 5 m0 m0) (newton_lem m0 h).0 (newton_lem m0 h).1
