-- ===== src/BigInt/Power/Exponent.antt =====
-- providers/arm_asm/rsa_bigint.hpp: the loops over the bits of the exponent in
-- `bigint_powmod_ct`.
use native.Mathlib.Nat.{pow-suc, one-le-pow}
use claude_crypto.Base.{
  ℕ, zero, suc, ◌+◌, ◌*◌, ◌/◌, ◌%◌, ◌^◌, ◌<◌, ◌≡◌, refl, sym, ap, ◌∙◌, List, [], ◌∷◌, arith,
  pow-add, mod-double, Cong, eq→Cong, Cong-trans, Cong-mul₂, Cong-cancel,
}
use claude_crypto.BigInt.{bigint_ct_select, word, word_max, value, radix, IsLimbs}
use claude_crypto.BigInt.AddSub.{bigint_ct_select-ones, bigint_ct_select-zeros}
use claude_crypto.BigInt.Mont.{mont_mul}
use claude_crypto.BigInt.Mont.Round.{IsNegInv, HasRoom}
use claude_crypto.BigInt.Mont.Multiply.{mont_mul_lem}
use claude_crypto.BigInt.Power.{power_bit, power_limb, power_limbs}
use claude_crypto.BigInt.Power.Radix.{Represents}

-- The word, and so R, has an inverse modulo m.
word_inverse : (m : List ℕ) (m0inv : ℕ) → IsNegInv m m0inv → (v : ℕ) × Cong (value m) (word * v) 1
word_inverse [] m0inv inv = absurd inv
word_inverse (m ∷ ms) m0inv inv =
    let j : ℕ = (m * m0inv + 1) / word in
    let whole : m * m0inv + 1 ≡ word * j = omega arith in
    (j + value ms * m0inv, record { left = 0; right = m0inv; balance = omega (arith, whole) })

pub radix_inverse :
    (n : ℕ) (m : List ℕ) (m0inv : ℕ) → IsNegInv m m0inv → (v : ℕ) × Cong (value m) (radix n * v) 1
radix_inverse zero m m0inv inv = (1, eq→Cong _ refl)
radix_inverse (suc n) m m0inv inv =
    let (v, word_v) = word_inverse m m0inv inv in
    let (w, radix_w) = radix_inverse n m m0inv inv in
    let both = Cong-mul₂ word_v radix_w in
    (v * w, record { left = both.left; right = both.right; balance = omega (arith, both.balance) })

-- The steps of the exponentiation, with what they call shut.
module _ (base_m m : List ℕ) (m0inv : ℕ) where
  power_bit-zero :
      (r : List ℕ)
      → power_bit base_m m m0inv 0 r
        ≡ bigint_ct_select (mont_mul (mont_mul r r m m0inv) base_m m m0inv) (mont_mul r r m m0inv) 0
  unfolding power_bit
  power_bit-zero r = refl

  power_bit-one :
      (r : List ℕ)
      → power_bit base_m m m0inv 1 r
        ≡ bigint_ct_select
            (mont_mul (mont_mul r r m m0inv) base_m m m0inv)
            (mont_mul r r m m0inv)
            word_max
  unfolding power_bit
  power_bit-one r = refl

  power_limb-zero : (e : ℕ) (r : List ℕ) → power_limb base_m m m0inv 0 e r ≡ r
  unfolding power_limb
  power_limb-zero e r = refl

  power_limb-suc :
      (k e : ℕ) (r : List ℕ)
      → power_limb base_m m m0inv (suc k) e r
        ≡ power_limb base_m m m0inv k e (power_bit base_m m m0inv (e / 2 ^ k % 2) r)
  unfolding power_limb
  power_limb-suc k e r = refl

  power_limbs-nil : (r : List ℕ) → power_limbs base_m m m0inv [] r ≡ r
  unfolding power_limbs
  power_limbs-nil r = refl

  power_limbs-cons :
      (e : ℕ) (es r : List ℕ)
      → power_limbs base_m m m0inv (e ∷ es) r
        ≡ power_limb base_m m m0inv 64 e (power_limbs base_m m m0inv es r)
  unfolding power_limbs
  power_limbs-cons e es r = refl

pub rescale :
    {n : ℕ} {m r : List ℕ} {x y : ℕ}
    → x ≡ y
    → Represents n m (x * radix n) r
    → Represents n m (y * radix n) r
rescale {n} {m} {r} e h = record {
  limbs = h.limbs;
  below = h.below;
  residue = Cong-trans h.residue (eq→Cong _ (ap (λ (t : ℕ). t * radix n) e));
}

even_power : (x e : ℕ) → x ^ e * x ^ e ≡ x ^ (2 * e + 0)
even_power x e =
    let twice : e + e ≡ 2 * e + 0 = omega arith in sym (pow-add x e e) ∙ ap (λ (t : ℕ). x ^ t) twice

odd_power : (x e : ℕ) → x ^ e * x ^ e * x ≡ x ^ (2 * e + 1)
odd_power x e =
    let next : suc (2 * e + 0) ≡ 2 * e + 1 = omega arith in
    ap (λ (t : ℕ). t * x) (even_power x e)
    ∙ sym (pow-suc x (2 * e + 0))
    ∙ ap (λ (t : ℕ). x ^ t) next

next_exponent :
    (k e c : ℕ) → (2 * c + e / 2 ^ k % 2) * 2 ^ k + e % 2 ^ k ≡ c * 2 ^ suc k + e % 2 ^ suc k
next_exponent k e c =
    let double : 2 ^ suc k ≡ 2 * 2 ^ k = omega (arith, pow-suc 2 k) in
    let remainder : e % 2 ^ suc k ≡ e / 2 ^ k % 2 * 2 ^ k + e % 2 ^ k =
      ap (λ (t : ℕ). e % t) double ∙ mod-double e (2 ^ k) (one-le-pow k 2 (omega arith)) in
    omega (arith, remainder, ap (λ (t : ℕ). c * t) double)

module _ (n : ℕ) (m : List ℕ) (m0inv : ℕ) (hm : IsLimbs n m) (inv : IsNegInv m m0inv)
    (room : HasRoom n m) (big : 1 < value m) where
  -- Multiplication takes a factor R off the product.
  pub mont_mul-Represents :
      (a b : List ℕ) (x : ℕ)
      → IsLimbs n a
      → IsLimbs n b
      → value b < value m
      → Cong (value m) (value a * value b) (x * radix n)
      → Represents n m x (mont_mul a b m m0inv)
  mont_mul-Represents a b x ha hb lt c =
      let r = mont_mul_lem n a b m m0inv ha hb hm inv room lt in
      let (v, unit) = radix_inverse n m m0inv inv in
      record {
        limbs = r.limbs;
        below = r.below;
        residue = Cong-cancel (radix n) v unit (Cong-trans r.residue c);
      }

  -- The product of two numbers in Montgomery form.
  pub product_form :
      (a b : List ℕ) (x y : ℕ)
      → Represents n m (x * radix n) a
      → Represents n m (y * radix n) b
      → Represents n m (x * y * radix n) (mont_mul a b m m0inv)
  product_form a b x y ha hb =
      mont_mul-Represents a b (x * y * radix n) ha.limbs hb.limbs hb.below
        (Cong-trans (Cong-mul₂ ha.residue hb.residue) (eq→Cong _ (omega arith)))

  module _ (base : ℕ) (base_m : List ℕ) (hbase : Represents n m (base * radix n) base_m) where
    power_bit_lem :
        (bit e : ℕ) (r : List ℕ)
        → bit < 2
        → Represents n m (base ^ e * radix n) r
        → Represents n m (base ^ (2 * e + bit) * radix n) (power_bit base_m m m0inv bit r)
    power_bit_lem bit e r lt h =
        let squared = product_form r r (base ^ e) (base ^ e) h h in
        let prod =
          product_form (mont_mul r r m m0inv) base_m (base ^ e * base ^ e) base squared hbase in
        choose bit lt squared prod
      where
        choose :
            (bit : ℕ)
            → bit < 2
            → Represents n m (base ^ e * base ^ e * radix n) (mont_mul r r m m0inv)
            → Represents n m
                (base ^ e * base ^ e * base * radix n)
                (mont_mul (mont_mul r r m m0inv) base_m m m0inv)
            → Represents n m (base ^ (2 * e + bit) * radix n) (power_bit base_m m m0inv bit r)
        choose zero lt squared prod =
            rw
              (
                power_bit-zero base_m m m0inv r,
                bigint_ct_select-zeros n _ _ prod.limbs squared.limbs,
              )
              (rescale (even_power base e) squared)
        choose (suc zero) lt squared prod =
            rw
              (power_bit-one base_m m m0inv r, bigint_ct_select-ones n _ _ prod.limbs squared.limbs)
              (rescale (odd_power base e) prod)
        choose (suc (suc b)) lt squared prod = absurd (omega arith)

    power_limb_lem :
        (k e c : ℕ) (r : List ℕ)
        → Represents n m (base ^ c * radix n) r
        → Represents n m
            (base ^ (c * 2 ^ k + e % 2 ^ k) * radix n)
            (power_limb base_m m m0inv k e r)
    power_limb_lem zero e c r h =
        rw (power_limb-zero base_m m m0inv e r) (rescale (ap (λ (t : ℕ). base ^ t) (omega arith)) h)
    power_limb_lem (suc k) e c r h =
        let bit : ℕ = e / 2 ^ k % 2 in
        let step = power_bit_lem bit c r (omega arith) h in
        let rest = power_limb_lem k e (2 * c + bit) (power_bit base_m m m0inv bit r) step in
        rw (power_limb-suc base_m m m0inv k e r)
          (rescale (ap (λ (t : ℕ). base ^ t) (next_exponent k e c)) rest)

    pub power_limbs_lem :
        (j : ℕ) (es r : List ℕ)
        → IsLimbs j es
        → Represents n m (base ^ 0 * radix n) r
        → Represents n m (base ^ value es * radix n) (power_limbs base_m m m0inv es r)
    power_limbs_lem zero [] r he h = rw (power_limbs-nil base_m m m0inv r) h
    power_limbs_lem zero (e ∷ es) r he h = absurd he
    power_limbs_lem (suc j) [] r he h = absurd he
    power_limbs_lem (suc j) (e ∷ es) r he h =
        let high = power_limbs_lem j es r he.1 h in
        let low = power_limb_lem 64 e (value es) (power_limbs base_m m m0inv es r) high in
        rw (power_limbs-cons base_m m m0inv e es r)
          (rescale (ap (λ (t : ℕ). base ^ t) (omega arith)) low)
