-- ===== src/BigInt/Bytes/Store.antt =====
-- providers/arm_asm/rsa_bigint.hpp: `bigint_to_bytes`.
use native.Mathlib.Nat.{
  one-le-pow, div-div-eq-div-mul, zero-div, div-add-mod, add-mul-mod_self_left, mod-eq_of_lt,
  mod-lt,
}
use mathlib.Core.List.{reverse-reverse}
use claude_crypto.Base.{
  ℕ, zero, suc, ◌+◌, ◌*◌, ◌/◌, ◌%◌, ◌^◌, ◌<◌, ◌≡◌, refl, sym, ap, ◌∙◌, bit_and, bit_and_mask, List,
  [], ◌∷◌, length, get_or, pow-add, arith,
}
use claude_crypto.Api.Result.{AreBytes}
use claude_crypto.BigInt.{word, value, radix, IsLimbs}
use claude_crypto.BigInt.Limbs.{IsLimbs-length, value-lt, value_injective}
use claude_crypto.BigInt.Bytes.{store_loop, bigint_from_bytes, bigint_to_bytes, le_value, be_value}
use claude_crypto.BigInt.Bytes.Load.{
  radix-pow, byte_place, each_place, AreBytes-reverse, length-reverse, bigint_from_bytes_lem,
}

limb_digit : (n k : ℕ) (a : List ℕ) → IsLimbs n a → get_or a k 0 ≡ value a / radix k % word
limb_digit zero k [] h = sym (ap (λ (t : ℕ). t % word) (zero-div (radix k)))
limb_digit zero k (x ∷ xs) h = absurd h
limb_digit (suc n) k [] h = absurd h
limb_digit (suc n) zero (x ∷ xs) h = omega (arith, h.0)
limb_digit (suc n) (suc k) (x ∷ xs) h =
    let up : (x + word * value xs) / word ≡ value xs = omega (arith, h.0) in
    limb_digit n k xs h.1
    ∙ ap (λ (t : ℕ). t / radix k % word) (sym up)
    ∙ ap (λ (t : ℕ). t % word) (div-div-eq-div-mul (x + word * value xs) word (radix k))

byte_of_word : (v j : ℕ) → j < 8 → v % word / 2 ^ (j * 8) % 2 ^ 8 ≡ v / 2 ^ (j * 8) % 2 ^ 8
byte_of_word v j =
    each_place (λ (k : ℕ). v % word / 2 ^ (k * 8) % 2 ^ 8 ≡ v / 2 ^ (k * 8) % 2 ^ 8) (omega arith)
      (omega arith) (omega arith) (omega arith) (omega arith) (omega arith) (omega arith)
      (omega arith) j

stored_byte :
    (n i : ℕ) (a : List ℕ)
    → IsLimbs n a
    → bit_and (get_or a (i / 8) 0 / 2 ^ (i % 8 * 8)) 0xff ≡ value a / 2 ^ (i * 8) % 2 ^ 8
stored_byte n i a h =
    bit_and_mask 8 (get_or a (i / 8) 0 / 2 ^ (i % 8 * 8))
    ∙ ap (λ (t : ℕ). t / 2 ^ (i % 8 * 8) % 2 ^ 8) (limb_digit n (i / 8) a h)
    ∙ byte_of_word (value a / radix (i / 8)) (i % 8) (omega arith)
    ∙ ap (λ (t : ℕ). t % 2 ^ 8) (div-div-eq-div-mul (value a) (radix (i / 8)) (2 ^ (i % 8 * 8)))
    ∙ ap (λ (t : ℕ). value a / t % 2 ^ 8) (sym (byte_place i))

low_byte : (v p : ℕ) → 0 < p → v % 2 ^ 8 + 2 ^ 8 * (v / 2 ^ 8 % p) ≡ v % (2 ^ 8 * p)
low_byte v p h =
    let digit : ℕ = v / 2 ^ 8 % p in
    let digits : v / 2 ^ 8 ≡ p * (v / 2 ^ 8 / p) + digit = sym (div-add-mod (v / 2 ^ 8) p) in
    let whole : v ≡ (v % 2 ^ 8 + 2 ^ 8 * digit) + 2 ^ 8 * p * (v / 2 ^ 8 / p) =
      omega (arith, digits) in
    let small : v % 2 ^ 8 + 2 ^ 8 * digit < 2 ^ 8 * p = omega (arith, mod-lt (v / 2 ^ 8) h) in
    sym (
      ap (λ (t : ℕ). t % (2 ^ 8 * p)) whole
      ∙ add-mul-mod_self_left _ (2 ^ 8 * p) (v / 2 ^ 8 / p)
      ∙ mod-eq_of_lt small)

store_loop_lem :
    (n i count : ℕ) (a : List ℕ)
    → IsLimbs n a
    → AreBytes (store_loop a i count)
      × (length (store_loop a i count) ≡ count)
      × (le_value (store_loop a i count) ≡ value a / 2 ^ (i * 8) % 2 ^ (count * 8))
unfolding store_loop
store_loop_lem n i zero a h = (tt, refl, omega arith)
store_loop_lem n i (suc count) a h =
    let (bytes, size, rest) = store_loop_lem n (suc i) count a h in
    let byte = stored_byte n i a h in
    let shifted : suc i * 8 ≡ i * 8 + 8 = omega arith in
    let wider : suc count * 8 ≡ 8 + count * 8 = omega arith in
    let next : value a / 2 ^ (suc i * 8) ≡ value a / 2 ^ (i * 8) / 2 ^ 8 =
      ap (λ (t : ℕ). value a / 2 ^ t) shifted
      ∙ ap (λ (t : ℕ). value a / t) (pow-add 2 (i * 8) 8)
      ∙ sym (div-div-eq-div-mul (value a) (2 ^ (i * 8)) (2 ^ 8)) in
    let width : 2 ^ (suc count * 8) ≡ 2 ^ 8 * 2 ^ (count * 8) =
      ap (λ (t : ℕ). 2 ^ t) wider ∙ pow-add 2 8 (count * 8) in
    let low =
      low_byte (value a / 2 ^ (i * 8)) (2 ^ (count * 8)) (one-le-pow (count * 8) 2 (omega arith)) in
    (
      (omega (arith, byte), bytes),
      ap suc size,
      omega (
        arith,
        byte,
        rest,
        low,
        ap (λ (t : ℕ). t % 2 ^ (count * 8)) next,
        ap (λ (t : ℕ). value a / 2 ^ (i * 8) % t) width,
      ),
    )

-- n limbs are stored as n * 8 bytes of the same value.
pub bigint_to_bytes_lem :
    (n : ℕ) (a : List ℕ)
    → IsLimbs n a
    → AreBytes (bigint_to_bytes a)
      × (length (bigint_to_bytes a) ≡ n * 8)
      × (be_value (bigint_to_bytes a) ≡ value a)
unfolding bigint_to_bytes
bigint_to_bytes_lem n a h =
    let (bytes, size, e) = store_loop_lem n 0 (n * 8) a h in
    let position : n * 8 * 8 ≡ n * 64 = omega arith in
    let enough : 2 ^ (n * 8 * 8) ≡ radix n = ap (λ (t : ℕ). 2 ^ t) position ∙ sym (radix-pow n) in
    rw (IsLimbs-length n a h) (
      AreBytes-reverse (store_loop a 0 (n * 8)) bytes,
      length-reverse (store_loop a 0 (n * 8)) ∙ size,
      ap le_value (reverse-reverse (store_loop a 0 (n * 8)))
          ∙ e
          ∙ ap (λ (t : ℕ). t % 2 ^ (n * 8 * 8)) (omega arith)
          ∙ ap (λ (t : ℕ). value a % t) enough
          ∙ mod-eq_of_lt (value-lt n a h),
    )

-- For n limbs, bigint_from_bytes of bigint_to_bytes gives the limbs back.
pub from_bytes-to_bytes :
    (n : ℕ) (a : List ℕ) → IsLimbs n a → bigint_from_bytes n (bigint_to_bytes a) ≡ a
from_bytes-to_bytes n a h =
    let (bytes, size, e) = bigint_to_bytes_lem n a h in
    let (limbs, loaded) = bigint_from_bytes_lem n (bigint_to_bytes a) bytes (omega (arith, size)) in
    value_injective n _ a limbs h (loaded ∙ e)
