-- ===== src/BigInt/Bytes/Order.antt =====
-- providers/arm_asm/rsa_bigint.hpp: big-endian byte strings and the numbers that they stand for.
use mathlib.Core.List.{reverse, reverse-cons, reverse-reverse}
use claude_crypto.Base.{
  ℕ, suc, ◌+◌, ◌*◌, ◌^◌, ◌<◌, ◌≡◌, refl, sym, ap, ap₂, ◌∙◌, [], ◌∷◌, length, arith, pow-add,
}
use claude_crypto.Api.Result.{Bytes, AreBytes}
use claude_crypto.BigInt.Bytes.{le_value, be_value}
use claude_crypto.BigInt.Bytes.Load.{le_value-append, length-reverse, AreBytes-reverse}

le_value_bound : (bytes : Bytes) → AreBytes bytes → le_value bytes < 2 ^ (length bytes * 8)
le_value_bound [] h = omega arith
le_value_bound (b ∷ bytes) h =
    let next : 2 ^ (suc (length bytes) * 8) ≡ 2 ^ (length bytes * 8) * 2 ^ 8 =
      ap (λ (k : ℕ). 2 ^ k) (omega arith) ∙ pow-add 2 (length bytes * 8) 8 in
    omega (arith, next, le_value_bound bytes h.1, h.0)

le_value_injective :
    (xs ys : Bytes)
    → AreBytes xs
    → AreBytes ys
    → length xs ≡ length ys
    → le_value xs ≡ le_value ys
    → xs ≡ ys
le_value_injective [] [] hx hy size e = refl
le_value_injective [] (y ∷ ys) hx hy size e = absurd (omega (arith, size))
le_value_injective (x ∷ xs) [] hx hy size e = absurd (omega (arith, size))
le_value_injective (x ∷ xs) (y ∷ ys) hx hy size e =
    ap₂ ◌∷◌ (omega (arith, e, hx.0, hy.0))
      (le_value_injective xs ys hx.1 hy.1 (omega (arith, size)) (omega (arith, e, hx.0, hy.0)))

-- Byte strings of one length are told apart by their numbers.
pub be_value_injective :
    (xs ys : Bytes)
    → AreBytes xs
    → AreBytes ys
    → length xs ≡ length ys
    → be_value xs ≡ be_value ys
    → xs ≡ ys
be_value_injective xs ys hx hy size e =
    sym (reverse-reverse xs)
    ∙ ap reverse (
        le_value_injective (reverse xs) (reverse ys) (AreBytes-reverse xs hx)
          (AreBytes-reverse ys hy) (length-reverse xs ∙ size ∙ sym (length-reverse ys)) e)
    ∙ reverse-reverse ys

-- Where the top bit of the first byte is clear, the number has one bit less.
pub be_value_bound :
    (b : ℕ) (bytes : Bytes)
    → AreBytes (b ∷ bytes)
    → b < 2 ^ 7
    → be_value (b ∷ bytes) < 2 ^ (length bytes * 8 + 7)
be_value_bound b bytes h small =
    let rest = le_value_bound (reverse bytes) (AreBytes-reverse bytes h.1) in
    let size = ap (λ (k : ℕ). 2 ^ (k * 8)) (length-reverse bytes) in
    let split : be_value (b ∷ bytes) ≡ be_value bytes + 2 ^ (length bytes * 8) * b =
      ap le_value (reverse-cons b bytes)
      ∙ le_value-append (reverse bytes) (b ∷ [])
      ∙ omega (arith, ap (λ (t : ℕ). t * b) size) in
    let power : 2 ^ (length bytes * 8 + 7) ≡ 2 ^ (length bytes * 8) * 2 ^ 7 =
      pow-add 2 (length bytes * 8) 7 in
    grind (arith, rest, size, split, power)
