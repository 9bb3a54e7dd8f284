-- ===== src/BigInt/Equal.antt =====
-- providers/arm_asm/rsa_bigint.hpp: the constant-time comparison for equality.
use claude_crypto.Base.{
  ℕ, zero, suc, ◌≡◌, ◌↔◌, refl, sym, ap, ap₂, ◌∙◌, true, List, [], ◌∷◌, ==_iff, bit_or, bit_xor,
  bit_xor_same, bit_xor-eq, bit_or-both, zero-bit_or,
}
use claude_crypto.BigInt.{value, IsLimbs, eq_loop, bigint_eq}
use claude_crypto.BigInt.Limbs.{value_injective}

eq_loop-zero :
    (n diff : ℕ) (a b : List ℕ)
    → IsLimbs n a
    → IsLimbs n b
    → eq_loop diff a b ≡ 0
    → (diff ≡ 0) × (a ≡ b)
unfolding eq_loop
eq_loop-zero zero diff [] [] ha hb e = (e, refl)
eq_loop-zero zero diff [] (y ∷ b) ha hb e = absurd hb
eq_loop-zero zero diff (x ∷ a) b ha hb e = absurd ha
eq_loop-zero (suc n) diff [] b ha hb e = absurd ha
eq_loop-zero (suc n) diff (x ∷ a) [] ha hb e = absurd hb
eq_loop-zero (suc n) diff (x ∷ a) (y ∷ b) ha hb e =
    let (none, rest) = eq_loop-zero n (bit_or diff (bit_xor x y)) a b ha.1 hb.1 e in
    let (start, same) = bit_or-both diff (bit_xor x y) none in
    (start, ap₂ ◌∷◌ (bit_xor-eq x y same) rest)

eq_loop_same : (a : List ℕ) → eq_loop 0 a a ≡ 0
unfolding eq_loop
eq_loop_same [] = refl
eq_loop_same (x ∷ a) =
    ap (λ (d : ℕ). eq_loop d a a) (zero-bit_or (bit_xor x x) ∙ bit_xor_same x) ∙ eq_loop_same a

-- For operands of n limbs, bigint_eq answers true exactly where the two numbers are equal.
pub bigint_eq_lem :
    (n : ℕ) (a b : List ℕ)
    → IsLimbs n a
    → IsLimbs n b
    → (bigint_eq a b ≡ true) ↔ (value a ≡ value b)
unfolding bigint_eq
bigint_eq_lem n a b ha hb = (
  λ h. ap value (eq_loop-zero n 0 a b ha hb ((==_iff (eq_loop 0 a b) 0).0 h)).1,
  λ e.
      (==_iff (eq_loop 0 a b) 0).1
        (ap (λ (t : List ℕ). eq_loop 0 a t) (sym (value_injective n a b ha hb e)) ∙ eq_loop_same a),
)
