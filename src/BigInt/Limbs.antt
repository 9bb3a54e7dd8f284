-- ===== src/BigInt/Limbs.antt =====
-- Limbs: bounds of the value, and how the value and the limbs determine each other.
use claude_crypto.Base.{
  ℕ, zero, suc, ◌<◌, ◌≡◌, refl, ap, ap₂, List, [], ◌∷◌, arith, length, replicate,
}
use claude_crypto.BigInt.{value, radix, IsLimbs}

pub radix-pos : (n : ℕ) → 0 < radix n
radix-pos zero = omega arith
radix-pos (suc n) = omega (arith, radix-pos n)

pub value-lt : (n : ℕ) (xs : List ℕ) → IsLimbs n xs → value xs < radix n
value-lt zero [] h = omega arith
value-lt zero (x ∷ xs) h = absurd h
value-lt (suc n) [] h = absurd h
value-lt (suc n) (x ∷ xs) h = omega (arith, value-lt n xs h.1)

pub IsLimbs-length : (n : ℕ) (xs : List ℕ) → IsLimbs n xs → length xs ≡ n
IsLimbs-length zero [] h = refl
IsLimbs-length zero (x ∷ xs) h = absurd h
IsLimbs-length (suc n) [] h = absurd h
IsLimbs-length (suc n) (x ∷ xs) h = ap suc (IsLimbs-length n xs h.1)

-- Equal values have equal limbs.
pub value_injective :
    (n : ℕ) (xs ys : List ℕ) → IsLimbs n xs → IsLimbs n ys → value xs ≡ value ys → xs ≡ ys
value_injective zero [] [] hx hy e = refl
value_injective zero [] (y ∷ ys) hx hy e = absurd hy
value_injective zero (x ∷ xs) ys hx hy e = absurd hx
value_injective (suc n) [] ys hx hy e = absurd hx
value_injective (suc n) (x ∷ xs) [] hx hy e = absurd hy
value_injective (suc n) (x ∷ xs) (y ∷ ys) hx hy e =
    ap₂ ◌∷◌ (omega arith) (value_injective n xs ys hx.1 hy.1 (omega arith))

pub zeros-IsLimbs : (n : ℕ) → IsLimbs n (replicate n 0)
zeros-IsLimbs zero = tt
zeros-IsLimbs (suc n) = (omega arith, zeros-IsLimbs n)

pub value-zeros : (n : ℕ) → value (replicate n 0) ≡ 0
value-zeros zero = refl
value-zeros (suc n) = omega (arith, value-zeros n)
