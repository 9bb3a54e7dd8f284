-- ===== src/BigInt/Bytes/Load.antt =====
-- providers/arm_asm/rsa_bigint.hpp: `bigint_from_bytes`.
use native.Mathlib.Nat.{pow-suc, one-le-pow, mul-le-mul_right, mod-eq_of_lt}
use mathlib.Core.List.{reverse, reverse-cons}
use claude_crypto.Base.{
  ℕ, zero, suc, ◌+◌, ◌*◌, ◌/◌, ◌%◌, ◌^◌, ◌<◌, ◌≤◌, ◌≡◌, refl, sym, ap, ◌∙◌, ltb, true, bit_or,
  bit_or_digit, zero-bit_or, List, [], ◌∷◌, ◌++◌, length, length-append, replicate, pow-add, arith,
}
use claude_crypto.Api.Octets.{AreBytes-append}
use claude_crypto.Api.Result.{Bytes, AreBytes}
use claude_crypto.BigInt.{word, u64, value, radix, IsLimbs}
use claude_crypto.BigInt.Limbs.{IsLimbs-length, zeros-IsLimbs, value-zeros}
use claude_crypto.BigInt.Bytes.{or_limb, load_loop, bigint_from_bytes, le_value, be_value}

-- `r | (q << k)` is a sum where `r` fits the `k` bits.
bit_or_above : (k q r : ℕ) → r < 2 ^ k → bit_or r (q * 2 ^ k) ≡ r + q * 2 ^ k
bit_or_above zero q zero h = omega (arith, zero-bit_or (q * 1))
bit_or_above zero q (suc r) h = absurd (omega arith)
bit_or_above (suc k) q r h = ground (
  arith,
  bit_or_digit r (q * 2 ^ suc k),
  ap (λ (t : ℕ). q * t) (pow-suc 2 k),
  pow-suc 2 k,
  bit_or_above k q (r / 2) (omega (arith, pow-suc 2 k)),
)

pub radix-pow : (k : ℕ) → radix k ≡ 2 ^ (k * 64)
radix-pow zero = refl
radix-pow (suc k) =
    let split : 2 ^ (64 + k * 64) ≡ 2 ^ 64 * 2 ^ (k * 64) = pow-add 2 64 (k * 64) in
    let position : suc k * 64 ≡ 64 + k * 64 = omega arith in
    omega (arith, split, radix-pow k, ap (λ (t : ℕ). 2 ^ t) position)

-- Byte `i` is byte `i % 8` of limb `i / 8`.
pub byte_place : (i : ℕ) → 2 ^ (i * 8) ≡ radix (i / 8) * 2 ^ (i % 8 * 8)
byte_place i =
    let position : i * 8 ≡ i / 8 * 64 + i % 8 * 8 = omega arith in
    ap (λ (t : ℕ). 2 ^ t) position
    ∙ pow-add 2 (i / 8 * 64) (i % 8 * 8)
    ∙ ap (λ (t : ℕ). t * 2 ^ (i % 8 * 8)) (sym (radix-pow (i / 8)))

-- The eight places of a byte in a limb.
pub each_place :
    (P : ℕ → Type 0) → P 0 → P 1 → P 2 → P 3 → P 4 → P 5 → P 6 → P 7 → (j : ℕ) → j < 8 → P j
each_place P p0 p1 p2 p3 p4 p5 p6 p7 zero h = p0
each_place P p0 p1 p2 p3 p4 p5 p6 p7 (suc zero) h = p1
each_place P p0 p1 p2 p3 p4 p5 p6 p7 (suc (suc zero)) h = p2
each_place P p0 p1 p2 p3 p4 p5 p6 p7 (suc (suc (suc zero))) h = p3
each_place P p0 p1 p2 p3 p4 p5 p6 p7 (suc (suc (suc (suc zero)))) h = p4
each_place P p0 p1 p2 p3 p4 p5 p6 p7 (suc (suc (suc (suc (suc zero))))) h = p5
each_place P p0 p1 p2 p3 p4 p5 p6 p7 (suc (suc (suc (suc (suc (suc zero)))))) h = p6
each_place P p0 p1 p2 p3 p4 p5 p6 p7 (suc (suc (suc (suc (suc (suc (suc zero))))))) h = p7
each_place P p0 p1 p2 p3 p4 p5 p6 p7 (suc (suc (suc (suc (suc (suc (suc (suc j)))))))) h =
    absurd (omega arith)

-- A byte fits its place in a limb.
shifted_byte : (b j : ℕ) → b < 2 ^ 8 → j < 8 → suc b * 2 ^ (j * 8) ≤ word
shifted_byte b j hb =
    each_place (λ (k : ℕ). suc b * 2 ^ (k * 8) ≤ word) (omega arith) (omega arith) (omega arith)
      (omega arith) (omega arith) (omega arith) (omega arith) (omega arith) j

or_limb_lem :
    (n k s b : ℕ) (xs : List ℕ)
    → IsLimbs n xs
    → k < n
    → suc b * 2 ^ s ≤ word
    → value xs < radix k * 2 ^ s
    → IsLimbs n (or_limb xs k (u64 (b * 2 ^ s)))
      × (value (or_limb xs k (u64 (b * 2 ^ s))) ≡ value xs + radix k * (b * 2 ^ s))
unfolding or_limb
or_limb_lem zero k s b xs hx hk hb lt = absurd (omega arith)
or_limb_lem (suc n) k s b [] hx hk hb lt = absurd hx
or_limb_lem (suc n) zero s b (x ∷ xs) hx hk hb lt =
    let fits : u64 (b * 2 ^ s) ≡ b * 2 ^ s =
      mod-eq_of_lt (omega (arith, hb, one-le-pow s 2 (omega arith))) in
    let low : x < 2 ^ s = omega (arith, lt) in
    let joined = bit_or_above s b x low in
    rw (fits, joined) ((omega (arith, hb, low), hx.1), omega arith)
or_limb_lem (suc n) (suc k) s b (x ∷ xs) hx hk hb lt =
    let below : value xs < radix k * 2 ^ s = omega (arith, lt) in
    let (limbs, e) = or_limb_lem n k s b xs hx.1 (omega arith) hb below in
    ((hx.0, limbs), omega (arith, e))

load_loop_lem :
    (n i : ℕ) (bytes : Bytes) (out : List ℕ)
    → IsLimbs n out
    → AreBytes bytes
    → i + length bytes ≤ n * 8
    → value out < 2 ^ (i * 8)
    → IsLimbs n (load_loop i bytes out)
      × (value (load_loop i bytes out) ≡ value out + 2 ^ (i * 8) * le_value bytes)
unfolding load_loop
load_loop_lem n i [] out ho hb fits lt = (ho, omega arith)
load_loop_lem n i (b ∷ bytes) out ho hb fits lt =
    let width = IsLimbs-length n out ho in
    let place = byte_place i in
    let inside : ltb i (length out * 8) ≡ true = ground arith in
    let (limbs, e) =
      or_limb_lem n (i / 8) (i % 8 * 8) b out ho (omega arith)
        (shifted_byte b (i % 8) hb.0 (omega arith)) (omega (arith, lt, place)) in
    let shifted : suc i * 8 ≡ 8 + i * 8 = omega arith in
    let next_place : 2 ^ (suc i * 8) ≡ 2 ^ 8 * 2 ^ (i * 8) =
      ap (λ (t : ℕ). 2 ^ t) shifted ∙ pow-add 2 8 (i * 8) in
    let below : value (or_limb out (i / 8) (u64 (b * 2 ^ (i % 8 * 8)))) < 2 ^ (suc i * 8) =
      let product : b * 2 ^ (i * 8) ≤ 255 * 2 ^ (i * 8) =
        mul-le-mul_right (2 ^ (i * 8)) (omega (arith, hb.0)) in
      omega (arith, e, lt, next_place, product, ap (λ (t : ℕ). b * t) place) in
    let (rest_limbs, rest) =
      load_loop_lem n (suc i) bytes (or_limb out (i / 8) (u64 (b * 2 ^ (i % 8 * 8)))) limbs hb.1
        (omega (arith, fits)) below in
    rw inside (
      rest_limbs,
      omega (
        arith,
        rest,
        e,
        ap (λ (t : ℕ). b * t) place,
        ap (λ (t : ℕ). t * le_value bytes) next_place,
      ),
    )

pub le_value-append :
    (xs ys : Bytes) → le_value (xs ++ ys) ≡ le_value xs + 2 ^ (length xs * 8) * le_value ys
le_value-append [] ys = omega arith
le_value-append (x ∷ xs) ys =
    let position : suc (length xs) * 8 ≡ 8 + length xs * 8 = omega arith in
    let split : 2 ^ (suc (length xs) * 8) ≡ 2 ^ 8 * 2 ^ (length xs * 8) =
      ap (λ (t : ℕ). 2 ^ t) position ∙ pow-add 2 8 (length xs * 8) in
    omega (arith, le_value-append xs ys, ap (λ (t : ℕ). t * le_value ys) split)

pub AreBytes-reverse : (xs : Bytes) → AreBytes xs → AreBytes (reverse xs)
AreBytes-reverse [] h = tt
AreBytes-reverse (x ∷ xs) h =
    rw (reverse-cons x xs)
      (AreBytes-append (reverse xs) (x ∷ []) (AreBytes-reverse xs h.1) (h.0, tt))

pub length-reverse : (xs : Bytes) → length (reverse xs) ≡ length xs
length-reverse [] = refl
length-reverse (x ∷ xs) =
    ap length (reverse-cons x xs)
    ∙ length-append (reverse xs) (x ∷ [])
    ∙ omega (arith, length-reverse xs)

-- A big-endian byte string that fits n limbs is loaded with its value.
pub bigint_from_bytes_lem :
    (n : ℕ) (bytes : Bytes)
    → AreBytes bytes
    → length bytes ≤ n * 8
    → IsLimbs n (bigint_from_bytes n bytes) × (value (bigint_from_bytes n bytes) ≡ be_value bytes)
unfolding bigint_from_bytes
bigint_from_bytes_lem n bytes hb fits =
    let zeros = value-zeros n in
    let (limbs, e) =
      load_loop_lem n 0 (reverse bytes) (replicate n 0) (zeros-IsLimbs n)
        (AreBytes-reverse bytes hb) (omega (arith, length-reverse bytes, fits))
        (omega (arith, zeros)) in
    (limbs, omega (arith, e, zeros))
