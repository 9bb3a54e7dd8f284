-- ===== src/RsaPadding/Trim.antt =====
-- providers/arm_asm/rsa_pss.hpp: the bits of the first byte that are not used.
use claude_crypto.Base.{
  ℕ, zero, suc, ◌-◌, ◌*◌, ◌/◌, ◌%◌, ◌^◌, ◌<◌, ◌≤◌, ◌≡◌, inl, inr, refl, sym, ap, ap₂, ◌∙◌, Bool,
  true, false, not, ◌==◌, ==_iff, ltb, Bool-cases, bit_and, bit_xor, bit_and_mask, bit_and-zero,
  replicate, get_or, ◌++◌, [], ◌∷◌, length, arith,
}
use claude_crypto.Base.Tables.{every, every-at}
use claude_crypto.Base.Xor.{xor_bytes, xor_bytes_cancel, bit_xor_cancel, bit_xor-mod}
use native.Mathlib.Nat.{
  mod-lt, mod-mod, zero-mod, pow-suc, pow-le-pow_right, one-le-pow, mod-eq_of_lt,
}
use claude_crypto.Api.Result.{Bytes, AreBytes}
use claude_crypto.RsaPadding.{trim_first}

-- The two masks at the numbers of unused bits.
low_mask : (t : ℕ) → t ≤ 7 → 0xff / 2 ^ t ≡ 2 ^ (8 - t) - 1
low_mask zero h = refl
low_mask (suc zero) h = refl
low_mask (suc (suc zero)) h = refl
low_mask (suc (suc (suc zero))) h = refl
low_mask (suc (suc (suc (suc zero)))) h = refl
low_mask (suc (suc (suc (suc (suc zero))))) h = refl
low_mask (suc (suc (suc (suc (suc (suc zero)))))) h = refl
low_mask (suc (suc (suc (suc (suc (suc (suc zero))))))) h = refl
low_mask (suc (suc (suc (suc (suc (suc (suc (suc t)))))))) h = absurd (omega (arith, h))

abbrev same_test : Bool → Bool → Bool
same_test true b = b
same_test false b = not b

abbrev top_test : ℕ → ℕ → Bool
top_test t b = same_test (bit_and b (0xff * 2 ^ (8 - t) % 2 ^ 8) == 0) (b % 2 ^ (8 - t) == b)

top_table : (t : ℕ) → t ≤ 7 → every (top_test t) 256 ≡ true
unfolding every
top_table zero h = refl
top_table (suc zero) h = refl
top_table (suc (suc zero)) h = refl
top_table (suc (suc (suc zero))) h = refl
top_table (suc (suc (suc (suc zero)))) h = refl
top_table (suc (suc (suc (suc (suc zero))))) h = refl
top_table (suc (suc (suc (suc (suc (suc zero)))))) h = refl
top_table (suc (suc (suc (suc (suc (suc (suc zero))))))) h = refl
top_table (suc (suc (suc (suc (suc (suc (suc (suc t)))))))) h = absurd (omega (arith, h))

same_test-true : (a b : Bool) → same_test a b ≡ true → a ≡ b
same_test-true true b h = sym h
same_test-true false true h = cc h
same_test-true false false h = refl

-- The top bits are clear exactly where the byte is what its low bits are.
pub top_bits_clear :
    (t b : ℕ)
    → t ≤ 7
    → b < 2 ^ 8
    → (bit_and b (0xff * 2 ^ (8 - t) % 2 ^ 8) == 0) ≡ (b % 2 ^ (8 - t) == b)
top_bits_clear t b h hb = same_test-true _ _ (every-at (top_test t) 256 b hb (top_table t h))

pub trim_first-cons :
    (t b : ℕ) (bytes : Bytes) → 0 < t → t ≤ 7 → trim_first t (b ∷ bytes) ≡ b % 2 ^ (8 - t) ∷ bytes
unfolding trim_first
trim_first-cons t b bytes pos h =
    let some_bits : ltb 0 t ≡ true = ground arith in
    rw some_bits
      (ap (λ (x : ℕ). x ∷ bytes) (ap (bit_and b) (low_mask t h) ∙ bit_and_mask (8 - t) b))

-- With the top bits cleared after both, masking twice gives back what had them clear.
module _ (t : ℕ) (h : t ≤ 7) where
  pub trim_first-none : (bytes : Bytes) → t ≡ 0 → trim_first t bytes ≡ bytes
  unfolding trim_first
  trim_first-none [] e = refl
  trim_first-none (b ∷ bytes) e =
      let no_bits : ltb 0 t ≡ false = ground (arith, e) in rw no_bits refl

  byte_back : (k b c : ℕ) → b % 2 ^ k ≡ b → bit_xor (bit_xor b c % 2 ^ k) c % 2 ^ k ≡ b
  byte_back k b c e =
      bit_xor-mod k (bit_xor b c % 2 ^ k) c
      ∙ ap (λ (x : ℕ). bit_xor x (c % 2 ^ k)) (mod-mod (bit_xor b c) (2 ^ k) ∙ bit_xor-mod k b c)
      ∙ bit_xor_cancel (b % 2 ^ k) (c % 2 ^ k)
      ∙ e

  head : Bytes → ℕ
  head [] = 0
  head (b ∷ bytes) = b

  with_bits :
      (bytes mask : Bytes)
      → 0 < t
      → trim_first t bytes ≡ bytes
      → trim_first t (xor_bytes (trim_first t (xor_bytes bytes mask)) mask) ≡ bytes
  unfolding head trim_first
  with_bits [] mask pos e = refl
  with_bits (b ∷ bytes) [] pos e = ap (λ (x : Bytes). trim_first t (xor_bytes x [])) e ∙ e
  with_bits (b ∷ bytes) (c ∷ mask) pos e =
      let k : ℕ = 8 - t in
      let first : b % 2 ^ k ≡ b = ap head (sym (trim_first-cons t b bytes pos h) ∙ e) in
      ap (λ (x : Bytes). trim_first t (xor_bytes x (c ∷ mask)))
        (trim_first-cons t (bit_xor b c) (xor_bytes bytes mask) pos h)
      ∙ trim_first-cons t (bit_xor (bit_xor b c % 2 ^ k) c) (xor_bytes (xor_bytes bytes mask) mask)
          pos h
      ∙ ap₂ ◌∷◌ (byte_back k b c first) (xor_bytes_cancel bytes mask)

  pub trim_twice :
      (bytes mask : Bytes)
      → trim_first t bytes ≡ bytes
      → trim_first t (xor_bytes (trim_first t (xor_bytes bytes mask)) mask) ≡ bytes
  trim_twice bytes mask e = elim (Bool-cases (ltb 0 t)) [
    | inl used ↦ with_bits bytes mask (ground arith) e
    | inr unused ↦
        let none_unused : t ≡ 0 = ground arith in
        trim_first-none (xor_bytes (trim_first t (xor_bytes bytes mask)) mask) none_unused
        ∙ ap (λ (x : Bytes). xor_bytes x mask) (trim_first-none (xor_bytes bytes mask) none_unused)
        ∙ xor_bytes_cancel bytes mask
  ]

  pub length-trim_first : (bytes : Bytes) → length (trim_first t bytes) ≡ length bytes
  unfolding trim_first
  length-trim_first [] = refl
  length-trim_first (b ∷ bytes) = elim (Bool-cases (ltb 0 t)) [
    | inl e ↦ rw e refl
    | inr e ↦ rw e refl
  ]

-- A list whose top bits were cleared passes the test of the first byte.
pub trimmed-clear :
    (t : ℕ) (bytes : Bytes)
    → t ≤ 7
    → (bit_and (get_or (trim_first t bytes) 0 0) (0xff * 2 ^ (8 - t) % 2 ^ 8) == 0) ≡ true
unfolding trim_first
trimmed-clear t [] h =
    top_bits_clear t 0 h (omega arith) ∙ (==_iff (0 % 2 ^ (8 - t)) 0).1 (zero-mod (2 ^ (8 - t)))
trimmed-clear t (b ∷ bytes) h = elim (Bool-cases (ltb 0 t)) [
  | inl used ↦
      let pos : 0 < t = ground arith in
      let k : ℕ = 8 - t in
      let low : b % 2 ^ k < 2 ^ k = mod-lt b (one-le-pow k 2 (omega arith)) in
      let bounded : 2 ^ k ≤ 2 ^ 8 = power_le k (omega arith) in
      ap (λ (x : Bytes). bit_and (get_or x 0 0) (0xff * 2 ^ (8 - t) % 2 ^ 8) == 0)
        (trim_first-cons t b bytes pos h)
      ∙ top_bits_clear t (b % 2 ^ k) h (omega (arith, low, bounded))
      ∙ (==_iff (b % 2 ^ k % 2 ^ k) (b % 2 ^ k)).1 (mod-mod b (2 ^ k))
  | inr unused ↦
      let none_unused : t ≡ 0 = ground arith in
      ap
        (λ (j : ℕ).
          bit_and (get_or (trim_first t (b ∷ bytes)) 0 0) (0xff * 2 ^ (8 - j) % 2 ^ 8) == 0)
        none_unused
      ∙ (==_iff _ 0).1 (bit_and-zero (get_or (trim_first t (b ∷ bytes)) 0 0))
]
  where
    power_le : (k : ℕ) → k ≤ 8 → 2 ^ k ≤ 2 ^ 8
    power_le k h = pow-le-pow_right (omega arith) h

pub trimmed-db_of :
    (t ps_len : ℕ) (salt : Bytes)
    → t ≤ 7
    → trim_first t (replicate ps_len 0 ++ (0x01 ∷ salt)) ≡ replicate ps_len 0 ++ (0x01 ∷ salt)
trimmed-db_of t ps_len salt h = elim (Bool-cases (ltb 0 t)) [
  | inr unused ↦ trim_first-none t h _ (ground arith)
  | inl used ↦ first_small ps_len (ground arith)
]
  where
    one_fits : 1 < 2 ^ (8 - t)
    one_fits =
        let next : 8 - t ≡ suc (7 - t) = omega (arith, h) in
        omega
          (arith, ap (λ (k : ℕ). 2 ^ k) next, pow-suc 2 (7 - t), one-le-pow (7 - t) 2 (omega arith))

    first_small :
        (n : ℕ)
        → 0 < t
        → trim_first t (replicate n 0 ++ (0x01 ∷ salt)) ≡ replicate n 0 ++ (0x01 ∷ salt)
    first_small zero pos =
        trim_first-cons t 1 salt pos h ∙ ap (λ (x : ℕ). x ∷ salt) (mod-eq_of_lt one_fits)
    first_small (suc n) pos =
        trim_first-cons t 0 (replicate n 0 ++ (0x01 ∷ salt)) pos h
        ∙ ap (λ (x : ℕ). x ∷ (replicate n 0 ++ (0x01 ∷ salt))) (zero-mod (2 ^ (8 - t)))

-- A block whose first byte passes the test has its top bits clear.
pub clear-trimmed :
    (t : ℕ) (bytes : Bytes)
    → t ≤ 7
    → AreBytes bytes
    → (bit_and (get_or bytes 0 0) (0xff * 2 ^ (8 - t) % 2 ^ 8) == 0) ≡ true
    → trim_first t bytes ≡ bytes
unfolding trim_first
clear-trimmed t [] h small e = refl
clear-trimmed t (b ∷ bytes) h small e = elim (Bool-cases (ltb 0 t)) [
  | inr unused ↦ trim_first-none t h (b ∷ bytes) (ground arith)
  | inl used ↦
      trim_first-cons t b bytes (ground arith) h
      ∙ ap (λ (x : ℕ). x ∷ bytes)
          ((==_iff (b % 2 ^ (8 - t)) b).0 (sym (top_bits_clear t b h small.0) ∙ e))
]
