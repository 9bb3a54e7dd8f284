-- ===== src/RsaDer/Lengths.antt =====
-- providers/arm_asm/rsa_der.hpp: a length field, written and read.
use claude_crypto.Base.{
  ℕ, ◌+◌, ◌*◌, ◌/◌, ◌%◌, ◌^◌, ◌≤◌, ◌<◌, bit_and, bit_or, bit_and_mask, bit_or_shift, zero-bit_or,
  ◌≡◌, refl, ap, sym, ◌∙◌, inl, inr, true, false, Bool-cases, ◌||◌, ◌==◌, ltb, some, [], ◌∷◌, ◌++◌,
  length, length-append, take, take-append, drop, drop-append, arith,
}
use claude_crypto.Api.Result.{Bytes}
use claude_crypto.RsaDer.{within, length_bytes, long_length, read_length}
use claude_crypto.RsaDer.Encode.{encode_len}
use claude_crypto.Base.Tables.{every, every-at}

short_table : every (λ b. bit_and b 0x80 == 0) 128 ≡ true
unfolding every
short_table = refl

short_flag : (b : ℕ) → b < 128 → (bit_and b 0x80 == 0) ≡ true
short_flag b h = every-at (λ b. bit_and b 0x80 == 0) 128 b h short_table

within_lem : (len : ℕ) (c : Bytes) → len ≤ length c → within len c ≡ some (len, c)
unfolding within
within_lem len c h = ground arith

pub short-read_length :
    (b : ℕ) (c : Bytes) → b < 128 → b ≤ length c → read_length (b ∷ c) ≡ some (b, c)
unfolding read_length
short-read_length b c small h = rw (short_flag b small) (within_lem b c h)

-- A long length, whose bytes are there.
long_length_lem :
    (num out_len : ℕ) (field c : Bytes)
    → 0 < num
    → num ≤ 4
    → length field ≡ num
    → length_bytes 0 field ≡ out_len
    → out_len ≤ length c
    → long_length num (field ++ c) ≡ some (out_len, c)
unfolding long_length
long_length_lem num out_len field c pos small size value fits =
    let total = length-append field c in
    let accepted : ((num == 0) || (ltb 4 num || ltb (length (field ++ c)) num)) ≡ false =
      ground arith in
    let taken : take num (field ++ c) ≡ field =
      ap (λ (k : ℕ). take k (field ++ c)) (sym size) ∙ take-append field c in
    let rest : drop num (field ++ c) ≡ c =
      ap (λ (k : ℕ). drop k (field ++ c)) (sym size) ∙ drop-append field c in
    rw (accepted, taken, rest, value) (within_lem out_len c fits)

one-read_length : (b : ℕ) (c : Bytes) → b ≤ length c → read_length (0x81 ∷ b ∷ c) ≡ some (b, c)
unfolding read_length length_bytes
one-read_length b c h =
    long_length_lem 1 b (b ∷ []) c (omega arith) (omega arith) refl (zero-bit_or b) h

two-read_length :
    (hi lo : ℕ) (c : Bytes)
    → hi < 256
    → lo < 256
    → hi * 256 + lo ≤ length c
    → read_length (0x82 ∷ hi ∷ lo ∷ c) ≡ some (hi * 256 + lo, c)
unfolding read_length length_bytes
two-read_length hi lo c h l fits =
    let shifted : bit_or 0 hi * 2 ^ 8 % 2 ^ 64 ≡ hi * 2 ^ 8 = omega (arith, zero-bit_or hi) in
    long_length_lem 2 (hi * 256 + lo) (hi ∷ lo ∷ []) c (omega arith) (omega arith) refl
      (ap (λ (x : ℕ). bit_or x lo) shifted ∙ bit_or_shift 8 hi lo l) fits

-- Any length below 2 ^ 16 that the cursor has room for is read back.
pub read_length-encode_len :
    (len : ℕ) (c : Bytes)
    → len < 2 ^ 16
    → len ≤ length c
    → read_length (encode_len len ++ c) ≡ some (len, c)
unfolding encode_len
read_length-encode_len len c small fits = elim (Bool-cases (ltb len 128)) [
  | inl short ↦
      let same : len % 2 ^ 8 ≡ len = ground arith in
      rw (short, same) (short-read_length len c (ground arith) fits)
  | inr long ↦ elim (Bool-cases (ltb len 256)) [
    | inl one ↦
        let same : len % 2 ^ 8 ≡ len = ground arith in
        rw (long, one, same) (one-read_length len c fits)
    | inr two ↦
        let low : bit_and len 0xff % 2 ^ 8 ≡ len % 2 ^ 8 =
          ap (λ (x : ℕ). x % 2 ^ 8) (bit_and_mask 8 len) ∙ omega arith in
        let whole : (len / 2 ^ 8 % 2 ^ 8) * 256 + len % 2 ^ 8 ≡ len = omega arith in
        rw (long, two, low)
          (two-read_length (len / 2 ^ 8 % 2 ^ 8) (len % 2 ^ 8) c (omega arith) (omega arith)
              (omega (arith, whole))
            ∙ ap (λ (x : ℕ). some (x, c)) whole)
  ]
]
