-- ===== src/RsaPadding/Scan.antt =====
-- providers/arm_asm/rsa_oaep.hpp: the comparison of hashes and the search for the separator.
use claude_crypto.Base.{
  ℕ, zero, suc, ◌+◌, ◌^◌, ◌<◌, ◌≡◌, ◌≢◌, inl, inr, refl, sym, ap, ap₂, ◌∙◌, false, ◌==◌, ==_iff,
  Bool-cases, bit_or, bit_xor, bit_or-both, bit_or-zero, bit_and-zero, zero-bit_or, bit_xor_same,
  bit_xor-eq, bit_and_mask, [], ◌∷◌, ◌++◌, length, replicate, arith,
}
use native.Mathlib.Nat.{mod-eq_of_lt}
use claude_crypto.Api.Result.{Bytes}
use claude_crypto.RsaPadding.{
  or_differences, or_bytes, select_start, ScanState, scan_round, scan_loop,
}

-- The accumulated differences are zero exactly for equal bytes.
pub or_differences-zero :
    (err : ℕ) (xs ys : Bytes)
    → length xs ≡ length ys
    → or_differences err xs ys ≡ 0
    → (err ≡ 0) × (xs ≡ ys)
unfolding or_differences
or_differences-zero err [] [] size h = (h, refl)
or_differences-zero err [] (y ∷ ys) size h = absurd (omega (arith, size))
or_differences-zero err (x ∷ xs) [] size h = absurd (omega (arith, size))
or_differences-zero err (x ∷ xs) (y ∷ ys) size h =
    let (first, rest) =
      or_differences-zero (bit_or err (bit_xor x y)) xs ys (omega (arith, size)) h in
    let (none, same) = bit_or-both err (bit_xor x y) first in
    (none, ap₂ ◌∷◌ (bit_xor-eq x y same) rest)

pub or_differences_same : (err : ℕ) (xs : Bytes) → or_differences err xs xs ≡ err
unfolding or_differences
or_differences_same err [] = refl
or_differences_same err (x ∷ xs) =
    ap (λ (d : ℕ). or_differences (bit_or err d) xs xs) (bit_xor_same x)
    ∙ or_differences_same (bit_or err 0) xs
    ∙ bit_or-zero err

pub or_bytes-zero :
    (err : ℕ) (xs : Bytes) → or_bytes err xs ≡ 0 → (err ≡ 0) × (xs ≡ replicate (length xs) 0)
unfolding or_bytes
or_bytes-zero err [] h = (h, refl)
or_bytes-zero err (x ∷ xs) h =
    let (first, rest) = or_bytes-zero (bit_or err x) xs h in
    let (none, zero_byte) = bit_or-both err x first in (none, ap₂ ◌∷◌ zero_byte rest)

pub or_bytes-replicate : (err n : ℕ) → or_bytes err (replicate n 0) ≡ err
unfolding or_bytes
or_bytes-replicate err zero = refl
or_bytes-replicate err (suc n) = or_bytes-replicate (bit_or err 0) n ∙ bit_or-zero err

-- The mask chooses.
select_start-one :
    (candidate msg_start : ℕ) → candidate < 2 ^ 64 → select_start 1 candidate msg_start ≡ candidate
unfolding select_start
select_start-one candidate msg_start h =
    ap₂ bit_or (bit_and_mask 64 candidate ∙ mod-eq_of_lt h) (bit_and-zero msg_start)
    ∙ bit_or-zero candidate

select_start-zero :
    (candidate msg_start : ℕ) → msg_start < 2 ^ 64 → select_start 0 candidate msg_start ≡ msg_start
unfolding select_start
select_start-zero candidate msg_start h =
    ap₂ bit_or (bit_and-zero candidate) (bit_and_mask 64 msg_start ∙ mod-eq_of_lt h)
    ∙ zero-bit_or msg_start

abbrev pub scanning : ℕ → ℕ → ℕ → ScanState
scanning err found msg_start = record { err = err; found = found; msg_start = msg_start }

-- A round on a zero, on the separator, on another byte, and after the separator.
round-zero : (i err p : ℕ) → p < 2 ^ 64 → scan_round i 0 (scanning err 0 p) ≡ scanning err 0 p
unfolding scan_round
round-zero i err p h =
    ap₂ (λ (e q : ℕ). scanning e 0 q) (bit_or-zero err) (select_start-zero (i + 1) p h)

round-one :
    (i err p : ℕ) → i + 1 < 2 ^ 64 → scan_round i 1 (scanning err 0 p) ≡ scanning err 1 (i + 1)
unfolding scan_round
round-one i err p h =
    ap₂ (λ (e q : ℕ). scanning e 1 q) (bit_or-zero err) (select_start-one (i + 1) p h)

after_separator :
    (i err p : ℕ)
    → p < 2 ^ 64
    → scanning (bit_or err 0) 1 (select_start 0 (i + 1) p) ≡ scanning err 1 p
after_separator i err p h =
    ap₂ (λ (e q : ℕ). scanning e 1 q) (bit_or-zero err) (select_start-zero (i + 1) p h)

round-found : (i b err p : ℕ) → p < 2 ^ 64 → scan_round i b (scanning err 1 p) ≡ scanning err 1 p
unfolding scan_round
round-found i b err p h = elim (Bool-cases (b == 0)) [
  | inl z ↦ elim (Bool-cases (b == 1)) [
    | inl o ↦ rw (z, o) (after_separator i err p h)
    | inr o ↦ rw (z, o) (after_separator i err p h)
  ]
  | inr z ↦ elim (Bool-cases (b == 1)) [
    | inl o ↦ rw (z, o) (after_separator i err p h)
    | inr o ↦ rw (z, o) (after_separator i err p h)
  ]
]

round-other : (i b err p : ℕ) → b ≢ 0 → b ≢ 1 → (scan_round i b (scanning err 0 p)).err ≢ 0
unfolding scan_round
round-other i b err p h k e =
    let not_zero : (b == 0) ≡ false = ground arith in
    let not_one : (b == 1) ≡ false = ground arith in
    let e' = rw (not_zero, not_one) at e in let (first, second) = bit_or-both err 1 e' in cc second

scan-found :
    (i : ℕ) (m : Bytes) (err p : ℕ)
    → p < 2 ^ 64
    → scan_loop i m (scanning err 1 p) ≡ scanning err 1 p
unfolding scan_loop
scan-found i [] err p h = refl
scan-found i (b ∷ m) err p h =
    ap (scan_loop (suc i) m) (round-found i b err p h) ∙ scan-found (suc i) m err p h

-- The search finds the separator behind zeros.
pub scan_loop-separator :
    (i n : ℕ) (m : Bytes) (err p : ℕ)
    → i + n + 1 < 2 ^ 64
    → p < 2 ^ 64
    → scan_loop i (replicate n 0 ++ (1 ∷ m)) (scanning err 0 p) ≡ scanning err 1 (i + n + 1)
unfolding scan_loop
scan_loop-separator i zero m err p h hp =
    ap (scan_loop (suc i) m) (round-one i err p (omega (arith, h)))
    ∙ scan-found (suc i) m err (i + 1) (omega (arith, h))
    ∙ ap (scanning err 1) (omega arith)
scan_loop-separator i (suc n) m err p h hp =
    ap (scan_loop (suc i) (replicate n 0 ++ (1 ∷ m))) (round-zero i err p hp)
    ∙ scan_loop-separator (suc i) n m err p (omega (arith, h)) hp
    ∙ ap (scanning err 1) (omega arith)

-- An error stays.
round_stays : (i b : ℕ) (s : ScanState) → (scan_round i b s).err ≡ 0 → s.err ≡ 0
unfolding scan_round
round_stays i b s h = (bit_or-both s.err _ h).0

err_stays : (i : ℕ) (bytes : Bytes) (s : ScanState) → (scan_loop i bytes s).err ≡ 0 → s.err ≡ 0
unfolding scan_loop
err_stays i [] s h = h
err_stays i (b ∷ bytes) s h = round_stays i b s (err_stays (suc i) bytes (scan_round i b s) h)

-- Bytes that pass the search are zeros, the separator and a message.
pub record IsSeparated (i : ℕ) (bytes : Bytes) (msg_start : ℕ) : Type 0 where
  pub zeros : ℕ
  pub message : Bytes
  pub split : bytes ≡ replicate zeros 0 ++ (1 ∷ message)
  pub start : msg_start ≡ i + zeros + 1

later-IsSeparated :
    (i b : ℕ) (bytes : Bytes) (start start' : ℕ)
    → b ≡ 0
    → start ≡ start'
    → IsSeparated (suc i) bytes start'
    → IsSeparated i (b ∷ bytes) start
later-IsSeparated i b bytes start start' zero_byte same found = record {
  zeros = suc found.zeros;
  message = found.message;
  split = ap₂ ◌∷◌ zero_byte found.split;
  start = same ∙ omega (arith, found.start);
}

here-scan_loop :
    (i b : ℕ) (bytes : Bytes) (err p : ℕ)
    → i + 1 < 2 ^ 64
    → b ≡ 1
    → (scan_loop (suc i) bytes (scan_round i b (scanning err 0 p)) ≡ scanning err 1 (i + 1))
here-scan_loop i b bytes err p h separator =
    ap (λ (c : ℕ). scan_loop (suc i) bytes (scan_round i c (scanning err 0 p))) separator
    ∙ ap (scan_loop (suc i) bytes) (round-one i err p h)
    ∙ scan-found (suc i) bytes err (i + 1) h

pub scan_loop-IsSeparated :
    (i : ℕ) (bytes : Bytes) (err p : ℕ)
    → i + length bytes < 2 ^ 64
    → p < 2 ^ 64
    → (scan_loop i bytes (scanning err 0 p)).err ≡ 0
    → (scan_loop i bytes (scanning err 0 p)).found ≢ 0
    → (err ≡ 0) × IsSeparated i bytes (scan_loop i bytes (scanning err 0 p)).msg_start
unfolding scan_loop
scan_loop-IsSeparated i [] err p h hp e f = absurd (f refl)
scan_loop-IsSeparated i (b ∷ bytes) err p h hp e f = elim (Bool-cases (b == 0)) [
  | inl z ↦
      let zero_byte : b ≡ 0 = (==_iff b 0).0 z in
      let same : scan_round i b (scanning err 0 p) ≡ scanning err 0 p =
        ap (λ (c : ℕ). scan_round i c (scanning err 0 p)) zero_byte ∙ round-zero i err p hp in
      let (none, found) =
        scan_loop-IsSeparated (suc i) bytes err p (omega (arith, h)) hp
          (ap (λ (s : ScanState). (scan_loop (suc i) bytes s).err) (sym same) ∙ e)
          (λ missing.
            f (ap (λ (s : ScanState). (scan_loop (suc i) bytes s).found) same ∙ missing)) in
      (
        none,
        later-IsSeparated i b bytes _ _ zero_byte
            (ap (λ (s : ScanState). (scan_loop (suc i) bytes s).msg_start) same) found,
      )
  | inr z ↦ elim (Bool-cases (b == 1)) [
    | inl o ↦
        let here = here-scan_loop i b bytes err p (omega (arith, h)) ((==_iff b 1).0 o) in
        (
          sym (ap ScanState.err here) ∙ e,
          record {
            zeros = 0;
            message = bytes;
            split = ap (λ (c : ℕ). c ∷ bytes) ((==_iff b 1).0 o);
            start = ap ScanState.msg_start here ∙ omega arith;
          },
        )
    | inr o ↦ absurd (
        round-other i b err p (λ q. cc ((==_iff b 0).1 q, z)) (λ q. cc ((==_iff b 1).1 q, o))
          (err_stays (suc i) bytes (scan_round i b (scanning err 0 p)) e))
  ]
]
