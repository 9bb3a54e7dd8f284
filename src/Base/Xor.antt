-- ===== src/Base/Xor.antt =====
-- The bit operation `^` on numbers and on byte strings.
use Prim.Native.Nat.{
  ℕ, zero, suc, ◌+◌, ◌*◌, ◌/◌, ◌%◌, ◌^◌, ◌≤◌, ◌<◌, bit_xor, differ, bit_xor-bitwise,
}
use mathlib.Core.Path.{◌≡◌, refl, sym, ap, ap₂, ◌∙◌}
use mathlib.Core.List.{List, [], ◌∷◌}
use native.Mathlib.Nat.{pow-suc, mod-lt, mod-one, one-le-pow}
use claude_crypto.Base.Congruence.{Cong, Cong-mod}
use claude_crypto.Base.Lists.{length}
use claude_crypto.Base.Bits.{bit_xor_digit}
use native.Mathlib.Omega.{arith}

-- Two binary digits.
differ_digits : (x y : ℕ) → x < 2 → y < 2 → (differ x y < 2) × (differ (differ x y) y ≡ x)
differ_digits zero zero h k = (omega arith, refl)
differ_digits zero (suc zero) h k = (omega arith, refl)
differ_digits (suc zero) zero h k = (omega arith, refl)
differ_digits (suc zero) (suc zero) h k = (omega arith, refl)
differ_digits (suc (suc x)) y h k = absurd (omega (arith, h))
differ_digits x (suc (suc y)) h k = absurd (omega (arith, k))

xor-zero : (b : ℕ) → bit_xor 0 b ≡ b
xor-zero b = bit_xor-bitwise 0 b

digits_of_xor :
    (a b : ℕ)
    → (bit_xor a b / 2 ≡ bit_xor (a / 2) (b / 2)) × (bit_xor a b % 2 ≡ differ (a % 2) (b % 2))
digits_of_xor a b =
    let (small, back) = differ_digits (a % 2) (b % 2) (omega arith) (omega arith) in
    let step = bit_xor_digit a b in (omega (arith, small, step), omega (arith, small, step))

zero_back : (b : ℕ) → b ≡ 0 → bit_xor b b ≡ 0
zero_back b e = ap₂ bit_xor e e ∙ xor-zero 0

cancel_below : (n a b : ℕ) → a ≤ n → b ≤ n → bit_xor (bit_xor a b) b ≡ a
cancel_below zero zero b h k =
    ap (λ (t : ℕ). bit_xor t b) (xor-zero b) ∙ zero_back b (omega (arith, k))
cancel_below zero (suc a) b h k = absurd (omega (arith, h))
cancel_below (suc n) a b h k =
    let (high, low) = digits_of_xor a b in
    let (high', low') = digits_of_xor (bit_xor a b) b in
    let (small, back) = differ_digits (a % 2) (b % 2) (omega arith) (omega arith) in
    let upper : bit_xor (bit_xor a b) b / 2 ≡ a / 2 =
      high'
      ∙ ap (λ (t : ℕ). bit_xor t (b / 2)) high
      ∙ cancel_below n (a / 2) (b / 2) (omega (arith, h)) (omega (arith, k)) in
    let lower : bit_xor (bit_xor a b) b % 2 ≡ a % 2 =
      low' ∙ ap (λ (t : ℕ). differ t (b % 2)) low ∙ back in
    omega (arith, upper, lower)

-- What `^` did, it undoes.
pub bit_xor_cancel : (a b : ℕ) → bit_xor (bit_xor a b) b ≡ a
bit_xor_cancel a b = cancel_below (a + b) a b (omega arith) (omega arith)

mod_split : (m x : ℕ) → 0 < m → x % (m * 2) ≡ x / 2 % m * 2 + x % 2
mod_split m x pos =
    let low : ℕ = x / 2 % m * 2 + x % 2 in
    let small : x / 2 % m < m = mod-lt (x / 2) pos in
    let same : Cong (m * 2) low x = record { left = x / 2 / m; right = 0; balance = omega arith } in
    sym (Cong-mod (m * 2) low x (omega (arith, small)) same)

mod_pow : (k x : ℕ) → x % 2 ^ suc k ≡ x / 2 % 2 ^ k * 2 + x % 2
mod_pow k x =
    ap (λ (t : ℕ). x % t) (pow-suc 2 k) ∙ mod_split (2 ^ k) x (one-le-pow k 2 (omega arith))

-- The low bits of the result are those of the low bits.
pub bit_xor-mod : (k a b : ℕ) → bit_xor a b % 2 ^ k ≡ bit_xor (a % 2 ^ k) (b % 2 ^ k)
bit_xor-mod zero a b =
    mod-one (bit_xor a b) ∙ sym (ap₂ bit_xor (mod-one a) (mod-one b) ∙ xor-zero 0)
bit_xor-mod (suc k) a b =
    let (high, low) = digits_of_xor a b in
    let (high', low') = digits_of_xor (a % 2 ^ suc k) (b % 2 ^ suc k) in
    let rest = bit_xor-mod k (a / 2) (b / 2) in
    let a_low = mod_pow k a in
    let b_low = mod_pow k b in
    let upper : bit_xor (a % 2 ^ suc k) (b % 2 ^ suc k) / 2
        ≡ bit_xor (a / 2 % 2 ^ k) (b / 2 % 2 ^ k) =
      high' ∙ ap₂ bit_xor (omega (arith, a_low)) (omega (arith, b_low)) in
    let a_bit : a % 2 ^ suc k % 2 ≡ a % 2 = omega (arith, a_low) in
    let b_bit : b % 2 ^ suc k % 2 ≡ b % 2 = omega (arith, b_low) in
    let lower : bit_xor (a % 2 ^ suc k) (b % 2 ^ suc k) % 2 ≡ differ (a % 2) (b % 2) =
      low' ∙ ap₂ differ a_bit b_bit in
    let whole = mod_pow k (bit_xor a b) in
    let halves = ap (λ (t : ℕ). t % 2 ^ k) high in
    omega (arith, upper, lower, whole, halves, rest, low)

pub bit_xor-lt : (k a b : ℕ) → a < 2 ^ k → b < 2 ^ k → bit_xor a b < 2 ^ k
bit_xor-lt zero a b h k' =
    let a_zero : a ≡ 0 = omega (arith, h) in
    let b_zero : b ≡ 0 = omega (arith, k') in omega (arith, ap₂ bit_xor a_zero b_zero, xor-zero 0)
bit_xor-lt (suc k) a b h k' =
    let (high, low) = digits_of_xor a b in
    let power = pow-suc 2 k in
    let rest = bit_xor-lt k (a / 2) (b / 2) (omega (arith, h, power)) (omega (arith, k', power)) in
    omega (arith, rest, high, power)

-- `out[i] ^= mask[i]` for each byte.
abbrev pub xor_bytes : List ℕ → List ℕ → List ℕ
xor_bytes [] mask = []
xor_bytes (b ∷ bytes) [] = b ∷ bytes
xor_bytes (b ∷ bytes) (m ∷ mask) = bit_xor b m ∷ xor_bytes bytes mask

pub length-xor_bytes : (bytes mask : List ℕ) → length (xor_bytes bytes mask) ≡ length bytes
length-xor_bytes [] mask = refl
length-xor_bytes (b ∷ bytes) [] = refl
length-xor_bytes (b ∷ bytes) (m ∷ mask) = ap suc (length-xor_bytes bytes mask)

pub xor_bytes_cancel : (bytes mask : List ℕ) → xor_bytes (xor_bytes bytes mask) mask ≡ bytes
xor_bytes_cancel [] mask = refl
xor_bytes_cancel (b ∷ bytes) [] = refl
xor_bytes_cancel (b ∷ bytes) (m ∷ mask) = ap₂ ◌∷◌ (bit_xor_cancel b m) (xor_bytes_cancel bytes mask)
