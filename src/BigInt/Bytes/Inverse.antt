-- ===== src/BigInt/Bytes/Inverse.antt =====
-- providers/arm_asm/rsa_bigint.hpp: `rsa_private_op` after `rsa_public_op`.
use native.Mathlib.Nat.{lt_of_mul-lt-mul_left, mod-eq_of_lt, mod-lt, pow-suc, pow-zero}
use claude_crypto.Base.{
  ℕ, zero, suc, ◌+◌, ◌*◌, ◌/◌, ◌%◌, ◌^◌, ◌<◌, ◌≤◌, ◌≡◌, sym, ap, ◌∙◌, arith, Cong, eq→Cong,
  Cong-trans, Cong-mul₂, Cong-mod, Cong-cancel, pow-add,
}
use claude_crypto.Api.Result.{Bytes}
use claude_crypto.BigInt.Bytes.{rsa_public_op, rsa_private_op, be_value}
use claude_crypto.BigInt.Bytes.Operations.{
  Fits, IsModulus, Encodes, IsPrivateKey, rsa_public_op_lem, rsa_private_op_lem,
}

pub Cong-pow : {m x y : ℕ} (k : ℕ) → Cong m x y → Cong m (x ^ k) (y ^ k)
Cong-pow {m} {x} {y} zero c = eq→Cong m (pow-zero x ∙ sym (pow-zero y))
Cong-pow {m} {x} {y} (suc k) c =
    Cong-trans (eq→Cong m (pow-suc x k))
      (Cong-trans (Cong-mul₂ (Cong-pow k c) c) (eq→Cong m (sym (pow-suc y k))))

pub pow-mul : (x a b : ℕ) → x ^ (a * b) ≡ (x ^ a) ^ b
pow-mul x a zero =
    let none : a * 0 ≡ 0 = omega arith in
    ap (λ (t : ℕ). x ^ t) none ∙ pow-zero x ∙ sym (pow-zero (x ^ a))
pow-mul x a (suc b) =
    let next : a * suc b ≡ a * b + a = omega arith in
    ap (λ (t : ℕ). x ^ t) next
    ∙ pow-add x (a * b) a
    ∙ ap (λ (t : ℕ). t * x ^ a) (pow-mul x a b)
    ∙ sym (pow-suc (x ^ a) b)

-- Congruent numbers have the same remainder.
pub remainder_same : {m x y : ℕ} → 0 < m → Cong m x y → x % m ≡ y % m
remainder_same {m} {x} {y} pos c =
    let own : Cong m (x % m) x = record { left = x / m; right = 0; balance = omega arith } in
    Cong-mod m (x % m) y (mod-lt x pos) (Cong-trans own c)

pub remainder_Cong : {m x y : ℕ} → x % m ≡ y % m → Cong m x y
remainder_Cong {m} {x} {y} e = record { left = y / m; right = x / m; balance = omega (arith, e) }

-- A remainder modulo a multiple keeps the residue.
pub mod-Cong : (m k x : ℕ) → Cong m (x % (m * k)) x
mod-Cong m k x = record { left = k * (x / (m * k)); right = 0; balance = omega arith }

-- Below p * q, the residues modulo p and q tell a number.
pub crt_unique :
    (p q qi x y : ℕ)
    → 1 < p
    → Cong p (q * qi) 1
    → x < p * q
    → y < p * q
    → x % p ≡ y % p
    → x % q ≡ y % q
    → x ≡ y
crt_unique p q qi x y big unit hx hy mod_p mod_q =
    let a : ℕ = x / q in
    let b : ℕ = y / q in
    let x_split : x ≡ q * a + x % q = omega arith in
    let y_split : y ≡ q * b + y % q = omega arith in
    let a_lt : a < p = lt_of_mul-lt-mul_left q (omega (arith, x_split, hx)) in
    let b_lt : b < p = lt_of_mul-lt-mul_left q (omega (arith, y_split, hy)) in
    let c = remainder_Cong {m = p} {x = x} {y = y} mod_p in
    let scaled : Cong p (a * q) (b * q) = record {
      left = c.left;
      right = c.right;
      balance = omega (arith, c.balance, x_split, y_split, mod_q);
    } in
    let same : a ≡ b = Cong-mod p a b a_lt (Cong-cancel q qi unit scaled) ∙ mod-eq_of_lt b_lt in
    omega (arith, x_split, y_split, mod_q, ap (λ (t : ℕ). q * t) same)

-- The exponents invert each other modulo r.
abbrev pub Inverts : ℕ → ℕ → ℕ → Type 0
Inverts r e d = (x : ℕ) → x ^ (e * d) % r ≡ x % r

module _ (n : ℕ) (m modulus e p q dp dq qi : Bytes) (key : IsPrivateKey n p q dp dq qi)
    (hm : Fits n m) (hn : Fits n modulus) (he : Fits n e)
    (product : be_value modulus ≡ be_value p * be_value q) (good : IsModulus n (be_value modulus))
    (below : be_value m < be_value p * be_value q)
    (inverts_p : Inverts (be_value p) (be_value e) (be_value dp))
    (inverts_q : Inverts (be_value q) (be_value e) (be_value dq))
    (close : be_value m % be_value q ≤ be_value m % be_value p + be_value p) where
  abbrev cipher : Bytes
  cipher = rsa_public_op n m modulus e

  cipher-Encodes : Encodes n (be_value m ^ be_value e % be_value modulus) cipher
  cipher-Encodes = rsa_public_op_lem n m modulus e hm hn he good

  power_back :
      (r k d : ℕ)
      → 1 < r
      → be_value modulus ≡ r * k
      → Inverts r (be_value e) d
      → be_value cipher ^ d % r ≡ be_value m % r
  power_back r k d big factor inverts =
      let (bytes, size, exact) = cipher-Encodes in
      let reduced : be_value cipher ≡ be_value m ^ be_value e % (r * k) =
        exact ∙ ap (λ (t : ℕ). be_value m ^ be_value e % t) factor in
      let c : Cong r (be_value cipher) (be_value m ^ be_value e) =
        Cong-trans (eq→Cong r reduced) (mod-Cong r k (be_value m ^ be_value e)) in
      remainder_same (omega (arith, big)) (Cong-pow d c)
      ∙ ap (λ (t : ℕ). t % r) (sym (pow-mul (be_value m) (be_value e) d))
      ∙ inverts (be_value m)

  pub rsa_private_op-rsa_public_op :
      be_value (rsa_private_op n (rsa_public_op n m modulus e) p q dp dq qi) ≡ be_value m
  rsa_private_op-rsa_public_op =
      let (bytes, size, exact) = cipher-Encodes in
      let swapped : be_value modulus ≡ be_value q * be_value p = omega (arith, product) in
      let back_p =
        power_back (be_value p) (be_value q) (be_value dp) key.p_modulus.big product inverts_p in
      let back_q =
        power_back (be_value q) (be_value p) (be_value dq) key.q_modulus.big swapped inverts_q in
      let d =
        rsa_private_op_lem n cipher p q dp dq qi key (bytes, omega (arith, size))
          (omega (arith, back_p, back_q, close)) in
      crt_unique (be_value p) (be_value q) (be_value qi) _ (be_value m) key.p_modulus.big
        key.inverse d.below below (d.modulo_p ∙ back_p) (d.modulo_q ∙ back_q)
