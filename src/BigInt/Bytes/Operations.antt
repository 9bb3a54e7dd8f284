-- ===== src/BigInt/Bytes/Operations.antt =====
-- providers/arm_asm/rsa_bigint.hpp: `rsa_public_op` and `rsa_private_op` on the numbers that their
-- bytes stand for.
use claude_crypto.Base.{
  ℕ, ◌+◌, ◌*◌, ◌%◌, ◌^◌, ◌<◌, ◌≤◌, ◌≡◌, sym, ap, ap₂, ◌∙◌, List, length, arith, Cong,
}
use native.Mathlib.Nat.{mod-lt}
use claude_crypto.Api.Result.{Bytes, AreBytes}
use claude_crypto.BigInt.{word, value, radix, IsLimbs}
use claude_crypto.BigInt.Power.{bigint_powmod_ct}
use claude_crypto.BigInt.Power.Modular.{bigint_powmod_ct_lem}
use claude_crypto.BigInt.Crt.Combine.{IsCrtKey, rsa_crt_combine_lem}
use claude_crypto.BigInt.Bytes.{
  bigint_from_bytes, bigint_to_bytes, rsa_public_op, rsa_private_op, be_value,
}
use claude_crypto.BigInt.Bytes.Load.{bigint_from_bytes_lem}
use claude_crypto.BigInt.Bytes.Store.{bigint_to_bytes_lem}

-- Bytes that fit n limbs.
abbrev pub Fits : ℕ → Bytes → Type 0
Fits n bytes = AreBytes bytes × (length bytes ≤ n * 8)

-- A modulus that the exponentiation takes.
pub record IsModulus (n m : ℕ) : Type 0 where
  pub odd : m % 2 ≡ 1
  pub big : 1 < m
  pub room : (word + 1) * m ≤ word * radix n

-- The bytes of a number of n limbs.
abbrev pub Encodes : ℕ → ℕ → Bytes → Type 0
Encodes n x bytes = AreBytes bytes × (length bytes ≡ n * 8) × (be_value bytes ≡ x)

stored : (n : ℕ) {x : ℕ} (a : List ℕ) → IsLimbs n a → value a ≡ x → Encodes n x (bigint_to_bytes a)
stored n a h e = let (bytes, size, same) = bigint_to_bytes_lem n a h in (bytes, size, same ∙ e)

module _ (n : ℕ) where
  abbrev load : Bytes → List ℕ
  load bytes = bigint_from_bytes n bytes

  abbrev power : Bytes → Bytes → Bytes → List ℕ
  power base exponent modulus = bigint_powmod_ct (load base) (load exponent) (load modulus)

  power_lem :
      (base exponent modulus : Bytes)
      → Fits n base
      → Fits n exponent
      → Fits n modulus
      → IsModulus n (be_value modulus)
      → IsLimbs n (power base exponent modulus)
        × (value (power base exponent modulus)
            ≡ be_value base ^ be_value exponent % be_value modulus)
  power_lem base exponent modulus hb he hm good =
      let (base_limbs, base_value) = bigint_from_bytes_lem n base hb.0 hb.1 in
      let (exp_limbs, exp_value) = bigint_from_bytes_lem n exponent he.0 he.1 in
      let (mod_limbs, mod_value) = bigint_from_bytes_lem n modulus hm.0 hm.1 in
      let (limbs, e) =
        bigint_powmod_ct_lem n (load base) (load exponent) (load modulus) base_limbs exp_limbs
          mod_limbs (ap (λ (t : ℕ). t % 2) mod_value ∙ good.odd)
          (omega (arith, good.big, mod_value))
          (omega (arith, good.room, ap (λ (t : ℕ). (word + 1) * t) mod_value)) in
      (
        limbs,
        e ∙ ap₂ (λ (x m : ℕ). x % m) (ap₂ (λ (x y : ℕ). x ^ y) base_value exp_value) mod_value,
      )

  -- For a message, a modulus and an exponent that fit n limbs, the modulus odd, above 1 and with
  -- room for the Montgomery reduction: rsa_public_op returns 8 n bytes of the number m^e modulo
  -- n.
  pub rsa_public_op_lem :
      (m_bytes n_bytes e_bytes : Bytes)
      → Fits n m_bytes
      → Fits n n_bytes
      → Fits n e_bytes
      → IsModulus n (be_value n_bytes)
      → Encodes n
          (be_value m_bytes ^ be_value e_bytes % be_value n_bytes)
          (rsa_public_op n m_bytes n_bytes e_bytes)
  unfolding rsa_public_op
  rsa_public_op_lem m_bytes n_bytes e_bytes hm hn he good =
      let (limbs, e) = power_lem m_bytes e_bytes n_bytes hm he hn good in
      stored n (power m_bytes e_bytes n_bytes) limbs e

-- The numbers of a private key, as bytes that fit n limbs.
pub record IsPrivateKey (n : ℕ) (p q dp dq qi : Bytes) : Type 0 where
  pub p_fits : Fits n p
  pub q_fits : Fits n q
  pub dp_fits : Fits n dp
  pub dq_fits : Fits n dq
  pub qi_fits : Fits n qi
  pub p_modulus : IsModulus n (be_value p)
  pub q_modulus : IsModulus n (be_value q)
  pub inverse : Cong (be_value p) (be_value q * be_value qi) 1
  pub fits : be_value p * be_value q < radix n

-- The residues modulo p and q of what was decrypted.
pub record IsDecrypted (n p q r_p r_q : ℕ) (m_bytes : Bytes) : Type 0 where
  pub bytes : AreBytes m_bytes
  pub size : length m_bytes ≡ n * 8
  pub below : be_value m_bytes < p * q
  pub modulo_p : be_value m_bytes % p ≡ r_p
  pub modulo_q : be_value m_bytes % q ≡ r_q

module _ (n : ℕ) (c p q dp dq qi : Bytes) (key : IsPrivateKey n p q dp dq qi) (hc : Fits n c) where
  abbrev r_p : ℕ
  r_p = be_value c ^ be_value dp % be_value p

  abbrev r_q : ℕ
  r_q = be_value c ^ be_value dq % be_value q

  crt_key : IsCrtKey n (load n p) (load n q) (load n qi)
  crt_key =
      let (p_limbs, p_value) = bigint_from_bytes_lem n p key.p_fits.0 key.p_fits.1 in
      let (q_limbs, q_value) = bigint_from_bytes_lem n q key.q_fits.0 key.q_fits.1 in
      let (qi_limbs, qi_value) = bigint_from_bytes_lem n qi key.qi_fits.0 key.qi_fits.1 in
      let good = key.p_modulus in
      record {
        p_limbs = p_limbs;
        q_limbs = q_limbs;
        qinv_limbs = qi_limbs;
        p_odd = ap (λ (t : ℕ). t % 2) p_value ∙ good.odd;
        p_big = omega (arith, good.big, p_value);
        p_room = omega (arith, good.room, ap (λ (t : ℕ). (word + 1) * t) p_value);
        inverse = rw (p_value, q_value, qi_value) key.inverse;
        fits = rw (p_value, q_value) key.fits;
      }

  -- For a private key whose numbers fit n limbs, with odd p and q above 1 that leave room for the
  -- Montgomery reduction ((2^64 + 1) * m at most 2^64 * 2^(64 n)), qinv the inverse of q modulo p
  -- and p * q below 2^(64 n), and a ciphertext c that fits n limbs, where c^dq mod q is at most
  -- c^dp mod p + p: rsa_private_op returns 8 n bytes of the number below p * q that is c^dp
  -- modulo p and c^dq modulo q.
  pub rsa_private_op_lem :
      r_q ≤ r_p + be_value p
      → IsDecrypted n (be_value p) (be_value q) r_p r_q (rsa_private_op n c p q dp dq qi)
  unfolding rsa_private_op
  rsa_private_op_lem close =
      let (p_limbs, p_value) = bigint_from_bytes_lem n p key.p_fits.0 key.p_fits.1 in
      let (q_limbs, q_value) = bigint_from_bytes_lem n q key.q_fits.0 key.q_fits.1 in
      let (mp_limbs, mp) = power_lem n c dp p hc key.dp_fits key.p_fits key.p_modulus in
      let (mq_limbs, mq) = power_lem n c dq q hc key.dq_fits key.q_fits key.q_modulus in
      let mp_lt : r_p < be_value p = mod-lt _ (omega (arith, key.p_modulus.big)) in
      let mq_lt : r_q < be_value q = mod-lt _ (omega (arith, key.q_modulus.big)) in
      let (limbs, below, mod_p, mod_q) =
        rsa_crt_combine_lem n (load n p) (load n q) (load n qi) crt_key (power n c dp p)
          (power n c dq q) mp_limbs mq_limbs (omega (arith, mq, mq_lt, q_value))
          (omega (arith, mp, mp_lt, p_value)) (omega (arith, mp, mq, p_value, close)) in
      let (bytes, size, same) = bigint_to_bytes_lem n _ limbs in
      record {
        bytes = bytes;
        size = size;
        below = omega (arith, same, below, ap₂ (λ (x y : ℕ). x * y) p_value q_value);
        modulo_p = ap₂ (λ (x y : ℕ). x % y) same (sym p_value) ∙ mod_p ∙ mp;
        modulo_q = ap₂ (λ (x y : ℕ). x % y) same (sym q_value) ∙ mod_q ∙ mq;
      }
