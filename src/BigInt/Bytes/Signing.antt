-- ===== src/BigInt/Bytes/Signing.antt =====
-- providers/arm_asm/rsa_bigint.hpp: `rsa_public_op` after `rsa_private_op`.
use native.Mathlib.Nat.{mod-lt}
use claude_crypto.Base.{ℕ, ◌*◌, ◌%◌, ◌^◌, ◌<◌, ◌≤◌, ◌≡◌, sym, ap, ◌∙◌, arith, Cong, Cong-trans}
use claude_crypto.Api.Result.{Bytes}
use claude_crypto.BigInt.Bytes.{rsa_public_op, rsa_private_op, be_value}
use claude_crypto.BigInt.Bytes.Operations.{
  Fits, IsModulus, Encodes, IsPrivateKey, rsa_public_op_lem, rsa_private_op_lem,
}
use claude_crypto.BigInt.Bytes.Inverse.{
  Inverts, Cong-pow, remainder_same, remainder_Cong, mod-Cong, pow-mul, crt_unique,
}

module _ (n : ℕ) (m modulus e p q dp dq qi : Bytes) (key : IsPrivateKey n p q dp dq qi)
    (hm : Fits n m) (hn : Fits n modulus) (he : Fits n e)
    (product : be_value modulus ≡ be_value p * be_value q) (good : IsModulus n (be_value modulus))
    (below : be_value m < be_value p * be_value q)
    (inverts_p : Inverts (be_value p) (be_value e) (be_value dp))
    (inverts_q : Inverts (be_value q) (be_value e) (be_value dq))
    (ordered : be_value q ≤ be_value p) where
  abbrev signature : Bytes
  signature = rsa_private_op n m p q dp dq qi

  -- The power of the signature has the residue of the message.
  power_back :
      (r k d : ℕ)
      → 1 < r
      → be_value modulus ≡ r * k
      → Inverts r (be_value e) d
      → be_value signature % r ≡ be_value m ^ d % r
      → be_value signature ^ be_value e % be_value modulus % r ≡ be_value m % r
  power_back r k d big factor inverts residue =
      let s : ℕ = be_value signature in
      let swapped : d * be_value e ≡ be_value e * d = omega arith in
      let c : Cong r (s ^ be_value e % (r * k)) ((be_value m ^ d) ^ be_value e) =
        Cong-trans (mod-Cong r k (s ^ be_value e))
          (Cong-pow (be_value e) (remainder_Cong {m = r} {x = s} {y = be_value m ^ d} residue)) in
      ap (λ (t : ℕ). s ^ be_value e % t % r) factor
      ∙ remainder_same (omega (arith, big)) c
      ∙ ap (λ (t : ℕ). t % r)
          (sym (pow-mul (be_value m) d (be_value e)) ∙ ap (λ (t : ℕ). be_value m ^ t) swapped)
      ∙ inverts (be_value m)

  -- A message signed with the private operation comes back by the public one.
  pub rsa_public_op-rsa_private_op :
      Encodes n (be_value m) (rsa_public_op n (rsa_private_op n m p q dp dq qi) modulus e)
  rsa_public_op-rsa_private_op =
      let q_small : be_value m ^ be_value dq % be_value q < be_value q =
        mod-lt (be_value m ^ be_value dq) (omega (arith, key.q_modulus.big)) in
      let d = rsa_private_op_lem n m p q dp dq qi key hm (omega (arith, q_small, ordered)) in
      let swapped : be_value modulus ≡ be_value q * be_value p = omega (arith, product) in
      let back_p =
        power_back (be_value p) (be_value q) (be_value dp) key.p_modulus.big product inverts_p
          d.modulo_p in
      let back_q =
        power_back (be_value q) (be_value p) (be_value dq) key.q_modulus.big swapped inverts_q
          d.modulo_q in
      let (bytes, size, exact) =
        rsa_public_op_lem n signature modulus e (d.bytes, omega (arith, d.size)) hn he good in
      let small : be_value signature ^ be_value e % be_value modulus < be_value modulus =
        mod-lt (be_value signature ^ be_value e) (omega (arith, good.big)) in
      (
        bytes,
        size,
        exact
            ∙ crt_unique (be_value p) (be_value q) (be_value qi)
                (be_value signature ^ be_value e % be_value modulus) (be_value m) key.p_modulus.big
                key.inverse (omega (arith, small, product)) below back_p back_q,
      )
