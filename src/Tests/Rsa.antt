-- ===== src/Tests/Rsa.antt =====
-- Small RSA numbers: byte strings, the recombination and the two operations.
use claude_crypto.Base.{ℕ, ◌*◌, ◌%◌, ◌^◌, ◌<◌, ◌≡◌, ◌≢◌, refl, [], ◌∷◌, arith}
use claude_crypto.BigInt.{value, IsLimbs}
use claude_crypto.BigInt.Crt.{rsa_crt_combine}
use claude_crypto.BigInt.Crt.Combine.{IsCrtKey, rsa_crt_combine_lem, rsa_crt_combine-wrong}
use claude_crypto.BigInt.Bytes.Operations.{Fits, IsModulus, IsPrivateKey}

one_limb : (x : ℕ) → x < 2 ^ 64 → IsLimbs 1 (x ∷ [])
one_limb x h = (h, tt)

one_byte : (x : ℕ) → x < 2 ^ 8 → Fits 1 (x ∷ [])
one_byte x h = ((h, tt), omega arith)

-- Two primes of eight bits whose two top bits are set.
small_key : IsCrtKey 1 (197 ∷ []) (251 ∷ []) (135 ∷ [])
small_key = record {
  p_limbs = one_limb 197 (omega arith);
  q_limbs = one_limb 251 (omega arith);
  qinv_limbs = one_limb 135 (omega arith);
  p_odd = refl;
  p_big = omega arith;
  p_room = omega arith;
  inverse = record { left = 0; right = 172; balance = refl };
  fits = omega arith;
}

rsa_crt_combine_lem_example :
    IsLimbs 1 (rsa_crt_combine (5 ∷ []) (7 ∷ []) (197 ∷ []) (251 ∷ []) (135 ∷ []))
    × (value (rsa_crt_combine (5 ∷ []) (7 ∷ []) (197 ∷ []) (251 ∷ []) (135 ∷ [])) < 197 * 251)
    × (value (rsa_crt_combine (5 ∷ []) (7 ∷ []) (197 ∷ []) (251 ∷ []) (135 ∷ [])) % 197 ≡ 5)
    × (value (rsa_crt_combine (5 ∷ []) (7 ∷ []) (197 ∷ []) (251 ∷ []) (135 ∷ [])) % 251 ≡ 7)
rsa_crt_combine_lem_example =
    rsa_crt_combine_lem 1 (197 ∷ []) (251 ∷ []) (135 ∷ []) small_key (5 ∷ []) (7 ∷ [])
      (one_limb 5 (omega arith)) (one_limb 7 (omega arith)) (omega arith) (omega arith)
      (omega arith)

rsa_crt_combine-wrong_example :
    value (rsa_crt_combine (0 ∷ []) (250 ∷ []) (197 ∷ []) (251 ∷ []) (135 ∷ [])) % 197 ≢ 0
rsa_crt_combine-wrong_example =
    rsa_crt_combine-wrong 1 (197 ∷ []) (251 ∷ []) (135 ∷ []) small_key (0 ∷ []) (250 ∷ [])
      (one_limb 0 (omega arith)) (one_limb 250 (omega arith)) (omega arith) (omega arith)
      (omega arith)

modulus : (m : ℕ) → m % 2 ≡ 1 → 1 < m → m < 2 ^ 60 → IsModulus 1 m
modulus m odd big small = record { odd = odd; big = big; room = omega arith }

private_key : IsPrivateKey 1 (11 ∷ []) (7 ∷ []) (7 ∷ []) (5 ∷ []) (8 ∷ [])
private_key = record {
  p_fits = one_byte 11 (omega arith);
  q_fits = one_byte 7 (omega arith);
  dp_fits = one_byte 7 (omega arith);
  dq_fits = one_byte 5 (omega arith);
  qi_fits = one_byte 8 (omega arith);
  p_modulus = modulus 11 refl (omega arith) (omega arith);
  q_modulus = modulus 7 refl (omega arith) (omega arith);
  inverse = record { left = 0; right = 5; balance = refl };
  fits = omega arith;
}
