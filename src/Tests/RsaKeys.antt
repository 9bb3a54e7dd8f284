-- ===== src/Tests/RsaKeys.antt =====
-- A key of 1024 bits: p = 2^512 + 1, q = 2^511 + 1 and exponents 1, so that every fact about the
-- numbers is a computation.
use claude_crypto.Base.{ℕ, ◌+◌, ◌*◌, ◌%◌, ◌^◌, ◌≡◌, refl, ap, some, [], ◌∷◌, ◌++◌, replicate, arith}
use native.Mathlib.Nat.{pow-suc, pow-zero}
use claude_crypto.Api.Result.{Bytes}
use claude_crypto.BigInt.Bytes.{be_value}
use claude_crypto.BigInt.Bytes.Operations.{IsPrivateKey}
use claude_crypto.BigInt.Bytes.Inverse.{Inverts}
use claude_crypto.RsaDer.{
  RsaPrivateKeyComponents, RsaPublicKeyComponents, rsa_parse_public_key_der,
  rsa_parse_private_key_der,
}
use claude_crypto.Rsa.KeyPair.{IsRsaKeyPair}

abbrev p_bytes : Bytes
p_bytes = 1 ∷ (replicate 63 0 ++ 1 ∷ [])

abbrev q_bytes : Bytes
q_bytes = 0x80 ∷ (replicate 62 0 ++ 1 ∷ [])

abbrev n_bytes : Bytes
n_bytes = 0x80 ∷ (replicate 62 0 ++ (1 ∷ (0x80 ∷ (replicate 62 0 ++ 1 ∷ []))))

abbrev pub test_public_key : RsaPublicKeyComponents
test_public_key = record { n = n_bytes; e = 1 ∷ [] }

abbrev pub test_private_key : RsaPrivateKeyComponents
test_private_key = record {
  n = n_bytes;
  e = 1 ∷ [];
  d = 1 ∷ [];
  p = p_bytes;
  q = q_bytes;
  dp = 1 ∷ [];
  dq = 1 ∷ [];
  qinv = 2 ∷ [];
}

-- RSAPublicKey and RSAPrivateKey of PKCS #1.
abbrev pub test_pub_der : Bytes
test_pub_der =
    0x30 ∷ 0x81 ∷ 0x87 ∷ 0x02 ∷ 0x81 ∷ 0x81 ∷ 0x00 ∷ (n_bytes ++ (0x02 ∷ 0x01 ∷ 0x01 ∷ []))

abbrev pub test_priv_der : Bytes
test_priv_der =
    0x30
    ∷ 0x82
    ∷ 0x01
    ∷ 0x1c
    ∷ 0x02
    ∷ 0x01
    ∷ 0x00
    ∷ 0x02
    ∷ 0x81
    ∷ 0x81
    ∷ 0x00
    ∷ (n_bytes
        ++ (0x02
            ∷ 0x01
            ∷ 0x01
            ∷ 0x02
            ∷ 0x01
            ∷ 0x01
            ∷ 0x02
            ∷ 0x41
            ∷ (p_bytes
                ++ (0x02
                    ∷ 0x41
                    ∷ 0x00
                    ∷ (q_bytes
                        ++ (0x02 ∷ 0x01 ∷ 0x01 ∷ 0x02 ∷ 0x01 ∷ 0x01 ∷ 0x02 ∷ 0x01 ∷ 0x02 ∷ []))))))

pub test_pub_der-parsed : rsa_parse_public_key_der test_pub_der ≡ some test_public_key
unfolding rsa_parse_public_key_der
test_pub_der-parsed = refl

pub test_priv_der-parsed : rsa_parse_private_key_der test_priv_der ≡ some test_private_key
unfolding rsa_parse_private_key_der
test_priv_der-parsed = refl

p_value : be_value p_bytes ≡ 2 ^ 512 + 1
p_value = refl

q_value : be_value q_bytes ≡ 2 ^ 511 + 1
q_value = refl

n_value : be_value n_bytes ≡ (2 ^ 512 + 1) * (2 ^ 511 + 1)
n_value = refl

one-Inverts : (r : ℕ) → Inverts r (be_value (1 ∷ [])) (be_value (1 ∷ []))
one-Inverts r x =
    let itself : x ^ 1 ≡ x = omega (arith, pow-suc x 0, ap (λ (t : ℕ). t * x) (pow-zero x)) in
    ap (λ (t : ℕ). t % r) itself

test_numbers : IsPrivateKey 16 p_bytes q_bytes (1 ∷ []) (1 ∷ []) (2 ∷ [])
test_numbers = record {
  p_fits = (omega arith, omega arith);
  q_fits = (omega arith, omega arith);
  dp_fits = (omega arith, omega arith);
  dq_fits = (omega arith, omega arith);
  qi_fits = (omega arith, omega arith);
  p_modulus = record { odd = refl; big = omega arith; room = omega arith };
  q_modulus = record { odd = refl; big = omega arith; room = omega arith };
  inverse = record { left = 0; right = 1; balance = refl };
  fits = omega arith;
}

pub test_pair : IsRsaKeyPair 16 test_public_key test_private_key
test_pair = record {
  numbers = test_numbers;
  n_fits = (omega arith, omega arith);
  n_size = refl;
  e_fits = (omega arith, omega arith);
  product = refl;
  modulus = record { odd = refl; big = omega arith; room = omega arith };
  full = omega arith;
  ordered = omega arith;
  inverts_p = one-Inverts (be_value p_bytes);
  inverts_q = one-Inverts (be_value q_bytes);
}
