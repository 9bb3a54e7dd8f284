-- ===== src/Rsa/KeyPair.antt =====
-- providers/arm_asm/rsa.hpp: keys that belong together, for the theorems on the operations.
use claude_crypto.Base.{ℕ, ◌+◌, ◌-◌, ◌*◌, ◌/◌, ◌^◌, ◌<◌, ◌≤◌, ◌≡◌, ap, some, [], ◌∷◌, length, arith}
use claude_crypto.Api.Result.{Bytes}
use claude_crypto.RsaDer.{RsaPrivateKeyComponents, RsaPublicKeyComponents}
use claude_crypto.BigInt.Bytes.{be_value}
use claude_crypto.BigInt.Bytes.Operations.{Fits, IsModulus, IsPrivateKey}
use claude_crypto.BigInt.Bytes.Inverse.{Inverts}
use claude_crypto.BigInt.Bytes.Order.{be_value_bound}
use claude_crypto.RsaPadding.{pss_em_bits, pss_em_len, pss_top_bits}
use claude_crypto.RsaPadding.Encoded.{IsBelow}
use claude_crypto.Rsa.{rsa_dispatch_all}

-- A public and a private key of 64 n bits that belong together. The larger prime is p.
pub record IsRsaKeyPair (n : ℕ) (public_key : RsaPublicKeyComponents)
    (private_key : RsaPrivateKeyComponents) : Type 0 where
  pub numbers :
      IsPrivateKey n private_key.p private_key.q private_key.dp private_key.dq private_key.qinv
  pub n_fits : Fits n public_key.n
  pub n_size : length public_key.n ≡ n * 8
  pub e_fits : Fits n public_key.e
  pub product : be_value public_key.n ≡ be_value private_key.p * be_value private_key.q
  pub modulus : IsModulus n (be_value public_key.n)
  pub full : 2 ^ (n * 64 - 1) ≤ be_value public_key.n
  pub ordered : be_value private_key.q ≤ be_value private_key.p
  pub inverts_p : Inverts (be_value private_key.p) (be_value public_key.e) (be_value private_key.dp)
  pub inverts_q : Inverts (be_value private_key.q) (be_value public_key.e) (be_value private_key.dq)

-- The sizes that the switch knows.
pub rsa_dispatch_all_lem :
    (bits n : ℕ)
    → rsa_dispatch_all bits ≡ some n
    → (bits ≡ n * 64) × (bits / 8 ≡ n * 8) × (16 ≤ n) × (n ≤ 64)
unfolding rsa_dispatch_all
rsa_dispatch_all_lem bits n h = ground (arith, h)

pub pss_sizes_at :
    (n : ℕ) → 0 < n → n ≤ 64 → (pss_em_len (n * 64) ≡ n * 8) × (pss_top_bits (n * 64) ≡ 1)
unfolding pss_em_bits pss_em_len pss_top_bits
pss_sizes_at n pos small = (omega (arith, pos, small), omega (arith, pos, small))

-- What is encoded is below the modulus.
pub encoded_below :
    (n : ℕ) (em : Bytes)
    → 0 < n
    → length em ≡ n * 8
    → IsBelow (2 ^ 7) em
    → be_value em < 2 ^ (n * 64 - 1)
encoded_below n [] pos size h = absurd (omega (arith, size, pos))
encoded_below n (b ∷ em) pos size (bytes, small) =
    let width : length em * 8 + 7 ≡ n * 64 - 1 = omega (arith, size, pos) in
    let bound : be_value (b ∷ em) < 2 ^ (length em * 8 + 7) = be_value_bound b em bytes small in
    omega (arith, bound, ap (λ (k : ℕ). 2 ^ k) width)
