-- ===== src/Api/KeyBalance/Operations.antt =====
-- safe-crypto-lib/*.hpp: the keys that the operations over a provider create and destroy.
use claude_crypto.Base.{ℕ, Option, none, some}
use claude_crypto.Api.Result.{Bytes}
use claude_crypto.Api.Provider.{CryptoProvider, ShaVariant}
use claude_crypto.Api.Random.{random_bytes_impl, random_bytes_fixed_impl}
use claude_crypto.Api.Digests.{sha_impl}
use claude_crypto.Api.Mac.{hmac_generate_impl, hmac_verify_impl}
use claude_crypto.Api.Ecc.{
  EcCurve, EcPublicKey, EccKeyPair, ecdsa_generate_key_impl, ecdsa_sign_impl, ecdsa_verify_impl,
}
use claude_crypto.Api.Ecdh.{ecdh_generate_key_impl, ecdh_compute_shared_secret_impl}
use claude_crypto.Api.Aead.{
  AesGcmResult, ChaCha20Poly1305Result, aes256_gcm_encrypt_impl, aes256_gcm_decrypt_impl,
  chacha20_poly1305_encrypt_impl, chacha20_poly1305_decrypt_impl,
}
use claude_crypto.Api.Asymmetric.{
  RsaPublicKey, RsaKeyPair, rsa_oaep_encrypt_impl, rsa_oaep_decrypt_impl, rsa_pss_sign_impl,
  rsa_pss_verify_impl,
}
use claude_crypto.Api.Kdf.{derive_key_impl, expand_key_impl, generate_rsa_key_impl}
use claude_crypto.Api.Provider.{MlKemVariant}
use claude_crypto.Api.Kem.{
  MlKemPublicKey, MlKemKeyPair, ml_kem_generate_key_impl, ml_kem_encapsulate_impl,
  ml_kem_decapsulate_impl,
}
use claude_crypto.Api.KeyBalance.{
  KeyAccounting, IsBalanced, IsBalanced-pure, IsBalanced-fail, IsBalanced-lift, IsBalanced-if,
  IsBalanced-bind, IsBalanced-init, IsBalanced-call, IsBalanced-status, IsBalanced-handle,
}

pub ruleset balance_rules = (
  IsBalanced-pure, IsBalanced-fail, IsBalanced-lift, IsBalanced-if, IsBalanced-init,
  IsBalanced-call, IsBalanced-status, IsBalanced-handle, IsBalanced-bind,
)

module _ (p : CryptoProvider) (acc : KeyAccounting p) where
  open acc use {
    import_live, generate_live, random_live, export_live, export_public_live, sign_live,
    verify_live, mac_live, mac_verify_live, encrypt_live, decrypt_live, encapsulate_live,
    decapsulate_live, asymmetric_encrypt_live, asymmetric_decrypt_live, agree_live, hash_live,
    hkdf_live,
  }

  pub random_bytes_impl-IsBalanced : (n : ℕ) → IsBalanced p acc (random_bytes_impl p n)
  unfolding random_bytes_impl
  random_bytes_impl-IsBalanced n = search (balance_rules, random_live)

  pub hmac_generate_impl-IsBalanced :
      (v : ShaVariant) (key message : Bytes) → IsBalanced p acc (hmac_generate_impl p v key message)
  unfolding hmac_generate_impl
  hmac_generate_impl-IsBalanced v key message =
      search (balance_rules, import_live, mac_live) depth 8

  -- For a provider whose calls keep the key accounting (a created key is live until it is
  -- destroyed, and no other call changes the live keys), ecdsa_generate_key_impl ends with the
  -- live keys that it began with, on every path: each key that it creates is destroyed, whether
  -- it succeeds or fails.
  pub ecdsa_generate_key_impl-IsBalanced :
      (curve : EcCurve) → IsBalanced p acc (ecdsa_generate_key_impl p curve)
  unfolding ecdsa_generate_key_impl
  ecdsa_generate_key_impl-IsBalanced curve =
      search (balance_rules, generate_live, export_live, export_public_live) depth 9

  pub random_bytes_fixed_impl-IsBalanced : (n : ℕ) → IsBalanced p acc (random_bytes_fixed_impl p n)
  unfolding random_bytes_fixed_impl
  random_bytes_fixed_impl-IsBalanced n = search (balance_rules, random_live)

  pub sha_impl-IsBalanced : (v : ShaVariant) (input : Bytes) → IsBalanced p acc (sha_impl p v input)
  unfolding sha_impl
  sha_impl-IsBalanced v input = search (balance_rules, hash_live)

  pub hmac_verify_impl-IsBalanced :
      (v : ShaVariant) (key message mac : Bytes)
      → IsBalanced p acc (hmac_verify_impl p v key message mac)
  unfolding hmac_verify_impl
  hmac_verify_impl-IsBalanced v key message mac =
      search (balance_rules, import_live, mac_verify_live) depth 10

  pub ecdsa_sign_impl-IsBalanced :
      (curve : EcCurve) (keys : EccKeyPair) (message : Bytes)
      → IsBalanced p acc (ecdsa_sign_impl p curve keys message)
  unfolding ecdsa_sign_impl
  ecdsa_sign_impl-IsBalanced curve keys message =
      search (balance_rules, import_live, sign_live) depth 8

  pub ecdsa_verify_impl-IsBalanced :
      (curve : EcCurve) (key : EcPublicKey) (message signature : Bytes)
      → IsBalanced p acc (ecdsa_verify_impl p curve key message signature)
  unfolding ecdsa_verify_impl
  ecdsa_verify_impl-IsBalanced curve key message signature =
      search (balance_rules, import_live, verify_live) depth 10

  pub ecdh_generate_key_impl-IsBalanced :
      (curve : EcCurve) → IsBalanced p acc (ecdh_generate_key_impl p curve)
  unfolding ecdh_generate_key_impl
  ecdh_generate_key_impl-IsBalanced curve =
      search (balance_rules, generate_live, export_live, export_public_live) depth 9

  pub ecdh_compute_shared_secret_impl-IsBalanced :
      (curve : EcCurve) (keys : EccKeyPair) (peer : Bytes)
      → IsBalanced p acc (ecdh_compute_shared_secret_impl p curve keys peer)
  unfolding ecdh_compute_shared_secret_impl
  ecdh_compute_shared_secret_impl-IsBalanced curve keys peer =
      search (balance_rules, import_live, agree_live) depth 8

  pub derive_key_impl-IsBalanced :
      (n : ℕ) (ikm salt info : Option Bytes) → IsBalanced p acc (derive_key_impl p n ikm salt info)
  unfolding derive_key_impl
  derive_key_impl-IsBalanced n none salt info =
      search (balance_rules, random_bytes_impl-IsBalanced, hkdf_live) depth 9
  derive_key_impl-IsBalanced n (some ikm) salt info = search (balance_rules, hkdf_live) depth 9

  pub expand_key_impl-IsBalanced :
      (n : ℕ) (prk : Bytes) (info : Option Bytes) → IsBalanced p acc (expand_key_impl p n prk info)
  unfolding expand_key_impl
  expand_key_impl-IsBalanced n prk info = search (balance_rules, hkdf_live) depth 8

  pub generate_rsa_key_impl-IsBalanced : (n : ℕ) → IsBalanced p acc (generate_rsa_key_impl p n)
  unfolding generate_rsa_key_impl
  generate_rsa_key_impl-IsBalanced n =
      search (balance_rules, generate_live, export_live, export_public_live) depth 9

  -- For a provider whose calls keep the key accounting (a created key is live until it is
  -- destroyed, and no other call changes the live keys), aes256_gcm_encrypt_impl ends with the
  -- live keys that it began with, on every path: each key that it creates is destroyed, whether
  -- it succeeds or fails.
  pub aes256_gcm_encrypt_impl-IsBalanced :
      (key text : Bytes) (aad : Option Bytes)
      → IsBalanced p acc (aes256_gcm_encrypt_impl p key text aad)
  unfolding aes256_gcm_encrypt_impl
  aes256_gcm_encrypt_impl-IsBalanced key text aad =
      search (balance_rules, random_bytes_fixed_impl-IsBalanced, import_live, encrypt_live) depth 10

  pub aes256_gcm_decrypt_impl-IsBalanced :
      (key : Bytes) (sealed : AesGcmResult) (aad : Option Bytes)
      → IsBalanced p acc (aes256_gcm_decrypt_impl p key sealed aad)
  unfolding aes256_gcm_decrypt_impl
  aes256_gcm_decrypt_impl-IsBalanced key sealed aad =
      search (balance_rules, import_live, decrypt_live) depth 8

  pub chacha20_poly1305_encrypt_impl-IsBalanced :
      (key text : Bytes) (aad : Option Bytes)
      → IsBalanced p acc (chacha20_poly1305_encrypt_impl p key text aad)
  unfolding chacha20_poly1305_encrypt_impl
  chacha20_poly1305_encrypt_impl-IsBalanced key text aad =
      search (balance_rules, random_bytes_fixed_impl-IsBalanced, import_live, encrypt_live) depth 10

  pub chacha20_poly1305_decrypt_impl-IsBalanced :
      (key : Bytes) (sealed : ChaCha20Poly1305Result) (aad : Option Bytes)
      → IsBalanced p acc (chacha20_poly1305_decrypt_impl p key sealed aad)
  unfolding chacha20_poly1305_decrypt_impl
  chacha20_poly1305_decrypt_impl-IsBalanced key sealed aad =
      search (balance_rules, import_live, decrypt_live) depth 8

  pub rsa_oaep_encrypt_impl-IsBalanced :
      (n : ℕ) (key : RsaPublicKey) (text : Bytes) (label : Option Bytes)
      → IsBalanced p acc (rsa_oaep_encrypt_impl p n key text label)
  unfolding rsa_oaep_encrypt_impl
  rsa_oaep_encrypt_impl-IsBalanced n key text label =
      search (balance_rules, import_live, asymmetric_encrypt_live) depth 8

  -- For a provider whose calls keep the key accounting (a created key is live until it is
  -- destroyed, and no other call changes the live keys), rsa_oaep_decrypt_impl ends with the live
  -- keys that it began with, on every path: each key that it creates is destroyed, whether it
  -- succeeds or fails.
  pub rsa_oaep_decrypt_impl-IsBalanced :
      (n : ℕ) (keys : RsaKeyPair) (text : Bytes) (label : Option Bytes)
      → IsBalanced p acc (rsa_oaep_decrypt_impl p n keys text label)
  unfolding rsa_oaep_decrypt_impl
  rsa_oaep_decrypt_impl-IsBalanced n keys text label =
      search (balance_rules, import_live, asymmetric_decrypt_live) depth 8

  pub rsa_pss_sign_impl-IsBalanced :
      (n : ℕ) (keys : RsaKeyPair) (message : Bytes)
      → IsBalanced p acc (rsa_pss_sign_impl p n keys message)
  unfolding rsa_pss_sign_impl
  rsa_pss_sign_impl-IsBalanced n keys message =
      search (balance_rules, import_live, sign_live) depth 8

  -- For a provider whose calls keep the key accounting (a created key is live until it is
  -- destroyed, and no other call changes the live keys), rsa_pss_verify_impl ends with the live
  -- keys that it began with, on every path: each key that it creates is destroyed, whether it
  -- succeeds or fails.
  pub rsa_pss_verify_impl-IsBalanced :
      (n : ℕ) (key : RsaPublicKey) (message signature : Bytes)
      → IsBalanced p acc (rsa_pss_verify_impl p n key message signature)
  unfolding rsa_pss_verify_impl
  rsa_pss_verify_impl-IsBalanced n key message signature =
      search (balance_rules, import_live, verify_live) depth 10

  pub ml_kem_generate_key_impl-IsBalanced :
      (v : MlKemVariant) → IsBalanced p acc (ml_kem_generate_key_impl p v)
  unfolding ml_kem_generate_key_impl
  ml_kem_generate_key_impl-IsBalanced v =
      search (balance_rules, generate_live, export_live, export_public_live) depth 9

  pub ml_kem_encapsulate_impl-IsBalanced :
      (v : MlKemVariant) (key : MlKemPublicKey) → IsBalanced p acc (ml_kem_encapsulate_impl p v key)
  unfolding ml_kem_encapsulate_impl
  ml_kem_encapsulate_impl-IsBalanced v key =
      search (balance_rules, import_live, encapsulate_live) depth 9

  -- For a provider whose calls keep the key accounting (a created key is live until it is
  -- destroyed, and no other call changes the live keys), ml_kem_decapsulate_impl ends with the
  -- live keys that it began with, on every path: each key that it creates is destroyed, whether
  -- it succeeds or fails.
  pub ml_kem_decapsulate_impl-IsBalanced :
      (v : MlKemVariant) (keys : MlKemKeyPair) (ciphertext : Bytes)
      → IsBalanced p acc (ml_kem_decapsulate_impl p v keys ciphertext)
  unfolding ml_kem_decapsulate_impl
  ml_kem_decapsulate_impl-IsBalanced v keys ciphertext =
      search (balance_rules, import_live, decapsulate_live) depth 9
