-- ===== src/Api/Aead.antt =====
-- safe-crypto-lib/aead.hpp
use claude_crypto.Base.{ℕ, Option}
use claude_crypto.Api.Result.{
  Bytes, key_import_failed, encryption_failed, decryption_failed, Exec, pure, ◌>>=◌, ◌>>◌,
}
use claude_crypto.Api.Provider.{CryptoProvider, or_empty, require_init, try_call, with_key_handle}
use claude_crypto.Api.Random.{random_bytes_fixed_impl}

abbrev pub aes_gcm_iv_size_bytes : ℕ
aes_gcm_iv_size_bytes = 12

abbrev pub chacha20_poly1305_iv_size_bytes : ℕ
chacha20_poly1305_iv_size_bytes = 12

pub record AesGcmResult : Type 0 where
  pub iv : Bytes
  pub ciphertext : Bytes

pub record ChaCha20Poly1305Result : Type 0 where
  pub iv : Bytes
  pub ciphertext : Bytes

module _ (p : CryptoProvider) where
  open p use {
    State, make_aes256_gcm_encrypt_attrs, make_aes256_gcm_decrypt_attrs,
    make_chacha20_poly1305_encrypt_attrs, make_chacha20_poly1305_decrypt_attrs, alg_aes_gcm,
    alg_chacha20_poly1305, import_key, aead_encrypt, aead_decrypt,
  }

  unfoldable pub aes256_gcm_encrypt_impl : Bytes → Bytes → Option Bytes → Exec State AesGcmResult
  aes256_gcm_encrypt_impl key plaintext aad = do
    require_init p
    iv ← random_bytes_fixed_impl p aes_gcm_iv_size_bytes
    id ← try_call p key_import_failed (import_key make_aes256_gcm_encrypt_attrs key)
    with_key_handle p id λ id. do
      ct ← try_call p encryption_failed (aead_encrypt id alg_aes_gcm iv (or_empty aad) plaintext)
      pure (record { iv = iv; ciphertext = ct })

  unfoldable pub aes256_gcm_decrypt_impl : Bytes → AesGcmResult → Option Bytes → Exec State Bytes
  aes256_gcm_decrypt_impl key sealed aad = do
    require_init p
    id ← try_call p key_import_failed (import_key make_aes256_gcm_decrypt_attrs key)
    with_key_handle p id λ id.
        try_call p decryption_failed
          (aead_decrypt id alg_aes_gcm sealed.iv (or_empty aad) sealed.ciphertext)

  unfoldable pub chacha20_poly1305_encrypt_impl :
      Bytes → Bytes → Option Bytes → Exec State ChaCha20Poly1305Result
  chacha20_poly1305_encrypt_impl key plaintext aad = do
    require_init p
    iv ← random_bytes_fixed_impl p chacha20_poly1305_iv_size_bytes
    id ← try_call p key_import_failed (import_key make_chacha20_poly1305_encrypt_attrs key)
    with_key_handle p id λ id. do
      ct ←
          try_call p encryption_failed
            (aead_encrypt id alg_chacha20_poly1305 iv (or_empty aad) plaintext)
      pure (record { iv = iv; ciphertext = ct })

  unfoldable pub chacha20_poly1305_decrypt_impl :
      Bytes → ChaCha20Poly1305Result → Option Bytes → Exec State Bytes
  chacha20_poly1305_decrypt_impl key sealed aad = do
    require_init p
    id ← try_call p key_import_failed (import_key make_chacha20_poly1305_decrypt_attrs key)
    with_key_handle p id λ id.
        try_call p decryption_failed
          (aead_decrypt id alg_chacha20_poly1305 sealed.iv (or_empty aad) sealed.ciphertext)
