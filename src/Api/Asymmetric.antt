-- ===== src/Api/Asymmetric.antt =====
-- safe-crypto-lib/asymmetric.hpp. The size of a key is its number of bits, 3072 or 4096.
use claude_crypto.Base.{ℕ, Bool, true, false, ◌||◌, Option, if◌then◌else◌}
use claude_crypto.Api.Result.{
  Bytes, key_import_failed, encryption_failed, decryption_failed, signing_failed,
  verification_failed, Exec, pure, fail, ◌>>=◌, ◌>>◌,
}
use claude_crypto.Api.Provider.{
  CryptoProvider, or_empty, require_init, try_call, status_call, with_key_handle,
}

pub record RsaPublicKey : Type 0 where
  pub public_key_der : Bytes

pub record RsaKeyPair : Type 0 where
  pub private_key_der : Bytes
  pub public_key_der : Bytes

module _ (p : CryptoProvider) (key_bits : ℕ) where
  open p use {
    State, Status, status_eq, status_ok, err_invalid_sig, err_invalid_arg, alg_rsa_oaep,
    alg_rsa_pss, make_rsa_oaep_encrypt_attrs, make_rsa_oaep_decrypt_attrs, make_rsa_pss_sign_attrs,
    make_rsa_pss_verify_attrs, import_key, asymmetric_encrypt, asymmetric_decrypt, sign_message,
    verify_message,
  }

  unfoldable pub rsa_oaep_encrypt_impl : RsaPublicKey → Bytes → Option Bytes → Exec State Bytes
  rsa_oaep_encrypt_impl public_key plaintext label = do
    require_init p
    id ←
        try_call p key_import_failed
          (import_key (make_rsa_oaep_encrypt_attrs key_bits) public_key.public_key_der)
    with_key_handle p id λ id.
        try_call p encryption_failed (asymmetric_encrypt id alg_rsa_oaep plaintext (or_empty label))

  unfoldable pub rsa_oaep_decrypt_impl : RsaKeyPair → Bytes → Option Bytes → Exec State Bytes
  rsa_oaep_decrypt_impl key_pair ciphertext label = do
    require_init p
    id ←
        try_call p key_import_failed
          (import_key (make_rsa_oaep_decrypt_attrs key_bits) key_pair.private_key_der)
    with_key_handle p id λ id.
        try_call p decryption_failed
          (asymmetric_decrypt id alg_rsa_oaep ciphertext (or_empty label))

  unfoldable pub rsa_pss_sign_impl : RsaKeyPair → Bytes → Exec State Bytes
  rsa_pss_sign_impl key_pair message = do
    require_init p
    id ←
        try_call p key_import_failed
          (import_key (make_rsa_pss_sign_attrs key_bits) key_pair.private_key_der)
    with_key_handle p id λ id. try_call p signing_failed (sign_message id alg_rsa_pss message)

  -- A malformed signature counts as one that does not verify.
  unfoldable pub pss_answer : Status → Exec State Bool
  pss_answer status =
      if status_eq status err_invalid_sig || status_eq status err_invalid_arg
      then pure false
      else if status_eq status status_ok
      then pure true
      else fail verification_failed

  unfoldable pub rsa_pss_verify_impl : RsaPublicKey → Bytes → Bytes → Exec State Bool
  unfolding pss_answer
  rsa_pss_verify_impl public_key message signature = do
    require_init p
    id ←
        try_call p key_import_failed
          (import_key (make_rsa_pss_verify_attrs key_bits) public_key.public_key_der)
    with_key_handle p id λ id. do
      status ← status_call p (verify_message id alg_rsa_pss message signature)
      pss_answer status
