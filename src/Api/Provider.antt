-- ===== src/Api/Provider.antt =====
-- safe-crypto-lib/crypto_provider.hpp: the `CryptoProvider` concept as a record, and
-- `PsaKeyHandle`, which destroys its key at the end of its scope.
use claude_crypto.Base.{ℕ, Bool, Option, none, some, [], if◌then◌else◌}
use claude_crypto.Api.Result.{Bytes, CryptoErrorCode, init_failed, Expected, ok, unexpected, Exec}

-- safe-crypto-lib/sha_variant.hpp
pub data ShaVariant : Type 0 where
  sha256 sha384 sha512 sha3_256 sha3_384 sha3_512 : ShaVariant

unfoldable pub sha_output_size : ShaVariant → ℕ
sha_output_size sha256 = 32
sha_output_size sha384 = 48
sha_output_size sha512 = 64
sha_output_size sha3_256 = 32
sha_output_size sha3_384 = 48
sha_output_size sha3_512 = 64

-- safe-crypto-lib/ml_kem_variant.hpp
pub data MlKemVariant : Type 0 where
  kem512 kem768 kem1024 : MlKemVariant

-- safe-crypto-lib/slh_dsa_variant.hpp
pub data SlhDsaVariant : Type 0 where
  sha2_128s sha2_128f sha2_192s sha2_192f sha2_256s sha2_256f : SlhDsaVariant

-- safe-crypto-lib/ml_dsa_variant.hpp
pub data MlDsaVariant : Type 0 where
  dsa44 dsa65 dsa87 : MlDsaVariant

pub record KemEncapsulateResult : Type 0 where
  pub ciphertext : Bytes
  pub shared_secret : Bytes

-- The part of the concept that the modelled operations use; each call reads and writes the
-- provider's state.
pub record CryptoProvider : Type 1 where
  pub State : Type 0
  pub Status : Type 0
  pub KeyId : Type 0
  pub Algorithm : Type 0
  pub KeyAttributes : Type 0
  pub status_eq : Status → Status → Bool
  pub status_ok : Status
  pub err_invalid_sig : Status
  pub err_invalid_arg : Status
  pub alg_sha : ShaVariant → Algorithm
  pub alg_hmac : ShaVariant → Algorithm
  pub alg_ecdsa : Algorithm
  pub alg_ecdh : Algorithm
  pub alg_aes_gcm : Algorithm
  pub alg_chacha20_poly1305 : Algorithm
  pub alg_rsa_oaep : Algorithm
  pub alg_rsa_pss : Algorithm
  pub alg_slh_dsa : SlhDsaVariant → Algorithm
  pub alg_ml_dsa : MlDsaVariant → Algorithm
  pub alg_ml_kem : MlKemVariant → Algorithm
  pub make_hmac_generate_attrs : ShaVariant → ℕ → KeyAttributes
  pub make_hmac_verify_attrs : ShaVariant → ℕ → KeyAttributes
  pub make_ecdsa_generate_attrs : ℕ → KeyAttributes
  pub make_ecdsa_sign_attrs : ℕ → KeyAttributes
  pub make_ecdsa_verify_attrs : ℕ → KeyAttributes
  pub make_ecdh_generate_attrs : ℕ → KeyAttributes
  pub make_ecdh_agree_attrs : ℕ → KeyAttributes
  pub make_aes256_gcm_encrypt_attrs : KeyAttributes
  pub make_aes256_gcm_decrypt_attrs : KeyAttributes
  pub make_chacha20_poly1305_encrypt_attrs : KeyAttributes
  pub make_chacha20_poly1305_decrypt_attrs : KeyAttributes
  pub make_rsa_key_pair_attrs : ℕ → KeyAttributes
  pub make_rsa_oaep_encrypt_attrs : ℕ → KeyAttributes
  pub make_rsa_oaep_decrypt_attrs : ℕ → KeyAttributes
  pub make_rsa_pss_sign_attrs : ℕ → KeyAttributes
  pub make_rsa_pss_verify_attrs : ℕ → KeyAttributes
  pub make_slh_dsa_sign_attrs : SlhDsaVariant → KeyAttributes
  pub make_slh_dsa_verify_attrs : SlhDsaVariant → KeyAttributes
  pub make_slh_dsa_generate_attrs : SlhDsaVariant → KeyAttributes
  pub make_ml_dsa_sign_attrs : MlDsaVariant → KeyAttributes
  pub make_ml_dsa_verify_attrs : MlDsaVariant → KeyAttributes
  pub make_ml_dsa_generate_attrs : MlDsaVariant → KeyAttributes
  pub make_ml_kem_generate_attrs : MlKemVariant → KeyAttributes
  pub make_ml_kem_encap_attrs : MlKemVariant → KeyAttributes
  pub make_ml_kem_decap_attrs : MlKemVariant → KeyAttributes
  pub crypto_init : State → Status × State
  pub generate_random : ℕ → State → Expected Status Bytes × State
  pub import_key : KeyAttributes → Bytes → State → Expected Status KeyId × State
  pub generate_key : KeyAttributes → State → Expected Status KeyId × State
  pub destroy_key : KeyId → State → Status × State
  pub export_key : KeyId → State → Expected Status Bytes × State
  pub export_public_key : KeyId → State → Expected Status Bytes × State
  pub sign_message : KeyId → Algorithm → Bytes → State → Expected Status Bytes × State
  pub verify_message : KeyId → Algorithm → Bytes → Bytes → State → Status × State
  pub mac_compute : KeyId → Algorithm → Bytes → State → Expected Status Bytes × State
  pub mac_verify : KeyId → Algorithm → Bytes → Bytes → State → Status × State
  -- key, algorithm, nonce, additional data, text
  pub aead_encrypt :
      KeyId → Algorithm → Bytes → Bytes → Bytes → State → Expected Status Bytes × State
  pub aead_decrypt :
      KeyId → Algorithm → Bytes → Bytes → Bytes → State → Expected Status Bytes × State
  -- key, algorithm, text, label
  pub asymmetric_encrypt : KeyId → Algorithm → Bytes → Bytes → State → Expected Status Bytes × State
  pub asymmetric_decrypt : KeyId → Algorithm → Bytes → Bytes → State → Expected Status Bytes × State
  pub raw_key_agreement : Algorithm → KeyId → Bytes → State → Expected Status Bytes × State
  pub kem_encapsulate : KeyId → Algorithm → State → Expected Status KemEncapsulateResult × State
  pub kem_decapsulate : KeyId → Algorithm → Bytes → State → Expected Status Bytes × State
  pub hash_compute : Algorithm → Bytes → State → Expected Status Bytes × State
  -- keying material, salt, info, output length, expand only
  pub hkdf_derive : Bytes → Bytes → Bytes → ℕ → Bool → State → Expected Status Bytes × State

-- A `std::optional` input that is absent is passed on as an empty span.
abbrev pub or_empty : Option Bytes → Bytes
or_empty none = []
or_empty (some b) = b

module _ (p : CryptoProvider) where
  open p use {State, Status, KeyId, status_eq, status_ok, crypto_init, destroy_key}

  -- `if (Provider::crypto_init() != Provider::ok) return InitFailed`
  unfoldable pub require_init : Exec State (Unit {0})
  require_init s =
      let (status, t) = crypto_init s in
      if status_eq status status_ok then (ok tt, t) else (unexpected init_failed, t)

  -- `if (!result.has_value()) return code`
  pub or_code : {A : Type 0} → CryptoErrorCode → Expected Status A → Expected CryptoErrorCode A
  or_code c (ok a) = ok a
  or_code c (unexpected status) = unexpected c

  -- A call whose failure is reported under `code`.
  unfoldable pub try_call :
      {A : Type 0} → CryptoErrorCode → (State → Expected Status A × State) → Exec State A
  unfolding or_code
  try_call c call s = let (r, t) = call s in (or_code c r, t)

  -- A call that answers with a status alone.
  unfoldable pub status_call : (State → Status × State) → Exec State Status
  status_call call s = let (status, t) = call s in (ok status, t)

  -- A scope that holds a `PsaKeyHandle`: whatever way it ends, the destructor destroys the key.
  unfoldable pub with_key_handle : {A : Type 0} → KeyId → (KeyId → Exec State A) → Exec State A
  with_key_handle id body s = let (r, t) = body id s in (r, (destroy_key id t).1)
