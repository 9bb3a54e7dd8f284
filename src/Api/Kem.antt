-- ===== src/Api/Kem.antt =====
-- safe-crypto-lib/pqc_kem.hpp and ml_kem_variant.hpp: key encapsulation.
use claude_crypto.Base.{ℕ, not, ◌==◌, if◌then◌else◌, length}
use claude_crypto.Api.Result.{
  Bytes, invalid_argument, key_import_failed, key_export_failed, key_generation_failed,
  encapsulation_failed, decapsulation_failed, Exec, pure, fail, ◌>>=◌, ◌>>◌,
}
use claude_crypto.Api.Provider.{
  MlKemVariant, kem512, kem768, kem1024, CryptoProvider, require_init, try_call, with_key_handle,
}

unfoldable pub ml_kem_public_key_size : MlKemVariant → ℕ
ml_kem_public_key_size kem512 = 800
ml_kem_public_key_size kem768 = 1184
ml_kem_public_key_size kem1024 = 1568

unfoldable pub ml_kem_private_key_size : MlKemVariant → ℕ
ml_kem_private_key_size kem512 = 1632
ml_kem_private_key_size kem768 = 2400
ml_kem_private_key_size kem1024 = 3168

unfoldable pub ml_kem_ciphertext_size : MlKemVariant → ℕ
ml_kem_ciphertext_size kem512 = 768
ml_kem_ciphertext_size kem768 = 1088
ml_kem_ciphertext_size kem1024 = 1568

pub record MlKemKeyPair : Type 0 where
  pub private_key : Bytes
  pub public_key : Bytes

pub record MlKemPublicKey : Type 0 where
  pub public_key : Bytes

pub record MlKemEncapResult : Type 0 where
  pub ciphertext : Bytes
  pub shared_secret : Bytes

module _ (p : CryptoProvider) (v : MlKemVariant) where
  open p use {
    State, alg_ml_kem, make_ml_kem_generate_attrs, make_ml_kem_encap_attrs, make_ml_kem_decap_attrs,
    import_key, generate_key, export_key, export_public_key, kem_encapsulate, kem_decapsulate,
  }

  unfoldable pub ml_kem_generate_key_impl : Exec State MlKemKeyPair
  ml_kem_generate_key_impl = do
    require_init p
    id ← try_call p key_generation_failed (generate_key (make_ml_kem_generate_attrs v))
    with_key_handle p id λ id. do
      priv ← try_call p key_export_failed (export_key id)
      public ← try_call p key_export_failed (export_public_key id)
      pure (record { private_key = priv; public_key = public })

  ml_kem_encapsulate_with : MlKemPublicKey → Exec State MlKemEncapResult
  ml_kem_encapsulate_with public_key = do
    require_init p
    id ← try_call p key_import_failed (import_key (make_ml_kem_encap_attrs v) public_key.public_key)
    with_key_handle p id λ id. do
      sent ← try_call p encapsulation_failed (kem_encapsulate id (alg_ml_kem v))
      pure (record { ciphertext = sent.ciphertext; shared_secret = sent.shared_secret })

  unfoldable pub ml_kem_encapsulate_impl : MlKemPublicKey → Exec State MlKemEncapResult
  unfolding ml_kem_encapsulate_with
  ml_kem_encapsulate_impl public_key =
      if not (length public_key.public_key == ml_kem_public_key_size v)
      then fail invalid_argument
      else ml_kem_encapsulate_with public_key

  ml_kem_decapsulate_with : MlKemKeyPair → Bytes → Exec State Bytes
  ml_kem_decapsulate_with key_pair ciphertext = do
    require_init p
    id ← try_call p key_import_failed (import_key (make_ml_kem_decap_attrs v) key_pair.private_key)
    with_key_handle p id
        λ id. try_call p decapsulation_failed (kem_decapsulate id (alg_ml_kem v) ciphertext)

  unfoldable pub ml_kem_decapsulate_impl : MlKemKeyPair → Bytes → Exec State Bytes
  unfolding ml_kem_decapsulate_with
  ml_kem_decapsulate_impl key_pair ciphertext =
      if not (length key_pair.private_key == ml_kem_private_key_size v)
      then fail invalid_argument
      else if not (length ciphertext == ml_kem_ciphertext_size v)
      then fail invalid_argument
      else ml_kem_decapsulate_with key_pair ciphertext
