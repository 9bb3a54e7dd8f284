-- ===== src/Api/Dsa.antt =====
-- safe-crypto-lib/pqc_dsa.hpp, slh_dsa_variant.hpp and ml_dsa_variant.hpp: the post-quantum
-- signatures.
use claude_crypto.Base.{ℕ, Bool, true, false, not, ◌==◌, if◌then◌else◌, length}
use claude_crypto.Api.Result.{
  Bytes, invalid_argument, key_import_failed, key_export_failed, key_generation_failed,
  signing_failed, verification_failed, Exec, pure, fail, ◌>>=◌, ◌>>◌,
}
use claude_crypto.Api.Provider.{
  SlhDsaVariant, sha2_128s, sha2_128f, sha2_192s, sha2_192f, sha2_256s, sha2_256f, MlDsaVariant,
  dsa44, dsa65, dsa87, CryptoProvider, require_init, try_call, status_call, with_key_handle,
}

unfoldable pub slh_dsa_private_key_size : SlhDsaVariant → ℕ
slh_dsa_private_key_size sha2_128s = 64
slh_dsa_private_key_size sha2_128f = 64
slh_dsa_private_key_size sha2_192s = 96
slh_dsa_private_key_size sha2_192f = 96
slh_dsa_private_key_size sha2_256s = 128
slh_dsa_private_key_size sha2_256f = 128

unfoldable pub slh_dsa_public_key_size : SlhDsaVariant → ℕ
slh_dsa_public_key_size sha2_128s = 32
slh_dsa_public_key_size sha2_128f = 32
slh_dsa_public_key_size sha2_192s = 48
slh_dsa_public_key_size sha2_192f = 48
slh_dsa_public_key_size sha2_256s = 64
slh_dsa_public_key_size sha2_256f = 64

unfoldable pub slh_dsa_signature_size : SlhDsaVariant → ℕ
slh_dsa_signature_size sha2_128s = 7856
slh_dsa_signature_size sha2_128f = 17088
slh_dsa_signature_size sha2_192s = 16224
slh_dsa_signature_size sha2_192f = 35664
slh_dsa_signature_size sha2_256s = 29792
slh_dsa_signature_size sha2_256f = 49856

unfoldable pub ml_dsa_private_key_size : MlDsaVariant → ℕ
ml_dsa_private_key_size dsa44 = 2560
ml_dsa_private_key_size dsa65 = 4032
ml_dsa_private_key_size dsa87 = 4896

unfoldable pub ml_dsa_public_key_size : MlDsaVariant → ℕ
ml_dsa_public_key_size dsa44 = 1312
ml_dsa_public_key_size dsa65 = 1952
ml_dsa_public_key_size dsa87 = 2592

unfoldable pub ml_dsa_signature_size : MlDsaVariant → ℕ
ml_dsa_signature_size dsa44 = 2420
ml_dsa_signature_size dsa65 = 3309
ml_dsa_signature_size dsa87 = 4627

pub record SlhDsaKeyPair : Type 0 where
  pub private_key : Bytes
  pub public_key : Bytes

pub record SlhDsaPublicKey : Type 0 where
  pub public_key : Bytes

pub record MlDsaKeyPair : Type 0 where
  pub private_key : Bytes
  pub public_key : Bytes

pub record MlDsaPublicKey : Type 0 where
  pub public_key : Bytes

-- Only an invalid signature counts as one that does not verify.
unfoldable pub dsa_answer : (p : CryptoProvider) → p.Status → Exec p.State Bool
dsa_answer p status =
    if p.status_eq status p.err_invalid_sig
    then pure false
    else if not (p.status_eq status p.status_ok)
    then fail verification_failed
    else pure true

module _ (p : CryptoProvider) (v : SlhDsaVariant) where
  open p use {
    State, alg_slh_dsa, make_slh_dsa_generate_attrs, make_slh_dsa_sign_attrs,
    make_slh_dsa_verify_attrs, import_key, generate_key, export_key, export_public_key,
    sign_message, verify_message,
  }

  unfoldable pub slh_dsa_generate_key_impl : Exec State SlhDsaKeyPair
  slh_dsa_generate_key_impl = do
    require_init p
    id ← try_call p key_generation_failed (generate_key (make_slh_dsa_generate_attrs v))
    with_key_handle p id λ id. do
      priv ← try_call p key_export_failed (export_key id)
      public ← try_call p key_export_failed (export_public_key id)
      pure (record { private_key = priv; public_key = public })

  slh_dsa_sign_with : SlhDsaKeyPair → Bytes → Exec State Bytes
  slh_dsa_sign_with key_pair message = do
    require_init p
    id ← try_call p key_import_failed (import_key (make_slh_dsa_sign_attrs v) key_pair.private_key)
    with_key_handle p id λ id. try_call p signing_failed (sign_message id (alg_slh_dsa v) message)

  unfoldable pub slh_dsa_sign_impl : SlhDsaKeyPair → Bytes → Exec State Bytes
  unfolding slh_dsa_sign_with
  slh_dsa_sign_impl key_pair message =
      if not (length key_pair.private_key == slh_dsa_private_key_size v)
      then fail invalid_argument
      else slh_dsa_sign_with key_pair message

  slh_dsa_verify_with : SlhDsaPublicKey → Bytes → Bytes → Exec State Bool
  unfolding dsa_answer
  slh_dsa_verify_with public_key message signature = do
    require_init p
    id ←
        try_call p key_import_failed
          (import_key (make_slh_dsa_verify_attrs v) public_key.public_key)
    with_key_handle p id λ id. do
      status ← status_call p (verify_message id (alg_slh_dsa v) message signature)
      dsa_answer p status

  unfoldable pub slh_dsa_verify_impl : SlhDsaPublicKey → Bytes → Bytes → Exec State Bool
  unfolding slh_dsa_verify_with
  slh_dsa_verify_impl public_key message signature =
      if not (length public_key.public_key == slh_dsa_public_key_size v)
      then fail invalid_argument
      else if not (length signature == slh_dsa_signature_size v)
      then fail invalid_argument
      else slh_dsa_verify_with public_key message signature

module _ (p : CryptoProvider) (v : MlDsaVariant) where
  open p use {
    State, alg_ml_dsa, make_ml_dsa_generate_attrs, make_ml_dsa_sign_attrs, make_ml_dsa_verify_attrs,
    import_key, generate_key, export_key, export_public_key, sign_message, verify_message,
  }

  unfoldable pub ml_dsa_generate_key_impl : Exec State MlDsaKeyPair
  ml_dsa_generate_key_impl = do
    require_init p
    id ← try_call p key_generation_failed (generate_key (make_ml_dsa_generate_attrs v))
    with_key_handle p id λ id. do
      priv ← try_call p key_export_failed (export_key id)
      public ← try_call p key_export_failed (export_public_key id)
      pure (record { private_key = priv; public_key = public })

  ml_dsa_sign_with : MlDsaKeyPair → Bytes → Exec State Bytes
  ml_dsa_sign_with key_pair message = do
    require_init p
    id ← try_call p key_import_failed (import_key (make_ml_dsa_sign_attrs v) key_pair.private_key)
    with_key_handle p id λ id. try_call p signing_failed (sign_message id (alg_ml_dsa v) message)

  unfoldable pub ml_dsa_sign_impl : MlDsaKeyPair → Bytes → Exec State Bytes
  unfolding ml_dsa_sign_with
  ml_dsa_sign_impl key_pair message =
      if not (length key_pair.private_key == ml_dsa_private_key_size v)
      then fail invalid_argument
      else ml_dsa_sign_with key_pair message

  ml_dsa_verify_with : MlDsaPublicKey → Bytes → Bytes → Exec State Bool
  unfolding dsa_answer
  ml_dsa_verify_with public_key message signature = do
    require_init p
    id ←
        try_call p key_import_failed (import_key (make_ml_dsa_verify_attrs v) public_key.public_key)
    with_key_handle p id λ id. do
      status ← status_call p (verify_message id (alg_ml_dsa v) message signature)
      dsa_answer p status

  unfoldable pub ml_dsa_verify_impl : MlDsaPublicKey → Bytes → Bytes → Exec State Bool
  unfolding ml_dsa_verify_with
  ml_dsa_verify_impl public_key message signature =
      if not (length public_key.public_key == ml_dsa_public_key_size v)
      then fail invalid_argument
      else if not (length signature == ml_dsa_signature_size v)
      then fail invalid_argument
      else ml_dsa_verify_with public_key message signature
