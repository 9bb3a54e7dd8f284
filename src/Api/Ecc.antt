-- ===== src/Api/Ecc.antt =====
-- safe-crypto-lib/ecc.hpp
use claude_crypto.Base.{ℕ, Bool, true, false, ◌||◌, if◌then◌else◌}
use claude_crypto.Api.Result.{
  Bytes, key_import_failed, key_export_failed, key_generation_failed, signing_failed,
  verification_failed, Exec, pure, fail, ◌>>=◌, ◌>>◌,
}
use claude_crypto.Api.Provider.{
  CryptoProvider, require_init, try_call, status_call, with_key_handle,
}

pub data EcCurve : Type 0 where
  p256 p384 p521 : EcCurve

unfoldable pub ec_curve_key_bits : EcCurve → ℕ
ec_curve_key_bits p256 = 256
ec_curve_key_bits p384 = 384
ec_curve_key_bits p521 = 521

pub record EcPublicKey : Type 0 where
  pub public_key_der : Bytes

pub record EccKeyPair : Type 0 where
  pub private_key_der : Bytes
  pub public_key_der : Bytes

module _ (p : CryptoProvider) (curve : EcCurve) where
  open p use {
    State, Status, status_eq, status_ok, err_invalid_sig, err_invalid_arg, alg_ecdsa,
    make_ecdsa_generate_attrs, make_ecdsa_sign_attrs, make_ecdsa_verify_attrs, import_key,
    generate_key, export_key, export_public_key, sign_message, verify_message,
  }

  unfoldable pub ecdsa_generate_key_impl : Exec State EccKeyPair
  ecdsa_generate_key_impl = do
    require_init p
    id ←
        try_call p key_generation_failed
          (generate_key (make_ecdsa_generate_attrs (ec_curve_key_bits curve)))
    with_key_handle p id λ id. do
      priv ← try_call p key_export_failed (export_key id)
      public ← try_call p key_export_failed (export_public_key id)
      pure (record { private_key_der = priv; public_key_der = public })

  unfoldable pub ecdsa_sign_impl : EccKeyPair → Bytes → Exec State Bytes
  ecdsa_sign_impl key_pair message = do
    require_init p
    id ←
        try_call p key_import_failed
          (import_key (make_ecdsa_sign_attrs (ec_curve_key_bits curve)) key_pair.private_key_der)
    with_key_handle p id λ id. try_call p signing_failed (sign_message id alg_ecdsa message)

  -- A malformed signature counts as one that does not verify.
  unfoldable pub signature_answer : Status → Exec State Bool
  signature_answer status =
      if status_eq status err_invalid_sig || status_eq status err_invalid_arg
      then pure false
      else if status_eq status status_ok
      then pure true
      else fail verification_failed

  unfoldable pub ecdsa_verify_impl : EcPublicKey → Bytes → Bytes → Exec State Bool
  unfolding signature_answer
  ecdsa_verify_impl public_key message signature = do
    require_init p
    id ←
        try_call p key_import_failed
          (import_key (make_ecdsa_verify_attrs (ec_curve_key_bits curve)) public_key.public_key_der)
    with_key_handle p id λ id. do
      status ← status_call p (verify_message id alg_ecdsa message signature)
      signature_answer status
