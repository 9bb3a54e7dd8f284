-- ===== src/Api/Ecdh.antt =====
-- safe-crypto-lib/ecdh.hpp
use claude_crypto.Api.Result.{
  Bytes, key_import_failed, key_export_failed, key_generation_failed, key_agreement_failed, Exec,
  pure, ◌>>=◌, ◌>>◌,
}
use claude_crypto.Api.Provider.{CryptoProvider, require_init, try_call, with_key_handle}
use claude_crypto.Api.Ecc.{EcCurve, ec_curve_key_bits, EccKeyPair}

module _ (p : CryptoProvider) (curve : EcCurve) where
  open p use {
    State, alg_ecdh, make_ecdh_generate_attrs, make_ecdh_agree_attrs, import_key, generate_key,
    export_key, export_public_key, raw_key_agreement,
  }

  unfoldable pub ecdh_generate_key_impl : Exec State EccKeyPair
  ecdh_generate_key_impl = do
    require_init p
    id ←
        try_call p key_generation_failed
          (generate_key (make_ecdh_generate_attrs (ec_curve_key_bits curve)))
    with_key_handle p id λ id. do
      priv ← try_call p key_export_failed (export_key id)
      public ← try_call p key_export_failed (export_public_key id)
      pure (record { private_key_der = priv; public_key_der = public })

  unfoldable pub ecdh_compute_shared_secret_impl : EccKeyPair → Bytes → Exec State Bytes
  ecdh_compute_shared_secret_impl our_key_pair peer_public_key_der = do
    require_init p
    id ←
        try_call p key_import_failed (
          import_key (make_ecdh_agree_attrs (ec_curve_key_bits curve)) our_key_pair.private_key_der)
    with_key_handle p id
        λ id. try_call p key_agreement_failed (raw_key_agreement alg_ecdh id peer_public_key_der)
