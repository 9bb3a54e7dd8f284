-- ===== src/Api/Mac.antt =====
-- safe-crypto-lib/mac.hpp
use claude_crypto.Base.{◌*◌, Bool, true, false, take, length, ltb, if◌then◌else◌}
use claude_crypto.Api.Result.{
  Bytes, invalid_argument, key_import_failed, mac_generation_failed, verification_failed, Exec,
  pure, fail, ◌>>=◌, ◌>>◌,
}
use claude_crypto.Api.Provider.{
  CryptoProvider, ShaVariant, sha_output_size, require_init, try_call, status_call, with_key_handle,
}

module _ (p : CryptoProvider) where
  open p use {
    State, Status, status_eq, status_ok, err_invalid_sig, alg_hmac, make_hmac_generate_attrs,
    make_hmac_verify_attrs, import_key, mac_compute, mac_verify,
  }

  unfoldable pub hmac_generate_with : ShaVariant → Bytes → Bytes → Exec State Bytes
  hmac_generate_with v key message = do
    require_init p
    id ← try_call p key_import_failed (import_key (make_hmac_generate_attrs v (length key * 8)) key)
    with_key_handle p id λ id. do
      result ← try_call p mac_generation_failed (mac_compute id (alg_hmac v) message)
      pure (take (sha_output_size v) result)

  unfoldable pub hmac_generate_impl : ShaVariant → Bytes → Bytes → Exec State Bytes
  unfolding hmac_generate_with
  hmac_generate_impl v key message =
      if ltb (length key) (sha_output_size v)
      then fail invalid_argument
      else hmac_generate_with v key message

  -- What the status of the verification says.
  unfoldable pub mac_answer : Status → Exec State Bool
  mac_answer status =
      if status_eq status err_invalid_sig
      then pure false
      else if status_eq status status_ok
      then pure true
      else fail verification_failed

  unfoldable pub hmac_verify_with : ShaVariant → Bytes → Bytes → Bytes → Exec State Bool
  hmac_verify_with v key message mac = do
    require_init p
    id ← try_call p key_import_failed (import_key (make_hmac_verify_attrs v (length key * 8)) key)
    with_key_handle p id
        λ id. do status ← status_call p (mac_verify id (alg_hmac v) message mac); mac_answer status

  unfoldable pub hmac_verify_impl : ShaVariant → Bytes → Bytes → Bytes → Exec State Bool
  unfolding hmac_verify_with mac_answer
  hmac_verify_impl v key message mac =
      if ltb (length key) (sha_output_size v)
      then fail invalid_argument
      else hmac_verify_with v key message mac
