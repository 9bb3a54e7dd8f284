-- ===== src/Api/Kdf.antt =====
-- safe-crypto-lib/kdf.hpp
use claude_crypto.Base.{
  ℕ, ◌*◌, Bool, true, false, Option, none, some, [], length, ltb, if◌then◌else◌,
}
use claude_crypto.Api.Result.{
  Bytes, invalid_argument, key_generation_failed, key_export_failed, kdf_output_failed, Exec, pure,
  fail, ◌>>=◌, ◌>>◌,
}
use claude_crypto.Api.Provider.{CryptoProvider, or_empty, require_init, try_call, with_key_handle}
use claude_crypto.Api.Asymmetric.{RsaKeyPair}
use claude_crypto.Api.Random.{random_bytes_impl}

-- safe-crypto-lib/defs.hpp: 255 times the digest size of SHA-384.
abbrev pub hkdf_sha384_max_output_bytes : ℕ
hkdf_sha384_max_output_bytes = 255 * 48

-- Keying material is given but shorter than twice the output.
ikm_too_short : ℕ → Option Bytes → Bool
ikm_too_short output_length none = false
ikm_too_short output_length (some ikm) = ltb (length ikm) (output_length * 2)

module _ (p : CryptoProvider) where
  open p use {
    State, hkdf_derive, make_rsa_key_pair_attrs, generate_key, export_key, export_public_key,
  }

  -- Random keying material stands in for what is not given.
  ikm_or_random : ℕ → Option Bytes → Exec State Bytes
  ikm_or_random output_length none = random_bytes_impl p (output_length * 2)
  ikm_or_random output_length (some ikm) = pure ikm

  derive_key_with : ℕ → Option Bytes → Option Bytes → Option Bytes → Exec State Bytes
  derive_key_with output_length ikm salt info = do
    require_init p
    material ← ikm_or_random output_length ikm
    try_call p kdf_output_failed
        (hkdf_derive material (or_empty salt) (or_empty info) output_length false)

  unfoldable pub derive_key_impl : ℕ → Option Bytes → Option Bytes → Option Bytes → Exec State Bytes
  unfolding derive_key_with ikm_or_random ikm_too_short
  derive_key_impl output_length ikm salt info =
      if ltb hkdf_sha384_max_output_bytes output_length
      then fail invalid_argument
      else if ikm_too_short output_length ikm
      then fail invalid_argument
      else derive_key_with output_length ikm salt info

  expand_key_with : ℕ → Bytes → Option Bytes → Exec State Bytes
  expand_key_with output_length prk info = do
    require_init p
    try_call p kdf_output_failed (hkdf_derive prk [] (or_empty info) output_length true)

  unfoldable pub expand_key_impl : ℕ → Bytes → Option Bytes → Exec State Bytes
  unfolding expand_key_with
  expand_key_impl output_length prk info =
      if ltb hkdf_sha384_max_output_bytes output_length
      then fail invalid_argument
      else expand_key_with output_length prk info

  -- The argument is the number of bits, 3072 or 4096.
  unfoldable pub generate_rsa_key_impl : ℕ → Exec State RsaKeyPair
  generate_rsa_key_impl key_bits = do
    require_init p
    id ← try_call p key_generation_failed (generate_key (make_rsa_key_pair_attrs key_bits))
    with_key_handle p id λ id. do
      priv ← try_call p key_export_failed (export_key id)
      public ← try_call p key_export_failed (export_public_key id)
      pure (record { private_key_der = priv; public_key_der = public })
