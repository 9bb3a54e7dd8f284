-- ===== src/Api/Digests.antt =====
-- safe-crypto-lib/digests.hpp
use claude_crypto.Base.{take}
use claude_crypto.Api.Result.{Bytes, digest_failed, Exec, pure, ◌>>=◌, ◌>>◌}
use claude_crypto.Api.Provider.{CryptoProvider, ShaVariant, sha_output_size, require_init, try_call}

module _ (p : CryptoProvider) where
  open p use {State, alg_sha, hash_compute}

  unfoldable pub sha_impl : ShaVariant → Bytes → Exec State Bytes
  unfolding require_init try_call sha_output_size
  sha_impl v input = do
    require_init p
    result ← try_call p digest_failed (hash_compute (alg_sha v) input)
    pure (take (sha_output_size v) result)
