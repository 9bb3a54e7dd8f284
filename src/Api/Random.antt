-- ===== src/Api/Random.antt =====
-- safe-crypto-lib/random.hpp
use claude_crypto.Base.{ℕ, take}
use claude_crypto.Api.Result.{Bytes, random_generation_failed, Exec, pure, ◌>>=◌, ◌>>◌}
use claude_crypto.Api.Provider.{CryptoProvider, require_init, try_call}

module _ (p : CryptoProvider) where
  open p use {State, generate_random}

  unfoldable pub random_bytes_impl : ℕ → Exec State Bytes
  unfolding require_init try_call
  random_bytes_impl length = do
    require_init p
    try_call p random_generation_failed (generate_random length)

  -- The first N bytes of what the provider returned are copied.
  unfoldable pub random_bytes_fixed_impl : ℕ → Exec State Bytes
  unfolding require_init try_call
  random_bytes_fixed_impl n = do
    require_init p
    result ← try_call p random_generation_failed (generate_random n)
    pure (take n result)
