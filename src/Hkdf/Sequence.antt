-- ===== src/Hkdf/Sequence.antt =====
-- providers/arm_asm/hkdf.hpp: the calls of a derivation in sequence.
use claude_crypto.Base.{ℕ, true, Option, [], ◌∷◌, replicate}
use claude_crypto.Base.Options.{◌>>=◌}
use claude_crypto.Api.Result.{Bytes}
use claude_crypto.Hkdf.{
  hkdf_hash_len, HkdfAlg, hkdf, HkdfState, info_set_phase, hkdf_setup, hkdf_input_key,
  hkdf_input_bytes,
}

-- The operation after the salt, the key and the info were given to it.
abbrev pub given : HkdfAlg → Bytes → ℕ → Bytes → HkdfState → Option HkdfState
given alg salt id info op =
    hkdf_input_bytes 0 salt (hkdf_setup alg op)
    >>= (λ (s : HkdfState). hkdf_input_key id s >>= (λ (k : HkdfState). hkdf_input_bytes 1 info k))

-- RFC 5869: an empty salt stands for zeros of the length of a hash.
abbrev pub extracted : (Bytes → Bytes → Bytes) → Bytes → Bytes → Bytes
extracted hmac [] ikm = hmac (replicate hkdf_hash_len 0) ikm
extracted hmac (b ∷ salt) ikm = hmac (b ∷ salt) ikm

abbrev given_state : Bytes → ℕ → Bytes → HkdfState
given_state salt id info = record {
  alg = hkdf;
  phase = info_set_phase;
  key_id = id;
  salt = salt;
  salt_set = true;
  info = info;
}
