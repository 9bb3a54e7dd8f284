-- ===== src/Hkdf/Digest.antt =====
-- providers/arm_asm/hkdf.hpp: the length of HMAC-SHA-384.
use claude_crypto.Base.{ℕ, ◌≡◌, List, length}
use claude_crypto.Api.Result.{Bytes}
use claude_crypto.Hash.{hmac_sha512_impl}
use claude_crypto.Hash.Output.{length-finish}
use claude_crypto.Hkdf.{hmac_sha384, hkdf_hash_len}

pub length-hmac_sha384 :
    (compress : List ℕ → Bytes → List ℕ)
    → ((state : List ℕ) (block : Bytes) → length (compress state block) ≡ 8)
    → (sha384_h0 : List ℕ) (key msg : Bytes)
    → length (hmac_sha384 compress sha384_h0 key msg) ≡ hkdf_hash_len
unfolding hmac_sha384 hmac_sha512_impl
length-hmac_sha384 compress eight_words sha384_h0 key msg =
    length-finish compress eight_words 128 16 _
