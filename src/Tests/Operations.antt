-- ===== src/Tests/Operations.antt =====
-- The operations on the toy provider.
use claude_crypto.Base.{◌≡◌, [], ◌∷◌, refl, replicate, true}
use claude_crypto.Api.Result.{ok, ◌>>=◌}
use claude_crypto.Api.Provider.{
  sha384, sha_output_size, require_init, try_call, status_call, with_key_handle,
}
use claude_crypto.Api.Mac.{hmac_verify_impl}
use claude_crypto.Api.Ecc.{p256, ecdsa_verify_impl}
use claude_crypto.Api.Success.Outcomes.{hmac_verify_impl-true, ecdsa_verify_impl-true}
use claude_crypto.Tests.Toy.{toy, toy_laws}

-- 48 times 35, and 14, modulo 256.
mac_run :
    hmac_verify_impl toy sha384 (replicate 48 35) (4 ∷ 10 ∷ []) (replicate 48 158) []
    ≡ (ok true, [])
unfolding hmac_verify_impl require_init try_call status_call with_key_handle sha_output_size ◌>>=◌
mac_run = refl

signature_run :
    ecdsa_verify_impl toy p256 (record { public_key_der = 4 ∷ 10 ∷ [] }) (22 ∷ []) (40 ∷ []) []
    ≡ (ok true, [])
unfolding ecdsa_verify_impl require_init try_call status_call with_key_handle ◌>>=◌
signature_run = refl

hmac_verify_impl-true_example :
    toy_laws.MacVerifies sha384 (replicate 48 35) (4 ∷ 10 ∷ []) (replicate 48 158)
hmac_verify_impl-true_example =
    hmac_verify_impl-true toy toy_laws sha384 (replicate 48 35) (4 ∷ 10 ∷ []) (replicate 48 158) []
      mac_run

ecdsa_verify_impl-true_example : toy_laws.SigVerifies (4 ∷ 10 ∷ []) (22 ∷ []) (40 ∷ [])
ecdsa_verify_impl-true_example =
    ecdsa_verify_impl-true toy toy_laws p256 (record { public_key_der = 4 ∷ 10 ∷ [] }) (22 ∷ [])
      (40 ∷ []) [] signature_run
