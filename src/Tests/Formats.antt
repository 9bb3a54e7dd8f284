-- ===== src/Tests/Formats.antt =====
-- A bundle of sigma_i.hpp, there and back.
use claude_crypto.Base.{◌≡◌, [], ◌∷◌, refl, replicate, arith}
use claude_crypto.Api.Result.{ok}
use claude_crypto.SigmaI.Bundle.{sigma_i_serialize_bundle, sigma_i_deserialize_bundle}
use claude_crypto.SigmaI.Bundle.RoundTrip.{deserialize-serialize}

deserialize-serialize_example :
    sigma_i_deserialize_bundle
      (sigma_i_serialize_bundle (replicate 300 4) (48 ∷ 6 ∷ []) (replicate 48 1))
    ≡ ok (record { identity_pub = replicate 300 4; signature = 48 ∷ 6 ∷ []; mac = replicate 48 1 })
deserialize-serialize_example =
    deserialize-serialize (replicate 300 4) (48 ∷ 6 ∷ []) (replicate 48 1) (omega arith)
      (omega arith) refl (omega arith)
