-- ===== src/Tests/Text.antt =====
-- A text of cli_base64.hpp, there and back.
use claude_crypto.Base.{◌≡◌, [], ◌∷◌, some, refl, arith}
use claude_crypto.Base64.{base64_encode, base64_decode}
use claude_crypto.Base64.RoundTrip.{base64_decode-base64_encode}

-- "Manh" is "TWFuaA==".
encode_run : base64_encode (77 ∷ 97 ∷ 110 ∷ 104 ∷ []) ≡ 84 ∷ 87 ∷ 70 ∷ 117 ∷ 97 ∷ 65 ∷ 61 ∷ 61 ∷ []
unfolding base64_encode
encode_run = refl

base64_decode-base64_encode_example :
    base64_decode (base64_encode (77 ∷ 97 ∷ 110 ∷ 104 ∷ [])) ≡ some (77 ∷ 97 ∷ 110 ∷ 104 ∷ [])
base64_decode-base64_encode_example =
    base64_decode-base64_encode (77 ∷ 97 ∷ 110 ∷ 104 ∷ [])
      (omega arith, (omega arith, (omega arith, (omega arith, tt)))) (omega arith)
