-- ===== src/Tests/Der.antt =====
-- Small RSA keys of rsa_der.hpp, written and parsed back.
use claude_crypto.Base.{◌≡◌, ◌≤◌, [], ◌∷◌, length, refl, arith}
use claude_crypto.Api.Result.{Bytes}
use claude_crypto.RsaDer.{RsaPrivateKeyComponents, rsa_parse_private_key_der}
use claude_crypto.RsaDer.Encode.{
  encode_len, needs_pad, rsa_encode_public_key_der, rsa_derive_public_key_der,
}
use claude_crypto.RsaDer.RoundTrip.{
  ReadsBack, rsa_encode_public_key_der_bounds, parse-rsa_encode_public_key_der,
  parse-rsa_derive_public_key_der,
}

abbrev modulus : Bytes
modulus = 0xc5 ∷ 0x01 ∷ []

abbrev exponent : Bytes
exponent = 0x01 ∷ 0x00 ∷ 0x01 ∷ []

abbrev public_der : Bytes
public_der =
    0x30 ∷ 30 ∷ 0x30 ∷ 13 ∷ 0x06 ∷ 0x09 ∷ 0x2a ∷ 0x86 ∷ 0x48 ∷ 0x86 ∷ 0xf7 ∷ 0x0d ∷ 0x01 ∷ 0x01
    ∷ 0x01 ∷ 0x05 ∷ 0x00 ∷ 0x03 ∷ 13 ∷ 0x00 ∷ 0x30 ∷ 10 ∷ 0x02 ∷ 3 ∷ 0x00 ∷ 0xc5 ∷ 0x01 ∷ 0x02 ∷ 3
    ∷ 0x01 ∷ 0x00 ∷ 0x01 ∷ []

abbrev private_der : Bytes
private_der =
    0x30 ∷ 29 ∷ 0x02 ∷ 1 ∷ 0 ∷ 0x02 ∷ 3 ∷ 0x00 ∷ 0xc5 ∷ 0x01 ∷ 0x02 ∷ 1 ∷ 3 ∷ 0x02 ∷ 1 ∷ 4 ∷ 0x02
    ∷ 1 ∷ 5 ∷ 0x02 ∷ 1 ∷ 6 ∷ 0x02 ∷ 1 ∷ 7 ∷ 0x02 ∷ 1 ∷ 8 ∷ 0x02 ∷ 1 ∷ 9 ∷ []

abbrev private_key : RsaPrivateKeyComponents
private_key = record {
  n = modulus;
  e = 3 ∷ [];
  d = 4 ∷ [];
  p = 5 ∷ [];
  q = 6 ∷ [];
  dp = 7 ∷ [];
  dq = 8 ∷ [];
  qinv = 9 ∷ [];
}

rsa_encode_public_key_der_bounds_example : (length public_der ≡ 32) × (32 ≤ 64)
unfolding rsa_encode_public_key_der encode_len needs_pad
rsa_encode_public_key_der_bounds_example =
    rsa_encode_public_key_der_bounds modulus exponent 64 {w = public_der} {len = 32} refl

parse-rsa_encode_public_key_der_example :
    ReadsBack (rsa_encode_public_key_der modulus exponent 2048) modulus exponent
parse-rsa_encode_public_key_der_example =
    parse-rsa_encode_public_key_der modulus exponent (omega arith) (omega arith) (omega arith)
      (omega arith) 2048 (omega arith)

parse-rsa_derive_public_key_der_example :
    ReadsBack (rsa_derive_public_key_der private_der 2048) modulus (3 ∷ [])
unfolding rsa_parse_private_key_der
parse-rsa_derive_public_key_der_example =
    parse-rsa_derive_public_key_der private_der private_key 2048 refl (omega arith) (omega arith)
      (omega arith) (omega arith) (omega arith)
