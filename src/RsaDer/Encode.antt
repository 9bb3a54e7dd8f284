-- ===== src/RsaDer/Encode.antt =====
-- providers/arm_asm/rsa_der.hpp: the DER writers for public keys. What is written comes with
-- `*out_len`.
use claude_crypto.Base.{
  ℕ, ◌+◌, ◌/◌, ◌%◌, ◌^◌, bit_and, Bool, false, not, if◌then◌else◌, ◌==◌, ltb, Option, none, some,
  [], ◌∷◌, ◌++◌, length,
}
use claude_crypto.Base.Options.{◌>>=◌}
use claude_crypto.Api.Result.{Bytes}
use claude_crypto.RsaDer.{der_sequence_tag, der_msb_flag, rsa_parse_private_key_der}

abbrev pub rsa_oid : Bytes
rsa_oid = 0x06 ∷ 0x09 ∷ 0x2a ∷ 0x86 ∷ 0x48 ∷ 0x86 ∷ 0xf7 ∷ 0x0d ∷ 0x01 ∷ 0x01 ∷ 0x01 ∷ []

abbrev pub der_null : Bytes
der_null = 0x05 ∷ 0x00 ∷ []

unfoldable pub encode_len : ℕ → Bytes
encode_len len =
    if ltb len der_msb_flag
    then (len % 2 ^ 8) ∷ []
    else if ltb len 256
    then 0x81 ∷ (len % 2 ^ 8) ∷ []
    else 0x82 ∷ (len / 2 ^ 8 % 2 ^ 8) ∷ (bit_and len 0xff % 2 ^ 8) ∷ []

-- A leading zero byte keeps the sign bit clear.
unfoldable pub needs_pad : Bytes → Bool
needs_pad [] = false
needs_pad (b ∷ bytes) = not (bit_and b der_msb_flag == 0)

abbrev pub pad : Bytes → Bytes
pad bytes = if needs_pad bytes then 0x00 ∷ [] else []

-- The size of the content of an integer.
abbrev pub int_content : Bytes → ℕ
int_content bytes = length bytes + (if needs_pad bytes then 1 else 0)

-- `1 + len_field + content`
abbrev pub tlv_size : ℕ → ℕ
tlv_size content = 1 + length (encode_len content) + content

abbrev pub write_integer : Bytes → Bytes
write_integer bytes = 0x02 ∷ (encode_len (int_content bytes) ++ (pad bytes ++ bytes))

unfoldable pub rsa_encode_public_key_der : Bytes → Bytes → ℕ → Option (Bytes × ℕ)
rsa_encode_public_key_der n e out_max =
    let n_tlv = tlv_size (int_content n) in
    let e_tlv = tlv_size (int_content e) in
    let rsakey_body = n_tlv + e_tlv in
    let rsakey_seq = tlv_size rsakey_body in
    let bitstr_content = 1 + rsakey_seq in
    let bitstr_tlv = tlv_size bitstr_content in
    let algid_body = length rsa_oid + length der_null in
    let algid_seq = tlv_size algid_body in
    let spki_body = algid_seq + bitstr_tlv in
    let spki_total = tlv_size spki_body in
    if ltb out_max spki_total
    then none
    else some (
      der_sequence_tag
          ∷ (encode_len spki_body
              ++ (der_sequence_tag
                  ∷ (encode_len algid_body
                      ++ (rsa_oid
                          ++ (der_null
                              ++ (0x03
                                  ∷ (encode_len bitstr_content
                                      ++ (0x00
                                          ∷ (der_sequence_tag
                                              ∷ (encode_len rsakey_body
                                                  ++ (write_integer n ++ write_integer e))))))))))),
      spki_total,
    )

-- The key is taken from a private key.
unfoldable pub rsa_derive_public_key_der : Bytes → ℕ → Option (Bytes × ℕ)
rsa_derive_public_key_der priv_der out_max = do
  priv ← rsa_parse_private_key_der priv_der
  rsa_encode_public_key_der priv.n priv.e out_max

unfoldable pub rsa_encode_pkcs1_pubkey_der : Bytes → Bytes → ℕ → Option (Bytes × ℕ)
rsa_encode_pkcs1_pubkey_der n e out_max =
    let body =
      1
      + length (encode_len (int_content n))
      + int_content n
      + 1
      + length (encode_len (int_content e))
      + int_content e in
    let total = 1 + length (encode_len body) + body in
    if ltb out_max total
    then none
    else some (der_sequence_tag ∷ (encode_len body ++ (write_integer n ++ write_integer e)), total)
