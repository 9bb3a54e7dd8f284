-- ===== src/SigmaI/Bundle.antt =====
-- safe-crypto-lib/sigma_i.hpp: the plaintext of an identity bundle, two fields with 16-bit lengths
-- and a MAC of 48 bytes. The preconditions of the serialiser are left to its callers.
pub mod RoundTrip
use claude_crypto.Base.{
  ℕ, ◌+◌, ◌*◌, ◌/◌, ◌%◌, ◌^◌, Bool, not, List, [], ◌∷◌, ◌++◌, ◌==◌, ltb, if◌then◌else◌, bit_and,
  bit_or, length, take, drop, get_or,
}
use claude_crypto.Api.Result.{Bytes, CryptoErrorCode, sigma_auth_failed, Expected, ok, unexpected}
use claude_crypto.Sigma.{sigma_mac_key_size_bytes}

pub record SigmaIBundlePlaintext : Type 0 where
  pub identity_pub : Bytes
  pub signature : Bytes
  pub mac : Bytes

-- A `uint16_t` length in two bytes, the high one first.
pub length_prefix : ℕ → Bytes
length_prefix size =
    let len = size % 2 ^ 16 in (len / 2 ^ 8) % 2 ^ 8 ∷ bit_and len 0xff % 2 ^ 8 ∷ []

unfoldable pub sigma_i_serialize_bundle : Bytes → Bytes → Bytes → Bytes
unfolding length_prefix
sigma_i_serialize_bundle identity_pub signature mac =
    length_prefix (length identity_pub)
    ++ (identity_pub ++ (length_prefix (length signature) ++ (signature ++ mac)))

-- The length that stands at `off`.
pub read_length : Bytes → ℕ → ℕ
read_length plaintext off = bit_or (get_or plaintext off 0 * 2 ^ 8) (get_or plaintext (off + 1) 0)

-- Everything behind the first length, which has been read as `pub_len`.
pub deserialize_signature : Bytes → ℕ → Expected CryptoErrorCode SigmaIBundlePlaintext
unfolding read_length
deserialize_signature plaintext pub_len =
    let sig_len = read_length plaintext (2 + pub_len) in
    let off = 2 + pub_len + 2 in
    if not (off + sig_len + sigma_mac_key_size_bytes == length plaintext)
    then unexpected sigma_auth_failed
    else ok (record {
      identity_pub = take pub_len (drop 2 plaintext);
      signature = take sig_len (drop off plaintext);
      mac = take sigma_mac_key_size_bytes (drop (off + sig_len) plaintext);
    })

unfoldable pub sigma_i_deserialize_bundle : Bytes → Expected CryptoErrorCode SigmaIBundlePlaintext
unfolding deserialize_signature
sigma_i_deserialize_bundle plaintext =
    if ltb (length plaintext) (2 + 1 + 2 + 1 + sigma_mac_key_size_bytes)
    then unexpected sigma_auth_failed
    else (let pub_len = read_length plaintext 0 in
        if ltb (length plaintext) (2 + pub_len + 2 + sigma_mac_key_size_bytes)
        then unexpected sigma_auth_failed
        else deserialize_signature plaintext pub_len)
