-- ===== src/RsaDer/RoundTrip.antt =====
-- providers/arm_asm/rsa_der.hpp: public keys, written and parsed back.
use claude_crypto.Base.{
  ℕ, ◌≤◌, ◌<◌, ◌≡◌, refl, sym, ap, ◌∙◌, Bool, true, false, ltb, if◌then◌else◌, Option, some, none,
  length, ◌∷◌, ◌++◌, length-append, arith,
}
use claude_crypto.Api.Result.{Bytes}
use claude_crypto.RsaDer.{
  RsaPrivateKeyComponents, rsa_parse_public_key_der, rsa_parse_private_key_der,
}
use claude_crypto.RsaDer.Encode.{
  encode_len, tlv_size, rsa_encode_public_key_der, rsa_derive_public_key_der,
  rsa_encode_pkcs1_pubkey_der,
}
use claude_crypto.RsaDer.Readback.{IsMinimal}
use claude_crypto.RsaDer.Layout.{
  FitsBelow, body, body_size, spki, spki_size, length-spki, length-encode_len, encode_public-eq,
  encode_pkcs1-eq, body_small, spki_small, parse-pkcs1, parse-spki,
}

-- A written key that parses back to `n` and `e`.
abbrev pub ReadsBack : Option (Bytes × ℕ) → Bytes → Bytes → Type 0
ReadsBack written n e =
    (w : Bytes) × (len : ℕ) × (written ≡ some (w, len))
    × (rsa_parse_public_key_der w ≡ some (record { n = n; e = e }))

module _ (n e : Bytes) where
  abbrev public_key : Bytes
  public_key = 0x30 ∷ (encode_len (spki_size n e) ++ spki n e)

  abbrev pkcs1_key : Bytes
  pkcs1_key = 0x30 ∷ (encode_len (body_size n e) ++ body n e)

  -- As `encode_public-eq`, by cases on the room.
  public_room :
      (out_max : ℕ)
      → (¬ (out_max < tlv_size (spki_size n e)))
      → rsa_encode_public_key_der n e out_max ≡ some (public_key, tlv_size (spki_size n e))
  public_room out_max room =
      let fits : ltb out_max (tlv_size (spki_size n e)) ≡ false = ground arith in
      encode_public-eq n e out_max ∙ rw fits

  pkcs1_room :
      (out_max : ℕ)
      → (¬ (out_max < tlv_size (body_size n e)))
      → rsa_encode_pkcs1_pubkey_der n e out_max ≡ some (pkcs1_key, tlv_size (body_size n e))
  pkcs1_room out_max room =
      let fits : ltb out_max (tlv_size (body_size n e)) ≡ false = ground arith in
      encode_pkcs1-eq n e out_max ∙ rw fits

  length-public_key : length public_key ≡ tlv_size (spki_size n e)
  length-public_key =
      omega (arith, length-append (encode_len (spki_size n e)) (spki n e), length-spki n e)

-- Where rsa_encode_public_key_der succeeds, the number of bytes written is the length that it
-- reports, and at most the size of the buffer.
pub rsa_encode_public_key_der_bounds :
    (n e : Bytes) (out_max : ℕ) {w : Bytes} {len : ℕ}
    → rsa_encode_public_key_der n e out_max ≡ some (w, len)
    → (length w ≡ len) × (len ≤ out_max)
rsa_encode_public_key_der_bounds n e out_max {w} {len} h =
    written (ltb out_max (tlv_size (spki_size n e))) refl (sym (encode_public-eq n e out_max) ∙ h)
  where
    written :
        (short : Bool)
        → ltb out_max (tlv_size (spki_size n e)) ≡ short
        → (if◌then◌else◌ {A = Option (Bytes × ℕ)} short none
            (some (public_key n e, tlv_size (spki_size n e))))
          ≡ some (w, len)
        → (length w ≡ len) × (len ≤ out_max)
    written true room made = cc made
    written false room made =
        let whole : public_key n e ≡ w = cc made in
        let size : tlv_size (spki_size n e) ≡ len = cc made in
        let fits : tlv_size (spki_size n e) ≤ out_max = ground arith in
        (ap length (sym whole) ∙ length-public_key n e ∙ size, omega (arith, fits, size))

module _ (n e : Bytes) (hn : IsMinimal n) (he : IsMinimal e) (n_small : FitsBelow n)
    (e_small : FitsBelow e) (out_max : ℕ) where
  -- For n and e of at most 512 bytes each, neither empty nor with a leading zero byte, and a
  -- buffer of at least 1066 bytes: rsa_encode_public_key_der succeeds, and
  -- rsa_parse_public_key_der reads n and e back from what it wrote.
  pub parse-rsa_encode_public_key_der :
      1066 ≤ out_max → ReadsBack (rsa_encode_public_key_der n e out_max) n e
  parse-rsa_encode_public_key_der room =
      let small = spki_small n e hn he n_small e_small in
      (
        public_key n e,
        tlv_size (spki_size n e),
        public_room n e out_max (omega (arith, small.1, length-encode_len (spki_size n e))),
        parse-spki n e hn he n_small e_small,
      )

  -- For n and e of at most 512 bytes each, neither empty nor with a leading zero byte, and a
  -- buffer of at least 1039 bytes: rsa_encode_pkcs1_pubkey_der succeeds, and
  -- rsa_parse_public_key_der reads n and e back from what it wrote.
  pub parse-rsa_encode_pkcs1_pubkey_der :
      1039 ≤ out_max → ReadsBack (rsa_encode_pkcs1_pubkey_der n e out_max) n e
  parse-rsa_encode_pkcs1_pubkey_der room =
      let small = body_small n e hn he n_small e_small in
      (
        pkcs1_key n e,
        tlv_size (body_size n e),
        pkcs1_room n e out_max (omega (arith, small, length-encode_len (body_size n e))),
        parse-pkcs1 n e hn he n_small e_small,
      )

-- Where rsa_parse_private_key_der reads a private key whose n and e have at most 512 bytes and no
-- leading zero byte, and the buffer has at least 1066 bytes: rsa_derive_public_key_der succeeds,
-- and rsa_parse_public_key_der reads from what it wrote the n and e of the private key.
pub parse-rsa_derive_public_key_der :
    (priv_der : Bytes) (priv : RsaPrivateKeyComponents) (out_max : ℕ)
    → rsa_parse_private_key_der priv_der ≡ some priv
    → IsMinimal priv.n
    → IsMinimal priv.e
    → FitsBelow priv.n
    → FitsBelow priv.e
    → 1066 ≤ out_max
    → ReadsBack (rsa_derive_public_key_der priv_der out_max) priv.n priv.e
unfolding rsa_derive_public_key_der
parse-rsa_derive_public_key_der priv_der priv out_max parsed hn he n_small e_small room =
    rw parsed (parse-rsa_encode_public_key_der priv.n priv.e hn he n_small e_small out_max room)
