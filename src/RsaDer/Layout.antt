-- ===== src/RsaDer/Layout.antt =====
-- providers/arm_asm/rsa_der.hpp: the layout of the written public keys, and how it parses.
use claude_crypto.Base.{
  ℕ, ◌+◌, ◌-◌, ◌≤◌, ◌<◌, ◌≡◌, refl, ap, inl, inr, false, Bool-cases, ltb, if◌then◌else◌, some, none,
  ◌∷◌, ◌++◌, length, length-append, arith,
}
use claude_crypto.Api.Result.{Bytes}
use claude_crypto.RsaDer.{
  rsa_max_int_bytes, read_tag, skip_value, skip_oid, skip_tlv, skip_parameters, skip_algorithm,
  parse_spki_body, parse_public_body, RsaPublicKeyComponents, rsa_parse_public_key_der,
}
use claude_crypto.RsaDer.Encode.{
  rsa_oid, der_null, encode_len, needs_pad, pad, int_content, tlv_size, write_integer,
  rsa_encode_public_key_der, rsa_encode_pkcs1_pubkey_der,
}
use claude_crypto.RsaDer.Lengths.{short-read_length}
use claude_crypto.RsaDer.Readback.{
  IsMinimal, enter_sequence_lem, enter_sequence_whole, enter_bit_string_whole, length-pad,
  read_n_e_lem,
}

pub length-encode_len : (len : ℕ) → length (encode_len len) ≤ 3
unfolding encode_len
length-encode_len len = ground arith

length-write_integer : (bytes : Bytes) → length (write_integer bytes) ≡ tlv_size (int_content bytes)
length-write_integer bytes =
    omega
      (arith, length-append (encode_len (int_content bytes)) (pad bytes ++ bytes), length-pad bytes)

abbrev pub FitsBelow : Bytes → Type 0
FitsBelow bytes = length bytes < rsa_max_int_bytes

write_integer-lt : (bytes : Bytes) → FitsBelow bytes → tlv_size (int_content bytes) < 518
write_integer-lt bytes h = elim (Bool-cases (needs_pad bytes)) [
  | inl padded ↦ rw padded (omega (arith, length-encode_len (length bytes + 1)))
  | inr bare ↦ rw bare (omega (arith, length-encode_len (length bytes + 0)))
]

-- The algorithm identifier is skipped.
skip_algorithm_lem :
    (rest : Bytes)
    → skip_algorithm (0x30 ∷ (encode_len 13 ++ (rsa_oid ++ (der_null ++ rest)))) ≡ some rest
unfolding skip_algorithm skip_oid skip_value skip_tlv skip_parameters read_tag encode_len
skip_algorithm_lem rest =
    let inner : Bytes = rsa_oid ++ (der_null ++ rest) in
    let whole : Bytes = 0x30 ∷ 13 ∷ inner in
    let entered = enter_sequence_lem 13 inner (omega arith) (omega arith) in
    let field = short-read_length 13 inner (omega arith) (omega arith) in
    let accepted : ltb (length whole) 2 ≡ false = ground arith in
    let total : (length whole - length inner) + 13 ≡ 15 = omega arith in
    let reached : ltb (length whole) 15 ≡ false = ground arith in
    rw (accepted, entered, field, total, reached)

-- The parts of the written keys, from the inside out.
module _ (n e : Bytes) where
  abbrev pub body : Bytes
  body = write_integer n ++ write_integer e

  abbrev pub body_size : ℕ
  body_size = tlv_size (int_content n) + tlv_size (int_content e)

  abbrev pub bits : Bytes
  bits = 0x30 ∷ (encode_len body_size ++ body)

  abbrev pub bits_size : ℕ
  bits_size = 1 + tlv_size body_size

  abbrev pub spki : Bytes
  spki =
      0x30
      ∷ (encode_len 13
          ++ (rsa_oid ++ (der_null ++ (0x03 ∷ (encode_len bits_size ++ (0x00 ∷ bits))))))

  abbrev pub spki_size : ℕ
  spki_size = tlv_size 13 + tlv_size bits_size

  pub length-body : length body ≡ body_size
  length-body = omega (
    arith,
    length-append (write_integer n) (write_integer e),
    length-write_integer n,
    length-write_integer e,
  )

  length-bits : length bits + 1 ≡ bits_size
  length-bits = omega (arith, length-append (encode_len body_size) body, length-body)

  pub length-spki : length spki ≡ spki_size
  length-spki = omega (
    arith,
    length-append (encode_len 13)
        (rsa_oid ++ (der_null ++ (0x03 ∷ (encode_len bits_size ++ (0x00 ∷ bits))))),
    length-append (encode_len bits_size) (0x00 ∷ bits),
    length-bits,
  )

  pub encode_public-eq :
      (out_max : ℕ)
      → rsa_encode_public_key_der n e out_max ≡ (
          if ltb out_max (tlv_size spki_size)
          then none
          else some (0x30 ∷ (encode_len spki_size ++ spki), tlv_size spki_size))
  unfolding rsa_encode_public_key_der
  encode_public-eq out_max = refl

  pub encode_pkcs1-eq :
      (out_max : ℕ)
      → rsa_encode_pkcs1_pubkey_der n e out_max ≡ (
          if ltb out_max (tlv_size body_size)
          then none
          else some (0x30 ∷ (encode_len body_size ++ body), tlv_size body_size))
  unfolding rsa_encode_pkcs1_pubkey_der
  encode_pkcs1-eq out_max =
      let regroup : 1
            + length (encode_len (int_content n))
            + int_content n
            + 1
            + length (encode_len (int_content e))
            + int_content e
          ≡ body_size =
        omega arith in
      ap
        (λ (k : ℕ).
          if ltb out_max (1 + length (encode_len k) + k)
          then none
          else some (0x30 ∷ (encode_len k ++ body), 1 + length (encode_len k) + k))
        regroup

  module _ (hn : IsMinimal n) (he : IsMinimal e) (n_small : FitsBelow n)
      (e_small : FitsBelow e) where
    abbrev public_components : RsaPublicKeyComponents
    public_components = record { n = n; e = e }

    pub body_small : body_size < 1035
    body_small = omega (arith, write_integer-lt n n_small, write_integer-lt e e_small)

    pub spki_small : (bits_size < 1044) × (spki_size < 1062)
    spki_small = (
      omega (arith, body_small, length-encode_len body_size),
      omega (
        arith,
        body_small,
        length-encode_len body_size,
        length-encode_len bits_size,
        length-encode_len 13,
      ),
    )

    parse-body : parse_public_body body ≡ some public_components
    unfolding parse_public_body
    parse-body = read_n_e_lem n e hn he n_small e_small

    pub parse-pkcs1 :
        rsa_parse_public_key_der (0x30 ∷ (encode_len body_size ++ body)) ≡ some public_components
    unfolding rsa_parse_public_key_der
    parse-pkcs1 =
        rw (enter_sequence_whole body_size body (omega (arith, body_small)) length-body) parse-body

    parse-spki_body : parse_public_body spki ≡ some public_components
    unfolding parse_public_body parse_spki_body
    parse-spki_body =
        rw
          (
            skip_algorithm_lem (0x03 ∷ (encode_len bits_size ++ (0x00 ∷ bits))),
            enter_bit_string_whole bits_size bits (omega (arith, spki_small.0)) length-bits,
            enter_sequence_whole body_size body (omega (arith, body_small)) length-body,
          )
          (read_n_e_lem n e hn he n_small e_small)

    pub parse-spki :
        rsa_parse_public_key_der (0x30 ∷ (encode_len spki_size ++ spki)) ≡ some public_components
    unfolding rsa_parse_public_key_der
    parse-spki =
        rw (enter_sequence_whole spki_size spki (omega (arith, spki_small.1)) length-spki)
          parse-spki_body
