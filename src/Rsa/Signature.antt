-- ===== src/Rsa/Signature.antt =====
-- providers/arm_asm/rsa.hpp: rsa_pss_verify after rsa_pss_sign.
use claude_crypto.Base.{
  ℕ, ◌-◌, ◌*◌, ◌/◌, ◌%◌, ◌^◌, ◌<◌, ◌≤◌, ◌≡◌, refl, sym, ap, ◌∙◌, true, false, ◌==◌, ==_iff, ltb,
  some, List, length, arith,
}
use claude_crypto.Api.Result.{Bytes, AreBytes}
use claude_crypto.Hash.OneShot.{sha384}
use claude_crypto.Hash.Output.{length-sha384, sha384-AreBytes}
use claude_crypto.RsaDer.{
  RsaPrivateKeyComponents, RsaPublicKeyComponents, rsa_parse_public_key_der,
  rsa_parse_private_key_der,
}
use claude_crypto.RsaPadding.{oaep_hash_len, pss_em_len, pss_top_bits, pss_encode, pss_verify}
use claude_crypto.RsaPadding.Pss.{pss_verify-pss_encode}
use claude_crypto.RsaPadding.Encoded.{pss_encode-IsBelow}
use claude_crypto.BigInt.Bytes.{rsa_public_op, rsa_private_op, be_value}
use claude_crypto.BigInt.Bytes.Operations.{rsa_private_op_lem}
use claude_crypto.BigInt.Bytes.Signing.{rsa_public_op-rsa_private_op}
use claude_crypto.BigInt.Bytes.Order.{be_value_injective}
use claude_crypto.Rsa.{rsa_dispatch_all, rsa_pss_sign, rsa_pss_verify, pss_verdict}
use claude_crypto.Rsa.KeyPair.{IsRsaKeyPair, rsa_dispatch_all_lem, pss_sizes_at, encoded_below}
use claude_crypto.Rsa.Encryption.{below_product}
use native.Mathlib.Nat.{mod-lt}

-- The bytes of an encoded message come back from its signature, which has the size of the modulus.
module _ (n : ℕ) (public_key : RsaPublicKeyComponents) (private_key : RsaPrivateKeyComponents)
    (pair : IsRsaKeyPair n public_key private_key) (em : Bytes) (bytes : AreBytes em)
    (size : length em ≡ n * 8) (below : be_value em < 2 ^ (n * 64 - 1)) where
  abbrev signed : Bytes
  signed =
      rsa_private_op n em private_key.p private_key.q private_key.dp private_key.dq private_key.qinv

  length-signed : length signed ≡ n * 8
  length-signed =
      let power : be_value em ^ be_value private_key.dq % be_value private_key.q
          < be_value private_key.q =
        mod-lt (be_value em ^ be_value private_key.dq)
          (omega (arith, pair.numbers.q_modulus.big)) in
      let d =
        rsa_private_op_lem n em private_key.p private_key.q private_key.dp private_key.dq
          private_key.qinv pair.numbers (bytes, omega (arith, size))
          (omega (arith, power, pair.ordered)) in
      d.size

  recovered : rsa_public_op n signed public_key.n public_key.e ≡ em
  recovered =
      let (out_bytes, out_size, value) =
        rsa_public_op-rsa_private_op n em public_key.n public_key.e private_key.p private_key.q
          private_key.dp private_key.dq private_key.qinv pair.numbers (bytes, omega (arith, size))
          pair.n_fits pair.e_fits pair.product pair.modulus
          (below_product n public_key private_key pair em bytes size below) pair.inverts_p
          pair.inverts_q pair.ordered in
      be_value_injective (rsa_public_op n signed public_key.n public_key.e) em out_bytes bytes
        (out_size ∙ sym size) value

module _ (hash : Bytes → Bytes) (sizes : (m : Bytes) → length (hash m) ≡ oaep_hash_len)
    (octets : (m : Bytes) → AreBytes (hash m)) (bits n : ℕ)
    (supported : rsa_dispatch_all bits ≡ some n) (public_key : RsaPublicKeyComponents)
    (private_key : RsaPrivateKeyComponents) (pair : IsRsaKeyPair n public_key private_key)
    (pub_der priv_der : Bytes) (public_parsed : rsa_parse_public_key_der pub_der ≡ some public_key)
    (private_parsed : rsa_parse_private_key_der priv_der ≡ some private_key) (salt msg : Bytes)
    (salt_size : length salt ≡ oaep_hash_len) (salt_bytes : AreBytes salt) (sig_max : ℕ)
    (room : bits / 8 ≤ sig_max) where
  abbrev signature_of : Bytes → Bytes
  signature_of em =
      rsa_private_op n em private_key.p private_key.q private_key.dp private_key.dq private_key.qinv

  sign_some :
      (em : Bytes)
      → pss_encode hash msg salt bits ≡ some em
      → rsa_pss_sign hash salt bits priv_der msg sig_max ≡ some (signature_of em)
  unfolding rsa_pss_sign
  sign_some em encoded =
      let fits : ltb sig_max (bits / 8) ≡ false = ground arith in
      rw (private_parsed, encoded, supported, fits) refl

  verify_same :
      (em : Bytes)
      → AreBytes em
      → length em ≡ n * 8
      → be_value em < 2 ^ (n * 64 - 1)
      → rsa_pss_verify hash bits pub_der msg (signature_of em) ≡ pss_verify hash msg em bits
  unfolding rsa_pss_verify pss_verdict
  verify_same em bytes size below =
      let (exact, bytes_of, least, most) = rsa_dispatch_all_lem bits n supported in
      let whole : (length (signature_of em) == bits / 8) ≡ true =
        (==_iff _ _).1
          (length-signed n public_key private_key pair em bytes size below ∙ sym bytes_of) in
      let modulus : (length public_key.n == bits / 8) ≡ true =
        (==_iff _ _).1 (pair.n_size ∙ sym bytes_of) in
      rw (whole, public_parsed, supported, modulus)
        (ap (λ (x : Bytes). pss_verify hash msg x bits)
          (recovered n public_key private_key pair em bytes size below))

  pub signed_lem :
      (sig : Bytes) × (rsa_pss_sign hash salt bits priv_der msg sig_max ≡ some sig)
      × (length sig ≡ bits / 8)
      × (rsa_pss_verify hash bits pub_der msg sig ≡ true)
  signed_lem =
      let (exact, bytes_of, least, most) = rsa_dispatch_all_lem bits n supported in
      let (len, top) = pss_sizes_at n (omega (arith, least)) most in
      let em_len : pss_em_len bits ≡ n * 8 = ap pss_em_len exact ∙ len in
      let (em, encoded, size, verified) =
        pss_verify-pss_encode hash sizes msg bits (omega (arith, exact, least))
          (omega (arith, exact, most)) (omega (arith, em_len, least)) salt salt_size in
      let small =
        pss_encode-IsBelow hash octets msg salt em bits salt_bytes (ap pss_top_bits exact ∙ top)
          encoded in
      let em_size : length em ≡ n * 8 = size ∙ em_len in
      let below = encoded_below n em (omega (arith, least)) em_size small in
      (
        signature_of em,
        sign_some em encoded,
        length-signed n public_key private_key pair em small.0 em_size below ∙ sym bytes_of,
        verify_same em small.0 em_size below ∙ verified,
      )

-- For any compression function with states of eight words, a public and a private key of 1024,
-- 2048, 3072 or 4096 bits whose encodings parse, whose moduli have their top bit set and are the
-- products of odd p and q with q at most p, that leave room for the Montgomery reduction, with
-- qinv the inverse of q modulo p and exponents that invert each other modulo p and modulo q, a
-- salt of 48 bytes and room for the output: rsa_pss_sign gives a signature of the size of the
-- modulus, which rsa_pss_verify accepts for the same message.
pub rsa_pss_verify-rsa_pss_sign :
    (compress : List ℕ → Bytes → List ℕ) (sha384_h0 : List ℕ) (bits n : ℕ)
    (public_key : RsaPublicKeyComponents) (private_key : RsaPrivateKeyComponents)
    (pub_der priv_der salt msg : Bytes) (sig_max : ℕ)
    → ((state : List ℕ) (block : Bytes) → length (compress state block) ≡ 8)
    → rsa_dispatch_all bits ≡ some n
    → IsRsaKeyPair n public_key private_key
    → rsa_parse_public_key_der pub_der ≡ some public_key
    → rsa_parse_private_key_der priv_der ≡ some private_key
    → length salt ≡ oaep_hash_len
    → AreBytes salt
    → bits / 8 ≤ sig_max
    → let hash = sha384 compress sha384_h0 in
      (sig : Bytes) × (rsa_pss_sign hash salt bits priv_der msg sig_max ≡ some sig)
      × (length sig ≡ bits / 8)
      × (rsa_pss_verify hash bits pub_der msg sig ≡ true)
rsa_pss_verify-rsa_pss_sign compress h0 bits n public_key private_key pub_der priv_der salt msg
      sig_max eight_words supported pair public_parsed private_parsed salt_size salt_bytes room =
    signed_lem (sha384 compress h0) (length-sha384 compress eight_words h0)
      (sha384-AreBytes compress h0) bits n supported public_key private_key pair pub_der priv_der
      public_parsed private_parsed salt msg salt_size salt_bytes sig_max room
