-- ===== src/Rsa/Encryption.antt =====
-- providers/arm_asm/rsa.hpp: rsa_oaep_decrypt after rsa_oaep_encrypt.
use claude_crypto.Base.{
  ℕ, ◌+◌, ◌-◌, ◌*◌, ◌/◌, ◌%◌, ◌^◌, ◌<◌, ◌≤◌, ◌≡◌, ◌⊎◌, inl, inr, refl, sym, ap, ◌∙◌, true, false,
  not, ◌||◌, ◌==◌, ==_iff, ltb, none, some, List, length, arith,
}
use claude_crypto.Api.Result.{Bytes, AreBytes}
use claude_crypto.Hash.OneShot.{sha384}
use claude_crypto.Hash.Output.{length-sha384, sha384-AreBytes}
use claude_crypto.RsaDer.{
  RsaPrivateKeyComponents, RsaPublicKeyComponents, rsa_parse_public_key_der,
  rsa_parse_private_key_der,
}
use claude_crypto.RsaPadding.{oaep_hash_len, oaep_encode, oaep_decode}
use claude_crypto.RsaPadding.Oaep.{oaep_decode-oaep_encode}
use claude_crypto.RsaPadding.Encoded.{oaep_encode-IsBelow}
use claude_crypto.BigInt.Bytes.{rsa_public_op, rsa_private_op, be_value}
use claude_crypto.BigInt.Bytes.Operations.{Fits, rsa_private_op_lem, rsa_public_op_lem}
use claude_crypto.BigInt.Bytes.Inverse.{rsa_private_op-rsa_public_op}
use claude_crypto.BigInt.Bytes.Order.{be_value_injective}
use claude_crypto.Rsa.{rsa_dispatch_all, rsa_oaep_encrypt, rsa_oaep_decrypt}
use claude_crypto.Rsa.KeyPair.{IsRsaKeyPair, rsa_dispatch_all_lem, encoded_below}
use native.Mathlib.Nat.{mod-lt}

sizes_pass : (ct_max k size : ℕ) → k ≤ ct_max → size ≡ k → (ltb ct_max k || not (size == k)) ≡ false
sizes_pass ct_max k size h e = ground arith

-- The bytes of an encoded message come back.
module _ (n : ℕ) (public_key : RsaPublicKeyComponents) (private_key : RsaPrivateKeyComponents)
    (pair : IsRsaKeyPair n public_key private_key) (em : Bytes) (bytes : AreBytes em)
    (size : length em ≡ n * 8) (below : be_value em < 2 ^ (n * 64 - 1)) where
  abbrev cipher : Bytes
  cipher = rsa_public_op n em public_key.n public_key.e

  abbrev decrypted_em : Bytes
  decrypted_em =
      rsa_private_op n cipher private_key.p private_key.q private_key.dp private_key.dq
        private_key.qinv

  pub below_product : be_value em < be_value private_key.p * be_value private_key.q
  below_product = omega (arith, below, pair.full, pair.product)

  cipher-Fits : Fits n cipher × (length cipher ≡ n * 8)
  cipher-Fits =
      let (cipher_bytes, cipher_size, exact) =
        rsa_public_op_lem n em public_key.n public_key.e (bytes, omega (arith, size)) pair.n_fits
          pair.e_fits pair.modulus in
      ((cipher_bytes, omega (arith, cipher_size)), cipher_size)

  decrypted_em-eq : decrypted_em ≡ em
  decrypted_em-eq =
      let residue : be_value em % be_value private_key.q < be_value private_key.q =
        mod-lt (be_value em) (omega (arith, pair.numbers.q_modulus.big)) in
      let power : be_value cipher ^ be_value private_key.dq % be_value private_key.q
          < be_value private_key.q =
        mod-lt _ (omega (arith, pair.numbers.q_modulus.big)) in
      let d =
        rsa_private_op_lem n cipher private_key.p private_key.q private_key.dp private_key.dq
          private_key.qinv pair.numbers cipher-Fits.0 (omega (arith, power, pair.ordered)) in
      let value =
        rsa_private_op-rsa_public_op n em public_key.n public_key.e private_key.p private_key.q
          private_key.dp private_key.dq private_key.qinv pair.numbers (bytes, omega (arith, size))
          pair.n_fits pair.e_fits pair.product pair.modulus below_product pair.inverts_p
          pair.inverts_q (omega (arith, residue, pair.ordered)) in
      be_value_injective decrypted_em em d.bytes bytes (d.size ∙ sym size) value

module _ (hash : Bytes → Bytes) (sizes : (m : Bytes) → length (hash m) ≡ oaep_hash_len)
    (octets : (m : Bytes) → AreBytes (hash m)) (bits n : ℕ)
    (supported : rsa_dispatch_all bits ≡ some n) (public_key : RsaPublicKeyComponents)
    (private_key : RsaPrivateKeyComponents) (pair : IsRsaKeyPair n public_key private_key)
    (pub_der priv_der : Bytes) (public_parsed : rsa_parse_public_key_der pub_der ≡ some public_key)
    (private_parsed : rsa_parse_private_key_der priv_der ≡ some private_key) (seed label pt : Bytes)
    (seed_size : length seed ≡ oaep_hash_len) (seed_bytes : AreBytes seed) (pt_bytes : AreBytes pt)
    (ct_max pt_max : ℕ) (room : bits / 8 ≤ ct_max) (pt_room : length pt ≤ pt_max) where
  encrypt_some :
      (em : Bytes)
      → oaep_encode hash pt label seed (bits / 8) ≡ some em
      → rsa_oaep_encrypt hash seed bits pub_der pt label ct_max
        ≡ some (rsa_public_op n em public_key.n public_key.e)
  unfolding rsa_oaep_encrypt
  encrypt_some em encoded =
      let (exact, bytes_of, least, most) = rsa_dispatch_all_lem bits n supported in
      let fits : (ltb ct_max (bits / 8) || not (length public_key.n == bits / 8)) ≡ false =
        sizes_pass ct_max (bits / 8) (length public_key.n) room (pair.n_size ∙ sym bytes_of) in
      rw (public_parsed, encoded, supported, fits) refl

  encrypt_none :
      oaep_encode hash pt label seed (bits / 8) ≡ none
      → rsa_oaep_encrypt hash seed bits pub_der pt label ct_max ≡ none
  unfolding rsa_oaep_encrypt
  encrypt_none refused =
      let (exact, bytes_of, least, most) = rsa_dispatch_all_lem bits n supported in
      let fits : (ltb ct_max (bits / 8) || not (length public_key.n == bits / 8)) ≡ false =
        sizes_pass ct_max (bits / 8) (length public_key.n) room (pair.n_size ∙ sym bytes_of) in
      rw (public_parsed, refused, fits) refl

  decrypt_some :
      (em : Bytes)
      → AreBytes em
      → length em ≡ n * 8
      → be_value em < 2 ^ (n * 64 - 1)
      → rsa_oaep_decrypt hash bits priv_der
          (rsa_public_op n em public_key.n public_key.e)
          label
          pt_max
        ≡ oaep_decode hash em (bits / 8) label pt_max
  unfolding rsa_oaep_decrypt
  decrypt_some em bytes size below =
      let (exact, bytes_of, least, most) = rsa_dispatch_all_lem bits n supported in
      let (fits, cipher_size) = cipher-Fits n public_key private_key pair em bytes size below in
      let whole : (length (rsa_public_op n em public_key.n public_key.e) == bits / 8) ≡ true =
        (==_iff _ _).1 (cipher_size ∙ sym bytes_of) in
      rw (whole, private_parsed, supported)
        (ap (λ (x : Bytes). oaep_decode hash x (bits / 8) label pt_max)
          (decrypted_em-eq n public_key private_key pair em bytes size below))

  pub decrypted_lem :
      (bits / 8 < length pt + 98) × (rsa_oaep_encrypt hash seed bits pub_der pt label ct_max ≡ none)
      ⊎ (ct : Bytes) × (rsa_oaep_encrypt hash seed bits pub_der pt label ct_max ≡ some ct)
        × (rsa_oaep_decrypt hash bits priv_der ct label pt_max ≡ some pt)
  decrypted_lem =
      let (exact, bytes_of, least, most) = rsa_dispatch_all_lem bits n supported in
      elim (oaep_decode-oaep_encode hash sizes label seed seed_size (bits / 8)
        (omega (arith, bytes_of, most)) (omega (arith, bytes_of, exact, least)) pt pt_max pt_room) [
          | inl (long, refused) ↦ inl (long, encrypt_none refused)
          | inr (em, encoded, size, decoded) ↦
              let (bytes, first) =
                oaep_encode-IsBelow hash octets pt label seed em (bits / 8) pt_bytes seed_bytes
                  encoded in
              let em_size : length em ≡ n * 8 = size ∙ bytes_of in
              let below =
                encoded_below n em (omega (arith, least)) em_size (bytes, omega (arith, first)) in
              inr (
                rsa_public_op n em public_key.n public_key.e,
                encrypt_some em encoded,
                decrypt_some em bytes em_size below ∙ decoded,
              )
        ]

-- For any compression function with states of eight words, a public and a private key of 1024,
-- 2048, 3072 or 4096 bits whose encodings parse, whose moduli have their top bit set and are the
-- products of odd p and q with q at most p, that leave room for the Montgomery reduction, with
-- qinv the inverse of q modulo p and exponents that invert each other modulo p and modulo q, a
-- seed of 48 bytes and room for the outputs: rsa_oaep_encrypt fails if the plaintext has more
-- than k - 98 bytes, for a modulus of k bytes, and otherwise gives a ciphertext that
-- rsa_oaep_decrypt with the same label turns back into the plaintext.
pub rsa_oaep_decrypt-rsa_oaep_encrypt :
    (compress : List ℕ → Bytes → List ℕ) (sha384_h0 : List ℕ) (bits n : ℕ)
    (public_key : RsaPublicKeyComponents) (private_key : RsaPrivateKeyComponents)
    (pub_der priv_der seed label pt : Bytes) (ct_max pt_max : ℕ)
    → ((state : List ℕ) (block : Bytes) → length (compress state block) ≡ 8)
    → rsa_dispatch_all bits ≡ some n
    → IsRsaKeyPair n public_key private_key
    → rsa_parse_public_key_der pub_der ≡ some public_key
    → rsa_parse_private_key_der priv_der ≡ some private_key
    → length seed ≡ oaep_hash_len
    → AreBytes seed
    → AreBytes pt
    → bits / 8 ≤ ct_max
    → length pt ≤ pt_max
    → let hash = sha384 compress sha384_h0 in
      (bits / 8 < length pt + 98) × (rsa_oaep_encrypt hash seed bits pub_der pt label ct_max ≡ none)
      ⊎ (ct : Bytes) × (rsa_oaep_encrypt hash seed bits pub_der pt label ct_max ≡ some ct)
        × (rsa_oaep_decrypt hash bits priv_der ct label pt_max ≡ some pt)
rsa_oaep_decrypt-rsa_oaep_encrypt compress h0 bits n public_key private_key pub_der priv_der seed
      label pt ct_max pt_max eight_words supported pair public_parsed private_parsed seed_size
      seed_bytes pt_bytes room pt_room =
    decrypted_lem (sha384 compress h0) (length-sha384 compress eight_words h0)
      (sha384-AreBytes compress h0) bits n supported public_key private_key pair pub_der priv_der
      public_parsed private_parsed seed label pt seed_size seed_bytes pt_bytes ct_max pt_max room
      pt_room
