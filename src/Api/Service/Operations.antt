-- ===== src/Api/Service/Operations.antt =====
-- safe-crypto-lib/{mac,ecc,ecdh}.hpp: the operations on a provider in working order.
use claude_crypto.Base.{
  ◌≤◌, Bool, true, false, ◌≡◌, refl, sym, subst, arith, length, ltb, if◌then◌else◌,
}
use mathlib.Core.Bool.{false≢true}
use claude_crypto.Api.Result.{Bytes, CryptoErrorCode, invalid_argument, Exec, pure, fail}
use claude_crypto.Api.Provider.{CryptoProvider, sha384, sha_output_size}
use claude_crypto.Api.Mac.{
  mac_answer, hmac_generate_with, hmac_generate_impl, hmac_verify_with, hmac_verify_impl,
}
use claude_crypto.Api.Ecc.{
  EcCurve, EcPublicKey, EccKeyPair, signature_answer, ecdsa_sign_impl, ecdsa_verify_impl,
}
use claude_crypto.Api.Ecdh.{ecdh_generate_key_impl, ecdh_compute_shared_secret_impl}
use claude_crypto.Api.Success.{CryptoLaws}
use claude_crypto.Api.Service.{
  Answers, Answers-map, exchange_key, verifying_key, mac_verifying_key, CryptoService, >>=-Answers,
  pure-Answers, try_call-Answers, status_call-Answers, with_key-Answers,
}

module _ (p : CryptoProvider) (laws : CryptoLaws p) (curve : EcCurve)
    (service : CryptoService p laws curve) where
  open p use {State, Status, KeyId}
  open laws use {public_of, dh}
  open service use {Ready, Holds, IsPrivate, next_key, Signable, Signs, tag}

  -- A private key with its public key.
  abbrev pub IsPair : EccKeyPair → Type 0
  IsPair keys =
      IsPrivate keys.private_key_der × (keys.public_key_der ≡ public_of keys.private_key_der)

  -- The generated pair is the one that the provider was to generate next.
  pub ecdh_generate_key_impl-Answers :
      (s : State)
      → Ready s
      → Answers (ecdh_generate_key_impl p curve s) (λ keys t.
        ((keys.private_key_der ≡ next_key s) × (keys.public_key_der ≡ public_of (next_key s)))
        × Ready t)
  unfolding ecdh_generate_key_impl
  ecdh_generate_key_impl-Answers s ready =
      with_key-Answers p laws curve service _ _ _ s ready
        (λ t ready_t same.
          Answers-map (service.generates t ready_t)
            λ id u held. subst (Holds u id exchange_key) same held)
        λ id t held.
          >>=-Answers _ _ t (try_call-Answers p _ _ t (service.exports id t held))
            λ x u (private, held_u).
              >>=-Answers _ _ u (try_call-Answers p _ _ u (service.exports_public id u held_u))
                λ y v (public, held_v). pure-Answers _ v ((private, public), (_, _, held_v))

  pub ecdh_compute_shared_secret_impl-Answers :
      (keys : EccKeyPair) (c peer : Bytes) (s : State)
      → IsPrivate keys.private_key_der
      → IsPrivate c
      → peer ≡ public_of c
      → Ready s
      → Answers
          (ecdh_compute_shared_secret_impl p curve keys peer s)
          (λ x t. (x ≡ dh keys.private_key_der peer) × Ready t)
  unfolding ecdh_compute_shared_secret_impl
  ecdh_compute_shared_secret_impl-Answers keys c peer s private theirs same ready =
      with_key-Answers p laws curve service _ _ _ s ready
        (λ t ready_t _. service.imports_agree keys.private_key_der t private ready_t)
        λ id t held. try_call-Answers p _ _ t (
          Answers-map (service.agrees id c peer t theirs same held)
            λ x u (agreed, still). (agreed, (_, _, still)))

  pub ecdsa_sign_impl-Answers :
      (keys : EccKeyPair) (m : Bytes) (s : State)
      → IsPrivate keys.private_key_der
      → Signable keys.private_key_der m
      → Ready s
      → Answers (ecdsa_sign_impl p curve keys m s) (λ g t. Signs keys.private_key_der m g × Ready t)
  unfolding ecdsa_sign_impl
  ecdsa_sign_impl-Answers keys m s private signable ready =
      with_key-Answers p laws curve service _ _ _ s ready
        (λ t ready_t _. service.imports_sign keys.private_key_der t private ready_t)
        λ id t held. try_call-Answers p _ _ t (
          Answers-map (service.signs id m t signable held)
            λ g u (signed, still). (signed, (_, _, still)))

  signature_answer-valid :
      (status : Status) (s : State) {Q : Bool → State → Type 0}
      → status ≡ p.status_ok
      → Q true s
      → Answers (signature_answer p curve status s) Q
  unfolding signature_answer pure
  signature_answer-valid status s good holds = (
    true,
    s,
    rw (good, service.ok_is_valid, service.ok_is_accepted, service.ok_is_ok) refl,
    holds,
  )

  pub ecdsa_verify_impl-Answers :
      (key : EcPublicKey) (m g b : Bytes) (s : State)
      → key.public_key_der ≡ public_of b
      → IsPrivate b
      → Signs b m g
      → Ready s
      → Answers (ecdsa_verify_impl p curve key m g s) (λ valid t. (valid ≡ true) × Ready t)
  unfolding ecdsa_verify_impl
  ecdsa_verify_impl-Answers key m g b s public private signed ready =
      with_key-Answers p laws curve service _ _ _ s ready
        (λ t ready_t _. rw public (service.imports_verify b t private ready_t))
        λ id t held.
          >>=-Answers _ _ t
            {P = λ status u. (status ≡ p.status_ok) × Holds u id verifying_key (public_of b)}
            (status_call-Answers p _ t (service.verifies id m g t signed held))
            λ status u (same, still). signature_answer-valid status u same (refl, (_, _, still))

  long_enough :
      {A : Type 0} (short : Bool) (c : CryptoErrorCode) (m : Exec State A) (s : State)
      {Q : A → State → Type 0}
      → short ≡ false
      → Answers (m s) Q
      → Answers ((if short then fail c else m) s) Q
  long_enough true c m s h a = absurd (false≢true (sym h))
  long_enough false c m s h a = a

  pub hmac_generate_impl-Answers :
      (k m : Bytes) (s : State)
      → 48 ≤ length k
      → length k ≤ 512
      → Ready s
      → Answers (hmac_generate_impl p sha384 k m s) (λ g t. (g ≡ tag k m) × Ready t)
  unfolding hmac_generate_impl hmac_generate_with sha_output_size
  hmac_generate_impl-Answers k m s long short ready =
      long_enough (ltb (length k) (sha_output_size sha384)) invalid_argument
        (hmac_generate_with p sha384 k m) s (ground arith)
        (with_key-Answers p laws curve service _ _ _ s ready
          (λ t ready_t _. service.imports_mac k t long short ready_t)
          λ id t held.
            >>=-Answers _ _ t (try_call-Answers p _ _ t (service.macs id m t held))
              λ g u (made, still). pure-Answers _ u (made, (_, _, still)))

  mac_answer-valid :
      (status : Status) (s : State) {Q : Bool → State → Type 0}
      → status ≡ p.status_ok
      → Q true s
      → Answers (mac_answer p status s) Q
  unfolding mac_answer pure
  mac_answer-valid status s good holds =
      (true, s, rw (good, service.ok_is_valid, service.ok_is_ok) refl, holds)

  pub hmac_verify_impl-Answers :
      (k m g : Bytes) (s : State)
      → 48 ≤ length k
      → length k ≤ 512
      → g ≡ tag k m
      → Ready s
      → Answers (hmac_verify_impl p sha384 k m g s) (λ valid t. (valid ≡ true) × Ready t)
  unfolding hmac_verify_impl hmac_verify_with sha_output_size
  hmac_verify_impl-Answers k m g s long short same ready =
      long_enough (ltb (length k) (sha_output_size sha384)) invalid_argument
        (hmac_verify_with p sha384 k m g) s (ground arith)
        (with_key-Answers p laws curve service _ _ _ s ready
          (λ t ready_t _. service.imports_mac_verify k t long short ready_t)
          λ id t held.
            >>=-Answers _ _ t
              {P = λ status u. (status ≡ p.status_ok) × Holds u id mac_verifying_key k}
              (status_call-Answers p _ t (service.verifies_mac id m g t same held))
              λ status u (good, still). mac_answer-valid status u good (refl, (_, _, still)))
