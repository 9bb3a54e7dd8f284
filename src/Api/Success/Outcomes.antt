-- ===== src/Api/Success/Outcomes.antt =====
-- safe-crypto-lib/{mac,ecc,ecdh}.hpp: the operations where they succeed.
use claude_crypto.Base.{Bool, true, false, ◌≡◌, sym, ap, ◌∙◌, arith, if◌then◌else◌, ltb, length}
use claude_crypto.Api.Result.{
  Bytes, CryptoErrorCode, invalid_argument, ok, Exec, pure, fail, >>=-ok,
}
use claude_crypto.Api.Provider.{CryptoProvider, ShaVariant, sha_output_size}
use claude_crypto.Api.Mac.{mac_answer, hmac_verify_with, hmac_verify_impl}
use claude_crypto.Api.Ecc.{EcCurve, EcPublicKey, EccKeyPair, signature_answer, ecdsa_verify_impl}
use claude_crypto.Api.Ecdh.{ecdh_generate_key_impl, ecdh_compute_shared_secret_impl}
use claude_crypto.Api.Success.{
  CryptoLaws, pure-ok, fail-ok, try_call-ok, status_call-ok, with_key_handle-ok, import-ok,
}

module _ (p : CryptoProvider) (laws : CryptoLaws p) where
  open p use {State}

  mac_answer-true :
      (status : p.Status) (s : State) {t : State}
      → mac_answer p status s ≡ (ok true, t)
      → p.status_eq status p.status_ok ≡ true
  unfolding mac_answer pure fail
  mac_answer-true status s h = ground arith

  hmac_verify_with-true :
      (v : ShaVariant) (key message mac : Bytes) (s : State) {t : State}
      → hmac_verify_with p v key message mac s ≡ (ok true, t)
      → laws.MacVerifies v key message mac
  unfolding hmac_verify_with
  hmac_verify_with-true v key message mac s h =
      let (_, s1, initialised, h1) = >>=-ok _ _ s h in
      let (id, s2, held, body) = import-ok p laws _ _ _ _ s1 h1 in
      let (status, s3, called, answered) = >>=-ok _ _ s2 body in
      laws.verify_mac v id message mac s2 (status_call-ok p _ s2 called)
        (mac_answer-true status s3 answered) held

  long_enough :
      {A : Type 0} (short : Bool) (c : CryptoErrorCode) (m : Exec State A) (s : State) {a : A}
      {t : State}
      → (if short then fail c else m) s ≡ (ok a, t)
      → m s ≡ (ok a, t)
  long_enough true c m s e = absurd (fail-ok c s e)
  long_enough false c m s e = e

  -- For providers whose calls compute what CryptoLaws documents (imported and exported keys, a
  -- commutative key agreement, a derivation that is a function, verifications that are sound):
  -- hmac_verify_impl answers true only for a MAC that verifies over the message under the key
  -- given.
  pub hmac_verify_impl-true :
      (v : ShaVariant) (key message mac : Bytes) (s : State) {t : State}
      → hmac_verify_impl p v key message mac s ≡ (ok true, t)
      → laws.MacVerifies v key message mac
  unfolding hmac_verify_impl
  hmac_verify_impl-true v key message mac s h = hmac_verify_with-true v key message mac s (
      long_enough (ltb (length key) (sha_output_size v)) invalid_argument
        (hmac_verify_with p v key message mac) s h)

module _ (p : CryptoProvider) (laws : CryptoLaws p) (curve : EcCurve) where
  open p use {State}
  open laws use {public_of, dh}

  -- A generated pair holds the public key of its private key.
  pub ecdh_generate_key_impl-ok :
      (s : State) {keys : EccKeyPair} {t : State}
      → ecdh_generate_key_impl p curve s ≡ (ok keys, t)
      → keys.public_key_der ≡ public_of keys.private_key_der
  unfolding ecdh_generate_key_impl
  ecdh_generate_key_impl-ok s h =
      let (_, s1, initialised, h1) = >>=-ok _ _ s h in
      let (id, s2, generated, h2) = >>=-ok _ _ s1 h1 in
      let body = with_key_handle-ok p id _ s2 h2 in
      let (priv, s3, exported, h3) = >>=-ok _ _ s2 body in
      let (public, s4, exported_public, h4) = >>=-ok _ _ s3 h3 in
      let held = laws.export_key_of id s2 (try_call-ok p _ _ s2 exported) in
      let pair = laws.export_public_of id s3 (try_call-ok p _ _ s3 exported_public) held in
      let (made, _) = pure-ok _ s4 h4 in
      sym (ap (λ (k : EccKeyPair). k.public_key_der) made)
      ∙ pair
      ∙ ap (λ (k : EccKeyPair). public_of k.private_key_der) made

  -- The shared secret is the agreement of our private key with the peer's public key.
  pub ecdh_compute_shared_secret_impl-ok :
      (keys : EccKeyPair) (peer : Bytes) (s : State) {x : Bytes} {t : State}
      → ecdh_compute_shared_secret_impl p curve keys peer s ≡ (ok x, t)
      → x ≡ dh keys.private_key_der peer
  unfolding ecdh_compute_shared_secret_impl
  ecdh_compute_shared_secret_impl-ok keys peer s h =
      let (_, s1, initialised, h1) = >>=-ok _ _ s h in
      let (id, s2, held, body) = import-ok p laws _ _ _ _ s1 h1 in
      laws.agree_dh id peer s2 (try_call-ok p _ _ s2 body) held

  signature_answer-true :
      (status : p.Status) (s : State) {t : State}
      → signature_answer p curve status s ≡ (ok true, t)
      → p.status_eq status p.status_ok ≡ true
  unfolding signature_answer pure fail
  signature_answer-true status s h = ground arith

  -- For providers whose calls compute what CryptoLaws documents (imported and exported keys, a
  -- commutative key agreement, a derivation that is a function, verifications that are sound):
  -- ecdsa_verify_impl answers true only for a signature that verifies over the message under the
  -- public key given.
  pub ecdsa_verify_impl-true :
      (key : EcPublicKey) (message signature : Bytes) (s : State) {t : State}
      → ecdsa_verify_impl p curve key message signature s ≡ (ok true, t)
      → laws.SigVerifies key.public_key_der message signature
  unfolding ecdsa_verify_impl
  ecdsa_verify_impl-true key message signature s h =
      let (_, s1, initialised, h1) = >>=-ok _ _ s h in
      let (id, s2, held, body) = import-ok p laws _ _ _ _ s1 h1 in
      let (status, s3, called, answered) = >>=-ok _ _ s2 body in
      laws.verify_signature id message signature s2 (status_call-ok p _ s2 called)
        (signature_answer-true status s3 answered) held
