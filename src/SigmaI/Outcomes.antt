-- ===== src/SigmaI/Outcomes.antt =====
-- safe-crypto-lib/sigma_i.hpp: the parts of the steps of the exchange where they succeed.
use claude_crypto.Base.{◌++◌, false, [], ◌≡◌, sym, ap, subst, ◌∙◌}
use claude_crypto.Api.Result.{Bytes, CryptoErrorCode, Expected, ok, lift, >>=-ok}
use claude_crypto.Api.Provider.{CryptoProvider, sha384}
use claude_crypto.Api.Ecc.{EcCurve, EccKeyPair, ecdsa_sign_impl}
use claude_crypto.Api.Mac.{hmac_generate_impl}
use claude_crypto.Api.Success.{CryptoLaws, pure-ok, try_call-ok, import-ok}
use claude_crypto.Api.Success.Outcomes.{
  ecdh_generate_key_impl-ok, ecdh_compute_shared_secret_impl-ok,
}
use claude_crypto.Sigma.{SigmaMsg1}
use claude_crypto.SigmaI.{
  SigmaIBundle, SigmaIResponderRespondResult, SigmaIKeys, sigma_i_info, split_i_keys,
  session_keys_of, sigma_i_derive_keys_impl, sigma_i_aes_gcm_encrypt_impl,
  sigma_i_aes_gcm_decrypt_impl, sigma_i_responder_respond_impl,
}
use claude_crypto.SigmaI.Bundle.{
  SigmaIBundlePlaintext, sigma_i_serialize_bundle, sigma_i_deserialize_bundle,
}

pub lift-ok :
    {S A : Type 0} (r : Expected CryptoErrorCode A) (s : S) {a : A} {t : S}
    → lift r s ≡ (ok a, t)
    → r ≡ ok a
unfolding lift
lift-ok r s h = cc h

module _ (p : CryptoProvider) (laws : CryptoLaws p) where
  open p use {State}
  open laws use {public_of, dh, kdf, SigVerifies, MacVerifies, AesGcmOpens}

  -- The keys of a shared secret.
  abbrev pub i_keys_of : Bytes → SigmaIKeys
  i_keys_of secret = split_i_keys (kdf secret [] sigma_i_info 144 false)

  pub sigma_i_derive_keys_impl-ok :
      (secret : Bytes) (s : State) {keys : SigmaIKeys} {t : State}
      → sigma_i_derive_keys_impl p secret s ≡ (ok keys, t)
      → keys ≡ i_keys_of secret
  unfolding sigma_i_derive_keys_impl
  sigma_i_derive_keys_impl-ok secret s h =
      let (_, s1, initialised, h1) = >>=-ok _ _ s h in
      let (output, s2, derived, h2) = >>=-ok _ _ s1 h1 in
      let (made, _) = pure-ok _ s2 h2 in
      sym made
      ∙ ap split_i_keys
          (laws.hkdf_kdf secret [] sigma_i_info 144 false s1 (try_call-ok p _ _ s1 derived))

  pub sigma_i_aes_gcm_decrypt_impl-ok :
      (key : Bytes) (bundle : SigmaIBundle) (s : State) {x : Bytes} {t : State}
      → sigma_i_aes_gcm_decrypt_impl p key bundle s ≡ (ok x, t)
      → AesGcmOpens key bundle.iv [] bundle.ciphertext x
  unfolding sigma_i_aes_gcm_decrypt_impl
  sigma_i_aes_gcm_decrypt_impl-ok key bundle s h =
      let (_, s1, initialised, h1) = >>=-ok _ _ s h in
      let (id, s2, held, body) = import-ok p laws _ _ _ _ s1 h1 in
      laws.decrypt_opens id bundle.iv [] bundle.ciphertext s2 (try_call-ok p _ _ s2 body) held

  -- A bundle proves an identity: it opens under the key to a plaintext whose parts are the expected
  -- identity, a MAC of it, and a signature by it over `signed`.
  pub record Proves (enc_key mac_key : Bytes) (bundle : SigmaIBundle) (expected signed : Bytes)
      : Type 0 where
    pub text : Bytes
    pub parts : SigmaIBundlePlaintext
    pub opens : AesGcmOpens enc_key bundle.iv [] bundle.ciphertext text
    pub parsed : sigma_i_deserialize_bundle text ≡ ok parts
    pub named : parts.identity_pub ≡ expected
    pub mac_valid : MacVerifies sha384 mac_key expected parts.mac
    pub signature_valid : SigVerifies expected signed parts.signature

  -- A bundle has been decrypted under the key.
  abbrev pub Unsealed : Bytes → SigmaIBundle → Type 0
  Unsealed key bundle =
      (text : Bytes) × (s : State) × (t : State) × (sigma_i_aes_gcm_decrypt_impl p key bundle s
        ≡ (ok text, t))

  module _ (curve : EcCurve) where
    -- A bundle is what an encryption under the key has made of an identity, a signature that the
    -- identity made over the transcript, and a MAC of the identity under the MAC key.
    abbrev pub Sealed : Bytes → Bytes → Bytes → EccKeyPair → SigmaIBundle → Type 0
    Sealed key mac_key transcript identity bundle =
        (signature : Bytes) × (mac : Bytes) × (s : State) × (t : State) × (u : State) × (v : State)
        × (ecdsa_sign_impl p curve identity transcript s ≡ (ok signature, t))
        × (hmac_generate_impl p sha384 mac_key identity.public_key_der t ≡ (ok mac, u))
        × (sigma_i_aes_gcm_encrypt_impl p key
              (sigma_i_serialize_bundle identity.public_key_der signature mac) u
            ≡ (ok bundle, v))

    -- The responder's keys come from a fresh private key whose public key it sends.
    abbrev pub RespondsSealed : SigmaMsg1 → EccKeyPair → SigmaIResponderRespondResult → Type 0
    RespondsSealed msg1 identity r =
        (eph : Bytes) × (r.msg2.ephemeral_pub_r ≡ public_of eph)
        × (r.responder_state.session_keys
            ≡ session_keys_of (i_keys_of (dh eph msg1.ephemeral_pub_i)))
        × (r.responder_state.enc_key_i ≡ (i_keys_of (dh eph msg1.ephemeral_pub_i)).enc_key_i)
        × Sealed (i_keys_of (dh eph msg1.ephemeral_pub_i)).enc_key_r
            r.responder_state.session_keys.mac_key (msg1.ephemeral_pub_i ++ r.msg2.ephemeral_pub_r)
            identity r.msg2.bundle_r

    pub sigma_i_responder_respond_impl-ok :
        (msg1 : SigmaMsg1) (identity : EccKeyPair) (s : State) {r : SigmaIResponderRespondResult}
        {t : State}
        → sigma_i_responder_respond_impl p curve msg1 identity s ≡ (ok r, t)
        → RespondsSealed msg1 identity r
    unfolding sigma_i_responder_respond_impl
    sigma_i_responder_respond_impl-ok msg1 identity s h =
        let (eph, s1, generated, h1) = >>=-ok _ _ s h in
        let (secret, s2, agreed, h2) = >>=-ok _ _ s1 h1 in
        let (keys, s3, derived, h3) = >>=-ok _ _ s2 h2 in
        let (sig, s4, signed, h4) = >>=-ok _ _ s3 h3 in
        let (mac, s5, tagged, h5) = >>=-ok _ _ s4 h4 in
        let (bundle, s6, sealed, h6) = >>=-ok _ _ s5 h5 in
        let (made, _) = pure-ok _ s6 h6 in
        let pair = ecdh_generate_key_impl-ok p laws curve s generated in
        let shared =
          ecdh_compute_shared_secret_impl-ok p laws curve eph msg1.ephemeral_pub_i s1 agreed in
        let split = sigma_i_derive_keys_impl-ok secret s2 derived ∙ ap i_keys_of shared in
        subst (RespondsSealed msg1 identity) made (
          eph.private_key_der,
          pair,
          ap session_keys_of split,
          ap (λ (k : SigmaIKeys). k.enc_key_i) split,
          subst
              (λ (k : SigmaIKeys).
                Sealed k.enc_key_r keys.mac_key (msg1.ephemeral_pub_i ++ eph.public_key_der)
                  identity bundle)
              split (sig, mac, s3, s4, s5, s6, signed, tagged, sealed),
        )
