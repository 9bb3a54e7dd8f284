-- ===== src/SigmaI/Agreement.antt =====
-- safe-crypto-lib/sigma_i.hpp: the two ends of the exchange with encrypted identities.
use claude_crypto.Base.{[], ◌++◌, ◌≡◌, refl, sym, ap, subst, ◌∙◌}
use claude_crypto.Api.Result.{Bytes, ok, >>=-ok}
use claude_crypto.Api.Provider.{CryptoProvider}
use claude_crypto.Api.Ecc.{EcCurve, EccKeyPair}
use claude_crypto.Api.Success.{CryptoLaws, pure-ok}
use claude_crypto.Api.Success.Outcomes.{ecdh_compute_shared_secret_impl-ok}
use claude_crypto.Sigma.{
  SigmaSessionKeys, SigmaInitiatorState, SigmaInitiatorInitResult, sigma_initiator_begin_impl,
}
use claude_crypto.Sigma.Checks.{Valid, checks-ok}
use claude_crypto.Sigma.Outcomes.{sigma_initiator_begin_impl-ok}
use claude_crypto.SigmaI.{
  SigmaIMsg2, SigmaIResponderRespondResult, SigmaIInitiatorFinishResult, SigmaIKeys,
  session_keys_of, sigma_i_responder_respond_impl, sigma_i_initiator_finish_impl,
  initiator_check_bundle,
}
use claude_crypto.SigmaI.Bundle.{SigmaIBundlePlaintext, sigma_i_deserialize_bundle}
use claude_crypto.SigmaI.Outcomes.{
  lift-ok, i_keys_of, sigma_i_derive_keys_impl-ok, sigma_i_aes_gcm_decrypt_impl-ok, Proves, Sealed,
  Unsealed, sigma_i_responder_respond_impl-ok,
}

module _ (p : CryptoProvider) (laws : CryptoLaws p) (curve : EcCurve) where
  open p use {State}
  open laws use {dh, SigVerifies, MacVerifies}

  -- The keys of the initiator: from its ephemeral private key and the responder's public key.
  abbrev pub initiator_keys : SigmaInitiatorState → SigmaIMsg2 → SigmaIKeys
  initiator_keys state msg2 =
      i_keys_of p laws (dh state.ephemeral_key_pair.private_key_der msg2.ephemeral_pub_r)

  -- What the initiator has checked when it hands out keys, and what it has encrypted.
  abbrev Checked :
      SigmaInitiatorState → SigmaIMsg2 → EccKeyPair → Bytes → SigmaIInitiatorFinishResult → Type 0
  Checked state msg2 identity expected r =
      (r.session_keys ≡ session_keys_of (initiator_keys state msg2))
      × Proves p laws (initiator_keys state msg2).enc_key_r r.session_keys.mac_key msg2.bundle_r
          expected (state.ephemeral_pub_i ++ msg2.ephemeral_pub_r)
      × Unsealed p laws (initiator_keys state msg2).enc_key_r msg2.bundle_r
      × Sealed p laws curve (initiator_keys state msg2).enc_key_i r.session_keys.mac_key
          (state.ephemeral_pub_i ++ msg2.ephemeral_pub_r) identity r.msg3.bundle_i

  -- What the checks on the bundle have established where they pass.
  abbrev Passed :
      SigmaIKeys
      → SigmaIBundlePlaintext
      → Bytes
      → EccKeyPair
      → Bytes
      → SigmaIInitiatorFinishResult
      → Type 0
  Passed keys parts signed identity expected r =
      (r.session_keys ≡ session_keys_of keys)
      × Valid p laws curve r.session_keys.mac_key signed expected parts.identity_pub parts.signature
          parts.mac
      × Sealed p laws curve keys.enc_key_i r.session_keys.mac_key signed identity r.msg3.bundle_i

  initiator_check_bundle-ok :
      (keys : SigmaIKeys) (parts : SigmaIBundlePlaintext) (signed : Bytes) (identity : EccKeyPair)
      (expected : Bytes) (s : State) {r : SigmaIInitiatorFinishResult} {t : State}
      → initiator_check_bundle p curve keys parts signed identity expected s ≡ (ok r, t)
      → Passed keys parts signed identity expected r
  unfolding initiator_check_bundle
  initiator_check_bundle-ok keys parts signed identity expected s h =
      let (checked, (s1, h1)) =
        checks-ok p laws curve keys.mac_key signed expected parts.identity_pub parts.signature
          parts.mac _ s h in
      let (sig_i, s2, made_sig, h2) = >>=-ok _ _ s1 h1 in
      let (mac_i, s3, tagged, h3) = >>=-ok _ _ s2 h2 in
      let (bundle_i, s4, sealed, h4) = >>=-ok _ _ s3 h3 in
      let (made, _) = pure-ok _ s4 h4 in
      subst (Passed keys parts signed identity expected) made
        (refl, checked, (sig_i, mac_i, s1, s2, s3, s4, made_sig, tagged, sealed))

  sigma_i_initiator_finish_impl-ok :
      (state : SigmaInitiatorState) (msg2 : SigmaIMsg2) (identity : EccKeyPair) (expected : Bytes)
      (s : State) {r : SigmaIInitiatorFinishResult} {t : State}
      → sigma_i_initiator_finish_impl p curve state msg2 identity expected s ≡ (ok r, t)
      → Checked state msg2 identity expected r
  unfolding sigma_i_initiator_finish_impl
  sigma_i_initiator_finish_impl-ok state msg2 identity expected s {r} h =
      let (secret, s1, agreed, h1) = >>=-ok _ _ s h in
      let (keys, s2, derived, h2) = >>=-ok _ _ s1 h1 in
      let (text, s3, opened, h3) = >>=-ok _ _ s2 h2 in
      let (parts, s4, parsed, h4) = >>=-ok _ _ s3 h3 in
      let (kept, (named, mac_valid, sig_valid), encrypted) =
        initiator_check_bundle-ok keys parts (state.ephemeral_pub_i ++ msg2.ephemeral_pub_r)
          identity expected s4 h4 in
      let split : keys ≡ initiator_keys state msg2 =
        sigma_i_derive_keys_impl-ok p laws secret s1 derived
        ∙ ap (i_keys_of p laws) (
            ecdh_compute_shared_secret_impl-ok p laws curve state.ephemeral_key_pair
              msg2.ephemeral_pub_r s agreed) in
      (
        kept ∙ ap session_keys_of split,
        record {
          text = text;
          parts = parts;
          opens =
              subst
                (λ (k : SigmaIKeys).
                  laws.AesGcmOpens k.enc_key_r msg2.bundle_r.iv [] msg2.bundle_r.ciphertext text)
                split
                (sigma_i_aes_gcm_decrypt_impl-ok p laws keys.enc_key_r msg2.bundle_r s2 opened);
          parsed = lift-ok (sigma_i_deserialize_bundle text) s3 parsed;
          named = named;
          mac_valid = mac_valid;
          signature_valid = sig_valid;
        },
        subst (λ (k : SigmaIKeys). Unsealed p laws k.enc_key_r msg2.bundle_r) split
            (text, s2, s3, opened),
        subst
            (λ (k : SigmaIKeys).
              Sealed p laws curve k.enc_key_i r.session_keys.mac_key
                (state.ephemeral_pub_i ++ msg2.ephemeral_pub_r) identity r.msg3.bundle_i)
            split encrypted,
      )

  -- For providers whose calls compute what CryptoLaws documents (imported and exported keys, a
  -- commutative key agreement, a derivation that is a function, verifications that are sound):
  -- where the messages arrive as they were sent and the three steps of the exchange with
  -- encrypted identities succeed, in whatever states of the provider, the initiator ends with the
  -- session keys of the responder; the bundle that it sends is what an encryption, under the key
  -- that the responder keeps to decrypt it, has made of its public key, a signature that it made
  -- over the initiator's and then the responder's ephemeral public key, and a MAC of its public
  -- key under the MAC key of the session; and the responder's bundle is made in the same way of
  -- the responder's identity, under a key under which that bundle has been decrypted.
  pub sigma_i_keys_agree :
      (responder initiator : EccKeyPair) (expected : Bytes) (s0 s1 s2 : State)
      {init : SigmaInitiatorInitResult} {resp : SigmaIResponderRespondResult}
      {fin : SigmaIInitiatorFinishResult} {t0 t1 t2 : State}
      → sigma_initiator_begin_impl p curve s0 ≡ (ok init, t0)
      → sigma_i_responder_respond_impl p curve init.msg1 responder s1 ≡ (ok resp, t1)
      → sigma_i_initiator_finish_impl p curve init.state resp.msg2 initiator expected s2
        ≡ (ok fin, t2)
      → (fin.session_keys ≡ resp.responder_state.session_keys)
        × Sealed p laws curve resp.responder_state.enc_key_i fin.session_keys.mac_key
            (init.msg1.ephemeral_pub_i ++ resp.msg2.ephemeral_pub_r)
            initiator
            fin.msg3.bundle_i
        × ((key : Bytes) × Sealed p laws curve key fin.session_keys.mac_key
              (init.msg1.ephemeral_pub_i ++ resp.msg2.ephemeral_pub_r)
              responder
              resp.msg2.bundle_r
            × Unsealed p laws key resp.msg2.bundle_r)
  sigma_i_keys_agree responder initiator expected s0 s1 s2 {init} {resp} {fin} h0 h1 h2 =
      let (sent, kept) = sigma_initiator_begin_impl-ok p laws curve s0 h0 in
      let (eph, answered, theirs, kept_key, sent_bundle) =
        sigma_i_responder_respond_impl-ok p laws curve init.msg1 responder s1 h1 in
      let (ours, proof, opened, sealed) =
        sigma_i_initiator_finish_impl-ok init.state resp.msg2 initiator expected s2 h2 in
      let mine : Bytes = init.state.ephemeral_key_pair.private_key_der in
      let secrets : laws.dh mine resp.msg2.ephemeral_pub_r ≡ laws.dh eph init.msg1.ephemeral_pub_i =
        ap (laws.dh mine) answered ∙ laws.dh_comm mine eph ∙ ap (laws.dh eph) (sym sent) in
      let keys = ap (i_keys_of p laws) secrets in
      let same_keys : fin.session_keys ≡ resp.responder_state.session_keys =
        ours ∙ ap session_keys_of keys ∙ sym theirs in
      (
        same_keys,
        subst
            (λ (k : Bytes).
              Sealed p laws curve k fin.session_keys.mac_key
                (init.msg1.ephemeral_pub_i ++ resp.msg2.ephemeral_pub_r) initiator
                fin.msg3.bundle_i)
            (ap (λ (k : SigmaIKeys). k.enc_key_i) keys ∙ sym kept_key)
            (subst
              (λ (x : Bytes).
                Sealed p laws curve (initiator_keys init.state resp.msg2).enc_key_i
                  fin.session_keys.mac_key (x ++ resp.msg2.ephemeral_pub_r) initiator
                  fin.msg3.bundle_i)
              kept sealed),
        (
          (initiator_keys init.state resp.msg2).enc_key_r,
          subst
              (λ (k : SigmaIKeys).
                Sealed p laws curve k.enc_key_r fin.session_keys.mac_key
                  (init.msg1.ephemeral_pub_i ++ resp.msg2.ephemeral_pub_r) responder
                  resp.msg2.bundle_r)
              (sym keys)
              (subst
                (λ (k : SigmaSessionKeys).
                  Sealed p laws curve
                    (i_keys_of p laws (laws.dh eph init.msg1.ephemeral_pub_i)).enc_key_r k.mac_key
                    (init.msg1.ephemeral_pub_i ++ resp.msg2.ephemeral_pub_r) responder
                    resp.msg2.bundle_r)
                (sym same_keys) sent_bundle),
          opened,
        ),
      )

  -- For providers whose calls compute what CryptoLaws documents (imported and exported keys, a
  -- commutative key agreement, a derivation that is a function, verifications that are sound):
  -- the initiator's last step with encrypted identities succeeds only if the responder's bundle
  -- opens under the responder's encryption key of the agreed secret to a text that parses, and
  -- the parsed bundle holds the expected identity, a MAC of it that verifies under the MAC key
  -- handed out, and a signature by it that verifies over the initiator's and then the responder's
  -- ephemeral public key.
  pub sigma_i_initiator_authenticates :
      (state : SigmaInitiatorState) (msg2 : SigmaIMsg2) (initiator : EccKeyPair) (expected : Bytes)
      (s : State) {fin : SigmaIInitiatorFinishResult} {t : State}
      → sigma_i_initiator_finish_impl p curve state msg2 initiator expected s ≡ (ok fin, t)
      → Proves p laws
          (initiator_keys state msg2).enc_key_r
          fin.session_keys.mac_key
          msg2.bundle_r
          expected
          (state.ephemeral_pub_i ++ msg2.ephemeral_pub_r)
  sigma_i_initiator_authenticates state msg2 initiator expected s h =
      let (kept, proof, opened, sealed) =
        sigma_i_initiator_finish_impl-ok state msg2 initiator expected s h in
      proof
