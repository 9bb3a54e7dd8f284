-- ===== src/Sigma/Outcomes.antt =====
-- safe-crypto-lib/sigma.hpp: the steps of the exchange where they succeed.
use claude_crypto.Base.{true, false, [], ◌++◌, ◌≡◌, refl, sym, ap, subst, ◌∙◌}
use claude_crypto.Api.Result.{Bytes, CryptoErrorCode, Expected, ok, unexpected, >>=-ok}
use claude_crypto.Api.Provider.{CryptoProvider}
use claude_crypto.Api.Ecc.{EcCurve, EccKeyPair}
use claude_crypto.Api.Ecdh.{ecdh_compute_shared_secret_impl}
use claude_crypto.Api.Success.{CryptoLaws, pure-ok, try_call-ok}
use claude_crypto.Api.Success.Outcomes.{
  ecdh_generate_key_impl-ok, ecdh_compute_shared_secret_impl-ok,
}
use claude_crypto.Sigma.Checks.{Valid, checks-ok, acceptance-true}
use claude_crypto.Sigma.{
  SigmaMsg1, SigmaMsg2, SigmaMsg3, SigmaSessionKeys, SigmaInitiatorState, SigmaInitiatorInitResult,
  SigmaResponderRespondResult, SigmaInitiatorFinishResult, sigma_info, split_keys,
  agreement_as_auth, sigma_derive_keys_impl, initiator_shared_secret, sigma_initiator_begin_impl,
  sigma_responder_respond_impl, sigma_initiator_finish_impl, sigma_responder_finish_impl,
}

module _ (p : CryptoProvider) (laws : CryptoLaws p) where
  open p use {State}
  open laws use {public_of, dh, kdf, SigVerifies, MacVerifies}

  -- The session keys of a shared secret.
  abbrev pub keys_of : Bytes → SigmaSessionKeys
  keys_of secret = split_keys (kdf secret [] sigma_info 80 false)

  sigma_derive_keys_impl-ok :
      (secret : Bytes) (s : State) {keys : SigmaSessionKeys} {t : State}
      → sigma_derive_keys_impl p secret s ≡ (ok keys, t)
      → keys ≡ keys_of secret
  unfolding sigma_derive_keys_impl
  sigma_derive_keys_impl-ok secret s h =
      let (_, s1, initialised, h1) = >>=-ok _ _ s h in
      let (output, s2, derived, h2) = >>=-ok _ _ s1 h1 in
      let (made, _) = pure-ok _ s2 h2 in
      sym made
      ∙ ap split_keys
          (laws.hkdf_kdf secret [] sigma_info 80 false s1 (try_call-ok p _ _ s1 derived))

  module _ (curve : EcCurve) where
    initiator_shared_secret-ok :
        (keys : EccKeyPair) (peer : Bytes) (s : State) {x : Bytes} {t : State}
        → initiator_shared_secret p curve keys peer s ≡ (ok x, t)
        → x ≡ dh keys.private_key_der peer
    unfolding initiator_shared_secret
    initiator_shared_secret-ok keys peer s {x} {t} h =
        ecdh_compute_shared_secret_impl-ok p laws curve keys peer s
          (go (ecdh_compute_shared_secret_impl p curve keys peer s) h)
      where
        go :
            (r : Expected CryptoErrorCode Bytes × State)
            → ◌≡◌ {A = Expected CryptoErrorCode Bytes × State}
                (agreement_as_auth r.0, r.1)
                (ok x, t)
            → r ≡ (ok x, t)
        go (ok y, u) e = unfold agreement_as_auth in e
        go (unexpected c, u) e = unfold agreement_as_auth in cc e

    abbrev pub BeginsWell : SigmaInitiatorInitResult → Type 0
    BeginsWell r =
        (r.msg1.ephemeral_pub_i ≡ public_of r.state.ephemeral_key_pair.private_key_der)
        × (r.state.ephemeral_pub_i ≡ r.msg1.ephemeral_pub_i)

    -- The first message carries the public key of the private key that is kept.
    pub sigma_initiator_begin_impl-ok :
        (s : State) {r : SigmaInitiatorInitResult} {t : State}
        → sigma_initiator_begin_impl p curve s ≡ (ok r, t)
        → BeginsWell r
    unfolding sigma_initiator_begin_impl
    sigma_initiator_begin_impl-ok s h =
        let (eph, s1, generated, h1) = >>=-ok _ _ s h in
        let pair = ecdh_generate_key_impl-ok p laws curve s generated in
        let (made, _) = pure-ok _ s1 h1 in subst BeginsWell made (pair, refl)

    -- The responder's keys come from a fresh private key whose public key it sends.
    abbrev pub RespondsWell : SigmaMsg1 → EccKeyPair → SigmaResponderRespondResult → Type 0
    RespondsWell msg1 identity r =
        (eph : Bytes) × (r.msg2.ephemeral_pub_r ≡ public_of eph)
        × (r.session_keys ≡ keys_of (dh eph msg1.ephemeral_pub_i))
        × (r.msg2.identity_pub_r ≡ identity.public_key_der)

    pub sigma_responder_respond_impl-ok :
        (msg1 : SigmaMsg1) (identity : EccKeyPair) (s : State) {r : SigmaResponderRespondResult}
        {t : State}
        → sigma_responder_respond_impl p curve msg1 identity s ≡ (ok r, t)
        → RespondsWell msg1 identity r
    unfolding sigma_responder_respond_impl
    sigma_responder_respond_impl-ok msg1 identity s h =
        let (eph, s1, generated, h1) = >>=-ok _ _ s h in
        let (secret, s2, agreed, h2) = >>=-ok _ _ s1 h1 in
        let (keys, s3, derived, h3) = >>=-ok _ _ s2 h2 in
        let (sig, s4, signed, h4) = >>=-ok _ _ s3 h3 in
        let (mac, s5, tagged, h5) = >>=-ok _ _ s4 h4 in
        let (made, _) = pure-ok _ s5 h5 in
        let pair = ecdh_generate_key_impl-ok p laws curve s generated in
        let shared =
          ecdh_compute_shared_secret_impl-ok p laws curve eph msg1.ephemeral_pub_i s1 agreed in
        let split = sigma_derive_keys_impl-ok secret s2 derived in
        subst (RespondsWell msg1 identity) made
          (eph.private_key_der, pair, split ∙ ap keys_of shared, refl)

    -- What the initiator has checked when it hands out keys.
    abbrev pub Authenticated :
        SigmaInitiatorState → SigmaMsg2 → Bytes → SigmaInitiatorFinishResult → Type 0
    Authenticated state msg2 expected r =
        (r.session_keys
          ≡ keys_of (dh state.ephemeral_key_pair.private_key_der msg2.ephemeral_pub_r))
        × Valid p laws curve r.session_keys.mac_key (state.ephemeral_pub_i ++ msg2.ephemeral_pub_r)
            expected msg2.identity_pub_r msg2.signature_r msg2.mac_r

    pub sigma_initiator_finish_impl-ok :
        (state : SigmaInitiatorState) (msg2 : SigmaMsg2) (identity : EccKeyPair) (expected : Bytes)
        (s : State) {r : SigmaInitiatorFinishResult} {t : State}
        → sigma_initiator_finish_impl p curve state msg2 identity expected s ≡ (ok r, t)
        → Authenticated state msg2 expected r
    unfolding sigma_initiator_finish_impl
    sigma_initiator_finish_impl-ok state msg2 identity expected s h =
        let (secret, s1, agreed, h1) = >>=-ok _ _ s h in
        let (keys, s2, derived, h2) = >>=-ok _ _ s1 h1 in
        let shared =
          initiator_shared_secret-ok state.ephemeral_key_pair msg2.ephemeral_pub_r s agreed in
        let split = sigma_derive_keys_impl-ok secret s1 derived in
        let (checked, (s3, h3)) =
          checks-ok p laws curve keys.mac_key (state.ephemeral_pub_i ++ msg2.ephemeral_pub_r)
            expected msg2.identity_pub_r msg2.signature_r msg2.mac_r _ s2 h2 in
        let (sig_i, s4, signed, h4) = >>=-ok _ _ s3 h3 in
        let (mac_i, s5, tagged, h5) = >>=-ok _ _ s4 h4 in
        let (made, _) = pure-ok _ s5 h5 in
        subst (Authenticated state msg2 expected) made (split ∙ ap keys_of shared, checked)

    -- What the responder has checked when it accepts.
    abbrev pub Accepted : SigmaMsg3 → SigmaSessionKeys → SigmaMsg1 → SigmaMsg2 → Bytes → Type 0
    Accepted msg3 keys msg1 msg2 expected =
        Valid p laws curve keys.mac_key (msg1.ephemeral_pub_i ++ msg2.ephemeral_pub_r) expected
          msg3.identity_pub_i msg3.signature_i msg3.mac_i

    pub sigma_responder_finish_impl-true :
        (msg3 : SigmaMsg3) (keys : SigmaSessionKeys) (msg1 : SigmaMsg1) (msg2 : SigmaMsg2)
        (expected : Bytes) (s : State) {t : State}
        → sigma_responder_finish_impl p curve msg3 keys msg1 msg2 expected s ≡ (ok true, t)
        → Accepted msg3 keys msg1 msg2 expected
    unfolding sigma_responder_finish_impl
    sigma_responder_finish_impl-true msg3 keys msg1 msg2 expected s h =
        acceptance-true p laws curve keys.mac_key (msg1.ephemeral_pub_i ++ msg2.ephemeral_pub_r)
          expected msg3.identity_pub_i msg3.signature_i msg3.mac_i s h
