-- ===== src/SigmaI/Acceptance.antt =====
-- safe-crypto-lib/sigma_i.hpp: the last step of the responder where it accepts.
use claude_crypto.Base.{true, ◌++◌, ◌≡◌, refl, ap}
use mathlib.Core.Bool.{false≢true}
use claude_crypto.Api.Result.{Bytes, CryptoErrorCode, Expected, ok, unexpected}
use claude_crypto.Api.Provider.{CryptoProvider}
use claude_crypto.Api.Ecc.{EcCurve}
use claude_crypto.Api.Success.{CryptoLaws, pure-ok}
use claude_crypto.Sigma.{SigmaMsg1}
use claude_crypto.Sigma.Checks.{Valid, acceptance-true}
use claude_crypto.SigmaI.{
  SigmaIMsg2, SigmaIMsg3, SigmaIResponderState, sigma_i_aes_gcm_decrypt_impl,
  responder_check_bundle, responder_open, sigma_i_responder_finish_impl,
}
use claude_crypto.SigmaI.Bundle.{SigmaIBundlePlaintext, sigma_i_deserialize_bundle}
use claude_crypto.SigmaI.Outcomes.{sigma_i_aes_gcm_decrypt_impl-ok, Proves}

module _ (p : CryptoProvider) (laws : CryptoLaws p) (curve : EcCurve) where
  open p use {State}
  open laws use {SigVerifies, MacVerifies}

  check_bundle-true :
      (r : Expected CryptoErrorCode SigmaIBundlePlaintext) (state : SigmaIResponderState)
      (msg1 : SigmaMsg1) (msg2 : SigmaIMsg2) (expected : Bytes) (s : State) {t : State}
      → responder_check_bundle p curve r state msg1 msg2 expected s ≡ (ok true, t)
      → (parts : SigmaIBundlePlaintext) × (r ≡ ok parts)
        × Valid p laws curve state.session_keys.mac_key
            (msg1.ephemeral_pub_i ++ msg2.ephemeral_pub_r)
            expected
            parts.identity_pub
            parts.signature
            parts.mac
  unfolding responder_check_bundle
  check_bundle-true (unexpected c) state msg1 msg2 expected s h =
      absurd (false≢true (pure-ok _ s h).0)
  check_bundle-true (ok parts) state msg1 msg2 expected s h = (
    parts,
    refl,
    acceptance-true p laws curve state.session_keys.mac_key
        (msg1.ephemeral_pub_i ++ msg2.ephemeral_pub_r) expected parts.identity_pub parts.signature
        parts.mac s h,
  )

  responder_open-true :
      (r : Expected CryptoErrorCode Bytes) (state : SigmaIResponderState) (msg1 : SigmaMsg1)
      (msg2 : SigmaIMsg2) (expected : Bytes) (s : State) {t : State}
      → responder_open p curve r state msg1 msg2 expected s ≡ (ok true, t)
      → (text : Bytes) × (r ≡ ok text)
        × (responder_check_bundle p curve
              (sigma_i_deserialize_bundle text)
              state
              msg1
              msg2
              expected
              s
            ≡ (ok true, t))
  unfolding responder_open
  responder_open-true (unexpected c) state msg1 msg2 expected s h =
      absurd (false≢true (pure-ok _ s h).0)
  responder_open-true (ok text) state msg1 msg2 expected s h = (text, refl, h)

  -- For providers whose calls compute what CryptoLaws documents (imported and exported keys, a
  -- commutative key agreement, a derivation that is a function, verifications that are sound):
  -- the responder's last step with encrypted identities answers true only if the initiator's
  -- bundle opens under the encryption key that the responder kept to a text that parses, and the
  -- parsed bundle holds the expected identity, a MAC of it that verifies under the MAC key of the
  -- session, and a signature by it that verifies over the initiator's and then the responder's
  -- ephemeral public key.
  pub sigma_i_responder_authenticates :
      (msg3 : SigmaIMsg3) (state : SigmaIResponderState) (msg1 : SigmaMsg1) (msg2 : SigmaIMsg2)
      (expected : Bytes) (s : State) {t : State}
      → sigma_i_responder_finish_impl p curve msg3 state msg1 msg2 expected s ≡ (ok true, t)
      → Proves p laws state.enc_key_i state.session_keys.mac_key msg3.bundle_i expected
          (msg1.ephemeral_pub_i ++ msg2.ephemeral_pub_r)
  unfolding sigma_i_responder_finish_impl
  sigma_i_responder_authenticates msg3 state msg1 msg2 expected s h =
      let d = sigma_i_aes_gcm_decrypt_impl p state.enc_key_i msg3.bundle_i s in
      let (text, opened, checked) = responder_open-true d.0 state msg1 msg2 expected d.1 h in
      let (parts, parsed, (named, mac_valid, sig_valid)) =
        check_bundle-true (sigma_i_deserialize_bundle text) state msg1 msg2 expected d.1 checked in
      record {
        text = text;
        parts = parts;
        opens =
            sigma_i_aes_gcm_decrypt_impl-ok p laws state.enc_key_i msg3.bundle_i s
              (ap (λ (r : Expected CryptoErrorCode Bytes). (r, d.1)) opened);
        parsed = parsed;
        named = named;
        mac_valid = mac_valid;
        signature_valid = sig_valid;
      }
