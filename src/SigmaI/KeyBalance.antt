-- ===== src/SigmaI/KeyBalance.antt =====
-- safe-crypto-lib/sigma_i.hpp: the keys that the steps of the exchange create and destroy.
use claude_crypto.Base.{◌≡◌, ◌∙◌}
use claude_crypto.Api.Result.{Bytes, CryptoErrorCode, Expected, ok, unexpected}
use claude_crypto.Api.Provider.{CryptoProvider}
use claude_crypto.Api.Ecc.{EcCurve, EccKeyPair}
use claude_crypto.Api.KeyBalance.{KeyAccounting, IsBalanced}
use claude_crypto.Api.KeyBalance.Operations.{balance_rules, random_bytes_fixed_impl-IsBalanced}
use claude_crypto.Sigma.{SigmaMsg1, SigmaInitiatorState}
use claude_crypto.Sigma.KeyBalance.{operation_rules}
use claude_crypto.SigmaI.Bundle.{SigmaIBundlePlaintext, sigma_i_deserialize_bundle}
use claude_crypto.SigmaI.{
  SigmaIBundle, SigmaIMsg2, SigmaIMsg3, SigmaIResponderState, sigma_i_derive_keys_impl,
  sigma_i_aes_gcm_encrypt_impl, sigma_i_aes_gcm_decrypt_impl, sigma_i_responder_respond_impl,
  sigma_i_initiator_finish_impl, sigma_i_responder_finish_impl, responder_open, SigmaIKeys,
  initiator_check_bundle, responder_check_bundle,
}

module _ (p : CryptoProvider) (acc : KeyAccounting p) where
  open acc use {import_live, encrypt_live, decrypt_live, hkdf_live}

  derive-IsBalanced : (secret : Bytes) → IsBalanced p acc (sigma_i_derive_keys_impl p secret)
  unfolding sigma_i_derive_keys_impl
  derive-IsBalanced secret = search (balance_rules, hkdf_live)

  encrypt-IsBalanced :
      (key text : Bytes) → IsBalanced p acc (sigma_i_aes_gcm_encrypt_impl p key text)
  unfolding sigma_i_aes_gcm_encrypt_impl
  encrypt-IsBalanced key text =
      search (balance_rules, random_bytes_fixed_impl-IsBalanced, import_live, encrypt_live) depth 10

  decrypt-IsBalanced :
      (key : Bytes) (bundle : SigmaIBundle)
      → IsBalanced p acc (sigma_i_aes_gcm_decrypt_impl p key bundle)
  unfolding sigma_i_aes_gcm_decrypt_impl
  decrypt-IsBalanced key bundle = search (balance_rules, import_live, decrypt_live) depth 8

  module _ (curve : EcCurve) where
    -- For a provider whose calls keep the key accounting (a created key is live until it is
    -- destroyed, and no other call changes the live keys), sigma_i_responder_respond_impl ends
    -- with the live keys that it began with, on every path: each key that it creates is
    -- destroyed, whether it succeeds or fails.
    pub sigma_i_responder_respond_impl-IsBalanced :
        (msg1 : SigmaMsg1) (identity : EccKeyPair)
        → IsBalanced p acc (sigma_i_responder_respond_impl p curve msg1 identity)
    unfolding sigma_i_responder_respond_impl
    sigma_i_responder_respond_impl-IsBalanced msg1 identity =
        search (operation_rules, derive-IsBalanced, encrypt-IsBalanced) depth 14

    initiator_check_bundle-IsBalanced :
        (keys : SigmaIKeys) (parts : SigmaIBundlePlaintext) (signed : Bytes) (identity : EccKeyPair)
        (expected : Bytes)
        → IsBalanced p acc (initiator_check_bundle p curve keys parts signed identity expected)
    unfolding initiator_check_bundle
    initiator_check_bundle-IsBalanced keys parts signed identity expected =
        search (operation_rules, encrypt-IsBalanced) depth 14

    -- For a provider whose calls keep the key accounting (a created key is live until it is
    -- destroyed, and no other call changes the live keys), sigma_i_initiator_finish_impl ends
    -- with the live keys that it began with, on every path: each key that it creates is
    -- destroyed, whether it succeeds or fails.
    pub sigma_i_initiator_finish_impl-IsBalanced :
        (state : SigmaInitiatorState) (msg2 : SigmaIMsg2) (identity : EccKeyPair) (expected : Bytes)
        → IsBalanced p acc (sigma_i_initiator_finish_impl p curve state msg2 identity expected)
    unfolding sigma_i_initiator_finish_impl
    sigma_i_initiator_finish_impl-IsBalanced state msg2 identity expected =
        search
          (
            operation_rules, derive-IsBalanced, decrypt-IsBalanced,
            initiator_check_bundle-IsBalanced,
          )
          depth 10

    check-IsBalanced :
        (r : Expected CryptoErrorCode SigmaIBundlePlaintext) (state : SigmaIResponderState)
        (msg1 : SigmaMsg1) (msg2 : SigmaIMsg2) (expected : Bytes)
        → IsBalanced p acc (responder_check_bundle p curve r state msg1 msg2 expected)
    unfolding responder_check_bundle
    check-IsBalanced (ok bundle) state msg1 msg2 expected = search operation_rules depth 8
    check-IsBalanced (unexpected c) state msg1 msg2 expected = search operation_rules

    open-IsBalanced :
        (r : Expected CryptoErrorCode Bytes) (state : SigmaIResponderState) (msg1 : SigmaMsg1)
        (msg2 : SigmaIMsg2) (expected : Bytes)
        → IsBalanced p acc (responder_open p curve r state msg1 msg2 expected)
    unfolding responder_open
    open-IsBalanced (ok text) state msg1 msg2 expected =
        check-IsBalanced (sigma_i_deserialize_bundle text) state msg1 msg2 expected
    open-IsBalanced (unexpected c) state msg1 msg2 expected = search operation_rules

    -- For a provider whose calls keep the key accounting (a created key is live until it is
    -- destroyed, and no other call changes the live keys), sigma_i_responder_finish_impl ends
    -- with the live keys that it began with, on every path: each key that it creates is
    -- destroyed, whether it succeeds or fails.
    pub sigma_i_responder_finish_impl-IsBalanced :
        (msg3 : SigmaIMsg3) (state : SigmaIResponderState) (msg1 : SigmaMsg1) (msg2 : SigmaIMsg2)
        (expected : Bytes)
        → IsBalanced p acc (sigma_i_responder_finish_impl p curve msg3 state msg1 msg2 expected)
    unfolding sigma_i_responder_finish_impl
    sigma_i_responder_finish_impl-IsBalanced msg3 state msg1 msg2 expected = record {
      at = λ s. go s;
    }
      where
        go :
            (s : p.State)
            → acc.live (sigma_i_responder_finish_impl p curve msg3 state msg1 msg2 expected s).1
              ≡ acc.live s
        go s =
            let d = sigma_i_aes_gcm_decrypt_impl p state.enc_key_i msg3.bundle_i s in
            (open-IsBalanced d.0 state msg1 msg2 expected).at d.1
            ∙ (decrypt-IsBalanced state.enc_key_i msg3.bundle_i).at s
