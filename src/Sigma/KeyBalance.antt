-- ===== src/Sigma/KeyBalance.antt =====
-- safe-crypto-lib/sigma.hpp: the keys that the steps of the exchange create and destroy.
use claude_crypto.Api.Result.{Bytes}
use claude_crypto.Api.Provider.{CryptoProvider}
use claude_crypto.Api.Ecc.{EcCurve, EccKeyPair}
use claude_crypto.Api.KeyBalance.{KeyAccounting, IsBalanced}
use claude_crypto.Api.KeyBalance.Operations.{
  balance_rules, hmac_generate_impl-IsBalanced, hmac_verify_impl-IsBalanced,
  ecdsa_sign_impl-IsBalanced, ecdsa_verify_impl-IsBalanced, ecdh_generate_key_impl-IsBalanced,
  ecdh_compute_shared_secret_impl-IsBalanced,
}
use claude_crypto.Sigma.{
  SigmaMsg1, SigmaMsg2, SigmaMsg3, SigmaSessionKeys, SigmaInitiatorState, sigma_derive_keys_impl,
  initiator_shared_secret, sigma_initiator_begin_impl, sigma_responder_respond_impl,
  sigma_initiator_finish_impl, sigma_responder_finish_impl,
}

pub ruleset operation_rules = (
  balance_rules, hmac_generate_impl-IsBalanced, hmac_verify_impl-IsBalanced,
  ecdsa_sign_impl-IsBalanced, ecdsa_verify_impl-IsBalanced, ecdh_generate_key_impl-IsBalanced,
  ecdh_compute_shared_secret_impl-IsBalanced,
)

module _ (p : CryptoProvider) (acc : KeyAccounting p) where
  open acc use {hkdf_live}

  sigma_derive_keys_impl-IsBalanced :
      (secret : Bytes) → IsBalanced p acc (sigma_derive_keys_impl p secret)
  unfolding sigma_derive_keys_impl
  sigma_derive_keys_impl-IsBalanced secret = search (balance_rules, hkdf_live)

  module _ (curve : EcCurve) where
    initiator_shared_secret-IsBalanced :
        (keys : EccKeyPair) (peer : Bytes)
        → IsBalanced p acc (initiator_shared_secret p curve keys peer)
    unfolding initiator_shared_secret
    initiator_shared_secret-IsBalanced keys peer = record {
      at = λ s. (ecdh_compute_shared_secret_impl-IsBalanced p acc curve keys peer).at s;
    }

    pub sigma_initiator_begin_impl-IsBalanced :
        IsBalanced p acc (sigma_initiator_begin_impl p curve)
    unfolding sigma_initiator_begin_impl
    sigma_initiator_begin_impl-IsBalanced = search operation_rules

    -- For a provider whose calls keep the key accounting (a created key is live until it is
    -- destroyed, and no other call changes the live keys), sigma_responder_respond_impl ends with
    -- the live keys that it began with, on every path: each key that it creates is destroyed,
    -- whether it succeeds or fails.
    pub sigma_responder_respond_impl-IsBalanced :
        (msg1 : SigmaMsg1) (identity : EccKeyPair)
        → IsBalanced p acc (sigma_responder_respond_impl p curve msg1 identity)
    unfolding sigma_responder_respond_impl
    sigma_responder_respond_impl-IsBalanced msg1 identity =
        search (operation_rules, sigma_derive_keys_impl-IsBalanced) depth 12

    -- For a provider whose calls keep the key accounting (a created key is live until it is
    -- destroyed, and no other call changes the live keys), sigma_initiator_finish_impl ends with
    -- the live keys that it began with, on every path: each key that it creates is destroyed,
    -- whether it succeeds or fails.
    pub sigma_initiator_finish_impl-IsBalanced :
        (state : SigmaInitiatorState) (msg2 : SigmaMsg2) (identity : EccKeyPair) (expected : Bytes)
        → IsBalanced p acc (sigma_initiator_finish_impl p curve state msg2 identity expected)
    unfolding sigma_initiator_finish_impl
    sigma_initiator_finish_impl-IsBalanced state msg2 identity expected =
        search
          (operation_rules, sigma_derive_keys_impl-IsBalanced, initiator_shared_secret-IsBalanced)
          depth 14

    -- For a provider whose calls keep the key accounting (a created key is live until it is
    -- destroyed, and no other call changes the live keys), sigma_responder_finish_impl ends with
    -- the live keys that it began with, on every path: each key that it creates is destroyed,
    -- whether it succeeds or fails.
    pub sigma_responder_finish_impl-IsBalanced :
        (msg3 : SigmaMsg3) (keys : SigmaSessionKeys) (msg1 : SigmaMsg1) (msg2 : SigmaMsg2)
        (expected : Bytes)
        → IsBalanced p acc (sigma_responder_finish_impl p curve msg3 keys msg1 msg2 expected)
    unfolding sigma_responder_finish_impl
    sigma_responder_finish_impl-IsBalanced msg3 keys msg1 msg2 expected =
        search operation_rules depth 8
