-- ===== src/SigmaI.antt =====
-- safe-crypto-lib/sigma_i.hpp: SIGMA with the identities encrypted.
pub mod Bundle
pub mod KeyBalance
pub mod Outcomes
pub mod Agreement
pub mod Acceptance
use claude_crypto.Base.{ℕ, Bool, true, false, not, List, [], ◌∷◌, if◌then◌else◌, take, drop}
use claude_crypto.Api.Result.{
  Bytes, CryptoErrorCode, key_import_failed, encryption_failed, kdf_output_failed,
  sigma_auth_failed, Expected, ok, unexpected, Exec, pure, lift, ◌>>=◌, ◌>>◌,
}
use claude_crypto.Api.Provider.{CryptoProvider, sha384, require_init, try_call, with_key_handle}
use claude_crypto.Api.Aead.{aes_gcm_iv_size_bytes}
use claude_crypto.Api.Random.{random_bytes_fixed_impl}
use claude_crypto.Api.Mac.{hmac_generate_impl, hmac_verify_impl}
use claude_crypto.Api.Ecc.{EcCurve, EccKeyPair, ecdsa_sign_impl, ecdsa_verify_impl}
use claude_crypto.Api.Ecdh.{ecdh_generate_key_impl, ecdh_compute_shared_secret_impl}
use claude_crypto.Sigma.{
  SigmaMsg1, SigmaSessionKeys, SigmaInitiatorState, concat_buffers, differs, require_auth,
}
use Bundle.{SigmaIBundlePlaintext, sigma_i_serialize_bundle, sigma_i_deserialize_bundle}

pub record SigmaIBundle : Type 0 where
  pub iv : Bytes
  pub ciphertext : Bytes

pub record SigmaIMsg2 : Type 0 where
  pub ephemeral_pub_r : Bytes
  pub bundle_r : SigmaIBundle

pub record SigmaIMsg3 : Type 0 where
  pub bundle_i : SigmaIBundle

pub record SigmaIResponderState : Type 0 where
  pub session_keys : SigmaSessionKeys
  pub enc_key_i : Bytes

pub record SigmaIResponderRespondResult : Type 0 where
  pub msg2 : SigmaIMsg2
  pub responder_state : SigmaIResponderState

pub record SigmaIInitiatorFinishResult : Type 0 where
  pub msg3 : SigmaIMsg3
  pub session_keys : SigmaSessionKeys

pub record SigmaIKeys : Type 0 where
  pub mac_key : Bytes
  pub session_key : Bytes
  pub enc_key_r : Bytes
  pub enc_key_i : Bytes

abbrev pub sigma_i_info : Bytes
sigma_i_info = b's' ∷ b'i' ∷ b'g' ∷ b'm' ∷ b'a' ∷ b'-' ∷ b'i' ∷ []

-- The slices of the 144 bytes of output.
unfoldable pub split_i_keys : Bytes → SigmaIKeys
split_i_keys output = record {
  mac_key = take 48 output;
  session_key = take 32 (drop 48 output);
  enc_key_r = take 32 (drop 80 output);
  enc_key_i = take 32 (drop 112 output);
}

abbrev pub session_keys_of : SigmaIKeys → SigmaSessionKeys
session_keys_of keys = record { mac_key = keys.mac_key; session_key = keys.session_key }

module _ (p : CryptoProvider) where
  open p use {
    State, hkdf_derive, make_aes256_gcm_encrypt_attrs, make_aes256_gcm_decrypt_attrs, alg_aes_gcm,
    import_key, aead_encrypt, aead_decrypt,
  }

  unfoldable pub sigma_i_derive_keys_impl : Bytes → Exec State SigmaIKeys
  unfolding split_i_keys
  sigma_i_derive_keys_impl shared_secret = do
    require_init p
    output ← try_call p kdf_output_failed (hkdf_derive shared_secret [] sigma_i_info 144 false)
    pure (split_i_keys output)

  unfoldable pub sigma_i_aes_gcm_encrypt_impl : Bytes → Bytes → Exec State SigmaIBundle
  sigma_i_aes_gcm_encrypt_impl key plaintext = do
    require_init p
    iv ← random_bytes_fixed_impl p aes_gcm_iv_size_bytes
    id ← try_call p key_import_failed (import_key make_aes256_gcm_encrypt_attrs key)
    with_key_handle p id λ id. do
      ct ← try_call p encryption_failed (aead_encrypt id alg_aes_gcm iv [] plaintext)
      pure (record { iv = iv; ciphertext = ct })

  unfoldable pub sigma_i_aes_gcm_decrypt_impl : Bytes → SigmaIBundle → Exec State Bytes
  sigma_i_aes_gcm_decrypt_impl key bundle = do
    require_init p
    id ← try_call p key_import_failed (import_key make_aes256_gcm_decrypt_attrs key)
    with_key_handle p id λ id.
        try_call p sigma_auth_failed (aead_decrypt id alg_aes_gcm bundle.iv [] bundle.ciphertext)

module _ (p : CryptoProvider) (curve : EcCurve) where
  open p use {State}

  unfoldable pub sigma_i_responder_respond_impl :
      SigmaMsg1 → EccKeyPair → Exec State SigmaIResponderRespondResult
  sigma_i_responder_respond_impl msg1 responder_identity = do
    eph_r ← ecdh_generate_key_impl p curve
    shared_secret ← ecdh_compute_shared_secret_impl p curve eph_r msg1.ephemeral_pub_i
    keys ← sigma_i_derive_keys_impl p shared_secret
    sig_r ←
        ecdsa_sign_impl p curve responder_identity
          (concat_buffers msg1.ephemeral_pub_i eph_r.public_key_der)
    mac_r ← hmac_generate_impl p sha384 keys.mac_key responder_identity.public_key_der
    bundle_r ←
        sigma_i_aes_gcm_encrypt_impl p keys.enc_key_r
          (sigma_i_serialize_bundle responder_identity.public_key_der sig_r mac_r)
    pure (record {
      msg2 = record { ephemeral_pub_r = eph_r.public_key_der; bundle_r = bundle_r };
      responder_state = record { session_keys = session_keys_of keys; enc_key_i = keys.enc_key_i };
    })

  -- The initiator's step from the parsed bundle on: the checks, and the answer.
  pub initiator_check_bundle :
      SigmaIKeys
      → SigmaIBundlePlaintext
      → Bytes
      → EccKeyPair
      → Bytes
      → Exec State SigmaIInitiatorFinishResult
  unfolding differs
  initiator_check_bundle keys bundle_r sign_input initiator_identity expected_responder_pub = do
    require_auth (not (differs bundle_r.identity_pub expected_responder_pub))
    mac_ok ← hmac_verify_impl p sha384 keys.mac_key bundle_r.identity_pub bundle_r.mac
    require_auth mac_ok
    sig_ok ←
        ecdsa_verify_impl p curve (record { public_key_der = bundle_r.identity_pub }) sign_input
          bundle_r.signature
    require_auth sig_ok
    sig_i ← ecdsa_sign_impl p curve initiator_identity sign_input
    mac_i ← hmac_generate_impl p sha384 keys.mac_key initiator_identity.public_key_der
    bundle_i ←
        sigma_i_aes_gcm_encrypt_impl p keys.enc_key_i
          (sigma_i_serialize_bundle initiator_identity.public_key_der sig_i mac_i)
    pure (record { msg3 = record { bundle_i = bundle_i }; session_keys = session_keys_of keys })

  unfoldable pub sigma_i_initiator_finish_impl :
      SigmaInitiatorState → SigmaIMsg2 → EccKeyPair → Bytes → Exec State SigmaIInitiatorFinishResult
  unfolding initiator_check_bundle
  sigma_i_initiator_finish_impl state msg2 initiator_identity expected_responder_pub = do
    shared_secret ←
        ecdh_compute_shared_secret_impl p curve state.ephemeral_key_pair msg2.ephemeral_pub_r
    keys ← sigma_i_derive_keys_impl p shared_secret
    plaintext_r ← sigma_i_aes_gcm_decrypt_impl p keys.enc_key_r msg2.bundle_r
    bundle_r ← lift (sigma_i_deserialize_bundle plaintext_r)
    initiator_check_bundle keys bundle_r (concat_buffers state.ephemeral_pub_i msg2.ephemeral_pub_r)
        initiator_identity expected_responder_pub

  -- The last checks of the responder, on a bundle that was decrypted and parsed.
  responder_check_bundle_signature :
      SigmaIBundlePlaintext → SigmaMsg1 → SigmaIMsg2 → Bool → Exec State Bool
  responder_check_bundle_signature bundle_i msg1 msg2 mac_ok =
      if mac_ok
      then ecdsa_verify_impl p curve (record { public_key_der = bundle_i.identity_pub })
          (concat_buffers msg1.ephemeral_pub_i msg2.ephemeral_pub_r) bundle_i.signature
      else pure false

  responder_check_bundle :
      Expected CryptoErrorCode SigmaIBundlePlaintext
      → SigmaIResponderState
      → SigmaMsg1
      → SigmaIMsg2
      → Bytes
      → Exec State Bool
  unfolding responder_check_bundle_signature differs
  responder_check_bundle (unexpected c) responder_state msg1 msg2 expected = pure false
  responder_check_bundle (ok bundle_i) responder_state msg1 msg2 expected =
      if differs bundle_i.identity_pub expected then pure false else do
        mac_ok ←
            hmac_verify_impl p sha384 responder_state.session_keys.mac_key bundle_i.identity_pub
              bundle_i.mac
        responder_check_bundle_signature bundle_i msg1 msg2 mac_ok

  -- A bundle that does not decrypt is refused like one that does not verify.
  responder_open :
      Expected CryptoErrorCode Bytes
      → SigmaIResponderState
      → SigmaMsg1
      → SigmaIMsg2
      → Bytes
      → Exec State Bool
  unfolding responder_check_bundle
  responder_open (unexpected c) responder_state msg1 msg2 expected = pure false
  responder_open (ok plaintext_i) responder_state msg1 msg2 expected =
      responder_check_bundle (sigma_i_deserialize_bundle plaintext_i) responder_state msg1 msg2
        expected

  unfoldable pub sigma_i_responder_finish_impl :
      SigmaIMsg3 → SigmaIResponderState → SigmaMsg1 → SigmaIMsg2 → Bytes → Exec State Bool
  unfolding responder_open
  sigma_i_responder_finish_impl msg3 responder_state msg1 msg2 expected_initiator_pub s =
      let (plaintext_i, t) =
        sigma_i_aes_gcm_decrypt_impl p responder_state.enc_key_i msg3.bundle_i s in
      responder_open plaintext_i responder_state msg1 msg2 expected_initiator_pub t
