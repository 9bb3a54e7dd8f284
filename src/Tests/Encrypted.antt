-- ===== src/Tests/Encrypted.antt =====
-- A run of the exchange of sigma_i.hpp on the toy provider.
use claude_crypto.Base.{[], ◌∷◌, ◌++◌, ◌≡◌, refl, true, replicate}
use claude_crypto.Api.Result.{Bytes, ok, ◌>>=◌}
use claude_crypto.Api.Provider.{
  sha_output_size, require_init, try_call, status_call, with_key_handle,
}
use claude_crypto.Api.Random.{random_bytes_fixed_impl}
use claude_crypto.Api.Mac.{hmac_generate_impl, hmac_verify_impl}
use claude_crypto.Api.Ecc.{p256, EccKeyPair, ecdsa_sign_impl, ecdsa_verify_impl}
use claude_crypto.Api.Ecdh.{ecdh_generate_key_impl, ecdh_compute_shared_secret_impl}
use claude_crypto.Api.KeyBalance.{IsBalanced}
use claude_crypto.Sigma.{SigmaSessionKeys, SigmaInitiatorInitResult, sigma_initiator_begin_impl}
use claude_crypto.SigmaI.{
  SigmaIResponderRespondResult, SigmaIInitiatorFinishResult, sigma_i_derive_keys_impl,
  sigma_i_aes_gcm_encrypt_impl, sigma_i_aes_gcm_decrypt_impl, sigma_i_responder_respond_impl,
  sigma_i_initiator_finish_impl, sigma_i_responder_finish_impl,
}
use claude_crypto.SigmaI.Bundle.{sigma_i_serialize_bundle, sigma_i_deserialize_bundle}
use claude_crypto.SigmaI.KeyBalance.{
  sigma_i_responder_respond_impl-IsBalanced, sigma_i_initiator_finish_impl-IsBalanced,
}
use claude_crypto.SigmaI.Outcomes.{Proves, Sealed, Unsealed}
use claude_crypto.SigmaI.Agreement.{
  initiator_keys, sigma_i_keys_agree, sigma_i_initiator_authenticates,
}
use claude_crypto.SigmaI.Acceptance.{sigma_i_responder_authenticates}
use claude_crypto.Tests.Toy.{toy, toy_accounting, toy_laws}

abbrev ephemeral : Bytes
ephemeral = 4 ∷ 7 ∷ 0 ∷ []

abbrev responder : EccKeyPair
responder = record { private_key_der = 10 ∷ []; public_key_der = 4 ∷ 10 ∷ [] }

abbrev initiator : EccKeyPair
initiator = record { private_key_der = 20 ∷ []; public_key_der = 4 ∷ 20 ∷ [] }

abbrev started : SigmaInitiatorInitResult
started = record {
  msg1 = record { ephemeral_pub_i = ephemeral };
  state = record {
    ephemeral_key_pair = record { private_key_der = 7 ∷ 0 ∷ []; public_key_der = ephemeral };
    ephemeral_pub_i = ephemeral;
  };
}

abbrev keys : SigmaSessionKeys
keys = record { mac_key = replicate 48 185; session_key = replicate 32 185 }

abbrev answered : SigmaIResponderRespondResult
answered = record {
  msg2 = record {
    ephemeral_pub_r = ephemeral;
    bundle_r = record {
      iv = replicate 12 9;
      ciphertext = replicate 32 185 ++ (0 ∷ 2 ∷ 4 ∷ 10 ∷ 0 ∷ 1 ∷ 40 ∷ replicate 48 190);
    };
  };
  responder_state = record { session_keys = keys; enc_key_i = replicate 32 185 };
}

abbrev finished : SigmaIInitiatorFinishResult
finished = record {
  msg3 = record {
    bundle_i = record {
      iv = replicate 12 9;
      ciphertext = replicate 32 185 ++ (0 ∷ 2 ∷ 4 ∷ 20 ∷ 0 ∷ 1 ∷ 50 ∷ replicate 48 200);
    };
  };
  session_keys = keys;
}

begin_run : sigma_initiator_begin_impl toy p256 [] ≡ (ok started, [])
unfolding sigma_initiator_begin_impl ecdh_generate_key_impl require_init try_call with_key_handle
    ◌>>=◌
begin_run = refl

respond_run : sigma_i_responder_respond_impl toy p256 started.msg1 responder [] ≡ (ok answered, [])
unfolding ecdh_generate_key_impl ecdh_compute_shared_secret_impl ecdsa_sign_impl ecdsa_verify_impl
    hmac_generate_impl hmac_verify_impl random_bytes_fixed_impl sigma_i_derive_keys_impl
    sigma_i_aes_gcm_encrypt_impl sigma_i_aes_gcm_decrypt_impl sigma_i_serialize_bundle
    sigma_i_deserialize_bundle require_init try_call status_call with_key_handle sha_output_size
    ◌>>=◌ sigma_i_responder_respond_impl
respond_run = refl

finish_run :
    sigma_i_initiator_finish_impl toy p256 started.state answered.msg2 initiator (4 ∷ 10 ∷ []) []
    ≡ (ok finished, [])
unfolding ecdh_generate_key_impl ecdh_compute_shared_secret_impl ecdsa_sign_impl ecdsa_verify_impl
    hmac_generate_impl hmac_verify_impl random_bytes_fixed_impl sigma_i_derive_keys_impl
    sigma_i_aes_gcm_encrypt_impl sigma_i_aes_gcm_decrypt_impl sigma_i_serialize_bundle
    sigma_i_deserialize_bundle require_init try_call status_call with_key_handle sha_output_size
    ◌>>=◌ sigma_i_initiator_finish_impl
finish_run = refl

accept_run :
    sigma_i_responder_finish_impl toy p256 finished.msg3 answered.responder_state started.msg1
      answered.msg2
      (4 ∷ 20 ∷ [])
      []
    ≡ (ok true, [])
unfolding ecdh_generate_key_impl ecdh_compute_shared_secret_impl ecdsa_sign_impl ecdsa_verify_impl
    hmac_generate_impl hmac_verify_impl random_bytes_fixed_impl sigma_i_derive_keys_impl
    sigma_i_aes_gcm_encrypt_impl sigma_i_aes_gcm_decrypt_impl sigma_i_serialize_bundle
    sigma_i_deserialize_bundle require_init try_call status_call with_key_handle sha_output_size
    ◌>>=◌ sigma_i_responder_finish_impl
accept_run = refl

sigma_i_keys_agree_example :
    (finished.session_keys ≡ answered.responder_state.session_keys)
    × Sealed toy toy_laws p256 answered.responder_state.enc_key_i keys.mac_key
        (ephemeral ++ ephemeral)
        initiator
        finished.msg3.bundle_i
    × ((key : Bytes) × Sealed toy toy_laws p256 key keys.mac_key
          (ephemeral ++ ephemeral)
          responder
          answered.msg2.bundle_r
        × Unsealed toy toy_laws key answered.msg2.bundle_r)
sigma_i_keys_agree_example =
    sigma_i_keys_agree toy toy_laws p256 responder initiator (4 ∷ 10 ∷ []) [] [] [] begin_run
      respond_run finish_run

sigma_i_initiator_authenticates_example :
    Proves toy toy_laws
      (initiator_keys toy toy_laws p256 started.state answered.msg2).enc_key_r
      finished.session_keys.mac_key
      answered.msg2.bundle_r
      (4 ∷ 10 ∷ [])
      (ephemeral ++ ephemeral)
sigma_i_initiator_authenticates_example =
    sigma_i_initiator_authenticates toy toy_laws p256 started.state answered.msg2 initiator
      (4 ∷ 10 ∷ []) [] finish_run

sigma_i_responder_authenticates_example :
    Proves toy toy_laws answered.responder_state.enc_key_i keys.mac_key finished.msg3.bundle_i
      (4 ∷ 20 ∷ [])
      (ephemeral ++ ephemeral)
sigma_i_responder_authenticates_example =
    sigma_i_responder_authenticates toy toy_laws p256 finished.msg3 answered.responder_state
      started.msg1 answered.msg2 (4 ∷ 20 ∷ []) [] accept_run

sigma_i_responder_respond_impl-IsBalanced_example :
    IsBalanced toy toy_accounting (sigma_i_responder_respond_impl toy p256 started.msg1 responder)
sigma_i_responder_respond_impl-IsBalanced_example =
    sigma_i_responder_respond_impl-IsBalanced toy toy_accounting p256 started.msg1 responder

sigma_i_initiator_finish_impl-IsBalanced_example :
    IsBalanced toy toy_accounting
      (sigma_i_initiator_finish_impl toy p256 started.state answered.msg2 initiator (4 ∷ 10 ∷ []))
sigma_i_initiator_finish_impl-IsBalanced_example =
    sigma_i_initiator_finish_impl-IsBalanced toy toy_accounting p256 started.state answered.msg2
      initiator (4 ∷ 10 ∷ [])
