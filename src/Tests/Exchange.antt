-- ===== src/Tests/Exchange.antt =====
-- A run of the exchange of sigma.hpp on the toy provider.
use claude_crypto.Base.{[], ◌∷◌, ◌≡◌, refl, true, replicate}
use claude_crypto.Api.Result.{ok, ◌>>=◌}
use claude_crypto.Api.Provider.{
  sha384, sha_output_size, require_init, try_call, status_call, with_key_handle,
}
use claude_crypto.Api.Ecc.{p256, EccKeyPair, ecdsa_sign_impl, ecdsa_verify_impl}
use claude_crypto.Api.Ecdh.{ecdh_generate_key_impl, ecdh_compute_shared_secret_impl}
use claude_crypto.Api.Mac.{hmac_generate_impl, hmac_verify_impl}
use claude_crypto.Sigma.{
  SigmaSessionKeys, SigmaInitiatorInitResult, SigmaResponderRespondResult,
  SigmaInitiatorFinishResult, sigma_initiator_begin_impl, sigma_responder_respond_impl,
  sigma_initiator_finish_impl, sigma_responder_finish_impl, sigma_derive_keys_impl,
}
use claude_crypto.Sigma.Agreement.{
  sigma_keys_agree, sigma_initiator_authenticates, sigma_responder_authenticates,
}
use claude_crypto.Api.KeyBalance.{IsBalanced}
use claude_crypto.Sigma.KeyBalance.{sigma_initiator_finish_impl-IsBalanced}
use claude_crypto.Tests.Toy.{toy, toy_accounting, toy_laws}

abbrev pub responder : EccKeyPair
responder = record { private_key_der = 10 ∷ []; public_key_der = 4 ∷ 10 ∷ [] }

abbrev pub initiator : EccKeyPair
initiator = record { private_key_der = 20 ∷ []; public_key_der = 4 ∷ 20 ∷ [] }

abbrev started : SigmaInitiatorInitResult
started = record {
  msg1 = record { ephemeral_pub_i = 4 ∷ 7 ∷ 0 ∷ [] };
  state = record {
    ephemeral_key_pair = record { private_key_der = 7 ∷ 0 ∷ []; public_key_der = 4 ∷ 7 ∷ 0 ∷ [] };
    ephemeral_pub_i = 4 ∷ 7 ∷ 0 ∷ [];
  };
}

begin_run : sigma_initiator_begin_impl toy p256 [] ≡ (ok started, [])
unfolding sigma_initiator_begin_impl ecdh_generate_key_impl require_init try_call with_key_handle
    ◌>>=◌
begin_run = refl

abbrev keys : SigmaSessionKeys
keys = record { mac_key = replicate 48 35; session_key = replicate 32 35 }

abbrev answered : SigmaResponderRespondResult
answered = record {
  msg2 = record {
    ephemeral_pub_r = 4 ∷ 7 ∷ 0 ∷ [];
    identity_pub_r = 4 ∷ 10 ∷ [];
    signature_r = 40 ∷ [];
    mac_r = replicate 48 158;
  };
  session_keys = keys;
}

abbrev finished : SigmaInitiatorFinishResult
finished = record {
  msg3 = record { identity_pub_i = 4 ∷ 20 ∷ []; signature_i = 50 ∷ []; mac_i = replicate 48 168 };
  session_keys = keys;
}

respond_run : sigma_responder_respond_impl toy p256 started.msg1 responder [] ≡ (ok answered, [])
unfolding ecdh_generate_key_impl ecdh_compute_shared_secret_impl ecdsa_sign_impl ecdsa_verify_impl
    hmac_generate_impl hmac_verify_impl sigma_derive_keys_impl require_init try_call status_call
    with_key_handle sha_output_size ◌>>=◌ sigma_responder_respond_impl
respond_run = refl

finish_run :
    sigma_initiator_finish_impl toy p256 started.state answered.msg2 initiator (4 ∷ 10 ∷ []) []
    ≡ (ok finished, [])
unfolding ecdh_generate_key_impl ecdh_compute_shared_secret_impl ecdsa_sign_impl ecdsa_verify_impl
    hmac_generate_impl hmac_verify_impl sigma_derive_keys_impl require_init try_call status_call
    with_key_handle sha_output_size ◌>>=◌ sigma_initiator_finish_impl
finish_run = refl

accept_run :
    sigma_responder_finish_impl toy p256 finished.msg3 keys started.msg1 answered.msg2
      (4 ∷ 20 ∷ [])
      []
    ≡ (ok true, [])
unfolding ecdh_generate_key_impl ecdh_compute_shared_secret_impl ecdsa_sign_impl ecdsa_verify_impl
    hmac_generate_impl hmac_verify_impl sigma_derive_keys_impl require_init try_call status_call
    with_key_handle sha_output_size ◌>>=◌ sigma_responder_finish_impl
accept_run = refl

sigma_keys_agree_example : finished.session_keys ≡ answered.session_keys
sigma_keys_agree_example =
    sigma_keys_agree toy toy_laws p256 responder initiator (4 ∷ 10 ∷ []) [] [] [] begin_run
      respond_run finish_run

sigma_initiator_authenticates_example :
    (answered.msg2.identity_pub_r ≡ 4 ∷ 10 ∷ [])
    × toy_laws.MacVerifies sha384 keys.mac_key (4 ∷ 10 ∷ []) answered.msg2.mac_r
    × toy_laws.SigVerifies (4 ∷ 10 ∷ []) (4 ∷ 7 ∷ 0 ∷ 4 ∷ 7 ∷ 0 ∷ []) answered.msg2.signature_r
sigma_initiator_authenticates_example =
    sigma_initiator_authenticates toy toy_laws p256 started.state answered.msg2 initiator
      (4 ∷ 10 ∷ []) [] finish_run

sigma_responder_authenticates_example :
    (finished.msg3.identity_pub_i ≡ 4 ∷ 20 ∷ [])
    × toy_laws.MacVerifies sha384 keys.mac_key (4 ∷ 20 ∷ []) finished.msg3.mac_i
    × toy_laws.SigVerifies (4 ∷ 20 ∷ []) (4 ∷ 7 ∷ 0 ∷ 4 ∷ 7 ∷ 0 ∷ []) finished.msg3.signature_i
sigma_responder_authenticates_example =
    sigma_responder_authenticates toy toy_laws p256 finished.msg3 keys started.msg1 answered.msg2
      (4 ∷ 20 ∷ []) [] accept_run

sigma_initiator_finish_impl-IsBalanced_example :
    IsBalanced toy toy_accounting
      (sigma_initiator_finish_impl toy p256 started.state answered.msg2 initiator (4 ∷ 10 ∷ []))
sigma_initiator_finish_impl-IsBalanced_example =
    sigma_initiator_finish_impl-IsBalanced toy toy_accounting p256 started.state answered.msg2
      initiator (4 ∷ 10 ∷ [])
