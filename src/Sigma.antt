-- ===== src/Sigma.antt =====
-- safe-crypto-lib/sigma.hpp: the SIGMA authenticated key exchange. The four steps are functions of
-- the provider; what they return are the messages and the keys of the source.
pub mod KeyBalance
pub mod Checks
pub mod Outcomes
pub mod Agreement
pub mod Vouching
pub mod Steps
pub mod Completion
use claude_crypto.Base.{
  ℕ, Bool, false, not, ◌||◌, [], ◌∷◌, ◌++◌, ◌==◌, if◌then◌else◌, length, take, drop, equal,
}
use claude_crypto.Api.Result.{
  Bytes, CryptoErrorCode, key_agreement_failed, kdf_output_failed, sigma_auth_failed, Expected, ok,
  unexpected, Exec, pure, fail, ◌>>=◌, ◌>>◌,
}
use claude_crypto.Api.Provider.{CryptoProvider, sha384, require_init, try_call}
use claude_crypto.Api.Mac.{hmac_generate_impl, hmac_verify_impl}
use claude_crypto.Api.Ecc.{EcCurve, EccKeyPair, ecdsa_sign_impl, ecdsa_verify_impl}
use claude_crypto.Api.Ecdh.{ecdh_generate_key_impl, ecdh_compute_shared_secret_impl}

abbrev pub sigma_mac_key_size_bytes : ℕ
sigma_mac_key_size_bytes = 48

abbrev pub sigma_session_key_size_bytes : ℕ
sigma_session_key_size_bytes = 32

pub record SigmaMsg1 : Type 0 where
  pub ephemeral_pub_i : Bytes

pub record SigmaMsg2 : Type 0 where
  pub ephemeral_pub_r : Bytes
  pub identity_pub_r : Bytes
  pub signature_r : Bytes
  pub mac_r : Bytes

pub record SigmaMsg3 : Type 0 where
  pub identity_pub_i : Bytes
  pub signature_i : Bytes
  pub mac_i : Bytes

pub record SigmaSessionKeys : Type 0 where
  pub mac_key : Bytes
  pub session_key : Bytes

pub record SigmaInitiatorState : Type 0 where
  pub ephemeral_key_pair : EccKeyPair
  pub ephemeral_pub_i : Bytes

pub record SigmaInitiatorInitResult : Type 0 where
  pub msg1 : SigmaMsg1
  pub state : SigmaInitiatorState

pub record SigmaResponderRespondResult : Type 0 where
  pub msg2 : SigmaMsg2
  pub session_keys : SigmaSessionKeys

pub record SigmaInitiatorFinishResult : Type 0 where
  pub msg3 : SigmaMsg3
  pub session_keys : SigmaSessionKeys

abbrev pub concat_buffers : Bytes → Bytes → Bytes
concat_buffers a b = a ++ b

-- `a.size() != b.size() || !std::ranges::equal(a, b)`
unfoldable pub differs : Bytes → Bytes → Bool
differs a b = not (length a == length b) || not (equal a b)

abbrev pub sigma_info : Bytes
sigma_info = b's' ∷ b'i' ∷ b'g' ∷ b'm' ∷ b'a' ∷ []

-- The two keys are the first 48 bytes of the output and the 32 bytes behind them.
unfoldable pub split_keys : Bytes → SigmaSessionKeys
split_keys output = record {
  mac_key = take sigma_mac_key_size_bytes output;
  session_key = take sigma_session_key_size_bytes (drop sigma_mac_key_size_bytes output);
}

-- `if (!test) return SigmaAuthFailed`
abbrev pub require_auth : {S : Type 0} → Bool → Exec S (Unit {0})
require_auth holds = if holds then pure tt else fail sigma_auth_failed

-- A failed key agreement is reported as an authentication failure, other errors as they are.
unfoldable pub agreement_code : CryptoErrorCode → CryptoErrorCode
agreement_code key_agreement_failed = sigma_auth_failed
agreement_code c = c

unfoldable pub agreement_as_auth : Expected CryptoErrorCode Bytes → Expected CryptoErrorCode Bytes
unfolding agreement_code
agreement_as_auth (ok secret) = ok secret
agreement_as_auth (unexpected c) = unexpected (agreement_code c)

module _ (p : CryptoProvider) where
  open p use {State, hkdf_derive}

  unfoldable pub sigma_derive_keys_impl : Bytes → Exec State SigmaSessionKeys
  unfolding split_keys
  sigma_derive_keys_impl shared_secret = do
    require_init p
    output ← try_call p kdf_output_failed (hkdf_derive shared_secret [] sigma_info 80 false)
    pure (split_keys output)

module _ (p : CryptoProvider) (curve : EcCurve) where
  open p use {State}

  unfoldable pub sigma_initiator_begin_impl : Exec State SigmaInitiatorInitResult
  sigma_initiator_begin_impl = do
    eph ← ecdh_generate_key_impl p curve
    pure (record {
      msg1 = record { ephemeral_pub_i = eph.public_key_der };
      state = record { ephemeral_key_pair = eph; ephemeral_pub_i = eph.public_key_der };
    })

  unfoldable pub sigma_responder_respond_impl :
      SigmaMsg1 → EccKeyPair → Exec State SigmaResponderRespondResult
  sigma_responder_respond_impl msg1 responder_identity = do
    eph_r ← ecdh_generate_key_impl p curve
    shared_secret ← ecdh_compute_shared_secret_impl p curve eph_r msg1.ephemeral_pub_i
    keys ← sigma_derive_keys_impl p shared_secret
    sig_r ←
        ecdsa_sign_impl p curve responder_identity
          (concat_buffers msg1.ephemeral_pub_i eph_r.public_key_der)
    mac_r ← hmac_generate_impl p sha384 keys.mac_key responder_identity.public_key_der
    pure (record {
      msg2 = record {
        ephemeral_pub_r = eph_r.public_key_der;
        identity_pub_r = responder_identity.public_key_der;
        signature_r = sig_r;
        mac_r = mac_r;
      };
      session_keys = keys;
    })

  unfoldable pub initiator_shared_secret : EccKeyPair → Bytes → Exec State Bytes
  unfolding agreement_as_auth
  initiator_shared_secret key_pair peer s =
      let (r, t) = ecdh_compute_shared_secret_impl p curve key_pair peer s in
      (agreement_as_auth r, t)

  unfoldable pub sigma_initiator_finish_impl :
      SigmaInitiatorState → SigmaMsg2 → EccKeyPair → Bytes → Exec State SigmaInitiatorFinishResult
  unfolding initiator_shared_secret differs
  sigma_initiator_finish_impl state msg2 initiator_identity expected_responder_pub = do
    shared_secret ← initiator_shared_secret state.ephemeral_key_pair msg2.ephemeral_pub_r
    keys ← sigma_derive_keys_impl p shared_secret
    require_auth (not (differs msg2.identity_pub_r expected_responder_pub))
    mac_ok ← hmac_verify_impl p sha384 keys.mac_key msg2.identity_pub_r msg2.mac_r
    require_auth mac_ok
    let sign_input = concat_buffers state.ephemeral_pub_i msg2.ephemeral_pub_r
    sig_ok ←
        ecdsa_verify_impl p curve (record { public_key_der = msg2.identity_pub_r }) sign_input
          msg2.signature_r
    require_auth sig_ok
    sig_i ← ecdsa_sign_impl p curve initiator_identity sign_input
    mac_i ← hmac_generate_impl p sha384 keys.mac_key initiator_identity.public_key_der
    pure (record {
      msg3 = record {
        identity_pub_i = initiator_identity.public_key_der;
        signature_i = sig_i;
        mac_i = mac_i;
      };
      session_keys = keys;
    })

  -- The check of the initiator's signature, after its MAC.
  responder_check_signature : SigmaMsg3 → SigmaMsg1 → SigmaMsg2 → Bool → Exec State Bool
  responder_check_signature msg3 msg1 msg2 mac_ok =
      if mac_ok
      then ecdsa_verify_impl p curve (record { public_key_der = msg3.identity_pub_i })
          (concat_buffers msg1.ephemeral_pub_i msg2.ephemeral_pub_r) msg3.signature_i
      else pure false

  unfoldable pub sigma_responder_finish_impl :
      SigmaMsg3 → SigmaSessionKeys → SigmaMsg1 → SigmaMsg2 → Bytes → Exec State Bool
  unfolding responder_check_signature differs
  sigma_responder_finish_impl msg3 session_keys msg1 msg2 expected_initiator_pub =
      if differs msg3.identity_pub_i expected_initiator_pub then pure false else do
        mac_ok ← hmac_verify_impl p sha384 session_keys.mac_key msg3.identity_pub_i msg3.mac_i
        responder_check_signature msg3 msg1 msg2 mac_ok
