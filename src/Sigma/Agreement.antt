-- ===== src/Sigma/Agreement.antt =====
-- The two ends of a key exchange, put together.
use claude_crypto.Base.{◌++◌, ◌≡◌, sym, ap, ◌∙◌, true}
use claude_crypto.Api.Result.{Bytes, ok}
use claude_crypto.Api.Provider.{CryptoProvider, sha384}
use claude_crypto.Api.Ecc.{EcCurve, EccKeyPair}
use claude_crypto.Api.Success.{CryptoLaws}
use claude_crypto.Sigma.{
  SigmaMsg1, SigmaMsg2, SigmaMsg3, SigmaSessionKeys, SigmaInitiatorState, SigmaInitiatorInitResult,
  SigmaResponderRespondResult, SigmaInitiatorFinishResult, sigma_initiator_begin_impl,
  sigma_responder_respond_impl, sigma_initiator_finish_impl, sigma_responder_finish_impl,
}
use claude_crypto.Sigma.Outcomes.{
  keys_of, sigma_initiator_begin_impl-ok, sigma_responder_respond_impl-ok,
  sigma_initiator_finish_impl-ok, sigma_responder_finish_impl-true,
}

module _ (p : CryptoProvider) (laws : CryptoLaws p) (curve : EcCurve) where
  open p use {State}
  open laws use {SigVerifies, MacVerifies}

  -- For providers whose calls compute what CryptoLaws documents (imported and exported keys, a
  -- commutative key agreement, a derivation that is a function, verifications that are sound):
  -- where the messages arrive as they were sent and the three steps of the exchange succeed, in
  -- whatever states of the provider, the initiator ends with the session keys of the responder.
  pub sigma_keys_agree :
      (responder initiator : EccKeyPair) (expected : Bytes) (s0 s1 s2 : State)
      {init : SigmaInitiatorInitResult} {resp : SigmaResponderRespondResult}
      {fin : SigmaInitiatorFinishResult} {t0 t1 t2 : State}
      → sigma_initiator_begin_impl p curve s0 ≡ (ok init, t0)
      → sigma_responder_respond_impl p curve init.msg1 responder s1 ≡ (ok resp, t1)
      → sigma_initiator_finish_impl p curve init.state resp.msg2 initiator expected s2
        ≡ (ok fin, t2)
      → fin.session_keys ≡ resp.session_keys
  sigma_keys_agree responder initiator expected s0 s1 s2 {init} {resp} {fin} h0 h1 h2 =
      let (sent, kept) = sigma_initiator_begin_impl-ok p laws curve s0 h0 in
      let (eph, answered, theirs, named) =
        sigma_responder_respond_impl-ok p laws curve init.msg1 responder s1 h1 in
      let (ours, checked) =
        sigma_initiator_finish_impl-ok p laws curve init.state resp.msg2 initiator expected s2 h2 in
      let mine : Bytes = init.state.ephemeral_key_pair.private_key_der in
      let secrets : laws.dh mine resp.msg2.ephemeral_pub_r ≡ laws.dh eph init.msg1.ephemeral_pub_i =
        ap (laws.dh mine) answered ∙ laws.dh_comm mine eph ∙ ap (laws.dh eph) (sym sent) in
      ours ∙ ap (keys_of p laws) secrets ∙ sym theirs

  -- For providers whose calls compute what CryptoLaws documents (imported and exported keys, a
  -- commutative key agreement, a derivation that is a function, verifications that are sound):
  -- the initiator's last step succeeds only if the message carries the expected identity, a MAC
  -- of that identity that verifies under the MAC key handed out, and a signature by that identity
  -- that verifies over the initiator's and then the responder's ephemeral public key.
  pub sigma_initiator_authenticates :
      (state : SigmaInitiatorState) (msg2 : SigmaMsg2) (initiator : EccKeyPair) (expected : Bytes)
      (s : State) {fin : SigmaInitiatorFinishResult} {t : State}
      → sigma_initiator_finish_impl p curve state msg2 initiator expected s ≡ (ok fin, t)
      → (msg2.identity_pub_r ≡ expected)
        × MacVerifies sha384 fin.session_keys.mac_key expected msg2.mac_r
        × SigVerifies expected (state.ephemeral_pub_i ++ msg2.ephemeral_pub_r) msg2.signature_r
  sigma_initiator_authenticates state msg2 initiator expected s h =
      let (keys, checked) =
        sigma_initiator_finish_impl-ok p laws curve state msg2 initiator expected s h in
      checked

  -- For providers whose calls compute what CryptoLaws documents (imported and exported keys, a
  -- commutative key agreement, a derivation that is a function, verifications that are sound):
  -- the responder's last step answers true only if the message carries the expected identity, a
  -- MAC of that identity that verifies under the MAC key of the session, and a signature by that
  -- identity that verifies over the initiator's and then the responder's ephemeral public key.
  pub sigma_responder_authenticates :
      (msg3 : SigmaMsg3) (keys : SigmaSessionKeys) (msg1 : SigmaMsg1) (msg2 : SigmaMsg2)
      (expected : Bytes) (s : State) {t : State}
      → sigma_responder_finish_impl p curve msg3 keys msg1 msg2 expected s ≡ (ok true, t)
      → (msg3.identity_pub_i ≡ expected)
        × MacVerifies sha384 keys.mac_key expected msg3.mac_i
        × SigVerifies expected (msg1.ephemeral_pub_i ++ msg2.ephemeral_pub_r) msg3.signature_i
  sigma_responder_authenticates msg3 keys msg1 msg2 expected s h =
      sigma_responder_finish_impl-true p laws curve msg3 keys msg1 msg2 expected s h
