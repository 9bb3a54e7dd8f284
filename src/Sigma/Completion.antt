-- ===== src/Sigma/Completion.antt =====
-- safe-crypto-lib/sigma.hpp: an honest exchange, from the first message to the last on providers in working order.
use claude_crypto.Base.{subst, ap₂, Bool, true, ◌++◌, ◌≡◌, sym, ap, ◌∙◌}
use claude_crypto.Api.Result.{Bytes, ok}
use claude_crypto.Api.Provider.{CryptoProvider}
use claude_crypto.Api.Ecc.{EcCurve, EccKeyPair}
use claude_crypto.Api.Success.{CryptoLaws}
use claude_crypto.Api.Service.{CryptoService}
use claude_crypto.Api.Service.Operations.{IsPair}
use claude_crypto.Sigma.{
  SigmaInitiatorInitResult, SigmaResponderRespondResult, SigmaInitiatorFinishResult,
  sigma_initiator_begin_impl, sigma_responder_respond_impl, sigma_initiator_finish_impl,
  sigma_responder_finish_impl,
}
use claude_crypto.Sigma.Outcomes.{keys_of}
use claude_crypto.Sigma.Vouching.{Vouches-same}
use claude_crypto.Sigma.Steps.{
  mac_key_of, sigma_initiator_begin_impl-Answers, sigma_responder_respond_impl-Answers,
  sigma_initiator_finish_impl-Answers, sigma_responder_finish_impl-Answers,
}

module _ (p : CryptoProvider) (laws : CryptoLaws p) (curve : EcCurve)
    (service : CryptoService p laws curve) where
  open p use {State}
  open laws use {public_of, dh}
  open service use {Ready, IsPrivate, Signable, next_key}

  -- An honest exchange completes. For providers whose calls compute what CryptoLaws documents and
  -- work as CryptoService documents (a provider that is ready takes a key, the calls for which a
  -- held key was made succeed, and what is signed or tagged verifies), from a state of each side
  -- in which its provider is ready, with the key pairs of the two sides, each of which can sign
  -- the two ephemeral public keys that come next, and each side expecting the public key of the
  -- other: all four steps succeed on the messages as they are sent, the responder accepts, and
  -- the initiator holds the session keys of the responder.
  pub sigma_exchange_completes :
      (initiator responder : EccKeyPair) (s0 r0 : State)
      → IsPair p laws curve service initiator
      → IsPair p laws curve service responder
      → Signable initiator.private_key_der (public_of (next_key s0) ++ public_of (next_key r0))
      → Signable responder.private_key_der (public_of (next_key s0) ++ public_of (next_key r0))
      → Ready s0
      → Ready r0
      → (init : SigmaInitiatorInitResult) × (s1 : State) × (sigma_initiator_begin_impl p curve s0
          ≡ (ok init, s1))
        × (resp : SigmaResponderRespondResult) × (r1 : State) × (sigma_responder_respond_impl p
              curve init.msg1 responder r0
            ≡ (ok resp, r1))
        × (fin : SigmaInitiatorFinishResult) × (s2 : State) × (sigma_initiator_finish_impl p curve
              init.state resp.msg2 initiator responder.public_key_der s1
            ≡ (ok fin, s2))
        × (r2 : State) × (sigma_responder_finish_impl p curve fin.msg3 resp.session_keys init.msg1
              resp.msg2 initiator.public_key_der r1
            ≡ (ok true, r2))
        × (fin.session_keys ≡ resp.session_keys)
  sigma_exchange_completes initiator responder s0 r0 pair_i pair_r sign_i sign_r ready_s ready_r =
      let (init, s1, begun, ((private, sent, kept), ready_s1)) =
        sigma_initiator_begin_impl-Answers p laws curve service s0 ready_s in
      let d : Bytes = next_key s0 in
      let e : Bytes = next_key r0 in
      let d_private : IsPrivate d = service.next_private s0 ready_s in
      let e_private : IsPrivate e = service.next_private r0 ready_r in
      let mine : Bytes = init.state.ephemeral_key_pair.private_key_der in
      let (resp, r1, answered, ((sent_r, derived, sized, vouches), ready_r1)) =
        sigma_responder_respond_impl-Answers p laws curve service init.msg1 responder d r0 d_private
          sent pair_r.0 sign_r ready_r in
      let agree : resp.session_keys ≡ keys_of p laws (dh mine resp.msg2.ephemeral_pub_r) =
        derived
        ∙ ap (keys_of p laws) (
            ap (dh e) (sent ∙ ap public_of (sym private))
            ∙ laws.dh_comm e mine
            ∙ ap (dh mine) (sym sent_r)) in
      let (fin, s2, finished, ((same, vouches_i), ready_s2)) =
        sigma_initiator_finish_impl-Answers p laws curve service init.state resp.msg2 initiator
          responder e s1 (subst IsPrivate (sym private) d_private) e_private sent_r pair_r
          (Vouches-same p laws curve service responder resp.msg2.identity_pub_r
            resp.msg2.signature_r resp.msg2.mac_r
            (ap (λ (x : Bytes). x ++ resp.msg2.ephemeral_pub_r) (sym kept)) (ap mac_key_of agree)
            vouches)
          pair_i.0
          (subst (Signable initiator.private_key_der)
            (ap₂ (λ (x y : Bytes). x ++ y) (sym (kept ∙ sent)) (sym sent_r)) sign_i)
          ready_s1 in
      let equal_keys : fin.session_keys ≡ resp.session_keys = same ∙ sym agree in
      let (valid, r2, accepted, (right, ready_r2)) =
        sigma_responder_finish_impl-Answers p laws curve service fin.msg3 resp.session_keys
          init.msg1 resp.msg2 initiator r1 sized pair_i
          (Vouches-same p laws curve service initiator fin.msg3.identity_pub_i fin.msg3.signature_i
            fin.msg3.mac_i (ap (λ (x : Bytes). x ++ resp.msg2.ephemeral_pub_r) kept)
            (ap mac_key_of equal_keys) vouches_i)
          ready_r1 in
      (
        init,
        s1,
        begun,
        resp,
        r1,
        answered,
        fin,
        s2,
        finished,
        r2,
        accepted ∙ ap (λ (b : Bool). (ok b, r2)) right,
        equal_keys,
      )
