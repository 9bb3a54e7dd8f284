-- ===== src/Sigma/Steps.antt =====
-- safe-crypto-lib/sigma.hpp: the steps of an honest exchange on a provider in working order.
use claude_crypto.Base.{
  ◌≤◌, ap₂, subst, true, false, [], ◌++◌, ◌≡◌, refl, sym, ap, ◌∙◌, arith, length, take, length-take,
}
use claude_crypto.Api.Result.{Bytes, CryptoErrorCode, Expected}
use claude_crypto.Api.Provider.{CryptoProvider}
use claude_crypto.Api.Ecc.{EcCurve, EccKeyPair}
use claude_crypto.Api.Success.{CryptoLaws}
use claude_crypto.Api.Service.{
  Answers, CryptoService, >>=-Answers, pure-Answers, try_call-Answers, require_init-Answers,
}
use claude_crypto.Api.Service.Operations.{
  IsPair, ecdh_generate_key_impl-Answers, ecdh_compute_shared_secret_impl-Answers,
}
use claude_crypto.Sigma.{
  SigmaMsg1, SigmaMsg2, SigmaMsg3, SigmaSessionKeys, SigmaInitiatorState, SigmaInitiatorInitResult,
  SigmaResponderRespondResult, SigmaInitiatorFinishResult, sigma_info, split_keys, differs,
  agreement_as_auth, sigma_derive_keys_impl, initiator_shared_secret, sigma_initiator_begin_impl,
  sigma_responder_respond_impl, sigma_initiator_finish_impl, sigma_responder_finish_impl,
}
use claude_crypto.Sigma.Outcomes.{keys_of}
use claude_crypto.Sigma.Vouching.{
  differs-same, if_false-Answers, if_true-Answers, Vouches, Vouches-same, vouch-Answers,
  mac_check-Answers, signature_check-Answers, checks-Answers,
}

abbrev pub mac_key_of : SigmaSessionKeys → Bytes
mac_key_of keys = keys.mac_key

first_48 : (y : Bytes) → length y ≡ 80 → length (take 48 y) ≡ 48
first_48 y h = omega (arith, length-take 48 y)

module _ (p : CryptoProvider) (laws : CryptoLaws p) (curve : EcCurve)
    (service : CryptoService p laws curve) where
  open p use {State}
  open laws use {public_of, dh, kdf}
  open service use {Ready, IsPrivate, next_key, Signable, Signs, tag}

  sigma_derive_keys_impl-Answers :
      (secret : Bytes) (s : State)
      → length secret ≤ 512
      → Ready s
      → Answers
          (sigma_derive_keys_impl p secret s)
          (λ keys t. ((keys ≡ keys_of p laws secret) × (length keys.mac_key ≡ 48)) × Ready t)
  unfolding sigma_derive_keys_impl split_keys
  sigma_derive_keys_impl-Answers secret s short ready =
      >>=-Answers _ _ s (require_init-Answers p laws curve service s ready) λ _ t (ready_t, _).
        let (x, u, e, (sized, ready_u)) =
          service.derives secret [] sigma_info 80 t (omega arith) (omega arith) short (omega arith)
            (omega arith) ready_t in
        let made = laws.hkdf_kdf secret [] sigma_info 80 false t e in
        >>=-Answers _ _ t
          {P = λ y v. (y ≡ kdf secret [] sigma_info 80 false) × (length y ≡ 80) × Ready v}
          (try_call-Answers p _ _ t (x, u, e, (made, sized, ready_u)))
          λ y v (derived, long, ready_v).
            pure-Answers _ v ((ap split_keys derived, first_48 y long), ready_v)

  short_secret :
      (b c secret : Bytes)
      → IsPrivate b
      → IsPrivate c
      → secret ≡ dh b (public_of c)
      → length secret ≤ 512
  short_secret b c secret hb hc same = omega (arith, ap length same, service.secret_short b c hb hc)

  initiator_shared_secret-Answers :
      (keys : EccKeyPair) (c peer : Bytes) (s : State)
      → IsPrivate keys.private_key_der
      → IsPrivate c
      → peer ≡ public_of c
      → Ready s
      → Answers
          (initiator_shared_secret p curve keys peer s)
          (λ x t. (x ≡ dh keys.private_key_der peer) × Ready t)
  unfolding initiator_shared_secret agreement_as_auth
  initiator_shared_secret-Answers keys c peer s private theirs same ready =
      let (x, t, e, holds) =
        ecdh_compute_shared_secret_impl-Answers p laws curve service keys c peer s private theirs
          same ready in
      (
        x,
        t,
        ap (λ (r : Expected CryptoErrorCode Bytes × State). (agreement_as_auth r.0, r.1)) e,
        holds,
      )

  -- The pair of the private key `d` was made, and its public key is sent.
  abbrev pub Begun : Bytes → SigmaInitiatorInitResult → Type 0
  Begun d r =
      (r.state.ephemeral_key_pair.private_key_der ≡ d)
      × (r.msg1.ephemeral_pub_i ≡ public_of d)
      × (r.state.ephemeral_pub_i ≡ r.msg1.ephemeral_pub_i)

  pub sigma_initiator_begin_impl-Answers :
      (s : State)
      → Ready s
      → Answers (sigma_initiator_begin_impl p curve s) (λ r t. Begun (next_key s) r × Ready t)
  unfolding sigma_initiator_begin_impl
  sigma_initiator_begin_impl-Answers s ready =
      >>=-Answers _ _ s (ecdh_generate_key_impl-Answers p laws curve service s ready)
        λ eph t ((private, public), ready_t). pure-Answers _ t ((private, public, refl), ready_t)

  -- The responder's ephemeral private key is `e`.
  abbrev pub Answered : SigmaMsg1 → EccKeyPair → Bytes → SigmaResponderRespondResult → Type 0
  Answered msg1 identity e r =
      (r.msg2.ephemeral_pub_r ≡ public_of e)
      × (r.session_keys ≡ keys_of p laws (dh e msg1.ephemeral_pub_i))
      × (length r.session_keys.mac_key ≡ 48)
      × Vouches p laws curve service identity (msg1.ephemeral_pub_i ++ r.msg2.ephemeral_pub_r)
          r.session_keys.mac_key r.msg2.identity_pub_r r.msg2.signature_r r.msg2.mac_r

  pub sigma_responder_respond_impl-Answers :
      (msg1 : SigmaMsg1) (identity : EccKeyPair) (c : Bytes) (s : State)
      → IsPrivate c
      → msg1.ephemeral_pub_i ≡ public_of c
      → IsPrivate identity.private_key_der
      → Signable identity.private_key_der (public_of c ++ public_of (next_key s))
      → Ready s
      → Answers
          (sigma_responder_respond_impl p curve msg1 identity s)
          (λ r t. Answered msg1 identity (next_key s) r × Ready t)
  unfolding sigma_responder_respond_impl
  sigma_responder_respond_impl-Answers msg1 identity c s theirs sent mine signable ready =
      let own : IsPrivate (next_key s) = service.next_private s ready in
      >>=-Answers _ _ s (ecdh_generate_key_impl-Answers p laws curve service s ready)
        λ eph s1 ((private, public), ready1).
          >>=-Answers _ _ s1
            (ecdh_compute_shared_secret_impl-Answers p laws curve service eph c _ s1
              (subst IsPrivate (sym private) own) theirs sent ready1)
            λ secret s2 (agreed, ready2).
              let same : secret ≡ dh (next_key s) msg1.ephemeral_pub_i =
                agreed ∙ ap (λ (d : Bytes). dh d msg1.ephemeral_pub_i) private in
              >>=-Answers _ _ s2
                (sigma_derive_keys_impl-Answers secret s2
                  (short_secret (next_key s) c secret own theirs (same ∙ ap (dh (next_key s)) sent))
                  ready2)
                λ keys s3 ((derived, sized), ready3).
                  vouch-Answers p laws curve service identity _ keys.mac_key _ s3 mine
                    (subst (Signable identity.private_key_der)
                      (ap₂ (λ (x y : Bytes). x ++ y) (sym sent) (sym public)) signable)
                    sized ready3
                    λ sig mac s4 (vouched, ready4).
                      pure-Answers _ s4
                        ((public, derived ∙ ap (keys_of p laws) same, sized, vouched), ready4)

  -- The keys of the initiator's last step, and what it shows of itself.
  abbrev pub Finished :
      SigmaInitiatorState → SigmaMsg2 → EccKeyPair → SigmaInitiatorFinishResult → Type 0
  Finished state msg2 identity r =
      (r.session_keys
        ≡ keys_of p laws (dh state.ephemeral_key_pair.private_key_der msg2.ephemeral_pub_r))
      × Vouches p laws curve service identity (state.ephemeral_pub_i ++ msg2.ephemeral_pub_r)
          r.session_keys.mac_key r.msg3.identity_pub_i r.msg3.signature_i r.msg3.mac_i

  pub sigma_initiator_finish_impl-Answers :
      (state : SigmaInitiatorState) (msg2 : SigmaMsg2) (identity responder : EccKeyPair) (e : Bytes)
      (s : State)
      → IsPrivate state.ephemeral_key_pair.private_key_der
      → IsPrivate e
      → msg2.ephemeral_pub_r ≡ public_of e
      → IsPair p laws curve service responder
      → Vouches p laws curve service responder
          (state.ephemeral_pub_i ++ msg2.ephemeral_pub_r)
          (keys_of p laws
            (dh state.ephemeral_key_pair.private_key_der msg2.ephemeral_pub_r)).mac_key
          msg2.identity_pub_r
          msg2.signature_r
          msg2.mac_r
      → IsPrivate identity.private_key_der
      → Signable identity.private_key_der (state.ephemeral_pub_i ++ msg2.ephemeral_pub_r)
      → Ready s
      → Answers
          (sigma_initiator_finish_impl p curve state msg2 identity responder.public_key_der s)
          (λ r t. Finished state msg2 identity r × Ready t)
  unfolding sigma_initiator_finish_impl
  sigma_initiator_finish_impl-Answers state msg2 identity responder e s mine theirs sent pair
        vouches own signable ready =
      >>=-Answers _ _ s
        (initiator_shared_secret-Answers state.ephemeral_key_pair e _ s mine theirs sent ready)
        λ secret s1 (agreed, ready1).
          >>=-Answers _ _ s1
            (sigma_derive_keys_impl-Answers secret s1
              (short_secret state.ephemeral_key_pair.private_key_der e secret mine theirs
                (agreed ∙ ap (dh state.ephemeral_key_pair.private_key_der) sent))
              ready1)
            λ keys s2 ((derived, sized), ready2).
              let same = derived ∙ ap (keys_of p laws) agreed in
              checks-Answers p laws curve service responder _ keys.mac_key msg2.identity_pub_r
                msg2.signature_r msg2.mac_r _ s2 sized pair
                (Vouches-same p laws curve service responder msg2.identity_pub_r msg2.signature_r
                  msg2.mac_r refl (ap mac_key_of (sym same)) vouches)
                ready2
                λ s3 ready3.
                  vouch-Answers p laws curve service identity _ keys.mac_key _ s3 own signable sized
                    ready3
                    λ sig mac s4 (vouched, ready4). pure-Answers _ s4 ((same, vouched), ready4)

  pub sigma_responder_finish_impl-Answers :
      (msg3 : SigmaMsg3) (keys : SigmaSessionKeys) (msg1 : SigmaMsg1) (msg2 : SigmaMsg2)
      (initiator : EccKeyPair) (s : State)
      → length keys.mac_key ≡ 48
      → IsPair p laws curve service initiator
      → Vouches p laws curve service initiator
          (msg1.ephemeral_pub_i ++ msg2.ephemeral_pub_r)
          keys.mac_key
          msg3.identity_pub_i
          msg3.signature_i
          msg3.mac_i
      → Ready s
      → Answers
          (sigma_responder_finish_impl p curve msg3 keys msg1 msg2 initiator.public_key_der s)
          (λ valid t. (valid ≡ true) × Ready t)
  unfolding sigma_responder_finish_impl
  sigma_responder_finish_impl-Answers msg3 keys msg1 msg2 initiator s sized pair vouches ready =
      if_false-Answers (differs msg3.identity_pub_i initiator.public_key_der) _ s
        (differs-same _ _ vouches.0)
        (mac_check-Answers p laws curve service initiator _ keys.mac_key msg3.identity_pub_i
          msg3.signature_i msg3.mac_i _ s sized vouches ready
          λ mac_ok t valid ready_t. if_true-Answers mac_ok _ t valid (
            signature_check-Answers p laws curve service initiator _ keys.mac_key
              msg3.identity_pub_i msg3.signature_i msg3.mac_i t pair vouches ready_t))
