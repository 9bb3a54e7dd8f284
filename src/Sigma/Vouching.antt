-- ===== src/Sigma/Vouching.antt =====
-- safe-crypto-lib/{sigma,sigma_i}.hpp: what the two sides show each other, made and checked on a
-- provider in working order.
use claude_crypto.Base.{
  Bool, true, false, not, ◌≡◌, refl, sym, ap, subst, ◌∙◌, arith, equal, equal_refl, length, ◌≤◌,
  if◌then◌else◌,
}
use mathlib.Core.Bool.{false≢true}
use claude_crypto.Api.Result.{Bytes, Exec, pure, ◌>>=◌, ◌>>◌}
use claude_crypto.Api.Provider.{CryptoProvider, sha384}
use claude_crypto.Api.Mac.{hmac_generate_impl, hmac_verify_impl}
use claude_crypto.Api.Ecc.{EcCurve, EccKeyPair, ecdsa_sign_impl, ecdsa_verify_impl}
use claude_crypto.Api.Success.{CryptoLaws}
use claude_crypto.Api.Service.{Answers, CryptoService, >>=-Answers}
use claude_crypto.Api.Service.Operations.{
  IsPair, ecdsa_sign_impl-Answers, ecdsa_verify_impl-Answers, hmac_generate_impl-Answers,
  hmac_verify_impl-Answers,
}
use claude_crypto.Sigma.{differs, require_auth}

pub differs-same : (a b : Bytes) → a ≡ b → differs a b ≡ false
unfolding differs
differs-same a b h =
    let same : equal a b ≡ true = ap (equal a) (sym h) ∙ equal_refl a in ground (arith, ap length h)

pub mac_key_long : (k : Bytes) → length k ≡ 48 → 48 ≤ length k
mac_key_long k h = omega arith

pub mac_key_short : (k : Bytes) → length k ≡ 48 → length k ≤ 512
mac_key_short k h = omega arith

pub require_auth-Answers :
    {S : Type 0} (b : Bool) (s : S) {Q : Unit {0} → S → Type 0}
    → b ≡ true
    → Q tt s
    → Answers (require_auth b s) Q
unfolding pure
require_auth-Answers true s h holds = (tt, s, refl, holds)
require_auth-Answers false s h holds = absurd (false≢true h)

module _ {S : Type 0} where
  pub if_false-Answers :
      (b : Bool) (m : Exec S Bool) (s : S) {Q : Bool → S → Type 0}
      → b ≡ false
      → Answers (m s) Q
      → Answers ((if b then pure false else m) s) Q
  if_false-Answers true m s h a = absurd (false≢true (sym h))
  if_false-Answers false m s h a = a

  pub if_true-Answers :
      (b : Bool) (m : Exec S Bool) (s : S) {Q : Bool → S → Type 0}
      → b ≡ true
      → Answers (m s) Q
      → Answers ((if b then m else pure false) s) Q
  if_true-Answers true m s h a = a
  if_true-Answers false m s h a = absurd (false≢true h)

module _ (p : CryptoProvider) (laws : CryptoLaws p) (curve : EcCurve)
    (service : CryptoService p laws curve) where
  open p use {State}
  open service use {Ready, IsPrivate, Signable, Signs, tag}

  -- What one side shows of itself: its public key, a signature over the ephemeral public keys,
  -- and a MAC of its public key.
  abbrev pub Vouches : EccKeyPair → Bytes → Bytes → Bytes → Bytes → Bytes → Type 0
  Vouches identity transcript mac_key public signature mac =
      (public ≡ identity.public_key_der)
      × Signs identity.private_key_der transcript signature
      × (mac ≡ tag mac_key identity.public_key_der)

  pub Vouches-same :
      (identity : EccKeyPair) (public signature mac : Bytes) {x x' k k' : Bytes}
      → x ≡ x'
      → k ≡ k'
      → Vouches identity x k public signature mac
      → Vouches identity x' k' public signature mac
  Vouches-same identity public signature mac same_x same_k (named, signed, tagged) = (
    named,
    subst (λ (y : Bytes). Signs identity.private_key_der y signature) same_x signed,
    tagged ∙ ap (λ (y : Bytes). tag y identity.public_key_der) same_k,
  )

  pub vouch-Answers :
      {A : Type 0} (identity : EccKeyPair) (transcript mac_key : Bytes)
      (next : Bytes → Bytes → Exec State A) (s : State) {Q : A → State → Type 0}
      → IsPrivate identity.private_key_der
      → Signable identity.private_key_der transcript
      → length mac_key ≡ 48
      → Ready s
      → ((signature mac : Bytes) (t : State)
          → Vouches identity transcript mac_key identity.public_key_der signature mac × Ready t
          → Answers (next signature mac t) Q)
      → Answers
          ((ecdsa_sign_impl p curve identity transcript >>= λ signature.
              hmac_generate_impl p sha384 mac_key identity.public_key_der >>= λ mac.
              next signature mac)
            s)
          Q
  vouch-Answers identity transcript mac_key next s private signable sized ready goes_on =
      >>=-Answers _ _ s
        (ecdsa_sign_impl-Answers p laws curve service identity transcript s private signable ready)
        λ signature t (signed, ready_t).
          >>=-Answers _ _ t
            (hmac_generate_impl-Answers p laws curve service mac_key identity.public_key_der t
              (mac_key_long _ sized) (mac_key_short _ sized) ready_t)
            λ mac u (tagged, ready_u). goes_on signature mac u ((refl, signed, tagged), ready_u)

  -- The MAC verifies, and then the signature.
  pub mac_check-Answers :
      {A : Type 0} (identity : EccKeyPair) (transcript mac_key public signature mac : Bytes)
      (next : Bool → Exec State A) (s : State) {Q : A → State → Type 0}
      → length mac_key ≡ 48
      → Vouches identity transcript mac_key public signature mac
      → Ready s
      → ((mac_ok : Bool) (t : State) → mac_ok ≡ true → Ready t → Answers (next mac_ok t) Q)
      → Answers ((hmac_verify_impl p sha384 mac_key public mac >>= next) s) Q
  mac_check-Answers identity transcript mac_key public signature mac next s sized vouches ready
        goes_on =
      let (named, signed, tagged) = vouches in
      >>=-Answers _ _ s
        (hmac_verify_impl-Answers p laws curve service mac_key public mac s (mac_key_long _ sized)
          (mac_key_short _ sized) (tagged ∙ ap (tag mac_key) (sym named)) ready)
        λ mac_ok t (valid, ready_t). goes_on mac_ok t valid ready_t

  pub signature_check-Answers :
      (identity : EccKeyPair) (transcript mac_key public signature mac : Bytes) (s : State)
      → IsPair p laws curve service identity
      → Vouches identity transcript mac_key public signature mac
      → Ready s
      → Answers
          (ecdsa_verify_impl p curve (record { public_key_der = public }) transcript signature s)
          (λ valid t. (valid ≡ true) × Ready t)
  signature_check-Answers identity transcript mac_key public signature mac s pair vouches ready =
      let (named, signed, tagged) = vouches in
      ecdsa_verify_impl-Answers p laws curve service (record { public_key_der = public }) transcript
        signature identity.private_key_der s (named ∙ pair.1) pair.0 signed ready

  -- The three checks of the initiator's last step.
  pub checks-Answers :
      {A : Type 0} (identity : EccKeyPair) (transcript mac_key public signature mac : Bytes)
      (next : Exec State A) (s : State) {Q : A → State → Type 0}
      → length mac_key ≡ 48
      → IsPair p laws curve service identity
      → Vouches identity transcript mac_key public signature mac
      → Ready s
      → ((t : State) → Ready t → Answers (next t) Q)
      → Answers
          ((require_auth (not (differs public identity.public_key_der))
              >> (hmac_verify_impl p sha384 mac_key public mac >>= λ mac_ok.
                  require_auth mac_ok
                  >> (ecdsa_verify_impl p curve
                        (record { public_key_der = public })
                        transcript
                        signature
                      >>= λ sig_ok. require_auth sig_ok >> next)))
            s)
          Q
  checks-Answers identity transcript mac_key public signature mac next s sized pair vouches ready
        goes_on =
      >>=-Answers _ _ s {P = λ _ t. Ready t}
        (require_auth-Answers _ s (ap not (differs-same _ _ vouches.0)) ready)
        λ _ t ready_t.
          mac_check-Answers identity transcript mac_key public signature mac _ t sized vouches
            ready_t
            λ mac_ok u valid ready_u.
              >>=-Answers _ _ u {P = λ _ v. Ready v} (require_auth-Answers mac_ok u valid ready_u)
                λ _ v ready_v.
                  >>=-Answers _ _ v
                    (signature_check-Answers identity transcript mac_key public signature mac v pair
                      vouches ready_v)
                    λ sig_ok w (verified, ready_w).
                      >>=-Answers _ _ w {P = λ _ v. Ready v}
                        (require_auth-Answers sig_ok w verified ready_w) λ _. goes_on
