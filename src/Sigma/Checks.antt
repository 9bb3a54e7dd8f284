-- ===== src/Sigma/Checks.antt =====
-- safe-crypto-lib/{sigma,sigma_i}.hpp: what has been established where the checks of the last
-- two steps pass.
use claude_crypto.Base.{
  Bool, true, false, not, ◌≡◌, refl, ap, subst, ◌∙◌, arith, equal→eq, if◌then◌else◌,
}
use mathlib.Core.Bool.{false≢true}
use claude_crypto.Api.Result.{Bytes, sigma_auth_failed, ok, Exec, pure, ◌>>=◌, ◌>>◌, >>=-ok}
use claude_crypto.Api.Provider.{CryptoProvider, sha384}
use claude_crypto.Api.Mac.{hmac_verify_impl}
use claude_crypto.Api.Ecc.{EcCurve, ecdsa_verify_impl}
use claude_crypto.Api.Success.{CryptoLaws, pure-ok, fail-ok}
use claude_crypto.Api.Success.Outcomes.{hmac_verify_impl-true, ecdsa_verify_impl-true}
use claude_crypto.Sigma.{differs, require_auth}

differs-false : (a b : Bytes) → differs a b ≡ false → a ≡ b
unfolding differs
differs-false a b h = equal→eq a b (ground arith)

require_auth-ok :
    {S : Type 0} (b : Bool) (s : S) {x : Unit {0}} {t : S} → require_auth b s ≡ (ok x, t) → b ≡ true
require_auth-ok true s h = refl
require_auth-ok false s h = absurd (fail-ok sigma_auth_failed s h)

not-true : (b : Bool) → not b ≡ true → b ≡ false
not-true true h = cc h
not-true false h = refl

module _ {S : Type 0} where
  if_false-true :
      (b : Bool) (m : Exec S Bool) (s : S) {t : S}
      → (if b then pure false else m) s ≡ (ok true, t)
      → (b ≡ false) × (m s ≡ (ok true, t))
  if_false-true true m s {t} h = absurd (false≢true (pure-ok false s h).0)
  if_false-true false m s h = (refl, h)

  if_true-true :
      (b : Bool) (m : Exec S Bool) (s : S) {t : S}
      → (if b then m else pure false) s ≡ (ok true, t)
      → (b ≡ true) × (m s ≡ (ok true, t))
  if_true-true true m s h = (refl, h)
  if_true-true false m s {t} h = absurd (false≢true (pure-ok false s h).0)

module _ (p : CryptoProvider) (laws : CryptoLaws p) (curve : EcCurve) where
  open p use {State}
  open laws use {SigVerifies, MacVerifies}

  -- The public key is the one expected, and MAC and signature verify for it.
  abbrev pub Valid : Bytes → Bytes → Bytes → Bytes → Bytes → Bytes → Type 0
  Valid mac_key transcript expected public signature mac =
      (public ≡ expected)
      × MacVerifies sha384 mac_key expected mac
      × SigVerifies expected transcript signature

  valid :
      (mac_key transcript expected public signature mac : Bytes) (s t : State) {u v : State}
      → differs public expected ≡ false
      → hmac_verify_impl p sha384 mac_key public mac s ≡ (ok true, u)
      → ecdsa_verify_impl p curve (record { public_key_der = public }) transcript signature t
        ≡ (ok true, v)
      → Valid mac_key transcript expected public signature mac
  valid mac_key transcript expected public signature mac s t same mac_checked sig_checked =
      let named = differs-false public expected same in
      (
        named,
        subst (λ (k : Bytes). MacVerifies sha384 mac_key k mac) named
            (hmac_verify_impl-true p laws sha384 mac_key public mac s mac_checked),
        subst (λ (k : Bytes). SigVerifies k transcript signature) named
            (ecdsa_verify_impl-true p laws curve (record { public_key_der = public }) transcript
              signature t sig_checked),
      )

  -- The initiator's checks have passed where what follows them has an outcome.
  pub checks-ok :
      {A : Type 0} (mac_key transcript expected public signature mac : Bytes) (next : Exec State A)
      (s : State) {r : A} {t : State}
      → (require_auth (not (differs public expected))
            >> (hmac_verify_impl p sha384 mac_key public mac >>= λ mac_ok.
                require_auth mac_ok
                >> (ecdsa_verify_impl p curve
                      (record { public_key_der = public })
                      transcript
                      signature
                    >>= λ sig_ok. require_auth sig_ok >> next)))
          s
        ≡ (ok r, t)
      → Valid mac_key transcript expected public signature mac
        × ((u : State) × (next u ≡ (ok r, t)))
  checks-ok mac_key transcript expected public signature mac next s h =
      let (_, s1, same, h1) = >>=-ok _ _ s h in
      let (mac_ok, s2, mac_checked, h2) = >>=-ok _ _ s1 h1 in
      let (_, s3, mac_required, h3) = >>=-ok _ _ s2 h2 in
      let (sig_ok, s4, sig_checked, h4) = >>=-ok _ _ s3 h3 in
      let (_, s5, sig_required, h5) = >>=-ok _ _ s4 h4 in
      (
        valid mac_key transcript expected public signature mac s1 s3
            (not-true _ (require_auth-ok _ s same))
            (mac_checked ∙ ap (λ (b : Bool). (ok b, s2)) (require_auth-ok mac_ok s2 mac_required))
            (sig_checked ∙ ap (λ (b : Bool). (ok b, s4)) (require_auth-ok sig_ok s4 sig_required)),
        (s5, h5),
      )

  -- The responder's checks where they answer true.
  pub acceptance-true :
      (mac_key transcript expected public signature mac : Bytes) (s : State) {t : State}
      → (if differs public expected
            then pure false
            else (hmac_verify_impl p sha384 mac_key public mac >>= λ mac_ok.
                if mac_ok
                then ecdsa_verify_impl p curve
                    (record { public_key_der = public })
                    transcript
                    signature
                else pure false))
          s
        ≡ (ok true, t)
      → Valid mac_key transcript expected public signature mac
  acceptance-true mac_key transcript expected public signature mac s h =
      let (same, rest) = if_false-true (differs public expected) _ s h in
      let (mac_ok, s1, mac_checked, h1) = >>=-ok _ _ s rest in
      let (mac_true, sig_checked) = if_true-true mac_ok _ s1 h1 in
      valid mac_key transcript expected public signature mac s s1 same
        (mac_checked ∙ ap (λ (b : Bool). (ok b, s1)) mac_true) sig_checked
