-- ===== src/Api/Service.antt =====
-- What a provider in working order offers: its calls succeed on keys of the right kind, and what
-- they make is accepted by the calls that check it.
pub mod Operations
use claude_crypto.Base.{
  ℕ, ◌*◌, ◌^◌, ◌≤◌, ◌<◌, Bool, true, false, ◌≡◌, refl, ap, ◌∙◌, length, take, [], if◌then◌else◌,
}
use claude_crypto.Api.Result.{Bytes, CryptoErrorCode, Expected, ok, Exec, pure, ◌>>=◌, ◌>>◌, resume}
use claude_crypto.Api.Provider.{
  CryptoProvider, sha384, require_init, or_code, try_call, status_call, with_key_handle,
}
use claude_crypto.Api.Ecc.{EcCurve, ec_curve_key_bits}
use claude_crypto.Api.Success.{CryptoLaws}

-- A result that is a value, of which `Q` holds together with the state it leaves.
abbrev pub Answers : {E A S : Type 0} → Expected E A × S → (A → S → Type 0) → Type 0
Answers {E} {A} {S} r Q = (a : A) × (t : S) × (r ≡ (ok a, t)) × Q a t

-- What a key was made for. A provider answers the calls of that use and may refuse all others.
pub data KeyUse : Type 0 where
  exchange_key agreement_key signing_key verifying_key mac_key mac_verifying_key : KeyUse

-- A provider that is ready takes a key. A held key is under its id until it is destroyed, which
-- leaves the provider ready again; until then, the calls that its use allows succeed.
pub record CryptoService (p : CryptoProvider) (laws : CryptoLaws p) (curve : EcCurve) : Type 1 where
  pub Ready : p.State → Type 0
  pub Holds : p.State → p.KeyId → KeyUse → Bytes → Type 0
  -- The private keys of the curve, and the one that a ready provider generates next.
  pub IsPrivate : Bytes → Type 0
  pub next_key : p.State → Bytes
  -- The messages that a key signs: a nonce that is derived from both may be unusable, though that
  -- is improbable. Then the signatures made: key, message, signature.
  pub Signable : Bytes → Bytes → Type 0
  pub Signs : Bytes → Bytes → Bytes → Type 0
  -- HMAC-SHA-384
  pub tag : Bytes → Bytes → Bytes
  pub ok_is_ok : p.status_eq p.status_ok p.status_ok ≡ true
  pub ok_is_valid : p.status_eq p.status_ok p.err_invalid_sig ≡ false
  pub ok_is_accepted : p.status_eq p.status_ok p.err_invalid_arg ≡ false
  pub initialises :
      (s : p.State)
      → Ready s
      → ((p.crypto_init s).0 ≡ p.status_ok)
        × Ready (p.crypto_init s).1
        × (next_key (p.crypto_init s).1 ≡ next_key s)
  -- Extraction and expansion: the bounds of HKDF-SHA-384 on the output, and of the buffers of the
  -- providers on the inputs.
  pub derives :
      (k salt info : Bytes) (n : ℕ) (s : p.State)
      → 1 ≤ n
      → n ≤ 255 * 48
      → length k ≤ 512
      → length salt ≤ 256
      → length info ≤ 256
      → Ready s
      → Answers (p.hkdf_derive k salt info n false s) (λ x t. (length x ≡ n) × Ready t)
  pub next_private : (s : p.State) → Ready s → IsPrivate (next_key s)
  pub secret_short :
      (b c : Bytes) → IsPrivate b → IsPrivate c → length (laws.dh b (laws.public_of c)) ≤ 512
  pub generates :
      (s : p.State)
      → Ready s
      → Answers
          (p.generate_key (p.make_ecdh_generate_attrs (ec_curve_key_bits curve)) s)
          (λ id t. Holds t id exchange_key (next_key s))
  pub imports_agree :
      (b : Bytes) (s : p.State)
      → IsPrivate b
      → Ready s
      → Answers
          (p.import_key (p.make_ecdh_agree_attrs (ec_curve_key_bits curve)) b s)
          (λ id t. Holds t id agreement_key b)
  pub imports_sign :
      (b : Bytes) (s : p.State)
      → IsPrivate b
      → Ready s
      → Answers
          (p.import_key (p.make_ecdsa_sign_attrs (ec_curve_key_bits curve)) b s)
          (λ id t. Holds t id signing_key b)
  pub imports_verify :
      (b : Bytes) (s : p.State)
      → IsPrivate b
      → Ready s
      → Answers
          (p.import_key (p.make_ecdsa_verify_attrs (ec_curve_key_bits curve)) (laws.public_of b) s)
          (λ id t. Holds t id verifying_key (laws.public_of b))
  -- A MAC key is at least as long as the MAC and fits a slot of 512 bytes.
  pub imports_mac :
      (k : Bytes) (s : p.State)
      → 48 ≤ length k
      → length k ≤ 512
      → Ready s
      → Answers
          (p.import_key (p.make_hmac_generate_attrs sha384 (length k * 8)) k s)
          (λ id t. Holds t id mac_key k)
  pub imports_mac_verify :
      (k : Bytes) (s : p.State)
      → 48 ≤ length k
      → length k ≤ 512
      → Ready s
      → Answers
          (p.import_key (p.make_hmac_verify_attrs sha384 (length k * 8)) k s)
          (λ id t. Holds t id mac_verifying_key k)
  pub destroys :
      (id : p.KeyId) (s : p.State) {purpose : KeyUse} {b : Bytes}
      → Holds s id purpose b
      → Ready (p.destroy_key id s).1
  pub exports :
      (id : p.KeyId) (s : p.State) {b : Bytes}
      → Holds s id exchange_key b
      → Answers (p.export_key id s) (λ x t. (x ≡ b) × Holds t id exchange_key b)
  pub exports_public :
      (id : p.KeyId) (s : p.State) {b : Bytes}
      → Holds s id exchange_key b
      → Answers
          (p.export_public_key id s)
          (λ x t. (x ≡ laws.public_of b) × Holds t id exchange_key b)
  pub agrees :
      (id : p.KeyId) (c peer : Bytes) (s : p.State) {b : Bytes}
      → IsPrivate c
      → peer ≡ laws.public_of c
      → Holds s id agreement_key b
      → Answers
          (p.raw_key_agreement p.alg_ecdh id peer s)
          (λ x t. (x ≡ laws.dh b peer) × Holds t id agreement_key b)
  pub signs :
      (id : p.KeyId) (m : Bytes) (s : p.State) {b : Bytes}
      → Signable b m
      → Holds s id signing_key b
      → Answers (p.sign_message id p.alg_ecdsa m s) (λ g t. Signs b m g × Holds t id signing_key b)
  pub verifies :
      (id : p.KeyId) (m g : Bytes) (s : p.State) {b : Bytes}
      → Signs b m g
      → Holds s id verifying_key (laws.public_of b)
      → ((p.verify_message id p.alg_ecdsa m g s).0 ≡ p.status_ok)
        × Holds (p.verify_message id p.alg_ecdsa m g s).1 id verifying_key (laws.public_of b)
  -- What is kept of a computed MAC is the tag, which verifies.
  pub macs :
      (id : p.KeyId) (m : Bytes) (s : p.State) {k : Bytes}
      → Holds s id mac_key k
      → Answers
          (p.mac_compute id (p.alg_hmac sha384) m s)
          (λ g t. (take 48 g ≡ tag k m) × Holds t id mac_key k)
  pub verifies_mac :
      (id : p.KeyId) (m g : Bytes) (s : p.State) {k : Bytes}
      → g ≡ tag k m
      → Holds s id mac_verifying_key k
      → ((p.mac_verify id (p.alg_hmac sha384) m g s).0 ≡ p.status_ok)
        × Holds (p.mac_verify id (p.alg_hmac sha384) m g s).1 id mac_verifying_key k

pub Answers-map :
    {E A S : Type 0} {r : Expected E A × S} {P Q : A → S → Type 0}
    → Answers r P
    → ((a : A) (t : S) → P a t → Q a t)
    → Answers r Q
Answers-map (a, t, e, holds) f = (a, t, e, f a t holds)

module _ {S A B : Type 0} where
  pub >>=-Answers :
      (m : Exec S A) (f : A → Exec S B) (s : S) {P : A → S → Type 0} {Q : B → S → Type 0}
      → Answers (m s) P
      → ((a : A) (t : S) → P a t → Answers (f a t) Q)
      → Answers ((m >>= f) s) Q
  unfolding ◌>>=◌
  >>=-Answers m f s (a, t, e, holds) next =
      let (b, u, e', result) = next a t holds in
      (b, u, ap (λ (r : Expected CryptoErrorCode A × S). resume r.0 f r.1) e ∙ e', result)

pub pure-Answers :
    {S A : Type 0} (a : A) (s : S) {Q : A → S → Type 0} → Q a s → Answers (pure a s) Q
unfolding pure
pure-Answers a s holds = (a, s, refl, holds)

module _ (p : CryptoProvider) where
  open p use {State, Status, KeyId}

  pub try_call-Answers :
      {A : Type 0} (c : CryptoErrorCode) (call : State → Expected Status A × State) (s : State)
      {Q : A → State → Type 0}
      → Answers (call s) Q
      → Answers (try_call p c call s) Q
  unfolding try_call
  try_call-Answers {A} c call s (a, t, e, holds) =
      (a, t, ap (λ (r : Expected Status A × State). (or_code p c r.0, r.1)) e, holds)

  pub status_call-Answers :
      (call : State → Status × State) (s : State) {Q : Status → State → Type 0}
      → Q (call s).0 (call s).1
      → Answers (status_call p call s) Q
  unfolding status_call
  status_call-Answers call s holds = ((call s).0, (call s).1, refl, holds)

  module _ (laws : CryptoLaws p) (curve : EcCurve) (service : CryptoService p laws curve) where
    open service use {Ready, Holds, next_key}

    pub require_init-Answers :
        (s : State)
        → Ready s
        → Answers (require_init p s) (λ x t. Ready t × (next_key t ≡ next_key s))
    unfolding require_init
    require_init-Answers s ready =
        let (good, still, same) = service.initialises s ready in
        let started : p.status_eq (p.crypto_init s).0 p.status_ok ≡ true =
          ap (λ (st : Status). p.status_eq st p.status_ok) good ∙ service.ok_is_ok in
        (tt, (p.crypto_init s).1, rw started refl, (still, same))

    -- An operation that holds one key: it makes the key, works with it, and leaves the provider
    -- ready.
    pub with_key-Answers :
        {A : Type 0} (c : CryptoErrorCode) (make : State → Expected Status KeyId × State)
        (body : KeyId → Exec State A) (s : State) {P : KeyId → State → Type 0} {Q : A → Type 0}
        → Ready s
        → ((t : State) → Ready t → next_key t ≡ next_key s → Answers (make t) P)
        → ((id : KeyId) (t : State)
            → P id t
            → Answers
                (body id t)
                (λ a u. Q a × ((purpose : KeyUse) × (b : Bytes) × Holds u id purpose b)))
        → Answers
            ((require_init p >> (try_call p c make >>= λ id. with_key_handle p id body)) s)
            (λ a t. Q a × Ready t)
    unfolding with_key_handle
    with_key-Answers c make body s ready makes works =
        >>=-Answers _ _ s (require_init-Answers s ready) λ _ t (ready_t, same).
          >>=-Answers _ _ t (try_call-Answers c make t (makes t ready_t same)) λ id u made.
            let (a, v, e, (result, (purpose, b, held))) = works id u made in
            (
              a,
              (p.destroy_key id v).1,
              ap (λ (r : Expected CryptoErrorCode _ × State). (r.0, (p.destroy_key id r.1).1)) e,
              (result, service.destroys id v held),
            )
