-- ===== src/Api/Success.antt =====
-- What an operation that succeeds has computed, from what its provider's calls mean.
pub mod Outcomes
use claude_crypto.Base.{ℕ, Bool, true, false, Option, some, ◌≡◌, refl, ap, if◌then◌else◌}
use claude_crypto.Api.Result.{
  Bytes, CryptoErrorCode, Expected, ok, unexpected, Exec, pure, fail, ◌>>=◌, >>=-ok,
}
use claude_crypto.Api.Provider.{
  CryptoProvider, ShaVariant, require_init, or_code, try_call, status_call, with_key_handle,
}

-- The documented meaning of the provider's calls: what is under a key, and which functions of the
-- keys and the inputs the successful calls compute.
pub record CryptoLaws (p : CryptoProvider) : Type 1 where
  pub key_of : p.State → p.KeyId → Option Bytes
  pub public_of : Bytes → Bytes
  pub dh : Bytes → Bytes → Bytes
  pub kdf : Bytes → Bytes → Bytes → ℕ → Bool → Bytes
  pub SigVerifies : Bytes → Bytes → Bytes → Type 0
  pub MacVerifies : ShaVariant → Bytes → Bytes → Bytes → Type 0
  -- key, nonce, additional data, ciphertext, text
  pub AesGcmOpens : Bytes → Bytes → Bytes → Bytes → Bytes → Type 0
  pub import_key_of :
      (a : p.KeyAttributes) (b : Bytes) (s : p.State) {id : p.KeyId} {t : p.State}
      → p.import_key a b s ≡ (ok id, t)
      → key_of t id ≡ some b
  pub export_key_of :
      (id : p.KeyId) (s : p.State) {b : Bytes} {t : p.State}
      → p.export_key id s ≡ (ok b, t)
      → key_of t id ≡ some b
  pub export_public_of :
      (id : p.KeyId) (s : p.State) {b c : Bytes} {t : p.State}
      → p.export_public_key id s ≡ (ok c, t)
      → key_of s id ≡ some b
      → c ≡ public_of b
  pub agree_dh :
      (id : p.KeyId) (peer : Bytes) (s : p.State) {b x : Bytes} {t : p.State}
      → p.raw_key_agreement p.alg_ecdh id peer s ≡ (ok x, t)
      → key_of s id ≡ some b
      → x ≡ dh b peer
  pub dh_comm : (a b : Bytes) → dh a (public_of b) ≡ dh b (public_of a)
  pub hkdf_kdf :
      (k salt info : Bytes) (n : ℕ) (e : Bool) (s : p.State) {x : Bytes} {t : p.State}
      → p.hkdf_derive k salt info n e s ≡ (ok x, t)
      → x ≡ kdf k salt info n e
  pub verify_signature :
      (id : p.KeyId) (m g : Bytes) (s : p.State) {b : Bytes} {st : p.Status} {t : p.State}
      → p.verify_message id p.alg_ecdsa m g s ≡ (st, t)
      → p.status_eq st p.status_ok ≡ true
      → key_of s id ≡ some b
      → SigVerifies b m g
  pub verify_mac :
      (v : ShaVariant) (id : p.KeyId) (m g : Bytes) (s : p.State) {b : Bytes} {st : p.Status}
      {t : p.State}
      → p.mac_verify id (p.alg_hmac v) m g s ≡ (st, t)
      → p.status_eq st p.status_ok ≡ true
      → key_of s id ≡ some b
      → MacVerifies v b m g
  pub decrypt_opens :
      (id : p.KeyId) (n d c : Bytes) (s : p.State) {b x : Bytes} {t : p.State}
      → p.aead_decrypt id p.alg_aes_gcm n d c s ≡ (ok x, t)
      → key_of s id ≡ some b
      → AesGcmOpens b n d c x

pub ok-injective :
    {E A S : Type 0} {a b : A} {s t : S} → ◌≡◌ {A = Expected E A × S} (ok a, s) (ok b, t) → a ≡ b
ok-injective h = cc h

module _ {S A : Type 0} where
  pub pure-ok : (a : A) (s : S) {b : A} {t : S} → pure a s ≡ (ok b, t) → (a ≡ b) × (s ≡ t)
  unfolding pure
  pure-ok a s h = (cc h, cc h)

  pub fail-ok : (c : CryptoErrorCode) (s : S) {b : A} {t : S} → fail c s ≡ (ok b, t) → ⊥
  unfolding fail
  fail-ok c s h = cc h

module _ (p : CryptoProvider) where
  open p use {State, Status, KeyId, destroy_key}

  pub try_call-ok :
      {A : Type 0} (c : CryptoErrorCode) (call : State → Expected Status A × State) (s : State)
      {a : A} {t : State}
      → try_call p c call s ≡ (ok a, t)
      → call s ≡ (ok a, t)
  unfolding try_call
  try_call-ok {A} c call s {a} {t} h = go (call s) h
    where
      go :
          (r : Expected Status A × State)
          → ◌≡◌ {A = Expected CryptoErrorCode A × State} (or_code p c r.0, r.1) (ok a, t)
          → r ≡ (ok a, t)
      go (ok b, u) e = cc e
      go (unexpected x, u) e = cc e

  pub status_call-ok :
      (call : State → Status × State) (s : State) {st : Status} {t : State}
      → status_call p call s ≡ (ok st, t)
      → call s ≡ (st, t)
  unfolding status_call
  status_call-ok call s {st} {t} h = go (call s) h
    where
      go :
          (r : Status × State)
          → ◌≡◌ {A = Expected CryptoErrorCode Status × State} (ok r.0, r.1) (ok st, t)
          → r ≡ (st, t)
      go (x, u) e = cc e

  pub with_key_handle-ok :
      {A : Type 0} (id : KeyId) (body : KeyId → Exec State A) (s : State) {a : A} {t : State}
      → with_key_handle p id body s ≡ (ok a, t)
      → body id s ≡ (ok a, (body id s).1)
  unfolding with_key_handle
  with_key_handle-ok {A} id body s {a} {t} h = go (body id s) h
    where
      go :
          (r : Expected CryptoErrorCode A × State)
          → ◌≡◌ {A = Expected CryptoErrorCode A × State} (r.0, (destroy_key id r.1).1) (ok a, t)
          → r ≡ (ok a, r.1)
      go (ok b, u) e = ap (λ (x : A). (ok x, u)) (ok-injective e)
      go (unexpected c, u) e = cc e

  -- An imported key is in its slot when the body of the scope begins.
  pub import-ok :
      (laws : CryptoLaws p) {A : Type 0} (c : CryptoErrorCode) (attrs : p.KeyAttributes) (b : Bytes)
      (body : KeyId → Exec State A) (s : State) {a : A} {t : State}
      → (try_call p c (p.import_key attrs b) >>= λ id. with_key_handle p id body) s ≡ (ok a, t)
      → (id : KeyId) × (u : State) × (laws.key_of u id ≡ some b)
        × (body id u ≡ (ok a, (body id u).1))
  import-ok laws c attrs b body s h =
      let (id, u, imported, rest) = >>=-ok _ _ s h in
      (
        id,
        u,
        laws.import_key_of attrs b s (try_call-ok c _ s imported),
        with_key_handle-ok id body u rest,
      )
