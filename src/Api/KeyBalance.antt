-- ===== src/Api/KeyBalance.antt =====
-- What the operations leave in the provider's key store: rules for each way to build one.
pub mod Operations
pub mod Signatures
use claude_crypto.Base.{ℕ, Bool, true, false, List, ◌∷◌, ◌≡◌, refl, ◌∙◌, if◌then◌else◌}
use claude_crypto.Api.Result.{
  Bytes, CryptoErrorCode, init_failed, Expected, ok, unexpected, Exec, pure, fail, lift, ◌>>=◌,
  resume,
}
use claude_crypto.Api.Provider.{
  CryptoProvider, require_init, or_code, try_call, status_call, with_key_handle,
}

-- A new key is on top of the live keys if its creation succeeded.
abbrev pub after_new : {E K : Type 0} → Expected E K → List K → List K
after_new (ok id) keys = id ∷ keys
after_new (unexpected e) keys = keys

-- How a provider's calls change the keys that it holds: a created key stays until it is
-- destroyed, and nothing else creates or destroys one.
pub record KeyAccounting (p : CryptoProvider) : Type 0 where
  pub live : p.State → List p.KeyId
  pub import_live :
      (a : p.KeyAttributes) (b : Bytes) (s : p.State)
      → live (p.import_key a b s).1 ≡ after_new (p.import_key a b s).0 (live s)
  pub generate_live :
      (a : p.KeyAttributes) (s : p.State)
      → live (p.generate_key a s).1 ≡ after_new (p.generate_key a s).0 (live s)
  pub destroy_live :
      (id : p.KeyId) (keys : List p.KeyId) (s : p.State)
      → live s ≡ id ∷ keys
      → live (p.destroy_key id s).1 ≡ keys
  pub init_live : (s : p.State) → live (p.crypto_init s).1 ≡ live s
  pub random_live : (n : ℕ) (s : p.State) → live (p.generate_random n s).1 ≡ live s
  pub export_live : (id : p.KeyId) (s : p.State) → live (p.export_key id s).1 ≡ live s
  pub export_public_live : (id : p.KeyId) (s : p.State) → live (p.export_public_key id s).1 ≡ live s
  pub sign_live :
      (id : p.KeyId) (a : p.Algorithm) (m : Bytes) (s : p.State)
      → live (p.sign_message id a m s).1 ≡ live s
  pub verify_live :
      (id : p.KeyId) (a : p.Algorithm) (m g : Bytes) (s : p.State)
      → live (p.verify_message id a m g s).1 ≡ live s
  pub mac_live :
      (id : p.KeyId) (a : p.Algorithm) (m : Bytes) (s : p.State)
      → live (p.mac_compute id a m s).1 ≡ live s
  pub mac_verify_live :
      (id : p.KeyId) (a : p.Algorithm) (m g : Bytes) (s : p.State)
      → live (p.mac_verify id a m g s).1 ≡ live s
  pub encrypt_live :
      (id : p.KeyId) (a : p.Algorithm) (n d m : Bytes) (s : p.State)
      → live (p.aead_encrypt id a n d m s).1 ≡ live s
  pub decrypt_live :
      (id : p.KeyId) (a : p.Algorithm) (n d m : Bytes) (s : p.State)
      → live (p.aead_decrypt id a n d m s).1 ≡ live s
  pub asymmetric_encrypt_live :
      (id : p.KeyId) (a : p.Algorithm) (m l : Bytes) (s : p.State)
      → live (p.asymmetric_encrypt id a m l s).1 ≡ live s
  pub asymmetric_decrypt_live :
      (id : p.KeyId) (a : p.Algorithm) (m l : Bytes) (s : p.State)
      → live (p.asymmetric_decrypt id a m l s).1 ≡ live s
  pub agree_live :
      (a : p.Algorithm) (id : p.KeyId) (m : Bytes) (s : p.State)
      → live (p.raw_key_agreement a id m s).1 ≡ live s
  pub encapsulate_live :
      (id : p.KeyId) (a : p.Algorithm) (s : p.State) → live (p.kem_encapsulate id a s).1 ≡ live s
  pub decapsulate_live :
      (id : p.KeyId) (a : p.Algorithm) (c : Bytes) (s : p.State)
      → live (p.kem_decapsulate id a c s).1 ≡ live s
  pub hash_live :
      (a : p.Algorithm) (m : Bytes) (s : p.State) → live (p.hash_compute a m s).1 ≡ live s
  pub hkdf_live :
      (k t i : Bytes) (n : ℕ) (e : Bool) (s : p.State) → live (p.hkdf_derive k t i n e s).1 ≡ live s

-- The live keys are the same before and after, whether `m` succeeds or not.
pub record IsBalanced (p : CryptoProvider) (acc : KeyAccounting p) {A : Type 0} (m : Exec p.State A)
    : Type 0 where
  pub at : (s : p.State) → acc.live (m s).1 ≡ acc.live s

module _ (p : CryptoProvider) (acc : KeyAccounting p) where
  open p use {State, Status, KeyId}
  open acc use {live}

  pub IsBalanced-pure : {A : Type 0} (a : A) → IsBalanced p acc (pure a)
  unfolding pure
  IsBalanced-pure a = record { at = λ s. refl }

  pub IsBalanced-fail : {A : Type 0} (c : CryptoErrorCode) → IsBalanced p acc (fail {A = A} c)
  unfolding fail
  IsBalanced-fail c = record { at = λ s. refl }

  pub IsBalanced-lift : {A : Type 0} (r : Expected CryptoErrorCode A) → IsBalanced p acc (lift r)
  unfolding lift
  IsBalanced-lift r = record { at = λ s. refl }

  pub IsBalanced-if :
      {A : Type 0} (b : Bool) (m n : Exec State A)
      → IsBalanced p acc m
      → IsBalanced p acc n
      → IsBalanced p acc (if b then m else n)
  IsBalanced-if true m n hm hn = hm
  IsBalanced-if false m n hm hn = hn

  IsBalanced-resume :
      {A B : Type 0} (r : Expected CryptoErrorCode A) (f : A → Exec State B) (s : State)
      → ((a : A) → IsBalanced p acc (f a))
      → live (resume r f s).1 ≡ live s
  IsBalanced-resume (ok a) f s h = (h a).at s
  IsBalanced-resume (unexpected c) f s h = refl

  pub IsBalanced-bind :
      {A B : Type 0} (m : Exec State A) (f : A → Exec State B)
      → IsBalanced p acc m
      → ((a : A) → IsBalanced p acc (f a))
      → IsBalanced p acc (m >>= f)
  unfolding ◌>>=◌
  IsBalanced-bind m f hm hf = record { at = λ s. IsBalanced-resume (m s).0 f (m s).1 hf ∙ hm.at s }

  abbrev branch : Bool → State → Expected CryptoErrorCode (Unit {0}) × State
  branch b t = if b then (ok tt, t) else (unexpected init_failed, t)

  same : (b : Bool) (t : State) → live (branch b t).1 ≡ live t
  same true t = refl
  same false t = refl

  pub IsBalanced-init : IsBalanced p acc (require_init p)
  unfolding require_init
  IsBalanced-init = record { at = λ s. go s (p.crypto_init s) (acc.init_live s) }
    where
      go :
          (s : State) (r : Status × State)
          → live r.1 ≡ live s
          → live (branch (p.status_eq r.0 p.status_ok) r.1).1 ≡ live s
      go s r e = same (p.status_eq r.0 p.status_ok) r.1 ∙ e

  pub IsBalanced-call :
      {A : Type 0} (c : CryptoErrorCode) (call : State → Expected Status A × State)
      → ((s : State) → live (call s).1 ≡ live s)
      → IsBalanced p acc (try_call p c call)
  unfolding try_call
  IsBalanced-call c call h = record { at = h }

  pub IsBalanced-status :
      (call : State → Status × State)
      → ((s : State) → live (call s).1 ≡ live s)
      → IsBalanced p acc (status_call p call)
  unfolding status_call
  IsBalanced-status call h = record { at = h }

  -- A key that was created is destroyed at the end of the scope of its handle.
  pub IsBalanced-handle :
      {A : Type 0} (c : CryptoErrorCode) (call : State → Expected Status KeyId × State)
      (body : KeyId → Exec State A)
      → ((s : State) → live (call s).1 ≡ after_new (call s).0 (live s))
      → ((id : KeyId) → IsBalanced p acc (body id))
      → IsBalanced p acc (try_call p c call >>= λ id. with_key_handle p id body)
  unfolding ◌>>=◌ try_call with_key_handle
  IsBalanced-handle {A} c call body h hb = record { at = λ s. go s (call s) (h s) }
    where
      go :
          (s : State) (r : Expected Status KeyId × State)
          → live r.1 ≡ after_new r.0 (live s)
          → live (resume (or_code p c r.0) (λ id. with_key_handle p id body) r.1).1 ≡ live s
      go s (ok id, t) e = acc.destroy_live id (live s) _ ((hb id).at t ∙ e)
      go s (unexpected status, t) e = e
