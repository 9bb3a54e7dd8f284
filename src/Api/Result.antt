-- ===== src/Api/Result.antt =====
-- safe-crypto-lib/crypto_error.hpp, sha_variant.hpp and `std::expected`, with the state of the
-- provider passed along. An error is its code; the message, a constant at each site, is left out.
use claude_crypto.Base.{ℕ, ◌^◌, ◌<◌, List, [], ◌∷◌, ◌≡◌, refl}

-- A `SecureBuffer` or a span: its bytes.
abbrev pub Bytes : Type 0
Bytes = List ℕ

-- Every element is a byte.
abbrev pub AreBytes : Bytes → Type 0
AreBytes [] = Unit
AreBytes (b ∷ bytes) = (b < 2 ^ 8) × AreBytes bytes

pub data CryptoErrorCode : Type 0 where
  internal_error init_failed invalid_argument random_generation_failed : CryptoErrorCode
  key_import_failed key_export_failed key_generation_failed : CryptoErrorCode
  encryption_failed decryption_failed signing_failed verification_failed : CryptoErrorCode
  mac_generation_failed digest_failed kdf_setup_failed kdf_input_failed : CryptoErrorCode
  kdf_output_failed key_agreement_failed sigma_auth_failed : CryptoErrorCode
  encapsulation_failed decapsulation_failed : CryptoErrorCode

pub data Expected {ℓ} (E A : Type ℓ) : Type ℓ where
  ok : A → Expected E A
  unexpected : E → Expected E A

-- A computation over the provider's state that ends in a value or in an error; what it did to the
-- state before the error stays done.
abbrev pub Exec : Type 0 → Type 0 → Type 0
Exec S A = S → Expected CryptoErrorCode A × S

module _ {S A : Type 0} where
  unfoldable pub pure : A → Exec S A
  pure a s = (ok a, s)

  unfoldable pub fail : CryptoErrorCode → Exec S A
  fail c s = (unexpected c, s)

  -- A computation that is already a value or an error.
  unfoldable pub lift : Expected CryptoErrorCode A → Exec S A
  lift r s = (r, s)

module _ {S A B : Type 0} where
  abbrev pub resume : Expected CryptoErrorCode A → (A → Exec S B) → Exec S B
  resume (ok a) f s = f a s
  resume (unexpected c) f s = (unexpected c, s)

  infixl 10 ◌>>=◌ ◌>>◌
  unfoldable pub ◌>>=◌ : Exec S A → (A → Exec S B) → Exec S B
  unfolding pure fail lift
  ◌>>=◌ m f s = resume (m s).0 f (m s).1

  abbrev pub ◌>>◌ : Exec S A → Exec S B → Exec S B
  m >> n = m >>= λ _. n

  -- A sequence that succeeds has succeeded at its first part, and at the rest from there.
  pub >>=-ok :
      (m : Exec S A) (f : A → Exec S B) (s : S) {b : B} {t : S}
      → (m >>= f) s ≡ (ok b, t)
      → (a : A) × (u : S) × (m s ≡ (ok a, u)) × (f a u ≡ (ok b, t))
  unfolding ◌>>=◌
  >>=-ok m f s {b} {t} h = go (m s) refl h
    where
      go :
          (r : Expected CryptoErrorCode A × S)
          → m s ≡ r
          → resume r.0 f r.1 ≡ (ok b, t)
          → (a : A) × (u : S) × (m s ≡ (ok a, u)) × (f a u ≡ (ok b, t))
      go (ok a, u) e h' = (a, u, e, h')
      go (unexpected c, u) e h' = cc h'
