-- ===== src/Api/KeyBalance/Signatures.antt =====
-- safe-crypto-lib/pqc_dsa.hpp: the keys that the signatures create and destroy, and how they
-- refuse wrong sizes.
use claude_crypto.Base.{◌≡◌, ◌≢◌, ◌⊎◌, inl, inr, refl, false, Bool-cases, ◌==◌, length, arith}
use claude_crypto.Api.Result.{Bytes, invalid_argument, unexpected, fail}
use claude_crypto.Api.Provider.{CryptoProvider, SlhDsaVariant, MlDsaVariant}
use claude_crypto.Api.Dsa.{
  dsa_answer, slh_dsa_public_key_size, slh_dsa_signature_size, ml_dsa_public_key_size,
  ml_dsa_signature_size, SlhDsaKeyPair, SlhDsaPublicKey, MlDsaKeyPair, MlDsaPublicKey,
  slh_dsa_generate_key_impl, slh_dsa_sign_impl, slh_dsa_verify_impl, ml_dsa_generate_key_impl,
  ml_dsa_sign_impl, ml_dsa_verify_impl,
}
use claude_crypto.Api.KeyBalance.{KeyAccounting, IsBalanced}
use claude_crypto.Api.KeyBalance.Operations.{balance_rules}

module _ (p : CryptoProvider) (acc : KeyAccounting p) where
  open acc use {import_live, generate_live, export_live, export_public_live, sign_live, verify_live}

  pub slh_dsa_generate_key_impl-IsBalanced :
      (v : SlhDsaVariant) → IsBalanced p acc (slh_dsa_generate_key_impl p v)
  unfolding slh_dsa_generate_key_impl
  slh_dsa_generate_key_impl-IsBalanced v =
      search (balance_rules, generate_live, export_live, export_public_live) depth 9

  pub slh_dsa_sign_impl-IsBalanced :
      (v : SlhDsaVariant) (keys : SlhDsaKeyPair) (message : Bytes)
      → IsBalanced p acc (slh_dsa_sign_impl p v keys message)
  unfolding slh_dsa_sign_impl
  slh_dsa_sign_impl-IsBalanced v keys message =
      search (balance_rules, import_live, sign_live) depth 9

  pub slh_dsa_verify_impl-IsBalanced :
      (v : SlhDsaVariant) (key : SlhDsaPublicKey) (message signature : Bytes)
      → IsBalanced p acc (slh_dsa_verify_impl p v key message signature)
  unfolding slh_dsa_verify_impl dsa_answer
  slh_dsa_verify_impl-IsBalanced v key message signature =
      search (balance_rules, import_live, verify_live) depth 12

  pub ml_dsa_generate_key_impl-IsBalanced :
      (v : MlDsaVariant) → IsBalanced p acc (ml_dsa_generate_key_impl p v)
  unfolding ml_dsa_generate_key_impl
  ml_dsa_generate_key_impl-IsBalanced v =
      search (balance_rules, generate_live, export_live, export_public_live) depth 9

  -- For a provider whose calls keep the key accounting (a created key is live until it is
  -- destroyed, and no other call changes the live keys), ml_dsa_sign_impl ends with the live keys
  -- that it began with, on every path: each key that it creates is destroyed, whether it succeeds
  -- or fails.
  pub ml_dsa_sign_impl-IsBalanced :
      (v : MlDsaVariant) (keys : MlDsaKeyPair) (message : Bytes)
      → IsBalanced p acc (ml_dsa_sign_impl p v keys message)
  unfolding ml_dsa_sign_impl
  ml_dsa_sign_impl-IsBalanced v keys message =
      search (balance_rules, import_live, sign_live) depth 9

  pub ml_dsa_verify_impl-IsBalanced :
      (v : MlDsaVariant) (key : MlDsaPublicKey) (message signature : Bytes)
      → IsBalanced p acc (ml_dsa_verify_impl p v key message signature)
  unfolding ml_dsa_verify_impl dsa_answer
  ml_dsa_verify_impl-IsBalanced v key message signature =
      search (balance_rules, import_live, verify_live) depth 12

module _ (p : CryptoProvider) where
  -- Where the public key or the signature does not have the size of the variant,
  -- slh_dsa_verify_impl answers InvalidArgument and makes no call of the provider.
  slh_dsa_verify_impl-wrong_size :
      (v : SlhDsaVariant) (key : SlhDsaPublicKey) (message signature : Bytes) (s : p.State)
      → (length key.public_key ≢ slh_dsa_public_key_size v)
        ⊎ (length signature ≢ slh_dsa_signature_size v)
      → slh_dsa_verify_impl p v key message signature s ≡ (unexpected invalid_argument, s)
  unfolding slh_dsa_verify_impl fail
  slh_dsa_verify_impl-wrong_size v key message signature s wrong =
      elim (Bool-cases (length key.public_key == slh_dsa_public_key_size v)) [
        | inl right ↦
            let other : (length signature == slh_dsa_signature_size v) ≡ false = ground arith in
            rw (right, other) refl
        | inr short ↦ rw short refl
      ]

  -- Where the public key or the signature does not have the size of the variant,
  -- ml_dsa_verify_impl answers InvalidArgument and makes no call of the provider.
  ml_dsa_verify_impl-wrong_size :
      (v : MlDsaVariant) (key : MlDsaPublicKey) (message signature : Bytes) (s : p.State)
      → (length key.public_key ≢ ml_dsa_public_key_size v)
        ⊎ (length signature ≢ ml_dsa_signature_size v)
      → ml_dsa_verify_impl p v key message signature s ≡ (unexpected invalid_argument, s)
  unfolding ml_dsa_verify_impl fail
  ml_dsa_verify_impl-wrong_size v key message signature s wrong =
      elim (Bool-cases (length key.public_key == ml_dsa_public_key_size v)) [
        | inl right ↦
            let other : (length signature == ml_dsa_signature_size v) ≡ false = ground arith in
            rw (right, other) refl
        | inr short ↦ rw short refl
      ]
