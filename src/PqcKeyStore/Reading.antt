-- ===== src/PqcKeyStore/Reading.antt =====
-- providers/arm_asm/pqc_key_store.hpp: reading slots, and the sizes that are let through.
use claude_crypto.Base.{
  ℕ, suc, ◌+◌, ◌-◌, ◌<◌, ◌≤◌, ◌≡◌, ◌≢◌, inl, inr, refl, sym, ap, ◌∙◌, true, false, ◌==◌, Bool-cases,
  List, [], ◌∷◌, append-nil, length, take, take-append, drop-append, set, arith,
}
use claude_crypto.Api.Result.{Bytes, CryptoErrorCode, invalid_argument, Expected, ok, unexpected}
use claude_crypto.Api.Provider.{kem512, kem768, kem1024, dsa44, dsa65, dsa87}
use claude_crypto.Api.Kem.{ml_kem_private_key_size, ml_kem_public_key_size}
use claude_crypto.Api.Dsa.{ml_dsa_private_key_size, ml_dsa_public_key_size}
use claude_crypto.KeyStore.Slots.{get_or-set_other}
use claude_crypto.PqcKeyStore.{
  PqcKeySlot, PqcKeyView, PqcKeyType, no_key, ml_kem_private, ml_kem_public, ml_dsa_private,
  ml_dsa_public, pqc_key_store_capacity, pqc_key_id_base, pqc_max_key_bytes, empty_pqc_slot,
  pqc_key_slot, canonical_sizes, filled_pqc_slot, private_copy, public_copy, read_slot, pqc_outside,
}

-- The lengths that the switch of pqc_key_store_import lets through sum to at least 1 and at most
-- 7488 bytes, so that the test of the total after it never refuses.
pub canonical_sizes-bounds :
    (type : PqcKeyType) (priv_len pub_len : ℕ)
    → canonical_sizes type priv_len pub_len ≡ true
    → (0 < priv_len + pub_len) × (priv_len + pub_len ≤ pqc_max_key_bytes)
unfolding canonical_sizes ml_kem_private_key_size ml_kem_public_key_size ml_dsa_private_key_size
    ml_dsa_public_key_size
canonical_sizes-bounds no_key a b h = absurd (ground arith)
canonical_sizes-bounds (ml_kem_private kem512) a b h = ground arith
canonical_sizes-bounds (ml_kem_private kem768) a b h = ground arith
canonical_sizes-bounds (ml_kem_private kem1024) a b h = ground arith
canonical_sizes-bounds (ml_kem_public kem512) a b h = ground arith
canonical_sizes-bounds (ml_kem_public kem768) a b h = ground arith
canonical_sizes-bounds (ml_kem_public kem1024) a b h = ground arith
canonical_sizes-bounds (ml_dsa_private dsa44) a b h = ground arith
canonical_sizes-bounds (ml_dsa_private dsa65) a b h = ground arith
canonical_sizes-bounds (ml_dsa_private dsa87) a b h = ground arith
canonical_sizes-bounds (ml_dsa_public dsa44) a b h = ground arith
canonical_sizes-bounds (ml_dsa_public dsa65) a b h = ground arith
canonical_sizes-bounds (ml_dsa_public dsa87) a b h = ground arith

-- What a portion reads as: an empty one is not there.
abbrev pub portion : Bytes → PqcKeyType → Expected CryptoErrorCode PqcKeyView
portion [] type = unexpected invalid_argument
portion (b ∷ bytes) type = ok (record { bytes = b ∷ bytes; type = type })

pub private_copy-filled :
    (type : PqcKeyType) (priv public : Bytes)
    → private_copy (filled_pqc_slot type priv public) ≡ portion priv type
unfolding private_copy filled_pqc_slot
private_copy-filled type [] public = refl
private_copy-filled type (b ∷ priv) public =
    let some_bytes : (suc (length priv) == 0) ≡ false = ground arith in
    rw (some_bytes, take-append priv public) refl

pub public_copy-filled :
    (type : PqcKeyType) (priv public : Bytes)
    → public_copy (filled_pqc_slot type priv public) ≡ portion public type
unfolding public_copy filled_pqc_slot
public_copy-filled type priv [] =
    let none_left : (length priv + 0 - length priv == 0) ≡ true = ground arith in rw none_left refl
public_copy-filled type priv (b ∷ public) =
    let left : length priv + suc (length public) - length priv ≡ suc (length public) =
      omega arith in
    let some_left : (suc (length public) == 0) ≡ false = ground arith in
    let whole : take (length public) public ≡ public =
      ap (take (length public)) (sym (append-nil public)) ∙ take-append public [] in
    rw (left, some_left, drop-append priv (b ∷ public), whole) refl

module _ (copy : PqcKeySlot → Expected CryptoErrorCode PqcKeyView) where
  pub read-inside :
      (slots : List PqcKeySlot) (index : ℕ)
      → index < pqc_key_store_capacity
      → read_slot copy (index + pqc_key_id_base) slots ≡ copy (pqc_key_slot slots index)
  read-inside slots index h =
      let inside : pqc_outside (index + pqc_key_id_base) ≡ false = ground arith in
      let same : index + pqc_key_id_base - pqc_key_id_base ≡ index = omega arith in
      rw inside (ap (λ (i : ℕ). copy (pqc_key_slot slots i)) same)

  pub read-set_other :
      (slots : List PqcKeySlot) (index : ℕ) (new : PqcKeySlot) (j : ℕ)
      → j ≢ index + pqc_key_id_base
      → read_slot copy j (set slots index new) ≡ read_slot copy j slots
  read-set_other slots index new j other = elim (Bool-cases (pqc_outside j)) [
    | inl out ↦ rw out refl
    | inr inside ↦
        let apart : j - pqc_key_id_base ≢ index = λ e. other (ground (arith, e)) in
        rw inside
          (ap copy (get_or-set_other slots index (j - pqc_key_id_base) new empty_pqc_slot apart))
  ]
