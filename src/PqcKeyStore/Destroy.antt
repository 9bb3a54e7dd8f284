-- ===== src/PqcKeyStore/Destroy.antt =====
-- providers/arm_asm/pqc_key_store.hpp: destroying a key.
use claude_crypto.Base.{
  ℕ, ◌+◌, ◌-◌, ◌<◌, ◌≡◌, ◌≢◌, inl, inr, refl, ap, subst, ◌∙◌, Bool-cases, List, length, set,
  length-set, arith,
}
use claude_crypto.KeyStore.Slots.{get_or-set}
use claude_crypto.Api.Result.{invalid_argument, unexpected}
use claude_crypto.PqcKeyStore.{
  PqcKeySlot, pqc_key_store_capacity, pqc_key_id_base, empty_pqc_slot, pqc_key_slot, private_copy,
  public_copy, pqc_outside, pqc_key_store_get_private, pqc_key_store_get_public,
  pqc_key_store_destroy,
}
use claude_crypto.PqcKeyStore.Reading.{read-inside, read-set_other}

-- The id names no key any more, and the others are as they were.
pub record IsPqcDestroyed (id : ℕ) (slots after : List PqcKeySlot) : Type 0 where
  pub gone :
      (pqc_key_store_get_private id after ≡ unexpected invalid_argument)
      × (pqc_key_store_get_public id after ≡ unexpected invalid_argument)
  pub others :
      (j : ℕ)
      → j ≢ id
      → (pqc_key_store_get_private j after ≡ pqc_key_store_get_private j slots)
        × (pqc_key_store_get_public j after ≡ pqc_key_store_get_public j slots)
  pub still : length after ≡ pqc_key_store_capacity

module _ (slots : List PqcKeySlot) (size : length slots ≡ pqc_key_store_capacity) where
  destroyed_at :
      (index : ℕ)
      → index < pqc_key_store_capacity
      → IsPqcDestroyed (index + pqc_key_id_base) slots (set slots index empty_pqc_slot)
  unfolding pqc_key_store_get_private pqc_key_store_get_public empty_pqc_slot private_copy
      public_copy
  destroyed_at index small =
      let there : pqc_key_slot (set slots index empty_pqc_slot) index ≡ empty_pqc_slot =
        get_or-set slots index empty_pqc_slot empty_pqc_slot (omega (arith, small, size)) in
      record {
        gone = (
          read-inside private_copy (set slots index empty_pqc_slot) index small
              ∙ ap private_copy there,
          read-inside public_copy (set slots index empty_pqc_slot) index small
              ∙ ap public_copy there,
        );
        others = λ j other. (
          read-set_other private_copy slots index empty_pqc_slot j other,
          read-set_other public_copy slots index empty_pqc_slot j other,
        );
        still = length-set slots index empty_pqc_slot ∙ size;
      }

  -- With 16 slots, after pqc_key_store_destroy neither portion of the id reads any more, all
  -- other ids read as before and the number of slots stays, for every id, in range or not.
  pub pqc_key_store_destroy_lem :
      (id : ℕ) → IsPqcDestroyed id slots (pqc_key_store_destroy id slots)
  unfolding pqc_key_store_destroy pqc_key_store_get_private pqc_key_store_get_public
  pqc_key_store_destroy_lem id = elim (Bool-cases (pqc_outside id)) [
    | inl out ↦ rw out (record {
      gone = (rw out refl, rw out refl);
      others = λ j other. (refl, refl);
      still = size;
    })
    | inr inside ↦
        let at : id - pqc_key_id_base + pqc_key_id_base ≡ id = ground arith in
        rw inside (
          subst
            (λ (n : ℕ). IsPqcDestroyed n slots (set slots (id - pqc_key_id_base) empty_pqc_slot)) at
            (destroyed_at (id - pqc_key_id_base) (ground arith)))
  ]
