-- ===== src/KeyStore/Destroy.antt =====
-- providers/arm_asm/key_store.hpp: destroying a key.
use claude_crypto.Base.{
  ℕ, ◌+◌, ◌-◌, ◌<◌, ◌≡◌, ◌≢◌, refl, ap, subst, ◌∙◌, Bool, true, false, ◌||◌, List, ◌==◌, ltb,
  if◌then◌else◌, length, set, length-set, arith,
}
use claude_crypto.Api.Result.{invalid_argument, unexpected}
use claude_crypto.KeyStore.{
  KeySlot, key_store_capacity, empty_slot, key_slot, copy_out, key_store_get, key_store_destroy,
}
use claude_crypto.KeyStore.Slots.{
  get_or-set, copy_out-free, key_store_get-inside, key_store_get-set_other,
}

-- The store after the key under `id` was destroyed.
pub record IsDestroyed (id : ℕ) (slots after : List KeySlot) : Type 0 where
  pub gone : key_store_get id after ≡ unexpected invalid_argument
  pub others : (j : ℕ) → j ≢ id → key_store_get j after ≡ key_store_get j slots
  pub still : length after ≡ key_store_capacity

inside_lem :
    (slots : List KeySlot) (index : ℕ)
    → length slots ≡ key_store_capacity
    → index < key_store_capacity
    → IsDestroyed (index + 1) slots (set slots index empty_slot)
unfolding empty_slot
inside_lem slots index size h = record {
  gone =
      key_store_get-inside (set slots index empty_slot) index h
      ∙ ap copy_out (get_or-set slots index empty_slot empty_slot (omega (arith, h, size)))
      ∙ copy_out-free empty_slot refl;
  others = λ j other. key_store_get-set_other slots index empty_slot j other;
  still = length-set slots index empty_slot ∙ size;
}

outside_lem :
    (id : ℕ) (slots : List KeySlot)
    → length slots ≡ key_store_capacity
    → ((id == 0) || ltb key_store_capacity id) ≡ true
    → IsDestroyed id slots slots
unfolding key_store_get
outside_lem id slots size out = record {
  gone =
      ap
        (λ (b : Bool).
          if b then unexpected invalid_argument else copy_out (key_slot slots (id - 1)))
        out;
  others = λ j other. refl;
  still = size;
}

destroy_step :
    (id : ℕ) (slots : List KeySlot) (outside : Bool)
    → length slots ≡ key_store_capacity
    → ((id == 0) || ltb key_store_capacity id) ≡ outside
    → IsDestroyed id slots (if outside then slots else set slots (id - 1) empty_slot)
destroy_step id slots true size h = outside_lem id slots size h
destroy_step id slots false size h =
    let at : id - 1 + 1 ≡ id = ground arith in
    subst (λ (n : ℕ). IsDestroyed n slots (set slots (id - 1) empty_slot)) at
      (inside_lem slots (id - 1) size (ground arith))

-- On a store of 16 slots, after destroying an id, in range or not, the id names no key, every
-- other id reads as before, and the store has 16 slots.
pub key_store_destroy_lem :
    (id : ℕ) (slots : List KeySlot)
    → length slots ≡ key_store_capacity
    → IsDestroyed id slots (key_store_destroy id slots)
unfolding key_store_destroy
key_store_destroy_lem id slots size =
    destroy_step id slots ((id == 0) || ltb key_store_capacity id) size refl
