-- ===== src/PqcKeyStore/Import.antt =====
-- providers/arm_asm/pqc_key_store.hpp: importing a key.
use claude_crypto.Base.{
  ℕ, ◌+◌, ◌<◌, ◌≤◌, ◌≡◌, ◌≢◌, ◌⊎◌, inl, inr, refl, ap, ◌∙◌, Bool, true, false, ◌||◌, ◌==◌, ltb,
  Bool-cases, List, length, length-set, set, arith,
}
use claude_crypto.Base.Slots.{AllInUse, fill_first_lem}
use claude_crypto.KeyStore.Slots.{get_or-set}
use claude_crypto.Api.Result.{Bytes, invalid_argument, unexpected}
use claude_crypto.PqcKeyStore.{
  PqcKeySlot, PqcKeyType, pqc_key_store_capacity, pqc_key_id_base, pqc_max_key_bytes,
  empty_pqc_slot, pqc_key_slot, canonical_sizes, filled_pqc_slot, slot_id, pqc_import_loop,
  pqc_key_store_import, private_copy, public_copy, pqc_key_store_get_private,
  pqc_key_store_get_public,
}
use claude_crypto.PqcKeyStore.Reading.{
  canonical_sizes-bounds, portion, private_copy-filled, public_copy-filled, read-inside,
  read-set_other,
}

abbrev pub slot_in_use : PqcKeySlot → Bool
slot_in_use s = s.in_use

-- A key was put under an id that named none before; both of its portions are read from there.
pub record IsPqcImported (type : PqcKeyType) (priv public : Bytes) (slots : List PqcKeySlot)
    (id : ℕ) (after : List PqcKeySlot) : Type 0 where
  pub in_range : (pqc_key_id_base ≤ id) × (id < pqc_key_id_base + pqc_key_store_capacity)
  pub fresh :
      (pqc_key_store_get_private id slots ≡ unexpected invalid_argument)
      × (pqc_key_store_get_public id slots ≡ unexpected invalid_argument)
  pub private_portion : pqc_key_store_get_private id after ≡ portion priv type
  pub public_portion : pqc_key_store_get_public id after ≡ portion public type
  pub others :
      (j : ℕ)
      → j ≢ id
      → (pqc_key_store_get_private j after ≡ pqc_key_store_get_private j slots)
        × (pqc_key_store_get_public j after ≡ pqc_key_store_get_public j slots)
  pub still : length after ≡ pqc_key_store_capacity

private_copy-free :
    (s : PqcKeySlot) → s.in_use ≡ false → private_copy s ≡ unexpected invalid_argument
unfolding private_copy
private_copy-free s h = rw h refl

public_copy-free : (s : PqcKeySlot) → s.in_use ≡ false → public_copy s ≡ unexpected invalid_argument
unfolding public_copy
public_copy-free s h = rw h refl

module _ (type : PqcKeyType) (priv public : Bytes) (slots : List PqcKeySlot)
    (size : length slots ≡ pqc_key_store_capacity) where
  abbrev new : PqcKeySlot
  new = filled_pqc_slot type priv public

  imported_at :
      (index : ℕ)
      → index < pqc_key_store_capacity
      → (pqc_key_slot slots index).in_use ≡ false
      → IsPqcImported type priv public slots (index + pqc_key_id_base) (set slots index new)
  unfolding pqc_key_store_get_private pqc_key_store_get_public
  imported_at index small free =
      let there : pqc_key_slot (set slots index new) index ≡ new =
        get_or-set slots index new empty_pqc_slot (omega (arith, small, size)) in
      record {
        in_range = (omega arith, omega (arith, small));
        fresh = (
          read-inside private_copy slots index small
              ∙ private_copy-free (pqc_key_slot slots index) free,
          read-inside public_copy slots index small
              ∙ public_copy-free (pqc_key_slot slots index) free,
        );
        private_portion =
            read-inside private_copy (set slots index new) index small
            ∙ ap private_copy there
            ∙ private_copy-filled type priv public;
        public_portion =
            read-inside public_copy (set slots index new) index small
            ∙ ap public_copy there
            ∙ public_copy-filled type priv public;
        others = λ j other. (
          read-set_other private_copy slots index new j other,
          read-set_other public_copy slots index new j other,
        );
        still = length-set slots index new ∙ size;
      }

  loop_lem :
      (pqc_import_loop new slots ≡ (0, slots)) × AllInUse slot_in_use (λ s. new) slots
      ⊎ IsPqcImported type priv public slots
          (pqc_import_loop new slots).0
          (pqc_import_loop new slots).1
  unfolding pqc_import_loop slot_id
  loop_lem = elim (fill_first_lem slot_in_use (λ s. new) 0 slots empty_pqc_slot) [
    | inl (same, all) ↦ inl (rw same refl, all)
    | inr f ↦
        let small : f.index < pqc_key_store_capacity = omega (arith, f.inside, size) in
        let position : 0 + f.index ≡ f.index = omega arith in
        inr (rw (f.named, f.changed, position) (imported_at f.index small f.free))
  ]

  -- With 16 slots, pqc_key_store_import either answers 0 and leaves the slots as they were, and
  -- then the lengths of the two portions are not the canonical ones for the type or every slot is
  -- in use; or the lengths are canonical and it answers an id in range that named no key, under
  -- which each portion that is not empty reads back, while all other ids read as before and the
  -- number of slots stays.
  pub pqc_key_store_import_lem :
      (pqc_key_store_import type priv public slots ≡ (0, slots))
        × ((canonical_sizes type (length priv) (length public) ≡ false)
            ⊎ AllInUse slot_in_use (λ s. new) slots)
      ⊎ (canonical_sizes type (length priv) (length public) ≡ true)
        × IsPqcImported type priv public slots
            (pqc_key_store_import type priv public slots).0
            (pqc_key_store_import type priv public slots).1
  unfolding pqc_key_store_import
  pqc_key_store_import_lem =
      elim (Bool-cases (canonical_sizes type (length priv) (length public))) [
        | inr refused ↦ inl (rw refused refl, inl refused)
        | inl sized ↦
            let (pos, fits) = canonical_sizes-bounds type (length priv) (length public) sized in
            let accepted : (length priv + length public == 0
                  || ltb pqc_max_key_bytes (length priv + length public))
                ≡ false =
              ground arith in
            elim loop_lem [
              | inl (same, all) ↦ inl (rw (sized, accepted) same, inr all)
              | inr r ↦ inr (sized, rw (sized, accepted) r)
            ]
      ]
