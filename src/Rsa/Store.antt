-- ===== src/Rsa/Store.antt =====
-- providers/arm_asm/rsa.hpp: importing and destroying RSA keys.
use claude_crypto.Base.{
  ℕ, ◌<◌, ◌≤◌, ◌≡◌, ◌⊎◌, inl, inr, refl, Bool, false, Bool-cases, ltb, List, length, take-append,
  drop, arith,
}
use claude_crypto.Base.Slots.{AllInUse}
use claude_crypto.Api.Result.{Bytes, invalid_argument, unexpected, ok}
use claude_crypto.KeyStore.Ids.{IsStored, IsCleared, clear_slot-IsCleared, fill_slot-IsStored}
use claude_crypto.Rsa.{
  rsa_key_store_capacity, rsa_key_id_base, rsa_max_private_key_bytes, RsaKeyKind, RsaKeySlot,
  RsaKeyView, empty_rsa_slot, filled_rsa_slot, rsa_key_store_import, rsa_copy_out,
  rsa_key_store_destroy,
}

abbrev pub rsa_slot_in_use : RsaKeySlot → Bool
rsa_slot_in_use s = s.in_use

copy-free : (s : RsaKeySlot) → s.in_use ≡ false → rsa_copy_out s ≡ unexpected invalid_argument
unfolding rsa_copy_out
copy-free s h = rw h refl

copy-filled :
    (kind : RsaKeyKind) (bits : ℕ) (key : Bytes) (s : RsaKeySlot)
    → rsa_copy_out (filled_rsa_slot kind bits key s)
      ≡ ok (record { bytes = key; bits = bits; kind = kind })
unfolding rsa_copy_out filled_rsa_slot
copy-filled kind bits key s = rw (take-append key (drop (length key) s.bytes)) refl

-- The keys that rsa_key_store_get reads.
abbrev pub IsRsaStored : RsaKeyView → ℕ → List RsaKeySlot → List RsaKeySlot → Type 0
IsRsaStored = IsStored rsa_key_id_base rsa_key_store_capacity empty_rsa_slot rsa_copy_out

abbrev pub IsRsaCleared : ℕ → List RsaKeySlot → List RsaKeySlot → Type 0
IsRsaCleared = IsCleared rsa_key_id_base rsa_key_store_capacity empty_rsa_slot rsa_copy_out

module _ (slots : List RsaKeySlot) (size : length slots ≡ rsa_key_store_capacity) where
  -- With 8 slots, rsa_key_store_import either answers 0 and leaves the slots as they were, and
  -- then the key has more than 5000 bytes or every slot is in use; or the key has at most 5000
  -- bytes, and it answers an id in range that named no key, under which the key, its bits and its
  -- kind read back, while all other ids read as before and the number of slots stays.
  pub rsa_key_store_import_lem :
      (kind : RsaKeyKind) (bits : ℕ) (key : Bytes)
      → (rsa_key_store_import kind bits key slots ≡ (0, slots))
          × ((rsa_max_private_key_bytes < length key)
              ⊎ AllInUse rsa_slot_in_use (filled_rsa_slot kind bits key) slots)
        ⊎ (length key ≤ rsa_max_private_key_bytes)
          × IsRsaStored
              (record { bytes = key; bits = bits; kind = kind })
              (rsa_key_store_import kind bits key slots).0
              slots
              (rsa_key_store_import kind bits key slots).1
  unfolding rsa_key_store_import
  rsa_key_store_import_lem kind bits key =
      elim (Bool-cases (ltb rsa_max_private_key_bytes (length key))) [
        | inl long ↦ inl (rw long refl, inl (ground arith))
        | inr fits ↦
            elim (fill_slot-IsStored rsa_key_id_base rsa_key_store_capacity empty_rsa_slot
              rsa_copy_out slots size rsa_slot_in_use (filled_rsa_slot kind bits key)
              (record { bytes = key; bits = bits; kind = kind }) copy-free
              (copy-filled kind bits key)) [
                | inl (same, all) ↦ inl (rw fits same, inr all)
                | inr r ↦ inr (ground arith, rw fits r)
              ]
      ]

  -- With 8 slots, after rsa_key_store_destroy the id names no key, all other ids read as before
  -- and the number of slots stays, for every id, in range or not.
  pub rsa_key_store_destroy_lem : (id : ℕ) → IsRsaCleared id slots (rsa_key_store_destroy id slots)
  unfolding rsa_key_store_destroy rsa_copy_out empty_rsa_slot
  rsa_key_store_destroy_lem id =
      clear_slot-IsCleared rsa_key_id_base rsa_key_store_capacity empty_rsa_slot rsa_copy_out slots
        size refl id
