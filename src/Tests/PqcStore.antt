-- ===== src/Tests/PqcStore.antt =====
-- providers/arm_asm/pqc_key_store.hpp: runs of the key store of post-quantum keys.
use claude_crypto.Base.{◌+◌, ◌<◌, ◌≤◌, ◌≡◌, ◌⊎◌, refl, true, false, List, [], length, replicate}
use claude_crypto.Base.Slots.{AllInUse}
use claude_crypto.Api.Result.{Bytes}
use claude_crypto.Api.Provider.{kem512}
use claude_crypto.Api.Kem.{ml_kem_public_key_size}
use claude_crypto.PqcKeyStore.{
  PqcKeySlot, ml_kem_public, empty_pqc_slot, canonical_sizes, filled_pqc_slot, pqc_key_store_import,
  pqc_key_store_destroy,
}
use claude_crypto.PqcKeyStore.Reading.{canonical_sizes-bounds}
use claude_crypto.PqcKeyStore.Import.{slot_in_use, IsPqcImported, pqc_key_store_import_lem}
use claude_crypto.PqcKeyStore.Destroy.{IsPqcDestroyed, pqc_key_store_destroy_lem}

abbrev kem_public_key : Bytes
kem_public_key = replicate 800 7

abbrev no_keys : List PqcKeySlot
no_keys = replicate 16 empty_pqc_slot

canonical_sizes-bounds_example : (0 < 0 + 800) × (0 + 800 ≤ 7488)
unfolding canonical_sizes ml_kem_public_key_size
canonical_sizes-bounds_example = canonical_sizes-bounds (ml_kem_public kem512) 0 800 refl

pqc_key_store_import_lem_example :
    (pqc_key_store_import (ml_kem_public kem512) [] kem_public_key no_keys ≡ (0, no_keys))
      × ((canonical_sizes (ml_kem_public kem512) 0 (length kem_public_key) ≡ false)
          ⊎ AllInUse slot_in_use
              (λ s. filled_pqc_slot (ml_kem_public kem512) [] kem_public_key)
              no_keys)
    ⊎ (canonical_sizes (ml_kem_public kem512) 0 (length kem_public_key) ≡ true)
      × IsPqcImported
          (ml_kem_public kem512)
          []
          kem_public_key
          no_keys
          (pqc_key_store_import (ml_kem_public kem512) [] kem_public_key no_keys).0
          (pqc_key_store_import (ml_kem_public kem512) [] kem_public_key no_keys).1
pqc_key_store_import_lem_example =
    pqc_key_store_import_lem (ml_kem_public kem512) [] kem_public_key no_keys refl

pqc_key_store_destroy_lem_example :
    IsPqcDestroyed 0xe001 no_keys (pqc_key_store_destroy 0xe001 no_keys)
pqc_key_store_destroy_lem_example = pqc_key_store_destroy_lem no_keys refl 0xe001
