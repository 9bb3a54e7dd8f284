-- ===== src/Tests/Store.antt =====
-- The slots of key_store.hpp, with keys coming and going.
use claude_crypto.Base.{◌<◌, ◌≤◌, ◌≡◌, ◌⊎◌, refl, List, [], ◌∷◌, replicate}
use claude_crypto.Api.Result.{ok}
use claude_crypto.KeyStore.{
  KeySlot, key_store_max_bytes, empty_slot, filled_slot, import_loop, key_store_import, copy_out,
  key_store_get, key_store_destroy,
}
use claude_crypto.KeyStore.Slots.{IsFull}
use claude_crypto.KeyStore.Import.{IsImported, key_store_import_lem}
use claude_crypto.KeyStore.Destroy.{IsDestroyed, key_store_destroy_lem}

abbrev one_key : List KeySlot
one_key = filled_slot (1 ∷ 2 ∷ 3 ∷ []) empty_slot ∷ replicate 15 empty_slot

second_key_run : key_store_get 2 (key_store_import (5 ∷ 6 ∷ []) one_key).1 ≡ ok (5 ∷ 6 ∷ [])
unfolding key_store_get key_store_import import_loop filled_slot copy_out empty_slot
second_key_run = refl

key_store_import_lem_example :
    (key_store_import (5 ∷ 6 ∷ []) one_key ≡ (0, one_key))
      × ((key_store_max_bytes < 2) ⊎ IsFull one_key)
    ⊎ (2 ≤ key_store_max_bytes)
      × IsImported
          (5 ∷ 6 ∷ [])
          one_key
          (key_store_import (5 ∷ 6 ∷ []) one_key).0
          (key_store_import (5 ∷ 6 ∷ []) one_key).1
key_store_import_lem_example = key_store_import_lem (5 ∷ 6 ∷ []) one_key refl

key_store_destroy_lem_example : IsDestroyed 1 one_key (key_store_destroy 1 one_key)
key_store_destroy_lem_example = key_store_destroy_lem 1 one_key refl
