-- ===== src/KeyStore.antt =====
-- providers/arm_asm/key_store.hpp: the slots for symmetric keys. The state is the list of the
-- slots; the mutex makes each operation one step. A failure to allocate the copy is left out.
pub mod Slots
pub mod Ids
pub mod Import
pub mod Destroy
use claude_crypto.Base.{
  ℕ, zero, suc, ◌+◌, ◌-◌, Bool, true, false, not, ◌||◌, List, [], ◌∷◌, ◌++◌, ◌==◌, ltb,
  if◌then◌else◌, length, take, drop, replicate, get_or, set,
}
use claude_crypto.Api.Result.{Bytes, CryptoErrorCode, invalid_argument, Expected, ok, unexpected}

abbrev pub key_store_capacity : ℕ
key_store_capacity = 16

abbrev pub key_store_max_bytes : ℕ
key_store_max_bytes = 512

-- `bytes` is the member `data`.
pub record KeySlot : Type 0 where
  pub bytes : Bytes
  pub len : ℕ
  pub in_use : Bool

-- A slot of zeros.
unfoldable pub empty_slot : KeySlot
empty_slot = record { bytes = replicate key_store_max_bytes 0; len = 0; in_use = false }

abbrev pub key_slot : List KeySlot → ℕ → KeySlot
key_slot slots idx = get_or slots idx empty_slot

-- `memcpy` to the front of the buffer.
unfoldable pub filled_slot : Bytes → KeySlot → KeySlot
filled_slot key s = record {
  bytes = key ++ drop (length key) s.bytes;
  len = length key;
  in_use = true;
}

-- The loop over the slots from index `i`.
unfoldable pub import_loop : ℕ → Bytes → List KeySlot → ℕ × List KeySlot
import_loop i key [] = (0, [])
import_loop i key (s ∷ slots) =
    let rest = import_loop (suc i) key slots in
    if not s.in_use then (i + 1, filled_slot key s ∷ slots) else (rest.0, s ∷ rest.1)

unfoldable pub key_store_import : Bytes → List KeySlot → ℕ × List KeySlot
key_store_import key slots =
    if ltb key_store_max_bytes (length key) then (0, slots) else import_loop 0 key slots

-- The answer for a slot.
unfoldable pub copy_out : KeySlot → Expected CryptoErrorCode Bytes
copy_out s = if not s.in_use then unexpected invalid_argument else ok (take s.len s.bytes)

unfoldable pub key_store_get : ℕ → List KeySlot → Expected CryptoErrorCode Bytes
key_store_get id slots =
    if (id == 0) || ltb key_store_capacity id
    then unexpected invalid_argument
    else copy_out (key_slot slots (id - 1))

unfoldable pub key_store_destroy : ℕ → List KeySlot → List KeySlot
key_store_destroy id slots =
    if (id == 0) || ltb key_store_capacity id then slots else set slots (id - 1) empty_slot
