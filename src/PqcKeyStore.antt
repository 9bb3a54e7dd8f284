-- ===== src/PqcKeyStore.antt =====
-- providers/arm_asm/pqc_key_store.hpp: the slots for keys of ML-KEM and ML-DSA. The variant, which
-- the source keeps as a byte beside the type, stands with the type. The mutex makes each operation
-- one step; failures to allocate are left out.
pub mod Reading
pub mod Import
pub mod Destroy
use claude_crypto.Base.{
  ℕ, ◌+◌, ◌-◌, Bool, true, false, not, ◌&&◌, ◌||◌, ◌==◌, ltb, leb, if◌then◌else◌, Option, none,
  some, List, [], ◌++◌, length, take, drop, get_or, set,
}
use claude_crypto.Base.Slots.{fill_first}
use claude_crypto.Api.Result.{Bytes, CryptoErrorCode, invalid_argument, Expected, ok, unexpected}
use claude_crypto.Api.Provider.{MlKemVariant, MlDsaVariant}
use claude_crypto.Api.Kem.{ml_kem_private_key_size, ml_kem_public_key_size}
use claude_crypto.Api.Dsa.{ml_dsa_private_key_size, ml_dsa_public_key_size}

abbrev pub pqc_key_store_capacity : ℕ
pqc_key_store_capacity = 16

abbrev pub pqc_key_id_base : ℕ
pqc_key_id_base = 0xe000

abbrev pub pqc_max_key_bytes : ℕ
pqc_max_key_bytes = 7488

pub data PqcKeyType : Type 0 where
  no_key : PqcKeyType
  ml_kem_private ml_kem_public : MlKemVariant → PqcKeyType
  ml_dsa_private ml_dsa_public : MlDsaVariant → PqcKeyType

-- `bytes` is what `data` points to.
pub record PqcKeySlot : Type 0 where
  pub bytes : Bytes
  pub len : ℕ
  pub priv_len : ℕ
  pub type : PqcKeyType
  pub in_use : Bool

pub record PqcKeyView : Type 0 where
  pub bytes : Bytes
  pub type : PqcKeyType

unfoldable pub empty_pqc_slot : PqcKeySlot
empty_pqc_slot = record { bytes = []; len = 0; priv_len = 0; type = no_key; in_use = false }

abbrev pub pqc_key_slot : List PqcKeySlot → ℕ → PqcKeySlot
pqc_key_slot slots idx = get_or slots idx empty_pqc_slot

-- A private key, of the size `private`, with no public key or one of the size `public`.
abbrev pub is_pair : ℕ → ℕ → ℕ → ℕ → Bool
is_pair private public priv_len pub_len =
    (priv_len == private) && (pub_len == 0 || pub_len == public)

abbrev pub is_public : ℕ → ℕ → ℕ → Bool
is_public public priv_len pub_len = (priv_len == 0) && (pub_len == public)

-- The sizes that the switch lets through.
unfoldable pub canonical_sizes : PqcKeyType → ℕ → ℕ → Bool
canonical_sizes no_key priv_len pub_len = false
canonical_sizes (ml_kem_private v) priv_len pub_len =
    is_pair (ml_kem_private_key_size v) (ml_kem_public_key_size v) priv_len pub_len
canonical_sizes (ml_kem_public v) priv_len pub_len =
    is_public (ml_kem_public_key_size v) priv_len pub_len
canonical_sizes (ml_dsa_private v) priv_len pub_len =
    is_pair (ml_dsa_private_key_size v) (ml_dsa_public_key_size v) priv_len pub_len
canonical_sizes (ml_dsa_public v) priv_len pub_len =
    is_public (ml_dsa_public_key_size v) priv_len pub_len

unfoldable pub filled_pqc_slot : PqcKeyType → Bytes → Bytes → PqcKeySlot
filled_pqc_slot type priv public = record {
  bytes = priv ++ public;
  len = length priv + length public;
  priv_len = length priv;
  type = type;
  in_use = true;
}

-- The id of the slot that was found.
unfoldable pub slot_id : Option ℕ → ℕ
slot_id none = 0
slot_id (some i) = i + pqc_key_id_base

unfoldable pub pqc_import_loop : PqcKeySlot → List PqcKeySlot → ℕ × List PqcKeySlot
unfolding fill_first slot_id
pqc_import_loop new slots =
    let (found, after) = fill_first (λ (s : PqcKeySlot). s.in_use) (λ s. new) 0 slots in
    (slot_id found, after)

unfoldable pub pqc_key_store_import :
    PqcKeyType → Bytes → Bytes → List PqcKeySlot → ℕ × List PqcKeySlot
unfolding canonical_sizes filled_pqc_slot pqc_import_loop
pqc_key_store_import type priv public slots =
    let total = length priv + length public in
    let stored = pqc_import_loop (filled_pqc_slot type priv public) slots in
    if not (canonical_sizes type (length priv) (length public))
    then (0, slots)
    else if total == 0 || ltb pqc_max_key_bytes total
    then (0, slots)
    else stored

abbrev pub pqc_outside : ℕ → Bool
pqc_outside id = ltb id pqc_key_id_base || leb pqc_key_store_capacity (id - pqc_key_id_base)

-- What is copied out of a slot.
unfoldable pub private_copy : PqcKeySlot → Expected CryptoErrorCode PqcKeyView
private_copy s =
    if not s.in_use || s.priv_len == 0
    then unexpected invalid_argument
    else ok (record { bytes = take s.priv_len s.bytes; type = s.type })

unfoldable pub public_copy : PqcKeySlot → Expected CryptoErrorCode PqcKeyView
public_copy s =
    if not s.in_use
    then unexpected invalid_argument
    else let pub_len = s.len - s.priv_len in
      if pub_len == 0
      then unexpected invalid_argument
      else ok (record { bytes = take pub_len (drop s.priv_len s.bytes); type = s.type })

-- Both readers look up the slot in the same way.
abbrev pub read_slot :
    (PqcKeySlot → Expected CryptoErrorCode PqcKeyView)
    → ℕ
    → List PqcKeySlot
    → Expected CryptoErrorCode PqcKeyView
read_slot copy id slots =
    if pqc_outside id
    then unexpected invalid_argument
    else copy (pqc_key_slot slots (id - pqc_key_id_base))

unfoldable pub pqc_key_store_get_private : ℕ → List PqcKeySlot → Expected CryptoErrorCode PqcKeyView
unfolding private_copy
pqc_key_store_get_private id slots = read_slot private_copy id slots

unfoldable pub pqc_key_store_get_public : ℕ → List PqcKeySlot → Expected CryptoErrorCode PqcKeyView
unfolding public_copy
pqc_key_store_get_public id slots = read_slot public_copy id slots

unfoldable pub pqc_key_id_is_pqc : ℕ → Bool
pqc_key_id_is_pqc id =
    not (ltb id pqc_key_id_base) && ltb (id - pqc_key_id_base) pqc_key_store_capacity

unfoldable pub pqc_key_store_destroy : ℕ → List PqcKeySlot → List PqcKeySlot
unfolding empty_pqc_slot
pqc_key_store_destroy id slots =
    if pqc_outside id then slots else set slots (id - pqc_key_id_base) empty_pqc_slot
