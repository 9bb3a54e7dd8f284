-- ===== src/KeyStore/Slots.antt =====
-- providers/arm_asm/key_store.hpp: the array of slots, and reading it after a change.
use claude_crypto.Base.{
  ℕ, zero, suc, ◌+◌, ◌-◌, Bool, false, not, ◌||◌, ◌==◌, ltb, if◌then◌else◌, ap₂, take, ◌<◌, ◌≡◌,
  ◌≢◌, refl, ap, true, List, [], ◌∷◌, length, get_or, set, arith,
}
use claude_crypto.Api.Result.{Bytes, CryptoErrorCode, invalid_argument, Expected, ok, unexpected}
use claude_crypto.KeyStore.{
  KeySlot, key_store_capacity, empty_slot, key_slot, copy_out, key_store_get,
}

module _ {A : Type 0} where
  pub get_or-set : (xs : List A) (i : ℕ) (v d : A) → i < length xs → get_or (set xs i v) i d ≡ v
  get_or-set [] i v d h = absurd (omega (arith, h))
  get_or-set (x ∷ xs) zero v d h = refl
  get_or-set (x ∷ xs) (suc i) v d h = get_or-set xs i v d (omega (arith, h))

  pub get_or-set_other :
      (xs : List A) (i j : ℕ) (v d : A) → j ≢ i → get_or (set xs i v) j d ≡ get_or xs j d
  get_or-set_other [] i j v d h = refl
  get_or-set_other (x ∷ xs) zero zero v d h = absurd (h refl)
  get_or-set_other (x ∷ xs) zero (suc j) v d h = refl
  get_or-set_other (x ∷ xs) (suc i) zero v d h = refl
  get_or-set_other (x ∷ xs) (suc i) (suc j) v d h = get_or-set_other xs i j v d (λ e. h (ap suc e))

-- No slot is free.
abbrev pub IsFull : List KeySlot → Type 0
IsFull [] = Unit
IsFull (s ∷ slots) = (s.in_use ≡ true) × IsFull slots

copy_outcome : List KeySlot → Bool → ℕ → Expected CryptoErrorCode Bytes
copy_outcome slots outside index =
    if outside then unexpected invalid_argument else copy_out (key_slot slots index)

-- The slot that an id reads.
pub key_store_get-inside :
    (slots : List KeySlot) (index : ℕ)
    → index < key_store_capacity
    → key_store_get (index + 1) slots ≡ copy_out (key_slot slots index)
unfolding key_store_get copy_outcome
key_store_get-inside slots index h =
    let inside : ((index + 1 == 0) || ltb key_store_capacity (index + 1)) ≡ false = ground arith in
    let same : index + 1 - 1 ≡ index = omega arith in ap₂ (copy_outcome slots) inside same

pub copy_out-free : (s : KeySlot) → s.in_use ≡ false → copy_out s ≡ unexpected invalid_argument
unfolding copy_out
copy_out-free s h =
    ap (λ (b : Bool). if not b then unexpected invalid_argument else ok (take s.len s.bytes)) h

pub key_store_get-set_other :
    (slots : List KeySlot) (index : ℕ) (new : KeySlot) (j : ℕ)
    → j ≢ index + 1
    → key_store_get j (set slots index new) ≡ key_store_get j slots
unfolding key_store_get
key_store_get-set_other slots index new zero h = refl
key_store_get-set_other slots index new (suc j) h =
    ap
      (λ (s : KeySlot).
        if (suc j == 0) || ltb key_store_capacity (suc j)
        then unexpected invalid_argument
        else copy_out s)
      (get_or-set_other slots index (suc j - 1) new empty_slot (λ e. h (omega (arith, e))))
