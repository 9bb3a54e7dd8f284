-- ===== src/KeyStore/Ids.antt =====
-- Slots that are named by ids from a base on, as the key stores of arm_asm other than the one of
-- symmetric keys have them: reading, filling the first free slot, and clearing one.
use claude_crypto.Base.{
  ℕ, ◌+◌, ◌-◌, ◌<◌, ◌≤◌, ◌≡◌, ◌≢◌, ◌⊎◌, inl, inr, refl, ap, subst, ◌∙◌, Bool, false, ◌||◌, ltb, leb,
  Bool-cases, if◌then◌else◌, Option, none, some, List, length, length-set, get_or, set, arith,
}
use claude_crypto.Base.Slots.{fill_first, AllInUse, fill_first_lem}
use claude_crypto.KeyStore.Slots.{get_or-set, get_or-set_other}
use claude_crypto.Api.Result.{CryptoErrorCode, invalid_argument, Expected, ok, unexpected}

abbrev pub outside : ℕ → ℕ → ℕ → Bool
outside base capacity id = ltb id base || leb capacity (id - base)

module _ {S V : Type 0} (base capacity : ℕ) (empty : S) where
  -- What is copied out of the slot with an id.
  abbrev pub slot_answer :
      (S → Expected CryptoErrorCode V) → ℕ → List S → Expected CryptoErrorCode V
  slot_answer copy id slots =
      if outside base capacity id
      then unexpected invalid_argument
      else copy (get_or slots (id - base) empty)

module _ {S : Type 0} (base capacity : ℕ) (empty : S) where
  abbrev pub clear_slot : ℕ → List S → List S
  clear_slot id slots = if outside base capacity id then slots else set slots (id - base) empty

abbrev pub id_of : ℕ → Option ℕ → ℕ
id_of base none = 0
id_of base (some i) = i + base

module _ {S : Type 0} (base : ℕ) (in_use : S → Bool) (fill : S → S) where
  -- The id of the slot that was filled, or 0.
  unfoldable pub fill_slot : List S → ℕ × List S
  unfolding fill_first
  fill_slot slots = let (found, after) = fill_first in_use fill 0 slots in (id_of base found, after)

module _ {S V : Type 0} (base capacity : ℕ) (empty : S)
    (copy : S → Expected CryptoErrorCode V) where
  abbrev read : ℕ → List S → Expected CryptoErrorCode V
  read = slot_answer base capacity empty copy

  -- The id names no key any more, and the others are as they were.
  pub record IsCleared (id : ℕ) (slots after : List S) : Type 0 where
    pub gone : read id after ≡ unexpected invalid_argument
    pub others : (j : ℕ) → j ≢ id → read j after ≡ read j slots
    pub still : length after ≡ length slots

  -- The answer `v` is stored under an id that named no key.
  pub record IsStored (v : V) (id : ℕ) (slots after : List S) : Type 0 where
    pub in_range : (base ≤ id) × (id < base + capacity)
    pub fresh : read id slots ≡ unexpected invalid_argument
    pub stored : read id after ≡ ok v
    pub others : (j : ℕ) → j ≢ id → read j after ≡ read j slots
    pub still : length after ≡ length slots

  read-at :
      (slots : List S) (index : ℕ)
      → index < capacity
      → read (index + base) slots ≡ copy (get_or slots index empty)
  read-at slots index h =
      let inside : outside base capacity (index + base) ≡ false = ground arith in
      let same : index + base - base ≡ index = omega arith in
      rw inside (ap (λ (i : ℕ). copy (get_or slots i empty)) same)

  read-elsewhere :
      (slots : List S) (index : ℕ) (new : S) (j : ℕ)
      → j ≢ index + base
      → read j (set slots index new) ≡ read j slots
  read-elsewhere slots index new j other = elim (Bool-cases (outside base capacity j)) [
    | inl out ↦ rw out refl
    | inr inside ↦
        let apart : j - base ≢ index = λ e. other (ground (arith, e)) in
        rw inside (ap copy (get_or-set_other slots index (j - base) new empty apart))
  ]

  module _ (slots : List S) (size : length slots ≡ capacity) where
    clear-IsCleared :
        copy empty ≡ unexpected invalid_argument
        → (index : ℕ) → index < capacity
        → IsCleared (index + base) slots (set slots index empty)
    clear-IsCleared none_there index small = record {
      gone =
          read-at (set slots index empty) index small
          ∙ ap copy (get_or-set slots index empty empty (omega (arith, small, size)))
          ∙ none_there;
      others = λ j other. read-elsewhere slots index empty j other;
      still = length-set slots index empty;
    }

    pub clear_slot-IsCleared :
        copy empty ≡ unexpected invalid_argument
        → (id : ℕ) → IsCleared id slots (clear_slot base capacity empty id slots)
    clear_slot-IsCleared none_there id = elim (Bool-cases (outside base capacity id)) [
      | inl out ↦ rw out (record { gone = rw out refl; others = λ j other. refl; still = refl })
      | inr inside ↦
          let at : id - base + base ≡ id = ground arith in
          rw inside (
            subst (λ (n : ℕ). IsCleared n slots (set slots (id - base) empty)) at
              (clear-IsCleared none_there (id - base) (ground arith)))
    ]

    module _ (in_use : S → Bool) (fill : S → S) (v : V)
        (free : (s : S) → in_use s ≡ false → copy s ≡ unexpected invalid_argument)
        (filled : (s : S) → copy (fill s) ≡ ok v) where
      fill-IsStored :
          (index : ℕ)
          → index < capacity
          → in_use (get_or slots index empty) ≡ false
          → IsStored v (index + base) slots (set slots index (fill (get_or slots index empty)))
      fill-IsStored index small unused =
          let new : S = fill (get_or slots index empty) in
          record {
            in_range = (omega arith, omega (arith, small));
            fresh = read-at slots index small ∙ free (get_or slots index empty) unused;
            stored =
                read-at (set slots index new) index small
                ∙ ap copy (get_or-set slots index new empty (omega (arith, small, size)))
                ∙ filled (get_or slots index empty);
            others = λ j other. read-elsewhere slots index new j other;
            still = length-set slots index new;
          }

      -- Either every slot is in use and nothing changes, or the first free one is filled.
      pub fill_slot-IsStored :
          (fill_slot base in_use fill slots ≡ (0, slots)) × AllInUse in_use fill slots
          ⊎ IsStored v
              (fill_slot base in_use fill slots).0
              slots
              (fill_slot base in_use fill slots).1
      unfolding fill_slot
      fill_slot-IsStored = elim (fill_first_lem in_use fill 0 slots empty) [
        | inl (same, all) ↦ inl (rw same refl, all)
        | inr f ↦
            let small : f.index < capacity = omega (arith, f.inside, size) in
            let position : 0 + f.index ≡ f.index = omega arith in
            inr (rw (f.named, f.changed, position) (fill-IsStored f.index small f.free))
      ]
