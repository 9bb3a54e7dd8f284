-- ===== src/KeyStore/Import.antt =====
-- providers/arm_asm/key_store.hpp: importing a key.
use claude_crypto.Base.{
  ℕ, suc, ◌+◌, ◌<◌, ◌≤◌, ◌≡◌, ◌≢◌, ◌⊎◌, inl, inr, refl, sym, ap, subst, ◌∙◌, Bool, true, false, not,
  List, [], ◌∷◌, ltb, if◌then◌else◌, length, drop, take-append, set, length-set, Bool-cases, arith,
}
use claude_crypto.Api.Result.{Bytes, invalid_argument, ok, unexpected}
use claude_crypto.KeyStore.{
  KeySlot, key_store_capacity, key_store_max_bytes, key_slot, filled_slot, empty_slot, import_loop,
  key_store_import, copy_out, key_store_get,
}
use claude_crypto.KeyStore.Slots.{
  copy_out-free, key_store_get-inside, key_store_get-set_other, get_or-set, IsFull,
}

-- What the loop does: nothing if no slot is free, else it fills a free one.
record IsFilled (i : ℕ) (key : Bytes) (slots : List KeySlot) (r : ℕ × List KeySlot) : Type 0 where
  index : ℕ
  inside : index < length slots
  free : (key_slot slots index).in_use ≡ false
  named : r.0 ≡ i + index + 1
  changed : r.1 ≡ set slots index (filled_slot key (key_slot slots index))

-- What a whole run of the loop may have done.
abbrev Outcome : ℕ → Bytes → List KeySlot → ℕ × List KeySlot → Type 0
Outcome i key slots r = (r ≡ (0, slots)) × IsFull slots ⊎ IsFilled i key slots r

pass_slot :
    (i : ℕ) (key : Bytes) (s : KeySlot) (slots : List KeySlot) (rest : ℕ × List KeySlot)
    (used : Bool)
    → s.in_use ≡ used
    → Outcome (suc i) key slots rest
    → Outcome i key
        (s ∷ slots)
        (if not used then (i + 1, filled_slot key s ∷ slots) else (rest.0, s ∷ rest.1))
pass_slot i key s slots rest true e (inl (same, full)) =
    inl (ap (λ (r : ℕ × List KeySlot). (r.0, s ∷ r.1)) same, (e, full))
pass_slot i key s slots rest true e (inr r) = inr (record {
  index = suc r.index;
  inside = omega (arith, r.inside);
  free = r.free;
  named = omega (arith, r.named);
  changed = ap (λ (t : List KeySlot). s ∷ t) r.changed;
})
pass_slot i key s slots rest false e h =
    inr (record { index = 0; inside = omega arith; free = e; named = omega arith; changed = refl })

import_loop_lem :
    (i : ℕ) (key : Bytes) (slots : List KeySlot) → Outcome i key slots (import_loop i key slots)
unfolding import_loop
import_loop_lem i key [] = inl (refl, tt)
import_loop_lem i key (s ∷ slots) =
    pass_slot i key s slots (import_loop (suc i) key slots) s.in_use refl
      (import_loop_lem (suc i) key slots)

copy_out-filled : (key : Bytes) (s : KeySlot) → copy_out (filled_slot key s) ≡ ok key
unfolding copy_out filled_slot
copy_out-filled key s = ap ok (take-append key (drop (length key) s.bytes))

-- What an import has done: refused, or put the key under an id that named nothing before.
pub record IsImported (key : Bytes) (slots : List KeySlot) (id : ℕ) (after : List KeySlot)
    : Type 0 where
  pub in_range : (1 ≤ id) × (id ≤ key_store_capacity)
  pub fresh : key_store_get id slots ≡ unexpected invalid_argument
  pub stored : key_store_get id after ≡ ok key
  pub others : (j : ℕ) → j ≢ id → key_store_get j after ≡ key_store_get j slots
  pub still : length after ≡ key_store_capacity

of_filled :
    (key : Bytes) (slots : List KeySlot) (r : ℕ × List KeySlot)
    → length slots ≡ key_store_capacity
    → IsFilled 0 key slots r
    → IsImported key slots r.0 r.1
of_filled key slots r size f =
    let index : ℕ = f.index in
    let small : index < key_store_capacity = omega (arith, f.inside) in
    let id : ℕ = index + 1 in
    let named : id ≡ r.0 = omega (arith, f.named) in
    let new : KeySlot = filled_slot key (key_slot slots index) in
    subst (λ (n : ℕ). IsImported key slots n r.1) named
      (subst (IsImported key slots id) (sym f.changed) (record {
        in_range = (omega arith, omega (arith, small));
        fresh =
            key_store_get-inside slots index small ∙ copy_out-free (key_slot slots index) f.free;
        stored =
            key_store_get-inside (set slots index new) index small
            ∙ ap copy_out (get_or-set slots index new empty_slot f.inside)
            ∙ copy_out-filled key (key_slot slots index);
        others = λ j other. key_store_get-set_other slots index new j other;
        still = length-set slots index new ∙ size;
      }))

-- On a store of 16 slots, an import either changes nothing and answers 0, because the key is
-- longer than 512 bytes or every slot is in use, or it answers an id from 1 to 16 that named no
-- key, under which the key is found in the store after it, where every other id reads as before.
pub key_store_import_lem :
    (key : Bytes) (slots : List KeySlot)
    → length slots ≡ key_store_capacity
    → (key_store_import key slots ≡ (0, slots))
        × ((key_store_max_bytes < length key) ⊎ IsFull slots)
      ⊎ (length key ≤ key_store_max_bytes)
        × IsImported key slots (key_store_import key slots).0 (key_store_import key slots).1
unfolding key_store_import
key_store_import_lem key slots size = elim (Bool-cases (ltb key_store_max_bytes (length key))) [
  | inl long ↦ inl (
    ap (λ (b : Bool). if b then (0, slots) else import_loop 0 key slots) long,
    inl (ground arith),
  )
  | inr fits ↦
      let run = ap (λ (b : Bool). if b then (0, slots) else import_loop 0 key slots) fits in
      elim (import_loop_lem 0 key slots) [
        | inl (same, full) ↦ inl (run ∙ same, inr full)
        | inr r ↦ inr (
          ground arith,
          subst (λ (r : ℕ × List KeySlot). IsImported key slots r.0 r.1) (sym run)
              (of_filled key slots (import_loop 0 key slots) size r),
        )
      ]
]
