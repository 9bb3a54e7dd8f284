-- ===== src/Base/Slots.antt =====
-- Arrays of slots: the first one that is free is filled.
use Prim.Native.Nat.{ℕ, suc, ◌+◌, ◌<◌}
use mathlib.Core.Path.{◌≡◌, refl, ap}
use mathlib.Core.Logic.{◌⊎◌, inl, inr}
use mathlib.Core.Bool.{Bool, true, false}
use mathlib.Core.Option.{Option, none, some}
use mathlib.Core.List.{List, [], ◌∷◌}
use claude_crypto.Base.Tests.{if◌then◌else◌}
use claude_crypto.Base.Lists.{length, get_or, set}
use native.Mathlib.Omega.{arith}

module _ {S : Type 0} (in_use : S → Bool) (fill : S → S) where
  -- The index of the slot and the slots after it was filled, from index `i` on.
  unfoldable pub fill_first : ℕ → List S → Option ℕ × List S
  fill_first i [] = (none, [])
  fill_first i (s ∷ slots) =
      let rest = fill_first (suc i) slots in
      if◌then◌else◌ {A = Option ℕ × List S} (in_use s) (rest.0, s ∷ rest.1) (some i, fill s ∷ slots)

  abbrev pub AllInUse : List S → Type 0
  AllInUse [] = Unit
  AllInUse (s ∷ slots) = (in_use s ≡ true) × AllInUse slots

  pub record IsFilledAt (i : ℕ) (slots : List S) (empty : S) (r : Option ℕ × List S) : Type 0 where
    pub index : ℕ
    pub inside : index < length slots
    pub free : in_use (get_or slots index empty) ≡ false
    pub named : r.0 ≡ some (i + index)
    pub changed : r.1 ≡ set slots index (fill (get_or slots index empty))

  abbrev Filling : ℕ → List S → S → Option ℕ × List S → Type 0
  Filling i slots empty r = (r ≡ (none, slots)) × AllInUse slots ⊎ IsFilledAt i slots empty r

  slot_passed :
      (i : ℕ) (s : S) (slots : List S) (empty : S) (rest : Option ℕ × List S) (used : Bool)
      → in_use s ≡ used
      → Filling (suc i) slots empty rest
      → Filling i
          (s ∷ slots)
          empty
          (if◌then◌else◌ {A = Option ℕ × List S} used (rest.0, s ∷ rest.1) (some i, fill s ∷ slots))
  slot_passed i s slots empty rest true e (inl (same, all)) =
      inl (ap (λ (r : Option ℕ × List S). (r.0, s ∷ r.1)) same, (e, all))
  slot_passed i s slots empty rest true e (inr r) =
      let position : suc i + r.index ≡ i + suc r.index = omega arith in
      inr (record {
        index = suc r.index;
        inside = omega (arith, r.inside);
        free = r.free;
        named = rw (r.named) (ap some position);
        changed = ap (λ (t : List S). s ∷ t) r.changed;
      })
  slot_passed i s slots empty rest false e h =
      let position : i ≡ i + 0 = omega arith in
      inr (record {
        index = 0;
        inside = omega arith;
        free = e;
        named = ap some position;
        changed = refl;
      })

  pub fill_first_lem :
      (i : ℕ) (slots : List S) (empty : S)
      → (fill_first i slots ≡ (none, slots)) × AllInUse slots
        ⊎ IsFilledAt i slots empty (fill_first i slots)
  unfolding fill_first
  fill_first_lem i [] empty = inl (refl, tt)
  fill_first_lem i (s ∷ slots) empty =
      slot_passed i s slots empty (fill_first (suc i) slots) (in_use s) refl
        (fill_first_lem (suc i) slots empty)
