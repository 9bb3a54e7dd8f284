-- ===== src/BigInt/Power/Radix.antt =====
-- providers/arm_asm/rsa_bigint.hpp: the doubling in `mont_r2`.
use native.Mathlib.Nat.{pow-suc}
use claude_crypto.Base.{
  ℕ, zero, suc, ◌+◌, ◌*◌, ◌/◌, ◌^◌, ◌<◌, ◌≡◌, refl, ap, ◌∙◌, inl, inr, List, [], ◌∷◌, arith,
  pow-add, ◌==◌, if◌then◌else◌, bit_or, bit_or_shift, Cong, eq→Cong, Cong-trans, Cong-mul,
}
use claude_crypto.BigInt.{u64, value, radix, IsLimbs, bigint_sub, bigint_reduce_once}
use claude_crypto.BigInt.Limbs.{value-lt, IsLimbs-length, zeros-IsLimbs, value-zeros}
use claude_crypto.BigInt.AddSub.{bigint_sub_lem, bigint_sub-borrow, bigint_reduce_once_lem}
use claude_crypto.BigInt.Power.{bigint_one, shl_loop, double_mod, double_times, mont_r2}

pub one-IsLimbs : (n : ℕ) → 0 < n → IsLimbs n (bigint_one n)
one-IsLimbs zero h = absurd (omega arith)
one-IsLimbs (suc n) h = (omega arith, zeros-IsLimbs n)

pub value-one : (n : ℕ) → 0 < n → value (bigint_one n) ≡ 1
value-one zero h = absurd (omega arith)
value-one (suc n) h = omega (arith, value-zeros n)

shl_digit : (r carry : ℕ) → carry < 2 → bit_or (u64 (r * 2)) carry ≡ u64 (r * 2) + carry
shl_digit r carry h =
    let half : ℕ = u64 (r * 2) / 2 in
    let even : u64 (r * 2) ≡ half * 2 ^ 1 = omega arith in
    ap (λ (t : ℕ). bit_or t carry) even ∙ bit_or_shift 1 half carry h ∙ omega (arith, even)

shl_loop_lem :
    (n carry : ℕ) (r : List ℕ)
    → carry < 2
    → IsLimbs n r
    → IsLimbs n (shl_loop carry r).0
      × ((shl_loop carry r).1 < 2)
      × (value (shl_loop carry r).0 + radix n * (shl_loop carry r).1 ≡ 2 * value r + carry)
unfolding shl_loop
shl_loop_lem zero carry [] h hr = (tt, h, omega arith)
shl_loop_lem zero carry (x ∷ r) h hr = absurd hr
shl_loop_lem (suc n) carry [] h hr = absurd hr
shl_loop_lem (suc n) carry (x ∷ r) h hr =
    let top : ℕ = x / 2 ^ 63 in
    let (limbs, small, e) = shl_loop_lem n top r (omega arith) hr.1 in
    let digit = shl_digit x carry h in
    ((omega (arith, digit), limbs), small, omega (arith, digit, e))

-- A residue below the modulus that is congruent to `x`.
pub record Represents (n : ℕ) (m : List ℕ) (x : ℕ) (r : List ℕ) : Type 0 where
  pub limbs : IsLimbs n r
  pub below : value r < value m
  pub residue : Cong (value m) (value r) x

-- After the shift: the overflow, or else the comparison with m, says whether to subtract.
subtract_once :
    (n : ℕ) (m s : List ℕ) (carry x : ℕ)
    → IsLimbs n m
    → IsLimbs n s
    → carry < 2
    → x < value m
    → value s + radix n * carry ≡ 2 * x
    → Represents n m (2 * x) (if carry == 0 then bigint_reduce_once s m else (bigint_sub s m).0)
subtract_once n m s zero x hm hs hc hx e =
    let (limbs, order) = bigint_reduce_once_lem n s m hs hm in
    elim order [
      | inl (lt, same) ↦ record {
        limbs = limbs;
        below = omega arith;
        residue = record { left = 0; right = 0; balance = omega arith };
      }
      | inr (le, less) ↦ record {
        limbs = limbs;
        below = omega arith;
        residue = record { left = 1; right = 0; balance = omega arith };
      }
    ]
subtract_once n m s (suc zero) x hm hs hc hx e =
    let (limbs, small, d) = bigint_sub_lem n s m hs hm in
    elim (bigint_sub-borrow n s m hs hm) [
      | inl (e0, le) ↦ absurd (omega (arith, value-lt n m hm))
      | inr (e1, lt) ↦ record {
        limbs = limbs;
        below = omega (arith, d, ap (λ (t : ℕ). radix n * t) e1);
        residue = record {
          left = 1;
          right = 0;
          balance = omega (arith, d, ap (λ (t : ℕ). radix n * t) e1);
        };
      }
    ]
subtract_once n m s (suc (suc c)) x hm hs hc hx e = absurd (omega arith)

double_mod_lem :
    (n : ℕ) (m r : List ℕ) (x : ℕ)
    → IsLimbs n m
    → Represents n m x r
    → Represents n m (2 * x) (double_mod m r)
unfolding double_mod
double_mod_lem n m r x hm h =
    let (limbs, small, e) = shl_loop_lem n 0 r (omega arith) h.limbs in
    let once =
      subtract_once n m (shl_loop 0 r).0 (shl_loop 0 r).1 (value r) hm limbs small h.below
        (omega (arith, e)) in
    record {
      limbs = once.limbs;
      below = once.below;
      residue = Cong-trans once.residue (Cong-mul 2 h.residue);
    }

double_times_lem :
    (k n : ℕ) (m r : List ℕ) (x : ℕ)
    → IsLimbs n m
    → Represents n m x r
    → Represents n m (2 ^ k * x) (double_times k m r)
unfolding double_times
double_times_lem zero n m r x hm h = record {
  limbs = h.limbs;
  below = h.below;
  residue = Cong-trans h.residue (eq→Cong _ (omega arith));
}
double_times_lem (suc k) n m r x hm h =
    let rest = double_times_lem k n m (double_mod m r) (2 * x) hm (double_mod_lem n m r x hm h) in
    record {
      limbs = rest.limbs;
      below = rest.below;
      residue =
          Cong-trans rest.residue (eq→Cong _ (omega (arith, ap (λ (t : ℕ). t * x) (pow-suc 2 k))));
    }

radix-two_pow : (n : ℕ) → 2 ^ (64 * n) ≡ radix n
radix-two_pow zero = refl
radix-two_pow (suc n) =
    let expand : 64 * suc n ≡ 64 + 64 * n = omega arith in
    ap (λ (t : ℕ). 2 ^ t) expand ∙ pow-add 2 64 (64 * n) ∙ omega (arith, radix-two_pow n)

radix_squared : (n : ℕ) → 2 ^ (2 * 64 * n) ≡ radix n * radix n
radix_squared n =
    let expand : 2 * 64 * n ≡ 64 * n + 64 * n = omega arith in
    ap (λ (t : ℕ). 2 ^ t) expand
    ∙ pow-add 2 (64 * n) (64 * n)
    ∙ ap (λ (t : ℕ). t * t) (radix-two_pow n)

pub width-pos : (n : ℕ) (m : List ℕ) → IsLimbs n m → 1 < value m → 0 < n
width-pos zero m hm big = absurd (omega (arith, value-lt 0 m hm))
width-pos (suc n) m hm big = omega arith

-- For a modulus m of n limbs above 1, mont_r2 has n limbs, is below m, and is congruent to 2^(64
-- n) squared modulo m.
pub mont_r2_lem :
    (n : ℕ) (m : List ℕ)
    → IsLimbs n m
    → 1 < value m
    → Represents n m (radix n * radix n) (mont_r2 m)
unfolding mont_r2
mont_r2_lem n m hm big =
    rw (IsLimbs-length n m hm)
      let wide_enough = width-pos n m hm big in
        let one : Represents n m 1 (bigint_one n) = record {
          limbs = one-IsLimbs n wide_enough;
          below = omega (arith, value-one n wide_enough);
          residue = eq→Cong _ (value-one n wide_enough);
        } in
        let r = double_times_lem (2 * 64 * n) n m (bigint_one n) 1 hm one in
        record {
          limbs = r.limbs;
          below = r.below;
          residue = Cong-trans r.residue (eq→Cong _ (omega (arith, radix_squared n)));
        }
