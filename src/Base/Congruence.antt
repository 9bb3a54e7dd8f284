-- ===== src/Base/Congruence.antt =====
-- Congruence of natural numbers, with the multiples of the modulus as its evidence.
use Prim.Native.Nat.{ℕ, zero, suc, ◌+◌, ◌*◌, ◌/◌, ◌%◌, ◌^◌, ◌≤◌, ◌<◌}
use mathlib.Core.Path.{◌≡◌, refl, ap, ◌∙◌}
use native.Mathlib.Nat.{
  zero-add, suc-add, pow-suc, add-mul-mod_self_left, mod-eq_of_lt, mod-lt, pow-zero,
  mul-le-mul_right,
}
use native.Mathlib.Omega.{arith}

-- Some multiples of `m` added to the two sides make them equal.
pub record Cong (m x y : ℕ) : Type 0 where
  pub left : ℕ
  pub right : ℕ
  pub balance : x + left * m ≡ y + right * m

pub Cong-refl : (m x : ℕ) → Cong m x x
Cong-refl m x = record { left = 0; right = 0; balance = refl }

pub Cong-symm : {m x y : ℕ} → Cong m x y → Cong m y x
Cong-symm c = record { left = c.right; right = c.left; balance = omega arith }

pub Cong-trans : {m x y z : ℕ} → Cong m x y → Cong m y z → Cong m x z
Cong-trans c d = record { left = c.left + d.left; right = c.right + d.right; balance = omega arith }

pub Cong-mul : {m x y : ℕ} (k : ℕ) → Cong m x y → Cong m (k * x) (k * y)
Cong-mul {m} k c = record {
  left = k * c.left;
  right = k * c.right;
  balance = omega (arith, ap (λ (t : ℕ). k * t) c.balance);
}

pub eq→Cong : (m : ℕ) {x y : ℕ} → x ≡ y → Cong m x y
eq→Cong m e = record { left = 0; right = 0; balance = omega (arith, e) }

pub Cong-mul₂ : {m a x b y : ℕ} → Cong m a x → Cong m b y → Cong m (a * b) (x * y)
Cong-mul₂ {m} {a} {x} {b} {y} c d =
    let second = Cong-mul a d in
    let first = Cong-mul y c in
    record {
      left = second.left + first.left;
      right = second.right + first.right;
      balance = omega (arith, second.balance, first.balance);
    }

-- A factor that has an inverse may be dropped.
pub Cong-cancel : {m x y : ℕ} (f v : ℕ) → Cong m (f * v) 1 → Cong m (x * f) (y * f) → Cong m x y
Cong-cancel {m} {x} {y} f v inverse c =
    let times = Cong-mul v c in
    let back_x = Cong-mul x inverse in
    let back_y = Cong-mul y inverse in
    record {
      left = back_x.right + times.left + back_y.left;
      right = back_y.right + times.right + back_x.left;
      balance = omega (arith, times.balance, back_x.balance, back_y.balance);
    }

-- The representative below the modulus is the remainder.
pub Cong-mod : (m x y : ℕ) → x < m → Cong m x y → x ≡ y % m
Cong-mod m x y lt c =
    let left_mod = add-mul-mod_self_left x m c.left in
    let right_mod = add-mul-mod_self_left y m c.right in
    let same : x + m * c.left ≡ y + m * c.right = omega (arith, c.balance) in
    let reduced = mod-eq_of_lt lt in
    omega (arith, left_mod, right_mod, reduced, ap (λ (t : ℕ). t % m) same)

pub pow-add : (x a b : ℕ) → x ^ (a + b) ≡ x ^ a * x ^ b
pow-add x zero b =
    omega (
      arith,
      pow-zero x,
      ap (λ (t : ℕ). x ^ t) (zero-add b),
      ap (λ (t : ℕ). t * x ^ b) (pow-zero x),
    )
pow-add x (suc a) b = omega (
  arith,
  ap (λ (t : ℕ). x ^ t) (suc-add a b),
  pow-suc x (a + b),
  ap (λ (t : ℕ). t * x) (pow-add x a b),
  ap (λ (t : ℕ). t * x ^ b) (pow-suc x a),
)

-- One more binary digit of a remainder.
pub mod-double : (e p : ℕ) → 0 < p → e % (2 * p) ≡ e / p % 2 * p + e % p
mod-double e p h =
    let d : ℕ = e / p in
    let digit : d ≡ 2 * (d / 2) + d % 2 = omega arith in
    let split : e ≡ p * (e / p) + e % p = omega arith in
    let small : d % 2 * p + e % p < 2 * p =
      let bit : d % 2 * p ≤ 1 * p = mul-le-mul_right p (omega arith) in omega (arith, mod-lt e h) in
    let whole : e ≡ (d % 2 * p + e % p) + 2 * p * (d / 2) =
      omega (arith, split, ap (λ (t : ℕ). p * t) digit) in
    ap (λ (t : ℕ). t % (2 * p)) whole ∙ add-mul-mod_self_left _ (2 * p) (d / 2) ∙ mod-eq_of_lt small
