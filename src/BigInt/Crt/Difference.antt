-- ===== src/BigInt/Crt/Difference.antt =====
-- providers/arm_asm/rsa_bigint.hpp: the difference of the two halves modulo p, in
-- `rsa_crt_combine`.
use claude_crypto.Base.{
  ℕ, zero, suc, ◌+◌, ◌*◌, ◌<◌, ◌≤◌, ◌≡◌, inl, inr, ap, ltb, if◌then◌else◌, true, false, List, arith,
  Cong, eq→Cong,
}
use claude_crypto.BigInt.{value, radix, IsLimbs, bigint_add, bigint_sub, bigint_reduce_once}
use claude_crypto.BigInt.Limbs.{value-lt}
use claude_crypto.BigInt.AddSub.{
  bigint_add_lem, bigint_sub_lem, bigint_sub-borrow, bigint_ct_select-ones, bigint_ct_select-zeros,
  bigint_reduce_once_lem,
}
use claude_crypto.BigInt.Crt.{crt_difference}

-- What the difference is off by: 2 ^ (64 * n) where adding p once does not make it positive.
abbrev pub wrapped : ℕ → ℕ → ℕ → ℕ → ℕ
wrapped n m_p m_q p = if ltb (m_p + p) m_q then radix n else 0

carried :
    (R sum diff m_p m_q p carry : ℕ)
    → diff + m_q ≡ m_p + R
    → sum + R * carry ≡ diff + p
    → carry ≤ 1
    → sum < R
    → sum + m_q ≡ m_p + p + (if ltb (m_p + p) m_q then R else 0)
carried R sum diff m_p m_q p zero d s small lt =
    let above : ltb (m_p + p) m_q ≡ true = ground arith in rw above (omega (arith, d, s))
carried R sum diff m_p m_q p (suc zero) d s small lt =
    let reached : ltb (m_p + p) m_q ≡ false = ground arith in rw reached (omega (arith, d, s))
carried R sum diff m_p m_q p (suc (suc c)) d s small lt = absurd (omega arith)

not_borrowed :
    (R diff m_p m_q p : ℕ)
    → diff + m_q ≡ m_p
    → diff + m_q ≡ m_p + (if ltb (m_p + p) m_q then R else 0)
not_borrowed R diff m_p m_q p d =
    let reached : ltb (m_p + p) m_q ≡ false = ground arith in rw reached (omega (arith, d))

reduce_once-Cong :
    (n : ℕ) (a m : List ℕ)
    → IsLimbs n a
    → IsLimbs n m
    → IsLimbs n (bigint_reduce_once a m) × Cong (value m) (value (bigint_reduce_once a m)) (value a)
reduce_once-Cong n a m ha hm =
    let (limbs, either) = bigint_reduce_once_lem n a m ha hm in
    (
      limbs,
      elim either [
        | inl (lt, e) ↦ eq→Cong _ e
        | inr (le, e) ↦ record { left = 1; right = 0; balance = omega (arith, e) }
      ],
    )

module _ (n : ℕ) (m_p m_q p : List ℕ) (hmp : IsLimbs n m_p) (hmq : IsLimbs n m_q)
    (hp : IsLimbs n p) where
  abbrev off : ℕ
  off = wrapped n (value m_p) (value m_q) (value p)

  adjusted :
      (bigint_sub m_p m_q).1 ≡ 1
      → (r : ℕ) → Cong (value p) r (value (bigint_add (bigint_sub m_p m_q).0 p).0)
      → Cong (value p) (r + value m_q) (value m_p + off)
  adjusted borrowed r c =
      let (limbs, small, d) = bigint_sub_lem n m_p m_q hmp hmq in
      let (limbs', small', s) = bigint_add_lem n (bigint_sub m_p m_q).0 p limbs hp in
      let carry : ℕ = (bigint_add (bigint_sub m_p m_q).0 p).1 in
      let d' : value (bigint_sub m_p m_q).0 + value m_q ≡ value m_p + radix n =
        omega (arith, d, ap (λ (t : ℕ). radix n * t) borrowed) in
      let sum_lt = value-lt n (bigint_add (bigint_sub m_p m_q).0 p).0 limbs' in
      let total : value (bigint_add (bigint_sub m_p m_q).0 p).0 + value m_q
          ≡ value m_p + value p + off =
        carried (radix n) _ _ (value m_p) (value m_q) (value p) carry d' s small' sum_lt in
      record { left = c.left; right = c.right + 1; balance = omega (arith, c.balance, total) }

  pub crt_difference_lem :
      IsLimbs n (crt_difference m_p m_q p)
      × Cong (value p) (value (crt_difference m_p m_q p) + value m_q) (value m_p + off)
  unfolding crt_difference
  crt_difference_lem =
      let (limbs, small, d) = bigint_sub_lem n m_p m_q hmp hmq in
      let (limbs', small', s) = bigint_add_lem n (bigint_sub m_p m_q).0 p limbs hp in
      elim (bigint_sub-borrow n m_p m_q hmp hmq) [
        | inl (e, le) ↦
            let r = reduce_once-Cong n (bigint_sub m_p m_q).0 p limbs hp in
            let exact : value (bigint_sub m_p m_q).0 + value m_q ≡ value m_p + off =
              not_borrowed (radix n) _ (value m_p) (value m_q) (value p)
                (omega (arith, d, ap (λ (t : ℕ). radix n * t) e)) in
            rw (e, bigint_ct_select-ones n (bigint_sub m_p m_q).0 _ limbs limbs')
              (
                r.0,
                record {
                  left = r.1.left;
                  right = r.1.right;
                  balance = omega (arith, exact, r.1.balance);
                },
              )
        | inr (e, lt) ↦
            let r = reduce_once-Cong n (bigint_add (bigint_sub m_p m_q).0 p).0 p limbs' hp in
            rw (e, bigint_ct_select-zeros n (bigint_sub m_p m_q).0 _ limbs limbs')
              (r.0, adjusted e _ r.1)
      ]
