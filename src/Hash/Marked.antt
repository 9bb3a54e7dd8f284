-- ===== src/Hash/Marked.antt =====
-- providers/arm_asm/hmac.hpp: what `finish` writes behind the bytes in the buffer.
use claude_crypto.Base.{
  ℕ, zero, suc, ◌+◌, ◌-◌, ◌*◌, ◌<◌, ◌≡◌, refl, sym, ap, ap₂, ◌∙◌, List, [], ◌∷◌, ◌++◌, append_assoc,
  append-nil, length, length-append, take, drop, take-append, drop-append, replicate,
  length-replicate, set, arith,
}
use claude_crypto.Api.Result.{Bytes}
use claude_crypto.Hash.{write_at, marked_pad}

abbrev pub zeros : ℕ → Bytes
zeros k = replicate k 0

pub length-zeros : (k : ℕ) → length (zeros k) ≡ k
length-zeros k = length-replicate k 0

pub drop-replicate : (n k : ℕ) → drop n (zeros k) ≡ zeros (k - n)
drop-replicate zero k = ap (λ (j : ℕ). zeros j) (omega arith)
drop-replicate (suc n) zero =
    let none_left : 0 - suc n ≡ 0 = omega arith in sym (ap zeros none_left)
drop-replicate (suc n) (suc k) = drop-replicate n k ∙ ap (λ (j : ℕ). zeros j) (omega arith)

pub replicate-add : (i j : ℕ) (w : Bytes) → zeros i ++ (zeros j ++ w) ≡ zeros (i + j) ++ w
replicate-add zero j w = ap (λ (k : ℕ). zeros k ++ w) (omega arith)
replicate-add (suc i) j w =
    let next : suc i + j ≡ suc (i + j) = omega arith in
    ap (◌∷◌ 0) (replicate-add i j w) ∙ sym (ap (λ (k : ℕ). zeros k ++ w) next)

pub zeros-add : (i j : ℕ) → zeros i ++ zeros j ≡ zeros (i + j)
zeros-add i j =
    ap (λ (x : Bytes). zeros i ++ x) (sym (append-nil (zeros j)))
    ∙ replicate-add i j []
    ∙ append-nil (zeros (i + j))

-- Zeros may be parted otherwise.
pub zeros_again :
    (i j k l : ℕ) (w : Bytes)
    → i + j ≡ k + l
    → zeros i ++ (zeros j ++ w) ≡ zeros k ++ (zeros l ++ w)
zeros_again i j k l w e =
    replicate-add i j w ∙ ap (λ (n : ℕ). zeros n ++ w) e ∙ sym (replicate-add k l w)

pub set-behind : (r xs : Bytes) (x v : ℕ) → set (r ++ (x ∷ xs)) (length r) v ≡ r ++ (v ∷ xs)
set-behind [] xs x v = refl
set-behind (y ∷ r) xs x v = ap (◌∷◌ y) (set-behind r xs x v)

-- Bytes written over as many others.
pub write_at-middle :
    (p x y w : Bytes) → length x ≡ length w → write_at (p ++ (x ++ y)) (length p) w ≡ p ++ (w ++ y)
unfolding write_at
write_at-middle p x y w e =
    let joined : length p + length w ≡ length (p ++ x) = omega (arith, length-append p x, e) in
    ap₂ (λ (f b : Bytes). f ++ (w ++ b)) (take-append p (x ++ y))
      (ap₂ drop joined (sym (append_assoc p x y)) ∙ drop-append (p ++ x) y)

module _ (block : ℕ) (r : Bytes) (short : length r < block) where
  pub marked :
      (buf : Bytes) (state : List ℕ) (total used : ℕ)
      → take used buf ≡ r
      → used ≡ length r
      → marked_pad block (record { state = state; buf = buf; total_bytes = total; buf_used = used })
        ≡ r ++ (0x80 ∷ zeros (2 * block - length r - 1))
  unfolding marked_pad write_at
  marked buf state total used front size =
      let rest : 2 * block - length r ≡ suc (2 * block - length r - 1) = omega (arith, short) in
      let copied : r ++ drop (0 + length r) (zeros (2 * block))
          ≡ r ++ (0 ∷ zeros (2 * block - length r - 1)) =
        ap (λ (x : Bytes). r ++ x)
          (ap (λ (k : ℕ). drop k (zeros (2 * block))) (omega arith)
            ∙ drop-replicate (length r) (2 * block)
            ∙ ap (λ (k : ℕ). zeros k) rest) in
      rw (front, size)
        (ap (λ (x : Bytes). set x (length r) 0x80) copied
          ∙ set-behind r (zeros (2 * block - length r - 1)) 0 0x80)

  abbrev pub front_of : ℕ → Bytes
  front_of a = r ++ (0x80 ∷ zeros a)

  pub length-front_of : (a : ℕ) → length (front_of a) ≡ length r + 1 + a
  length-front_of a = omega (arith, length-append r (0x80 ∷ zeros a), length-zeros a)

  -- The length goes behind `a` zeros.
  pub with_length :
      (a c offset : ℕ) (w : Bytes)
      → length w ≡ 8
      → offset ≡ length r + 1 + a
      → a + 8 + c ≡ 2 * block - length r - 1
      → write_at (r ++ (0x80 ∷ zeros (2 * block - length r - 1))) offset w
        ≡ front_of a ++ (w ++ zeros c)
  with_length a c offset w size place parts =
      let run : zeros (2 * block - length r - 1) ≡ zeros a ++ (zeros 8 ++ zeros c) = sym (
        ap (λ (x : Bytes). zeros a ++ x) (zeros-add 8 c)
        ∙ zeros-add a (8 + c)
        ∙ ap zeros (omega (arith, parts))) in
      let parted : r ++ (0x80 ∷ zeros (2 * block - length r - 1))
          ≡ front_of a ++ (zeros 8 ++ zeros c) =
        ap (λ (x : Bytes). r ++ (0x80 ∷ x)) run
        ∙ sym (append_assoc r (0x80 ∷ zeros a) (zeros 8 ++ zeros c)) in
      ap₂ (λ (x : Bytes) (k : ℕ). write_at x k w) parted (place ∙ sym (length-front_of a))
      ∙ write_at-middle (front_of a) (zeros 8) (zeros c) w (omega (arith, size, length-zeros 8))
