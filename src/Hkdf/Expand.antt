-- ===== src/Hkdf/Expand.antt =====
-- providers/arm_asm/hkdf.hpp: the loop of hkdf_expand against RFC 5869.
use claude_crypto.Base.{
  length-append, ℕ, zero, suc, ◌+◌, ◌-◌, ◌*◌, ◌%◌, ◌<◌, ◌≤◌, ◌≡◌, ◌⊎◌, inl, inr, refl, sym, ap, ◌∙◌,
  Bool, true, false, ◌||◌, ◌==◌, ltb, Bool-cases, if◌then◌else◌, Option, none, some, [], ◌∷◌, ◌++◌,
  length, take, take_all, take-append_more, take-append_front, replicate, arith,
}
use claude_crypto.Api.Result.{Bytes}
use claude_crypto.Hkdf.{
  hkdf_max_info, msg_capacity, hkdf_hash_len, hkdf_max_output, expand_msg, expand_loop, hkdf_expand,
}

append_end : (xs : Bytes) → xs ++ [] ≡ xs
append_end [] = refl
append_end (x ∷ xs) = ap (λ (zs : Bytes). x ∷ zs) (append_end xs)

then-taken : (b : Bool) (x y : Option Bytes) → b ≡ true → (if b then x else y) ≡ x
then-taken b x y h = rw h refl

pub else-taken : (b : Bool) (x y : Option Bytes) → b ≡ false → (if b then x else y) ≡ y
else-taken b x y h = rw h refl

module _ (hmac : Bytes → Bytes → Bytes) (prk info : Bytes) where
  -- T(0) is empty and T(i+1) = HMAC(PRK, T(i) || info || i+1).
  unfoldable pub t_block : ℕ → Bytes
  t_block zero = []
  t_block (suc i) = hmac prk (t_block i ++ (info ++ suc i ∷ []))

  -- T(i+1) || ... || T(i+n)
  unfoldable pub t_blocks : ℕ → ℕ → Bytes
  unfolding t_block
  t_blocks i zero = []
  t_blocks i (suc n) = t_block (suc i) ++ t_blocks (suc i) n

  loop-done :
      (fuel out_len written counter : ℕ) (t : Bytes)
      → out_len ≤ written
      → expand_loop hmac fuel prk info out_len t written counter ≡ []
  unfolding expand_loop
  loop-done zero out_len written counter t h = refl
  loop-done (suc fuel) out_len written counter t h =
      let done : ltb written out_len ≡ false = ground arith in rw done refl

  module _ (hash : (k m : Bytes) → length (hmac k m) ≡ hkdf_hash_len) (out_len : ℕ)
      (few : out_len ≤ hkdf_max_output) where
    last_round :
        (fuel i written : ℕ) (next : Bytes) (counter : ℕ)
        → next ≡ t_block (suc i)
        → written ≤ out_len
        → out_len - written < hkdf_hash_len
        → take (out_len - written) next
            ++ expand_loop hmac fuel prk info out_len next (written + (out_len - written)) counter
          ≡ take (out_len - written) (t_block (suc i) ++ t_blocks (suc i) fuel)
    unfolding t_block
    last_round fuel i written next counter same begun short =
        let size : length (t_block (suc i)) ≡ hkdf_hash_len = hash prk _ in
        rw
          (loop-done fuel out_len (written + (out_len - written)) counter next
            (omega (arith, begun)))
          (append_end (take (out_len - written) next)
            ∙ ap (take (out_len - written)) same
            ∙ sym (
                take-append_front (t_block (suc i)) (t_blocks (suc i) fuel) (out_len - written)
                  (omega (arith, size, short))))

    full_round :
        (fuel i written : ℕ) (next : Bytes) (counter : ℕ)
        → next ≡ t_block (suc i)
        → written + 48 ≤ out_len
        → expand_loop hmac fuel prk info out_len next (written + 48) counter
          ≡ take (out_len - (written + 48)) (t_blocks (suc i) fuel)
        → take 48 next ++ expand_loop hmac fuel prk info out_len next (written + 48) counter
          ≡ take (out_len - written) (t_block (suc i) ++ t_blocks (suc i) fuel)
    unfolding t_block
    full_round fuel i written next counter same begun rest =
        let size : length (t_block (suc i)) ≡ hkdf_hash_len = hash prk _ in
        let left : out_len - written ≡ length (t_block (suc i)) + (out_len - (written + 48)) =
          omega (arith, size, begun) in
        ap
          (λ (xs : Bytes). xs ++ expand_loop hmac fuel prk info out_len next (written + 48) counter)
          (ap (take 48) same ∙ take_all 48 (t_block (suc i)) size)
        ∙ ap (λ (xs : Bytes). t_block (suc i) ++ xs) rest
        ∙ sym (
            ap (λ (n : ℕ). take n (t_block (suc i) ++ t_blocks (suc i) fuel)) left
            ∙ take-append_more (t_block (suc i)) (t_blocks (suc i) fuel) (out_len - (written + 48)))

    loop_lem :
        (fuel i written counter : ℕ) (t : Bytes)
        → i + fuel ≡ 255
        → written ≡ 48 * i
        → written ≤ out_len
        → counter ≡ suc i % 256
        → (if ltb 1 (suc i) then t else []) ≡ t_block i
        → expand_loop hmac fuel prk info out_len t written counter
          ≡ take (out_len - written) (t_blocks i fuel)
    unfolding expand_loop expand_msg t_block t_blocks
    loop_lem zero i written counter t rounds at begun count seen =
        let over : out_len - written ≡ 0 = omega (arith, few, at, rounds) in rw over refl
    loop_lem (suc fuel) i written counter t rounds at begun count seen =
        let is_next : counter ≡ suc i = omega (arith, count, rounds) in
        let next : Bytes = hmac prk (expand_msg hmac info t counter) in
        let same : next ≡ t_block (suc i) =
          rw is_next (ap (λ (x : Bytes). hmac prk (x ++ (info ++ suc i ∷ []))) seen) in
        let later : ltb 1 (suc (suc i)) ≡ true = ground arith in
        elim (Bool-cases (ltb written out_len)) [
          | inr done ↦ let over : out_len - written ≡ 0 = ground arith in rw (done, over) refl
          | inl more ↦ elim (Bool-cases (ltb (out_len - written) hkdf_hash_len)) [
            | inl short ↦
                rw (more, short)
                  (last_round fuel i written next ((counter + 1) % 256) same begun (ground arith))
            | inr full ↦
                rw (more, full)
                  (full_round fuel i written next ((counter + 1) % 256) same (ground arith) (
                    loop_lem fuel (suc i) (written + 48) ((counter + 1) % 256) next
                      (omega (arith, rounds)) (omega (arith, at)) (ground arith)
                      (omega (arith, is_next)) (rw later same)))
          ]
        ]

    all_rounds :
        (rounds : ℕ)
        → rounds ≡ 255
        → expand_loop hmac rounds prk info out_len (replicate hkdf_hash_len 0) 0 1
          ≡ take out_len (t_blocks 0 rounds)
    unfolding t_block
    all_rounds rounds h =
        let whole : out_len - 0 ≡ out_len = omega arith in
        loop_lem rounds 0 0 1 (replicate hkdf_hash_len 0) (omega (arith, h)) refl (omega arith) refl
          refl
        ∙ ap (λ (n : ℕ). take n (t_blocks 0 rounds)) whole

  length-t_block :
      ((k m : Bytes) → length (hmac k m) ≡ hkdf_hash_len)
      → (i : ℕ) → length (t_block i) ≤ hkdf_hash_len
  unfolding t_block
  length-t_block hash zero = omega arith
  length-t_block hash (suc i) =
      let size : length (t_block (suc i)) ≡ hkdf_hash_len = hash prk _ in omega (arith, size)

  message_fits :
      ((k m : Bytes) → length (hmac k m) ≡ hkdf_hash_len)
      → length info ≤ hkdf_max_info
      → (i : ℕ) → length (t_block i ++ (info ++ suc i ∷ [])) ≤ msg_capacity
  message_fits hash bounded i =
      let first = length-append (t_block i) (info ++ suc i ∷ []) in
      let second = length-append info (suc i ∷ []) in
      let short = length-t_block hash i in omega (arith, first, second, short, bounded)

  -- For any HMAC of 48 bytes and an info of at most 256 bytes: hkdf_expand refuses 0 bytes and
  -- more than 12240, and otherwise writes exactly the first bytes of T(1) || T(2) || ... ||
  -- T(255) of RFC 5869, so that the counter of one byte never wraps around while it is used; and
  -- each message T(i) || info || i + 1 has at most 305 bytes, the size of its buffer.
  pub hkdf_expand_lem :
      ((k m : Bytes) → length (hmac k m) ≡ hkdf_hash_len)
      → length info ≤ hkdf_max_info
      → (out_len : ℕ)
      → ((out_len ≡ 0) ⊎ (hkdf_max_output < out_len)) × (hkdf_expand hmac prk info out_len ≡ none)
        ⊎ ((0 < out_len) × (out_len ≤ hkdf_max_output))
          × (hkdf_expand hmac prk info out_len ≡ some (take out_len (t_blocks 0 255)))
          × ((i : ℕ) → length (t_block i ++ (info ++ suc i ∷ [])) ≤ msg_capacity)
  unfolding hkdf_expand
  hkdf_expand_lem hash bounded out_len =
      elim (Bool-cases (out_len == 0 || ltb hkdf_max_output out_len)) [
        | inl refused ↦ inl (ground arith, then-taken _ none _ refused)
        | inr sized ↦
            let few : out_len ≤ hkdf_max_output = ground arith in
            inr (
              (ground arith, few),
              else-taken _ none
                    (some (expand_loop hmac 255 prk info out_len (replicate hkdf_hash_len 0) 0 1))
                    sized
                  ∙ ap some (all_rounds hash out_len few 255 refl),
              message_fits hash bounded,
            )
      ]
