-- ===== src/RsaPadding/Block.antt =====
-- providers/arm_asm/rsa_pss.hpp: the checks of a data block.
use claude_crypto.Base.{
  ℕ, zero, suc, ◌+◌, ◌<◌, ◌≡◌, refl, sym, ap, ap₂, ◌∙◌, true, bit_or, bit_xor, bit_or-both,
  bit_xor-eq, [], ◌∷◌, ◌++◌, length, length-append, length-take, length-drop, length-replicate,
  take, drop, take_all, take-append_at, drop-append_at, drop-add, replicate, get_or, arith,
}
use claude_crypto.Api.Result.{Bytes}
use claude_crypto.RsaPadding.{oaep_hash_len, or_differences, or_bytes, pss_hash, pss_check}
use claude_crypto.RsaPadding.Scan.{
  or_differences-zero, or_differences_same, or_bytes-zero, or_bytes-replicate,
}

-- A list at an index.
pub split_at :
    (n : ℕ) (bytes : Bytes)
    → n < length bytes
    → bytes ≡ take n bytes ++ (get_or bytes n 0 ∷ drop (n + 1) bytes)
split_at n [] h = absurd (omega (arith, h))
split_at zero (b ∷ bytes) h = refl
split_at (suc n) (b ∷ bytes) h =
    let next : suc n + 1 ≡ suc (n + 1) = omega arith in
    ap (◌∷◌ b) (split_at n bytes (omega (arith, h)))
    ∙ ap (λ (k : ℕ). b ∷ (take n bytes ++ (get_or bytes n 0 ∷ drop k (b ∷ bytes)))) (sym next)

pub get_or-front :
    (n : ℕ) (xs : Bytes) (x : ℕ) (ys : Bytes) → length xs ≡ n → get_or (xs ++ (x ∷ ys)) n 0 ≡ x
get_or-front n [] x ys e = ap (λ (k : ℕ). get_or (x ∷ ys) k 0) (sym e)
get_or-front zero (y ∷ xs) x ys e = absurd (omega (arith, e))
get_or-front (suc n) (y ∷ xs) x ys e = get_or-front n xs x ys (omega (arith, e))

pub drop_all : (n : ℕ) (bytes : Bytes) → length bytes ≡ n → drop n bytes ≡ []
drop_all zero [] h = refl
drop_all (suc n) [] h = absurd (omega (arith, h))
drop_all zero (b ∷ bytes) h = absurd (omega (arith, h))
drop_all (suc n) (b ∷ bytes) h = drop_all n bytes (omega (arith, h))

module _ (sha384 : Bytes → Bytes) (hash : (m : Bytes) → length (sha384 m) ≡ oaep_hash_len)
    (msg : Bytes) where
  -- DB = PS || 0x01 || salt
  abbrev db_of : ℕ → Bytes → Bytes
  db_of ps_len salt = replicate ps_len 0 ++ (0x01 ∷ salt)

  pub length-db_of :
      (ps_len : ℕ) (salt : Bytes) → length (db_of ps_len salt) ≡ ps_len + 1 + length salt
  length-db_of ps_len salt =
      omega
        (arith, length-append (replicate ps_len 0) (0x01 ∷ salt), length-replicate {A = ℕ} ps_len 0)

  pub check-db_of :
      (ps_len : ℕ) (salt : Bytes)
      → length salt ≡ oaep_hash_len
      → pss_check sha384 msg (db_of ps_len salt) (pss_hash sha384 msg salt) ps_len ≡ true
  unfolding pss_check
  check-db_of ps_len salt size =
      let zeros : length (replicate ps_len 0) ≡ ps_len = length-replicate {A = ℕ} ps_len 0 in
      let front = take-append_at ps_len (replicate ps_len 0) (0x01 ∷ salt) zeros in
      let one = get_or-front ps_len (replicate ps_len 0) 0x01 salt zeros in
      let back : drop (ps_len + 1) (db_of ps_len salt) ≡ salt =
        drop-add ps_len 1 (db_of ps_len salt)
        ∙ ap (drop 1) (drop-append_at ps_len (replicate ps_len 0) (0x01 ∷ salt) zeros) in
      rw
        (
          front,
          one,
          back,
          take_all oaep_hash_len salt size,
          or_bytes-replicate 0 ps_len,
          or_differences_same 0 (pss_hash sha384 msg salt),
        )
        refl

  -- A data block that passes is the one of its salt.
  pub check-true :
      (db h : Bytes) (ps_len : ℕ)
      → length db ≡ ps_len + 49
      → length h ≡ oaep_hash_len
      → pss_check sha384 msg db h ps_len ≡ true
      → (salt : Bytes) × (length salt ≡ oaep_hash_len)
        × (db ≡ db_of ps_len salt)
        × (h ≡ pss_hash sha384 msg salt)
  unfolding pss_check pss_hash
  check-true db h ps_len size h_size passed =
      let salt : Bytes = drop (ps_len + 1) db in
      let salt_size : length salt ≡ oaep_hash_len =
        omega (arith, length-drop (ps_len + 1) db, size) in
      let cut : take oaep_hash_len salt ≡ salt = take_all oaep_hash_len salt salt_size in
      let tests : (bit_or (or_bytes 0 (take ps_len db)) (bit_xor (get_or db ps_len 0) 0x01) ≡ 0)
          × (or_differences 0 h (pss_hash sha384 msg (take oaep_hash_len salt)) ≡ 0) =
        ground (arith, passed) in
      let (zeros, one) = bit_or-both _ _ tests.0 in
      let (clean, ps) = or_bytes-zero 0 (take ps_len db) zeros in
      let (clean', same) =
        or_differences-zero 0 h (pss_hash sha384 msg (take oaep_hash_len salt))
          (h_size ∙ sym (hash _)) tests.1 in
      (
        salt,
        salt_size,
        split_at ps_len db (omega (arith, size))
            ∙ ap₂ (λ (x : Bytes) (b : ℕ). x ++ (b ∷ salt))
                (ps ∙ ap (λ (k : ℕ). replicate k 0) (omega (arith, length-take ps_len db, size)))
                (bit_xor-eq (get_or db ps_len 0) 0x01 one),
        same ∙ ap (pss_hash sha384 msg) cut,
      )
