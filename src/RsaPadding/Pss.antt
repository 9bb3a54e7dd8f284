-- ===== src/RsaPadding/Pss.antt =====
-- providers/arm_asm/rsa_pss.hpp: pss_verify accepts exactly the encodings of the message.
use claude_crypto.Base.{
  ℕ, ◌+◌, ◌-◌, ◌*◌, ◌/◌, ◌%◌, ◌^◌, ◌<◌, ◌≤◌, ◌≡◌, refl, sym, ap, ap₂, ◌∙◌, true, false, ◌==◌, ltb,
  bit_and, append_assoc, some, [], ◌∷◌, ◌++◌, length, length-append, length-take, length-drop, take,
  drop, take-append-drop, take-append_at, drop-append_at, replicate, get_or, get_or-drop, arith,
}
use claude_crypto.Base.Xor.{xor_bytes, length-xor_bytes}
use claude_crypto.Api.Octets.{AreBytes-take}
use claude_crypto.Api.Result.{Bytes, AreBytes}
use claude_crypto.RsaPadding.{
  oaep_hash_len, rsa_pss_trailer, trim_first, pss_em_bits, pss_em_len, pss_top_bits, mgf1_sha384,
  pss_hash, pss_encode, pss_check, pss_verify,
}
use claude_crypto.RsaPadding.Trim.{
  trim_twice, length-trim_first, trimmed-clear, trimmed-db_of, clear-trimmed,
}
use claude_crypto.RsaPadding.Block.{
  split_at, get_or-front, drop_all, length-db_of, check-db_of, check-true,
}

-- The sizes at a modulus of at least one bit.
pss_sizes :
    (bits : ℕ)
    → 0 < bits
    → bits ≤ 4096
    → (pss_em_len bits ≡ (bits + 6) / 8) × (pss_top_bits bits ≤ 7) × (pss_em_len bits ≤ 512)
unfolding pss_em_bits pss_em_len pss_top_bits
pss_sizes bits pos small =
    (omega (arith, pos, small), omega (arith, pos, small), omega (arith, pos, small))

module _ (sha384 : Bytes → Bytes) (hash : (m : Bytes) → length (sha384 m) ≡ oaep_hash_len)
    (msg : Bytes) (bits : ℕ) (pos : 0 < bits) (small : bits ≤ 4096)
    (wide : 98 ≤ pss_em_len bits) where
  abbrev em_len : ℕ
  em_len = pss_em_len bits

  abbrev db_len : ℕ
  db_len = em_len - oaep_hash_len - 1

  abbrev ps_len : ℕ
  ps_len = em_len - oaep_hash_len - oaep_hash_len - 2

  abbrev mask_of : Bytes → Bytes
  mask_of h = mgf1_sha384 sha384 h db_len

  abbrev masked : Bytes → Bytes
  masked salt =
      trim_first (pss_top_bits bits)
        (xor_bytes (replicate ps_len 0 ++ (0x01 ∷ salt)) (mask_of (pss_hash sha384 msg salt)))

  top : pss_top_bits bits ≤ 7
  top = (pss_sizes bits pos small).1

  encoded :
      (salt : Bytes)
      → pss_encode sha384 msg salt bits
        ≡ some (masked salt ++ (pss_hash sha384 msg salt ++ rsa_pss_trailer ∷ []))
  unfolding pss_encode
  encoded salt = let wide_enough : ltb em_len 98 ≡ false = ground arith in rw wide_enough refl

  length-masked : (salt : Bytes) → length salt ≡ oaep_hash_len → length (masked salt) ≡ db_len
  length-masked salt size =
      length-trim_first (pss_top_bits bits) top
        (xor_bytes (replicate ps_len 0 ++ (0x01 ∷ salt)) (mask_of (pss_hash sha384 msg salt)))
      ∙ length-xor_bytes (replicate ps_len 0 ++ (0x01 ∷ salt)) (mask_of (pss_hash sha384 msg salt))
      ∙ length-db_of sha384 hash msg ps_len salt
      ∙ omega (arith, size, wide)

  verified :
      (salt : Bytes)
      → length salt ≡ oaep_hash_len
      → pss_verify sha384 msg
          (masked salt ++ (pss_hash sha384 msg salt ++ rsa_pss_trailer ∷ []))
          bits
        ≡ true
  unfolding pss_verify
  verified salt size =
      let h : Bytes = pss_hash sha384 msg salt in
      let m : Bytes = masked salt in
      let h_size : length h ≡ oaep_hash_len = hash _ in
      let m_size : length m ≡ db_len = length-masked salt size in
      let wide_enough : ltb em_len 98 ≡ false = ground arith in
      let front : take db_len (m ++ (h ++ rsa_pss_trailer ∷ [])) ≡ m =
        take-append_at db_len m (h ++ rsa_pss_trailer ∷ []) m_size in
      let middle : take oaep_hash_len (drop db_len (m ++ (h ++ rsa_pss_trailer ∷ []))) ≡ h =
        ap (take oaep_hash_len) (drop-append_at db_len m (h ++ rsa_pss_trailer ∷ []) m_size)
        ∙ take-append_at oaep_hash_len h (rsa_pss_trailer ∷ []) h_size in
      let last : get_or (m ++ (h ++ rsa_pss_trailer ∷ [])) (em_len - 1) 0 ≡ rsa_pss_trailer =
        ap (λ (x : Bytes). get_or x (em_len - 1) 0) (sym (append_assoc m h (rsa_pss_trailer ∷ [])))
        ∙ get_or-front (em_len - 1) (m ++ h) rsa_pss_trailer []
            (omega (arith, length-append m h, m_size, h_size, wide)) in
      let block : trim_first (pss_top_bits bits) (xor_bytes m (mask_of h))
          ≡ replicate ps_len 0 ++ (0x01 ∷ salt) =
        trim_twice (pss_top_bits bits) top (replicate ps_len 0 ++ (0x01 ∷ salt)) (mask_of h)
          (trimmed-db_of (pss_top_bits bits) ps_len salt top) in
      let clear =
        trimmed-clear (pss_top_bits bits)
          (xor_bytes (replicate ps_len 0 ++ (0x01 ∷ salt)) (mask_of h)) top in
      rw (wide_enough, last, front, middle, clear, block)
        (check-db_of sha384 hash msg ps_len salt size)

  -- What pss_encode gives is as long as the modulus asks and is accepted.
  pub pss_verify-pss_encode :
      (salt : Bytes)
      → length salt ≡ oaep_hash_len
      → (em : Bytes) × (pss_encode sha384 msg salt bits ≡ some em)
        × (length em ≡ em_len)
        × (pss_verify sha384 msg em bits ≡ true)
  unfolding pss_hash
  pss_verify-pss_encode salt size = (
    masked salt ++ (pss_hash sha384 msg salt ++ rsa_pss_trailer ∷ []),
    encoded salt,
    omega (
      arith,
      length-append (masked salt) (pss_hash sha384 msg salt ++ rsa_pss_trailer ∷ []),
      length-append (pss_hash sha384 msg salt) (rsa_pss_trailer ∷ []),
      length-masked salt size,
      hash (replicate 8 0 ++ (sha384 msg ++ salt)),
      wide,
    ),
    verified salt size,
  )

  tests_passed :
      (em : Bytes)
      → pss_verify sha384 msg em bits ≡ true
      → let h = take oaep_hash_len (drop db_len em) in
        (get_or em (em_len - 1) 0 ≡ rsa_pss_trailer)
        × ((bit_and (get_or (take db_len em) 0 0) (0xff * 2 ^ (8 - pss_top_bits bits) % 2 ^ 8) == 0)
            ≡ true)
        × (pss_check sha384 msg
              (trim_first (pss_top_bits bits) (xor_bytes (take db_len em) (mask_of h)))
              h
              ps_len
            ≡ true)
  unfolding pss_verify
  tests_passed em passed = ground (arith, passed)

  joined :
      (em : Bytes)
      → length em ≡ em_len
      → get_or em (em_len - 1) 0 ≡ rsa_pss_trailer
      → take db_len em ++ (take oaep_hash_len (drop db_len em) ++ rsa_pss_trailer ∷ []) ≡ em
  joined em size last =
      let r : Bytes = drop db_len em in
      let r_size : length r ≡ 49 = omega (arith, length-drop db_len em, size, wide) in
      let end : get_or r 48 0 ≡ rsa_pss_trailer =
        sym (get_or-drop db_len 48 em 0)
        ∙ ap (λ (k : ℕ). get_or em k 0) (omega (arith, wide))
        ∙ last in
      let done : drop 49 r ≡ [] = drop_all 49 r r_size in
      ap (λ (x : Bytes). take db_len em ++ x)
        (sym (
          split_at 48 r (omega (arith, r_size))
          ∙ ap₂ (λ (x : ℕ) (xs : Bytes). take 48 r ++ (x ∷ xs)) end done))
      ∙ take-append-drop db_len em

  -- A salt that gives the two parts of an encoded message encodes to it.
  reencoded :
      (em salt : Bytes)
      → length em ≡ em_len
      → get_or em (em_len - 1) 0 ≡ rsa_pss_trailer
      → masked salt ≡ take db_len em
      → pss_hash sha384 msg salt ≡ take oaep_hash_len (drop db_len em)
      → pss_encode sha384 msg salt bits ≡ some em
  reencoded em salt size last front hashed =
      encoded salt
      ∙ ap₂ (λ (x k : Bytes). some (x ++ (k ++ rsa_pss_trailer ∷ []))) front hashed
      ∙ ap some (joined em size last)

  -- The data block that was unmasked, masked again.
  masked_again :
      (y salt h : Bytes)
      → trim_first (pss_top_bits bits) y ≡ y
      → replicate ps_len 0 ++ (0x01 ∷ salt)
        ≡ trim_first (pss_top_bits bits) (xor_bytes y (mask_of h))
      → pss_hash sha384 msg salt ≡ h
      → masked salt ≡ y
  masked_again y salt h trimmed block same =
      ap₂ (λ (x k : Bytes). trim_first (pss_top_bits bits) (xor_bytes x (mask_of k))) block same
      ∙ trim_twice (pss_top_bits bits) top y (mask_of h) trimmed

  -- For any hash of 48 bytes, a modulus of 1 to 4096 bits whose encoded messages have at least 98
  -- bytes, and an encoded message of that length: where pss_verify accepts it for a message,
  -- pss_encode gives it for the message and some salt of 48 bytes.
  pub pss_verify-IsEncoding :
      (em : Bytes)
      → length em ≡ em_len
      → AreBytes em
      → pss_verify sha384 msg em bits ≡ true
      → (salt : Bytes) × (length salt ≡ oaep_hash_len) × (pss_encode sha384 msg salt bits ≡ some em)
  pss_verify-IsEncoding em size bytes passed =
      let (last, clear, checked) = tests_passed em passed in
      let y : Bytes = take db_len em in
      let h : Bytes = take oaep_hash_len (drop db_len em) in
      let y_size : length y ≡ db_len = omega (arith, length-take db_len em, size, wide) in
      let h_size : length h ≡ oaep_hash_len =
        omega
          (arith, length-take oaep_hash_len (drop db_len em), length-drop db_len em, size, wide) in
      let trimmed = clear-trimmed (pss_top_bits bits) y top (AreBytes-take db_len em bytes) clear in
      let db : Bytes = trim_first (pss_top_bits bits) (xor_bytes y (mask_of h)) in
      let db_size : length db ≡ ps_len + 49 =
        length-trim_first (pss_top_bits bits) top (xor_bytes y (mask_of h))
        ∙ length-xor_bytes y (mask_of h)
        ∙ omega (arith, y_size, wide) in
      let (salt, salt_size, block, same) =
        check-true sha384 hash msg db h ps_len db_size h_size checked in
      (
        salt,
        salt_size,
        reencoded em salt size last (masked_again y salt h trimmed (sym block) (sym same))
            (sym same),
      )
