-- ===== src/RsaPadding/Encoded.antt =====
-- providers/arm_asm/rsa_oaep.hpp, rsa_pss.hpp: what is encoded consists of bytes, and its first byte is
-- small, so that its number is below the modulus.
use claude_crypto.Base.{
  ℕ, zero, suc, ◌+◌, ◌-◌, ◌%◌, ◌^◌, ◌<◌, ◌≡◌, inl, inr, sym, subst, ◌||◌, ltb, Bool-cases, some, [],
  ◌∷◌, ◌++◌, length, length-append, replicate, get_or, arith,
}
use claude_crypto.Base.Xor.{xor_bytes, length-xor_bytes}
use claude_crypto.Api.Result.{Bytes, AreBytes}
use claude_crypto.Api.Octets.{
  AreBytes-append, AreBytes-take, AreBytes-replicate, AreBytes-xor_bytes,
}
use claude_crypto.RsaPadding.{
  oaep_hash_len, mgf1_message, trim_first, mgf1_loop, mgf1_sha384, oaep_db, oaep_encode, pss_em_len,
  pss_top_bits, pss_hash, pss_encode,
}
use claude_crypto.RsaPadding.Trim.{trim_first-cons}

-- A string of bytes whose first one is below `bound`.
abbrev pub IsBelow : ℕ → Bytes → Type 0
IsBelow bound em = AreBytes em × (get_or em 0 0 < bound)

some_same : {x y : Bytes} → some x ≡ some y → x ≡ y
some_same e = cc

module _ (sha384 : Bytes → Bytes) (octets : (m : Bytes) → AreBytes (sha384 m)) where
  mgf1-AreBytes :
      (fuel : ℕ) (seed : Bytes) (out_len counter written : ℕ)
      → AreBytes (mgf1_loop sha384 fuel seed out_len counter written)
  unfolding mgf1_loop
  mgf1-AreBytes zero seed out_len counter written = tt
  mgf1-AreBytes (suc fuel) seed out_len counter written = elim (Bool-cases (ltb written out_len)) [
    | inr done ↦ rw done tt
    | inl more ↦ rw more (
        AreBytes-append _ _ (AreBytes-take _ _ (octets (mgf1_message seed counter)))
          (mgf1-AreBytes fuel seed out_len ((counter + 1) % 2 ^ 32) _))
  ]

  mask-AreBytes : (seed : Bytes) (n : ℕ) → AreBytes (mgf1_sha384 sha384 seed n)
  unfolding mgf1_sha384
  mask-AreBytes seed n = mgf1-AreBytes n seed n 0 0

  pub oaep_encode-IsBelow :
      (pt label seed em : Bytes) (k : ℕ)
      → AreBytes pt
      → AreBytes seed
      → oaep_encode sha384 pt label seed k ≡ some em
      → IsBelow 1 em
  unfolding oaep_encode oaep_db
  oaep_encode-IsBelow pt label seed em k hp hs e =
      let db_len : ℕ = k - oaep_hash_len - 1 in
      let pad : Bytes = replicate (db_len - oaep_hash_len - 1 - length pt) 0 in
      let out_db : Bytes =
        xor_bytes (oaep_db sha384 pt label db_len) (mgf1_sha384 sha384 seed db_len) in
      let out_seed : Bytes = xor_bytes seed (mgf1_sha384 sha384 out_db oaep_hash_len) in
      let block : AreBytes (oaep_db sha384 pt label db_len) =
        AreBytes-append (sha384 label) (pad ++ (0x01 ∷ pt)) (octets label) (
          AreBytes-append pad (0x01 ∷ pt) (AreBytes-replicate _ 0 (omega arith))
            (omega arith, hp)) in
      let masked =
        AreBytes-xor_bytes (oaep_db sha384 pt label db_len) _ block (mask-AreBytes seed db_len) in
      let masked_seed = AreBytes-xor_bytes seed _ hs (mask-AreBytes out_db oaep_hash_len) in
      elim (Bool-cases (ltb k 98 || ltb (db_len - oaep_hash_len - 1) (length pt))) [
        | inl refused ↦ absurd (cc (rw refused at e))
        | inr accepted ↦
            subst (IsBelow 1) (some_same (rw accepted at e))
              ((omega arith, AreBytes-append out_seed out_db masked_seed masked), omega arith)
      ]

  pub pss_encode-IsBelow :
      (msg salt em : Bytes) (bits : ℕ)
      → AreBytes salt
      → pss_top_bits bits ≡ 1
      → pss_encode sha384 msg salt bits ≡ some em
      → IsBelow (2 ^ 7) em
  unfolding pss_encode pss_hash
  pss_encode-IsBelow msg salt em bits hs one_bit e =
      let em_len : ℕ = pss_em_len bits in
      let h : Bytes = pss_hash sha384 msg salt in
      let ps : Bytes = replicate (em_len - oaep_hash_len - oaep_hash_len - 2) 0 in
      let db : Bytes = ps ++ (0x01 ∷ salt) in
      let block : AreBytes db =
        AreBytes-append ps (0x01 ∷ salt) (AreBytes-replicate _ 0 (omega arith)) (omega arith, hs) in
      let masked =
        AreBytes-xor_bytes db (mgf1_sha384 sha384 h (em_len - oaep_hash_len - 1)) block
          (mask-AreBytes h (em_len - oaep_hash_len - 1)) in
      let some_byte : 0
          < length (xor_bytes db (mgf1_sha384 sha384 h (em_len - oaep_hash_len - 1))) =
        omega (
          arith,
          length-xor_bytes db (mgf1_sha384 sha384 h (em_len - oaep_hash_len - 1)),
          length-append ps (0x01 ∷ salt),
        ) in
      let tail : AreBytes (h ++ 0xbc ∷ []) =
        AreBytes-append h (0xbc ∷ []) (octets (replicate 8 0 ++ (sha384 msg ++ salt)))
          (omega arith) in
      elim (Bool-cases (ltb em_len 98)) [
        | inl refused ↦ absurd (cc (rw refused at e))
        | inr accepted ↦ subst (IsBelow (2 ^ 7)) (some_same (rw accepted at e)) (
            rw one_bit (
              trimmed_below (xor_bytes db (mgf1_sha384 sha384 h (em_len - oaep_hash_len - 1)))
                (h ++ 0xbc ∷ []) masked tail some_byte))
      ]
    where
      trimmed_below :
          (bytes tail : Bytes)
          → AreBytes bytes
          → AreBytes tail
          → 0 < length bytes
          → IsBelow (2 ^ 7) (trim_first 1 bytes ++ tail)
      trimmed_below [] tail hb ht pos = absurd (omega (arith, pos))
      trimmed_below (b ∷ bytes) tail hb ht pos =
          let small : b % 2 ^ 7 < 2 ^ 7 = omega arith in
          subst (λ (x : Bytes). IsBelow (2 ^ 7) (x ++ tail))
            (sym (trim_first-cons 1 b bytes (omega arith) (omega arith)))
            ((omega (arith, small), AreBytes-append bytes tail hb.1 ht), small)
