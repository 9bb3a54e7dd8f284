-- ===== src/RsaPadding/Oaep.antt =====
-- providers/arm_asm/rsa_oaep.hpp: the encoding and the decoding of OAEP invert each other.
use claude_crypto.Base.{
  ℕ, ◌+◌, ◌-◌, ◌<◌, ◌≤◌, ◌≡◌, ◌⊎◌, inl, inr, refl, sym, ap, ap₂, ◌∙◌, true, false, ltb, Bool-cases,
  none, some, [], ◌∷◌, ◌++◌, length, length-append, length-take, length-drop, take, drop, take_all,
  take-append-drop, take-append_at, drop-append_at, arith,
}
use claude_crypto.Base.Xor.{xor_bytes, length-xor_bytes, xor_bytes_cancel}
use claude_crypto.Api.Result.{Bytes}
use claude_crypto.RsaPadding.{oaep_hash_len, mgf1_sha384, oaep_db, oaep_encode, oaep_decode}
use claude_crypto.RsaPadding.DataBlock.{length-oaep_db, open-db, db-open}

module _ (sha384 : Bytes → Bytes) (hash : (m : Bytes) → length (sha384 m) ≡ oaep_hash_len)
    (label : Bytes) where
  module _ (seed : Bytes) (seed_size : length seed ≡ oaep_hash_len) (k : ℕ) (within : k ≤ 512)
      (wide : 98 ≤ k) where
    abbrev pub masked_db : Bytes → Bytes
    masked_db pt =
        xor_bytes (oaep_db sha384 pt label (k - oaep_hash_len - 1))
          (mgf1_sha384 sha384 seed (k - oaep_hash_len - 1))

    abbrev pub masked_seed : Bytes → Bytes
    masked_seed pt = xor_bytes seed (mgf1_sha384 sha384 (masked_db pt) oaep_hash_len)

    encoded :
        (pt : Bytes)
        → length pt + 98 ≤ k
        → oaep_encode sha384 pt label seed k ≡ some (0 ∷ (masked_seed pt ++ masked_db pt))
    unfolding oaep_encode
    encoded pt fits =
        let wide_enough : ltb k 98 ≡ false = ground arith in
        let short : ltb (k - oaep_hash_len - 1 - oaep_hash_len - 1) (length pt) ≡ false =
          ground arith in
        rw (wide_enough, short) refl

    length-masked_db :
        (pt : Bytes) → length pt + 98 ≤ k → length (masked_db pt) ≡ k - oaep_hash_len - 1
    length-masked_db pt fits =
        length-xor_bytes (oaep_db sha384 pt label (k - oaep_hash_len - 1))
          (mgf1_sha384 sha384 seed (k - oaep_hash_len - 1))
        ∙ length-oaep_db sha384 hash label pt (k - oaep_hash_len - 1) (omega (arith, fits))

    pub length-encoded :
        (pt : Bytes) → length pt + 98 ≤ k → length (0 ∷ (masked_seed pt ++ masked_db pt)) ≡ k
    length-encoded pt fits = omega (
      arith,
      length-append (masked_seed pt) (masked_db pt),
      length-masked_db pt fits,
      length-xor_bytes seed (mgf1_sha384 sha384 (masked_db pt) oaep_hash_len),
      seed_size,
      wide,
    )

    pub decoded :
        (pt : Bytes) (pt_max : ℕ)
        → length pt + 98 ≤ k
        → length pt ≤ pt_max
        → oaep_decode sha384 (0 ∷ (masked_seed pt ++ masked_db pt)) k label pt_max ≡ some pt
    unfolding oaep_decode
    decoded pt pt_max fits room =
        let wide_enough : ltb k 98 ≡ false = ground arith in
        let db_len : ℕ = k - oaep_hash_len - 1 in
        let size : length (masked_seed pt) ≡ oaep_hash_len = length-xor_bytes seed _ ∙ seed_size in
        let s : take oaep_hash_len (masked_seed pt ++ masked_db pt) ≡ masked_seed pt =
          take-append_at oaep_hash_len (masked_seed pt) (masked_db pt) size in
        let d : take db_len (drop oaep_hash_len (masked_seed pt ++ masked_db pt)) ≡ masked_db pt =
          ap (take db_len) (drop-append_at oaep_hash_len (masked_seed pt) (masked_db pt) size)
          ∙ take_all db_len (masked_db pt) (length-masked_db pt fits) in
        let seed_back : xor_bytes (masked_seed pt) (mgf1_sha384 sha384 (masked_db pt) oaep_hash_len)
            ≡ seed =
          xor_bytes_cancel seed _ in
        let db_back : xor_bytes (masked_db pt) (mgf1_sha384 sha384 seed db_len)
            ≡ oaep_db sha384 pt label db_len =
          xor_bytes_cancel _ (mgf1_sha384 sha384 seed db_len) in
        rw (wide_enough, s, d, seed_back, db_back)
          (open-db sha384 hash label pt db_len pt_max (omega (arith, fits)) (omega (arith, within))
            room)

    -- An encoded message is as long as the modulus and decodes to its message.
    pub oaep_decode-oaep_encode :
        (pt : Bytes) (pt_max : ℕ)
        → length pt ≤ pt_max
        → (k < length pt + 98) × (oaep_encode sha384 pt label seed k ≡ none)
          ⊎ (em : Bytes) × (oaep_encode sha384 pt label seed k ≡ some em)
            × (length em ≡ k)
            × (oaep_decode sha384 em k label pt_max ≡ some pt)
    unfolding oaep_encode
    oaep_decode-oaep_encode pt pt_max room = elim (Bool-cases (ltb k (length pt + 98))) [
      | inl long ↦
          let wide_enough : ltb k 98 ≡ false = ground arith in
          let too_long : ltb (k - oaep_hash_len - 1 - oaep_hash_len - 1) (length pt) ≡ true =
            ground arith in
          inl (ground arith, rw (wide_enough, too_long) refl)
      | inr short ↦
          let fits : length pt + 98 ≤ k = ground arith in
          inr (
            0 ∷ (masked_seed pt ++ masked_db pt),
            encoded pt fits,
            length-encoded pt fits,
            decoded pt pt_max fits room,
          )
    ]

  -- The seed that an encoded message of k bytes carries.
  abbrev carried_seed : Bytes → Bytes
  carried_seed em =
      xor_bytes (take oaep_hash_len em) (mgf1_sha384 sha384 (drop oaep_hash_len em) oaep_hash_len)

  -- The data block behind it.
  abbrev carried_db : Bytes → ℕ → Bytes
  carried_db em k =
      xor_bytes (drop oaep_hash_len em)
        (mgf1_sha384 sha384 (carried_seed em) (k - oaep_hash_len - 1))

  -- A message that carries a seed and the data block of a plaintext is its encoding.
  reencoded :
      (em m : Bytes) (k : ℕ)
      → (seed_size : length (carried_seed em) ≡ oaep_hash_len) → k ≤ 512
      → 98 ≤ k
      → length m + 98 ≤ k
      → oaep_db sha384 m label (k - oaep_hash_len - 1) ≡ carried_db em k
      → oaep_encode sha384 m label (carried_seed em) k ≡ some (0 ∷ em)
  reencoded em m k seed_size within wide fits block =
      let seed : Bytes = carried_seed em in
      let db_again : masked_db seed seed_size k within wide m ≡ drop oaep_hash_len em =
        ap (λ (x : Bytes). xor_bytes x (mgf1_sha384 sha384 seed (k - oaep_hash_len - 1))) block
        ∙ xor_bytes_cancel (drop oaep_hash_len em)
            (mgf1_sha384 sha384 seed (k - oaep_hash_len - 1)) in
      let seed_again : masked_seed seed seed_size k within wide m ≡ take oaep_hash_len em =
        ap (λ (x : Bytes). xor_bytes seed (mgf1_sha384 sha384 x oaep_hash_len)) db_again
        ∙ xor_bytes_cancel (take oaep_hash_len em)
            (mgf1_sha384 sha384 (drop oaep_hash_len em) oaep_hash_len) in
      encoded seed seed_size k within wide m fits
      ∙ ap (λ (x : Bytes). some (0 ∷ x))
          (ap₂ (λ (a b : Bytes). a ++ b) seed_again db_again ∙ take-append-drop oaep_hash_len em)

  -- For any hash of 48 bytes and an encoded message of k bytes, k at most 512: where oaep_decode
  -- gives a message, oaep_encode gives that encoded message for the message, the label and some
  -- seed of 48 bytes, so that nothing else is accepted.
  pub oaep_decode-IsEncoding :
      (em m : Bytes) (k pt_max : ℕ)
      → length em ≡ k
      → k ≤ 512
      → oaep_decode sha384 em k label pt_max ≡ some m
      → (seed : Bytes) × (length seed ≡ oaep_hash_len)
        × (oaep_encode sha384 m label seed k ≡ some em)
  unfolding oaep_decode
  oaep_decode-IsEncoding [] m k pt_max size within h =
      let narrow : ltb k 98 ≡ true = ground (arith, size) in absurd (cc (rw narrow at h))
  oaep_decode-IsEncoding (y ∷ em) m k pt_max size within h = elim (Bool-cases (ltb k 98)) [
    | inl narrow ↦ absurd (cc (rw narrow at h))
    | inr wide_enough ↦
        let wide : 98 ≤ k = ground arith in
        let db_len : ℕ = k - oaep_hash_len - 1 in
        let rest : length (drop oaep_hash_len em) ≡ db_len =
          omega (arith, length-drop oaep_hash_len em, size) in
        let whole = take_all db_len (drop oaep_hash_len em) rest in
        let db_size : length (carried_db em k) ≡ db_len =
          length-xor_bytes (drop oaep_hash_len em) (mgf1_sha384 sha384 (carried_seed em) db_len)
          ∙ rest in
        let seed_size : length (carried_seed em) ≡ oaep_hash_len =
          length-xor_bytes (take oaep_hash_len em)
            (mgf1_sha384 sha384 (drop oaep_hash_len em) oaep_hash_len)
          ∙ omega (arith, length-take oaep_hash_len em, size, wide) in
        let (zero_byte, fits, same) =
          db-open sha384 hash label y (carried_db em k) pt_max m (omega (arith, db_size, wide))
            (omega (arith, db_size, within)) (rw (wide_enough, whole) at h) in
        (
          carried_seed em,
          seed_size,
          reencoded em m k seed_size within wide (omega (arith, fits, db_size, wide))
                (sym (same ∙ ap (oaep_db sha384 m label) db_size))
              ∙ ap (λ (b : ℕ). some (b ∷ em)) (sym zero_byte),
        )
  ]
