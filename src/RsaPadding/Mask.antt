-- ===== src/RsaPadding/Mask.antt =====
-- providers/arm_asm/rsa_oaep.hpp: MGF1, against RFC 8017.
use claude_crypto.Base.{
  ap₂, ◌∷◌, bit_and, bit_and_mask, replicate, length-replicate, drop, length-drop, take-append, ℕ,
  zero, suc, ◌+◌, ◌-◌, ◌*◌, ◌/◌, ◌%◌, ◌^◌, ◌<◌, ◌≤◌, ◌≡◌, inl, inr, refl, sym, ap, ◌∙◌, false, ltb,
  Bool-cases, [], ◌++◌, length, length-append, length-take, take, take_all, take-append_more,
  take-append_front, arith, append-nil,
}
use claude_crypto.Api.Result.{Bytes}
use claude_crypto.Hash.{write_at}
use claude_crypto.Hash.Update.{write_at-front}
use claude_crypto.RsaPadding.{
  oaep_hash_len, counter_bytes, max_seed, mgf1_message, mgf1_loop, mgf1_sha384,
}

-- I2OSP of RFC 8017: the `n` digits of `x` to the base 256, the highest first.
unfoldable pub i2osp : ℕ → ℕ → Bytes
i2osp zero x = []
i2osp (suc n) x = i2osp n (x / 256) ++ (x % 256 ∷ [])

counter_bytes-i2osp : (c : ℕ) → counter_bytes c ≡ i2osp 4 c
unfolding counter_bytes i2osp
counter_bytes-i2osp c =
    ap₂ (λ (x y : ℕ). x ∷ y ∷ bit_and (c / 2 ^ 8) 0xff ∷ bit_and c 0xff ∷ [])
      (bit_and_mask 8 (c / 2 ^ 24) ∙ omega arith) (bit_and_mask 8 (c / 2 ^ 16) ∙ omega arith)
    ∙ ap₂ (λ (x y : ℕ). c / 256 / 256 / 256 % 256 ∷ c / 256 / 256 % 256 ∷ x ∷ y ∷ [])
        (bit_and_mask 8 (c / 2 ^ 8)) (bit_and_mask 8 c)

-- A seed that fits the buffer is hashed with the counter behind it.
mgf1_message_fits :
    (seed : Bytes) (c : ℕ) → length seed ≤ 512 → mgf1_message seed c ≡ seed ++ i2osp 4 c
unfolding mgf1_message
mgf1_message_fits seed c fits =
    let buf : Bytes = replicate max_seed 0 in
    let inside : ltb (max_seed - 4) (length seed) ≡ false = ground arith in
    let digits : length (counter_bytes c) ≡ 4 = unfold counter_bytes in refl in
    let room : length seed + length (counter_bytes c) ≤ length (seed ++ drop (length seed) buf) =
      omega (
        arith,
        length-append seed (drop (length seed) buf),
        length-drop (length seed) buf,
        length-replicate {A = ℕ} max_seed 0,
        digits,
      ) in
    rw inside (
      ap
        (λ (k : ℕ).
          take (length seed + k)
            (write_at (seed ++ drop (length seed) buf) (length seed) (counter_bytes c)))
        (sym digits)
      ∙ write_at-front (seed ++ drop (length seed) buf) (length seed) (counter_bytes c) room
      ∙ ap₂ (λ (x y : Bytes). x ++ y) (take-append seed (drop (length seed) buf))
          (counter_bytes-i2osp c))

module _ (sha384 : Bytes → Bytes) (seed : Bytes) where
  -- The hashes of `n` rounds from `i` on.
  unfoldable raw_blocks : ℕ → ℕ → Bytes
  raw_blocks i zero = []
  raw_blocks i (suc n) = sha384 (mgf1_message seed i) ++ raw_blocks (suc i) n

  -- Hash(seed || I2OSP(i, 4)) || ... || Hash(seed || I2OSP(i + n - 1, 4))
  unfoldable pub mgf_blocks : ℕ → ℕ → Bytes
  unfolding i2osp
  mgf_blocks i zero = []
  mgf_blocks i (suc n) = sha384 (seed ++ i2osp 4 i) ++ mgf_blocks (suc i) n

  blocks_same : (i n : ℕ) → length seed ≤ 512 → raw_blocks i n ≡ mgf_blocks i n
  unfolding raw_blocks mgf_blocks
  blocks_same i zero fits = refl
  blocks_same i (suc n) fits =
      ap₂ (λ (x y : Bytes). sha384 x ++ y) (mgf1_message_fits seed i fits)
        (blocks_same (suc i) n fits)

  mgf_done :
      (fuel out_len counter written : ℕ)
      → out_len ≤ written
      → mgf1_loop sha384 fuel seed out_len counter written ≡ []
  unfolding mgf1_loop
  mgf_done zero out_len counter written h = refl
  mgf_done (suc fuel) out_len counter written h =
      let done : ltb written out_len ≡ false = ground arith in rw done refl

  module _ (hash : (m : Bytes) → length (sha384 m) ≡ oaep_hash_len) (out_len : ℕ) where
    -- The last round, which may write only the front of the hash.
    last_block :
        (fuel i written counter n : ℕ)
        → out_len - written < oaep_hash_len
        → written ≤ out_len
        → take (out_len - written) (sha384 (mgf1_message seed i))
            ++ mgf1_loop sha384 fuel seed out_len counter (written + (out_len - written))
          ≡ take (out_len - written) (sha384 (mgf1_message seed i) ++ raw_blocks (suc i) n)
    last_block fuel i written counter n short begun =
        let block : Bytes = sha384 (mgf1_message seed i) in
        let size : length block ≡ oaep_hash_len = hash _ in
        ap (λ (x : Bytes). take (out_len - written) block ++ x)
          (mgf_done fuel out_len counter (written + (out_len - written)) (omega (arith, begun)))
        ∙ append-nil (take (out_len - written) block)
        ∙ sym (
            take-append_front block (raw_blocks (suc i) n) (out_len - written)
              (omega (arith, size, short)))

    full_block :
        (fuel i written counter n : ℕ)
        → written + 48 ≤ out_len
        → mgf1_loop sha384 fuel seed out_len counter (written + 48)
          ≡ take (out_len - (written + 48)) (raw_blocks (suc i) n)
        → take 48 (sha384 (mgf1_message seed i))
            ++ mgf1_loop sha384 fuel seed out_len counter (written + 48)
          ≡ take (out_len - written) (sha384 (mgf1_message seed i) ++ raw_blocks (suc i) n)
    full_block fuel i written counter n begun rest =
        let block : Bytes = sha384 (mgf1_message seed i) in
        let size : length block ≡ oaep_hash_len = hash _ in
        let left : out_len - written ≡ length block + (out_len - (written + 48)) =
          omega (arith, size, begun) in
        ap (λ (x : Bytes). x ++ mgf1_loop sha384 fuel seed out_len counter (written + 48))
          (take_all 48 block size)
        ∙ ap (λ (x : Bytes). block ++ x) rest
        ∙ sym (
            ap (λ (k : ℕ). take k (block ++ raw_blocks (suc i) n)) left
            ∙ take-append_more block (raw_blocks (suc i) n) (out_len - (written + 48)))

    loop_lem :
        (fuel i written n : ℕ)
        → i + fuel < 2 ^ 32
        → written ≤ out_len
        → out_len ≤ written + fuel
        → fuel ≤ n
        → mgf1_loop sha384 fuel seed out_len i written ≡ take (out_len - written) (raw_blocks i n)
    unfolding mgf1_loop raw_blocks
    loop_lem zero i written n small begun enough more =
        let over : out_len - written ≡ 0 = omega (arith, enough) in rw over refl
    loop_lem (suc fuel) i written zero small begun enough more = absurd (omega (arith, more))
    loop_lem (suc fuel) i written (suc n) small begun enough more =
        let next : (i + 1) % 2 ^ 32 ≡ suc i = omega (arith, small) in
        elim (Bool-cases (ltb written out_len)) [
          | inr done ↦ let over : out_len - written ≡ 0 = ground arith in rw (done, over) refl
          | inl left ↦ elim (Bool-cases (ltb (out_len - written) oaep_hash_len)) [
            | inl short ↦
                rw (left, short)
                  (last_block fuel i written ((i + 1) % 2 ^ 32) n (ground arith) begun)
            | inr full ↦
                rw (left, full, next)
                  (full_block fuel i written (suc i) n (ground arith) (
                    loop_lem fuel (suc i) (written + 48) n (omega (arith, small)) (ground arith)
                      (ground arith) (omega (arith, more))))
          ]
        ]

    mgf1-raw_blocks :
        out_len < 2 ^ 32 → mgf1_sha384 sha384 seed out_len ≡ take out_len (raw_blocks 0 out_len)
    unfolding mgf1_sha384
    mgf1-raw_blocks small =
        let whole : out_len - 0 ≡ out_len = omega arith in
        loop_lem out_len 0 0 out_len (omega (arith, small)) (omega arith) (omega arith)
          (omega arith)
        ∙ ap (λ (k : ℕ). take k (raw_blocks 0 out_len)) whole

    -- For any hash of 48 bytes, a seed of at most 512 bytes and less than 2^32 bytes of output,
    -- mgf1_sha384 gives the first bytes of Hash(seed || I2OSP(0, 4)) || Hash(seed || I2OSP(1, 4))
    -- || ..., as RFC 8017 defines MGF1, where I2OSP(x, 4) has the four digits of x to the base
    -- 256, the highest first.
    pub mgf1_sha384_lem :
        length seed ≤ 512
        → out_len < 2 ^ 32
        → mgf1_sha384 sha384 seed out_len ≡ take out_len (mgf_blocks 0 out_len)
    mgf1_sha384_lem fits small =
        mgf1-raw_blocks small ∙ ap (take out_len) (blocks_same 0 out_len fits)

    length-raw_blocks : (i n : ℕ) → length (raw_blocks i n) ≡ n * 48
    unfolding raw_blocks
    length-raw_blocks i zero = omega arith
    length-raw_blocks i (suc n) = omega (
      arith,
      length-append (sha384 (mgf1_message seed i)) (raw_blocks (suc i) n),
      hash (mgf1_message seed i),
      length-raw_blocks (suc i) n,
    )

    pub length-mgf1_sha384 : out_len < 2 ^ 32 → length (mgf1_sha384 sha384 seed out_len) ≡ out_len
    length-mgf1_sha384 small =
        ap length (mgf1-raw_blocks small)
        ∙ omega (arith, length-take out_len (raw_blocks 0 out_len), length-raw_blocks 0 out_len)
