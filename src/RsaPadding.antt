-- ===== src/RsaPadding.antt =====
-- providers/arm_asm/rsa_oaep.hpp, rsa_pss.hpp: the encodings of RSA, over SHA-384 as a function on
-- byte strings. A call that answers false is `none`. An encoder returns the bytes of `out_em`. The
-- buffers hold a modulus of at most 512 bytes.
pub mod Mask
pub mod Scan
pub mod DataBlock
pub mod Oaep
pub mod Trim
pub mod Block
pub mod Pss
pub mod Encoded
use claude_crypto.Base.{
  ℕ, zero, suc, ◌+◌, ◌-◌, ◌*◌, ◌/◌, ◌%◌, ◌^◌, bit_and, bit_or, bit_xor, Bool, true, false, not,
  ◌||◌, ◌&&◌, ◌==◌, ltb, if◌then◌else◌, Option, none, some, List, [], ◌∷◌, ◌++◌, length, take, drop,
  replicate, get_or,
}
use claude_crypto.Base.Xor.{xor_bytes}
use claude_crypto.Hash.{write_at}
use claude_crypto.Api.Result.{Bytes}

abbrev pub oaep_hash_len : ℕ
oaep_hash_len = 48

abbrev pub rsa_pss_trailer : ℕ
rsa_pss_trailer = 0xbc

-- A test as the number 0 or 1.
abbrev pub flag : Bool → ℕ
flag b = if b then 1 else 0

-- I2OSP(counter, 4)
unfoldable pub counter_bytes : ℕ → Bytes
counter_bytes counter =
    bit_and (counter / 2 ^ 24) 0xff
    ∷ bit_and (counter / 2 ^ 16) 0xff
    ∷ bit_and (counter / 2 ^ 8) 0xff
    ∷ bit_and counter 0xff
    ∷ []

-- The buffer for a seed of up to 512 bytes and the counter.
abbrev pub max_seed : ℕ
max_seed = 512 + 4

-- What a round of the mask function hashes: the buffer with the seed, if it fits, and the counter
-- behind it. For a longer seed the source writes the counter past the buffer; the model of it does
-- not hold then.
unfoldable pub mgf1_message : Bytes → ℕ → Bytes
unfolding counter_bytes
mgf1_message seed counter =
    let buf = replicate max_seed 0 in
    let copied =
      if not (ltb (max_seed - 4) (length seed)) then seed ++ drop (length seed) buf else buf in
    take (length seed + 4) (write_at copied (length seed) (counter_bytes counter))

-- `err |= xs[i] ^ ys[i]` for each byte, and `err |= xs[i]`.
unfoldable pub or_differences : ℕ → Bytes → Bytes → ℕ
or_differences err [] ys = err
or_differences err (x ∷ xs) [] = err
or_differences err (x ∷ xs) (y ∷ ys) = or_differences (bit_or err (bit_xor x y)) xs ys

unfoldable pub or_bytes : ℕ → Bytes → ℕ
or_bytes err [] = err
or_bytes err (x ∷ xs) = or_bytes (bit_or err x) xs

-- `candidate` where the bit is set, else `msg_start`, by a mask of 64 bits.
unfoldable pub select_start : ℕ → ℕ → ℕ → ℕ
select_start is_one candidate msg_start =
    let mask = (2 ^ 64 - is_one) % 2 ^ 64 in
    bit_or (bit_and candidate mask) (bit_and msg_start (2 ^ 64 - 1 - mask))

pub record ScanState : Type 0 where
  pub err : ℕ
  pub found : ℕ
  pub msg_start : ℕ

-- One round of the search for the separator, at byte `i` of `db`.
unfoldable pub scan_round : ℕ → ℕ → ScanState → ScanState
unfolding select_start
scan_round i b s =
    let is_one = bit_and (flag (b == 1)) (flag (s.found == 0)) in
    let is_zero = flag (b == 0) in
    record {
      err =
          bit_or s.err
            (bit_and (bit_and (flag (s.found == 0)) (flag (is_zero == 0))) (flag (is_one == 0)));
      found = bit_or s.found is_one;
      msg_start = select_start is_one (i + 1) s.msg_start;
    }

unfoldable pub scan_loop : ℕ → Bytes → ScanState → ScanState
scan_loop i [] s = s
scan_loop i (b ∷ bytes) s = scan_loop (suc i) bytes (scan_round i b s)

-- `bytes[0] &= 0xff >> top_bits`, where that clears bits.
unfoldable pub trim_first : ℕ → Bytes → Bytes
trim_first top_bits [] = []
trim_first top_bits (b ∷ bytes) =
    if ltb 0 top_bits then bit_and b (0xff / 2 ^ top_bits) ∷ bytes else b ∷ bytes

-- The bits and the bytes of an encoded message, and the bits of its first byte that are unused.
unfoldable pub pss_em_bits : ℕ → ℕ
pss_em_bits modulus_bits = (modulus_bits + 2 ^ 64 - 1) % 2 ^ 64

unfoldable pub pss_em_len : ℕ → ℕ
unfolding pss_em_bits
pss_em_len modulus_bits = (pss_em_bits modulus_bits + 7) % 2 ^ 64 / 8

unfoldable pub pss_top_bits : ℕ → ℕ
unfolding pss_em_bits pss_em_len
pss_top_bits modulus_bits =
    (8 * pss_em_len modulus_bits + 2 ^ 64 - pss_em_bits modulus_bits) % 2 ^ 64

-- The message behind the separator, if no check failed.
unfoldable pub opened : ScanState → Bytes → ℕ → Option Bytes
opened s db pt_max =
    if not (bit_or s.err (flag (s.found == 0)) == 0) || ltb pt_max (length db - s.msg_start)
    then none
    else some (drop s.msg_start db)

module _ (sha384 : Bytes → Bytes) where
  -- The bytes that the loop writes in at most `fuel` rounds.
  unfoldable pub mgf1_loop : ℕ → Bytes → ℕ → ℕ → ℕ → Bytes
  unfolding mgf1_message
  mgf1_loop zero seed out_len counter written = []
  mgf1_loop (suc fuel) seed out_len counter written =
      let hash = sha384 (mgf1_message seed counter) in
      let taken =
        if ltb (out_len - written) oaep_hash_len then out_len - written else oaep_hash_len in
      let rest = mgf1_loop fuel seed out_len ((counter + 1) % 2 ^ 32) (written + taken) in
      if ltb written out_len then take taken hash ++ rest else []

  -- Each round writes a byte at least.
  unfoldable pub mgf1_sha384 : Bytes → ℕ → Bytes
  unfolding mgf1_loop
  mgf1_sha384 seed out_len = mgf1_loop out_len seed out_len 0 0

  -- DB = lHash || PS || 0x01 || M, of `db_len` bytes.
  unfoldable pub oaep_db : Bytes → Bytes → ℕ → Bytes
  oaep_db pt label db_len =
      sha384 label ++ (replicate (db_len - oaep_hash_len - 1 - length pt) 0 ++ (0x01 ∷ pt))

  unfoldable pub oaep_encode : Bytes → Bytes → Bytes → ℕ → Option Bytes
  unfolding oaep_db mgf1_sha384
  oaep_encode pt label seed modulus_bytes =
      let db_len = modulus_bytes - oaep_hash_len - 1 in
      let out_db = xor_bytes (oaep_db pt label db_len) (mgf1_sha384 seed db_len) in
      let out_seed = xor_bytes seed (mgf1_sha384 out_db oaep_hash_len) in
      if ltb modulus_bytes (2 * oaep_hash_len + 2) || ltb (db_len - oaep_hash_len - 1) (length pt)
      then none
      else some (0 ∷ (out_seed ++ out_db))

  -- The checks of a data block `db` with `y` the first byte of the encoding, and the message.
  unfoldable pub oaep_open : ℕ → Bytes → Bytes → ℕ → Option Bytes
  unfolding or_differences scan_loop opened
  oaep_open y db label pt_max =
      let err = or_differences y (take oaep_hash_len db) (sha384 label) in
      opened
        (scan_loop oaep_hash_len (drop oaep_hash_len db)
          (record { err = err; found = 0; msg_start = length db }))
        db pt_max

  unfoldable pub oaep_decode : Bytes → ℕ → Bytes → ℕ → Option Bytes
  unfolding mgf1_sha384 oaep_open
  oaep_decode em modulus_bytes label pt_max =
      let db_len = modulus_bytes - oaep_hash_len - 1 in
      let masked_seed = take oaep_hash_len (drop 1 em) in
      let masked_db = take db_len (drop (1 + oaep_hash_len) em) in
      let seed = xor_bytes masked_seed (mgf1_sha384 masked_db oaep_hash_len) in
      let db = xor_bytes masked_db (mgf1_sha384 seed db_len) in
      if ltb modulus_bytes (2 * oaep_hash_len + 2)
      then none
      else oaep_open (get_or em 0 0) db label pt_max

  -- H = Hash(0x00^8 || mHash || salt)
  unfoldable pub pss_hash : Bytes → Bytes → Bytes
  pss_hash msg salt = sha384 (replicate 8 0 ++ (sha384 msg ++ salt))

  unfoldable pub pss_encode : Bytes → Bytes → ℕ → Option Bytes
  unfolding pss_hash mgf1_sha384 trim_first pss_em_len pss_top_bits
  pss_encode msg salt modulus_bits =
      let em_len = pss_em_len modulus_bits in
      let db_len = em_len - oaep_hash_len - 1 in
      let h = pss_hash msg salt in
      let db = replicate (em_len - oaep_hash_len - oaep_hash_len - 2) 0 ++ (0x01 ∷ salt) in
      let masked = trim_first (pss_top_bits modulus_bits) (xor_bytes db (mgf1_sha384 h db_len)) in
      if ltb em_len (2 * oaep_hash_len + 2)
      then none
      else some (masked ++ (h ++ rsa_pss_trailer ∷ []))

  -- The checks of a data block `db` against the hash `h`.
  unfoldable pub pss_check : Bytes → Bytes → Bytes → ℕ → Bool
  unfolding or_bytes or_differences pss_hash
  pss_check msg db h ps_len =
      let err = bit_or (or_bytes 0 (take ps_len db)) (bit_xor (get_or db ps_len 0) 0x01) in
      let salt = take oaep_hash_len (drop (ps_len + 1) db) in
      (err == 0) && (or_differences 0 h (pss_hash msg salt) == 0)

  unfoldable pub pss_verify : Bytes → Bytes → ℕ → Bool
  unfolding pss_check mgf1_sha384 trim_first pss_em_len pss_top_bits
  pss_verify msg em modulus_bits =
      let em_len = pss_em_len modulus_bits in
      let db_len = em_len - oaep_hash_len - 1 in
      let top_bits = pss_top_bits modulus_bits in
      let masked_db = take db_len em in
      let h = take oaep_hash_len (drop db_len em) in
      let top_mask = 0xff * 2 ^ (8 - top_bits) % 2 ^ 8 in
      let db = trim_first top_bits (xor_bytes masked_db (mgf1_sha384 h db_len)) in
      if ltb em_len (2 * oaep_hash_len + 2)
      then false
      else if not (get_or em (em_len - 1) 0 == rsa_pss_trailer)
      then false
      else if not (bit_and (get_or masked_db 0 0) top_mask == 0)
      then false
      else pss_check msg db h (em_len - oaep_hash_len - oaep_hash_len - 2)
