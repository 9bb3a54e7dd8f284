-- ===== src/Hash.antt =====
-- providers/arm_asm/hmac.hpp: the incremental hash contexts and HMAC over them. The compression
-- function, which is written with vector intrinsics, is a parameter. `Sha512Ctx` is the context with
-- blocks of 128 bytes and a length field of 16; `Sha256Ctx` has 64 and 8, and words of 32 bits.
pub mod Absorb
pub mod Update
pub mod Marked
pub mod Padding
pub mod OneShot
pub mod Output
pub mod Hmac
use claude_crypto.Base.{
  ℕ, zero, suc, ◌+◌, ◌-◌, ◌*◌, ◌/◌, ◌%◌, ◌^◌, bit_xor, ltb, ◌==◌, if◌then◌else◌, List, [], ◌∷◌,
  ◌++◌, length, take, drop, replicate, set, map,
}
use claude_crypto.Api.Result.{Bytes}

abbrev pub hmac_ipad_byte : ℕ
hmac_ipad_byte = 0x36

abbrev pub hmac_opad_byte : ℕ
hmac_opad_byte = 0x5c

pub record HashCtx : Type 0 where
  pub state : List ℕ
  pub buf : Bytes
  pub total_bytes : ℕ
  pub buf_used : ℕ

-- The eight bytes of a word, the most significant first: a copy of `byteswap`.
abbrev pub be_word : ℕ → Bytes
be_word w =
    w / 2 ^ 56 % 256
    ∷ w / 2 ^ 48 % 256
    ∷ w / 2 ^ 40 % 256
    ∷ w / 2 ^ 32 % 256
    ∷ w / 2 ^ 24 % 256
    ∷ w / 2 ^ 16 % 256
    ∷ w / 2 ^ 8 % 256
    ∷ w % 256
    ∷ []

-- `memcpy(target + offset, bytes, bytes.size())`
unfoldable pub write_at : Bytes → ℕ → Bytes → Bytes
write_at target offset bytes = take offset target ++ (bytes ++ drop (offset + length bytes) target)

-- The words of the state that are written out.
unfoldable pub write_state : List ℕ → Bytes
write_state [] = []
write_state (w ∷ words) = be_word w ++ write_state words

-- The buffer keeps what it had.
unfoldable pub init : List ℕ → HashCtx → HashCtx
init h0 c = record { state = h0; buf = c.buf; total_bytes = 0; buf_used = 0 }

module _ (block : ℕ) where
  -- A context as it is declared: zeros.
  unfoldable pub new_ctx : HashCtx
  new_ctx = record { state = replicate 8 0; buf = replicate block 0; total_bytes = 0; buf_used = 0 }

  -- The buffer, the marker and zeros.
  unfoldable pub marked_pad : HashCtx → Bytes
  unfolding write_at
  marked_pad c = set (write_at (replicate (2 * block) 0) 0 (take c.buf_used c.buf)) c.buf_used 0x80

  -- `len < space ? len : space`
  unfoldable pub round_size : Bytes → HashCtx → ℕ
  round_size data' c =
      let space = block - c.buf_used in if ltb (length data') space then length data' else space

module _ (compress : List ℕ → Bytes → List ℕ) (block : ℕ) where
  -- A block that is full is compressed.
  unfoldable pub absorbed : HashCtx → HashCtx
  absorbed c =
      if c.buf_used == block
      then record {
        state = compress c.state c.buf;
        buf = c.buf;
        total_bytes = c.total_bytes;
        buf_used = 0;
      }
      else c

  -- One round of the loop of `update`, for `taken` bytes.
  unfoldable pub update_round : ℕ → Bytes → HashCtx → HashCtx
  unfolding absorbed write_at
  update_round taken data' c = absorbed (record {
    state = c.state;
    buf = write_at c.buf c.buf_used (take taken data');
    total_bytes = c.total_bytes;
    buf_used = c.buf_used + taken;
  })

  -- The loop runs while bytes are left, at most `fuel` times.
  unfoldable pub update_loop : ℕ → Bytes → HashCtx → HashCtx
  unfolding update_round round_size
  update_loop zero data' c = c
  update_loop (suc fuel) [] c = c
  update_loop (suc fuel) (b ∷ data') c =
      let taken = round_size block (b ∷ data') c in
      update_loop fuel (drop taken (b ∷ data')) (update_round taken (b ∷ data') c)

  unfoldable pub update : Bytes → HashCtx → HashCtx
  unfolding update_loop
  update data' c = update_loop (length data') data' (record {
    state = c.state;
    buf = c.buf;
    total_bytes = (c.total_bytes + length data') % 2 ^ 64;
    buf_used = c.buf_used;
  })

module _ (compress : List ℕ → Bytes → List ℕ) (block field : ℕ) where
  -- The state after the padding.
  unfoldable pub finish_state : HashCtx → List ℕ
  unfolding marked_pad write_at
  finish_state c =
      let bit_len_be = be_word (c.total_bytes * 8 % 2 ^ 64) in
      if ltb c.buf_used (block - field)
      then compress c.state (take block (write_at (marked_pad block c) (block - 8) bit_len_be))
      else let pad = write_at (marked_pad block c) (2 * block - 8) bit_len_be in
        compress (compress c.state (take block pad)) (take block (drop block pad))

  unfoldable pub finish : ℕ → HashCtx → Bytes
  unfolding finish_state write_state
  finish out_bytes c = write_state (take (out_bytes / 8) (finish_state c))

  -- `K'`: a long key is hashed; zeros fill the block.
  unfoldable pub hmac_key : List ℕ → ℕ → Bytes → Bytes
  unfolding init new_ctx update finish write_at
  hmac_key h0 out_bytes key =
      let used =
        if ltb block (length key)
        then finish out_bytes (update compress block key (init h0 (new_ctx block)))
        else key in
      write_at (replicate block 0) 0 used

  unfoldable pub hmac_sha512_impl : List ℕ → Bytes → Bytes → ℕ → Bytes
  unfolding init new_ctx update finish hmac_key
  hmac_sha512_impl h0 key msg out_bytes =
      let kprime = hmac_key h0 out_bytes key in
      let ikey = map (λ (b : ℕ). bit_xor b hmac_ipad_byte) kprime in
      let okey = map (λ (b : ℕ). bit_xor b hmac_opad_byte) kprime in
      let ctx = update compress block msg (update compress block ikey (init h0 (new_ctx block))) in
      let inner = finish out_bytes ctx in
      finish out_bytes (update compress block inner (update compress block okey (init h0 ctx)))
