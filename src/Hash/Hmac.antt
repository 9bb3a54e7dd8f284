-- ===== src/Hash/Hmac.antt =====
-- providers/arm_asm/hmac.hpp: HMAC by the hash of whole messages.
use claude_crypto.Base.{
  ℕ, ◌-◌, ◌/◌, ◌<◌, ◌≤◌, ◌≡◌, ◌⊎◌, refl, ap, ◌∙◌, inl, inr, Bool-cases, ltb, bit_xor, List, [],
  ◌++◌, map, length, take, drop, arith,
}
use claude_crypto.Api.Result.{Bytes}
use claude_crypto.Hash.{
  HashCtx, write_at, write_state, init, new_ctx, update, finish_state, finish, hmac_key,
  hmac_sha512_impl, hmac_ipad_byte, hmac_opad_byte,
}
use claude_crypto.Hash.Absorb.{HasAbsorbed}
use claude_crypto.Hash.Update.{length-new_ctx, init-HasAbsorbed, update-HasAbsorbed}
use claude_crypto.Hash.Marked.{zeros, drop-replicate}
use claude_crypto.Hash.Padding.{IsDigest, finish_state-IsDigest}

module _ (compress : List ℕ → Bytes → List ℕ) (block field : ℕ) where
  -- `d` is the hash of the message `m`, of `out_bytes` bytes, from the state `h0`.
  abbrev pub IsHash : List ℕ → ℕ → Bytes → Bytes → Type 0
  IsHash h0 out_bytes m d =
      (t : List ℕ) × IsDigest compress block field h0 m t
      × (d ≡ write_state (take (out_bytes / 8) t))

  -- The key of a block: the key itself, or its hash where it is longer, filled up with zeros.
  abbrev pub IsBlockKey : List ℕ → ℕ → Bytes → Bytes → Type 0
  IsBlockKey h0 out_bytes key kprime =
      ((length key ≤ block) × (kprime ≡ key ++ zeros (block - length key)))
      ⊎ ((block < length key)
          × (d : Bytes) × IsHash h0 out_bytes key d
          × (kprime ≡ d ++ zeros (block - length d)))

  -- HMAC (K, m) = H (opad || H (ipad || m))
  pub record IsHmac (h0 : List ℕ) (out_bytes : ℕ) (key msg mac : Bytes) : Type 0 where
    pub kprime : Bytes
    pub inner : Bytes
    pub block_key : IsBlockKey h0 out_bytes key kprime
    pub inner_hash :
        IsHash h0 out_bytes (map (λ (b : ℕ). bit_xor b hmac_ipad_byte) kprime ++ msg) inner
    pub outer_hash :
        IsHash h0 out_bytes (map (λ (b : ℕ). bit_xor b hmac_opad_byte) kprime ++ inner) mac

  module _ (wide : 8 ≤ field) (narrow : field < block) (h0 : List ℕ) (out_bytes : ℕ) where
    finish-IsHash :
        (m : Bytes) (c : HashCtx)
        → HasAbsorbed compress block h0 m c
        → IsHash h0 out_bytes m (finish compress block field out_bytes c)
    unfolding finish
    finish-IsHash m c h = (
      finish_state compress block field c,
      finish_state-IsDigest compress block field wide narrow h0 m c h,
      refl,
    )

    whole_message :
        (m : Bytes) (c : HashCtx)
        → length c.buf ≡ block
        → IsHash h0 out_bytes m
            (finish compress block field out_bytes (update compress block m (init h0 c)))
    whole_message m c size =
        let pos : 0 < block = omega (arith, narrow) in
        let start = init-HasAbsorbed compress block pos h0 c size in
        finish-IsHash m _ (update-HasAbsorbed compress block pos h0 [] m _ start)

    two_messages :
        (a b : Bytes) (c : HashCtx)
        → length c.buf ≡ block
        → HasAbsorbed compress block h0
            (a ++ b)
            (update compress block b (update compress block a (init h0 c)))
    two_messages a b c size =
        let pos : 0 < block = omega (arith, narrow) in
        let start = init-HasAbsorbed compress block pos h0 c size in
        let after_a = update-HasAbsorbed compress block pos h0 [] a _ start in
        update-HasAbsorbed compress block pos h0 a b _ after_a

    filled_block :
        (used : Bytes) → write_at (zeros block) 0 used ≡ used ++ zeros (block - length used)
    unfolding write_at
    filled_block used =
        ap (λ (x : Bytes). used ++ x)
          (ap (λ (k : ℕ). drop k (zeros block)) (omega arith) ∙ drop-replicate (length used) block)

    hmac_key_lem :
        (key : Bytes) → IsBlockKey h0 out_bytes key (hmac_key compress block field h0 out_bytes key)
    unfolding hmac_key
    hmac_key_lem key = elim (Bool-cases (ltb block (length key))) [
      | inl long ↦ rw long (
          inr (
            ground arith,
            finish compress block field out_bytes
                (update compress block key (init h0 (new_ctx block))),
            whole_message key (new_ctx block)
                (length-new_ctx compress block (omega (arith, narrow))),
            filled_block _,
          ))
      | inr short ↦ rw short (inl (ground arith, filled_block key))
    ]

    -- For any compression function, with a length field of at least 8 bytes that is shorter than
    -- a block (16 and 128 for SHA-512): hmac_sha512_impl, which feeds the incremental contexts,
    -- returns HMAC of the key and the message as it is defined for whole messages: the hash of
    -- the outer key followed by the hash of the inner key followed by the message, where the
    -- block key is the key, or its hash if it is longer than a block, filled up with zeros.
    pub hmac_sha512_impl-IsHmac :
        (key msg : Bytes)
        → IsHmac h0 out_bytes key msg (hmac_sha512_impl compress block field h0 key msg out_bytes)
    unfolding hmac_sha512_impl
    hmac_sha512_impl-IsHmac key msg =
        let kprime : Bytes = hmac_key compress block field h0 out_bytes key in
        let ikey : Bytes = map (λ (b : ℕ). bit_xor b hmac_ipad_byte) kprime in
        let okey : Bytes = map (λ (b : ℕ). bit_xor b hmac_opad_byte) kprime in
        let ctx : HashCtx =
          update compress block msg (update compress block ikey (init h0 (new_ctx block))) in
        let inner : Bytes = finish compress block field out_bytes ctx in
        let first =
          two_messages ikey msg (new_ctx block)
            (length-new_ctx compress block (omega (arith, narrow))) in
        record {
          kprime = kprime;
          inner = inner;
          block_key = hmac_key_lem key;
          inner_hash = finish-IsHash (ikey ++ msg) ctx first;
          outer_hash = finish-IsHash (okey ++ inner) _ (two_messages okey inner ctx first.buffer);
        }
