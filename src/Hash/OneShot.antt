-- ===== src/Hash/OneShot.antt =====
-- providers/arm_asm/sha512.hpp: SHA-384 of a whole message, against the incremental context. The
-- compression function, which is written with vector intrinsics, is a parameter.
use claude_crypto.Base.{
  ℕ, zero, suc, ◌-◌, ◌*◌, ◌%◌, ◌^◌, ◌<◌, ◌≤◌, ◌≡◌, inl, inr, refl, sym, ap, ap₂, subst, ◌∙◌,
  Bool-cases, ltb, if◌then◌else◌, List, [], length, length-append, length-take, length-drop, take,
  drop, take-append_at, drop-append_at, take-append-drop, set, replicate, arith,
}
use claude_crypto.Api.Result.{Bytes}
use claude_crypto.Hash.{
  HashCtx, be_word, write_at, write_state, marked_pad, init, new_ctx, update, finish_state, finish,
}
use claude_crypto.Hash.Absorb.{Absorbs, partial, whole, HasAbsorbed}
use claude_crypto.Hash.Update.{length-new_ctx, init-HasAbsorbed, update-HasAbsorbed}

module _ (compress : List ℕ → Bytes → List ℕ) (block : ℕ) where
  -- The loop over the whole blocks, at most `fuel` of them.
  unfoldable pub block_loop : ℕ → List ℕ → Bytes → List ℕ × Bytes
  block_loop zero state msg = (state, msg)
  block_loop (suc fuel) state msg =
      let rest = block_loop fuel (compress state (take block msg)) (drop block msg) in
      if◌then◌else◌ {A = List ℕ × Bytes} (ltb (length msg) block) (state, msg) rest

  loop-Absorbs :
      (fuel : ℕ) (s : List ℕ) (m : Bytes)
      → 0 < block
      → length m ≤ fuel
      → Absorbs compress block s m (block_loop fuel s m).0 (block_loop fuel s m).1
  unfolding block_loop
  loop-Absorbs zero s m pos enough = partial m (omega (arith, pos, enough))
  loop-Absorbs (suc fuel) s m pos enough = elim (Bool-cases (ltb (length m) block)) [
    | inl short ↦ rw short (partial m (ground arith))
    | inr long ↦
        let fits : block ≤ length m = ground arith in
        let next =
          loop-Absorbs fuel (compress s (take block m)) (drop block m) pos
            (omega (arith, length-drop block m, pos, enough, fits)) in
        rw long (
          subst
            (λ (x : Bytes).
              Absorbs compress block s x
                (block_loop fuel (compress s (take block m)) (drop block m)).0
                (block_loop fuel (compress s (take block m)) (drop block m)).1)
            (take-append-drop block m)
            (whole (take block m) (drop block m) (omega (arith, length-take block m, fits)) next))
  ]

  -- What is left over, and the state, are determined by the message.
  Absorbs-unique :
      {s s' t t' : List ℕ} {m m' r r' : Bytes}
      → Absorbs compress block s m t r
      → Absorbs compress block s' m' t' r'
      → s ≡ s'
      → m ≡ m'
      → (t ≡ t') × (r ≡ r')
  Absorbs-unique (partial r short) (partial r' short') e_s e = (e_s, e)
  Absorbs-unique (partial r short) (whole b m size rest) e_s e =
      absurd (omega (arith, short, ap length e, length-append b m, size))
  Absorbs-unique (whole b m size rest) (partial r' short) e_s e =
      absurd (omega (arith, short, ap length e, length-append b m, size))
  Absorbs-unique (whole b m size rest) (whole b' m' size' rest') e_s e =
      let first : b ≡ b' =
        sym (take-append_at block b m size)
        ∙ ap (take block) e
        ∙ take-append_at block b' m' size' in
      let behind : m ≡ m' =
        sym (drop-append_at block b m size)
        ∙ ap (drop block) e
        ∙ drop-append_at block b' m' size' in
      Absorbs-unique rest rest' (ap₂ compress e_s first) behind

module _ (compress : List ℕ → Bytes → List ℕ) (block field : ℕ) where
  -- The padded final block, or two.
  unfoldable pub last_blocks : List ℕ → Bytes → ℕ → List ℕ
  unfolding write_at
  last_blocks state tail msg_len =
      let marked = set (write_at (replicate (2 * block) 0) 0 tail) (length tail) 0x80 in
      let bit_len_be = be_word (msg_len * 8 % 2 ^ 64) in
      if ltb (length tail) (block - field)
      then compress state (take block (write_at marked (block - 8) bit_len_be))
      else let pad = write_at marked (2 * block - 8) bit_len_be in
        compress (compress state (take block pad)) (take block (drop block pad))

  finish_state-last_blocks :
      (s : List ℕ) (m : Bytes) (c : HashCtx)
      → HasAbsorbed compress block s m c
      → finish_state compress block field c ≡ last_blocks c.state (take c.buf_used c.buf) (length m)
  unfolding finish_state marked_pad last_blocks
  finish_state-last_blocks s m c h =
      let used : length (take c.buf_used c.buf) ≡ c.buf_used =
        omega (arith, length-take c.buf_used c.buf, h.buffer, h.room) in
      let bits : length m * 8 % 2 ^ 64 ≡ c.total_bytes * 8 % 2 ^ 64 = omega (arith, h.count) in
      rw (used, bits) refl

-- SHA-384, for its initial state.
unfoldable pub sha384 : (List ℕ → Bytes → List ℕ) → List ℕ → Bytes → Bytes
unfolding block_loop last_blocks write_state
sha384 compress sha384_h0 msg =
    let (state, tail) = block_loop compress 128 (length msg) sha384_h0 msg in
    write_state (take 6 (last_blocks compress 128 16 state tail (length msg)))

abbrev streamed : (List ℕ → Bytes → List ℕ) → List ℕ → Bytes → HashCtx
streamed compress h0 msg = update compress 128 msg (init h0 (new_ctx 128))

-- For any compression function, the one-shot sha384 of a message is what the incremental context
-- gives: init, one update with the message, and finish for 48 bytes.
pub sha384-finish :
    (compress : List ℕ → Bytes → List ℕ) (sha384_h0 : List ℕ) (msg : Bytes)
    → sha384 compress sha384_h0 msg
      ≡ finish compress 128 16 48 (update compress 128 msg (init sha384_h0 (new_ctx 128)))
unfolding sha384 finish
sha384-finish compress h0 msg =
    let pos : 0 < 128 = omega arith in
    let c : HashCtx = streamed compress h0 msg in
    let h : HasAbsorbed compress 128 h0 msg c =
      update-HasAbsorbed compress 128 pos h0 [] msg _
        (init-HasAbsorbed compress 128 pos h0 (new_ctx 128) (length-new_ctx compress 128 pos)) in
    let (state, tail) =
      Absorbs-unique compress 128 (loop-Absorbs compress 128 (length msg) h0 msg pos (omega arith))
        h.blocks refl refl in
    ap (λ (x : List ℕ). write_state (take 6 x))
      (ap₂ (λ (t : List ℕ) (r : Bytes). last_blocks compress 128 16 t r (length msg)) state tail
        ∙ sym (finish_state-last_blocks compress 128 16 h0 msg c h))
